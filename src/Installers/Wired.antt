-- ===== src/Installers/Wired.antt =====
-- Where a hook command stands after an installer's edit, and that later edits leave it there.
use pabel.Base.{◌≡◌, refl, ap, sym, ◌∙◌, true, false, Option, some, arith, inl, inr, Bool-cases}
use pabel.Base.{Text, codes, text_eq, text_eq_instance}
use pabel.Base.Exec.{Result, ok, err}
use pabel.Json.{Json, Items, Fields, null, bool, num, str, arr, obj, end, field, find, with_field}
use pabel.Json.Update.{find-with_field, find-with_field_ne}
use pabel.Failure.{Failure}
use pabel.Installers.Hooks.{command_present, present_in_items, present_in_fields}
use pabel.Installers.Setting.{◌>>=◌, set_in, as_dict, default}

-- the command stands in the list of an event, below "hooks"
pub record WiredAt (command event : Text) (d : Json) : Type 0 where
  pub fields : Fields
  pub hooks : Fields
  pub entries : Items
  pub is_dict : d ≡ obj fields
  pub has_hooks : find (codes "hooks") fields ≡ some (obj hooks)
  pub has_event : find event hooks ≡ some (arr entries)
  pub present : present_in_items command entries ≡ true

pub find-present :
    (c k : Text) (v : Json) (fs : Fields)
    → find k fs ≡ some v
    → command_present c v ≡ true
    → present_in_fields c fs ≡ true
unfolding find command_present
find-present c k v end h p = cc
find-present c k v (field j w fs) h p = elim (Bool-cases (text_eq j k)) [
  | inl hit ↦ let same : w ≡ v = ground (arith, hit) in rw (same, p) refl
  | inr miss ↦ ground (arith, find-present c k v fs (ground (arith, miss)) p)
]

pub WiredAt-present : (c event : Text) (d : Json) → WiredAt c event d → command_present c d ≡ true
unfolding command_present
WiredAt-present c event d w = rw w.is_dict (
    find-present c (codes "hooks") (obj w.hooks) w.fields w.has_hooks
      (find-present c event (arr w.entries) w.hooks w.has_event w.present))

-- what an edit of one event writes
pub bind-ok :
    {A B : Type 0} (m : Result Failure A) (f : A → Result Failure B) (b : B)
    → (m >>= f) ≡ ok b
    → (a : A) × (m ≡ ok a) × (f a ≡ ok b)
bind-ok (ok a) f b h = (a, refl, h)
bind-ok (err e) f b h = cc

as_dict-ok : (d : Json) (fs : Fields) → as_dict d ≡ ok fs → d ≡ obj fs
as_dict-ok null fs h = cc
as_dict-ok (bool b) fs h = cc
as_dict-ok (num t) fs h = cc
as_dict-ok (str s) fs h = cc
as_dict-ok (arr vs) fs h = cc
as_dict-ok (obj gs) fs h = cc

-- what an edit that succeeds has read and written
record SetIn (outer key : Text) (f : Option Json → Result Failure Json) (d d' : Json) : Type 0 where
  fields : Fields
  inner : Fields
  value : Json
  was : d ≡ obj fields
  was_inner : default (obj end) (find outer fields) ≡ obj inner
  made : f (find key inner) ≡ ok value
  result : d' ≡ obj (with_field outer (obj (with_field key value inner)) fields)

set_in-ok :
    (outer key : Text) (f : Option Json → Result Failure Json) (d d' : Json)
    → set_in outer key f d ≡ ok d'
    → SetIn outer key f d d'
unfolding set_in
set_in-ok outer key f d d' h =
    let put =
      λ (fs inner : Fields) (v : Json). obj (with_field outer (obj (with_field key v inner)) fs) in
    let (fs, was, h1) =
      bind-ok (as_dict d)
        (λ fs. as_dict (default (obj end) (find outer fs)) >>= λ inner.
          f (find key inner) >>= λ v. ok (put fs inner v))
        d' h in
    let (inner, was_inner, h2) =
      bind-ok (as_dict (default (obj end) (find outer fs)))
        (λ inner. f (find key inner) >>= λ v. ok (put fs inner v)) d' h1 in
    let (v, made, h3) = bind-ok (f (find key inner)) (λ v. ok (put fs inner v)) d' h2 in
    record {
      fields = fs;
      inner = inner;
      value = v;
      was = as_dict-ok d fs was;
      was_inner = as_dict-ok (default (obj end) (find outer fs)) inner was_inner;
      made = made;
      result = cc;
    }

pub set_in-WiredAt :
    (c event : Text) (f : Option Json → Result Failure Json) (d d' : Json)
    → ((o : Option Json) (v : Json)
        → f o ≡ ok v
        → (vs : Items) × (v ≡ arr vs) × (present_in_items c vs ≡ true))
    → set_in (codes "hooks") event f d ≡ ok d'
    → WiredAt c event d'
unfolding set_in
set_in-WiredAt c event f d d' wf h =
    let s = set_in-ok (codes "hooks") event f d d' h in
    let (vs, is_list, present) = wf (find event s.inner) s.value s.made in
    record {
      fields = with_field (codes "hooks") (obj (with_field event s.value s.inner)) s.fields;
      hooks = with_field event s.value s.inner;
      entries = vs;
      is_dict = s.result;
      has_hooks = find-with_field (codes "hooks") (obj (with_field event s.value s.inner)) s.fields;
      has_event = find-with_field event s.value s.inner ∙ ap some is_list;
      present = present;
    }

-- and what it leaves in place
pub set_in-keeps-WiredAt :
    (c event other : Text) (f : Option Json → Result Failure Json) (d d' : Json)
    → text_eq other event ≡ false
    → WiredAt c event d
    → set_in (codes "hooks") other f d ≡ ok d'
    → WiredAt c event d'
unfolding set_in
set_in-keeps-WiredAt c event other f d d' ne w h =
    let s = set_in-ok (codes "hooks") other f d d' h in
    let same : s.fields ≡ w.fields =
      let e : obj s.fields ≡ obj w.fields = sym s.was ∙ w.is_dict in cc in
    let same_hooks : s.inner ≡ w.hooks =
      let found : find (codes "hooks") s.fields ≡ some (obj w.hooks) = rw same w.has_hooks in
      let e : obj s.inner ≡ obj w.hooks = sym s.was_inner ∙ ap (default (obj end)) found in cc in
    record {
      fields = with_field (codes "hooks") (obj (with_field other s.value s.inner)) s.fields;
      hooks = with_field other s.value s.inner;
      entries = w.entries;
      is_dict = s.result;
      has_hooks = find-with_field (codes "hooks") (obj (with_field other s.value s.inner)) s.fields;
      has_event =
          find-with_field_ne other event s.value s.inner ne
          ∙ ap (find event) same_hooks
          ∙ w.has_event;
      present = w.present;
    }
