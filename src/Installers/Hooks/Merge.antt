-- ===== src/Installers/Hooks/Merge.antt =====
-- What `merge_hook_list` does to the entries of a hooks array.
use pabel.Base.{
  ◌≡◌, refl, ap, ◌∙◌, true, false, Option, none, some, arith, inl, inr, Bool-cases, Option-cases,
}
use pabel.Base.{Text, codes, text_eq, text_eq_refl, if◌then◌else◌}
use mathlib.Core.Path.{subst}
use pabel.Json.{
  Json, Items, Fields, null, bool, num, str, arr, obj, nil, cons, end, field, find, with_field,
}
use pabel.Json.Update.{find-with_field, find-with_field_ne, with_field_same}
use pabel.Installers.Hooks.{
  is_hook, names_command, update, refresh, refresh_first, hook_entry, append, merge_hooks,
  hook_timeout_seconds, refresh_fields,
}

-- each key of a dict stands once
abbrev pub Distinct : Fields → Type 0
Distinct end = Unit
Distinct (field k v fs) = (find k fs ≡ none) × Distinct fs

-- What `extra_fields` may be: a dict that sets neither the command nor the timeout.
pub record IsExtra (extra : Fields) : Type 0 where
  pub distinct : Distinct extra
  pub no_command : find (codes "command") extra ≡ none
  pub no_timeout : find (codes "timeout") extra ≡ none

find-update_ne :
    (k : Text) (extra fs : Fields) → find k extra ≡ none → find k (update extra fs) ≡ find k fs
unfolding find update
find-update_ne k end fs h = refl
find-update_ne k (field j v extra) fs h = elim (Bool-cases (text_eq j k)) [
  | inl hit ↦ ground arith
  | inr miss ↦
      find-update_ne k extra (with_field j v fs) (ground arith) ∙ find-with_field_ne j k v fs miss
]

-- `fs` has the entries of `extra`
abbrev Holds : Fields → Fields → Type 0
Holds end fs = Unit
Holds (field k v extra) fs = (find k fs ≡ some v) × Holds extra fs

update_same : (extra fs : Fields) → Holds extra fs → update extra fs ≡ fs
unfolding update
update_same end fs h = refl
update_same (field k v extra) fs h = rw (with_field_same k v fs h.0) (update_same extra fs h.1)

update-Holds : (extra fs : Fields) → Distinct extra → Holds extra (update extra fs)
unfolding update
update-Holds end fs d = tt
update-Holds (field k v extra) fs d = (
  find-update_ne k extra (with_field k v fs) d.0 ∙ find-with_field k v fs,
  update-Holds extra (with_field k v fs) d.1,
)

abbrev base_entry : Text → Fields
base_entry command =
    field (codes "type") (str (codes "command"))
      (field (codes "command") (str command) (field (codes "timeout") hook_timeout_seconds end))

base_entry_timeout :
    (command : Text) → find (codes "timeout") (base_entry command) ≡ some hook_timeout_seconds
unfolding find text_eq
base_entry_timeout command = refl

base_entry_command :
    (command : Text) → find (codes "command") (base_entry command) ≡ some (str command)
unfolding find text_eq
base_entry_command command = refl

timeout-ne-command : text_eq (codes "timeout") (codes "command") ≡ false
unfolding text_eq
timeout-ne-command = refl

-- a refreshed entry is refreshed
refresh_fields_again :
    (extra fs : Fields)
    → IsExtra extra
    → find (codes "timeout") fs ≡ some hook_timeout_seconds
    → refresh_fields extra (update extra fs) ≡ update extra fs
refresh_fields_again extra fs e t =
    ap (update extra) (
      with_field_same (codes "timeout") hook_timeout_seconds (update extra fs)
        (find-update_ne (codes "timeout") extra fs e.no_timeout ∙ t))
    ∙ update_same extra (update extra fs) (update-Holds extra fs e.distinct)

refresh-refresh :
    (extra : Fields) (v : Json) → IsExtra extra → refresh extra (refresh extra v) ≡ refresh extra v
unfolding refresh
refresh-refresh extra null e = refl
refresh-refresh extra (bool b) e = refl
refresh-refresh extra (num t) e = refl
refresh-refresh extra (str s) e = refl
refresh-refresh extra (arr vs) e = refl
refresh-refresh extra (obj fs) e = ap obj (
    refresh_fields_again extra (with_field (codes "timeout") hook_timeout_seconds fs) e
      (find-with_field (codes "timeout") hook_timeout_seconds fs))

refresh-hook_entry :
    (command : Text) (extra : Fields)
    → IsExtra extra
    → refresh extra (hook_entry command extra) ≡ hook_entry command extra
unfolding refresh hook_entry
refresh-hook_entry command extra e =
    ap obj (refresh_fields_again extra (base_entry command) e (base_entry_timeout command))

pub is_hook-refresh :
    (command : Text) (extra : Fields) (v : Json)
    → IsExtra extra
    → is_hook command (refresh extra v) ≡ is_hook command v
unfolding is_hook refresh
is_hook-refresh command extra null e = refl
is_hook-refresh command extra (bool b) e = refl
is_hook-refresh command extra (num t) e = refl
is_hook-refresh command extra (str s) e = refl
is_hook-refresh command extra (arr vs) e = refl
is_hook-refresh command extra (obj fs) e = ap (names_command command) (
    find-update_ne (codes "command") extra (with_field (codes "timeout") hook_timeout_seconds fs)
      e.no_command
    ∙ find-with_field_ne (codes "timeout") (codes "command") hook_timeout_seconds fs
        timeout-ne-command)

pub is_hook-hook_entry :
    (command : Text) (extra : Fields)
    → IsExtra extra
    → is_hook command (hook_entry command extra) ≡ true
unfolding is_hook hook_entry
is_hook-hook_entry command extra e =
    ap (names_command command) (
      find-update_ne (codes "command") extra (base_entry command) e.no_command
      ∙ base_entry_command command)
    ∙ text_eq_refl command

refresh_first-again :
    (c : Text) (extra : Fields) (vs ws : Items)
    → IsExtra extra
    → refresh_first c extra vs ≡ some ws
    → refresh_first c extra ws ≡ some ws
unfolding refresh_first
refresh_first-again c extra nil ws e h = cc
refresh_first-again c extra (cons v vs) ws e h = elim (Bool-cases (is_hook c v)) [
  | inl hit ↦
      let same : cons (refresh extra v) vs ≡ ws = ground (arith, hit) in
      subst (λ us. refresh_first c extra us ≡ some us) same
        (rw (is_hook-refresh c extra v e, hit, refresh-refresh extra v e) refl)
  | inr miss ↦ elim (Option-cases (refresh_first c extra vs)) [
    | inl gone ↦ absurd (ground (arith, miss, gone))
    | inr found ↦
        let same : cons v found.0 ≡ ws = ground (arith, miss, found.1) in
        subst (λ us. refresh_first c extra us ≡ some us) same
          (rw (miss, refresh_first-again c extra vs found.0 e found.1) refl)
  ]
]

refresh_first-append :
    (c : Text) (extra : Fields) (vs : Items)
    → IsExtra extra
    → refresh_first c extra vs ≡ none
    → refresh_first c extra (append vs (hook_entry c extra)) ≡ some (append vs (hook_entry c extra))
unfolding refresh_first append
refresh_first-append c extra nil e h =
    rw (is_hook-hook_entry c extra e, refresh-hook_entry c extra e) refl
refresh_first-append c extra (cons v vs) e h = elim (Bool-cases (is_hook c v)) [
  | inl hit ↦ absurd (ground (arith, hit))
  | inr miss ↦ rw (miss, refresh_first-append c extra vs e (ground (arith, miss))) refl
]

merged_again :
    (c : Text) (extra : Fields) (vs : Items) (o : Option Items)
    → IsExtra extra
    → refresh_first c extra vs ≡ o
    → merge_hooks c extra (merge_hooks c extra vs) ≡ merge_hooks c extra vs
unfolding merge_hooks
merged_again c extra vs none e h = rw (h, refresh_first-append c extra vs e h) refl
merged_again c extra vs (some ws) e h = rw (h, refresh_first-again c extra vs ws e h) refl

-- Merging a hook twice is merging it once, where the extra fields are a dict that sets neither the
-- command nor the timeout.
pub merge_hooks-merge_hooks :
    (c : Text) (extra : Fields) (vs : Items)
    → IsExtra extra
    → merge_hooks c extra (merge_hooks c extra vs) ≡ merge_hooks c extra vs
merge_hooks-merge_hooks c extra vs e = merged_again c extra vs (refresh_first c extra vs) e refl

-- the entries that are not of this command, in order
abbrev pub others : Text → Items → Items
others c nil = nil
others c (cons v vs) = if is_hook c v then others c vs else cons v (others c vs)

others-append :
    (c : Text) (vs : Items) (w : Json) → is_hook c w ≡ true → others c (append vs w) ≡ others c vs
unfolding append
others-append c nil w h = rw h refl
others-append c (cons v vs) w h = ground (arith, others-append c vs w h)

others-refresh_first :
    (c : Text) (extra : Fields) (vs ws : Items)
    → IsExtra extra
    → refresh_first c extra vs ≡ some ws
    → others c ws ≡ others c vs
unfolding refresh_first
others-refresh_first c extra nil ws e h = cc
others-refresh_first c extra (cons v vs) ws e h = elim (Option-cases (refresh_first c extra vs)) [
  | inl gone ↦ ground (arith, is_hook-refresh c extra v e, gone)
  | inr found ↦ ground (
    arith,
    is_hook-refresh c extra v e,
    found.1,
    others-refresh_first c extra vs found.0 e found.1,
  )
]

merged_others :
    (c : Text) (extra : Fields) (vs : Items) (o : Option Items)
    → IsExtra extra
    → refresh_first c extra vs ≡ o
    → others c (merge_hooks c extra vs) ≡ others c vs
unfolding merge_hooks
merged_others c extra vs none e h =
    rw h (others-append c vs (hook_entry c extra) (is_hook-hook_entry c extra e))
merged_others c extra vs (some ws) e h = rw h (others-refresh_first c extra vs ws e h)

-- Where the extra fields have each key once and set neither the command nor the timeout, merging a
-- hook keeps every entry of another command, in order and unchanged.
pub others-merge_hooks :
    (c : Text) (extra : Fields) (vs : Items)
    → IsExtra extra
    → others c (merge_hooks c extra vs) ≡ others c vs
others-merge_hooks c extra vs e = merged_others c extra vs (refresh_first c extra vs) e refl
