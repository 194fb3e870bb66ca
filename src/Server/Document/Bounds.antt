-- ===== src/Server/Document/Bounds.antt =====
-- The groups that the sections of a loaded document belong to.
use pabel.Base.{
  ◌≡◌, ◌⊎◌, refl, ap, inl, inr, ℕ, zero, suc, ◌+◌, ◌<◌, Bool, true, false, Option, none, some, List,
  [], ◌∷◌, ◌++◌, arith,
}
use pabel.Base.{Text, length, codes, strip_left, nat_beq}
use mathlib.Core.Path.{subst}
use mathlib.Core.Option.{some-injective}
use pabel.Base.Exec.{ok}
use pabel.Json.{Json, Items, Fields, obj, nil, cons, find}
use pabel.Failure.{decimal}
use pabel.Server.{Services}
use pabel.Server.Document.{
  Group, Section, position_in, index_of, load_sections, load_groups, load_doc, load_abe, fields_of,
  iterated, ◌>>=◌, is_format, when, or_malformed,
}

-- An index `i` of a list of so many names the position `k`: it is `k`, or it counts from the end.
abbrev pub At : ℕ → Bool × ℕ → ℕ → Type 0
At len (false, n) k = (k < len) × (k ≡ n)
At len (true, n) k = (k < len) × (((n ≡ 0) × (k ≡ 0)) ⊎ (k + n ≡ len))

position_in-At : (len : ℕ) (at : Bool × ℕ) (k : ℕ) → position_in len at ≡ some k → At len at k
unfolding position_in
position_in-At len (false, n) k h = (ground arith, ground arith)
position_in-At len (true, zero) k h = (ground arith, inl (refl, ground arith))
position_in-At len (true, suc n) k h = (ground arith, inr (ground arith))

record Bound {A B : Type 0} (m : Option A) (f : A → Option B) (b : B) : Type 0 where
  value : A
  given : m ≡ some value
  gives : f value ≡ some b

bind-some :
    {A B : Type 0} (m : Option A) (f : A → Option B) (b : B) → (m >>= f) ≡ some b → Bound m f b
bind-some none f b h = cc
bind-some (some a) f b h = record { value = a; given = refl; gives = h }

-- a section for an entry: the number in its name, and the group that the entry's index names
abbrev pub Placed : ℕ → ℕ → Json → Section → Type 0
Placed len i entry s =
    (s.name ≡ codes "section " ++ decimal i)
    × ((fs : Fields) × (v : Json) × (at : Bool × ℕ) × (entry ≡ obj fs)
        × (find (codes "group") fs ≡ some v)
        × (index_of v ≡ some at)
        × At len at s.group)

-- one section for each entry, in order
abbrev pub AllPlaced : ℕ → ℕ → Items → List Section → Type 0
AllPlaced len i nil [] = Unit
AllPlaced len i nil (s ∷ ss) = ⊥
AllPlaced len i (cons v vs) [] = ⊥
AllPlaced len i (cons v vs) (s ∷ ss) = Placed len i v s × AllPlaced len (suc i) vs ss

fields_of-obj : (v : Json) (fs : Fields) → fields_of v ≡ some fs → v ≡ obj fs
fields_of-obj (obj gs) fs h = ap obj (some-injective gs fs h)
fields_of-obj v fs h = cc

module _ (S : Services) where
  load_sections-AllPlaced :
      (len i : ℕ) (vs : Items) (ss : List Section)
      → load_sections S len i vs ≡ some ss
      → AllPlaced len i vs ss
  unfolding load_sections
  load_sections-AllPlaced len i nil ss h = subst (AllPlaced len i nil) (some-injective [] ss h) tt
  load_sections-AllPlaced len i (cons v vs) ss h =
      let fs = bind-some (fields_of v) _ ss h in
      let index = bind-some (find (codes "group") fs.value) _ ss fs.gives in
      let at = bind-some (index_of index.value) _ ss index.gives in
      let k = bind-some (position_in len at.value) _ ss at.gives in
      let rest = bind-some (load_sections S len (suc i) vs) _ ss k.gives in
      subst (AllPlaced len i (cons v vs)) (some-injective _ ss rest.gives) (
        (
          refl,
          (
            fs.value,
            index.value,
            at.value,
            fields_of-obj v fs.value fs.given,
            index.given,
            at.given,
            position_in-At len at.value k.value k.given,
          ),
        ),
        load_sections-AllPlaced len (suc i) vs rest.value rest.given,
      )

  -- the sections are those of the document's entries
  abbrev pub Loaded : Json → List Section → List Group → Type 0
  Loaded doc ss gs =
      (fs : Fields) × (v : Json) × (entries : Items) × (doc ≡ obj fs)
      × (find (codes "sections") fs ≡ some v)
      × (iterated v ≡ some entries)
      × AllPlaced (length gs) 1 entries ss

  load_doc-Loaded :
      (doc : Json) (ss : List Section) (gs : List Group)
      → load_doc S doc ≡ some (ss, gs)
      → Loaded doc ss gs
  unfolding load_doc
  load_doc-Loaded doc ss gs h =
      let fs = bind-some (fields_of doc) _ (ss, gs) h in
      let format =
        bind-some (when S (is_format S (find (codes "format") fs.value))) _ (ss, gs) fs.gives in
      let groups = bind-some (find (codes "groups") fs.value) _ (ss, gs) format.gives in
      let entries = bind-some (iterated groups.value) _ (ss, gs) groups.gives in
      let loaded = bind-some (load_groups S entries.value) _ (ss, gs) entries.gives in
      let sections = bind-some (find (codes "sections") fs.value) _ (ss, gs) loaded.gives in
      let section_entries = bind-some (iterated sections.value) _ (ss, gs) sections.gives in
      let rows =
        bind-some (load_sections S (length loaded.value) 1 section_entries.value) _ (ss, gs)
          section_entries.gives in
      (
        fs.value,
        sections.value,
        section_entries.value,
        fields_of-obj doc fs.value fs.given,
        sections.given,
        section_entries.given,
        subst (λ r. AllPlaced (length r.1) 1 section_entries.value r.0)
            (some-injective _ (ss, gs) rows.gives)
            (load_sections-AllPlaced (length loaded.value) 1 section_entries.value rows.value
              rows.given),
      )

  malformed-ok :
      (m : Option (List Section × List Group)) (d : List Section × List Group)
      → or_malformed S m ≡ ok d
      → m ≡ some d
  malformed-ok none d h = cc
  malformed-ok (some e) d h = cc

  -- A document that load_abe() takes is an object, and it has one section for each entry of its
  -- "sections", in order: the i-th, counted from 1, is named "section i", and its group is the one
  -- that the entry's "group" names among the loaded groups, from the front, or from the end for a
  -- negative number; an index outside of them is not taken.
  pub load_abe-Loaded :
      (content : Text) (ss : List Section) (gs : List Group)
      → load_abe S content ≡ ok (ss, gs)
      → (doc : Json) × (S.loads (strip_left (λ c. nat_beq c 0xfeff) content) ≡ some doc)
        × Loaded doc ss gs
  unfolding load_abe
  load_abe-Loaded content ss gs h =
      let doc =
        bind-some (S.loads (strip_left (λ c. nat_beq c 0xfeff) content)) _ (ss, gs)
          (malformed-ok _ (ss, gs) h) in
      (doc.value, doc.given, load_doc-Loaded doc.value ss gs doc.gives)
