-- ===== src/Json/Within.antt =====
-- The texts that stand as values in a JSON value, and where `json.dumps` prints them.
use pabel.Base.{ℕ, ◌≡◌, refl, sym, ◌∙◌, ap, true, [], ◌∷◌, ◌++◌, arith}
use pabel.Base.{Text}
use mathlib.Core.List.{append_assoc, append-nil}
use pabel.Json.{Json, Items, Fields, str, arr, obj, cons, field}
use pabel.Json.Dumps.{dumps, dumps_items, dumps_fields, quoted, escape, escape_char, is_plain}

mutual
  pub data Within (s : Text) : Json → Type 0 where
    itself : Within s (str s)
    in_items : {vs : Items} → WithinItems s vs → Within s (arr vs)
    in_fields : {fs : Fields} → WithinFields s fs → Within s (obj fs)

  pub data WithinItems (s : Text) : Items → Type 0 where
    first_item : {v : Json} {vs : Items} → Within s v → WithinItems s (cons v vs)
    later_item : {v : Json} {vs : Items} → WithinItems s vs → WithinItems s (cons v vs)

  pub data WithinFields (s : Text) : Fields → Type 0 where
    first_field : {k : Text} {v : Json} {fs : Fields} → Within s v → WithinFields s (field k v fs)
    later_field :
        {k : Text} {v : Json} {fs : Fields} → WithinFields s fs → WithinFields s (field k v fs)

-- `whole` has `part` in it.
pub record Infix (part whole : Text) : Type 0 where
  pub front : Text
  pub behind : Text
  pub parts : whole ≡ front ++ (part ++ behind)

pub Infix-append_right : {part whole : Text} (t : Text) → Infix part whole → Infix part (whole ++ t)
Infix-append_right {part} t i = record {
  front = i.front;
  behind = i.behind ++ t;
  parts =
      ap (λ x. x ++ t) i.parts
      ∙ (append_assoc i.front (part ++ i.behind) t
          ∙ ap (λ x. i.front ++ x) (append_assoc part i.behind t));
}

pub Infix-append_left : {part whole : Text} (t : Text) → Infix part whole → Infix part (t ++ whole)
Infix-append_left {part} t i = record {
  front = t ++ i.front;
  behind = i.behind;
  parts = ap (λ x. t ++ x) i.parts ∙ sym (append_assoc t i.front (part ++ i.behind));
}

-- behind a key
of_entry : {part : Text} (k x : Text) → Infix part x → Infix part (quoted k ++ (58 ∷ 32 ∷ x))
of_entry k x i = Infix-append_left (quoted k) (Infix-append_left (58 ∷ 32 ∷ []) i)

mutual
  unfolding dumps

  infix_of : {s : Text} {v : Json} → Within s v → Infix (quoted s) (dumps v)
  infix_of {s} itself = record { front = []; behind = []; parts = sym (append-nil (quoted s)) }
  infix_of (in_items (first_item {vs = vs} m)) =
      Infix-append_left (91 ∷ []) (Infix-append_right (dumps_items vs) (infix_of m))
  infix_of (in_items (later_item {v = v} m)) =
      Infix-append_left (91 ∷ []) (Infix-append_left (dumps v) (infix_of_items m))
  infix_of (in_fields (first_field {k = k} {v = v} {fs = fs} m)) =
      Infix-append_left (123 ∷ []) (
        of_entry k (dumps v ++ dumps_fields fs) (Infix-append_right (dumps_fields fs) (infix_of m)))
  infix_of (in_fields (later_field {k = k} {v = v} {fs = fs} m)) =
      Infix-append_left (123 ∷ [])
        (of_entry k (dumps v ++ dumps_fields fs) (Infix-append_left (dumps v) (infix_of_fields m)))

  infix_of_items : {s : Text} {vs : Items} → WithinItems s vs → Infix (quoted s) (dumps_items vs)
  infix_of_items (first_item {vs = vs} m) =
      Infix-append_left (44 ∷ 32 ∷ []) (Infix-append_right (dumps_items vs) (infix_of m))
  infix_of_items (later_item {v = v} m) =
      Infix-append_left (44 ∷ 32 ∷ []) (Infix-append_left (dumps v) (infix_of_items m))

  infix_of_fields :
      {s : Text} {fs : Fields} → WithinFields s fs → Infix (quoted s) (dumps_fields fs)
  infix_of_fields (first_field {k = k} {v = v} {fs = fs} m) =
      Infix-append_left (44 ∷ 32 ∷ []) (
        of_entry k (dumps v ++ dumps_fields fs) (Infix-append_right (dumps_fields fs) (infix_of m)))
  infix_of_fields (later_field {k = k} {v = v} {fs = fs} m) =
      Infix-append_left (44 ∷ 32 ∷ [])
        (of_entry k (dumps v ++ dumps_fields fs) (Infix-append_left (dumps v) (infix_of_fields m)))

-- A text value is printed, escaped and between quotes, wherever it stands.
pub Infix-quoted-dumps : {s : Text} {v : Json} → Within s v → Infix (quoted s) (dumps v)
Infix-quoted-dumps m = infix_of m

pub escape-append : (s t : Text) → escape (s ++ t) ≡ escape s ++ escape t
unfolding escape
escape-append [] t = refl
escape-append (c ∷ s) t =
    rw (escape-append s t) (sym (append_assoc (escape_char c) (escape s) (escape t)))

-- A plain character stands for itself.
pub escape-plain : (c : ℕ) (s : Text) → is_plain c ≡ true → escape (c ∷ s) ≡ c ∷ escape s
unfolding escape
escape-plain c s h = ground arith
