-- ===== src/Json/Dumps.antt =====
-- `json.dumps` with its defaults: `ensure_ascii`, and the separators ", " and ": ".
use pabel.Base.{◌≡◌, refl, ℕ, ◌+◌, ◌-◌, ◌/◌, ◌%◌, Bool, true, false, ◌&&◌, not, [], ◌∷◌, ◌++◌}
use pabel.Base.{Text, codes, nat_beq, leb, ltb, if◌then◌else◌}
use pabel.Json.{Json, Items, Fields, null, bool, num, str, arr, obj, nil, cons, end, field}

hex_digit : ℕ → ℕ
hex_digit d = if ltb d 10 then b'0' + d else b'a' + (d - 10)

-- `\uXXXX`
unicode_escape : ℕ → Text
unfolding hex_digit
unicode_escape n =
    92
    ∷ b'u'
    ∷ hex_digit (n / 4096 % 16)
    ∷ hex_digit (n / 256 % 16)
    ∷ hex_digit (n / 16 % 16)
    ∷ hex_digit (n % 16)
    ∷ []

-- The characters that need no escape.
abbrev pub is_plain : ℕ → Bool
is_plain c = leb 32 c && (leb c 126 && (not (nat_beq c 34) && not (nat_beq c 92)))

-- Above the basic plane a character is printed as two surrogates.
pub escape_char : ℕ → Text
unfolding unicode_escape
escape_char c =
    if is_plain c
    then c ∷ []
    else if nat_beq c 34
    then codes "\\\""
    else if nat_beq c 92
    then codes "\\\\"
    else if nat_beq c 10
    then codes "\\n"
    else if nat_beq c 13
    then codes "\\r"
    else if nat_beq c 9
    then codes "\\t"
    else if nat_beq c 12
    then codes "\\f"
    else if nat_beq c 8
    then codes "\\b"
    else if ltb c 65536
    then unicode_escape c
    else unicode_escape (55296 + (c - 65536) / 1024) ++ unicode_escape (56320 + (c - 65536) % 1024)

unfoldable pub escape : Text → Text
unfolding escape_char
escape [] = []
escape (c ∷ s) = escape_char c ++ escape s

abbrev pub quoted : Text → Text
quoted s = 34 ∷ (escape s ++ (34 ∷ []))

-- The entries after the first stand behind a separator.
unfoldable mutual
  pub dumps : Json → Text
  dumps null = codes "null"
  dumps (bool true) = codes "true"
  dumps (bool false) = codes "false"
  dumps (num t) = t
  dumps (str s) = quoted s
  dumps (arr nil) = codes "[]"
  dumps (arr (cons v vs)) = 91 ∷ (dumps v ++ dumps_items vs)
  dumps (obj end) = codes "{}"
  dumps (obj (field k v fs)) = 123 ∷ (quoted k ++ (58 ∷ 32 ∷ (dumps v ++ dumps_fields fs)))

  pub dumps_items : Items → Text
  dumps_items nil = 93 ∷ []
  dumps_items (cons v vs) = 44 ∷ 32 ∷ (dumps v ++ dumps_items vs)

  pub dumps_fields : Fields → Text
  dumps_fields end = 125 ∷ []
  dumps_fields (field k v fs) = 44 ∷ 32 ∷ (quoted k ++ (58 ∷ 32 ∷ (dumps v ++ dumps_fields fs)))

example_text :
    dumps
      (obj (field (codes "a") (arr (cons (bool true) (cons (str (233 ∷ 10 ∷ 34 ∷ [])) nil))) end))
    ≡ codes "{\"a\": [true, \"\\u00e9\\n\\\"\"]}"
unfolding dumps escape
example_text = refl
