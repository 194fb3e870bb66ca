-- ===== src/Detection/Pattern.antt =====
-- The regular expressions of connector/src/pabel_connector/core/detection.py. A pattern looks at
-- the text from a position on and at the character before it; a search tries every position.
use pabel.Base.{ℕ, ◌+◌, Bool, true, false, ◌&&◌, ◌||◌, not, Option, none, some, List, [], ◌∷◌}
use pabel.Base.{Text, codes, nat_beq, leb, is_some, if◌then◌else◌}
use pabel.Platform.{Platform, is_word}

-- `(?i)` for the letters of these patterns: the capital, and the characters beyond ASCII that
-- Python's `re` takes as equal to i, k and s.
unfoldable pub fold_case : ℕ → ℕ
fold_case c =
    if leb b'A' c && leb c b'Z'
    then c + 32
    else if nat_beq c 0x130 || nat_beq c 0x131
    then b'i'
    else if nat_beq c 0x212a
    then b'k'
    else if nat_beq c 0x17f
    then b's'
    else c

-- A literal, whatever the case of its letters; what is left of the text behind it.
unfoldable pub match_literal : Text → Text → Option Text
match_literal [] s = some s
match_literal (p ∷ ps) [] = none
match_literal (p ∷ ps) (c ∷ s) =
    let rest = match_literal ps s in if nat_beq (fold_case c) p then rest else none

abbrev head_is : (ℕ → Bool) → Text → Bool
head_is p [] = false
head_is p (c ∷ s) = p c

abbrev before_is : (ℕ → Bool) → Option ℕ → Bool
before_is p none = false
before_is p (some c) = p c

unfoldable pub search : (Option ℕ → Text → Bool) → Option ℕ → Text → Bool
search at prev [] = at prev []
search at prev (c ∷ s) = at prev (c ∷ s) || search at (some c) s

abbrev then_ok : (Text → Bool) → Option Text → Bool
then_ok p none = false
then_ok p (some s) = p s

-- `[\\/]`
abbrev pub is_separator : ℕ → Bool
is_separator c = nat_beq c 92 || nat_beq c b'/'

-- `$`: the end, or a line feed at the end
abbrev at_end : Text → Bool
at_end [] = true
at_end (c ∷ []) = nat_beq c 10
at_end (c ∷ d ∷ s) = false

abbrev documents_at : Option ℕ → Text → Bool
documents_at prev s =
    (not (is_some prev) || before_is is_separator prev)
    && then_ok (λ r. head_is is_separator r || at_end r) (match_literal (codes "documents") s)

-- `DOCUMENTS_PATH.search`. The group in front matches at the start or takes one separator.
unfoldable pub documents_path : Text → Bool
unfolding search match_literal fold_case
documents_path s = search documents_at none s

module _ (P : Platform) where
  -- `\b` behind a word character, and `\b` in front of one
  abbrev ends_word : Text → Bool
  ends_word s = not (head_is (is_word P) s)

  abbrev starts_word : Option ℕ → Bool
  starts_word prev = not (before_is (is_word P) prev)

  -- `\.abe\b`
  abbrev pub extension_at : Option ℕ → Text → Bool
  extension_at prev s = then_ok ends_word (match_literal (codes ".abe") s)

  -- `ENCRYPTED_FILE.search`: the characters in front of the extension may be none.
  unfoldable pub encrypted_file : Text → Bool
  unfolding search match_literal fold_case
  encrypted_file s = search extension_at none s

  -- `\b` name `\b` for one of several names
  abbrev names_at : List Text → Option ℕ → Text → Bool
  names_at [] prev s = false
  names_at (n ∷ ns) prev s =
      (starts_word prev && then_ok ends_word (match_literal n s)) || names_at ns prev s

  -- `OABE_BINARY.search`
  unfoldable pub oabe_binary : Text → Bool
  unfolding search match_literal fold_case
  oabe_binary s =
      search
        (names_at
          (codes "oabe_setup" ∷ codes "oabe_keygen" ∷ codes "oabe_enc" ∷ codes "oabe_dec" ∷ []))
        none s

  -- `_PABEL_CONNECTOR_INTERNALS.search`
  unfoldable pub connector_internals : Text → Bool
  unfolding search match_literal fold_case
  connector_internals s =
      search (names_at (codes "pabel_connector" ∷ codes "pabel-connector-hook" ∷ [])) none s
