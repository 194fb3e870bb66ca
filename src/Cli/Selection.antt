-- ===== src/Cli/Selection.antt =====
-- `_parse_selection`: agents picked by number or by key.
pub mod Sound
use pabel.Base.{
  ℕ, zero, suc, ◌+◌, ◌*◌, ◌-◌, Bool, true, false, ◌&&◌, ◌||◌, Option, none, some, List, [], ◌∷◌,
  ◌++◌,
}
use pabel.Base.{
  Text, codes, text_eq, text_eq_instance, contains, get_elem?, length, leb, is_empty, strip,
  if◌then◌else◌,
}
use pabel.Base.Exec.{Result, ok, err}
use pabel.Failure.{Failure, other_error, foreign}
use pabel.Installers.Disk.{Machine}

-- one word more where a word was read
abbrev flush : Text → List Text → List Text
flush [] words = words
flush (c ∷ word) words = (c ∷ word) ∷ words

-- `s.split()`, with the word that is being read
split_from : (ℕ → Bool) → Text → Text → List Text
split_from is_space word [] = flush word []
split_from is_space word (c ∷ s) =
    let ended = flush word (split_from is_space [] s) in
    let longer = split_from is_space (word ++ (c ∷ [])) s in if is_space c then ended else longer

-- `raw.replace(",", " ")`
abbrev spaced : Text → Text
spaced [] = []
spaced (c ∷ s) = (if text_eq (c ∷ []) (codes ",") then b' ' else c) ∷ spaced s

module _ (M : Machine) where
  abbrev is_digit : ℕ → Bool
  is_digit c = (leb b'0' c && leb c b'9') || (leb 128 c && M.is_digit_beyond c)

  abbrev all_digits : Text → Bool
  all_digits [] = true
  all_digits (c ∷ s) = is_digit c && all_digits s

  -- `token.isdigit()`
  abbrev isdigit : Text → Bool
  isdigit [] = false
  isdigit (c ∷ s) = all_digits (c ∷ s)

  abbrev digit : ℕ → Option ℕ
  digit c = if leb b'0' c && leb c b'9' then some (c - b'0') else M.digit_beyond c

  -- `int(token)`: a digit without a decimal value is refused
  unfoldable pub int_of : ℕ → Text → Result Failure ℕ
  int_of n [] = ok n
  int_of n (c ∷ s) = elim (digit c) [
    | none ↦ err (other_error (foreign (codes "ValueError")))
    | some d ↦ int_of (10 * n + d) s
  ]

  -- `keys[n - 1]` where `1 <= n <= len(keys)`
  abbrev key_at : List Text → ℕ → Option Text
  key_at keys zero = none
  key_at keys (suc n) = get_elem? keys n

  abbrev or_key : List Text → Text → Option Text → Option Text
  or_key keys token (some key) = some key
  or_key keys token none = if contains token keys then some token else none

  -- the agent that a token names
  unfoldable pub key_of : List Text → Text → Result Failure (Option Text)
  unfolding int_of
  key_of keys token =
      if isdigit token
      then elim (int_of 0 token) [ ok n ↦ ok (or_key keys token (key_at keys n)) | err e ↦ err e ]
      else ok (or_key keys token none)

  abbrev add_key : Text → List Text → List Text
  add_key key selected = if contains key selected then selected else selected ++ (key ∷ [])

  unfoldable pub select_from : List Text → List Text → List Text → Result Failure (List Text)
  unfolding key_of
  select_from keys selected [] = ok selected
  select_from keys selected (t ∷ ts) = elim (key_of keys t) [
    | err e ↦ err e
    | ok none ↦ ok []
    | ok (some key) ↦ select_from keys (add_key key selected) ts
  ]

  unfoldable pub parse_selection : Text → List Text → Result Failure (List Text)
  unfolding select_from split_from
  parse_selection raw keys =
      let s = M.lower (strip M.is_space raw) in
      let chosen = select_from keys [] (split_from M.is_space [] (spaced s)) in
      if text_eq s (codes "all") || text_eq s (codes "*") then ok keys else chosen
