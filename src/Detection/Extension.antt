-- ===== src/Detection/Extension.antt =====
-- `mentions_target` on the names of encrypted documents.
use pabel.Base.{
  ℕ, ◌≡◌, refl, ap, ◌∙◌, Bool, true, ◌||◌, ◌&&◌, Option, none, some, [], ◌∷◌, ◌++◌, map, arith,
}
use pabel.Base.{Text, codes, nat_beq}
use mathlib.Core.List.{append_assoc}
use pabel.Platform.{Platform}
use pabel.Json.{Json}
use pabel.Json.Dumps.{quoted, escape, is_plain}
use pabel.Json.Within.{Within, Infix-quoted-dumps, escape-append, escape-plain}
use pabel.Detection.{mentions_target}
use pabel.Detection.Pattern.{encrypted_file, search, extension_at, match_literal, fold_case}

-- ".abe", in any mixture of capitals
abbrev pub IsExtension : Text → Type 0
IsExtension ext = map fold_case ext ≡ codes ".abe"

-- the characters of the extension
abbrev is_extension_char : ℕ → Bool
is_extension_char n = nat_beq n b'.' || (nat_beq n b'a' || (nat_beq n b'b' || nat_beq n b'e'))

fold_case-plain : (c : ℕ) → is_extension_char (fold_case c) ≡ true → is_plain c ≡ true
unfolding fold_case
fold_case-plain c h = ground arith

abbrev all_extension_chars : Text → Bool
all_extension_chars [] = true
all_extension_chars (c ∷ s) = is_extension_char c && all_extension_chars s

escape-folded :
    (ext folded : Text)
    → map fold_case ext ≡ folded
    → all_extension_chars folded ≡ true
    → escape ext ≡ ext
unfolding escape
escape-folded [] folded h k = refl
escape-folded (c ∷ s) [] h k = cc
escape-folded (c ∷ s) (n ∷ folded) h k =
    escape-plain c s (fold_case-plain c (ground arith))
    ∙ ap (λ x. c ∷ x) (escape-folded s folded (ground arith) (ground arith))

match_literal-folded :
    (ps s rest : Text) → map fold_case s ≡ ps → match_literal ps (s ++ rest) ≡ some rest
unfolding match_literal
match_literal-folded [] [] rest h = refl
match_literal-folded (p ∷ ps) [] rest h = cc
match_literal-folded [] (c ∷ s) rest h = cc
match_literal-folded (p ∷ ps) (c ∷ s) rest h = ground (arith, match_literal-folded ps s rest)

search-append :
    (at : Option ℕ → Text → Bool) (prev : Option ℕ) (a s : Text)
    → ((prev : Option ℕ) → at prev s ≡ true)
    → search at prev (a ++ s) ≡ true
unfolding search
search-append at prev [] [] h = h prev
search-append at prev [] (c ∷ s) h = rw (h prev)
search-append at prev (c ∷ a) s h = ground (arith, search-append at (some c) a s h)

around :
    (p ext front behind : Text)
    → IsExtension ext
    → front ++ (quoted (p ++ ext) ++ behind) ≡ (front ++ (34 ∷ escape p)) ++ (ext ++ (34 ∷ behind))
around p ext front behind h =
    rw (escape-append, escape-folded ext (codes ".abe") h refl) (simp append_assoc)

module _ (P : Platform) where
  -- the extension, with a quote behind it
  extension_at-extension :
      (ext : Text) (prev : Option ℕ) (rest : Text)
      → IsExtension ext
      → extension_at P prev (ext ++ (34 ∷ rest)) ≡ true
  extension_at-extension ext prev rest h =
      rw (match_literal-folded (codes ".abe") ext (34 ∷ rest) h)

  -- A tool input that holds, at any depth, a text that ends in .abe, in whatever capitals, mentions
  -- a protected target.
  pub mentions_target-extension :
      (v : Json) (p ext : Text) → Within (p ++ ext) v → IsExtension ext → mentions_target P v ≡ true
  unfolding mentions_target encrypted_file
  mentions_target-extension v p ext m h =
      let i = Infix-quoted-dumps m in
      rw (i.parts ∙ around p ext i.front i.behind h) (
        ground (
          arith,
          search-append (extension_at P) none (i.front ++ (34 ∷ escape p)) (ext ++ (34 ∷ i.behind))
              (λ prev. extension_at-extension ext prev i.behind h),
        ))
