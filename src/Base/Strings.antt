-- ===== src/Base/Strings.antt =====
-- Texts as lists of code points, and Python's operations on them that the code uses.
use Prim.Native.Nat.{ℕ}
use Prim.Native.String.{String}
use Prim.Native.Char.{code}
use mathlib.Core.Path.{◌≡◌, refl}
use mathlib.Core.Logic.{◌↔◌}
use mathlib.Core.Bool.{Bool, true, false, ◌&&◌, ◌||◌}
use mathlib.Core.Option.{Option, none, some}
use mathlib.Core.List.{List, [], ◌∷◌, ◌++◌}
use native.Mathlib.Omega.{arith}
use pabel.Base.Tests.{nat_beq, leb, Comparable, if◌then◌else◌}

abbrev pub Text : Type 0
Text = List ℕ

-- A literal of the source.
abbrev pub codes : String → Text
codes String.[] = []
codes (String.◌∷◌ c s) = code c ∷ codes s

unfoldable pub text_eq : Text → Text → Bool
text_eq [] [] = true
text_eq [] (d ∷ t) = false
text_eq (c ∷ s) [] = false
text_eq (c ∷ s) (d ∷ t) = nat_beq c d && text_eq s t

text_eq-to : (s t : Text) → text_eq s t ≡ true → s ≡ t
unfolding text_eq
text_eq-to [] [] h = refl
text_eq-to [] (d ∷ t) h = ground arith
text_eq-to (c ∷ s) [] h = ground arith
text_eq-to (c ∷ s) (d ∷ t) h = ground (arith, text_eq-to s t)

pub text_eq_refl : (s : Text) → text_eq s s ≡ true
unfolding text_eq
text_eq_refl [] = refl
text_eq_refl (c ∷ s) = ground (arith, text_eq_refl s)

pub text_eq_iff : (s t : Text) → (text_eq s t ≡ true) ↔ (s ≡ t)
text_eq_iff s t = (text_eq-to s t, λ e. rw e (text_eq_refl t))

instance abbrev pub text_eq_instance : Comparable Text
text_eq_instance = record { equals = text_eq; equals_iff = text_eq_iff }

abbrev pub is_empty : Text → Bool
is_empty [] = true
is_empty (c ∷ s) = false

-- `\w`, where it is given what is one beyond ASCII
abbrev pub word_char : (ℕ → Bool) → ℕ → Bool
word_char beyond c =
    (leb b'a' c && leb c b'z')
    || ((leb b'A' c && leb c b'Z')
        || ((leb b'0' c && leb c b'9') || (nat_beq c b'_' || (leb 128 c && beyond c))))

-- `s.startswith(t)`
unfoldable pub starts_with : Text → Text → Bool
starts_with s [] = true
starts_with [] (d ∷ t) = false
starts_with (c ∷ s) (d ∷ t) = nat_beq c d && starts_with s t

-- `needle in s`
unfoldable pub occurs : Text → Text → Bool
occurs needle [] = starts_with [] needle
occurs needle (c ∷ s) = starts_with (c ∷ s) needle || occurs needle s

-- `s.partition(sep)` for a separator of one character: what stands before the first one and what
-- stands after it, or `none` if there is none.
unfoldable pub partition : ℕ → Text → Option (Text × Text)
partition sep [] = none
partition sep (c ∷ s) =
    let rest = partition sep s in
    if nat_beq c sep
    then some ([], s)
    else elim rest [ none ↦ none | some (a, b) ↦ some (c ∷ a, b) ]

-- `s.split(sep, 1)[0]`
unfoldable pub before : ℕ → Text → Text
before sep [] = []
before sep (c ∷ s) = let rest = before sep s in if nat_beq c sep then [] else c ∷ rest

-- `s.strip(set)`, as a strip of each end
unfoldable pub strip_left : (ℕ → Bool) → Text → Text
strip_left set [] = []
strip_left set (c ∷ s) = let rest = strip_left set s in if set c then rest else c ∷ s

unfoldable pub strip_right : (ℕ → Bool) → Text → Text
strip_right set [] = []
strip_right set (c ∷ s) =
    let rest = strip_right set s in if is_empty rest && set c then [] else c ∷ rest

abbrev pub strip : (ℕ → Bool) → Text → Text
strip set s = strip_right set (strip_left set s)

pub starts_with-append : (t s : Text) → starts_with (t ++ s) t ≡ true
unfolding starts_with
starts_with-append [] s = refl
starts_with-append (c ∷ t) s = ground (arith, starts_with-append t s)

-- A text is found however much text is put round it.
pub occurs-append : (needle a b : Text) → occurs needle (a ++ (needle ++ b)) ≡ true
unfolding occurs starts_with
occurs-append [] [] [] = refl
occurs-append [] [] (c ∷ b) = refl
occurs-append (n ∷ needle) [] b = rw (starts_with-append (n ∷ needle) b)
occurs-append needle (c ∷ a) b = ground (arith, occurs-append needle a b)
