-- ===== src/Server/Abe/TempFiles/Others.antt =====
-- The files of the temporary directory but for those of three names.
use pabel.Base.{◌≡◌, refl, ap, ℕ, Bool, true, false, ◌&&◌, not, Option, none, some, List}
use pabel.Base.{[], ◌∷◌, keep, arith, Text, is_some, text_eq_refl, Bool-cases, inl, inr}
use pabel.Server.Abe.TempFiles.{TempFile, named, unlink, write, output, read}

-- the files that have none of three names
abbrev pub spared : Text → Text → Text → TempFile → Bool
spared a b c f = not (named a f) && (not (named b f) && not (named c f))

abbrev pub others : Text → Text → Text → List TempFile → List TempFile
others a b c fs = keep (spared a b c) fs

-- no file has one of the names
abbrev pub Free : Text → Text → Text → List TempFile → Type 0
Free a b c [] = Unit
Free a b c (f ∷ fs) = (spared a b c f ≡ true) × Free a b c fs

pub others-Free : (a b c : Text) (fs : List TempFile) → Free a b c fs → others a b c fs ≡ fs
others-Free a b c [] h = refl
others-Free a b c (f ∷ fs) (free, more) = rw free (ap (λ xs. f ∷ xs) (others-Free a b c fs more))

-- removing all three leaves the others
pub unlink_all :
    (a b c : Text) (fs : List TempFile) → unlink c (unlink b (unlink a fs)) ≡ others a b c fs
unfolding unlink
unlink_all a b c [] = refl
unlink_all a b c (f ∷ fs) = ground (arith, unlink_all a b c fs)

pub unlink-absent : (n : Text) (fs : List TempFile) → is_some (read n fs) ≡ false → unlink n fs ≡ fs
unfolding unlink read
unlink-absent n [] h = refl
unlink-absent n (f ∷ fs) h = elim (Bool-cases (named n f)) [
  | inl hit ↦ absurd (ground (arith, hit, h))
  | inr miss ↦ rw miss (ap (λ xs. f ∷ xs) (unlink-absent n fs (ground (arith, miss, h))))
]

-- every file of the name is one that is removed
abbrev pub Taken : Text → Text → Text → Text → Type 0
Taken a b c n = (g : TempFile) → named n g ≡ true → spared a b c g ≡ false

pub others-unlink :
    (a b c n : Text) (fs : List TempFile)
    → Taken a b c n
    → others a b c (unlink n fs) ≡ others a b c fs
unfolding unlink
others-unlink a b c n [] h = refl
others-unlink a b c n (f ∷ fs) h = elim (Bool-cases (named n f)) [
  | inl hit ↦ rw (hit, h f hit) (others-unlink a b c n fs h)
  | inr miss ↦ rw miss (elim (Bool-cases (spared a b c f)) [
    | inl s ↦ rw s (ap (λ xs. f ∷ xs) (others-unlink a b c n fs h))
    | inr s ↦ rw s (others-unlink a b c n fs h)
  ])
]

pub others-write :
    (a b c n content : Text) (t : ℕ) (fs : List TempFile)
    → Taken a b c n
    → others a b c (write n content t fs) ≡ others a b c fs
unfolding write
others-write a b c n content t fs h =
    rw (h (record { name = n; content = content; mtime = t }) (text_eq_refl n))
      (others-unlink a b c n fs h)

pub others-output :
    (a b c n : Text) (out : Option Text) (t : ℕ) (fs : List TempFile)
    → Taken a b c n
    → others a b c (output n out t fs) ≡ others a b c fs
unfolding output
others-output a b c n none t fs h = refl
others-output a b c n (some content) t fs h = others-write a b c n content t fs h

pub first-Taken : (a b c : Text) → Taken a b c a
first-Taken a b c g h = ground (arith, h)

pub second-Taken : (a b c : Text) → Taken a b c b
second-Taken a b c g h = ground (arith, h)

pub third-Taken : (a b c : Text) → Taken a b c c
third-Taken a b c g h = ground (arith, h)

pub unlink_one : (a : Text) (fs : List TempFile) → unlink a fs ≡ others a a a fs
unfolding unlink
unlink_one a [] = refl
unlink_one a (f ∷ fs) = ground (arith, unlink_one a fs)
