-- ===== src/Server/Abe/TempFiles/Cleaned.antt =====
-- What a clean-up removes.
use mathlib.Core.Path.{subst}
use pabel.Base.{◌≡◌, refl, sym, ap, ◌∙◌, ℕ, Bool, true, false, ◌&&◌, ◌||◌, not, List, [], ◌∷◌, keep}
use pabel.Base.{arith, All, any, Text, text_eq_refl, starts_with, Bool-cases, inl, inr}
use pabel.Base.{if◌then◌else◌}
use pabel.Server.Abe.TempFiles.{
  TempFile, Tools, Disk, named, unlink, doomed, remove_stale, clean_all, prefixes,
  cleanup_stale_temp_files,
}

module _ (P : TempFile → Type 0) where
  -- what is so of every file is so of those that are kept
  keep-All : (p : TempFile → Bool) (fs : List TempFile) → All P fs → All P (keep p fs)
  keep-All p [] h = h
  keep-All p (f ∷ fs) (x, xs) =
      elim (p f) as (λ b. All P (if b then f ∷ keep p fs else keep p fs)) [
        | true ↦ (x, keep-All p fs xs)
        | false ↦ keep-All p fs xs
      ]

  -- what follows from a property of the files and from being kept
  kept-All :
      (R : TempFile → Type 0) (p : TempFile → Bool) (fs : List TempFile)
      → ((f : TempFile) → R f → p f ≡ true → P f)
      → All R fs
      → All P (keep p fs)
  kept-All R p [] h r = tt
  kept-All R p (f ∷ fs) h (x, xs) = elim (Bool-cases (p f)) [
    | inl stays ↦ rw stays (h f x stays, kept-All R p fs h xs)
    | inr goes ↦ rw goes (kept-All R p fs h xs)
  ]

  All-imply :
      (R : TempFile → Type 0) (fs : List TempFile)
      → ((f : TempFile) → R f → P f)
      → All R fs
      → All P fs
  All-imply R [] h r = tt
  All-imply R (f ∷ fs) h (x, xs) = (h f x, All-imply R fs h xs)

if-cons :
    (b c : Bool) (f : TempFile) (xs ys : List TempFile)
    → b ≡ c
    → xs ≡ ys
    → (if b then f ∷ xs else xs) ≡ (if c then f ∷ ys else ys)
if-cons b c f xs ys e h = rw e (ap (λ zs. if c then f ∷ zs else zs) h)

if-drop :
    (c : Bool) (f : TempFile) (xs : List TempFile) → c ≡ false → xs ≡ (if c then f ∷ xs else xs)
if-drop c f xs e = rw e refl

module _ (T : Tools) (now max_age : ℕ) where
  -- the name of a file is that of one that goes
  abbrev hit : List TempFile → TempFile → Bool
  hit gs f = any (λ g. doomed T now max_age g && named g.name f) gs

  keep_all : (fs : List TempFile) → fs ≡ keep (λ f. not (hit [] f)) fs
  keep_all [] = refl
  keep_all (f ∷ fs) = ap (λ xs. f ∷ xs) (keep_all fs)

  without :
      (g : TempFile) (gs : List TempFile) (b : Bool) (fs : List TempFile)
      → doomed T now max_age g ≡ b
      → keep (λ f. not (hit gs f)) (if b then unlink g.name fs else fs)
        ≡ keep (λ f. not (hit (g ∷ gs) f)) fs
  unfolding unlink
  without g gs true [] h = refl
  without g gs false [] h = refl
  without g gs true (f ∷ fs) h = elim (Bool-cases (named g.name f)) [
    | inl same ↦ rw same (
        without g gs true fs h
        ∙ if-drop (not (doomed T now max_age g && true || hit gs f)) f
            (keep (λ f. not (hit (g ∷ gs) f)) fs) (ground (arith, h)))
    | inr other ↦ rw other (
        if-cons (not (hit gs f)) (not (doomed T now max_age g && false || hit gs f)) f _ _
          (ground (arith, h)) (without g gs true fs h))
  ]
  without g gs false (f ∷ fs) h =
      if-cons (not (hit gs f)) (not (hit (g ∷ gs) f)) f _ _ (ground (arith, h))
        (without g gs false fs h)

  remove_stale-keep :
      (gs fs : List TempFile) → remove_stale T now max_age gs fs ≡ keep (λ f. not (hit gs f)) fs
  unfolding remove_stale
  remove_stale-keep [] fs = keep_all fs
  remove_stale-keep (g ∷ gs) fs =
      remove_stale-keep gs (if doomed T now max_age g then unlink g.name fs else fs)
      ∙ without g gs (doomed T now max_age g) fs refl

  abbrev Goes : (TempFile → Bool) → TempFile → Type 0
  Goes pre f = (pre f && doomed T now max_age f) ≡ true

  later :
      (pre : TempFile → Bool) (x : TempFile) (xs : List TempFile) (f : TempFile)
      → hit (keep pre xs) f ≡ true
      → hit (keep pre (x ∷ xs)) f ≡ true
  later pre x xs f h = elim (Bool-cases (pre x)) [
    | inl stays ↦ rw stays (ground (arith, h))
    | inr goes ↦ rw goes h
  ]

  -- a file of the prefix that goes is hit
  hit-keep :
      (pre : TempFile → Bool) (fs : List TempFile)
      → All (λ f. Goes pre f → hit (keep pre fs) f ≡ true) fs
  hit-keep pre [] = tt
  hit-keep pre (x ∷ xs) = (
    λ goes.
        let first : pre x ≡ true = ground (arith, goes) in
        let second : doomed T now max_age x ≡ true = ground (arith, goes) in
        rw (first, second, text_eq_refl x.name) refl,
    All-imply (λ f. Goes pre f → hit (keep pre (x ∷ xs)) f ≡ true)
        (λ f. Goes pre f → hit (keep pre xs) f ≡ true) xs (λ f h goes. later pre x xs f (h goes))
        (hit-keep pre xs),
  )

  -- no file of a prefix that was to go is left
  abbrev pub Stays : Text → TempFile → Type 0
  Stays p f = (starts_with f.name p && doomed T now max_age f) ≡ false

  one_prefix :
      (p : Text) (fs : List TempFile)
      → All (Stays p) (remove_stale T now max_age (keep (λ f. starts_with f.name p) fs) fs)
  one_prefix p fs =
      let pre : TempFile → Bool = λ f. starts_with f.name p in
      subst (All (Stays p)) (sym (remove_stale-keep (keep pre fs) fs)) (
        kept-All (Stays p) (λ f. Goes pre f → hit (keep pre fs) f ≡ true)
          (λ f. not (hit (keep pre fs) f)) fs
          (λ f must free. elim (Bool-cases (pre f && doomed T now max_age f)) [
            | inl goes ↦ absurd (ground (arith, must goes, free))
            | inr stays ↦ stays
          ])
          (hit-keep pre fs))

  clean_all-All :
      (P : TempFile → Type 0) (ps : List Text) (fs : List TempFile)
      → All P fs
      → All P (clean_all T now max_age ps fs)
  unfolding clean_all
  clean_all-All P [] fs h = h
  clean_all-All P (p ∷ ps) fs h =
      let gs = keep (λ f. starts_with f.name p) fs in
      clean_all-All P ps (remove_stale T now max_age gs fs)
        (subst (All P) (sym (remove_stale-keep gs fs)) (keep-All P (λ f. not (hit gs f)) fs h))

  -- each prefix has been cleaned
  abbrev pub Cleaned : List Text → List TempFile → Type 0
  Cleaned [] fs = Unit
  Cleaned (p ∷ ps) fs = All (Stays p) fs × Cleaned ps fs

  clean_all-Cleaned :
      (ps : List Text) (fs : List TempFile) → Cleaned ps (clean_all T now max_age ps fs)
  unfolding clean_all
  clean_all-Cleaned [] fs = tt
  clean_all-Cleaned (p ∷ ps) fs =
      let gs = keep (λ f. starts_with f.name p) fs in
      (
        clean_all-All (Stays p) ps (remove_stale T now max_age gs fs) (one_prefix p fs),
        clean_all-Cleaned ps (remove_stale T now max_age gs fs),
      )

-- After a clean-up, no file of the three prefixes is left that was too old then and can be removed.
pub cleanup_stale_temp_files-Cleaned :
    (T : Tools) (max_age : ℕ) (d : Disk T)
    → Cleaned T
        (T.time d.outside).0
        max_age
        (prefixes T)
        (cleanup_stale_temp_files T max_age d).1.files
unfolding cleanup_stale_temp_files
cleanup_stale_temp_files-Cleaned T max_age d =
    clean_all-Cleaned T (T.time d.outside).0 max_age (prefixes T) d.files
