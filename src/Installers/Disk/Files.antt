-- ===== src/Installers/Disk/Files.antt =====
-- Reading a file that was written.
use pabel.Base.{◌≡◌, refl, ap, true, false, some, [], ◌∷◌, arith, inl, inr, Bool-cases}
use pabel.Base.{Text, text_eq_iff, text_eq_refl}
use pabel.Installers.Disk.{FilePath, root, below, path_eq, Files, file_at, put_file}

pub path_eq_refl : (p : FilePath) → path_eq p p ≡ true
unfolding path_eq
path_eq_refl (root a) = text_eq_refl a
path_eq_refl (below p n) = ground (arith, path_eq_refl p, text_eq_refl n)

path_eq-eq : (p q : FilePath) → path_eq p q ≡ true → p ≡ q
unfolding path_eq
path_eq-eq (root a) (root b) h = ap root (ground (arith, text_eq_iff a b))
path_eq-eq (root a) (below q m) h = cc
path_eq-eq (below p n) (root b) h = cc
path_eq-eq (below p n) (below q m) h =
    let same : p ≡ q = path_eq-eq p q (ground arith) in
    let same_name : n ≡ m = ground (arith, text_eq_iff n m) in rw (same, same_name) refl

pub file_at-put_file : (p : FilePath) (t : Text) (fs : Files) → file_at p (put_file p t fs) ≡ some t
unfolding file_at put_file
file_at-put_file p t [] = rw (path_eq_refl p) refl
file_at-put_file p t ((q, u) ∷ fs) = ground (arith, file_at-put_file p t fs)

pub file_at-put_file_ne :
    (p q : FilePath) (t : Text) (fs : Files)
    → path_eq q p ≡ false
    → file_at p (put_file q t fs) ≡ file_at p fs
unfolding file_at put_file
file_at-put_file_ne p q t [] n = rw n refl
file_at-put_file_ne p q t ((r, u) ∷ fs) n = elim (Bool-cases (path_eq r q)) [
  | inl hit ↦ let same : r ≡ q = path_eq-eq r q hit in ground (arith, n, same, hit)
  | inr miss ↦ ground (arith, miss, file_at-put_file_ne p q t fs n)
]
