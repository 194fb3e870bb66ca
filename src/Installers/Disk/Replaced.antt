-- ===== src/Installers/Disk/Replaced.antt =====
-- A replacement at the front of a text.
use pabel.Base.{◌≡◌, refl, ap, ◌∙◌, ℕ, suc, ◌-◌, false, [], ◌∷◌, ◌++◌, All, arith}
use pabel.Base.{Text, nat_beq, length, starts_with, starts_with-append}
use pabel.Installers.Disk.{replace_from, replace_text}

-- a text without the first character of what is replaced stays
replace_from-absent :
    (q : ℕ) (old new s : Text)
    → All (λ c. nat_beq c q ≡ false) s
    → replace_from (q ∷ old) new 0 s ≡ s
unfolding replace_from starts_with
replace_from-absent q old new [] h = refl
replace_from-absent q old new (c ∷ s) (other, others) =
    rw other (ap (λ t. c ∷ t) (replace_from-absent q old new s others))

-- the characters of a match are passed over
replace_from-skip :
    (old new t s : Text) → replace_from old new (length t) (t ++ s) ≡ replace_from old new 0 s
unfolding replace_from
replace_from-skip old new [] s = refl
replace_from-skip old new (c ∷ t) s = replace_from-skip old new t s

one_less : (n : ℕ) → suc n - 1 ≡ n
one_less n = omega arith

pub replace_text-prefix :
    (q : ℕ) (old new s : Text)
    → All (λ c. nat_beq c q ≡ false) s
    → replace_text (q ∷ old) new (q ∷ (old ++ s)) ≡ new ++ s
unfolding replace_text
replace_text-prefix q old new s h =
    rw (starts_with-append (q ∷ old) s, one_less (length old))
      (ap (λ t. new ++ t)
        (replace_from-skip (q ∷ old) new old s ∙ replace_from-absent q old new s h))
