-- ===== src/Base/Exec.antt =====
-- Code that mutates a state and may raise. What was written before a raise stays written.

pub mod Ran

pub data Result {ℓ} (F A : Type ℓ) : Type ℓ where
  ok : A → Result F A
  err : F → Result F A

abbrev pub Exec {ℓ} : Type ℓ → Type ℓ → Type ℓ → Type ℓ
Exec S F A = S → Result F A × S

module _ {ℓ} {S F A : Type ℓ} where
  abbrev pub pure : A → Exec S F A
  pure a s = (ok a, s)

  abbrev pub raise : F → Exec S F A
  raise c s = (err c, s)

  -- a call that may raise and changes nothing
  abbrev pub lift : Result F A → Exec S F A
  lift r s = (r, s)

  abbrev pub gets : (S → A) → Exec S F A
  gets f s = (ok (f s), s)

  -- `try:` the outcome as a value, for the handler that follows
  abbrev pub attempt : Exec S F A → Exec S F (Result F A)
  attempt m s = let (r, s') = m s in (ok r, s')

module _ {ℓ} {S F : Type ℓ} where
  abbrev pub modify : (S → S) → Exec S F (Unit {ℓ})
  modify f s = (ok tt, f s)

module _ {ℓ} {S F A B : Type ℓ} where
  abbrev pub proceed : (A → Exec S F B) → Result F A × S → Result F B × S
  proceed f (ok a, s) = f a s
  proceed f (err c, s) = (err c, s)

  infixl 10 ◌>>=◌ ◌>>◌
  abbrev pub ◌>>=◌ : Exec S F A → (A → Exec S F B) → Exec S F B
  ◌>>=◌ m f s = proceed f (m s)

  abbrev pub ◌>>◌ : Exec S F A → Exec S F B → Exec S F B
  m >> n = m >>= λ _. n
