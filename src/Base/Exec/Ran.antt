-- ===== src/Base/Exec/Ran.antt =====
-- What a run that gave a result has done.
use mathlib.Core.Path.{◌≡◌, refl}
use mathlib.Core.Bool.{Bool, true, false}
use pabel.Base.Tests.{if◌then◌else◌}
use pabel.Base.Exec.{Exec, Result, ok, err, proceed, raise, lift, ◌>>=◌}

pub ok-eq : {F A : Type 0} (a b : A) → Path (Result F A) (ok a) (ok b) → a ≡ b
ok-eq a b h = cc

module _ {S F A B : Type 0} where
  proceed-ran :
      (f : A → Exec S F B) (o : Result F A × S) (s' : S) (b : B)
      → proceed f o ≡ (ok b, s')
      → (a : A) × (s1 : S) × (o ≡ (ok a, s1)) × (f a s1 ≡ (ok b, s'))
  proceed-ran f (ok a, s1) s' b h = (a, s1, refl, h)
  proceed-ran f (err e, s1) s' b h = cc

  pub bind-ran :
      (m : Exec S F A) (f : A → Exec S F B) (s s' : S) (b : B)
      → (m >>= f) s ≡ (ok b, s')
      → (a : A) × (s1 : S) × (m s ≡ (ok a, s1)) × (f a s1 ≡ (ok b, s'))
  bind-ran m f s s' b h = proceed-ran f (m s) s' b h

  -- a value that is given
  pub lift-ran :
      (r : Result F A) (f : A → Exec S F B) (s s' : S) (b : B)
      → (lift r >>= f) s ≡ (ok b, s')
      → (a : A) × (r ≡ ok a) × (f a s ≡ (ok b, s'))
  lift-ran (ok a) f s s' b h = (a, refl, h)
  lift-ran (err e) f s s' b h = cc

module _ {S F A : Type 0} where
  -- a guard was passed
  pub guard-ran :
      (b : Bool) (m : Exec S F A) (e : F) (s s' : S) (a : A)
      → (if b then m else raise e) s ≡ (ok a, s')
      → (b ≡ true) × (m s ≡ (ok a, s'))
  guard-ran true m e s s' a h = (refl, h)
  guard-ran false m e s s' a h = cc
