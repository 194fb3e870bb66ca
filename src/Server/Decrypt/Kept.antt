-- ===== src/Server/Decrypt/Kept.antt =====
-- The texts of the sections while the groups' results are given out.
use pabel.Base.{ℕ, zero, suc, ◌+◌, ◌<◌, ◌≡◌, ◌≢◌, refl, ap, ◌∙◌, false}
use pabel.Base.{Option, none, some, List, [], ◌∷◌, arith}
use pabel.Base.{nat_eq, contains, length, get_elem?, set, replicate}
use pabel.Base.Exec.{Result, ok, err}
use pabel.Json.{Json}
use pabel.Server.{Failure}
use pabel.Server.Document.{Group, Section}
use pabel.Server.Decrypt.{positions, give, views, view_of, ◌>>=◌}

pub get_elem?-set_ne :
    (texts : List Json) (i p : ℕ) (t : Json)
    → p ≢ i
    → get_elem? (set texts p t) i ≡ get_elem? texts i
get_elem?-set_ne [] i p t h = refl
get_elem?-set_ne (x ∷ texts) zero zero t h = absurd (h refl)
get_elem?-set_ne (x ∷ texts) zero (suc p) t h = refl
get_elem?-set_ne (x ∷ texts) (suc i) zero t h = refl
get_elem?-set_ne (x ∷ texts) (suc i) (suc p) t h = get_elem?-set_ne texts i p t (λ e. h (ap suc e))

pub give-ne :
    (ps : List ℕ) (ts texts : List Json) (i : ℕ)
    → contains i ps ≡ false
    → get_elem? (give ps ts texts) i ≡ get_elem? texts i
unfolding give
give-ne [] ts texts i h = refl
give-ne (p ∷ ps) [] texts i h = refl
give-ne (p ∷ ps) (t ∷ ts) texts i h =
    give-ne ps ts (set texts p t) i (ground arith) ∙ get_elem?-set_ne texts i p t (ground arith)

pub positions-lt :
    (k j : ℕ) (ss : List Section) (i : ℕ) → i < j → contains i (positions k j ss) ≡ false
unfolding positions
positions-lt k j [] i h = refl
positions-lt k j (s ∷ ss) i h = ground (arith, positions-lt k (suc j) ss i)

-- A position is listed for its own section's group only.
pub positions-ne :
    (k j : ℕ) (ss : List Section) (i : ℕ) (s : Section)
    → get_elem? ss i ≡ some s
    → s.group ≢ k
    → contains (j + i) (positions k j ss) ≡ false
unfolding positions
positions-ne k j [] i s h ne = cc
positions-ne k j (x ∷ ss) zero s h ne = ground (arith, positions-lt k (suc j) ss (j + 0))
positions-ne k j (x ∷ ss) (suc i) s h ne = ground (arith, positions-ne k (suc j) ss i s)

-- From group `k` on, group `g` got no texts.
abbrev pub Skips : ℕ → ℕ → List (Option (List Json)) → Type 0
Skips g k [] = Unit
Skips g k (none ∷ rs) = Skips g (suc k) rs
Skips g k (some ts ∷ rs) = (g ≢ k) × Skips g (suc k) rs

pub Skips-later : (g k : ℕ) (rs : List (Option (List Json))) → g < k → Skips g k rs
Skips-later g k [] h = tt
Skips-later g k (none ∷ rs) h = Skips-later g (suc k) rs (omega arith)
Skips-later g k (some ts ∷ rs) h = ((λ e. omega arith), Skips-later g (suc k) rs (omega arith))

pub Skips-next :
    (g k : ℕ) (o : Option (List Json)) (rs : List (Option (List Json)))
    → k < g
    → Skips g (suc k) rs
    → Skips g k (o ∷ rs)
Skips-next g k none rs h skips = skips
Skips-next g k (some ts) rs h skips = ((λ e. omega arith), skips)

-- the two results that a successful step of `decrypt_each` is made of
pub record Chained (m : Result Failure (Option (List Json)))
    (ms : Result Failure (List (Option (List Json)))) (out : List (Option (List Json)))
    : Type 0 where
  pub one : Option (List Json)
  pub others : List (Option (List Json))
  pub now : m ≡ ok one
  pub later : ms ≡ ok others
  pub whole : out ≡ one ∷ others

pub chained :
    (m : Result Failure (Option (List Json))) (ms : Result Failure (List (Option (List Json))))
    (out : List (Option (List Json)))
    → (m >>= λ r. (ms >>= λ rs. ok (r ∷ rs))) ≡ ok out
    → Chained m ms out
chained (ok r) (ok rs) out h = record {
  one = r;
  others = rs;
  now = refl;
  later = refl;
  whole = ground arith;
}
chained (ok r) (err e) out h = cc
chained (err e) ms out h = cc

pub record Bound {A B : Type 0} (m : Result Failure A) (f : A → Result Failure B) (b : B)
    : Type 0 where
  pub value : A
  pub given : m ≡ ok value
  pub gives : f value ≡ ok b

pub bind-ok :
    {A B : Type 0}
    → (m : Result Failure A) (f : A → Result Failure B) (b : B) → (m >>= f) ≡ ok b
    → Bound m f b
bind-ok (ok a) f b h = record { value = a; given = refl; gives = h }
bind-ok (err e) f b h = cc

pub ok_inj : {A : Type 0} → {a b : A} → ◌≡◌ {A = Result Failure A} (ok a) (ok b) → a ≡ b
ok_inj h = cc

pub first_none :
    (m : Result Failure (Option (List Json))) (o : Option (List Json))
    → m ≡ ok none
    → m ≡ ok o
    → none ≡ o
first_none m o h g = cc

pub some_inj : (x g : Group) → some x ≡ some g → g ≡ x
some_inj x g h = cc

pub get_elem?-replicate :
    {A : Type 0} → (n i : ℕ) (a : A) → i < n → get_elem? (replicate n a) i ≡ some a
get_elem?-replicate zero i a h = absurd (omega arith)
get_elem?-replicate (suc n) zero a h = refl
get_elem?-replicate (suc n) (suc i) a h = get_elem?-replicate n i a (omega arith)

pub lt-length : (ss : List Section) (i : ℕ) (s : Section) → get_elem? ss i ≡ some s → i < length ss
lt-length [] i s h = cc
lt-length (x ∷ ss) zero s h = omega arith
lt-length (x ∷ ss) (suc i) s h = grind (arith, lt-length ss i s h)

pub get_elem?-views :
    (groups : List Group) (ss : List Section) (texts : List Json) (i : ℕ) (s : Section) (t : Json)
    → get_elem? ss i ≡ some s
    → get_elem? texts i ≡ some t
    → get_elem? (views groups ss texts) i ≡ some (view_of groups s t)
unfolding views
get_elem?-views groups [] texts i s t h g = cc
get_elem?-views groups (x ∷ ss) [] i s t h g = cc
get_elem?-views groups (x ∷ ss) (y ∷ texts) zero s t h g = cc
get_elem?-views groups (x ∷ ss) (y ∷ texts) (suc i) s t h g =
    get_elem?-views groups ss texts i s t h g
