-- ===== src/Cli/Selection/Sound.antt =====
-- What `_parse_selection` may pick.
use pabel.Base.{
  ◌≡◌, refl, ℕ, zero, suc, true, false, ◌||◌, Option, none, some, List, [], ◌∷◌, ◌++◌, arith, inl,
  inr, Bool-cases, All,
}
use mathlib.Core.Path.{subst}
use pabel.Base.{
  Text, codes, text_eq, text_eq_iff, text_eq_refl, text_eq_instance, contains, Distinct, get_elem?,
  strip,
}
use pabel.Base.Exec.{Result, ok, err}
use pabel.Failure.{Failure}
use pabel.Installers.Disk.{Machine}
use pabel.Cli.Selection.{
  key_of, select_from, parse_selection, add_key, or_key, key_at, isdigit, int_of, split_from,
  spaced,
}

abbrev pub IsAgent : List Text → Text → Type 0
IsAgent keys k = contains k keys ≡ true

contains-get_elem? :
    (keys : List Text) (i : ℕ) (k : Text) → get_elem? keys i ≡ some k → contains k keys ≡ true
contains-get_elem? [] i k h = cc
contains-get_elem? (x ∷ keys) zero k h = ground (arith, text_eq_iff x k)
contains-get_elem? (x ∷ keys) (suc i) k h = ground (arith, contains-get_elem? keys i k h)

contains-append :
    (j k : Text) (ks : List Text) → contains j (ks ++ (k ∷ [])) ≡ (contains j ks || text_eq k j)
contains-append j k [] = ground arith
contains-append j k (x ∷ ks) = ground (arith, contains-append j k ks)

Distinct-append :
    (k : Text) (ks : List Text) → contains k ks ≡ false → Distinct ks → Distinct (ks ++ (k ∷ []))
Distinct-append k [] h d = (refl, tt)
Distinct-append k (x ∷ ks) h d = (
  ground (arith, contains-append x k ks, text_eq_iff x k, text_eq_iff k x),
  Distinct-append k ks (ground arith) d.1,
)

All-append :
    (keys : List Text) (k : Text) (ks : List Text)
    → contains k keys ≡ true
    → All (IsAgent keys) ks
    → All (IsAgent keys) (ks ++ (k ∷ []))
All-append keys k [] h a = (h, tt)
All-append keys k (x ∷ ks) h a = (a.0, All-append keys k ks h a.1)

agents-cons : (x : Text) (keys ks : List Text) → All (IsAgent keys) ks → All (IsAgent (x ∷ keys)) ks
agents-cons x keys [] a = tt
agents-cons x keys (k ∷ ks) a = (ground arith, agents-cons x keys ks a.1)

keys-All : (keys : List Text) → All (IsAgent keys) keys
keys-All [] = tt
keys-All (k ∷ ks) = (ground (arith, text_eq_refl k), agents-cons k ks ks (keys-All ks))

-- the agents among `keys`, each once
abbrev IsSelection : List Text → List Text → Type 0
IsSelection keys ks = All (IsAgent keys) ks × Distinct ks

module _ (M : Machine) where
  key_at-IsAgent : (keys : List Text) (n : ℕ) (k : Text) → key_at M keys n ≡ some k → IsAgent keys k
  key_at-IsAgent keys zero k h = cc
  key_at-IsAgent keys (suc n) k h = contains-get_elem? keys n k h

  or_key-IsAgent :
      (keys : List Text) (t : Text) (o : Option Text) (k : Text)
      → ((j : Text) → o ≡ some j → IsAgent keys j)
      → or_key M keys t o ≡ some k
      → IsAgent keys k
  or_key-IsAgent keys t (some j) k a h = a k h
  or_key-IsAgent keys t none k a h = ground arith

  -- what a number picks
  number-IsAgent :
      (keys : List Text) (t k : Text) (r : Result Failure ℕ)
      → Path
          (Result Failure (Option Text))
          (elim r [ ok n ↦ ok (or_key M keys t (key_at M keys n)) | err e ↦ err e ])
          (ok (some k))
      → IsAgent keys k
  number-IsAgent keys t k (ok n) h =
      or_key-IsAgent keys t (key_at M keys n) k (key_at-IsAgent keys n) cc
  number-IsAgent keys t k (err e) h = cc

  key_of-IsAgent : (keys : List Text) (t k : Text) → key_of M keys t ≡ ok (some k) → IsAgent keys k
  unfolding key_of
  key_of-IsAgent keys t k h = elim (Bool-cases (isdigit M t)) [
    | inl number ↦ number-IsAgent keys t k (int_of M 0 t) (rw number at h)
    | inr name ↦ let e = rw name at h in or_key-IsAgent keys t none k (λ j g. cc) cc
  ]

  add_key-IsSelection :
      (keys : List Text) (k : Text) (ks : List Text)
      → IsAgent keys k
      → IsSelection keys ks
      → IsSelection keys (add_key M k ks)
  add_key-IsSelection keys k ks h s = elim (Bool-cases (contains k ks)) [
    | inl old ↦ rw old s
    | inr new ↦ rw new (All-append keys k ks h s.0, Distinct-append k ks new s.1)
  ]

  picked-IsSelection :
      (keys ks : List Text) (ts : List Text) (picked : List Text) (r : Result Failure (Option Text))
      → ((k : Text) → r ≡ ok (some k) → IsAgent keys k)
      → ((k : Text)
          → IsAgent keys k
          → select_from M keys (add_key M k ks) ts ≡ ok picked
          → IsSelection keys picked)
      → Path
          (Result Failure (List Text))
          (elim r [
            | err e ↦ err e
            | ok none ↦ ok []
            | ok (some key) ↦ select_from M keys (add_key M key ks) ts
          ])
          (ok picked)
      → IsSelection keys picked
  picked-IsSelection keys ks ts picked (err e) a f h = cc
  picked-IsSelection keys ks ts picked (ok none) a f h =
      let e : [] ≡ picked = cc in subst (IsSelection keys) e (tt, tt)
  picked-IsSelection keys ks ts picked (ok (some k)) a f h = f k (a k refl) h

  -- the selection that the tokens lead to
  select_from-IsSelection :
      (keys ks : List Text) (ts : List Text) (picked : List Text)
      → IsSelection keys ks
      → select_from M keys ks ts ≡ ok picked
      → IsSelection keys picked
  unfolding select_from
  select_from-IsSelection keys ks [] picked s h =
      let e : ks ≡ picked = cc in subst (IsSelection keys) e s
  select_from-IsSelection keys ks (t ∷ ts) picked s h =
      picked-IsSelection keys ks ts picked (key_of M keys t) (key_of-IsAgent keys t)
        (λ k a e.
          select_from-IsSelection keys (add_key M k ks) ts picked
            (add_key-IsSelection keys k ks a s) e)
        h

  -- Where no key stands twice, a selection that does not raise holds agents of the given keys only,
  -- and none of them twice.
  pub parse_selection-IsSelection :
      (raw : Text) (keys picked : List Text)
      → Distinct keys
      → parse_selection M raw keys ≡ ok picked
      → All (IsAgent keys) picked × Distinct picked
  unfolding parse_selection
  parse_selection-IsSelection raw keys picked d h =
      let s = M.lower (strip M.is_space raw) in
      elim (Bool-cases (text_eq s (codes "all") || text_eq s (codes "*"))) [
        | inl all ↦
            let g = rw all at h in
            let e : keys ≡ picked = cc in subst (IsSelection keys) e (keys-All keys, d)
        | inr some_ ↦
            select_from-IsSelection keys [] (split_from M.is_space [] (spaced s)) picked (tt, tt)
              (rw some_ at h)
      ]
