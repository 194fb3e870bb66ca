-- ===== src/Server/Env/Wins.antt =====
-- Which value a variable has behind server/.env.
use pabel.Base.{
  ◌≡◌, refl, ap, ℕ, Bool, true, false, Option, none, some, List, [], ◌∷◌, arith, inl, inr,
  Bool-cases,
}
use mathlib.Core.Path.{subst}
use pabel.Base.{Text, text_eq, text_eq_iff, is_empty, contains, text_eq_instance}
use pabel.Base.Exec.{ok}
use pabel.Server.Env.{
  Environ, value_of, set_default, entry_of, set_entry, load, missing, values, require, is_missing,
  unless_missing,
}

set_default-keeps :
    (name v key u : Text) (env : Environ)
    → value_of name env ≡ some v
    → value_of name (set_default key u env) ≡ some v
unfolding set_default value_of
set_default-keeps name v key u env h = elim (Bool-cases (text_eq key name)) [
  | inl hit ↦ ground (arith, hit, text_eq_iff key name)
  | inr miss ↦ ground (arith, miss)
]

set_entry-keeps :
    (is_space : ℕ → Bool) (name v : Text) (o : Option (Text × Text)) (env : Environ)
    → value_of name env ≡ some v
    → value_of name (set_entry is_space o env) ≡ some v
set_entry-keeps is_space name v none env h = h
set_entry-keeps is_space name v (some (key, u)) env h = set_default-keeps name v key u env h

-- A variable that is set keeps its value, whatever the file says.
load-keeps :
    (is_space : ℕ → Bool) (lines : List Text) (env : Environ) (name v : Text)
    → value_of name env ≡ some v
    → value_of name (load is_space lines env) ≡ some v
unfolding load
load-keeps is_space [] env name v h = h
load-keeps is_space (line ∷ lines) env name v h =
    load-keeps is_space lines (set_entry is_space (entry_of is_space line) env) name v
      (set_entry-keeps is_space name v (entry_of is_space line) env h)

missing-none :
    (n : Text) (names : List Text) (env : Environ)
    → missing names env ≡ []
    → contains n names ≡ true
    → is_missing (value_of n env) ≡ false
unfolding missing
missing-none n [] env h m = cc
missing-none n (k ∷ names) env h m = elim (Bool-cases (is_missing (value_of k env))) [
  | inl gone ↦ absurd (ground (arith, gone))
  | inr there ↦ elim (Bool-cases (text_eq k n)) [
    | inl hit ↦ ground (arith, there, hit, text_eq_iff k n)
    | inr miss ↦ missing-none n names env (ground (arith, there)) (ground (arith, miss))
  ]
]

none_missing : (ns vs us : List Text) → unless_missing ns vs ≡ ok us → ns ≡ []
none_missing [] vs us h = refl
none_missing (n ∷ ns) vs us h = cc

given_value :
    (o : Option Text) → is_missing o ≡ false → (v : Text) × (o ≡ some v) × (is_empty v ≡ false)
given_value none h = absurd (ground (arith, h))
given_value (some v) h = (v, refl, h)

-- Where the variables that are asked for are given, each of them is set and not empty.
require-set :
    (is_space : ℕ → Bool) (lines names vs : List Text) (env env' : Environ) (n : Text)
    → require is_space lines names env ≡ (ok vs, env')
    → contains n names ≡ true
    → (v : Text) × (value_of n env' ≡ some v) × (is_empty v ≡ false)
unfolding require
require-set is_space lines names vs env env' n h m =
    let env1 = load is_space lines env in
    let same : env1 ≡ env' = ap (λ x. x.1) h in
    let nothing : missing names env1 ≡ [] =
      none_missing (missing names env1) (values names env1) vs (ap (λ x. x.0) h) in
    subst (λ e. (v : Text) × (value_of n e ≡ some v) × (is_empty v ≡ false)) same
      (given_value (value_of n env1) (missing-none n names env1 nothing m))
