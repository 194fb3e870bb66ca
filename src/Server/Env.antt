-- ===== src/Server/Env.antt =====
-- env.py: variables from server/.env. The environment is a list of names with values; the lines of
-- the file are given.
pub mod Wins
use pabel.Base.{ℕ, Bool, true, false, ◌||◌, Option, none, some, List, [], ◌∷◌, keep}
use pabel.Base.{
  Text, codes, text_eq, nat_beq, is_empty, is_some, starts_with, strip, partition, if◌then◌else◌,
  not,
}
use pabel.Base.Exec.{Result, ok, err}
use pabel.Server.{Failure, runtime_error, foreign}

abbrev pub Environ : Type 0
Environ = List (Text × Text)

-- `os.environ.get(name)`
unfoldable pub value_of : Text → Environ → Option Text
value_of name [] = none
value_of name ((n, v) ∷ env) = if text_eq n name then some v else value_of name env

-- `os.environ.setdefault(name, v)`
unfoldable pub set_default : Text → Text → Environ → Environ
unfolding value_of
set_default name v env = if is_some (value_of name env) then env else (name, v) ∷ env

module _ (is_space : ℕ → Bool) where
  abbrev unquoted : Text → Text
  unquoted v = strip (λ c. nat_beq c b'\'') (strip (λ c. nat_beq c b'"') (strip is_space v))

  abbrev pair_of : Option (Text × Text) → Option (Text × Text)
  pair_of none = none
  pair_of (some (key, v)) = some (strip is_space key, unquoted v)

  -- what a line sets
  unfoldable pub entry_of : Text → Option (Text × Text)
  entry_of line =
      let s = strip is_space line in
      if is_empty s || starts_with s (codes "#") then none else pair_of (partition b'=' s)

  abbrev set_entry : Option (Text × Text) → Environ → Environ
  set_entry none env = env
  set_entry (some (key, v)) env = set_default key v env

  unfoldable pub load : List Text → Environ → Environ
  unfolding entry_of set_default
  load [] env = env
  load (line ∷ lines) env = load lines (set_entry (entry_of line) env)

-- `not os.environ.get(n)`
abbrev pub is_missing : Option Text → Bool
is_missing none = true
is_missing (some v) = is_empty v

unfoldable pub missing : List Text → Environ → List Text
unfolding value_of
missing [] env = []
missing (n ∷ names) env =
    let rest = missing names env in if is_missing (value_of n env) then n ∷ rest else rest

abbrev or_empty : Option Text → Text
or_empty none = []
or_empty (some v) = v

-- `[os.environ[n] for n in names]`, where none is missing
unfoldable pub values : List Text → Environ → List Text
unfolding value_of
values [] env = []
values (n ∷ names) env = or_empty (value_of n env) ∷ values names env

abbrev pub unless_missing : List Text → List Text → Result Failure (List Text)
unless_missing [] vs = ok vs
unless_missing (n ∷ ns) vs = err (runtime_error (foreign (codes "missing environment variable(s)")))

-- the values, with the environment behind the file
unfoldable pub require :
    (ℕ → Bool) → List Text → List Text → Environ → Result Failure (List Text) × Environ
unfolding load missing values
require is_space lines names env =
    let env' = load is_space lines env in
    (unless_missing (missing names env') (values names env'), env')
