-- ===== src/Installers/Disk.antt =====
-- The files that the installers read and write, and the machine they run on. Directories are not
-- kept: the code creates those it needs.
pub mod Files
pub mod Replaced
use pabel.Base.{ℕ, zero, suc, ◌-◌, Bool, true, false, ◌&&◌, Option, none, some, List, [], ◌∷◌, ◌++◌}
use pabel.Base.{Text, codes, text_eq, is_some, is_empty, length, starts_with, strip, if◌then◌else◌}
use pabel.Base.Exec.{Exec, Result, ok, err, gets, modify, lift, ◌>>=◌}
use pabel.Json.{Json, empty_obj}
use pabel.Failure.{Failure, other_error, foreign}

-- `p / name`
pub data FilePath : Type 0 where
  root : Text → FilePath
  below : FilePath → Text → FilePath

unfoldable pub path_eq : FilePath → FilePath → Bool
path_eq (root a) (root b) = text_eq a b
path_eq (root a) (below q b) = false
path_eq (below p a) (root b) = false
path_eq (below p a) (below q b) = text_eq a b && path_eq p q

-- `json` with `indent=2`, tomlkit, the package's own files and the process's surroundings
pub record Machine : Type 0 where
  pub executable : Text
  pub home : FilePath
  pub environ : Text → Option Text
  pub is_space : ℕ → Bool
  pub loads : Text → Option Json
  pub dumps_indented : Json → Text
  pub toml_parse : Text → Option Json
  pub toml_dumps : Json → Text
  pub bundled : Text → Text
  -- the working directory, and `Path(text).resolve()`
  pub cwd : FilePath
  pub resolve : Text → FilePath
  -- `str.lower`, and beyond ASCII `isdigit` and the value that `int` gives a digit
  pub lower : Text → Text
  pub is_digit_beyond : ℕ → Bool
  pub digit_beyond : ℕ → Option ℕ

abbrev pub Files : Type 0
Files = List (FilePath × Text)

abbrev pub Disk : Type 0 → Type 0
Disk A = Exec Files Failure A

unfoldable pub file_at : FilePath → Files → Option Text
file_at p [] = none
file_at p ((q, t) ∷ fs) = if path_eq q p then some t else file_at p fs

unfoldable pub put_file : FilePath → Text → Files → Files
put_file p t [] = (p, t) ∷ []
put_file p t ((q, u) ∷ fs) = if path_eq q p then (q, t) ∷ fs else (q, u) ∷ put_file p t fs

unfoldable pub drop_file : FilePath → Files → Files
drop_file p [] = []
drop_file p ((q, u) ∷ fs) = if path_eq q p then fs else (q, u) ∷ drop_file p fs

unfoldable pub write_text : FilePath → Text → Disk (Unit {0})
unfolding put_file
write_text p t = modify (put_file p t)

unfoldable pub unlink : FilePath → Disk (Unit {0})
unfolding drop_file
unlink p = modify (drop_file p)

unfoldable pub exists : FilePath → Disk Bool
unfolding file_at
exists p = gets (λ fs. is_some (file_at p fs))

abbrev pub or_value_error : Option Json → Result Failure Json
or_value_error none = err (other_error (foreign (codes "ValueError")))
or_value_error (some v) = ok v

module _ (M : Machine) where
  -- what the text of a configuration file says
  unfoldable pub parsed : Text → Result Failure Json
  parsed t =
      let s = strip M.is_space t in if is_empty s then ok empty_obj else or_value_error (M.loads s)

  abbrev pub json_of : Option Text → Result Failure Json
  json_of none = ok empty_obj
  json_of (some t) = parsed t

  unfoldable pub read_json : FilePath → Disk Json
  unfolding parsed file_at
  read_json p = do t ← gets (file_at p); lift (json_of t)

  unfoldable pub json_text : Json → Text
  json_text v = M.dumps_indented v ++ (10 ∷ [])

  unfoldable pub write_json : FilePath → Json → Disk (Unit {0})
  unfolding write_text json_text
  write_json p v = write_text p (json_text v)

  abbrev toml_of : Option Text → Result Failure Json
  toml_of none = ok empty_obj
  toml_of (some t) = or_value_error (M.toml_parse t)

  unfoldable pub read_toml : FilePath → Disk Json
  unfolding file_at
  read_toml p = do t ← gets (file_at p); lift (toml_of t)

  unfoldable pub write_toml : FilePath → Json → Disk (Unit {0})
  unfolding write_text
  write_toml p v = write_text p (M.toml_dumps v)

-- `s.replace(old, new)`, where `old` is not empty and `gone` characters are part of a match
pub replace_from : Text → Text → ℕ → Text → Text
replace_from old new gone [] = []
replace_from old new (suc gone) (c ∷ s) = replace_from old new gone s
replace_from old new zero (c ∷ s) =
    let matched = new ++ replace_from old new (length old - 1) s in
    let kept = c ∷ replace_from old new zero s in if starts_with (c ∷ s) old then matched else kept

unfoldable pub replace_text : Text → Text → Text → Text
unfolding replace_from starts_with
replace_text old new s = replace_from old new 0 s
