-- ===== src/Server/GenerateRealm.antt =====
-- server/generate_realm.py: realm-org.json from its template and the variables of server/.env.
pub mod Filled
use pabel.Base.{ℕ, zero, suc, ◌+◌, ◌-◌, Bool, ◌&&◌, not, Option, none, some, List, [], ◌∷◌, ◌++◌}
use pabel.Base.{Text, codes, length, nat_beq, is_empty, starts_with, word_char, if◌then◌else◌}
use pabel.Base.Exec.{Result, ok, err, lift, pure, raise, gets, modify, ◌>>=◌, ◌>>◌}
use pabel.Server.{Services, Failure, other_error, foreign}
use pabel.Server.Env.{require}
use pabel.Server.Deployment.{Desk, Deploy, Command}

abbrev pub names : List Text
names =
    codes "ALICE_PASSWORD"
    ∷ codes "BOB_PASSWORD"
    ∷ codes "CHARLIE_PASSWORD"
    ∷ codes "CLAUDE_CODE_INSTALLATION_SECRET"
    ∷ codes "OPENCODE_INSTALLATION_SECRET"
    ∷ []

-- `"{{%s}}" % name`
abbrev pub placeholder : Text → Text
placeholder name = codes "{{" ++ (name ++ codes "}}")

-- `text.replace(old, new)`, behind so many characters of an occurrence
unfoldable pub replace : Text → Text → ℕ → Text → Text
unfolding starts_with
replace old new skip [] = []
replace old new (suc skip) (c ∷ s) = replace old new skip s
replace old new zero (c ∷ s) =
    let here = new ++ replace old new (length old - 1) s in
    let rest = c ∷ replace old new zero s in if starts_with (c ∷ s) old then here else rest

unfoldable pub fill : List Text → List Text → Text → Text
unfolding replace
fill (n ∷ ns) (v ∷ vs) text = fill ns vs (replace (placeholder n) v zero text)
fill ns vs text = text

module _ (is_word : ℕ → Bool) where
  -- a text's word characters in front, and what stands behind them
  unfoldable pub span : Text → Text × Text
  span [] = ([], [])
  span (c ∷ s) = let (w, rest) = span s in if is_word c then (c ∷ w, rest) else ([], c ∷ s)

  abbrev pub closed : Text × Text → Option Text
  unfolding starts_with
  closed (w, rest) = if not (is_empty w) && starts_with rest (codes "}}") then some w else none

  -- `\{\{(\w+)\}\}` at the beginning of a text
  unfoldable pub match_at : Text → Option Text
  unfolding span starts_with
  match_at [] = none
  match_at (c ∷ []) = none
  match_at (c ∷ d ∷ s) = if nat_beq c b'{' && nat_beq d b'{' then closed (span s) else none

  -- `re.findall`, behind so many characters of a match
  unfoldable pub find_all : ℕ → Text → List Text
  unfolding match_at
  find_all skip [] = []
  find_all (suc skip) (c ∷ s) = find_all skip s
  find_all zero (c ∷ s) = elim (match_at (c ∷ s)) [
    | none ↦ find_all zero s
    | some w ↦ w ∷ find_all (length w + 3) s
  ]

abbrev pub system_exit : Failure
system_exit = other_error (foreign (codes "SystemExit"))

abbrev pub file_of : Option Text → Result Failure Text
file_of none = err (other_error (foreign (codes "FileNotFoundError")))
file_of (some text) = ok text

module _ (S : Services) (D : Deploy S) where
  abbrev pub is_word : ℕ → Bool
  is_word c = word_char D.is_word_beyond c

  unfoldable pub written : Text → List Text → Command S (Unit {0})
  written text [] = modify (λ d. record d { realm_file = some text })
  written text (name ∷ left_over) = raise system_exit

  unfoldable pub fill_template : List Text → Text → Command S (Unit {0})
  unfolding fill find_all written
  fill_template values template =
      let text = fill names values template in written text (find_all is_word zero text)

  unfoldable pub given_values : Result Failure (List Text)
  unfolding require
  given_values = (require D.realm.is_space D.realm.env_lines names D.realm.environ).0

  unfoldable pub generate_realm : Command S (Unit {0})
  unfolding fill_template given_values
  generate_realm = do
    values ← lift given_values
    template ← gets (λ d. d.template)
    text ← lift (file_of template)
    fill_template values text
