-- ===== src/Platform.antt =====
-- The machine that the connector runs on, as far as connector/src/pabel_connector/core/detection.py
-- asks it: Unicode's character classes above ASCII, the path conventions, and the file system.
use pabel.Base.{ℕ, Bool, ◌&&◌, ◌||◌, map, leb, nat_beq, Text, word_char, if◌then◌else◌}

-- `posix`, or Windows with its lower-case mapping.
pub data PathRules : Type 0 where
  posix : PathRules
  windows : (ℕ → ℕ) → PathRules

pub record Platform : Type 0 where
  -- word characters and white space beyond ASCII
  pub is_word_beyond : ℕ → Bool
  pub is_space_beyond : ℕ → Bool
  pub path_rules : PathRules
  -- `Path(p).is_file()`, `str(Path(p))` and `Path(p).name`
  pub is_file : Text → Bool
  pub path_str : Text → Text
  pub path_name : Text → Text
  -- `str(session.SESSION_FILE)` and `str(agent_session.CREDENTIALS_FILE)`
  pub session_file : Text
  pub credentials_file : Text
  -- Python's `repr` of a text
  pub repr : Text → Text
  -- whether core/decide.py exists below the working directory's connector/src/pabel_connector
  pub source_checkout : Bool

abbrev normal_char : (ℕ → ℕ) → ℕ → ℕ
normal_char lower c = if nat_beq c b'/' then 92 else lower c

-- `os.path.normcase`: nothing on POSIX; on Windows `/` becomes `\` and letters become small.
unfoldable pub normcase_by : PathRules → Text → Text
normcase_by posix s = s
normcase_by (windows lower) s = map (normal_char lower) s

abbrev pub normcase : Platform → Text → Text
normcase P s = normcase_by P.path_rules s

-- `\w`
abbrev pub is_word : Platform → ℕ → Bool
is_word P c = word_char P.is_word_beyond c

-- `\s`
abbrev pub is_space : Platform → ℕ → Bool
is_space P c =
    (leb 9 c && leb c 13) || ((leb 28 c && leb c 32) || (leb 128 c && P.is_space_beyond c))
