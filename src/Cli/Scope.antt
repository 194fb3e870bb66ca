-- ===== src/Cli/Scope.antt =====
-- Where an agent is installed: `_supports_global`, `_base_dir` and `_resolve_scope`.
use pabel.Base.{Bool, true, false, Option, none, some}
use pabel.Base.{Text, is_some, is_empty, if◌then◌else◌}
use pabel.Installers.Disk.{FilePath, Machine}
use pabel.Installers.Registry.{Installer}

-- what the commands read of the parsed arguments
pub record Args : Type 0 where
  pub agent : Option Text
  pub dir : Option Text
  pub global_ : Bool
  pub client_id : Option Text
  pub client_secret : Option Text
  pub audit_public_key : Option Text

-- `if value`
abbrev pub given : Option Text → Option Text
given none = none
given (some t) = if is_empty t then none else some t

abbrev pub supports_global : Installer → Bool
supports_global i = is_some i.global_config

abbrev dir_or : FilePath → (Text → FilePath) → Option Text → FilePath
dir_or cwd resolve none = cwd
dir_or cwd resolve (some t) = resolve t

unfoldable pub base_dir : Machine → Args → FilePath
base_dir M args = dir_or M.cwd M.resolve (given args.dir)

-- whether to install globally, and whether a note says that this is not what was asked for
unfoldable pub resolve_scope : Installer → Args → Bool × Bool
resolve_scope i args =
    if i.global_only
    then (true, is_some (given args.dir))
    else if args.global_
    then (if supports_global i then (true, false) else (false, true))
    else if supports_global i
    then (if is_some (given args.dir) then (false, false) else (true, false))
    else (false, true)
