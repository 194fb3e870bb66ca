-- ===== src/Cli/Uninstall.antt =====
-- `pabel-connector uninstall`, `login` and `logout`. The result of a command is its exit code.
pub mod Clean
use pabel.Base.{ℕ, Bool, true, false, not, ◌&&◌, Option, none, some, List, [], ◌∷◌}
use pabel.Base.{Text, if◌then◌else◌}
use pabel.Base.Exec.{Result, ok, err, pure, raise, lift, attempt, ◌>>=◌, ◌>>◌}
use pabel.Json.{Json}
use pabel.Failure.{Failure, is_auth_error}
use pabel.Client.{Host}
use pabel.Client.Session
use pabel.Installers.Disk.{FilePath, Machine, Disk, read_json, write_json, exists, unlink}
use pabel.Installers.Hooks.{remove_matching_commands}
use pabel.Installers.Setting.{hook_command}
use pabel.Installers.Registry.{Installer, Relative, installer_of}
use pabel.Cli.Scope.{Args, supports_global, base_dir, resolve_scope}
use pabel.Cli.Shell.{Command, on_disk, in_client, attribute}

module _ (M : Machine) where
  -- `{base.hook_command(k) for k in installer.HOOK_KEYS}`
  unfoldable pub commands_of : List Text → List Text
  unfolding hook_command
  commands_of [] = []
  commands_of (k ∷ ks) = hook_command M k ∷ commands_of ks

  -- `base.global_config_path(...)` or the path below the project
  abbrev pub config_of : Installer → Relative → FilePath → Bool → Result Failure FilePath
  config_of i config dir true = elim (attribute i.global_config) [
    | ok place ↦ ok (place M.home)
    | err e ↦ err e
  ]
  config_of i config dir false = ok (config dir)

  abbrev pub write_if : Bool → FilePath → Json → Disk (Unit {0})
  write_if true path d = write_json M path d
  write_if false path d = pure tt

  -- the hook entries go from one file; the file is written only if there were any
  unfoldable pub remove_hooks : List Text → FilePath → Disk Bool
  unfolding read_json write_json remove_matching_commands
  remove_hooks commands path = do
    d ← read_json M path
    cleaned ← lift (remove_matching_commands commands d)
    write_if (cleaned.1) path (cleaned.0)
    pure (cleaned.1)

  abbrev drop_if : Bool → FilePath → Disk (Unit {0})
  drop_if true path = unlink path
  drop_if false path = pure tt

  abbrev remove_skill : Option Relative → FilePath → Disk (Unit {0})
  remove_skill none above = pure tt
  remove_skill (some place) above = do there ← exists (place above); drop_if there (place above)

  -- an installer without an `uninstall` of its own
  unfoldable pub uninstall_hooks : Installer → Relative → FilePath → Bool → Disk (Unit {0})
  unfolding remove_hooks commands_of exists unlink
  uninstall_hooks i config dir global_ = do
    path ← lift (config_of i config dir global_)
    keys ← lift (attribute i.hook_keys)
    remove_hooks (commands_of keys) path
    remove_skill i.skill (if global_ then M.home else dir)

  abbrev uninstall_by :
      Installer
      → Relative
      → FilePath
      → Bool
      → Option (FilePath → Bool → Disk (Unit {0}))
      → Disk (Unit {0})
  uninstall_by i config dir global_ (some own) = own dir global_
  uninstall_by i config dir global_ none = uninstall_hooks i config dir global_

  module _ (H : Host) where
    abbrev uninstall_from : Args → Installer → Option Relative → Command H ℕ
    uninstall_from args i none = pure 0
    uninstall_from args i (some config) =
        let scope = resolve_scope i args in
        if args.global_ && not (supports_global i)
        then pure 2
        else (do on_disk (uninstall_by i config (base_dir M args) scope.0 i.uninstall); pure 0)

    abbrev uninstall_named : Args → Option Installer → Command H ℕ
    uninstall_named args none = pure 2
    uninstall_named args (some i) = uninstall_from args i i.config_path

    -- `table` is `INSTALLERS`
    unfoldable pub cmd_uninstall : List (Text × Installer) → Args → Text → Command H ℕ
    unfolding uninstall_hooks installer_of resolve_scope base_dir
    cmd_uninstall table args agent = uninstall_named args (installer_of agent table)

module _ (H : Host) where
  -- `except AuthError`
  abbrev login_code : Result Failure (Unit {0}) → Command H ℕ
  login_code (ok u) = pure 0
  login_code (err e) = if is_auth_error e then pure 1 else raise e

  unfoldable pub cmd_login : Command H ℕ
  unfolding Session.login
  cmd_login = do outcome ← attempt (in_client (Session.login H)); login_code outcome

  unfoldable pub cmd_logout : Command H ℕ
  unfolding Session.logout
  cmd_logout = do existed ← in_client (Session.logout H); pure 0
