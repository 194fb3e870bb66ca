-- ===== src/Cli/Install.antt =====
-- `pabel-connector install`: one agent, or those that are picked from the list. The result of a
-- command is its exit code.
pub mod Stored
use pabel.Base.{ℕ, zero, suc, Bool, not, ◌&&◌, ◌||◌, Option, none, some, List, [], ◌∷◌, ◌++◌}
use pabel.Base.{Text, codes, is_some, is_empty, strip, if◌then◌else◌}
use pabel.Base.Exec.{Result, ok, err, pure, lift, ◌>>=◌, ◌>>◌}
use pabel.Failure.{Failure, other_error, foreign}
use pabel.Client.{Host}
use pabel.Client.AgentSession.{store_credentials}
use pabel.Client.AuditLog.{install_public_key}
use pabel.Installers.Disk.{FilePath, Machine}
use pabel.Installers.Registry.{Installer, installer_of}
use pabel.Cli.Scope.{Args, given, supports_global, base_dir, resolve_scope}
use pabel.Cli.Selection.{parse_selection}
use pabel.Cli.Shell.{Command, on_disk, in_client, input, getpass}

abbrev keys_of : List (Text × Installer) → List Text
keys_of [] = []
keys_of ((k, i) ∷ rest) = k ∷ keys_of rest

module _ (M : Machine) (H : Host) where
  -- `value or question(...).strip()`
  abbrev pub or_asked : Option Text → Command H Text → Command H Text
  or_asked none question = do t ← question; pure (strip M.is_space t)
  or_asked (some t) question = pure t

  unfoldable pub install_one :
      Text → Installer → FilePath → Bool → Option Text → Option Text → Command H ℕ
  unfolding store_credentials
  install_one agent installer dir global_ client_id client_secret = do
    on_disk (installer.install dir global_)
    id ← or_asked (given client_id) input
    secret ← or_asked (given client_secret) getpass
    if is_empty id || is_empty secret
        then pure 2
        else (in_client (store_credentials H agent id secret) >> pure 0)

  abbrev audit_key_at : Option Text → Command H (Unit {0})
  audit_key_at none = pure tt
  audit_key_at (some path) = do
    source ←
        in_client (λ w. let (r, o) = H.read_bytes path w.outside in (r, record w { outside = o }))
    in_client (install_public_key H source)

  unfoldable pub install_audit_key : Args → Command H (Unit {0})
  unfolding install_public_key
  install_audit_key args = audit_key_at (given args.audit_public_key)

  abbrev with_audit_key : Args → ℕ → Command H ℕ
  with_audit_key args zero = do install_audit_key args; pure 0
  with_audit_key args (suc n) = pure (suc n)

  abbrev install_named : Args → Text → Option Installer → Command H ℕ
  install_named args agent none = pure 2
  install_named args agent (some i) =
      if args.global_ && not (supports_global i)
      then pure 2
      else (let scope = resolve_scope i args in
          do
            rc ← install_one agent i (base_dir M args) scope.0 args.client_id args.client_secret
            with_audit_key args rc)

  -- `INSTALLERS[key]`
  abbrev subscript : Option Installer → Result Failure Installer
  subscript none = err (other_error (foreign (codes "KeyError")))
  subscript (some i) = ok i

  abbrev noted : Text → ℕ → List Text → List Text
  noted agent zero failed = failed
  noted agent (suc n) failed = failed ++ (agent ∷ [])

  -- the agents whose installation failed, behind those that failed before
  unfoldable pub install_each :
      List (Text × Installer) → Args → List Text → List Text → Command H (List Text)
  unfolding install_one installer_of resolve_scope base_dir
  install_each table args failed [] = pure failed
  install_each table args failed (key ∷ keys) = do
    i ← lift (subscript (installer_of key table))
    let scope = resolve_scope i args
    rc ← install_one key i (base_dir M args) scope.0 none none
    install_each table args (noted key rc failed) keys

  abbrev exit_code : List Text → ℕ
  exit_code [] = 0
  exit_code (k ∷ ks) = 1

  abbrev install_picked : List (Text × Installer) → Args → List Text → Command H ℕ
  install_picked table args [] = pure 2
  install_picked table args (k ∷ ks) = do
    failed ← install_each table args [] (k ∷ ks)
    install_audit_key args
    pure (exit_code failed)

  unfoldable pub install_selected : List (Text × Installer) → Args → Command H ℕ
  unfolding install_each install_audit_key parse_selection
  install_selected table args =
      if is_some (given args.client_id) || is_some (given args.client_secret) then pure 2 else (do
        raw ← input
        selected ← lift (parse_selection M raw (keys_of table))
        install_picked table args selected)

  abbrev by_agent : List (Text × Installer) → Args → Option Text → Command H ℕ
  by_agent table args none = install_selected table args
  by_agent table args (some agent) = install_named args agent (installer_of agent table)

  -- `table` is `INSTALLERS`
  unfoldable pub cmd_install : List (Text × Installer) → Args → Command H ℕ
  unfolding install_one install_audit_key install_selected installer_of resolve_scope base_dir
  cmd_install table args = by_agent table args args.agent
