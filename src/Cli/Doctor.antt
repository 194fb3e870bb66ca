-- ===== src/Cli/Doctor.antt =====
-- `pabel-connector doctor`: are the variables set, is the user logged in, is every installation
-- wired and does its credential work. The result is the exit code; a problem is a Boolean.
pub mod Wired
pub mod Installed
pub mod Checked
pub mod Healthy
use pabel.Base.{ℕ, Bool, true, false, not, ◌&&◌, ◌||◌, Option, none, some, List, [], ◌∷◌}
use pabel.Base.{Text, is_some, if◌then◌else◌}
use pabel.Base.Exec.{Result, ok, err, pure, raise, lift, gets, attempt, ◌>>=◌, ◌>>◌}
use pabel.Json.{Json}
use pabel.Failure.{
  Failure, Message, auth_error, keycloak_unreachable, relay_error, os_error, other_error,
  is_auth_error,
}
use pabel.Client.{Host, Credential}
use pabel.Client.Session
use pabel.Client.AgentSession
use pabel.Installers.Disk.{FilePath, Machine, Disk, read_json}
use pabel.Installers.Hooks.{command_present}
use pabel.Installers.CodexFamily.{shared_env_vars, set_value}
use pabel.Installers.Registry.{Installer, Relative, installer_of}
use pabel.Cli.Scope.{supports_global}
use pabel.Cli.Uninstall.{commands_of, config_of}
use pabel.Cli.Shell.{Command, on_disk, in_client}

-- `installations`: the agents, in the order of the file
unfoldable pub installations : List (Text × Credential) → List Text
installations [] = []
installations ((agent, e) ∷ rest) = agent ∷ installations rest

-- whether each of the commands is in the value
unfoldable pub all_present : List Text → Json → Bool
unfolding command_present
all_present [] d = true
all_present (c ∷ cs) d = command_present c d && all_present cs d

module _ (M : Machine) where
  unfoldable pub env_ok : List Text → Bool
  env_ok [] = true
  env_ok (n ∷ ns) = is_some (set_value (M.environ n)) && env_ok ns

  abbrev pub scan : Installer → FilePath → Bool → Option Relative → Option (List Text) → Disk Bool
  scan i dir global_ (some config) (some keys) = do
    path ← lift (config_of M i config dir global_)
    d ← read_json M path
    pure (not (all_present (commands_of M keys) d))
  scan i dir global_ config keys = pure false

  abbrev wiring_by : Installer → FilePath → Bool → Option (FilePath → Bool → Disk Bool) → Disk Bool
  wiring_by i dir global_ (some own) = own dir global_
  wiring_by i dir global_ none = scan i dir global_ i.config_path i.hook_keys

  -- `_wiring_problem_at`
  unfoldable pub wiring_problem_at : Installer → FilePath → Bool → Disk Bool
  unfolding read_json all_present commands_of
  wiring_problem_at i dir global_ = wiring_by i dir global_ i.hook_wiring_problem

  -- a project's wiring is a problem where it could have been machine-wide
  abbrev project_problem : Installer → FilePath → Disk Bool
  project_problem i dir = do
    problem ← wiring_problem_at i dir false
    pure (problem || supports_global i)

  abbrev after_global : Installer → FilePath → Bool → Disk Bool
  after_global i dir false = pure false
  after_global i dir true = if i.global_only then pure true else project_problem i dir

  abbrev global_first : Installer → FilePath → Bool → Disk Bool
  global_first i dir true = do problem ← wiring_problem_at i dir true; after_global i dir problem
  global_first i dir false = if i.global_only then pure false else project_problem i dir

  abbrev wiring_of : FilePath → Option Installer → Disk Bool
  wiring_of dir none = pure true
  wiring_of dir (some i) = global_first i dir (supports_global i)

  -- `_hook_wiring_ok`: whether there is a problem
  unfoldable pub hook_wiring_problem : List (Text × Installer) → Text → FilePath → Disk Bool
  unfolding wiring_problem_at installer_of
  hook_wiring_problem table agent dir = wiring_of dir (installer_of agent table)

module _ (H : Host) where
  -- what an attempt to authenticate says: a problem, or Keycloak does not answer
  abbrev pub verdict : Result Failure Text → Result Failure Bool
  verdict (ok token) = ok false
  verdict (err (auth_error m)) = ok true
  verdict (err (keycloak_unreachable m)) = err (keycloak_unreachable m)
  verdict (err (relay_error m)) = err (relay_error m)
  verdict (err (os_error m)) = err (os_error m)
  verdict (err (other_error m)) = err (other_error m)

  -- `_credential_problem`
  unfoldable pub credential_problem : Text → Command H Bool
  unfolding AgentSession.access_token
  credential_problem agent = do
    outcome ← attempt (in_client (AgentSession.access_token H agent))
    lift (verdict outcome)

  -- the outcome and whether Keycloak is down
  abbrev pub unless_down : Result Failure Bool → Result Failure (Bool × Bool)
  unless_down (ok problem) = ok (problem, false)
  unless_down (err (keycloak_unreachable m)) = ok (false, true)
  unless_down (err (auth_error m)) = err (auth_error m)
  unless_down (err (relay_error m)) = err (relay_error m)
  unless_down (err (os_error m)) = err (os_error m)
  unless_down (err (other_error m)) = err (other_error m)

  -- an agent's credential, where Keycloak is not known to be down
  unfoldable pub check_credential : Bool → Text → Command H (Bool × Bool)
  unfolding credential_problem
  check_credential true agent = pure (false, true)
  check_credential false agent = do
    outcome ← attempt (credential_problem agent)
    lift (unless_down outcome)

  abbrev pub login_ok : Result Failure Text → Result Failure Bool
  login_ok (ok token) = ok true
  login_ok (err e) = if is_auth_error e then ok false else err e

  module _ (M : Machine) (table : List (Text × Installer)) (dir : FilePath) where
    -- the loop over the installations: no problem so far, and is Keycloak down
    unfoldable pub check_installations : List Text → Bool → Bool → Command H Bool
    unfolding hook_wiring_problem check_credential
    check_installations [] ok_so_far down = pure (ok_so_far && not down)
    check_installations (agent ∷ agents) ok_so_far down = do
      unwired ← on_disk (hook_wiring_problem M table agent dir)
      answer ← check_credential down agent
      check_installations agents (ok_so_far && not (unwired || answer.0)) answer.1

    abbrev pub check_agents : List Text → Bool → Command H Bool
    check_agents [] ok_so_far = pure false
    check_agents (agent ∷ agents) ok_so_far = check_installations (agent ∷ agents) ok_so_far false

    abbrev pub after_login : Bool → Command H ℕ
    after_login logged_in = do
      agents ← gets (λ s. installations s.world.credentials)
      healthy ← check_agents agents (env_ok M shared_env_vars && logged_in)
      pure (if healthy then 0 else 1)

    unfoldable pub cmd_doctor : Command H ℕ
    unfolding Session.access_token env_ok installations check_installations
    cmd_doctor = do
      outcome ← attempt (in_client (Session.access_token H))
      logged_in ← lift (login_ok outcome)
      after_login logged_in
