-- ===== src/Installers/Registry.antt =====
-- The installers of claude_code.py, vscode.py, copilot_cli.py, cursor.py and windsurf.py, and
-- installers/registry.py. A module's attribute that some installers lack is an Option.
use pabel.Base.{Bool, true, false, Option, none, some, List, [], ◌∷◌}
use pabel.Base.{Text, codes, text_eq, if◌then◌else◌}
use pabel.Base.Exec.{Result, ok, err, pure, raise, lift, ◌>>=◌, ◌>>◌}
use pabel.Json.{Json, Fields, num, str, obj, end, field}
use pabel.Failure.{Failure}
use pabel.Installers.Disk.{FilePath, below, Machine, Disk, read_json, write_json, write_text}
use pabel.Installers.Hooks.{type_error}
use pabel.Installers.Setting.{
  set_in, set_default, default, mcp_server_args, install_windows_aware_hook,
  install_multi_point_hooks, install_nested, point_key,
}
use pabel.Installers.CodexFamily.{codex_config, install_codex, uninstall_mcp_registration}
use pabel.Installers.Opencode

-- a relative path, put behind a directory
abbrev pub Relative : Type 0
Relative = FilePath → FilePath

pub record Installer : Type 0 where
  pub status : Text
  pub global_only : Bool
  pub config_path : Option Relative
  pub global_config : Option Relative
  pub hook_keys : Option (List Text)
  pub skill : Option Relative
  pub install : FilePath → Bool → Disk (Unit {0})
  pub uninstall : Option (FilePath → Bool → Disk (Unit {0}))
  pub hook_wiring_problem : Option (FilePath → Bool → Disk Bool)

abbrev pub in_folder : Text → Text → Relative
in_folder folder name p = below (below p folder) name

abbrev pub in_folders : Text → Text → Text → Relative
in_folders outer inner name p = below (below (below p outer) inner) name

abbrev pub skill_in : Relative
skill_in p =
    below (below (below (below p (codes ".claude")) (codes "skills")) (codes "pabel"))
      (codes "SKILL.md")

abbrev beside : Text → Relative
beside name p = below p name

-- where a setting belongs
abbrev pub place : Machine → FilePath → Bool → FilePath
place M base_dir global_ = if global_ then M.home else base_dir

abbrev pub cursor_points : List Text
cursor_points =
    codes "beforeReadFile" ∷ codes "beforeShellExecution" ∷ codes "beforeMCPExecution" ∷ []

abbrev pub windsurf_points : List Text
windsurf_points =
    codes "pre_read_code"
    ∷ codes "pre_write_code"
    ∷ codes "pre_run_command"
    ∷ codes "pre_mcp_tool_use"
    ∷ []

abbrev pub keys_of : Text → List Text → List Text
keys_of agent [] = []
keys_of agent (p ∷ ps) = point_key agent p ∷ keys_of agent ps

abbrev pub and_then : Result Failure Json → (Json → Result Failure Json) → Result Failure Json
and_then (ok d) f = f d
and_then (err e) f = err e

module _ (M : Machine) where
  -- read, change, write
  unfoldable pub edit_json : FilePath → (Json → Result Failure Json) → Disk (Unit {0})
  unfolding read_json write_json
  edit_json path change = do d ← read_json M path; d' ← lift (change d); write_json M path d'

  -- the values that the installers write, from those that they read
  unfoldable pub claude_code_hooks : Json → Result Failure Json
  unfolding install_nested
  claude_code_hooks d =
      and_then (install_nested M (codes "PreToolUse") (codes "claude-code") d)
        (install_nested M (codes "SessionEnd") (codes "claude-code:session-end"))

  abbrev stdio_fields : Text → Fields
  stdio_fields agent_id =
      field (codes "command") (str M.executable)
        (field (codes "args") (mcp_server_args M agent_id) end)

  unfoldable pub claude_code_servers : Json → Result Failure Json
  unfolding set_in mcp_server_args
  claude_code_servers d =
      and_then
        (set_in (codes "mcpServers") (codes "pabel")
          (λ old. ok (
            default
              (obj (
                field (codes "type") (str (codes "http"))
                  (field (codes "url") (str (codes "${PABEL_SERVER_URL}")) end)))
              old))
          d)
        (set_in (codes "mcpServers") (codes "pabel-connector")
          (λ old. ok (obj (stdio_fields (codes "claude-code")))))

  unfoldable pub vscode_hooks : Json → Result Failure Json
  unfolding install_windows_aware_hook
  vscode_hooks = install_windows_aware_hook M (codes "PreToolUse") (codes "vscode")

  unfoldable pub vscode_servers : Json → Result Failure Json
  unfolding set_in mcp_server_args
  vscode_servers =
      set_in (codes "servers") (codes "pabel-connector") (λ old.
        ok (obj (field (codes "type") (str (codes "stdio")) (stdio_fields (codes "vscode")))))

  unfoldable pub copilot_cli_hooks : Json → Result Failure Json
  unfolding install_windows_aware_hook set_default
  copilot_cli_hooks d =
      and_then (set_default (codes "version") (num (codes "1")) d)
        (install_windows_aware_hook M (codes "preToolUse") (codes "copilot-cli"))

  unfoldable pub cursor_hooks : Json → Result Failure Json
  unfolding install_multi_point_hooks set_default
  cursor_hooks d =
      and_then (set_default (codes "version") (num (codes "1")) d)
        (install_multi_point_hooks M (codes "cursor") cursor_points)

  unfoldable pub windsurf_hooks : Json → Result Failure Json
  unfolding install_multi_point_hooks
  windsurf_hooks = install_multi_point_hooks M (codes "windsurf") windsurf_points

  abbrev pub claude_code : Installer
  claude_code = record {
    status = codes "verified";
    global_only = false;
    config_path = some (in_folder (codes ".claude") (codes "settings.json"));
    global_config = some (in_folder (codes ".claude") (codes "settings.json"));
    hook_keys = some (codes "claude-code" ∷ codes "claude-code:session-end" ∷ []);
    skill = some skill_in;
    install = λ base_dir global_. do
      edit_json (in_folder (codes ".claude") (codes "settings.json") (place M base_dir global_))
          claude_code_hooks
      edit_json (below base_dir (codes ".mcp.json")) claude_code_servers
      write_text (skill_in (place M base_dir global_)) (M.bundled (codes "pabel"));
    uninstall = none;
    hook_wiring_problem = none;
  }

  -- `install(base_dir)` takes no `global_`
  abbrev only_local : (FilePath → Disk (Unit {0})) → FilePath → Bool → Disk (Unit {0})
  only_local f base_dir true = raise type_error
  only_local f base_dir false = f base_dir

  abbrev pub vscode : Installer
  vscode = record {
    status = codes "unverified";
    global_only = false;
    config_path = some (in_folders (codes ".github") (codes "hooks") (codes "pabel.json"));
    global_config = none;
    hook_keys = some (codes "vscode" ∷ []);
    skill = none;
    install = only_local (λ base_dir. do
      edit_json (in_folders (codes ".github") (codes "hooks") (codes "pabel.json") base_dir)
          vscode_hooks
      edit_json (in_folder (codes ".vscode") (codes "mcp.json") base_dir) vscode_servers);
    uninstall = none;
    hook_wiring_problem = none;
  }

  -- an installer that writes one file of hooks
  abbrev pub hooks_only :
      Text → Relative → Relative → List Text → (Json → Result Failure Json) → Installer
  hooks_only status config global_config keys change = record {
    status = status;
    global_only = false;
    config_path = some config;
    global_config = some global_config;
    hook_keys = some keys;
    skill = none;
    install = λ base_dir global_.
        edit_json (if global_ then global_config M.home else config base_dir) change;
    uninstall = none;
    hook_wiring_problem = none;
  }

  abbrev pub copilot_cli : Installer
  copilot_cli =
      hooks_only (codes "unverified")
        (in_folders (codes ".github") (codes "hooks") (codes "pabel-copilot-cli.json"))
        (in_folders (codes ".copilot") (codes "hooks") (codes "pabel-copilot-cli.json"))
        (codes "copilot-cli" ∷ []) copilot_cli_hooks

  abbrev pub cursor : Installer
  cursor =
      hooks_only (codes "unverified") (in_folder (codes ".cursor") (codes "hooks.json"))
        (in_folder (codes ".cursor") (codes "hooks.json")) (keys_of (codes "cursor") cursor_points)
        cursor_hooks

  abbrev pub windsurf : Installer
  windsurf =
      hooks_only (codes "degraded") (in_folder (codes ".windsurf") (codes "hooks.json"))
        (in_folders (codes ".codeium") (codes "windsurf") (codes "hooks.json"))
        (keys_of (codes "windsurf") windsurf_points) windsurf_hooks

  abbrev quiet : {A : Type 0} → Disk A → Disk (Unit {0})
  quiet m = do _ ← m; pure tt

  abbrev pub opencode : Installer
  opencode = record {
    status = codes "unverified";
    global_only = false;
    config_path = some (beside (codes "opencode.json"));
    global_config = some (in_folders (codes ".config") (codes "opencode") (codes "opencode.json"));
    hook_keys = none;
    skill = none;
    install = Opencode.install M;
    uninstall = some (λ base_dir global_. quiet (Opencode.uninstall M base_dir global_));
    hook_wiring_problem = some (Opencode.hook_wiring_problem M);
  }

  abbrev codex : Text → Text → Installer
  codex agent_id server_name = record {
    status = codes "mcp-only";
    global_only = true;
    config_path = some (λ base_dir. codex_config M);
    global_config = some (in_folder (codes ".codex") (codes "config.toml"));
    hook_keys = none;
    skill = none;
    install = install_codex M agent_id server_name;
    uninstall = some (λ base_dir global_. quiet (uninstall_mcp_registration M server_name));
    hook_wiring_problem = none;
  }

  -- cline.py and continue_dev.py write nothing
  abbrev gap : Installer
  gap = record {
    status = codes "gap";
    global_only = false;
    config_path = none;
    global_config = none;
    hook_keys = none;
    skill = none;
    install = only_local (λ base_dir. pure tt);
    uninstall = none;
    hook_wiring_problem = none;
  }

  -- `INSTALLERS`, in the order of its keys, in which `sorted` gives them
  unfoldable pub installers : List (Text × Installer)
  unfolding edit_json claude_code_hooks claude_code_servers vscode_hooks vscode_servers
      copilot_cli_hooks cursor_hooks windsurf_hooks install_codex uninstall_mcp_registration
      write_text point_key Opencode.install Opencode.uninstall Opencode.hook_wiring_problem
  installers =
      (
        codes "chatgpt-desktop",
        codex (codes "chatgpt-desktop") (codes "pabel-connector-chatgpt-desktop"),
      )
      ∷ (codes "claude-code", claude_code)
      ∷ (codes "cline", gap)
      ∷ (codes "codex-cli", codex (codes "codex-cli") (codes "pabel-connector-codex-cli"))
      ∷ (codes "continue-dev", gap)
      ∷ (codes "copilot-cli", copilot_cli)
      ∷ (codes "cursor", cursor)
      ∷ (codes "opencode", opencode)
      ∷ (codes "vscode", vscode)
      ∷ (codes "windsurf", windsurf)
      ∷ []

unfoldable pub installer_of : Text → List (Text × Installer) → Option Installer
installer_of key [] = none
installer_of key ((k, i) ∷ rest) = if text_eq k key then some i else installer_of key rest
