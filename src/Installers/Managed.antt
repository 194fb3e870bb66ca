-- ===== src/Installers/Managed.antt =====
-- managed_settings.py, and `pabel-connector generate-managed-settings`: the two files that an
-- administrator deploys to a managed machine.
pub mod Enforced
use pabel.Base.{Bool, true, false, ◌||◌, Option, none, some, List, [], ◌∷◌, ◌++◌}
use pabel.Base.{Text, codes, text_eq, is_empty, if◌then◌else◌}
use pabel.Base.Exec.{◌>>=◌, ◌>>◌}
use pabel.Json.{
  Json, Items, Fields, null, bool, num, str, arr, obj, nil, cons, end, field, find, with_field,
}
use pabel.Installers.Disk.{FilePath, below, Machine, Disk, write_json, replace_text}
use pabel.Installers.Hooks.{append, hook_timeout_seconds}
use pabel.Installers.Setting.{hook_command, mcp_server_args}

-- `s.endswith(t)`
unfoldable pub ends_with : Text → Text → Bool
ends_with [] t = is_empty t
ends_with (c ∷ s) t = text_eq (c ∷ s) t || ends_with s t

-- `HOOK_KEYS` of installers/claude_code.py
abbrev pub claude_code_keys : List Text
claude_code_keys = codes "claude-code" ∷ codes "claude-code:session-end" ∷ []

abbrev pub quoted : Text → Text
quoted t = b'"' ∷ (t ++ (b'"' ∷ []))

-- the entry of one key
abbrev pub hook_block : Text → Json
hook_block command = obj (
    field (codes "hooks")
      (arr (
        cons
          (obj (
            field (codes "type") (str (codes "command")) (
              field (codes "command") (str command)
                (field (codes "timeout") hook_timeout_seconds end))))
          nil))
      end)

-- `hooks.setdefault(event, []).append(block)`, where the dict holds lists
abbrev items_at : Option Json → Items
items_at (some (arr vs)) = vs
items_at other = nil

abbrev pub added : Text → Json → Fields → Fields
added event block hooks = with_field event (arr (append (items_at (find event hooks)) block)) hooks

module _ (M : Machine) where
  -- `_resolve_python_path`
  unfoldable pub resolve_python_path : Option Text → Text
  resolve_python_path none = M.executable
  resolve_python_path (some path) = if is_empty path then M.executable else path

  unfoldable pub managed_command : Option Text → Text → Text
  unfolding hook_command replace_text resolve_python_path
  managed_command python_path key =
      replace_text (quoted M.executable) (quoted (resolve_python_path python_path))
        (hook_command M key)

  abbrev event_of : Text → Text
  event_of key =
      if ends_with key (codes ":session-end") then codes "SessionEnd" else codes "PreToolUse"

  unfoldable pub managed_hooks : Option Text → List Text → Fields → Fields
  unfolding managed_command ends_with append find with_field
  managed_hooks python_path [] hooks = hooks
  managed_hooks python_path (key ∷ keys) hooks =
      managed_hooks python_path keys
        (added (event_of key) (hook_block (managed_command python_path key)) hooks)

  unfoldable pub generate_managed_settings : Option Text → Json
  unfolding managed_hooks
  generate_managed_settings python_path = obj (
      field (codes "allowManagedHooksOnly") (bool true) (
        field (codes "allowManagedPermissionRulesOnly") (bool true)
          (field (codes "hooks") (obj (managed_hooks python_path claude_code_keys end)) end)))

  -- `command` is this interpreter's, and so the resolved one stands in its place
  unfoldable pub generate_managed_mcp : Option Text → Text → Json
  unfolding resolve_python_path mcp_server_args
  generate_managed_mcp python_path server_url = obj (
      field (codes "mcpServers")
        (obj (
          field (codes "pabel")
            (obj (
              field (codes "type") (str (codes "http")) (field (codes "url") (str server_url) end)))
            (field (codes "pabel-connector")
              (obj (
                field (codes "type") (str (codes "stdio")) (
                  field (codes "command") (str (resolve_python_path python_path))
                    (field (codes "args") (mcp_server_args M (codes "claude-code")) end))))
              end)))
        end)

  unfoldable pub cmd_generate_managed_settings : Text → Option Text → Text → Disk (Unit {0})
  unfolding generate_managed_settings generate_managed_mcp write_json
  cmd_generate_managed_settings out_dir python_path server_url = do
    write_json M (below (M.resolve out_dir) (codes "managed-settings.json"))
        (generate_managed_settings python_path)
    write_json M (below (M.resolve out_dir) (codes "managed-mcp.json"))
        (generate_managed_mcp python_path server_url)
