-- ===== src/Adapters/ClaudeCode.antt =====
-- adapters/claude_code.py.
use pabel.Base.{Option, none, some, List, [], ◌∷◌}
use pabel.Base.{Text, codes, contains, text_eq_instance, if◌then◌else◌}
use pabel.Json.{Json, Fields, str, obj, end, field}
use pabel.Json.Dumps.{dumps}
use pabel.Types.{NormalizedCall, Decision, RenderedResponse, no_output, to_stdout}
use pabel.Client.AuditLog.{optional_str}
use pabel.Adapters.{is_allow, target_if, ◌>>=◌, get, get_text, get_object, mcp_target}

abbrev mutating_tools : List Text
mutating_tools = codes "Write" ∷ codes "Edit" ∷ codes "NotebookEdit" ∷ []

unfoldable pub parse : Json → Option NormalizedCall
unfolding get mcp_target
parse payload = do
  tool_name ← get_text (codes "tool_name") payload
  tool_input ← get_object (codes "tool_input") payload
  let is_write = contains tool_name mutating_tools
  target ← target_if is_write (codes "file_path") (codes "notebook_path") tool_input
  some (record {
    tool_name = tool_name;
    tool_input = tool_input;
    is_write = is_write;
    is_execute = contains tool_name (codes "Bash" ∷ []);
    mcp_target = mcp_target tool_name;
    write_target = target;
  })

abbrev with_context : Option Json → Fields
with_context none = end
with_context (some content) = field (codes "additionalContext") (str (dumps content)) end

-- `{"hookSpecificOutput": {...}}`
abbrev pub hook_output : Text → Fields → Text
hook_output event fs = dumps (
    obj
      (field (codes "hookSpecificOutput") (obj (field (codes "hookEventName") (str event) fs)) end))

abbrev pub deny_output : Text → Option Text → Option Json → RenderedResponse
deny_output event reason content = to_stdout (
    hook_output event (
      field (codes "permissionDecision") (str (codes "deny"))
        (field (codes "permissionDecisionReason") (optional_str reason) (with_context content))))

abbrev allow_output : Option Json → RenderedResponse
allow_output none = no_output
allow_output (some updated) = to_stdout (
    hook_output (codes "PreToolUse") (
      field (codes "permissionDecision") (str (codes "allow"))
        (field (codes "updatedInput") updated end)))

unfoldable pub render : Decision → RenderedResponse
render d =
    if is_allow d.kind
    then allow_output d.updated_input
    else deny_output (codes "PreToolUse") d.reason d.content
