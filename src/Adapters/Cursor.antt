-- ===== src/Adapters/Cursor.antt =====
-- adapters/cursor.py: three hook points with one answer.
use pabel.Base.{true, false, Option, none, some, List, [], ◌∷◌}
use pabel.Base.{Text, codes, contains, text_eq_instance, if◌then◌else◌}
use pabel.Json.{Json, null, str, obj, end, field, or_else, empty_str, empty_obj}
use pabel.Json.Dumps.{dumps}
use pabel.Types.{NormalizedCall, Decision, RenderedResponse, to_stdout}
use pabel.Client.AuditLog.{optional_str}
use pabel.Adapters.{is_allow, ◌>>=◌, get, get_text, fold_content_into_reason}

unfoldable pub parse_read_file : Json → Option NormalizedCall
unfolding get
parse_read_file payload = do
  a ← get (codes "file_path") payload
  b ← get (codes "path") payload
  some (record {
    tool_name = codes "Read";
    tool_input = obj (field (codes "file_path") (or_else (or_else a b) empty_str) end);
    is_write = false;
    is_execute = false;
    mcp_target = none;
    write_target = null;
  })

unfoldable pub parse_shell_execution : Json → Option NormalizedCall
unfolding get
parse_shell_execution payload = do
  command ← get (codes "command") payload
  some (record {
    tool_name = codes "Bash";
    tool_input = obj (field (codes "command") (or_else command empty_str) end);
    is_write = false;
    is_execute = true;
    mcp_target = none;
    write_target = null;
  })

abbrev pabel_tool_names : List Text
pabel_tool_names = codes "whoami" ∷ codes "read_document" ∷ []

unfoldable pub parse_mcp_execution : Json → Option NormalizedCall
unfolding get
parse_mcp_execution payload = do
  tool_name ← get_text (codes "tool_name") payload
  a ← get (codes "tool_input") payload
  b ← get (codes "arguments") payload
  some (record {
    tool_name = tool_name;
    tool_input = or_else (or_else a b) empty_obj;
    is_write = false;
    is_execute = false;
    mcp_target =
        if contains tool_name pabel_tool_names then some (codes "pabel", tool_name) else none;
    write_target = null;
  })

unfoldable pub render : Decision → RenderedResponse
unfolding fold_content_into_reason
render d =
    if is_allow d.kind
    then to_stdout (dumps (obj (field (codes "permission") (str (codes "allow")) end)))
    else to_stdout (
        dumps (
          obj (
            field (codes "permission") (str (codes "deny")) (
              field (codes "agent_message") (optional_str (fold_content_into_reason d)) (
                field (codes "user_message")
                  (str (
                    codes
                      "PABEL: direct .abe access blocked - relayed result provided to the agent."))
                  end)))))
