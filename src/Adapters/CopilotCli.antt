-- ===== src/Adapters/CopilotCli.antt =====
-- adapters/copilot_cli.py.
use pabel.Base.{Option, some, List, [], ◌∷◌}
use pabel.Base.{Text, codes, contains, text_eq_instance, if◌then◌else◌}
use pabel.Json.{Json}
use pabel.Types.{NormalizedCall, Decision, RenderedResponse, no_output}
use pabel.Adapters.{
  is_allow, target_if, ◌>>=◌, get, get_text, get_object, mcp_target, fold_content_into_reason,
}
use pabel.Adapters.ClaudeCode.{deny_output}

abbrev mutating_tools : List Text
mutating_tools = codes "Write" ∷ codes "Edit" ∷ codes "NotebookEdit" ∷ []

unfoldable pub parse : Json → Option NormalizedCall
unfolding get mcp_target
parse payload = do
  tool_name ← get_text (codes "tool_name") payload
  tool_input ← get_object (codes "tool_input") payload
  let is_write = contains tool_name mutating_tools
  target ← target_if is_write (codes "file_path") (codes "notebook_path") tool_input
  some (record {
    tool_name = tool_name;
    tool_input = tool_input;
    is_write = is_write;
    is_execute = contains tool_name (codes "Bash" ∷ []);
    mcp_target = mcp_target tool_name;
    write_target = target;
  })

unfoldable pub render : Decision → RenderedResponse
unfolding fold_content_into_reason
render d =
    if is_allow d.kind
    then no_output
    else deny_output (codes "preToolUse") (fold_content_into_reason d) d.content
