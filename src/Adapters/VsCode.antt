-- ===== src/Adapters/VsCode.antt =====
-- adapters/vscode.py.
use pabel.Base.{Bool, true, false, Option, none, some, List, [], ◌∷◌}
use pabel.Base.{Text, codes, contains, text_eq_instance, if◌then◌else◌}
use pabel.Json.{Json, null, arr, cons}
use pabel.Types.{NormalizedCall, Decision, RenderedResponse, no_output}
use pabel.Adapters.{is_allow, ◌>>=◌, get, get_text, get_object, mcp_target}
use pabel.Adapters.ClaudeCode.{deny_output}

abbrev mutating_tools : List Text
mutating_tools = codes "editFiles" ∷ codes "createFile" ∷ codes "deleteFile" ∷ []

abbrev execute_tools : List Text
execute_tools = codes "runTerminalCommand" ∷ codes "run_in_terminal" ∷ []

-- the first file of a list that is not empty
abbrev first_file : Json → Option Json
first_file (arr (cons v vs)) = some v
first_file v = none

abbrev file_or : Option Json → Json → Option Json
file_or (some f) tool_input = some f
file_or none tool_input = get (codes "file_path") tool_input

abbrev write_target : Bool → Json → Option Json
write_target false tool_input = some null
write_target true tool_input = do
  files ← get (codes "files") tool_input
  file_or (first_file files) tool_input

unfoldable pub parse : Json → Option NormalizedCall
unfolding get mcp_target
parse payload = do
  tool_name ← get_text (codes "tool_name") payload
  tool_input ← get_object (codes "tool_input") payload
  let is_write = contains tool_name mutating_tools
  target ← write_target is_write tool_input
  some (record {
    tool_name = tool_name;
    tool_input = tool_input;
    is_write = is_write;
    is_execute = contains tool_name execute_tools;
    mcp_target = mcp_target tool_name;
    write_target = target;
  })

unfoldable pub render : Decision → RenderedResponse
render d =
    if is_allow d.kind then no_output else deny_output (codes "PreToolUse") d.reason d.content
