-- ===== src/Adapters/Windsurf.antt =====
-- adapters/windsurf.py: four hook points that block by exit code 2 and stderr.
use pabel.Base.{any, occurs, ◌||◌, Bool, true, false, Option, none, some, List, [], ◌∷◌}
use pabel.Base.{Text, codes, text_eq, or_default, if◌then◌else◌}
use pabel.Json.{
  Json, Items, Fields, null, str, arr, obj, nil, cons, end, field, find, or_else, empty_str,
  empty_obj,
}
use pabel.Types.{NormalizedCall, Decision, RenderedResponse, no_output}
use pabel.Adapters.{is_allow, ◌>>=◌, get_object, as_text, fold_content_into_reason}

abbrev entries : Json → Option Fields
entries (obj fs) = some fs
entries v = none

-- the first of the keys that is there
unfoldable pub first_key : List Text → Fields → Option Json
unfolding find
first_key [] fs = none
first_key (k ∷ ks) fs = elim (find k fs) [ some v ↦ some v | none ↦ first_key ks fs ]

abbrev or_null : Option Json → Json
or_null none = null
or_null (some v) = v

-- `key in vs` of a list
unfoldable pub has_text : Text → Items → Bool
has_text key nil = false
has_text key (cons (str s) vs) = text_eq s key || has_text key vs
has_text key (cons v vs) = has_text key vs

-- one of the keys is in a text or a list, which no text can index
abbrev unless_any : (Text → Bool) → List Text → Option Json
unless_any is_in keys = if any is_in keys then none else some null

-- a value that is no dict: `in` finds a key's text in a text or a list, and raises for a number and
-- for `True`
unfoldable pub nested_field : List Text → Json → Option Json
unfolding first_key occurs has_text
nested_field keys (obj info) = some (or_null (first_key keys info))
nested_field keys (str s) = unless_any (λ key. occurs key s) keys
nested_field keys (arr vs) = unless_any (λ key. has_text key vs) keys
nested_field keys v = none

-- `_field`: in the payload, then in its tool_info
unfoldable pub field_of : List Text → Json → Option Json
unfolding first_key nested_field
field_of keys payload = do
  fs ← entries payload
  let nested : Option Json = get_object (codes "tool_info") payload >>= nested_field keys
  elim (first_key keys fs) [ some v ↦ some v | none ↦ nested ]

unfoldable pub parse_read_code : Json → Option NormalizedCall
unfolding field_of
parse_read_code payload = do
  path ← field_of (codes "file_path" ∷ codes "path" ∷ []) payload
  some (record {
    tool_name = codes "Read";
    tool_input = obj (field (codes "file_path") (or_else path empty_str) end);
    is_write = false;
    is_execute = false;
    mcp_target = none;
    write_target = null;
  })

unfoldable pub parse_write_code : Json → Option NormalizedCall
unfolding field_of
parse_write_code payload = do
  path ← field_of (codes "file_path" ∷ codes "path" ∷ []) payload
  content ← field_of (codes "content" ∷ []) payload
  some (record {
    tool_name = codes "Write";
    tool_input = obj (
        field (codes "file_path") (or_else path empty_str)
          (field (codes "content") (or_else content empty_str) end));
    is_write = true;
    is_execute = false;
    mcp_target = none;
    write_target = or_else path empty_str;
  })

unfoldable pub parse_run_command : Json → Option NormalizedCall
unfolding field_of
parse_run_command payload = do
  command ← field_of (codes "command_line" ∷ codes "command" ∷ []) payload
  some (record {
    tool_name = codes "Bash";
    tool_input = obj (field (codes "command") (or_else command empty_str) end);
    is_write = false;
    is_execute = true;
    mcp_target = none;
    write_target = null;
  })

abbrev is_pabel : Json → Bool
is_pabel v = elim (as_text v) [ none ↦ false | some s ↦ text_eq s (codes "pabel") ]

unfoldable pub parse_mcp_tool_use : Json → Option NormalizedCall
unfolding field_of
parse_mcp_tool_use payload = do
  server ← field_of (codes "mcp_server_name" ∷ []) payload
  tool ← field_of (codes "mcp_tool_name" ∷ codes "tool_name" ∷ []) payload
  tool_name ← as_text (or_else tool empty_str)
  arguments ←
      field_of (codes "mcp_tool_arguments" ∷ codes "tool_input" ∷ codes "arguments" ∷ []) payload
  some (record {
    tool_name = tool_name;
    tool_input = or_else arguments empty_obj;
    is_write = false;
    is_execute = false;
    mcp_target = if is_pabel server then some (codes "pabel", tool_name) else none;
    write_target = null;
  })

unfoldable pub render : Decision → RenderedResponse
unfolding fold_content_into_reason
render d =
    if is_allow d.kind
    then no_output
    else record { stdout = []; stderr = or_default (fold_content_into_reason d) []; exit_code = 2 }
