-- ===== src/Adapters/Opencode.antt =====
-- adapters/opencode.py.
use pabel.Base.{Bool, true, false, ◌&&◌, not, Option, none, some, List, [], ◌∷◌}
use pabel.Base.{Text, codes, contains, text_eq_instance, partition, is_empty, if◌then◌else◌}
use pabel.Json.{Json, Fields, null, str, obj, end, field, or_else}
use pabel.Json.Dumps.{dumps}
use pabel.Types.{NormalizedCall, Decision, RenderedResponse, to_stdout}
use pabel.Client.AuditLog.{optional_str}
use pabel.Adapters.{is_allow, ◌>>=◌, get, get_text, get_object, fold_content_into_reason}

abbrev mutating_tools : List Text
mutating_tools = codes "write" ∷ codes "edit" ∷ codes "patch" ∷ []

abbrev pabel_tool_names : List Text
pabel_tool_names =
    codes "whoami" ∷ codes "read_document" ∷ codes "materialize_document" ∷ codes "login" ∷ []

abbrev known_mcp_servers : List Text
known_mcp_servers = codes "pabel" ∷ codes "pabel-connector" ∷ []

abbrev known : Option (Text × Text) → Option (Text × Text)
known none = none
known (some (server, tool)) =
    if contains server known_mcp_servers && not (is_empty tool) then some (server, tool) else none

abbrev first_of : Option (Text × Text) → Option (Text × Text) → Option (Text × Text)
first_of none b = b
first_of (some a) b = some a

-- `_mcp_target`, over the separators `_`, `.` and `*`
unfoldable pub target : Text → Option (Text × Text)
unfolding partition
target tool_name = first_of (known (partition b'_' tool_name)) (
    first_of (known (partition b'.' tool_name)) (
      first_of (known (partition b'*' tool_name))
        (if contains tool_name pabel_tool_names then some (codes "pabel", tool_name) else none)))

abbrev write_target : Bool → Json → Option Json
write_target false args = some null
write_target true args = do
  a ← get (codes "filePath") args
  b ← get (codes "path") args
  c ← get (codes "file_path") args
  some (or_else (or_else a b) c)

unfoldable pub parse : Json → Option NormalizedCall
unfolding get target
parse payload = do
  tool_name ← get_text (codes "tool") payload
  args ← get_object (codes "args") payload
  let is_write = contains tool_name mutating_tools
  path ← write_target is_write args
  some (record {
    tool_name = tool_name;
    tool_input = args;
    is_write = is_write;
    is_execute = contains tool_name (codes "bash" ∷ []);
    mcp_target = target tool_name;
    write_target = path;
  })

abbrev updated_args : Option Json → Fields
updated_args none = end
updated_args (some args) = field (codes "updated_args") args end

unfoldable pub render : Decision → RenderedResponse
unfolding fold_content_into_reason
render d =
    if is_allow d.kind
    then to_stdout (
        dumps
          (obj (field (codes "permission") (str (codes "allow")) (updated_args d.updated_input))))
    else to_stdout (
        dumps (
          obj (
            field (codes "permission") (str (codes "deny"))
              (field (codes "message") (optional_str (fold_content_into_reason d)) end))))
