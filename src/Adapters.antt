-- ===== src/Adapters.antt =====
-- connector/src/pabel_connector/adapters: from each agent's payload to a call, and from a decision
-- to that agent's answer. A payload is what `json.loads` returned. Where the code calls a method
-- that the value at hand lacks, or looks a tool name up that is no text, the exception ends the
-- hook; `none` stands for it.
pub mod ClaudeCode
pub mod CopilotCli
pub mod VsCode
pub mod Opencode
pub mod Cursor
pub mod Windsurf
use pabel.Base.{ℕ, Bool, true, false, ◌&&◌, not, Option, none, some, List, [], ◌∷◌, ◌++◌}
use pabel.Base.{Text, codes, nat_beq, starts_with, is_empty, if◌then◌else◌}
use pabel.Json.{Json, Fields, null, bool, num, str, arr, obj, end, field, find, or_else, empty_str}
use pabel.Json.{empty_obj}
use pabel.Json.Dumps.{dumps}
use pabel.Types.{Decision, DecisionKind, allow}

infixl 10 ◌>>=◌
abbrev pub ◌>>=◌ : {A B : Type 0} → Option A → (A → Option B) → Option B
none >>= f = none
some a >>= f = f a

abbrev or_null : Option Json → Json
or_null none = null
or_null (some v) = v

-- `v.get(key)`, which only a dict has
unfoldable pub get : Text → Json → Option Json
unfolding find
get key (obj fs) = some (or_null (find key fs))
get key v = none

abbrev pub as_text : Json → Option Text
as_text (str s) = some s
as_text v = none

-- `payload.get(key) or ""` where it has to be a text, and `payload.get(key) or {}`
abbrev pub get_text : Text → Json → Option Text
get_text key payload = get key payload >>= (λ v. as_text (or_else v empty_str))

abbrev pub get_object : Text → Json → Option Json
get_object key payload = get key payload >>= (λ v. some (or_else v empty_obj))

-- `(.+)$`: one line that ends the text, but for a line feed
abbrev before_newline : Text → Option Text
before_newline [] = some []
before_newline (c ∷ s) = elim (before_newline s) [
  | none ↦ none
  | some run ↦ if nat_beq c 10 then (if is_empty s then some [] else none) else some (c ∷ run)
]

abbrev nonempty : Option Text → Option Text
nonempty none = none
nonempty (some []) = none
nonempty (some (c ∷ s)) = some (c ∷ s)

unfoldable pub rest_of_line : Text → Option Text
rest_of_line s = nonempty (before_newline s)

abbrev skip_two : Text → Text
skip_two [] = []
skip_two (c ∷ []) = []
skip_two (c ∷ d ∷ s) = s

-- `(.+?)__(.+)$` behind the first character: the earliest separator that leaves a tool's name
unfoldable pub split_server : Text → Option (Text × Text)
unfolding rest_of_line starts_with
split_server [] = none
split_server (c ∷ s) =
    let later = split_server s in
    let here : Option Text =
      if starts_with (c ∷ s) (codes "__") then rest_of_line (skip_two (c ∷ s)) else none in
    elim here [
      | some tool ↦ some ([], tool)
      | none ↦ (if nat_beq c 10 then none else later >>= (λ (a, t). some (c ∷ a, t)))
    ]

abbrev behind_mcp : Text → Option (Text × Text)
behind_mcp [] = none
behind_mcp (c ∷ s) = if nat_beq c 10 then none else split_server s >>= (λ (a, t). some (c ∷ a, t))

-- `^mcp__(.+?)__(.+)$`
unfoldable pub mcp_target : Text → Option (Text × Text)
unfolding split_server starts_with
mcp_target [] = none
mcp_target (c ∷ s) =
    if starts_with (c ∷ s) (codes "mcp__") then behind_mcp (skip_two (skip_two s)) else none

-- how an f-string shows an `Optional[str]`
abbrev shown : Option Text → Text
shown none = codes "None"
shown (some s) = s

unfoldable pub fold_content_into_reason : Decision → Option Text
fold_content_into_reason d = elim d.content [
  | none ↦ d.reason
  | some content ↦
      some (shown d.reason ++ (10 ∷ 10 ∷ (codes "read_document result:" ++ (10 ∷ dumps content))))
]

abbrev pub is_allow : DecisionKind → Bool
is_allow allow = true
is_allow _ = false

-- `(tool_input.get(a) or tool_input.get(b)) if is_write else None`
abbrev target_if : Bool → Text → Text → Json → Option Json
target_if false a b tool_input = some null
target_if true a b tool_input = do x ← get a tool_input; y ← get b tool_input; some (or_else x y)
