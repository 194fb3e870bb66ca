-- ===== src/Hook.antt =====
-- connector/src/pabel_connector/hook.py and registry.py: from the arguments of one hook process to
-- its output.
pub mod Passes
pub mod Names
use pabel.Base.{Option, none, some, List, [], ◌∷◌, ◌++◌}
use pabel.Base.{Text, codes, text_eq, before, if◌then◌else◌}
use pabel.Base.Exec.{pure, raise, ◌>>=◌, ◌>>◌}
use pabel.Json.{Json}
use pabel.Platform.{Platform}
use pabel.Failure.{other_error, foreign}
use pabel.Types.{NormalizedCall, Decision, RenderedResponse, no_output}
use pabel.Client.{Host, Client}
use pabel.Client.Materialize.{purge_all}
use pabel.Policy.{decide}
use pabel.Adapters.ClaudeCode
use pabel.Adapters.CopilotCli
use pabel.Adapters.VsCode
use pabel.Adapters.Opencode
use pabel.Adapters.Cursor
use pabel.Adapters.Windsurf

pub record Adapter : Type 0 where
  pub name : Text
  pub parse : Json → Option NormalizedCall
  pub render : Decision → RenderedResponse

abbrev cursor : Text → (Json → Option NormalizedCall) → Adapter
cursor name parse = record { name = name; parse = parse; render = Cursor.render }

abbrev pub windsurf : Text → (Json → Option NormalizedCall) → Adapter
windsurf name parse = record { name = name; parse = parse; render = Windsurf.render }

-- `ADAPTERS`
unfoldable pub adapters : List (Text × Adapter)
adapters =
    (
      codes "claude-code",
      record { name = codes "claude-code"; parse = ClaudeCode.parse; render = ClaudeCode.render },
    )
    ∷ (
      codes "vscode",
      record { name = codes "vscode"; parse = VsCode.parse; render = VsCode.render },
    )
    ∷ (
      codes "copilot-cli",
      record { name = codes "copilot-cli"; parse = CopilotCli.parse; render = CopilotCli.render },
    )
    ∷ (
      codes "opencode",
      record { name = codes "opencode"; parse = Opencode.parse; render = Opencode.render },
    )
    ∷ (codes "cursor:beforeReadFile", cursor (codes "cursor:beforeReadFile") Cursor.parse_read_file)
    ∷ (
      codes "cursor:beforeShellExecution",
      cursor (codes "cursor:beforeShellExecution") Cursor.parse_shell_execution,
    )
    ∷ (
      codes "cursor:beforeMCPExecution",
      cursor (codes "cursor:beforeMCPExecution") Cursor.parse_mcp_execution,
    )
    ∷ (
      codes "windsurf:pre_read_code",
      windsurf (codes "windsurf:pre_read_code") Windsurf.parse_read_code,
    )
    ∷ (
      codes "windsurf:pre_write_code",
      windsurf (codes "windsurf:pre_write_code") Windsurf.parse_write_code,
    )
    ∷ (
      codes "windsurf:pre_run_command",
      windsurf (codes "windsurf:pre_run_command") Windsurf.parse_run_command,
    )
    ∷ (
      codes "windsurf:pre_mcp_tool_use",
      windsurf (codes "windsurf:pre_mcp_tool_use") Windsurf.parse_mcp_tool_use,
    )
    ∷ []

unfoldable pub adapter_of : Text → List (Text × Adapter) → Option Adapter
adapter_of key [] = none
adapter_of key ((k, a) ∷ rest) = if text_eq k key then some a else adapter_of key rest

-- what stands before the colon of an adapter's name
unfoldable pub agent_id_of : Adapter → Text
unfolding before
agent_id_of a = before b':' a.name

abbrev stderr_2 : Text → RenderedResponse
stderr_2 text = record { stdout = []; stderr = text; exit_code = 2 }

module _ (P : Platform) (H : Host) where
  -- `handle_session_end`, where the directory can be removed
  handle_session_end : Client H RenderedResponse
  unfolding purge_all
  handle_session_end = do purge_all H (codes "claude-code"); pure no_output

  run_parsed : Adapter → Option NormalizedCall → Client H RenderedResponse
  unfolding decide agent_id_of
  run_parsed a none = raise (other_error (foreign (codes "malformed payload")))
  run_parsed a (some call) = do d ← decide P H call (agent_id_of a); pure (a.render d)

  run_adapter : Text → Json → Option Adapter → Client H RenderedResponse
  unfolding run_parsed
  run_adapter key payload none =
      pure
        (stderr_2 (codes "pabel-connector-hook: unknown agent key " ++ (P.repr key ++ (10 ∷ []))))
  run_adapter key payload (some a) = run_parsed a (a.parse payload)

  -- `main`, whose answer is what it writes and returns
  unfoldable pub main : List Text → Json → Client H RenderedResponse
  unfolding handle_session_end run_adapter adapter_of adapters
  main [] payload =
      pure
        (stderr_2 (codes "usage: pabel-connector-hook <agent-key> [adapter-args...]" ++ (10 ∷ [])))
  main (key ∷ rest) payload =
      if text_eq (codes "claude-code:session-end") key
      then handle_session_end
      else run_adapter key payload (adapter_of key adapters)
