-- ===== src/Types.antt =====
-- connector/src/pabel_connector/core/types.py.
use pabel.Base.{ℕ, Bool, Option, none, []}
use pabel.Base.{Text, codes}
use pabel.Json.{Json}

-- One tool call, whichever agent made it. `write_target` is what the adapter found there, which
-- the payload may hold as any value; null is `None`.
pub record NormalizedCall : Type 0 where
  pub tool_name : Text
  pub tool_input : Json
  pub is_write : Bool
  pub is_execute : Bool
  pub mcp_target : Option (Text × Text)
  pub write_target : Json

pub data DecisionKind : Type 0 where
  allow deny_oabe_binary deny_mutating deny_ambiguous deny_with_relay : DecisionKind
  deny_auth_error deny_relay_error deny_credential_access : DecisionKind
  deny_hook_bypass deny_config_tamper : DecisionKind

-- `kind.name`
unfoldable pub kind_name : DecisionKind → Text
kind_name allow = codes "ALLOW"
kind_name deny_oabe_binary = codes "DENY_OABE_BINARY"
kind_name deny_mutating = codes "DENY_MUTATING"
kind_name deny_ambiguous = codes "DENY_AMBIGUOUS"
kind_name deny_with_relay = codes "DENY_WITH_RELAY"
kind_name deny_auth_error = codes "DENY_AUTH_ERROR"
kind_name deny_relay_error = codes "DENY_RELAY_ERROR"
kind_name deny_credential_access = codes "DENY_CREDENTIAL_ACCESS"
kind_name deny_hook_bypass = codes "DENY_HOOK_BYPASS"
kind_name deny_config_tamper = codes "DENY_CONFIG_TAMPER"

pub record Decision : Type 0 where
  pub kind : DecisionKind
  pub reason : Option Text
  pub content : Option Json
  pub updated_input : Option Json

-- `Decision(kind, reason=reason)`
abbrev pub decision : DecisionKind → Option Text → Decision
decision kind reason = record { kind = kind; reason = reason; content = none; updated_input = none }

pub record RenderedResponse : Type 0 where
  pub stdout : Text
  pub stderr : Text
  pub exit_code : ℕ

-- `RenderedResponse()`
abbrev pub no_output : RenderedResponse
no_output = record { stdout = []; stderr = []; exit_code = 0 }

abbrev pub to_stdout : Text → RenderedResponse
to_stdout text = record { stdout = text; stderr = []; exit_code = 0 }
