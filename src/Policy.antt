-- ===== src/Policy.antt =====
-- connector/src/pabel_connector/core/decide.py: what happens to one tool call. The order of the
-- checks is that of the source.
pub mod Reasons
pub mod Effects
pub mod Allowed
pub mod Relayed
use pabel.Base.{Bool, true, false, ◌&&◌, ◌||◌, Option, none, some, []}
use pabel.Base.{Text, codes, text_eq, is_empty, if◌then◌else◌}
use pabel.Base.Exec.{Result, ok, err, lift, pure, raise, attempt, ◌>>=◌, ◌>>◌}
use pabel.Platform.{Platform}
use pabel.Json.{Json, Fields, null, bool, num, str, arr, obj, or_else, empty_str, with_field}
use pabel.Failure.{Failure, auth_error, keycloak_unreachable, relay_error, other_error, foreign}
use pabel.Failure.{is_auth_error, message_of}
use pabel.Types.{NormalizedCall, DecisionKind, Decision, decision, kind_name}
use pabel.Types.{allow, deny_oabe_binary, deny_mutating, deny_ambiguous, deny_with_relay}
use pabel.Types.{deny_auth_error, deny_relay_error, deny_credential_access}
use pabel.Types.{deny_hook_bypass, deny_config_tamper}
use pabel.Client.{Host, Client}
use pabel.Client.AgentSession
use pabel.Client.AuditLog.{append_entry}
use pabel.Client.Relay.{report_denial, read_document_with_login}
use pabel.Detection.{
  pabel_mcp_server_name, pabel_connector_mcp_server_name, mentions_target,
  touches_pabel_credential_store, invokes_oabe_binary, is_pabel_hook_config_target,
  invokes_pabel_connector_internals,
}
use pabel.Detection.Pattern.{encrypted_file, documents_path}
use pabel.Detection.Walk.{find_relayable_file}
use Reasons.{
  credential_access, hook_bypass, own_tools, no_stored_credential, credential_injected, mutating,
  config_tamper, oabe_binary_call, ambiguous, not_authenticated, relay_failed, read_blocked,
}

-- whether the call targets a tool of this MCP server
abbrev pub targets_server : Text → Option (Text × Text) → Bool
targets_server name none = false
targets_server name (some (server, tool)) = text_eq server name

abbrev pub target_tool : Option (Text × Text) → Option Text
target_tool none = none
target_tool (some (server, tool)) = some tool

-- `{**tool_input, "agent_token": token}`, a TypeError unless the input is a dict
unfoldable pub with_agent_token : Text → Json → Result Failure Json
with_agent_token token (obj fs) = ok (obj (with_field (codes "agent_token") (str token) fs))
with_agent_token token v = err (other_error (foreign (codes "not a mapping")))

abbrev text_of : Json → Result Failure Text
text_of (str s) = ok s
text_of v = err (other_error (foreign (codes "expected string or bytes-like object")))

-- `call.write_target or ""`, where the searches that follow want a text
unfoldable pub target_path : Json → Result Failure Text
target_path v = text_of (or_else v empty_str)

module _ (P : Platform) (H : Host) where
  pub log_locally : DecisionKind → Text → Text → Text → Option Text → Client H (Unit {0})
  log_locally kind reason agent_id tool_name target =
      append_entry H agent_id tool_name (kind_name kind) target reason

  pub deny_locally : DecisionKind → Text → Text → Text → Option Text → Client H Decision
  unfolding log_locally
  deny_locally kind reason agent_id tool_name target = do
    report_denial H agent_id (kind_name kind) reason tool_name
    log_locally kind reason agent_id tool_name target
    pure (decision kind (some reason))

  -- a call of the deployed server's tools
  pub with_token : NormalizedCall → Text → Result Failure Text → Client H Decision
  unfolding log_locally
  with_token call agent_id (ok token) = do
    log_locally allow credential_injected agent_id call.tool_name (target_tool call.mcp_target)
    updated ← lift (with_agent_token token call.tool_input)
    pure (record (decision allow none) { updated_input = some updated })
  with_token call agent_id (err e) =
      if is_auth_error e
      then (do
        log_locally allow no_stored_credential agent_id call.tool_name (target_tool call.mcp_target)
        pure (decision allow none))
      else raise e

  pub to_deployed_server : NormalizedCall → Text → Client H Decision
  unfolding with_token
  to_deployed_server call agent_id = do
    token ← attempt (AgentSession.access_token H agent_id)
    with_token call agent_id token

  pub decide_write : NormalizedCall → Text → Client H Decision
  unfolding deny_locally
  decide_write call agent_id = do
    path ← lift (target_path call.write_target)
    if encrypted_file P path || documents_path path
        then deny_locally deny_mutating mutating agent_id call.tool_name (some path)
        else if is_pabel_hook_config_target P path
        then deny_locally deny_config_tamper config_tamper agent_id call.tool_name (some path)
        else pure (decision allow none)

  -- `except RelayError`; any other exception passes
  pub relay_denied : NormalizedCall → Text → Text → Failure → Client H Decision
  unfolding log_locally
  relay_denied call agent_id target (relay_error m) = do
    let reason = relay_failed P.repr m
    log_locally deny_relay_error reason agent_id call.tool_name (some (P.path_str target))
    pure (decision deny_relay_error (some reason))
  relay_denied call agent_id target e = raise e

  -- the three outcomes of the relay
  pub after_relay : NormalizedCall → Text → Text → Result Failure Json → Client H Decision
  unfolding log_locally relay_denied
  after_relay call agent_id target (ok result) = do
    let reason = read_blocked P.repr (P.path_name target)
    log_locally deny_with_relay reason agent_id call.tool_name (some (P.path_str target))
    pure (record (decision deny_with_relay (some reason)) { content = some result })
  after_relay call agent_id target (err e) =
      if is_auth_error e
      then (do
        let reason = not_authenticated P.repr (message_of e)
        log_locally deny_auth_error reason agent_id call.tool_name (some (P.path_str target))
        pure (decision deny_auth_error (some reason)))
      else relay_denied call agent_id target e

  pub decide_mention : NormalizedCall → Text → Option Text → Client H Decision
  unfolding deny_locally after_relay
  decide_mention call agent_id none =
      deny_locally deny_ambiguous ambiguous agent_id call.tool_name none
  decide_mention call agent_id (some target) = do
    result ← attempt (read_document_with_login H (P.path_str target) (P.path_name target) agent_id)
    after_relay call agent_id target result

  unfoldable pub decide : NormalizedCall → Text → Client H Decision
  unfolding deny_locally to_deployed_server decide_write decide_mention
  decide call agent_id =
      if touches_pabel_credential_store P call.tool_input
      then deny_locally deny_credential_access credential_access agent_id call.tool_name none
      else if call.is_execute && invokes_pabel_connector_internals P call.tool_input
      then deny_locally deny_hook_bypass hook_bypass agent_id call.tool_name none
      else if targets_server pabel_connector_mcp_server_name call.mcp_target
      then (do
        log_locally allow own_tools agent_id call.tool_name (target_tool call.mcp_target)
        pure (decision allow none))
      else if targets_server pabel_mcp_server_name call.mcp_target
      then to_deployed_server call agent_id
      else if call.is_write
      then decide_write call agent_id
      else if call.is_execute && invokes_oabe_binary P call.tool_input
      then deny_locally deny_oabe_binary oabe_binary_call agent_id call.tool_name none
      else if mentions_target P call.tool_input
      then decide_mention call agent_id (find_relayable_file P call.tool_input)
      else pure (decision allow none)
