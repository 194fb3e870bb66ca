-- ===== src/Policy/Relayed.antt =====
-- Where the content and the rewritten input of a decision come from.
use pabel.Base.{◌≡◌, refl, Bool, Option, none, some, true, false, arith}
use pabel.Base.{List, [], ◌∷◌, Text, first, keep}
use pabel.Base.Exec.{Result, ok, err}
use pabel.Json.{Json}
use pabel.Failure.{Failure, auth_error, keycloak_unreachable, relay_error}
use pabel.Types.{NormalizedCall, Decision, allow, deny_ambiguous}
use pabel.Types.{deny_mutating, deny_config_tamper, deny_with_relay}
use pabel.Types.{deny_credential_access, deny_hook_bypass, deny_oabe_binary}
use pabel.Platform.{Platform}
use pabel.Client.{Host, World}
use pabel.Client.AgentSession
use pabel.Client.Relay.{read_document_with_login}
use pabel.Detection.{pabel_mcp_server_name, touches_pabel_credential_store}
use pabel.Detection.Walk.{find_relayable_file}
use pabel.Policy.{
  decide, decide_write, decide_mention, after_relay, relay_denied, target_path, with_token,
  with_agent_token, targets_server, target_tool, to_deployed_server,
}
use pabel.Policy.Reasons.{
  mutating, config_tamper, ambiguous, credential_access, hook_bypass, oabe_binary_call, own_tools,
  credential_injected, no_stored_credential,
}
use pabel.Policy.Effects.{
  after_relay-relayed, after_relay-relay_error, after_relay-auth_error, log_locally-ok,
  deny_locally-ok,
}

first-keep : (p : Text → Bool) (xs : List Text) (x : Text) → first (keep p xs) ≡ some x → p x ≡ true
first-keep p [] x h = cc
first-keep p (y ∷ xs) x h = ground (arith, first-keep p xs x)

module _ (P : Platform) where
  pub find_relayable_file-is_file :
      (v : Json) (x : Text) → find_relayable_file P v ≡ some x → P.is_file x ≡ true
  unfolding find_relayable_file
  find_relayable_file-is_file v x h = first-keep P.is_file _ x h

module _ (P : Platform) (H : Host) where
  -- the relay of one file at a world
  abbrev relayed : Text → Text → World H → Result Failure Json
  relayed target agent w =
      (read_document_with_login H (P.path_str target) (P.path_name target) agent w).0

  after_relay-content :
      (call : NormalizedCall) (agent target : Text) (r : Result Failure Json) (w : World H)
      (d : Decision) (v : Json)
      → (after_relay P H call agent target r w).0 ≡ ok d
      → d.content ≡ some v
      → (d.kind ≡ deny_with_relay) × (r ≡ ok v)
  unfolding after_relay relay_denied
  after_relay-content call agent target (ok v') w d v h c =
      ground (arith, after_relay-relayed P H call agent target v' w)
  after_relay-content call agent target (err (relay_error m)) w d v h c =
      ground (arith, after_relay-relay_error P H call agent target m w)
  after_relay-content call agent target (err (auth_error m)) w d v h c =
      ground (arith, after_relay-auth_error P H call agent target (auth_error m) w)
  after_relay-content call agent target (err (keycloak_unreachable m)) w d v h c =
      ground (arith, after_relay-auth_error P H call agent target (keycloak_unreachable m) w)
  after_relay-content call agent target (err e) w d v h c = cc

  after_relay-updated :
      (call : NormalizedCall) (agent target : Text) (r : Result Failure Json) (w : World H)
      (d : Decision)
      → (after_relay P H call agent target r w).0 ≡ ok d
      → d.updated_input ≡ none
  unfolding after_relay relay_denied
  after_relay-updated call agent target (ok v') w d h =
      ground (arith, after_relay-relayed P H call agent target v' w)
  after_relay-updated call agent target (err (relay_error m)) w d h =
      ground (arith, after_relay-relay_error P H call agent target m w)
  after_relay-updated call agent target (err (auth_error m)) w d h =
      ground (arith, after_relay-auth_error P H call agent target (auth_error m) w)
  after_relay-updated call agent target (err (keycloak_unreachable m)) w d h =
      ground (arith, after_relay-auth_error P H call agent target (keycloak_unreachable m) w)
  after_relay-updated call agent target (err e) w d h = cc

  decide_mention-content :
      (call : NormalizedCall) (agent : Text) (target : Option Text) (w : World H) (d : Decision)
      (v : Json)
      → (decide_mention P H call agent target w).0 ≡ ok d
      → d.content ≡ some v
      → (d.kind ≡ deny_with_relay) × ((t : Text) × (target ≡ some t) × (relayed t agent w ≡ ok v))
  unfolding decide_mention
  decide_mention-content call agent none w d v h c =
      ground (arith, deny_locally-ok P H deny_ambiguous ambiguous agent call.tool_name none w)
  decide_mention-content call agent (some target) w d v h c =
      let q =
        after_relay-content call agent target (relayed target agent w)
          (read_document_with_login H (P.path_str target) (P.path_name target) agent w).1 d v h c in
      (q.0, (target, refl, q.1))

  decide_mention-updated :
      (call : NormalizedCall) (agent : Text) (target : Option Text) (w : World H) (d : Decision)
      → (decide_mention P H call agent target w).0 ≡ ok d
      → d.updated_input ≡ none
  unfolding decide_mention
  decide_mention-updated call agent none w d h =
      ground (arith, deny_locally-ok P H deny_ambiguous ambiguous agent call.tool_name none w)
  decide_mention-updated call agent (some target) w d h =
      after_relay-updated call agent target (relayed target agent w)
        (read_document_with_login H (P.path_str target) (P.path_name target) agent w).1 d h

  decide_write-content :
      (call : NormalizedCall) (agent : Text) (path : Result Failure Text) (w : World H)
      (d : Decision)
      → target_path call.write_target ≡ path
      → (decide_write P H call agent w).0 ≡ ok d
      → (d.content ≡ none) × (d.updated_input ≡ none)
  unfolding decide_write
  decide_write-content call agent (err e) w d t h = ground arith
  decide_write-content call agent (ok path) w d t h = ground (
    arith,
    deny_locally-ok P H deny_mutating mutating agent call.tool_name (some path) w,
    deny_locally-ok P H deny_config_tamper config_tamper agent call.tool_name (some path) w,
  )

  with_token-decision :
      (call : NormalizedCall) (agent : Text) (r : Result Failure Text) (w : World H) (d : Decision)
      → (with_token P H call agent r w).0 ≡ ok d
      → (d.kind ≡ allow) × (d.content ≡ none)
  unfolding with_token
  with_token-decision call agent (ok token) w d h = ground (
    arith,
    log_locally-ok P H allow credential_injected agent call.tool_name (target_tool call.mcp_target)
        w,
  )
  with_token-decision call agent (err e) w d h = ground (
    arith,
    log_locally-ok P H allow no_stored_credential agent call.tool_name (target_tool call.mcp_target)
        w,
  )

  with_token-updated :
      (call : NormalizedCall) (agent : Text) (r : Result Failure Text) (w : World H) (d : Decision)
      (v : Json)
      → (with_token P H call agent r w).0 ≡ ok d
      → d.updated_input ≡ some v
      → (token : Text) × (r ≡ ok token) × (with_agent_token token call.tool_input ≡ ok v)
  unfolding with_token
  with_token-updated call agent (ok token) w d v h u = (
    token,
    refl,
    ground (
      arith,
      log_locally-ok P H allow credential_injected agent call.tool_name
          (target_tool call.mcp_target) w,
    ),
  )
  with_token-updated call agent (err e) w d v h u = absurd (
      ground (
        arith,
        log_locally-ok P H allow no_stored_credential agent call.tool_name
            (target_tool call.mcp_target) w,
      ))

  deployed-decision :
      (call : NormalizedCall) (agent : Text) (w : World H) (d : Decision)
      → (to_deployed_server P H call agent w).0 ≡ ok d
      → (d.kind ≡ allow) × (d.content ≡ none)
  unfolding to_deployed_server
  deployed-decision call agent w d h =
      with_token-decision call agent (AgentSession.access_token H agent w).0
        (AgentSession.access_token H agent w).1 d h

  content_only_of_mention :
      (call : NormalizedCall) (agent : Text) (w : World H) (d : Decision) (v : Json)
      → (decide P H call agent w).0 ≡ ok d
      → d.content ≡ some v
      → (touches_pabel_credential_store P call.tool_input ≡ false)
        × ((decide_mention P H call agent (find_relayable_file P call.tool_input) w).0 ≡ ok d)
  unfolding decide
  content_only_of_mention call agent w d v h c =
      ground
        (
          arith,
          deny_locally-ok P H deny_credential_access credential_access agent call.tool_name none w,
          deny_locally-ok P H deny_hook_bypass hook_bypass agent call.tool_name none w,
          deny_locally-ok P H deny_oabe_binary oabe_binary_call agent call.tool_name none w,
          log_locally-ok P H allow own_tools agent call.tool_name (target_tool call.mcp_target) w,
          deployed-decision call agent w d,
          decide_write-content call agent (target_path call.write_target) w d refl,
        )
        steps 10000000

  -- The only content that decide() hands out is the relay's answer for the file that
  -- find_relayable_file() takes from the call, which exists, and the decision then is a denial; the
  -- call touches no credential.
  pub decide-content :
      (call : NormalizedCall) (agent : Text) (w : World H) (d : Decision) (v : Json)
      → (decide P H call agent w).0 ≡ ok d
      → d.content ≡ some v
      → (touches_pabel_credential_store P call.tool_input ≡ false)
        × (d.kind ≡ deny_with_relay)
        × ((t : Text) × (find_relayable_file P call.tool_input ≡ some t)
            × (P.is_file t ≡ true)
            × (relayed t agent w ≡ ok v))
  decide-content call agent w d v h c =
      let m = content_only_of_mention call agent w d v h c in
      let q =
        decide_mention-content call agent (find_relayable_file P call.tool_input) w d v m.1 c in
      (m.0, q.0, (q.1.0, q.1.1, find_relayable_file-is_file P call.tool_input q.1.0 q.1.1, q.1.2))

  updated_only_of_deployed :
      (call : NormalizedCall) (agent : Text) (w : World H) (d : Decision) (v : Json)
      → (decide P H call agent w).0 ≡ ok d
      → d.updated_input ≡ some v
      → (touches_pabel_credential_store P call.tool_input ≡ false)
        × (targets_server pabel_mcp_server_name call.mcp_target ≡ true)
        × ((to_deployed_server P H call agent w).0 ≡ ok d)
  unfolding decide
  updated_only_of_deployed call agent w d v h u = ground (
    arith,
    deny_locally-ok P H deny_credential_access credential_access agent call.tool_name none w,
    deny_locally-ok P H deny_hook_bypass hook_bypass agent call.tool_name none w,
    deny_locally-ok P H deny_oabe_binary oabe_binary_call agent call.tool_name none w,
    log_locally-ok P H allow own_tools agent call.tool_name (target_tool call.mcp_target) w,
    decide_mention-updated call agent (find_relayable_file P call.tool_input) w d,
    decide_write-content call agent (target_path call.write_target) w d refl,
  )

  -- The input of a call is rewritten only for the deployed server's tools, where the call passes,
  -- and then it is the call's own input with this installation's token.
  pub decide-updated_input :
      (call : NormalizedCall) (agent : Text) (w : World H) (d : Decision) (v : Json)
      → (decide P H call agent w).0 ≡ ok d
      → d.updated_input ≡ some v
      → (targets_server pabel_mcp_server_name call.mcp_target ≡ true)
        × (d.kind ≡ allow)
        × ((token : Text) × ((AgentSession.access_token H agent w).0 ≡ ok token)
            × (with_agent_token token call.tool_input ≡ ok v))
  unfolding to_deployed_server
  decide-updated_input call agent w d v h u =
      let m = updated_only_of_deployed call agent w d v h u in
      (
        m.1,
        (deployed-decision call agent w d m.2).0,
        with_token-updated call agent (AgentSession.access_token H agent w).0
            (AgentSession.access_token H agent w).1 d v m.2 u,
      )
