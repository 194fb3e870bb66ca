-- ===== src/Policy/Allowed.antt =====
-- What a call must be for decide() to let it through.
use pabel.Base.{◌≡◌, refl, ◌⊎◌, inl, inr, Option, none, some, true, false, ◌||◌, ◌&&◌, arith}
use pabel.Base.{Text, Bool-cases}
use pabel.Base.Exec.{Result, ok, err}
use pabel.Json.{Json}
use pabel.Failure.{Failure, auth_error, keycloak_unreachable, relay_error}
use pabel.Types.{NormalizedCall, DecisionKind, Decision, allow, deny_ambiguous}
use pabel.Types.{deny_credential_access, deny_hook_bypass, deny_oabe_binary}
use pabel.Types.{deny_mutating, deny_config_tamper}
use pabel.Platform.{Platform}
use pabel.Client.{Host, World}
use pabel.Client.Relay.{read_document_with_login}
use pabel.Detection.{
  pabel_mcp_server_name, pabel_connector_mcp_server_name, mentions_target,
  touches_pabel_credential_store, invokes_oabe_binary, is_pabel_hook_config_target,
  invokes_pabel_connector_internals,
}
use pabel.Detection.Pattern.{encrypted_file, documents_path}
use pabel.Detection.Walk.{find_relayable_file}
use pabel.Policy.{
  decide, decide_write, decide_mention, after_relay, relay_denied, deny_locally, target_path,
  targets_server,
}
use pabel.Policy.Reasons.{
  mutating, config_tamper, ambiguous, credential_access, hook_bypass, oabe_binary_call,
}
use pabel.Policy.Effects.{deny_locally-ok}
use pabel.Policy.Effects.{after_relay-relayed, after_relay-relay_error, after_relay-auth_error}

-- A write to a path that is no encrypted document, not below documents/ and no hook configuration.
abbrev pub IsCleanWrite : Platform → NormalizedCall → Type 0
IsCleanWrite P call =
    (path : Text) × (target_path call.write_target ≡ ok path)
    × ((encrypted_file P path || documents_path path) ≡ false)
    × (is_pabel_hook_config_target P path ≡ false)

-- The four kinds of call that may pass.
abbrev pub MayPass : Platform → NormalizedCall → Type 0
MayPass P call =
    (targets_server pabel_connector_mcp_server_name call.mcp_target ≡ true)
    ⊎ ((targets_server pabel_mcp_server_name call.mcp_target ≡ true)
        ⊎ (((call.is_write ≡ true) × IsCleanWrite P call)
            ⊎ ((call.is_write ≡ false)
                × ((call.is_execute && invokes_oabe_binary P call.tool_input) ≡ false)
                × (mentions_target P call.tool_input ≡ false))))

module _ (P : Platform) (H : Host) where
  abbrev Denies : Result Failure Decision → Type 0
  Denies r = (d : Decision) → r ≡ ok d → d.kind ≡ allow → ⊥

  deny_locally-Denies :
      (kind : DecisionKind) (reason agent tool : Text) (target : Option Text) (w : World H)
      → (kind ≡ allow → ⊥)
      → Denies (deny_locally P H kind reason agent tool target w).0
  deny_locally-Denies kind reason agent tool target w no_allow d h k =
      no_allow (ground (arith, deny_locally-ok P H kind reason agent tool target w))

  after_relay-Denies :
      (call : NormalizedCall) (agent target : Text) (r : Result Failure Json) (w : World H)
      → Denies (after_relay P H call agent target r w).0
  unfolding after_relay relay_denied
  after_relay-Denies call agent target (ok v) w d h k =
      ground (arith, after_relay-relayed P H call agent target v w)
  after_relay-Denies call agent target (err (relay_error m)) w d h k =
      ground (arith, after_relay-relay_error P H call agent target m w)
  after_relay-Denies call agent target (err (auth_error m)) w d h k =
      ground (arith, after_relay-auth_error P H call agent target (auth_error m) w)
  after_relay-Denies call agent target (err (keycloak_unreachable m)) w d h k =
      ground (arith, after_relay-auth_error P H call agent target (keycloak_unreachable m) w)
  after_relay-Denies call agent target (err e) w d h k = cc

  decide_mention-Denies :
      (call : NormalizedCall) (agent : Text) (target : Option Text) (w : World H)
      → Denies (decide_mention P H call agent target w).0
  unfolding decide_mention
  decide_mention-Denies call agent none w =
      deny_locally-Denies deny_ambiguous ambiguous agent call.tool_name none w (λ e. cc)
  decide_mention-Denies call agent (some target) w =
      after_relay-Denies call agent target
        (read_document_with_login H (P.path_str target) (P.path_name target) agent w).0
        (read_document_with_login H (P.path_str target) (P.path_name target) agent w).1

  decide_write-allowed :
      (call : NormalizedCall) (agent : Text) (path : Result Failure Text) (w : World H)
      (d : Decision)
      → target_path call.write_target ≡ path
      → (decide_write P H call agent w).0 ≡ ok d
      → d.kind ≡ allow
      → IsCleanWrite P call
  unfolding decide_write
  decide_write-allowed call agent (err e) w d t h k = ground arith
  decide_write-allowed call agent (ok path) w d t h k =
      elim (Bool-cases (encrypted_file P path || documents_path path)) [
        | inl hit ↦ absurd (
            deny_locally-Denies deny_mutating mutating agent call.tool_name (some path) w (λ e. cc)
              d (rw (t, hit) at h) k)
        | inr miss ↦ elim (Bool-cases (is_pabel_hook_config_target P path)) [
          | inl hit ↦ absurd (
              deny_locally-Denies deny_config_tamper config_tamper agent call.tool_name (some path)
                w (λ e. cc) d (rw (t, miss, hit) at h) k)
          | inr clean ↦ (path, t, miss, clean)
        ]
      ]

  -- A call that decide() lets through touches no credential and, where it executes something,
  -- nothing of the connector's internals, and it is for one of the two PABEL servers, or a clean
  -- write, or neither runs a decryption tool nor mentions a protected target.
  pub decide-allow :
      (call : NormalizedCall) (agent : Text) (w : World H) (d : Decision)
      → (decide P H call agent w).0 ≡ ok d
      → d.kind ≡ allow
      → (touches_pabel_credential_store P call.tool_input ≡ false)
        × ((call.is_execute && invokes_pabel_connector_internals P call.tool_input) ≡ false)
        × MayPass P call
  unfolding decide
  decide-allow call agent w d h k = ground (
    arith,
    deny_locally-ok P H deny_credential_access credential_access agent call.tool_name none w,
    deny_locally-ok P H deny_hook_bypass hook_bypass agent call.tool_name none w,
    deny_locally-ok P H deny_oabe_binary oabe_binary_call agent call.tool_name none w,
    decide_mention-Denies call agent (find_relayable_file P call.tool_input) w d,
    decide_write-allowed call agent (target_path call.write_target) w d refl,
  )
