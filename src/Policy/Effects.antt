-- ===== src/Policy/Effects.antt =====
-- What the denials and the audit log of decide() leave to the caller.
use pabel.Base.{◌≡◌, refl, Option, none, some, true, arith, Text}
use pabel.Base.Exec.{ok, err}
use pabel.Json.{Json}
use pabel.Failure.{Failure, relay_error, Message, message_of, is_auth_error}
use pabel.Types.{
  deny_with_relay, deny_relay_error, deny_auth_error, NormalizedCall, DecisionKind, decision,
  kind_name,
}
use pabel.Platform.{Platform}
use pabel.Client.{Host, World}
use pabel.Client.AuditLog.{append_entry}
use pabel.Client.Relay.{report_denial}
use pabel.Policy.{deny_locally, log_locally, after_relay, relay_denied}
use pabel.Policy.Reasons.{read_blocked, relay_failed, not_authenticated}

pub append_entry-ok :
    (H : Host) (agent tool kind : Text) (target : Option Text) (reason : Text) (w : World H)
    → (append_entry H agent tool kind target reason w).0 ≡ ok tt
unfolding append_entry
append_entry-ok H agent tool kind target reason w = refl

pub report_denial-ok :
    (H : Host) (agent kind reason tool : Text) (w : World H)
    → (report_denial H agent kind reason tool w).0 ≡ ok tt
unfolding report_denial
report_denial-ok H agent kind reason tool w = refl

module _ (P : Platform) (H : Host) where
  pub log_locally-ok :
      (kind : DecisionKind) (reason agent tool : Text) (target : Option Text) (w : World H)
      → (log_locally P H kind reason agent tool target w).0 ≡ ok tt
  unfolding log_locally
  log_locally-ok kind reason agent tool target w = append_entry-ok H agent tool _ target reason w

  -- A local denial returns its own kind and reason whatever becomes of its two records.
  pub deny_locally-ok :
      (kind : DecisionKind) (reason agent tool : Text) (target : Option Text) (w : World H)
      → (deny_locally P H kind reason agent tool target w).0 ≡ ok (decision kind (some reason))
  unfolding deny_locally
  deny_locally-ok kind reason agent tool target w = ground (
    arith,
    report_denial-ok H agent (kind_name kind) reason tool w,
    log_locally-ok kind reason agent tool target
        (report_denial H agent (kind_name kind) reason tool w).1,
  )

  module _ (call : NormalizedCall) (agent target : Text) where
    -- What was read is handed over in place of the file.
    pub after_relay-relayed :
        (v : Json) (w : World H)
        → (after_relay P H call agent target (ok v) w).0
          ≡ ok (record {
            kind = deny_with_relay;
            reason = some (read_blocked P.repr (P.path_name target));
            content = some v;
            updated_input = none;
          })
    unfolding after_relay
    after_relay-relayed v w = ground (
      arith,
      log_locally-ok deny_with_relay (read_blocked P.repr (P.path_name target)) agent call.tool_name
          (some (P.path_str target)) w,
    )

    pub after_relay-relay_error :
        (m : Message) (w : World H)
        → (after_relay P H call agent target (err (relay_error m)) w).0
          ≡ ok (decision deny_relay_error (some (relay_failed P.repr m)))
    unfolding after_relay relay_denied
    after_relay-relay_error m w = ground (
      arith,
      log_locally-ok deny_relay_error (relay_failed P.repr m) agent call.tool_name
          (some (P.path_str target)) w,
    )

    pub after_relay-auth_error :
        (e : Failure) (w : World H)
        → is_auth_error e ≡ true
        → (after_relay P H call agent target (err e) w).0
          ≡ ok (decision deny_auth_error (some (not_authenticated P.repr (message_of e))))
    unfolding after_relay
    after_relay-auth_error e w h = ground (
      arith,
      log_locally-ok deny_auth_error (not_authenticated P.repr (message_of e)) agent call.tool_name
          (some (P.path_str target)) w,
    )
