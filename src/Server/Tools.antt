-- ===== src/Server/Tools.antt =====
-- server/mcp_server.py: the three tools.
pub mod ReadDocument
use pabel.Base.{ℕ, suc, Bool, not, Option, none, some, List, [], ◌∷◌}
use pabel.Base.{Text, codes, is_empty, length, if◌then◌else◌}
use pabel.Base.Exec.{Result, ok, err, lift, pure, raise, modify, attempt, ◌>>=◌, ◌>>◌}
use pabel.Server.{Services, Service, Detail, readable, reported}
use pabel.Server.{op_whoami, op_read_document, op_local_deny}
use pabel.Server.{Failure, auth_error, value_error, foreign}
use pabel.Server.Core.{audit_op, current_identity, resolve_agent, agent_session_key}
use pabel.Server.Decrypt.{SectionView, decrypt_document}

pub record Identity : Type 0 where
  pub username : Text
  pub user_attributes : List Text
  pub agent_id : Text
  pub authorized_for_agent : Bool
  pub agent_attributes : Option Text

pub record ReadResult : Type 0 where
  pub document : Text
  pub user : Text
  pub agent : Text
  pub readable_sections : ℕ
  pub total_sections : ℕ
  pub sections : List SectionView

-- `sum(1 for s in sections if s["accessible"])`
unfoldable pub count_accessible : List SectionView → ℕ
count_accessible [] = 0
count_accessible (s ∷ ss) = if s.accessible then suc (count_accessible ss) else count_accessible ss

-- `session.source()`
abbrev browser_session : Text
browser_session = codes "browser_session"

abbrev or_none : Text → Option Text
or_none t = if is_empty t then none else some t

abbrev or_bad : Option Text → Result Failure Text
or_bad none = err (value_error (foreign (codes "cannot decode")))
or_bad (some t) = ok t

module _ (S : Services) where
  know_user : Text → Service S (Unit {0})
  know_user username = modify (λ w. record w {
    ctx = record w.ctx { username = some username; auth_source = some browser_session };
  })

  know_agent : Text → Service S (Unit {0})
  know_agent agent_id = modify (λ w. record w { ctx = record w.ctx { agent_id = some agent_id } })

  note : Detail → Service S (Unit {0})
  note d = modify (λ w. record w { ctx = record w.ctx { detail = some d } })

  whoami_body : Text → Service S Identity
  unfolding know_user know_agent current_identity resolve_agent
  whoami_body agent_token = do
    (username, user_attributes, user_roles) ← current_identity S
    know_user username
    (agent_id, agent_attributes) ← resolve_agent S agent_token user_roles
    know_agent agent_id
    pure (record {
      username = username;
      user_attributes = user_attributes;
      agent_id = agent_id;
      authorized_for_agent = not (is_empty agent_attributes);
      agent_attributes = or_none agent_attributes;
    })

  unfoldable pub whoami : Text → Service S Identity
  unfolding whoami_body audit_op
  whoami agent_token = audit_op S op_whoami none (whoami_body agent_token)

  -- `base64.b64decode(content).decode("utf-8")`
  pub decoded_content : Text → Result Failure Text
  decoded_content content = elim (S.b64decode content) [
    | none ↦ or_bad none
    | some bytes ↦ or_bad (S.decode_utf8 bytes)
  ]

  read_body : Text → Text → Text → Service S ReadResult
  unfolding know_user know_agent note current_identity resolve_agent agent_session_key
      decoded_content decrypt_document count_accessible
  read_body content agent_token name = do
    (username, user_attributes, user_roles) ← current_identity S
    know_user username
    (agent_id, agent_attributes) ← resolve_agent S agent_token user_roles
    know_agent agent_id
    key_bytes ← agent_session_key S username user_attributes agent_id agent_attributes
    text ← lift (decoded_content content)
    sections ← lift (decrypt_document S text key_bytes)
    note (readable (count_accessible sections) (length sections))
    pure (record {
      document = name;
      user = username;
      agent = agent_id;
      readable_sections = count_accessible sections;
      total_sections = length sections;
      sections = sections;
    })

  unfoldable pub read_document : Text → Text → Text → Service S ReadResult
  unfolding read_body audit_op
  read_document content agent_token name =
      audit_op S op_read_document (some name) (read_body content agent_token name)

  -- the roles of the user, or none of them where nobody is logged in
  roles_or_none : Result Failure (Text × List Text × List Text) → Service S (List Text)
  unfolding know_user
  roles_or_none (ok (username, _, user_roles)) = do know_user username; pure user_roles
  roles_or_none (err (auth_error p)) = pure []
  roles_or_none (err e) = raise e

  report_body : Text → Text → Service S (Unit {0})
  unfolding know_agent note current_identity resolve_agent roles_or_none
  report_body agent_token reason = do
    identity ← attempt (current_identity S)
    user_roles ← roles_or_none identity
    (agent_id, _) ← resolve_agent S agent_token user_roles
    know_agent agent_id
    note (reported reason)

  unfoldable pub report_denial : Text → Text → Text → Text → Service S (Unit {0})
  unfolding report_body audit_op
  report_denial agent_token decision_kind reason tool_name =
      audit_op S (op_local_deny decision_kind) (or_none tool_name) (report_body agent_token reason)
