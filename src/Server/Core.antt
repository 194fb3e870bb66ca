-- ===== src/Server/Core.antt =====
-- server/core.py: the two principals of a request, the key that both have together, and the audit
-- record of every operation.
pub mod Audit
pub mod Resolve
pub mod Keys
pub mod Keeps
pub mod SessionToken
pub mod Granted
use pabel.Base.{ℕ, ◌+◌, ◌*◌, Bool, true, false, Option, none, some, List, [], ◌∷◌, ◌++◌}
use pabel.Base.{
  Text, codes, text_eq, ltb, nat_beq, contains, text_eq_instance, or_default, is_empty,
}
use pabel.Base.{if◌then◌else◌}
use pabel.Base.Exec.{Result, ok, err, lift, pure, raise, gets, modify, attempt, ◌>>=◌, ◌>>◌}
use pabel.Failure.{join}
use pabel.Server.{Services, Service, Claims, Tokens, SessionFile, Context, ask}
use pabel.Server.{AuditRecord, AuditResult, success, denied, failed, Detail, problem, Operation}
use pabel.Server.{Agent, Installation, KeyRow}
use pabel.Server.{Failure, auth_error, permission_error, value_error, runtime_error, other_error}
use pabel.Server.{problem_of, not_logged_in, session_expired, agent_credential_rejected}
use pabel.Server.{unrecognized_installation, product_disabled, no_abe_attributes, foreign}
use pabel.Server.Auth.{verify, username_of, attributes_of, roles_of, client_id_of}
use pabel.Server.Keycloak.{refresh, entry}
use pabel.Server.Abe.{keygen}
use pabel.Server.Db.{
  get_agent, get_agent_installation, get_agent_key, store_agent_key, insert_audit,
}

abbrev pub blank : Context
blank = record { username = none; agent_id = none; auth_source = none; detail = none }

-- `except (AuthError, PermissionError)`
abbrev is_denial : Failure → Bool
is_denial (auth_error p) = true
is_denial (permission_error p) = true
is_denial (value_error p) = false
is_denial (runtime_error p) = false
is_denial (other_error p) = false

abbrev result_of : {A : Type 0} → Result Failure A → AuditResult
result_of (ok a) = success
result_of (err e) = if is_denial e then denied else failed

abbrev detail_of : {A : Type 0} → Result Failure A → Option Detail → Option Detail
detail_of (ok a) d = d
detail_of (err e) d = some (problem (problem_of e))

-- whether the file is the one that was read last
abbrev unchanged : ℕ → Option ℕ → Bool
unchanged m none = false
unchanged m (some n) = nat_beq m n

-- the '|'-joined tokens of both principals
unfoldable pub combined_attributes : List Text → Text → Text
unfolding join
combined_attributes user_attributes agent_attributes =
    join (codes "|")
      (user_attributes ++ (if is_empty agent_attributes then [] else agent_attributes ∷ []))

-- the record that an operation leaves
abbrev pub record_of :
    {A : Type 0} → Operation → Option Text → Context → Result Failure A → AuditRecord
record_of operation path ctx r = record {
  operation = operation;
  username = ctx.username;
  agent_id = ctx.agent_id;
  auth_source = ctx.auth_source;
  path = path;
  result = result_of r;
  detail = detail_of r ctx.detail;
}

-- `self.tokens` after a read
abbrev pub tokens_of : SessionFile → Tokens
tokens_of f = record {
  access_token = some f.access_token;
  refresh_token = some f.refresh_token;
  expires_in = some f.expires_in;
}

module _ (S : Services) where
  -- `audit`: neither store's failure matters, but for a missing PABEL_DB_DSN
  unfoldable pub audit : AuditRecord → Service S (Unit {0})
  unfolding insert_audit
  audit entry = do
    writable ← ask S.can_append
    if writable
        then modify (λ w. record w { audit_file = w.audit_file ++ (entry ∷ []) })
        else pure tt
    insert_audit S entry

  unfoldable pub audit_op : {A : Type 0} → Operation → Option Text → Service S A → Service S A
  unfolding audit
  audit_op operation path body = do
    modify (λ w. record w { ctx = blank })
    r ← attempt body
    ctx ← gets (λ w. w.ctx)
    audit (record_of operation path ctx r)
    lift r

  -- `Session._read_session_file`
  unfoldable pub read_session_file : SessionFile → Service S (Unit {0})
  read_session_file f = modify (λ w.
      if unchanged f.mtime w.session.session_mtime then w else record w {
        session = record {
          tokens = some (tokens_of f);
          obtained_at = f.obtained_at;
          session_mtime = some f.mtime;
        };
      })

  -- `except AuthError` of the refresh
  abbrev refreshed : Result Failure Tokens → Result Failure Tokens
  refreshed (ok t) = ok t
  refreshed (err (auth_error p)) = err (auth_error session_expired)
  refreshed (err e) = err e

  refresh_session : Tokens → Service S Text
  unfolding refresh
  refresh_session tokens = do
    refresh_token ← lift (entry tokens.refresh_token)
    answer ← attempt (refresh S refresh_token)
    t ← lift (refreshed answer)
    now ← ask S.time
    modify (λ w. record w { session = record w.session { tokens = some t; obtained_at = now } })
    lift (entry t.access_token)

  -- `self.tokens` is set once the file was read
  use_tokens : Option Tokens → ℕ → Service S Text
  unfolding refresh_session
  use_tokens none obtained_at = raise (other_error (foreign (codes "no tokens")))
  use_tokens (some tokens) obtained_at = do
    now ← ask S.time
    if ltb (1000 * or_default tokens.expires_in 60 + obtained_at) (now + 5000)
        then refresh_session tokens
        else lift (entry tokens.access_token)

  from_file : Option SessionFile → Service S Text
  unfolding read_session_file use_tokens
  from_file none = raise (auth_error not_logged_in)
  from_file (some f) = do
    read_session_file f
    session ← gets (λ w. w.session)
    use_tokens session.tokens session.obtained_at

  -- `Session.access_token`
  unfoldable pub session_token : Service S Text
  unfolding from_file
  session_token = do file ← gets (λ w. w.session_file); from_file file

  claims_of_request : Option Claims → Service S Claims
  unfolding session_token verify
  claims_of_request (some c) = pure c
  claims_of_request none = do token ← session_token; verify S token

  -- the username, the ABE attributes and the realm roles
  unfoldable pub current_identity : Service S (Text × List Text × List Text)
  unfolding claims_of_request username_of attributes_of roles_of
  current_identity = do
    request ← gets (λ w. w.request_claims)
    c ← claims_of_request request
    username ← lift (username_of c)
    pure (username, attributes_of c, roles_of c)

  -- `except AuthError as e`
  abbrev pub credential_claims : Result Failure Claims → Result Failure Claims
  credential_claims (ok c) = ok c
  credential_claims (err (auth_error p)) = err (auth_error (agent_credential_rejected p))
  credential_claims (err e) = err e

  pub for_agent : Text → List Text → Option Agent → Service S (Text × Text)
  for_agent agent_id user_roles none = raise (auth_error (product_disabled agent_id))
  for_agent agent_id user_roles (some a) =
      if a.enabled
      then (if contains a.required_role user_roles
          then pure (agent_id, a.attributes)
          else pure (agent_id, []))
      else raise (auth_error (product_disabled agent_id))

  pub for_installation : Text → List Text → Option Installation → Service S (Text × Text)
  unfolding get_agent for_agent
  for_installation client_id user_roles none =
      raise (auth_error (unrecognized_installation client_id))
  for_installation client_id user_roles (some i) =
      if i.revoked
      then raise (auth_error (unrecognized_installation client_id))
      else (do agent ← get_agent S i.product; for_agent i.product user_roles agent)

  -- the product and its attributes, none of them where the user lacks the role
  unfoldable pub resolve_agent : Text → List Text → Service S (Text × Text)
  unfolding verify client_id_of get_agent_installation for_installation
  resolve_agent agent_token user_roles = do
    checked ← attempt (verify S agent_token)
    c ← lift (credential_claims checked)
    client_id ← lift (client_id_of c)
    installation ← get_agent_installation S client_id
    for_installation client_id user_roles installation

  pub regenerate : Text → Text → Text → Service S Text
  unfolding keygen store_agent_key
  regenerate username agent_id combined = do
    key_bytes ← keygen S combined
    store_agent_key S username agent_id (S.sha256 combined) key_bytes
    pure key_bytes

  pub cached_or_new : Text → Text → Text → Option KeyRow → Service S Text
  unfolding regenerate
  cached_or_new username agent_id combined none = regenerate username agent_id combined
  cached_or_new username agent_id combined (some row) =
      if text_eq row.attributes_hash (S.sha256 combined)
      then pure row.key_material
      else regenerate username agent_id combined

  unfoldable pub agent_session_key : Text → List Text → Text → Text → Service S Text
  unfolding cached_or_new get_agent_key combined_attributes
  agent_session_key username [] agent_id agent_attributes =
      raise (auth_error (no_abe_attributes username))
  agent_session_key username (a ∷ as_) agent_id agent_attributes = do
    cached ← get_agent_key S username agent_id
    cached_or_new username agent_id (combined_attributes (a ∷ as_) agent_attributes) cached
