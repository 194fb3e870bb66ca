-- ===== src/Server.antt =====
-- server/: the service that decrypts. This file has its failures, what lies outside of it and its
-- state; the children model one file each.
pub mod Db
pub mod Auth
pub mod Keycloak
pub mod Abe
pub mod Document
pub mod Decrypt
pub mod Core
pub mod Tools
pub mod AuditLog
pub mod Env
pub mod Admin
pub mod Onboard
pub mod Deployment
pub mod GenerateRealm
pub mod SetupUserProfile
pub mod Login
pub mod OauthBrowser
use pabel.Base.{ℕ, Bool, true, false, Option, none, some, List, Text}
use pabel.Base.Exec.{Exec, Result, ok, err}
use pabel.Json.{Json}

-- The texts of the exceptions, one constructor for each.
pub data Problem : Type 0 where
  invalid_token : Text → Problem
  cannot_reach_keycloak : Text → Problem
  token_refresh_failed : ℕ → Text → Problem
  code_exchange_failed : ℕ → Text → Problem
  login_timed_out : Text → Problem
  browser_not_opened : Text → Problem
  state_mismatch : Problem
  browser_login_failed : Text → Problem
  token_expired : Problem
  no_username_claim : Problem
  no_azp_claim : Problem
  not_logged_in : Problem
  session_expired : Problem
  agent_credential_rejected : Problem → Problem
  unrecognized_installation : Text → Problem
  product_disabled : Text → Problem
  no_abe_attributes : Text → Problem
  malformed_document : Problem
  no_oabe_output : Problem
  foreign : Text → Problem

pub data Failure : Type 0 where
  auth_error : Problem → Failure
  permission_error : Problem → Failure
  value_error : Problem → Failure
  runtime_error : Problem → Failure
  other_error : Problem → Failure

-- `str(e)`
abbrev pub problem_of : Failure → Problem
problem_of (auth_error p) = p
problem_of (permission_error p) = p
problem_of (value_error p) = p
problem_of (runtime_error p) = p
problem_of (other_error p) = p

-- the claims of a verified token that the code reads
pub record Claims : Type 0 where
  pub preferred_username : Option Text
  pub abe_attributes : Option (List Text)
  pub realm_roles : Option (List Text)
  pub azp : Option Text
  pub exp : Option ℕ

-- `jwt.decode` and the fetch of the key: claims, a `PyJWTError` or a `RequestException`
pub data Decoded : Type 0 where
  claims : Claims → Decoded
  jwt_error : Text → Decoded
  unreachable : Text → Decoded

-- A token set. A key that is not there is `none`, and the file's refresh token may be null.
pub record Tokens : Type 0 where
  pub access_token : Option Text
  pub refresh_token : Option (Option Text)
  pub expires_in : Option ℕ

-- `requests.post` to the token endpoint: no answer, a status with a body, or the tokens
pub data Response : Type 0 where
  no_answer : Text → Response
  refused : ℕ → Text → Response
  granted : Tokens → Response

-- `KeycloakAuth`, but for the keys that it fetches
pub record KeycloakAuth : Type 0 where
  pub base_url : Text
  pub realm : Text
  pub client_id : Text
  pub issuer : Text
  pub authorization_endpoint : Text
  pub token_endpoint : Text
  pub jwks_uri : Text

-- What lies outside the service. Every call may change it; nothing is assumed of the answers.
pub record Services : Type 1 where
  pub State : Type 0
  -- `time.time()`, in milliseconds
  pub time : State → ℕ × State
  -- the token, against the realm's keys and issuer
  pub decode : Text → State → Decoded × State
  -- a form to a URL, without the fields that are `none`
  pub post : Text → List (Text × Option Text) → State → Response × State
  -- `kc` of core.py
  pub kc : KeycloakAuth
  -- whether PABEL_DB_DSN is set, whether PostgreSQL answers, and whether audit.jsonl can be written
  pub has_dsn : Bool
  pub db_up : State → Bool × State
  pub can_append : State → Bool × State
  pub sha256 : Text → Text
  -- the files that the oabe_* tools leave, if any
  pub oabe_keygen : Text → State → Option Text × State
  pub oabe_dec : Text → Text → Option Text
  pub b64decode : Text → Option Text
  pub decode_utf8 : Text → Option Text
  pub loads : Text → Option Json

-- rows of the tables of server/schema.sql
pub record Agent : Type 0 where
  pub agent_id : Text
  pub display_name : Text
  pub attributes : Text
  pub required_role : Text
  pub enabled : Bool

pub record Installation : Type 0 where
  pub client_id : Text
  pub product : Text
  pub label : Option Text
  pub revoked : Bool

pub record KeyRow : Type 0 where
  pub username : Text
  pub product : Text
  pub attributes_hash : Text
  pub key_material : Text

pub data AuditResult : Type 0 where
  success denied failed : AuditResult

pub data Detail : Type 0 where
  readable : ℕ → ℕ → Detail
  reported : Text → Detail
  problem : Problem → Detail

pub data Operation : Type 0 where
  op_whoami op_read_document : Operation
  op_local_deny : Text → Operation
  -- those of the command line
  op_login op_logout op_cli_whoami : Operation

-- a record of audit.jsonl and of the audit_log table
pub record AuditRecord : Type 0 where
  pub operation : Operation
  pub username : Option Text
  pub agent_id : Option Text
  pub auth_source : Option Text
  pub path : Option Text
  pub result : AuditResult
  pub detail : Option Detail

pub record Tables : Type 0 where
  pub agents : List Agent
  pub installations : List Installation
  pub agent_keys : List KeyRow
  pub audit_log : List AuditRecord

-- `ctx` of `audit_op`
pub record Context : Type 0 where
  pub username : Option Text
  pub agent_id : Option Text
  pub auth_source : Option Text
  pub detail : Option Detail

-- .session.json with its mtime, and what `Session` keeps of it
pub record SessionFile : Type 0 where
  pub mtime : ℕ
  pub access_token : Text
  pub refresh_token : Option Text
  pub expires_in : ℕ
  pub username : Text
  pub obtained_at : ℕ

pub record Session : Type 0 where
  pub tokens : Option Tokens
  pub obtained_at : ℕ
  pub session_mtime : Option ℕ

pub record World (S : Services) : Type 0 where
  pub db : Tables
  pub audit_file : List AuditRecord
  pub ctx : Context
  pub session_file : Option SessionFile
  pub session : Session
  -- the claims that the auth middleware verified for this request
  pub request_claims : Option Claims
  pub outside : S.State

abbrev pub Service : Services → Type 0 → Type 0
Service S A = Exec (World S) Failure A

-- a question to the outside
abbrev pub ask : {S : Services} {A : Type 0} → (S.State → A × S.State) → Service S A
ask q w = let (a, o) = q w.outside in (ok a, record w { outside = o })
