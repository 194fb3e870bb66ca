-- ===== src/Client.antt =====
-- connector/src/pabel_connector/pabel_client: what the connector keeps on disk, whom it asks, and
-- how it fails. The children model one file each.
pub mod Keycloak
pub mod OauthBrowser
pub mod Session
pub mod AgentSession
pub mod AuditLog
pub mod Relay
pub mod Materialize
pub mod LocalServer
use pabel.Base.{ℕ, ◌+◌, ◌*◌, Bool, true, false, not, Option, none, some, List, [], ◌∷◌}
use pabel.Base.{Text, ltb, is_empty, or_default, text_eq, if◌then◌else◌}
use pabel.Base.Exec.{Exec, Result, ok, err}
use pabel.Json.{Json}
use pabel.Failure.{Failure, auth_error, keycloak_unreachable, other_error, Message, foreign}
use pabel.Failure.{
  cannot_reach_keycloak, token_refresh_failed, client_credentials_failed, missing_env_vars,
}

-- The grant of a request to Keycloak's token endpoint.
pub data Grant : Type 0 where
  -- the code, the redirect URI and the PKCE verifier
  authorization_code : Text → Text → Text → Grant
  refresh : Text → Grant
  client_credentials : Text → Grant

-- Keycloak's answer, as the code reads it.
pub record Tokens : Type 0 where
  pub access_token : Option Text
  pub refresh_token : Option Text
  pub expires_in : Option ℕ

-- `requests.post`: no answer, a status with a body, or status 200 with the tokens.
pub data Response : Type 0 where
  no_answer : Text → Response
  refused : ℕ → Text → Response
  granted : Tokens → Response

-- An MCP tool call: it did not come about, or the tool answered.
pub data ToolAnswer : Type 0 where
  broken : Text → ToolAnswer
  is_error : List Text → ToolAnswer
  structured : Json → ToolAnswer
  text_blocks : List Text → ToolAnswer

-- What lies outside the connector. Every call may change it; nothing is assumed of the answers.
pub record Host : Type 1 where
  pub State : Type 0
  -- `time.time()`, in milliseconds
  pub time : State → ℕ × State
  pub environ : Text → Option Text
  -- a request to a token endpoint, by a client
  pub post : Text → Text → Grant → State → Response × State
  -- `secrets` and `_pkce_pair`: a state, and a verifier with its challenge
  pub token_urlsafe : State → Text × State
  pub pkce_pair : State → (Text × Text) × State
  pub redirect_uri : Text
  pub urlencode : List (Text × Text) → Text
  -- `webbrowser.open(url)`, and the parameters of the redirect, if one came in time
  pub open_browser : Text → State → Bool × State
  pub wait_for_callback : State → Option (List (Text × Text)) × State
  -- the server's URL, the bearer token, the tool and its arguments
  pub call_tool : Text → Text → Text → Json → State → ToolAnswer × State
  pub read_bytes : Text → State → Result Failure Text × State
  pub base64 : Text → Text
  pub loads : Text → Option Json
  pub fresh_name : State → Text × State
  -- `str(CACHE_ROOT / agent_id / name)`
  pub cache_path : Text → Text → Text
  -- how `json.dumps` prints a time
  pub print_time : ℕ → Text
  -- the cryptography of one audit entry: is the PEM text a key, a one-time key, a nonce,
  -- AES-GCM of a text, RSA-OAEP of the key under the PEM key, and base64
  pub is_public_key : Text → Bool
  pub aes_key : State → Text × State
  pub nonce : State → Text × State
  pub aes_encrypt : Text → Text → Text → Text
  pub rsa_encrypt : Text → Text → State → Option Text × State

-- session.json
pub record StoredSession : Type 0 where
  pub access_token : Text
  pub refresh_token : Option Text
  pub expires_in : Option ℕ
  pub obtained_at : ℕ

-- one entry of agent_credentials.json
pub record Credential : Type 0 where
  pub client_id : Text
  pub client_secret : Text
  pub access_token : Option Text
  pub expires_in : Option ℕ
  pub obtained_at : Option ℕ

-- a file below the cache directory of one agent
pub record CacheFile : Type 0 where
  pub agent : Text
  pub file_name : Text
  pub content : Json

-- the files below the data directory, and the rest of the world
pub record World (H : Host) : Type 0 where
  pub session : Option StoredSession
  pub credentials : List (Text × Credential)
  pub audit_public_key : Option Text
  pub audit_log : List Text
  pub materialized : List CacheFile
  pub outside : H.State

abbrev pub Client : Host → Type 0 → Type 0
Client H A = Exec (World H) Failure A

-- `d[key]` on a dict that may lack the key
abbrev pub required : {A : Type 0} → Text → Option A → Result Failure A
required key none = err (other_error (foreign key))
required key (some a) = ok a

-- a question to the outside
abbrev pub ask : {H : Host} {A : Type 0} → (H.State → A × H.State) → Client H A
ask q w = let (a, o) = q w.outside in (ok a, record w { outside = o })

-- `time.time() - obtained_at > expires_in - 5`, on the integers
abbrev pub is_stale : ℕ → ℕ → ℕ → Bool
is_stale now obtained_at expires_in = ltb (1000 * expires_in + obtained_at) (now + 5000)

-- `os.environ.get(name)`, where the code takes an empty value for none
abbrev pub set_in_env : Option Text → Option Text
set_in_env none = none
set_in_env (some v) = if is_empty v then none else some v

-- `raise AuthError` for a response that is not 200
abbrev pub tokens_of : (ℕ → Text → Message) → Response → Result Failure Tokens
tokens_of failed (no_answer e) = err (keycloak_unreachable (cannot_reach_keycloak e))
tokens_of failed (refused status body) = err (auth_error (failed status body))
tokens_of failed (granted tokens) = ok tokens
