-- ===== src/Failure.antt =====
-- The exceptions of connector/src/pabel_connector/pabel_client and what their texts say.
use pabel.Base.{ℕ, zero, suc, ◌+◌, ◌/◌, ◌%◌, Bool, true, false, List, [], ◌∷◌, ◌++◌}
use pabel.Base.{Text, codes, ltb, if◌then◌else◌}

-- The messages of the exceptions. A constructor stands for one text of the source, its arguments
-- for the values that the text shows.
pub data Message : Type 0 where
  cannot_reach_keycloak : Text → Message
  token_refresh_failed : ℕ → Text → Message
  client_credentials_failed : ℕ → Text → Message
  missing_env_vars : List Text → Message
  keycloak_env_not_set : Message
  not_logged_in : Message
  session_expired : Message
  no_installation_credentials : Text → Message
  server_url_not_set : Message
  could_not_read : Text → Message → Message
  relay_call_failed : Text → Message → Message
  tool_said : List Text → Message
  tool_call_failed : Text → Message
  no_usable_content : Text → Message
  code_exchange_failed : ℕ → Text → Message
  browser_not_opened : Text → Message
  login_timed_out : Text → Text → Message
  state_mismatch : Message
  browser_login_failed : Text → Message
  automatic_login_failed : Message → Message
  still_not_authenticated : Message → Message
  -- the text of an exception that another library raised
  foreign : Text → Message

-- The exceptions; `KeycloakUnreachable` is a subclass of `AuthError`.
pub data Failure : Type 0 where
  auth_error : Message → Failure
  keycloak_unreachable : Message → Failure
  relay_error : Message → Failure
  os_error : Message → Failure
  other_error : Message → Failure

-- `str(e)`
abbrev pub message_of : Failure → Message
message_of (auth_error m) = m
message_of (keycloak_unreachable m) = m
message_of (relay_error m) = m
message_of (os_error m) = m
message_of (other_error m) = m

-- What `except AuthError` catches.
abbrev pub is_auth_error : Failure → Bool
is_auth_error (auth_error m) = true
is_auth_error (keycloak_unreachable m) = true
is_auth_error (relay_error m) = false
is_auth_error (os_error m) = false
is_auth_error (other_error m) = false

digits : ℕ → ℕ → Text
digits zero n = []
digits (suc fuel) n =
    let front = digits fuel (n / 10) in
    if ltb n 10 then (b'0' + n) ∷ [] else front ++ ((b'0' + n % 10) ∷ [])

-- `str(n)`
unfoldable pub decimal : ℕ → Text
unfolding digits
decimal n = digits (suc n) n

-- `sep.join(parts)`
unfoldable pub join : Text → List Text → Text
join sep [] = []
join sep (p ∷ []) = p
join sep (p ∷ q ∷ ps) = p ++ (sep ++ join sep (q ∷ ps))

-- `str(e)`; `repr` is Python's.
module _ (repr : Text → Text) where
  unfoldable pub message_text : Message → Text
  unfolding decimal join
  message_text (cannot_reach_keycloak e) = codes "cannot reach Keycloak: " ++ e
  message_text (token_refresh_failed status body) =
      codes "token refresh failed: " ++ (decimal status ++ (codes " " ++ body))
  message_text (client_credentials_failed status body) =
      codes "client_credentials grant failed: " ++ (decimal status ++ (codes " " ++ body))
  message_text (missing_env_vars names) =
      codes "missing required env var(s): " ++ join (codes ", ") names
  message_text keycloak_env_not_set =
      codes "PABEL_KEYCLOAK_URL/PABEL_KEYCLOAK_REALM are not set - see the connector's README.md"
  message_text not_logged_in =
      codes "not logged in to PABEL yet - run the connector's login command first (see README.md)"
  message_text session_expired =
      codes "session expired and no refresh token available - log in again"
  message_text (no_installation_credentials agent_id) =
      codes "no installation credentials stored for agent "
      ++ (repr agent_id
          ++ (codes " - run: pabel-connector install "
              ++ (agent_id ++ codes " --client-id ... --client-secret ...")))
  message_text server_url_not_set =
      codes "PABEL_SERVER_URL is not set - see the connector's README.md"
  message_text (could_not_read path e) =
      codes "could not read " ++ (repr path ++ (codes ": " ++ message_text e))
  message_text (relay_call_failed url e) =
      codes "relay call to " ++ (url ++ (codes " failed: " ++ message_text e))
  message_text (tool_said texts) = join (codes "; ") texts
  message_text (tool_call_failed tool) = tool ++ codes " call failed"
  message_text (no_usable_content tool) = tool ++ codes " returned no usable content"
  message_text (code_exchange_failed status body) =
      codes "code exchange failed: " ++ (decimal status ++ (codes " " ++ body))
  message_text (browser_not_opened url) =
      codes "could not open a system browser automatically - open this URL yourself to log in: "
      ++ url
  message_text (login_timed_out redirect_uri url) =
      codes "browser login timed out - the redirect back from Keycloak was never received (login"
      ++ (codes " not completed in time, the browser crashed/closed after opening, or nothing is"
          ++ (codes " listening on "
              ++ (redirect_uri
                  ++ (codes "). Open this URL yourself in a working browser to log in: " ++ url))))
  message_text state_mismatch =
      codes
        "browser login failed: state mismatch (possible cross-site request, or a stale redirect)"
  message_text (browser_login_failed error) = codes "browser login failed: " ++ error
  message_text (automatic_login_failed e) =
      codes "automatic browser login could not complete: " ++ message_text e
  message_text (still_not_authenticated e) =
      codes "logged in, but still not authenticated: " ++ message_text e
  message_text (foreign e) = e
