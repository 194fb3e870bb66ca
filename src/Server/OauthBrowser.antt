-- ===== src/Server/OauthBrowser.antt =====
-- server/oauth_browser.py: one Authorization Code + PKCE login through the system browser.
pub mod SameState
pub mod Outside
use pabel.Base.{ℕ, Bool, true, false, Option, none, some, List, [], ◌∷◌, ◌++◌}
use pabel.Base.{Text, codes, text_eq, nat_beq, is_empty, is_some, strip_right, if◌then◌else◌}
use pabel.Base.Exec.{Result, ok, err, lift, pure, raise, ◌>>=◌}
use pabel.Server.{Services, Service, Tokens, KeycloakAuth, ask, Failure, auth_error, other_error}
use pabel.Server.{foreign, login_timed_out, browser_not_opened, state_mismatch}
use pabel.Server.{browser_login_failed}
use pabel.Server.Env.{Environ}
use pabel.Server.Keycloak.{auth_from_env, exchange_code}

-- the request that the loopback server got: `urlparse` and the first values of `parse_qs`
pub record Visit : Type 0 where
  pub path : Text
  pub params : List (Text × Text)

-- what the browser is answered
pub data Page : Type 0 where
  not_found complete cancelled : Page

-- What a login asks beside the services; and the environment with server/.env.
pub record Browser (S : Services) : Type 0 where
  pub is_space : ℕ → Bool
  pub env_lines : List Text
  pub environ : Environ
  pub callback_port : Text
  pub token_bytes : S.State → Text × S.State
  pub urlsafe_b64encode : Text → Text
  pub sha256_digest : Text → Text
  pub token_urlsafe : S.State → Text × S.State
  pub urlencode : List (Text × Text) → Text
  -- `webbrowser.open(url)`
  pub open_browser : Text → S.State → Bool × S.State
  -- binds the port and waits: it fails, or there is a request in time, or none
  pub handle_request : S.State → Result Text (Option Visit) × S.State
  -- writes .session.json: its mtime, or an error
  pub write_session : S.State → Result Text ℕ × S.State

unfoldable pub param : Text → List (Text × Text) → Option Text
param key [] = none
param key ((k, v) ∷ rest) = if text_eq k key then some v else param key rest

abbrev pub callback_path : Text
callback_path = codes "/callback"

-- `_CallbackHandler.do_GET`: the page, and what is left in `callback_result`
unfoldable pub do_get : Visit → Page × Option (List (Text × Text))
unfolding param
do_get v =
    if text_eq v.path callback_path
    then (if is_some (param (codes "code") v.params) then complete else cancelled, some v.params)
    else (not_found, none)

-- `callback_result`, where a request may have come
abbrev pub result_of_visit : Option Visit → Option (List (Text × Text))
unfolding do_get
result_of_visit none = none
result_of_visit (some v) = (do_get v).1

-- `params.get("error_description") or params.get("error") or "no code returned"`
abbrev or_given : Option Text → Text → Text
or_given none t = t
or_given (some s) t = if is_empty s then t else s

abbrev no_code : List (Text × Text) → Failure
no_code params = auth_error (
    browser_login_failed (
      or_given (param (codes "error_description") params)
        (or_given (param (codes "error") params) (codes "no code returned"))))

abbrev pub same_state : Text → Option Text → Bool
same_state state none = false
same_state state (some s) = text_eq s state

-- an exception that is none of the program's
abbrev pub or_os_error : {A : Type 0} → Result Text A → Result Failure A
or_os_error (ok a) = ok a
or_os_error (err e) = err (other_error (foreign e))

module _ (S : Services) (B : Browser S) where
  abbrev pub redirect_uri : Text
  redirect_uri = codes "http://127.0.0.1:" ++ (B.callback_port ++ callback_path)

  -- a code of 32 random bytes and the like, without the padding
  abbrev unpadded : Text → Text
  unpadded bytes = strip_right (λ c. nat_beq c b'=') (B.urlsafe_b64encode bytes)

  -- `_pkce_pair`: the challenge of a verifier
  unfoldable pub challenge_of : Text → Text
  unfolding strip_right
  challenge_of verifier = unpadded (B.sha256_digest verifier)

  unfoldable pub pkce_pair : Service S (Text × Text)
  unfolding challenge_of strip_right
  pkce_pair = do
    bytes ← ask B.token_bytes
    let verifier = unpadded bytes
    pure (verifier, challenge_of verifier)

  -- `authorize_url` with its default scope
  unfoldable pub authorize_url : KeycloakAuth → Text → Text → Text
  authorize_url kc state code_challenge =
      kc.authorization_endpoint
      ++ (codes "?"
          ++ B.urlencode (
              (codes "response_type", codes "code")
              ∷ (codes "client_id", kc.client_id)
              ∷ (codes "redirect_uri", redirect_uri)
              ∷ (codes "scope", codes "openid")
              ∷ (codes "state", state)
              ∷ (codes "code_challenge", code_challenge)
              ∷ (codes "code_challenge_method", codes "S256")
              ∷ []))

  pub called_back : Option (List (Text × Text)) → Service S (List (Text × Text))
  called_back none = raise (auth_error (login_timed_out redirect_uri))
  called_back (some params) = pure params

  -- `_wait_for_callback`
  unfoldable pub wait_for_callback : Service S (List (Text × Text))
  unfolding called_back do_get
  wait_for_callback = do
    answer ← ask B.handle_request
    visit ← lift (or_os_error answer)
    called_back (result_of_visit visit)

  pub trade : KeycloakAuth → Text → Option Text → List (Text × Text) → Service S Tokens
  unfolding exchange_code
  trade kc verifier none params = raise (no_code params)
  trade kc verifier (some code) params = exchange_code S kc code redirect_uri verifier

  -- the checks of the redirect
  pub after_callback : KeycloakAuth → Text → Text → List (Text × Text) → Service S Tokens
  unfolding trade param
  after_callback kc verifier state params =
      if same_state state (param (codes "state") params)
      then trade kc verifier (param (codes "code") params) params
      else raise (auth_error state_mismatch)

  pub after_open : KeycloakAuth → Text → Text → Text → Bool → Service S Tokens
  unfolding wait_for_callback after_callback
  after_open kc verifier state url false = raise (auth_error (browser_not_opened url))
  after_open kc verifier state url true = do
    params ← wait_for_callback
    after_callback kc verifier state params

  -- the login with a verifier and its challenge
  pub login_with_pair : KeycloakAuth → Text × Text → Service S Tokens
  unfolding authorize_url after_open
  login_with_pair kc pair = do
    state ← ask B.token_urlsafe
    let url = authorize_url kc state pair.1
    opened ← ask (B.open_browser url)
    after_open kc pair.0 state url opened

  -- the token set as Keycloak sent it
  unfoldable pub login_with_browser : Service S Tokens
  unfolding auth_from_env pkce_pair login_with_pair
  login_with_browser = do
    kc ← lift (auth_from_env B.is_space B.env_lines B.environ)
    pair ← pkce_pair
    login_with_pair kc pair
