-- ===== src/Client/OauthBrowser.antt =====
-- oauth_browser.py of the connector: one Authorization Code + PKCE login.
use pabel.Base.{Bool, true, false, Option, none, some, List, [], ◌∷◌}
use pabel.Base.{Text, codes, text_eq, if◌then◌else◌}
use pabel.Base.Exec.{lift, raise, ◌>>=◌}
use pabel.Failure.{Failure, auth_error}
use pabel.Failure.{browser_not_opened, login_timed_out, state_mismatch, browser_login_failed}
use pabel.Client.{Host, Client, Tokens, ask, set_in_env}
use pabel.Client.Keycloak.{KeycloakClient, from_env, authorize_url, exchange_code}

-- `params.get(key)`
unfoldable pub param : Text → List (Text × Text) → Option Text
param key [] = none
param key ((k, v) ∷ rest) = if text_eq k key then some v else param key rest

-- `params.get("error_description") or params.get("error") or "no code returned"`
abbrev first_set : Option Text → Option Text → Text → Text
first_set (some a) b c = a
first_set none (some b) c = b
first_set none none c = c

abbrev same_state : Text → Option Text → Bool
same_state state none = false
same_state state (some s) = text_eq s state

abbrev no_code : List (Text × Text) → Failure
no_code params = auth_error (
    browser_login_failed (
      first_set (set_in_env (param (codes "error_description") params))
        (set_in_env (param (codes "error") params)) (codes "no code returned")))

module _ (H : Host) where
  trade : KeycloakClient → Text → Option Text → List (Text × Text) → Client H Tokens
  trade kc verifier none params = raise (no_code params)
  trade kc verifier (some code) params = exchange_code H kc code H.redirect_uri verifier

  after_callback :
      KeycloakClient → Text → Text → Text → Option (List (Text × Text)) → Client H Tokens
  unfolding trade
  after_callback kc url verifier state none =
      raise (auth_error (login_timed_out H.redirect_uri url))
  after_callback kc url verifier state (some params) =
      if same_state state (param (codes "state") params)
      then trade kc verifier (param (codes "code") params) params
      else raise (auth_error state_mismatch)

  after_open : KeycloakClient → Text → Text → Text → Bool → Client H Tokens
  unfolding after_callback
  after_open kc url verifier state false = raise (auth_error (browser_not_opened url))
  after_open kc url verifier state true = do
    callback ← ask H.wait_for_callback
    after_callback kc url verifier state callback

  unfoldable pub login_with_browser : Client H Tokens
  unfolding after_open from_env authorize_url
  login_with_browser = do
    kc ← lift (from_env H)
    (verifier, challenge) ← ask H.pkce_pair
    state ← ask H.token_urlsafe
    let url = authorize_url H kc H.redirect_uri state challenge
    opened ← ask (H.open_browser url)
    after_open kc url verifier state opened
