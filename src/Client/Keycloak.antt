-- ===== src/Client/Keycloak.antt =====
-- keycloak_client.py: the three requests to the token endpoint, and the client of the environment.
use pabel.Base.{ℕ, Option, none, some, List, [], ◌∷◌, ◌++◌}
use pabel.Base.{Text, codes, nat_beq, strip_right}
use pabel.Base.Exec.{Result, ok, err, lift, ◌>>=◌}
use pabel.Failure.{Failure, auth_error, Message, missing_env_vars}
use pabel.Failure.{token_refresh_failed, client_credentials_failed, code_exchange_failed}
use pabel.Client.{Host, Client, Tokens, tokens_of, ask, set_in_env}
use pabel.Client.{Grant, refresh, client_credentials, authorization_code}

pub record KeycloakClient : Type 0 where
  pub client_id : Text
  pub authorization_endpoint : Text
  pub token_endpoint : Text

-- `KeycloakClient(base_url, realm, client_id)`
unfoldable pub keycloak_client : Text → Text → Text → KeycloakClient
unfolding strip_right
keycloak_client base_url realm client_id =
    let issuer = strip_right (λ c. nat_beq c b'/') base_url ++ (codes "/realms/" ++ realm) in
    record {
      client_id = client_id;
      authorization_endpoint = issuer ++ codes "/protocol/openid-connect/auth";
      token_endpoint = issuer ++ codes "/protocol/openid-connect/token";
    }

-- the names of the variables that have no value
abbrev missing : List (Text × Option Text) → List Text
missing [] = []
missing ((n, some v) ∷ rest) = missing rest
missing ((n, none) ∷ rest) = n ∷ missing rest

abbrev client_from : Option Text → Option Text → Option Text → Result Failure KeycloakClient
client_from (some base_url) (some realm) (some client_id) =
    ok (keycloak_client base_url realm client_id)
client_from base_url realm client_id = err (
    auth_error (
      missing_env_vars (
        missing (
          (codes "PABEL_KEYCLOAK_URL", base_url)
          ∷ (codes "PABEL_KEYCLOAK_REALM", realm)
          ∷ (codes "PABEL_KEYCLOAK_CLIENT_ID", client_id)
          ∷ []))))

module _ (H : Host) where
  abbrev env : Text → Option Text
  env name = set_in_env (H.environ name)

  unfoldable pub from_env : Result Failure KeycloakClient
  unfolding keycloak_client
  from_env =
      client_from (env (codes "PABEL_KEYCLOAK_URL")) (env (codes "PABEL_KEYCLOAK_REALM"))
        (env (codes "PABEL_KEYCLOAK_CLIENT_ID"))

  request : KeycloakClient → (ℕ → Text → Message) → Grant → Client H Tokens
  request kc failed grant = do
    response ← ask (H.post kc.token_endpoint kc.client_id grant)
    lift (tokens_of failed response)

  unfoldable pub exchange_code : KeycloakClient → Text → Text → Text → Client H Tokens
  unfolding request
  exchange_code kc code redirect_uri verifier =
      request kc code_exchange_failed (authorization_code code redirect_uri verifier)

  unfoldable pub refresh_tokens : KeycloakClient → Text → Client H Tokens
  unfolding request
  refresh_tokens kc token = request kc token_refresh_failed (refresh token)

  unfoldable pub request_client_credentials : KeycloakClient → Text → Client H Tokens
  unfolding request
  request_client_credentials kc secret =
      request kc client_credentials_failed (client_credentials secret)

  -- `authorize_url` with its default scope
  unfoldable pub authorize_url : KeycloakClient → Text → Text → Text → Text
  authorize_url kc redirect_uri state challenge =
      kc.authorization_endpoint
      ++ (codes "?"
          ++ H.urlencode (
              (codes "response_type", codes "code")
              ∷ (codes "client_id", kc.client_id)
              ∷ (codes "redirect_uri", redirect_uri)
              ∷ (codes "scope", codes "openid")
              ∷ (codes "state", state)
              ∷ (codes "code_challenge", challenge)
              ∷ (codes "code_challenge_method", codes "S256")
              ∷ []))
