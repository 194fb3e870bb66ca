-- ===== src/Server/Keycloak.antt =====
-- server/auth.py: what KeycloakAuth knows of a realm, and its requests to the token endpoint.
use pabel.Base.{ℕ, Bool, Option, none, some, List, [], ◌∷◌, ◌++◌}
use pabel.Base.{Text, codes, nat_beq, strip_right, or_default}
use pabel.Base.Exec.{Result, ok, err, lift, ◌>>=◌}
use pabel.Server.{
  Services, Service, Tokens, Response, no_answer, refused, granted, KeycloakAuth, ask,
}
use pabel.Server.{Failure, Problem, auth_error, other_error, foreign, cannot_reach_keycloak}
use pabel.Server.{token_refresh_failed, code_exchange_failed}
use pabel.Server.Env.{Environ, require, value_of}

-- `tokens[key]`
abbrev pub entry : {A : Type 0} → Option A → Result Failure A
entry none = err (other_error (foreign (codes "KeyError")))
entry (some a) = ok a

-- `s.rstrip("/")`
abbrev unslashed : Text → Text
unslashed s = strip_right (λ c. nat_beq c b'/') s

-- `KeycloakAuth(base_url, realm, client_id)`, where the environment may name another issuer
unfoldable pub keycloak_auth : Option Text → Text → Text → Text → KeycloakAuth
unfolding strip_right
keycloak_auth issuer_base_url base_url realm client_id =
    let issuer = unslashed (or_default issuer_base_url base_url) ++ (codes "/realms/" ++ realm) in
    record {
      base_url = unslashed base_url;
      realm = realm;
      client_id = client_id;
      issuer = issuer;
      authorization_endpoint = issuer ++ codes "/protocol/openid-connect/auth";
      token_endpoint = issuer ++ codes "/protocol/openid-connect/token";
      jwks_uri =
          unslashed base_url
          ++ (codes "/realms/" ++ (realm ++ codes "/protocol/openid-connect/certs"));
    }

abbrev auth_of : Option Text → Result Failure (List Text) → Result Failure KeycloakAuth
auth_of issuer (ok (base_url ∷ realm ∷ client_id ∷ [])) =
    ok (keycloak_auth issuer base_url realm client_id)
auth_of issuer (ok values) = err (other_error (foreign (codes "ValueError")))
auth_of issuer (err e) = err e

-- `KeycloakAuth()` of the environment, behind the lines of server/.env
unfoldable pub auth_from_env : (ℕ → Bool) → List Text → Environ → Result Failure KeycloakAuth
unfolding require value_of keycloak_auth
auth_from_env is_space lines environ =
    let (values, env) =
      require is_space lines (codes "KEYCLOAK_URL" ∷ codes "REALM" ∷ codes "CLIENT_ID" ∷ [])
        environ in
    auth_of (value_of (codes "KEYCLOAK_ISSUER_URL") env) values

-- a response that is not 200
abbrev pub granted_or : (ℕ → Text → Problem) → Response → Result Failure Tokens
granted_or failed (no_answer e) = err (auth_error (cannot_reach_keycloak e))
granted_or failed (refused status text) = err (auth_error (failed status text))
granted_or failed (granted tokens) = ok tokens

-- the form of `exchange_code`
abbrev pub code_form : KeycloakAuth → Text → Text → Text → List (Text × Option Text)
code_form kc code redirect_uri code_verifier =
    (codes "grant_type", some (codes "authorization_code"))
    ∷ (codes "client_id", some kc.client_id)
    ∷ (codes "code", some code)
    ∷ (codes "redirect_uri", some redirect_uri)
    ∷ (codes "code_verifier", some code_verifier)
    ∷ []

module _ (S : Services) where
  unfoldable pub exchange_code : KeycloakAuth → Text → Text → Text → Service S Tokens
  exchange_code kc code redirect_uri code_verifier = do
    resp ← ask (S.post kc.token_endpoint (code_form kc code redirect_uri code_verifier))
    lift (granted_or code_exchange_failed resp)

  -- `kc.refresh`
  unfoldable pub refresh : Option Text → Service S Tokens
  refresh refresh_token = do
    resp ← ask (
        S.post S.kc.token_endpoint (
          (codes "grant_type", some (codes "refresh_token"))
          ∷ (codes "client_id", some S.kc.client_id)
          ∷ (codes "refresh_token", refresh_token)
          ∷ []))
    lift (granted_or token_refresh_failed resp)
