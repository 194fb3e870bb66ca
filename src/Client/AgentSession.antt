-- ===== src/Client/AgentSession.antt =====
-- agent_session.py: one credential for each agent product, kept in agent_credentials.json.
pub mod Stored
use pabel.Base.{Option, none, some, List, [], ◌∷◌}
use pabel.Base.{Text, codes, text_eq, or_default, if◌then◌else◌}
use pabel.Base.Exec.{Result, ok, err, lift, pure, raise, gets, modify, ◌>>=◌, ◌>>◌}
use pabel.Failure.{Failure, auth_error, keycloak_env_not_set, no_installation_credentials}
use pabel.Client.{Host, Client, Credential, ask, required, is_stale, set_in_env}
use pabel.Client.Keycloak.{KeycloakClient, keycloak_client, request_client_credentials}

-- `data.get(agent_id)` and `data[agent_id] = entry`
unfoldable pub entry_of : Text → List (Text × Credential) → Option Credential
entry_of agent_id [] = none
entry_of agent_id ((a, e) ∷ rest) = if text_eq a agent_id then some e else entry_of agent_id rest

unfoldable pub put_entry : Text → Credential → List (Text × Credential) → List (Text × Credential)
put_entry agent_id entry [] = (agent_id, entry) ∷ []
put_entry agent_id entry ((a, e) ∷ rest) =
    if text_eq a agent_id then (a, entry) ∷ rest else (a, e) ∷ put_entry agent_id entry rest

abbrev client_at : Option Text → Option Text → Text → Result Failure KeycloakClient
client_at (some base_url) (some realm) client_id = ok (keycloak_client base_url realm client_id)
client_at base_url realm client_id = err (auth_error keycloak_env_not_set)

module _ (H : Host) where
  unfoldable pub store_credentials : Text → Text → Text → Client H (Unit {0})
  unfolding put_entry
  store_credentials agent_id client_id client_secret = modify (λ w. record w {
    credentials =
        put_entry agent_id
          (record {
            client_id = client_id;
            client_secret = client_secret;
            access_token = none;
            expires_in = none;
            obtained_at = none;
          })
          w.credentials;
  })

  -- `_keycloak_client`
  unfoldable pub client_of : Text → Result Failure KeycloakClient
  unfolding keycloak_client
  client_of client_id =
      client_at (set_in_env (H.environ (codes "PABEL_KEYCLOAK_URL")))
        (set_in_env (H.environ (codes "PABEL_KEYCLOAK_REALM"))) client_id

  fresh_token : Text → Credential → Client H Text
  unfolding client_of request_client_credentials put_entry
  fresh_token agent_id e = do
    kc ← lift (client_of e.client_id)
    tokens ← request_client_credentials H kc e.client_secret
    token ← lift (required (codes "access_token") tokens.access_token)
    now ← ask H.time
    modify (λ w. record w {
      credentials =
          put_entry agent_id
            (record e {
              access_token = some token;
              expires_in = some (or_default tokens.expires_in 60);
              obtained_at = some now;
            })
            w.credentials;
    })
    pure token

  -- the clock is read only where a token is cached
  cached_or_fresh : Text → Credential → Option Text → Client H Text
  unfolding fresh_token
  cached_or_fresh agent_id e none = fresh_token agent_id e
  cached_or_fresh agent_id e (some token) = do
    now ← ask H.time
    if is_stale now (or_default e.obtained_at 0) (or_default e.expires_in 60)
        then fresh_token agent_id e
        else pure token

  for_entry : Text → Option Credential → Client H Text
  unfolding cached_or_fresh
  for_entry agent_id none = raise (auth_error (no_installation_credentials agent_id))
  for_entry agent_id (some e) = cached_or_fresh agent_id e e.access_token

  unfoldable pub access_token : Text → Client H Text
  unfolding for_entry entry_of
  access_token agent_id = do
    entry ← gets (λ w. entry_of agent_id w.credentials)
    for_entry agent_id entry
