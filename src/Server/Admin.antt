-- ===== src/Server/Admin.antt =====
-- agents_admin.py: the administrator's commands on agents and installations. What they print is left
-- out, but for the credential that create-installation shows once.
pub mod Revoked
pub mod Registered
pub mod LockedOut
use pabel.Base.{ℕ, Bool, true, false, not, ◌&&◌, Option, none, some, List, [], ◌∷◌, ◌++◌}
use pabel.Base.{Text, codes, is_empty, leb, ltb, if◌then◌else◌}
use pabel.Base.Exec.{Exec, Result, ok, err, pure, raise, lift, attempt, ◌>>=◌, ◌>>◌}
use pabel.Json.{
  Json, Fields, null, bool, num, str, arr, obj, nil, cons, end, field, find, with_field, truthy,
}
use pabel.Server.{Services, World, Service, Failure, Agent, other_error, runtime_error, foreign}
use pabel.Server.Env.{Environ, require}
use pabel.Server.Db.{
  add_agent, set_agent_enabled, add_agent_installation, set_installation_revoked, get_agent,
}

-- the calls of `requests`: a method, a URL, a bearer token and what is sent
pub data Request : Type 0 where
  post_form : Text → List (Text × Text) → Request
  post_json : Text → Text → Json → Request
  get : Text → Text → List (Text × Text) → Request
  put_json : Text → Text → Json → Request

-- an answer: its status, its Location header and its body
pub record Reply : Type 0 where
  pub status : ℕ
  pub location : Option Text
  pub body : Json

-- What the commands ask: a request that may get no answer, and random hex digits; and what stands
-- in the environment and in server/.env.
pub record Realm (S : Services) : Type 0 where
  pub request : Request → S.State → Result Failure Reply × S.State
  pub token_hex : S.State → Text × S.State
  pub is_space : ℕ → Bool
  pub env_lines : List Text
  pub environ : Environ

abbrev pub Web : Services → Type 0 → Type 0
Web S A = Exec S.State Failure A

abbrev pub on_web : {S : Services} {A : Type 0} → Web S A → Service S A
on_web m w = let (r, o) = m w.outside in (r, record w { outside = o })

abbrev pub key_error : Failure
key_error = other_error (foreign (codes "KeyError"))

-- `value, = values`
abbrev only : Result Failure (List Text) → Result Failure Text
only (ok (v ∷ [])) = ok v
only (ok vs) = err (other_error (foreign (codes "ValueError")))
only (err e) = err e

-- `body[key]`, where a text is wanted
abbrev text_in : Option Json → Result Failure Text
text_in (some (str s)) = ok s
text_in other = err key_error

abbrev pub text_at : Text → Json → Result Failure Text
text_at key (obj fs) = text_in (find key fs)
text_at key other = err key_error

abbrev header : Option Text → Result Failure Text
header none = err key_error
header (some t) = ok t

-- `raise_for_status`
abbrev pub checked : Reply → Result Failure Reply
checked r =
    if leb 400 r.status && ltb r.status 600
    then err (other_error (foreign (codes "HTTPError")))
    else ok r

-- `label or f"{agent_id} installation"`
abbrev name_of : Text → Option Text → Text
name_of agent_id none = agent_id ++ codes " installation"
name_of agent_id (some label) = if is_empty label then agent_id ++ codes " installation" else label

-- `found[0]`, where anything is found
abbrev pub first_found : Json → Result Failure Fields
first_found (arr nil) = err (runtime_error (foreign (codes "no Keycloak client found")))
first_found (arr (cons (obj fs) vs)) = ok fs
first_found other =
    if truthy other
    then err key_error
    else err (runtime_error (foreign (codes "no Keycloak client found")))

module _ (S : Services) (R : Realm S) where
  abbrev hex : Web S Text
  hex o = let (t, o') = R.token_hex o in (ok t, o')

  -- `env.require(name)`
  abbrev pub required : Text → Web S Text
  required name = lift (only (require R.is_space R.env_lines (name ∷ []) R.environ).0)

  unfoldable pub admin_token : Web S Text
  unfolding require
  admin_token = do
    base_url ← required (codes "KEYCLOAK_URL")
    user ← required (codes "KC_BOOTSTRAP_ADMIN_USERNAME")
    password ← required (codes "KC_BOOTSTRAP_ADMIN_PASSWORD")
    reply ← R.request (
        post_form (base_url ++ codes "/realms/master/protocol/openid-connect/token") (
          (codes "grant_type", codes "password")
          ∷ (codes "client_id", codes "admin-cli")
          ∷ (codes "username", user)
          ∷ (codes "password", password)
          ∷ []))
    reply ← lift (checked reply)
    lift (text_at (codes "access_token") reply.body)

  abbrev clients_url : Text → Text → Text
  clients_url base_url realm = base_url ++ (codes "/admin/realms/" ++ (realm ++ codes "/clients"))

  abbrev client_json : Text → Text → Json
  client_json client_id name = obj (
      field (codes "clientId") (str client_id) (
        field (codes "name") (str name) (
          field (codes "protocol") (str (codes "openid-connect")) (
            field (codes "publicClient") (bool false) (
              field (codes "standardFlowEnabled") (bool false) (
                field (codes "directAccessGrantsEnabled") (bool false)
                  (field (codes "serviceAccountsEnabled") (bool true) end)))))))

  -- the client's id and its secret
  unfoldable pub create_keycloak_client : Text → Option Text → Web S (Text × Text)
  unfolding admin_token require
  create_keycloak_client agent_id label = do
    base_url ← required (codes "KEYCLOAK_URL")
    realm ← required (codes "REALM")
    token ← admin_token
    digits ← hex
    let client_id = codes "pabel-agent-" ++ (agent_id ++ (codes "-" ++ digits))
    reply ← R.request (
        post_json (clients_url base_url realm) token
          (client_json client_id (name_of agent_id label)))
    reply ← lift (checked reply)
    location ← lift (header reply.location)
    answer ← R.request (get (location ++ codes "/client-secret") token [])
    answer ← lift (checked answer)
    secret ← lift (text_at (codes "value") answer.body)
    pure (client_id, secret)

  unfoldable pub set_keycloak_client_enabled : Text → Bool → Web S (Unit {0})
  unfolding admin_token require
  set_keycloak_client_enabled client_id enabled = do
    base_url ← required (codes "KEYCLOAK_URL")
    realm ← required (codes "REALM")
    token ← admin_token
    reply ← R.request (get (clients_url base_url realm) token ((codes "clientId", client_id) ∷ []))
    fs ← lift (first_found reply.body)
    id ← lift (text_at (codes "id") (obj fs))
    answer ← R.request (
        put_json (clients_url base_url realm ++ (codes "/" ++ id)) token
          (obj (with_field (codes "enabled") (bool enabled) fs)))
    answer ← lift (checked answer)
    pure tt

  unfoldable pub do_add : Text → Text → Text → Text → Service S (Unit {0})
  unfolding add_agent
  do_add agent_id display_name attributes required_role =
      add_agent S agent_id display_name attributes required_role

  -- `SystemExit` where there is no such row
  abbrev pub or_exit : Bool → Service S (Unit {0})
  or_exit true = pure tt
  or_exit false = raise (other_error (foreign (codes "SystemExit")))

  unfoldable pub do_set_enabled : Text → Bool → Service S (Unit {0})
  unfolding set_agent_enabled
  do_set_enabled agent_id enabled = do found ← set_agent_enabled S agent_id enabled; or_exit found

  abbrev pub for_product : Text → Option Text → Option Agent → Service S (Text × Text)
  for_product agent_id label none = raise (other_error (foreign (codes "SystemExit")))
  for_product agent_id label (some product) = do
    client ← on_web (create_keycloak_client agent_id label)
    add_agent_installation S client.0 agent_id label
    pure client

  -- the client_id and the secret that are shown
  unfoldable pub do_create_installation : Text → Option Text → Service S (Text × Text)
  unfolding get_agent create_keycloak_client add_agent_installation
  do_create_installation agent_id label = do
    product ← get_agent S agent_id
    for_product agent_id label product

  -- a failure in Keycloak is only warned of
  unfoldable pub do_set_installation_revoked : Text → Bool → Service S (Unit {0})
  unfolding set_installation_revoked set_keycloak_client_enabled
  do_set_installation_revoked client_id revoked = do
    found ← set_installation_revoked S client_id revoked
    or_exit found
    outcome ← attempt (on_web (set_keycloak_client_enabled client_id (not revoked)))
    pure tt
