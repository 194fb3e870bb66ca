-- ===== src/Server/Db.antt =====
-- server/db.py over server/schema.sql: each function is one statement, and raises where
-- PABEL_DB_DSN is not set or PostgreSQL does not answer.
use pabel.Base.{
  Bool, true, false, ◌&&◌, not, Option, none, some, List, [], ◌∷◌, ◌++◌, keep, sort_by,
}
use pabel.Base.{Text, codes, text_eq, is_some, if◌then◌else◌}
use pabel.Base.Exec.{pure, raise, gets, modify, ◌>>=◌, ◌>>◌}
use pabel.Server.{Services, Service, other_error, runtime_error, foreign, ask}
use pabel.Server.{Agent, Installation, KeyRow, AuditRecord}

-- `SELECT ... WHERE agent_id = %s`
unfoldable pub find_agent : Text → List Agent → Option Agent
find_agent agent_id [] = none
find_agent agent_id (a ∷ as_) =
    if text_eq a.agent_id agent_id then some a else find_agent agent_id as_

-- `INSERT ... ON CONFLICT (agent_id) DO UPDATE`, which leaves `enabled` as it was
unfoldable pub upsert_agent : Text → Text → Text → Text → List Agent → List Agent
upsert_agent agent_id display_name attributes required_role [] =
    record {
      agent_id = agent_id;
      display_name = display_name;
      attributes = attributes;
      required_role = required_role;
      enabled = true;
    }
    ∷ []
upsert_agent agent_id display_name attributes required_role (a ∷ as_) =
    if text_eq a.agent_id agent_id
    then record a {
      display_name = display_name;
      attributes = attributes;
      required_role = required_role;
    }
      ∷ as_
    else a ∷ upsert_agent agent_id display_name attributes required_role as_

unfoldable pub update_enabled : Text → Bool → List Agent → List Agent
update_enabled agent_id enabled [] = []
update_enabled agent_id enabled (a ∷ as_) =
    if text_eq a.agent_id agent_id
    then record a { enabled = enabled } ∷ as_
    else a ∷ update_enabled agent_id enabled as_

unfoldable pub find_installation : Text → List Installation → Option Installation
find_installation client_id [] = none
find_installation client_id (i ∷ is) =
    if text_eq i.client_id client_id then some i else find_installation client_id is

unfoldable pub update_revoked : Text → Bool → List Installation → List Installation
update_revoked client_id revoked [] = []
update_revoked client_id revoked (i ∷ is) =
    if text_eq i.client_id client_id
    then record i { revoked = revoked } ∷ is
    else i ∷ update_revoked client_id revoked is

abbrev pub owns : Text → Text → KeyRow → Bool
owns username agent_id k = text_eq k.username username && text_eq k.product agent_id

unfoldable pub find_key : Text → Text → List KeyRow → Option KeyRow
find_key username agent_id [] = none
find_key username agent_id (k ∷ ks) =
    if owns username agent_id k then some k else find_key username agent_id ks

unfoldable pub upsert_key : Text → Text → Text → Text → List KeyRow → List KeyRow
upsert_key username agent_id hash key [] =
    record { username = username; product = agent_id; attributes_hash = hash; key_material = key }
    ∷ []
upsert_key username agent_id hash key (k ∷ ks) =
    if owns username agent_id k
    then record k { attributes_hash = hash; key_material = key } ∷ ks
    else k ∷ upsert_key username agent_id hash key ks

module _ (S : Services) where
  -- `_dsn`, whose `env.require` raises a RuntimeError
  unfoldable pub dsn : Service S (Unit {0})
  dsn =
      if S.has_dsn
      then pure tt
      else raise (runtime_error (foreign (codes "missing environment variable(s)")))

  -- `with connect() as conn`
  unfoldable pub connect : Service S (Unit {0})
  unfolding dsn
  connect = do
    dsn
    up ← ask S.db_up
    if up then pure tt else raise (other_error (foreign (codes "database unreachable")))

  unfoldable pub get_agent : Text → Service S (Option Agent)
  unfolding connect find_agent
  get_agent agent_id = do connect; gets (λ w. find_agent agent_id w.db.agents)

  unfoldable pub add_agent : Text → Text → Text → Text → Service S (Unit {0})
  unfolding connect upsert_agent
  add_agent agent_id display_name attributes required_role = do
    connect
    modify (λ w. record w {
      db = record w.db {
        agents = upsert_agent agent_id display_name attributes required_role w.db.agents;
      };
    })

  unfoldable pub set_agent_enabled : Text → Bool → Service S Bool
  unfolding connect update_enabled find_agent
  set_agent_enabled agent_id enabled = do
    connect
    found ← gets (λ w. is_some (find_agent agent_id w.db.agents))
    modify (λ w. record w {
      db = record w.db { agents = update_enabled agent_id enabled w.db.agents };
    })
    pure found

  -- the primary key and the foreign key of agent_installations
  unfoldable pub add_agent_installation : Text → Text → Option Text → Service S (Unit {0})
  unfolding connect find_agent find_installation
  add_agent_installation client_id agent_id label = do
    connect
    taken ← gets (λ w. is_some (find_installation client_id w.db.installations))
    known ← gets (λ w. is_some (find_agent agent_id w.db.agents))
    if not taken && known
        then modify (λ w. record w {
          db = record w.db {
            installations =
                w.db.installations
                ++ (record {
                  client_id = client_id;
                  product = agent_id;
                  label = label;
                  revoked = false;
                }
                    ∷ []);
          };
        })
        else raise (other_error (foreign (codes "integrity error")))

  unfoldable pub get_agent_installation : Text → Service S (Option Installation)
  unfolding connect find_installation
  get_agent_installation client_id = do
    connect
    gets (λ w. find_installation client_id w.db.installations)

  unfoldable pub set_installation_revoked : Text → Bool → Service S Bool
  unfolding connect update_revoked find_installation
  set_installation_revoked client_id revoked = do
    connect
    found ← gets (λ w. is_some (find_installation client_id w.db.installations))
    modify (λ w. record w {
      db = record w.db { installations = update_revoked client_id revoked w.db.installations };
    })
    pure found

  unfoldable pub get_agent_key : Text → Text → Service S (Option KeyRow)
  unfolding connect find_key
  get_agent_key username agent_id = do
    connect
    gets (λ w. find_key username agent_id w.db.agent_keys)

  -- agent_keys refers to agents
  unfoldable pub store_agent_key : Text → Text → Text → Text → Service S (Unit {0})
  unfolding connect upsert_key find_agent
  store_agent_key username agent_id hash key = do
    connect
    known ← gets (λ w. is_some (find_agent agent_id w.db.agents))
    if known
        then modify (λ w. record w {
          db = record w.db { agent_keys = upsert_key username agent_id hash key w.db.agent_keys };
        })
        else raise (other_error (foreign (codes "foreign key violation")))

  -- the tables are there from the start
  unfoldable pub init_schema : Service S (Unit {0})
  unfolding connect
  init_schema = connect

  -- in the order of PostgreSQL's collation
  unfoldable pub list_agents : (Text → Text → Bool) → Service S (List Agent)
  unfolding connect sort_by
  list_agents collates = do
    connect
    gets (λ w. sort_by (λ a b. collates a.agent_id b.agent_id) w.db.agents)

  -- all of them, or those of a product, in the order in which they were added
  unfoldable pub list_agent_installations : Option Text → Service S (List Installation)
  unfolding connect
  list_agent_installations none = do connect; gets (λ w. w.db.installations)
  list_agent_installations (some agent_id) = do
    connect
    gets (λ w. keep (λ i. text_eq i.product agent_id) w.db.installations)

  -- only a `psycopg.Error` is caught
  unfoldable pub insert_audit : AuditRecord → Service S (Unit {0})
  unfolding dsn
  insert_audit entry = do
    dsn
    up ← ask S.db_up
    if up
        then modify
            (λ w. record w { db = record w.db { audit_log = w.db.audit_log ++ (entry ∷ []) } })
        else pure tt
