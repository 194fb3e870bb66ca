-- ===== src/Server/Deployment/Teardown.antt =====
-- server/admin.py: `teardown`, with the client's half of it, and `status`.
pub mod Clean
use pabel.Base.{ℕ, Bool, true, false, ◌&&◌, ◌||◌, Option, none, some, List, [], ◌∷◌, ◌++◌}
use pabel.Base.{Text, codes, length, nat_beq, ltb, contains, is_some, text_eq, text_eq_instance}
use pabel.Base.{sort_by, if◌then◌else◌}
use pabel.Base.Exec.{Result, ok, err, lift, pure, raise, gets, modify, attempt, ◌>>=◌, ◌>>◌}
use pabel.Json.{Json, Items, Fields, null, bool, num, str, arr, obj, nil, cons, end, field}
use pabel.Server.{Services, World, Service, Failure, Agent, Installation, other_error, foreign}
use pabel.Server.Db.{connect, get_agent, list_agents, list_agent_installations}
use pabel.Server.Deployment.{Desk, Deploy, Command, in_service, in_web, run_nerdctl, compose}
use pabel.Server.Admin.{Web}
use pabel.Server.OauthBrowser.{or_os_error}

-- Python's order on texts
unfoldable pub text_leb : Text → Text → Bool
text_leb [] t = true
text_leb (c ∷ s) [] = false
text_leb (c ∷ s) (d ∷ t) = ltb c d || (nat_beq c d && text_leb s t)

abbrev type_error : {A : Type 0} → Result Failure A
type_error = err (other_error (foreign (codes "TypeError")))

abbrev and_text : Text → Result Failure (List Text) → Result Failure (List Text)
and_text t (ok ts) = ok (t ∷ ts)
and_text t (err e) = err e

unfoldable pub texts_of : Items → Result Failure (List Text)
texts_of nil = ok []
texts_of (cons (str t) vs) = and_text t (texts_of vs)
texts_of (cons v vs) = type_error

unfoldable pub keys_of : Fields → List Text
keys_of end = []
keys_of (field k v fs) = k ∷ keys_of fs

unfoldable pub characters : Text → List Text
characters [] = []
characters (c ∷ s) = (c ∷ []) ∷ characters s

-- what Python iterates over, as texts; an item that is no text is an error at once
abbrev pub iterated : Json → Result Failure (List Text)
iterated (obj fs) = ok (keys_of fs)
iterated (arr vs) = texts_of vs
iterated (str t) = ok (characters t)
iterated other = type_error

abbrev sorted : Result Failure (List Text) → Result Failure (List Text)
sorted (ok ts) = ok (sort_by text_leb ts)
sorted (err e) = err e

abbrev agents_in : Option Json → Result Failure (List Text)
agents_in none = ok []
agents_in (some v) = sorted (iterated v)

-- what `status` shows
pub record Report : Type 0 where
  pub mpk : Bool
  pub msk : Bool
  -- the rows of the four tables, where the database answers
  pub counts : Option (ℕ × ℕ × ℕ × ℕ)
  -- each product with the role of its row, if it is still there
  pub agents : List (Agent × Option Text)
  pub installations : List Installation

module _ (S : Services) (D : Deploy S) where
  abbrev pub agents_of : Option Text → Result Failure (List Text)
  agents_of none = ok []
  agents_of (some text) = agents_in (S.loads text)

  abbrev pub run_connector : Text → List Text → Web S ℕ
  run_connector connector args o =
      let (rc, o') = D.run_connector connector args o in (or_os_error rc, o')

  unfoldable pub uninstall_each : Text → List Text → Command S (Unit {0})
  uninstall_each connector [] = pure tt
  uninstall_each connector (agent_id ∷ agents) = do
    rc ← in_web (run_connector connector (codes "uninstall" ∷ agent_id ∷ []))
    uninstall_each connector agents

  -- where the program is not found, the commands are only printed
  unfoldable pub uninstall_agents : Option Text → List Text → Command S (Unit {0})
  unfolding uninstall_each
  uninstall_agents none agents = pure tt
  uninstall_agents (some connector) agents = uninstall_each connector agents

  -- `_teardown_client`
  unfoldable pub teardown_client : Command S (Unit {0})
  unfolding uninstall_agents
  teardown_client = do
    credentials ← gets (λ d. d.credentials)
    agents ← lift (agents_of credentials)
    uninstall_agents D.connector agents
    modify (λ d. record d { credentials = none; client_session = false })

  -- the exit code
  unfoldable pub cmd_teardown : Bool → Bool → Command S ℕ
  unfolding teardown_client
  cmd_teardown confirmed include_client =
      if confirmed
      then (do
        compose S D false (codes "down" ∷ codes "-v" ∷ [])
        modify (λ d. record d { authority = []; realm_file = none })
        if include_client then teardown_client else pure tt
        pure 0)
      else pure 1

  abbrev has : Text → List Text → Bool
  has name names = contains name names

  -- the `try` of the counts
  abbrev pub counted : Service S (ℕ × ℕ × ℕ × ℕ)
  unfolding connect
  counted = do
    connect S
    gets (λ w. (
      length w.db.agents,
      length w.db.installations,
      length w.db.agent_keys,
      length w.db.audit_log,
    ))

  abbrev if_ok : {A : Type 0} → Result Failure A → Option A
  if_ok (ok a) = some a
  if_ok (err e) = none

  abbrev role_of : Option Agent → Option Text
  role_of none = none
  role_of (some a) = some a.required_role

  -- each product's row is looked up again for its role
  pub with_roles : List Agent → Service S (List (Agent × Option Text))
  unfolding get_agent
  with_roles [] = pure []
  with_roles (a ∷ agents) = do
    row ← get_agent S a.agent_id
    rest ← with_roles agents
    pure ((a, role_of row) ∷ rest)

  unfoldable pub report :
      (Text → Text → Bool) → List Text → Option (ℕ × ℕ × ℕ × ℕ) → Command S Report
  unfolding with_roles list_agents list_agent_installations
  report collates authority counts = do
    agents ← in_service (list_agents S collates >>= with_roles)
    installations ← in_service (list_agent_installations S none)
    pure (record {
      mpk = has (codes "org.mpk.cpabe") authority;
      msk = has (codes "org.msk.cpabe") authority;
      counts = counts;
      agents = agents;
      installations = installations;
    })

  unfoldable pub cmd_status : (Text → Text → Bool) → Command S Report
  unfolding run_nerdctl report counted
  cmd_status collates = do
    rc ←
        run_nerdctl S D
          (codes "ps" ∷ codes "--format" ∷ codes "  {{.Names}}  {{.Status}}  {{.Ports}}" ∷ [])
    authority ← gets (λ d. d.authority)
    counts ← in_service (attempt counted)
    report collates authority (if_ok counts)
