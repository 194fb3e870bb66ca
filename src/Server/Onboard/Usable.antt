-- ===== src/Server/Onboard/Usable.antt =====
-- A new installation can be used.
use pabel.Base.{◌≡◌, arith, refl, ap, ◌∙◌, sym, true, Option, some, List}
use pabel.Base.{Text, contains, text_eq_instance}
use pabel.Base.Exec.{ok}
use pabel.Base.Exec.Ran.{bind-ran}
use mathlib.Core.Option.{some-injective}
use pabel.Server.{Services, World, Claims, Agent, Tables}
use pabel.Server.Auth.{verify, client_id_of}
use pabel.Server.Db.{find_installation, find_agent, add_agent}
use pabel.Server.Core.{resolve_agent}
use pabel.Server.Core.Keeps.{verify-keeps_db}
use pabel.Server.Core.Granted.{Answers, resolve_agent-granted}
use pabel.Server.Admin.{Realm}
use pabel.Server.Admin.Registered.{new_row}
use pabel.Server.Onboard.{cmd_onboard, attributes_for, or_text}
use pabel.Server.Onboard.Ready.{cmd_onboard-ready}

module _ (S : Services) (R : Realm S) where
  add_agent-has_dsn :
      (agent_id display_name attributes role : Text) (w w' : World S)
      → add_agent S agent_id display_name attributes role w ≡ (ok tt, w')
      → S.has_dsn ≡ true
  unfolding add_agent
  add_agent-has_dsn agent_id display_name attributes role w w' h = ground (arith, ap (λ x. x.0) h)

  cmd_onboard-has_dsn :
      (agent_id : Text) (display_name label grant_to : Option Text) (client : Text × Text)
      (w w' : World S)
      → cmd_onboard S R agent_id display_name label grant_to w ≡ (ok client, w')
      → S.has_dsn ≡ true
  unfolding cmd_onboard
  cmd_onboard-has_dsn agent_id display_name label grant_to client w w' h =
      let (attributes, role) = attributes_for agent_id in
      let (_, w1, added, _) =
        bind-ran (add_agent S agent_id (or_text display_name agent_id) attributes role) _ w w'
          client h in
      add_agent-has_dsn agent_id (or_text display_name agent_id) attributes role w w1 added

  -- Where onboard gives a client_id and a secret, and its product is enabled: a token that verifies and
  -- is of that client, shown while the database answers for a user who holds the role that is derived
  -- from the product's id, resolves to the product and the attribute that is derived from its id.
  pub cmd_onboard-resolve_agent :
      (agent_id : Text) (display_name label grant_to : Option Text) (client : Text × Text)
      (token : Text) (roles : List Text) (c : Claims) (a : Agent) (w w' v : World S)
      → cmd_onboard S R agent_id display_name label grant_to w ≡ (ok client, w')
      → find_agent agent_id w'.db.agents ≡ some a
      → a.enabled ≡ true
      → verify S token w' ≡ (ok c, v)
      → client_id_of c ≡ ok client.0
      → Answers S v
      → contains (attributes_for agent_id).1 roles ≡ true
      → (resolve_agent S token roles w').0 ≡ ok (agent_id, (attributes_for agent_id).0)
  cmd_onboard-resolve_agent agent_id display_name label grant_to client token roles c a w w' v h
        product enabled verified named answers has_role =
      let (row, (b, found, attribute, role)) =
        cmd_onboard-ready S R agent_id display_name label grant_to client w w' h in
      let same : b ≡ a = some-injective b a (sym found ∙ product) in
      let db : v.db ≡ w'.db = ap (λ x. x.1.db) (sym verified) ∙ verify-keeps_db S token w' in
      resolve_agent-granted S token roles c (new_row client.0 agent_id label) a client.0 w' v
        verified named (cmd_onboard-has_dsn agent_id display_name label grant_to client w w' h)
        answers (ap (λ (d : Tables). find_installation client.0 d.installations) db ∙ row) refl
        (ap (λ (d : Tables). find_agent agent_id d.agents) db ∙ product) enabled
        (ap (λ r. contains r roles) (ap (λ (x : Agent). x.required_role) (sym same) ∙ role)
          ∙ has_role)
      ∙ ap (λ t. ok (agent_id, t)) (ap (λ (x : Agent). x.attributes) (sym same) ∙ attribute)
