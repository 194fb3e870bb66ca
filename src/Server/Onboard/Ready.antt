-- ===== src/Server/Onboard/Ready.antt =====
-- What stands in the database behind an `onboard`.
use pabel.Base.{
  ◌≡◌, refl, ap, sym, ◌∙◌, true, Option, some, List, [], ◌∷◌, arith, inl, inr, Bool-cases,
}
use mathlib.Core.Path.{subst}
use pabel.Base.{Text, text_eq, text_eq_refl}
use pabel.Base.Exec.{ok, pure, ◌>>=◌, ◌>>◌}
use pabel.Base.Exec.Ran.{bind-ran, ok-eq}
use pabel.Server.{Services, World, Agent}
use pabel.Server.Db.{find_installation, find_agent, upsert_agent, add_agent, add_agent_installation}
use pabel.Server.Admin.{Realm, create_keycloak_client, on_web}
use pabel.Server.Admin.Registered.{new_row, add_agent_installation-ran}
use pabel.Server.Onboard.{
  cmd_onboard, attributes_for, ensure_realm_role, assign_all, names_in, or_text,
}

-- the product's row, with what it contributes and the role that it asks for
abbrev Gated : Text → Text → Text → List Agent → Type 0
Gated agent_id attributes role agents =
    (a : Agent) × (find_agent agent_id agents ≡ some a)
    × (a.attributes ≡ attributes)
    × (a.required_role ≡ role)

upsert_agent-Gated :
    (agent_id display_name attributes role : Text) (agents : List Agent)
    → Gated agent_id attributes role (upsert_agent agent_id display_name attributes role agents)
unfolding find_agent upsert_agent
upsert_agent-Gated agent_id display_name attributes role [] = (
  record {
    agent_id = agent_id;
    display_name = display_name;
    attributes = attributes;
    required_role = role;
    enabled = true;
  },
  ground (arith, text_eq_refl agent_id),
  refl,
  refl,
)
upsert_agent-Gated agent_id display_name attributes role (a ∷ agents) =
    elim (Bool-cases (text_eq a.agent_id agent_id)) [
      | inl hit ↦ (
        record a { display_name = display_name; attributes = attributes; required_role = role },
        ground (arith, hit),
        refl,
        refl,
      )
      | inr miss ↦
          let (b, found, has_attributes, has_role) =
            upsert_agent-Gated agent_id display_name attributes role agents in
          (b, ground (arith, miss, found), has_attributes, has_role)
    ]

module _ (S : Services) where
  add_agent-Gated :
      (agent_id display_name attributes role : Text) (w w' : World S)
      → add_agent S agent_id display_name attributes role w ≡ (ok tt, w')
      → Gated agent_id attributes role w'.db.agents
  unfolding add_agent
  add_agent-Gated agent_id display_name attributes role w w' h =
      let rows : upsert_agent agent_id display_name attributes role w.db.agents ≡ w'.db.agents =
        ground (arith, ap (λ x. x.0) h, ap (λ x. x.1.db.agents) h) in
      subst (Gated agent_id attributes role) rows
        (upsert_agent-Gated agent_id display_name attributes role w.db.agents)

  -- Where onboard gives a client_id and a secret, an installation of that client_id is stored for the
  -- product, with this label and not revoked, and the product's row has the attribute and the role
  -- that are derived from its id.
  pub cmd_onboard-ready :
      (R : Realm S) (agent_id : Text) (display_name label grant_to : Option Text)
      (client : Text × Text) (w w' : World S)
      → cmd_onboard S R agent_id display_name label grant_to w ≡ (ok client, w')
      → (find_installation client.0 w'.db.installations ≡ some (new_row client.0 agent_id label))
        × ((a : Agent) × (find_agent agent_id w'.db.agents ≡ some a)
            × (a.attributes ≡ (attributes_for agent_id).0)
            × (a.required_role ≡ (attributes_for agent_id).1))
  unfolding cmd_onboard
  cmd_onboard-ready R agent_id display_name label grant_to client w w' h =
      let attributes = (attributes_for agent_id).0 in
      let role = (attributes_for agent_id).1 in
      let install =
        λ (client : Text × Text). add_agent_installation S client.0 agent_id label >> pure client in
      let create = on_web (create_keycloak_client S R agent_id label) >>= install in
      let grant = on_web (assign_all S R role (names_in S R (or_text grant_to []))) >> create in
      let (_, w1, added, h1) =
        bind-ran (add_agent S agent_id (or_text display_name agent_id) attributes role)
          (λ _. on_web (ensure_realm_role S R role) >>= λ created. grant) w w' client h in
      let (_, w2, ensured, h2) =
        bind-ran (on_web (ensure_realm_role S R role)) (λ created. grant) w1 w' client h1 in
      let (_, w3, granted, h3) =
        bind-ran (on_web (assign_all S R role (names_in S R (or_text grant_to [])))) (λ _. create)
          w2 w' client h2 in
      let (made, w4, asked, h4) =
        bind-ran (on_web (create_keycloak_client S R agent_id label)) install w3 w' client h3 in
      let (_, w5, stored, h5) =
        bind-ran (add_agent_installation S made.0 agent_id label) (λ _. pure made) w4 w' client
          h4 in
      let (row, _, agents) = add_agent_installation-ran S made.0 agent_id label w4 w5 stored in
      let same : made ≡ client = ok-eq made client (ap (λ x. x.0) h5) in
      let row_after : find_installation made.0 w'.db.installations
          ≡ some (new_row made.0 agent_id label) =
        subst
          (λ v. find_installation made.0 v.db.installations ≡ some (new_row made.0 agent_id label))
          (ap (λ x. x.1) h5) row in
      let kept : w1.db.agents ≡ w'.db.agents =
        ap (λ x. x.1.db.agents) ensured
        ∙ ap (λ x. x.1.db.agents) granted
        ∙ ap (λ x. x.1.db.agents) asked
        ∙ sym agents
        ∙ ap (λ x. x.1.db.agents) h5 in
      (
        subst (λ c. find_installation c.0 w'.db.installations ≡ some (new_row c.0 agent_id label))
            same row_after,
        subst (Gated agent_id attributes role) kept
            (add_agent-Gated agent_id (or_text display_name agent_id) attributes role w w1 added),
      )
