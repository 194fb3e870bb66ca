-- ===== src/Server/Admin/Registered.antt =====
-- What a new installation finds in the database.
use pabel.Base.{◌≡◌, ap, ◌∙◌, true, false, Option, none, some, List, [], ◌∷◌, ◌++◌, arith}
use mathlib.Core.Path.{subst}
use pabel.Base.{Text, text_eq, text_eq_refl, is_some}
use pabel.Base.Exec.{ok, pure, ◌>>◌}
use pabel.Base.Exec.Ran.{bind-ran, ok-eq}
use pabel.Server.{Services, World, Agent, Installation}
use pabel.Server.Db.{find_installation, find_agent, get_agent, add_agent_installation}
use pabel.Server.Admin.{Realm, do_create_installation, create_keycloak_client, on_web, for_product}

-- the new row, behind the others
abbrev pub new_row : Text → Text → Option Text → Installation
new_row client_id agent_id label = record {
  client_id = client_id;
  product = agent_id;
  label = label;
  revoked = false;
}

find_installation-append :
    (client_id : Text) (is : List Installation) (i : Installation)
    → is_some (find_installation client_id is) ≡ false
    → text_eq i.client_id client_id ≡ true
    → find_installation client_id (is ++ (i ∷ [])) ≡ some i
unfolding find_installation
find_installation-append client_id [] i n e = ground arith
find_installation-append client_id (x ∷ is) i n e =
    ground (arith, find_installation-append client_id is i)

module _ (S : Services) where
  -- an installation is added only for a product that is there, and only under a new client_id
  pub add_agent_installation-ran :
      (client_id agent_id : Text) (label : Option Text) (w w' : World S)
      → add_agent_installation S client_id agent_id label w ≡ (ok tt, w')
      → (find_installation client_id w'.db.installations ≡ some (new_row client_id agent_id label))
        × (is_some (find_agent agent_id w.db.agents) ≡ true)
        × (w'.db.agents ≡ w.db.agents)
  unfolding add_agent_installation
  add_agent_installation-ran client_id agent_id label w w' h =
      let result = ap (λ x. x.0) h in
      let fresh : is_some (find_installation client_id w.db.installations) ≡ false =
        ground (arith, result) in
      let known : is_some (find_agent agent_id w.db.agents) ≡ true = ground (arith, result) in
      let rows : w.db.installations ++ (new_row client_id agent_id label ∷ [])
          ≡ w'.db.installations =
        ground (arith, result, ap (λ x. x.1.db.installations) h) in
      let agents : w'.db.agents ≡ w.db.agents = ground (arith, result, ap (λ x. x.1.db.agents) h) in
      (
        subst (λ is. find_installation client_id is ≡ some (new_row client_id agent_id label)) rows
            (find_installation-append client_id w.db.installations
              (new_row client_id agent_id label) fresh (text_eq_refl client_id)),
        known,
        agents,
      )

  module _ (R : Realm S) where
    created_for :
        (agent_id : Text) (label : Option Text) (product : Option Agent) (client : Text × Text)
        (w w' : World S)
        → for_product S R agent_id label product w ≡ (ok client, w')
        → (find_installation client.0 w'.db.installations ≡ some (new_row client.0 agent_id label))
          × (is_some (find_agent agent_id w'.db.agents) ≡ true)
    created_for agent_id label none client w w' h = cc
    created_for agent_id label (some product) client w w' h =
        let (made, w1, asked, h1) =
          bind-ran (on_web (create_keycloak_client S R agent_id label))
            (λ client. add_agent_installation S client.0 agent_id label >> pure client) w w' client
            h in
        let (_, w2, added, h2) =
          bind-ran (add_agent_installation S made.0 agent_id label) (λ _. pure made) w1 w' client
            h1 in
        let (row, known, agents) = add_agent_installation-ran made.0 agent_id label w1 w2 added in
        let same : made ≡ client = ok-eq made client (ap (λ x. x.0) h2) in
        let after : w2 ≡ w' = ap (λ x. x.1) h2 in
        (
          subst (λ c. find_installation c.0 w'.db.installations ≡ some (new_row c.0 agent_id label))
              same
              (subst
                (λ v.
                  find_installation made.0 v.db.installations
                  ≡ some (new_row made.0 agent_id label))
                after row),
          subst (λ v. is_some (find_agent agent_id v.db.agents) ≡ true) after
              (ap (λ as_. is_some (find_agent agent_id as_)) agents ∙ known),
        )

    -- Where create-installation gives a client_id and a secret, an installation of that client_id is
    -- stored, for this product, with this label and not revoked, and the product is registered.
    do_create_installation-stored :
        (agent_id : Text) (label : Option Text) (client : Text × Text) (w w' : World S)
        → do_create_installation S R agent_id label w ≡ (ok client, w')
        → (find_installation client.0 w'.db.installations ≡ some (new_row client.0 agent_id label))
          × (is_some (find_agent agent_id w'.db.agents) ≡ true)
    unfolding do_create_installation
    do_create_installation-stored agent_id label client w w' h =
        let (product, w1, got, h1) =
          bind-ran (get_agent S agent_id) (for_product S R agent_id label) w w' client h in
        created_for agent_id label product client w1 w' h1
