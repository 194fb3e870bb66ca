-- ===== src/Server/Deployment/Menu/Readers.antt =====
-- No command of the menu puts a typed line back.
use pabel.Base.{ℕ, zero, Bool, true, false, Option}
use pabel.Base.{none, some, List, [], ◌∷◌, arith, if◌then◌else◌}
use pabel.Base.{Text, codes}
use pabel.Base.Exec.{lift, pure, modify, ◌>>=◌}
use pabel.Server.{Services}
use pabel.Server.Env.{require}
use pabel.Server.Db.{init_schema}
use pabel.Server.Onboard.{cmd_onboard}
use pabel.Server.SetupUserProfile.{setup_user_profile}
use pabel.Server.GenerateRealm.{
  generate_realm, fill_template, written, fill, find_all, is_word, names, given_values, file_of,
}
use pabel.Server.Deployment.{
  Desk, Deploy, Command, Rounds, done, out_of_fuel, in_service, in_web, compose, wait_for_keycloak,
}
use pabel.Server.Deployment.Bootstrap.{cmd_bootstrap, start, set_up, needed}
use pabel.Server.Deployment.Teardown.{
  cmd_teardown, teardown_client, uninstall_agents, uninstall_each, run_connector, agents_of,
}
use pabel.Server.Deployment.Menu.{
  ask_for, onboard_as, menu_onboard, grant_to, menu_grant, menu_teardown, is_destroy, destroy,
  means_yes,
}
use pabel.Server.Deployment.Menu.Reads.{
  Reader, bind-Reader, if-Reader, lift-Reader, pure-Reader, compose-Reader, ask_for-Reader,
}

module _ (S : Services) (D : Deploy S) where
  uninstall_each-Reader :
      (connector : Text) (agents : List Text) → Reader S D (uninstall_each S D connector agents)
  unfolding uninstall_each
  uninstall_each-Reader connector [] = pure-Reader S D tt
  uninstall_each-Reader connector (a ∷ agents) =
      bind-Reader S D (in_web (run_connector S D connector (codes "uninstall" ∷ a ∷ []))) _
        (λ d. omega arith) (λ rc. uninstall_each-Reader connector agents)

  uninstall_agents-Reader :
      (connector : Option Text) (agents : List Text)
      → Reader S D (uninstall_agents S D connector agents)
  unfolding uninstall_agents
  uninstall_agents-Reader none agents = pure-Reader S D tt
  uninstall_agents-Reader (some connector) agents = uninstall_each-Reader connector agents

  teardown_client-Reader : Reader S D (teardown_client S D)
  unfolding teardown_client
  teardown_client-Reader d =
      let forget = λ (_ : Unit).
        modify (λ (x : Desk S). record x { credentials = none; client_session = false }) in
      let agents = agents_of S D d.credentials in
      bind-Reader S D (lift agents) (λ as_. uninstall_agents S D D.connector as_ >>= forget)
        (lift-Reader S D agents)
        (λ as_.
          bind-Reader S D (uninstall_agents S D D.connector as_) forget
            (uninstall_agents-Reader D.connector as_) (λ u e. omega arith))
        d

  cmd_teardown-Reader :
      (confirmed include_client : Bool) → Reader S D (cmd_teardown S D confirmed include_client)
  unfolding cmd_teardown
  cmd_teardown-Reader false include_client = (λ d. omega arith)
  cmd_teardown-Reader true include_client =
      let remove = λ (x : Desk S). record x { authority = []; realm_file = none } in
      let client = if include_client then teardown_client S D else pure tt in
      let finish : Unit → Command S ℕ = λ u. client >>= λ (_ : Unit). pure 0 in
      bind-Reader S D (compose S D false (codes "down" ∷ codes "-v" ∷ []))
        (λ (_ : Unit). modify remove >>= finish)
        (compose-Reader S D false (codes "down" ∷ codes "-v" ∷ []))
        (λ u.
          bind-Reader S D (modify remove) finish (λ d. omega arith)
            (λ v.
              bind-Reader S D client (λ _. pure 0)
                (if-Reader S D include_client (teardown_client S D) (pure tt) teardown_client-Reader
                  (λ d. omega arith))
                (λ x d. omega arith)))

  init_Reader : Reader S D (in_service (init_schema S))
  init_Reader d = omega arith

  start-Reader : (skip : Bool) → Reader S D (start S D skip)
  unfolding start
  start-Reader skip =
      if-Reader S D skip (pure tt) (compose S D true (codes "up" ∷ codes "-d" ∷ []))
        (pure-Reader S D tt) (compose-Reader S D true (codes "up" ∷ codes "-d" ∷ []))

  set_up-Reader : (waited : Rounds) → Reader S D (set_up S D waited)
  unfolding set_up
  set_up-Reader out_of_fuel = λ d. omega arith
  set_up-Reader done =
      bind-Reader S D (in_web (setup_user_profile S D.realm)) _ (λ d. omega arith)
        (λ u. bind-Reader S D (in_service (init_schema S)) _ init_Reader (λ v.
          bind-Reader S D (compose S D true _) _ (compose-Reader S D true _) (λ x d. omega arith)))

  written-Reader : (text : Text) (left_over : List Text) → Reader S D (written S D text left_over)
  unfolding written
  written-Reader text [] d = omega arith
  written-Reader text (n ∷ ns) d = omega arith

  generate_realm-Reader : Reader S D (generate_realm S D)
  unfolding generate_realm fill_template
  generate_realm-Reader =
      bind-Reader S D (lift (given_values S D)) _ (lift-Reader S D (given_values S D)) (λ vs e.
        bind-Reader S D (lift (file_of e.template)) (fill_template S D vs)
          (lift-Reader S D (file_of e.template))
          (λ text.
            written-Reader (fill names vs text) (find_all (is_word S D) zero (fill names vs text)))
          e)

  pub cmd_bootstrap-Reader : (rounds : ℕ) (skip : Bool) → Reader S D (cmd_bootstrap S D rounds skip)
  unfolding cmd_bootstrap
  cmd_bootstrap-Reader rounds skip =
      let bootstrap_values =
        (require D.realm.is_space D.realm.env_lines needed D.realm.environ).0 in
      bind-Reader S D (lift bootstrap_values) _ (lift-Reader S D bootstrap_values) (λ vs.
        bind-Reader S D (generate_realm S D) _ generate_realm-Reader (λ u.
          bind-Reader S D (start S D skip) _ (start-Reader skip) (λ v.
            bind-Reader S D (in_web (wait_for_keycloak S D rounds 180)) _ (λ d. omega arith)
              set_up-Reader)))

  onboard_as-Reader : (agent_id : Option Text) → Reader S D (onboard_as S D agent_id)
  unfolding onboard_as
  onboard_as-Reader none = pure-Reader S D tt
  onboard_as-Reader (some agent_id) =
      bind-Reader S D (ask_for S D (some agent_id)) _ (ask_for-Reader S D (some agent_id)) (λ n.
        bind-Reader S D (ask_for S D none) _ (ask_for-Reader S D none) (λ l.
          bind-Reader S D (ask_for S D none) _ (ask_for-Reader S D none) (λ g.
            bind-Reader S D (in_service (cmd_onboard S D.realm agent_id n l g)) _ (λ d. omega arith)
              (λ c. pure-Reader S D tt))))

  pub menu_onboard-Reader : Reader S D (menu_onboard S D)
  unfolding menu_onboard
  menu_onboard-Reader =
      bind-Reader S D (ask_for S D none) _ (ask_for-Reader S D none) onboard_as-Reader

  grant_to-Reader : (agent_id to : Option Text) → Reader S D (grant_to S D agent_id to)
  unfolding grant_to
  grant_to-Reader none to d = omega arith
  grant_to-Reader (some agent_id) none d = omega arith
  grant_to-Reader (some agent_id) (some to) d = omega arith

  pub menu_grant-Reader : Reader S D (menu_grant S D)
  unfolding menu_grant
  menu_grant-Reader = bind-Reader S D (ask_for S D none) _ (ask_for-Reader S D none) (λ agent_id.
      bind-Reader S D (ask_for S D none) _ (ask_for-Reader S D none) (grant_to-Reader agent_id))

  destroy-Reader :
      (include_client word : Option Text) → Reader S D (destroy S D include_client word)
  unfolding destroy
  destroy-Reader include_client word =
      let confirmed : Command S (Unit {0}) =
        cmd_teardown S D true (means_yes include_client) >>= λ (_ : ℕ). pure tt in
      if-Reader S D (is_destroy word) confirmed (pure tt)
        (bind-Reader S D (cmd_teardown S D true (means_yes include_client)) (λ _. pure tt)
          (cmd_teardown-Reader true (means_yes include_client)) (λ code d. omega arith))
        (λ d. omega arith)

  pub menu_teardown-Reader : Reader S D (menu_teardown S D)
  unfolding menu_teardown
  menu_teardown-Reader =
      let word = λ (client : Option Text). ask_for S D none >>= destroy S D client in
      bind-Reader S D (cmd_teardown S D false false) (λ _. ask_for S D (some (codes "n")) >>= word)
        (cmd_teardown-Reader false false)
        (λ shown.
          bind-Reader S D (ask_for S D (some (codes "n"))) word
            (ask_for-Reader S D (some (codes "n")))
            (λ client.
              bind-Reader S D (ask_for S D none) (destroy S D client) (ask_for-Reader S D none)
                (destroy-Reader client)))
