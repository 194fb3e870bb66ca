-- ===== src/Server/Deployment/Bootstrap.antt =====
-- server/admin.py: `bootstrap`.
pub mod Up
use pabel.Base.{ℕ, zero, suc, Bool, true, false, ◌&&◌, not, Option, none, some, List, [], ◌∷◌, ◌++◌}
use pabel.Base.{Text, codes, nat_beq, if◌then◌else◌}
use pabel.Base.Exec.{Result, ok, err, lift, pure, raise, ◌>>=◌, ◌>>◌}
use pabel.Server.{Services, Failure, other_error, foreign}
use pabel.Server.Env.{require}
use pabel.Server.Db.{init_schema}
use pabel.Server.Deployment.{
  Desk, Deploy, Command, Rounds, done, out_of_fuel, in_service, in_web, compose, wait_for_keycloak,
}
use pabel.Server.GenerateRealm.{generate_realm}
use pabel.Server.SetupUserProfile.{setup_user_profile}

-- the variables that are asked for before anything is done
abbrev pub needed : List Text
needed =
    codes "KEYCLOAK_URL"
    ∷ codes "REALM"
    ∷ codes "KC_BOOTSTRAP_ADMIN_USERNAME"
    ∷ codes "KC_BOOTSTRAP_ADMIN_PASSWORD"
    ∷ codes "POSTGRES_USER"
    ∷ codes "POSTGRES_PASSWORD"
    ∷ codes "POSTGRES_DB"
    ∷ codes "ALICE_PASSWORD"
    ∷ codes "BOB_PASSWORD"
    ∷ codes "CHARLIE_PASSWORD"
    ∷ []

module _ (S : Services) (D : Deploy S) where
  unfoldable pub start : Bool → Command S (Unit {0})
  start skip_compose =
      if skip_compose then pure tt else compose S D true (codes "up" ∷ codes "-d" ∷ [])

  -- the steps behind the wait
  unfoldable pub set_up : Rounds → Command S (Option ℕ)
  unfolding setup_user_profile init_schema
  set_up out_of_fuel = pure none
  set_up done = do
    in_web (setup_user_profile S D.realm)
    in_service (init_schema S)
    compose S D true (
        codes "exec"
        ∷ codes "-T"
        ∷ codes "mcp-server"
        ∷ codes "python"
        ∷ codes "-c"
        ∷ codes "import abe; abe.setup_authority()"
        ∷ [])
    pure (some 0)

  -- the exit code, if the wait ends within so many rounds
  unfoldable pub cmd_bootstrap : ℕ → Bool → Command S (Option ℕ)
  unfolding require generate_realm start wait_for_keycloak set_up
  cmd_bootstrap fuel skip_compose = do
    values ← lift (require D.realm.is_space D.realm.env_lines needed D.realm.environ).0
    generate_realm S D
    start skip_compose
    waited ← in_web (wait_for_keycloak S D fuel 180)
    set_up waited
