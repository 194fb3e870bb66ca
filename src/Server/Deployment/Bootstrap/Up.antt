-- ===== src/Server/Deployment/Bootstrap/Up.antt =====
-- What stands behind a bootstrap that succeeds.
use pabel.Base.{ℕ, zero, suc, ◌≡◌, ◌≢◌, refl, sym, ap, ◌∙◌, Bool, true, false, Option, none, some}
use pabel.Base.{List, [], ◌∷◌, Text, codes, arith, ◌≤◌}
use mathlib.Core.Option.{some-injective}
use pabel.Base.Exec.{ok, pure, ◌>>=◌}
use pabel.Base.Exec.Ran.{bind-ran, lift-ran, ok-eq}
use pabel.Server.{Services}
use pabel.Server.Env.{require}
use pabel.Server.Db.{init_schema}
use pabel.Server.Deployment.{
  Desk, Deploy, Rounds, done, out_of_fuel, in_web, in_service, compose, run_nerdctl,
  wait_for_keycloak,
}
use pabel.Server.Deployment.Wait.{Clock, Served, wait_for_keycloak-Served, wait_for_keycloak-ends}
use pabel.Server.GenerateRealm.{generate_realm, find_all, is_word}
use pabel.Server.GenerateRealm.Filled.{generate_realm-ran}
use pabel.Server.SetupUserProfile.{setup_user_profile}
use pabel.Server.Deployment.Bootstrap.{start, set_up, cmd_bootstrap, needed}

module _ (S : Services) (D : Deploy S) where
  compose-realm_file :
      (check : Bool) (args : List Text) (d d' : Desk S)
      → compose S D check args d ≡ (ok tt, d')
      → d'.realm_file ≡ d.realm_file
  unfolding compose run_nerdctl
  compose-realm_file check args d d' h = ground (arith, h)

  start-realm_file :
      (skip : Bool) (d d' : Desk S) → start S D skip d ≡ (ok tt, d') → d'.realm_file ≡ d.realm_file
  unfolding start
  start-realm_file true d d' h = sym (ap (λ x. x.1.realm_file) h)
  start-realm_file false d d' h = compose-realm_file true (codes "up" ∷ codes "-d" ∷ []) d d' h

  abbrev authority : List Text
  authority =
      codes "exec"
      ∷ codes "-T"
      ∷ codes "mcp-server"
      ∷ codes "python"
      ∷ codes "-c"
      ∷ codes "import abe; abe.setup_authority()"
      ∷ []

  set_up-ran :
      (code : Option ℕ) (d d' : Desk S)
      → set_up S D done d ≡ (ok code, d')
      → (code ≡ some 0) × (d'.realm_file ≡ d.realm_file)
  unfolding set_up
  set_up-ran code d d' h =
      let last = λ (_ : Unit). compose S D true authority >>= λ (_ : Unit). pure (some 0) in
      let (_, d1, profile, h1) =
        bind-ran (in_web (setup_user_profile S D.realm)) (λ _. in_service (init_schema S) >>= last)
          d d' code h in
      let (_, d2, schema, h2) = bind-ran (in_service (init_schema S)) last d1 d' code h1 in
      let (_, d3, composed, h3) =
        bind-ran (compose S D true authority) (λ _. pure (some 0)) d2 d' code h2 in
      (
        sym (ok-eq (some 0) code (ap (λ x. x.0) h3)),
        sym (ap (λ x. x.1.realm_file) h3)
            ∙ compose-realm_file true authority d2 d3 composed
            ∙ sym (ap (λ x. x.1.realm_file) schema)
            ∙ sym (ap (λ x. x.1.realm_file) profile),
      )

  set_up-done :
      (waited : Rounds) (code : ℕ) (d d' : Desk S)
      → set_up S D waited d ≡ (ok (some code), d')
      → (waited ≡ done) × (code ≡ 0) × (d'.realm_file ≡ d.realm_file)
  unfolding set_up
  set_up-done out_of_fuel code d d' h = cc
  set_up-done done code d d' h =
      let (zero_, same) = set_up-ran (some code) d d' h in (refl, some-injective code 0 zero_, same)

  -- the steps of a bootstrap that came to its end
  record Steps (fuel : ℕ) (skip : Bool) (code : Option ℕ) (d d' : Desk S) : Type 0 where
    d1 : Desk S
    d2 : Desk S
    d3 : Desk S
    waited : Rounds
    generated : generate_realm S D d ≡ (ok tt, d1)
    started : start S D skip d1 ≡ (ok tt, d2)
    wait : in_web (wait_for_keycloak S D fuel 180) d2 ≡ (ok waited, d3)
    finished : set_up S D waited d3 ≡ (ok code, d')

  cmd_bootstrap-Steps :
      (fuel : ℕ) (skip : Bool) (code : Option ℕ) (d d' : Desk S)
      → cmd_bootstrap S D fuel skip d ≡ (ok code, d')
      → Steps fuel skip code d d'
  unfolding cmd_bootstrap
  cmd_bootstrap-Steps fuel skip code d d' h =
      let begin = λ (_ : Unit).
        start S D skip >>= λ (_ : Unit). in_web (wait_for_keycloak S D fuel 180) >>= set_up S D in
      let (values, given, h1) =
        lift-ran (require D.realm.is_space D.realm.env_lines needed D.realm.environ).0
          (λ values. generate_realm S D >>= begin) d d' code h in
      let (_, d1, generated, h2) = bind-ran (generate_realm S D) begin d d' code h1 in
      let (_, d2, started, h3) =
        bind-ran (start S D skip) (λ _. in_web (wait_for_keycloak S D fuel 180) >>= set_up S D) d1
          d' code h2 in
      let (waited, d3, wait, h4) =
        bind-ran (in_web (wait_for_keycloak S D fuel 180)) (set_up S D) d2 d' code h3 in
      record {
        d1 = d1;
        d2 = d2;
        d3 = d3;
        waited = waited;
        generated = generated;
        started = started;
        wait = wait;
        finished = h4;
      }

  -- the exit code, a realm file without placeholders, and a probe of the realm that was answered
  -- behind the generation of that file and the start of the containers
  abbrev pub Up : ℕ → Bool → Desk S → Desk S → Type 0
  Up code skip d d' =
      (code ≡ 0)
      × ((text : Text) × (d'.realm_file ≡ some text) × (find_all (is_word S D) zero text ≡ []))
      × ((d1 : Desk S) × (d2 : Desk S) × (generate_realm S D d ≡ (ok tt, d1))
          × (start S D skip d1 ≡ (ok tt, d2))
          × Served S D d2.world.outside)

  -- Where bootstrap gives an exit code, it is 0; a realm file is there in which no placeholder is
  -- found; and, from the state in which generating that file and starting the containers have left
  -- the machine, one of the probes of the page of REALM at KEYCLOAK_URL was answered with 200.
  pub cmd_bootstrap-Up :
      (fuel code : ℕ) (skip : Bool) (d d' : Desk S)
      → cmd_bootstrap S D fuel skip d ≡ (ok (some code), d')
      → Up code skip d d'
  cmd_bootstrap-Up fuel code skip d d' h =
      let s = cmd_bootstrap-Steps fuel skip (some code) d d' h in
      let (was_done, zero_, same) = set_up-done s.waited code s.d3 d' s.finished in
      let (text, file, nothing_left) = generate_realm-ran S D d s.d1 s.generated in
      let kept : d'.realm_file ≡ s.d1.realm_file =
        same ∙ sym (ap (λ x. x.1.realm_file) s.wait) ∙ start-realm_file skip s.d1 s.d2 s.started in
      (
        zero_,
        (text, kept ∙ file, nothing_left),
        (
          s.d1,
          s.d2,
          s.generated,
          s.started,
          wait_for_keycloak-Served S D fuel 180 s.d2.world.outside
              (ap (λ x. x.0) s.wait ∙ ap ok was_done),
        ),
      )

  no_fuel :
      (waited : Rounds) (d d' : Desk S) → set_up S D waited d ≡ (ok none, d') → waited ≡ out_of_fuel
  unfolding set_up
  no_fuel out_of_fuel d d' h = refl
  no_fuel done d d' h = absurd (cc ((set_up-ran none d d' h).0))

  -- Where the clock is not set back and a sleep takes its time, a bootstrap of 61 rounds or more ends:
  -- with an exit code or with an exception.
  pub cmd_bootstrap-ends :
      (C : Clock S D) (k : ℕ) (skip : Bool) (d : Desk S)
      → 60 ≤ k
      → (cmd_bootstrap S D (suc k) skip d).0 ≢ ok none
  cmd_bootstrap-ends C k skip d enough e =
      let d' = (cmd_bootstrap S D (suc k) skip d).1 in
      let s = cmd_bootstrap-Steps (suc k) skip none d d' (ap (λ r. (r, d')) e) in
      wait_for_keycloak-ends S D C k 180 s.d2.world.outside (omega (arith, enough))
        (ap (λ x. x.0) s.wait ∙ ap ok (no_fuel s.waited s.d3 d' s.finished))
