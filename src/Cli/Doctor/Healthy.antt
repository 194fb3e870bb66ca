-- ===== src/Cli/Doctor/Healthy.antt =====
-- What exit code 0 of the doctor says.
use pabel.Base.{
  ◌≡◌, ◌≢◌, refl, ap, sym, ◌∙◌, ℕ, Bool, true, false, ◌&&◌, List, [], ◌∷◌, arith, inl, inr,
  Bool-cases,
}
use mathlib.Core.Path.{subst}
use pabel.Base.{Text, if◌then◌else◌}
use pabel.Base.Exec.{Result, ok, err, attempt, lift, pure, ◌>>=◌}
use pabel.Base.Exec.Ran.{bind-ran}
use pabel.Failure.{Failure, is_auth_error}
use pabel.Client.{Host, World}
use pabel.Client.Session
use pabel.Installers.Disk.{FilePath, Machine}
use pabel.Installers.CodexFamily.{shared_env_vars}
use pabel.Installers.Registry.{Installer}
use pabel.Cli.Shell.{Shell, in_client}
use pabel.Cli.Doctor.Checked.{Checked, ok-eq, check_installations-Checked}
use pabel.Cli.Doctor.{installations, env_ok, cmd_doctor, login_ok, check_agents, after_login}

module _ (M : Machine) (H : Host) (table : List (Text × Installer)) (dir : FilePath) where
  -- what is known of a machine that the doctor calls healthy
  pub record Healthy (s s' : Shell H) : Type 0 where
    pub token : Text
    pub world : World H
    pub env_set : env_ok M shared_env_vars ≡ true
    pub logged_in : Session.access_token H s.world ≡ (ok token, world)
    pub installed : installations world.credentials ≢ []
    pub each :
        Checked M H table dir (installations world.credentials) (record s { world = world }) s'

  code-zero : (b : Bool) → Path ℕ (if b then 0 else 1) 0 → b ≡ true
  code-zero true h = refl
  code-zero false h = absurd (omega (arith, h))

  check_agents-Checked :
      (agents : List Text) (good : Bool) (s s' : Shell H)
      → check_agents H M table dir agents good s ≡ (ok true, s')
      → (good ≡ true) × (agents ≢ []) × Checked M H table dir agents s s'
  check_agents-Checked [] good s s' h = cc
  check_agents-Checked (agent ∷ agents) good s s' h =
      let (fine, _, each) =
        check_installations-Checked M H table dir (agent ∷ agents) good false s s' h in
      (fine, λ e. cc, each)

  after_login-Checked :
      (logged_in : Bool) (s s' : Shell H)
      → after_login H M table dir logged_in s ≡ (ok 0, s')
      → (env_ok M shared_env_vars ≡ true)
        × (logged_in ≡ true)
        × (installations s.world.credentials ≢ [])
        × Checked M H table dir (installations s.world.credentials) s s'
  after_login-Checked logged_in s s' h =
      let agents = installations s.world.credentials in
      let (healthy, s1, c, h1) =
        bind-ran (check_agents H M table dir agents (env_ok M shared_env_vars && logged_in))
          (λ healthy. pure (if healthy then 0 else 1)) s s' 0 h in
      let is_healthy : healthy ≡ true =
        code-zero healthy (ok-eq M H table dir (ap (λ x. x.0) h1)) in
      let (good, some_, each) =
        check_agents-Checked agents (env_ok M shared_env_vars && logged_in) s s'
          (c ∙ ap (λ b. (ok b, s1)) is_healthy ∙ ap (λ x. (ok true, x)) (ap (λ x. x.1) h1)) in
      (ground (arith, good), ground (arith, good), some_, each)

  logged_in-token :
      (r : Result Failure Text) → login_ok H r ≡ ok true → (token : Text) × (r ≡ ok token)
  logged_in-token (ok token) h = (token, refl)
  logged_in-token (err e) h = elim (Bool-cases (is_auth_error e)) [
    | inl caught ↦ absurd (ground (arith, caught))
    | inr raised ↦ absurd (ground (arith, raised))
  ]

  session-Healthy :
      (token : Text) (world : World H) (s s2 s' : Shell H)
      → env_ok M shared_env_vars ≡ true
      → Session.access_token H s.world ≡ (ok token, world)
      → s2 ≡ record s { world = world }
      → installations s2.world.credentials ≢ []
      → Checked M H table dir (installations s2.world.credentials) s2 s'
      → Healthy s s'
  session-Healthy token world s s2 s' env_set logged_in s2_is some_ each =
      let (installed, every) =
        subst
          (λ x.
            (installations x.world.credentials ≢ [])
            × Checked M H table dir (installations x.world.credentials) x s')
          s2_is (some_, each) in
      record {
        token = token;
        world = world;
        env_set = env_set;
        logged_in = logged_in;
        installed = installed;
        each = every;
      }

  -- The doctor's exit code is 0 only if every shared variable is set, the user's session gives a
  -- token, at least one installation is stored, and each of them, one behind the other, has no
  -- problem in its wiring and gets a token with its credential.
  pub cmd_doctor-Healthy : (s s' : Shell H) → cmd_doctor H M table dir s ≡ (ok 0, s') → Healthy s s'
  unfolding cmd_doctor
  cmd_doctor-Healthy s s' h =
      let (outcome, s1, session, h1) =
        bind-ran (attempt (in_client (Session.access_token H)))
          (λ outcome. lift (login_ok H outcome) >>= after_login H M table dir) s s' 0 h in
      let (logged_in, s2, answered, h2) =
        bind-ran (lift (login_ok H outcome)) (after_login H M table dir) s1 s' 0 h1 in
      let (env_set, is_in, some_, each) = after_login-Checked logged_in s2 s' h2 in
      let world = (Session.access_token H s.world).1 in
      let (token, got) = logged_in-token outcome (ap (λ x. x.0) answered ∙ ap ok is_in) in
      let s2_is : s2 ≡ record s { world = world } =
        sym (ap (λ x. x.1) answered) ∙ sym (ap (λ x. x.1) session) in
      session-Healthy token world s s2 s' env_set
        (ap (λ r. (r, world)) (ok-eq M H table dir (ap (λ x. x.0) session) ∙ got)) s2_is some_ each
