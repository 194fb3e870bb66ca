-- ===== src/Cli/Doctor/Checked.antt =====
-- A round of the doctor over the installations.
use pabel.Base.{◌≡◌, refl, ap, sym, ◌∙◌, Bool, true, false, not, ◌&&◌, ◌||◌, List, [], ◌∷◌, arith}
use mathlib.Core.Path.{subst}
use pabel.Base.{Text}
use pabel.Base.Exec.{Result, ok, err, ◌>>=◌}
use pabel.Base.Exec.Ran.{bind-ran}
use pabel.Failure.{Failure, auth_error, keycloak_unreachable, relay_error, os_error, other_error}
use pabel.Client.{Host, World}
use pabel.Client.AgentSession
use pabel.Installers.Disk.{FilePath, Machine, Files, Disk}
use pabel.Installers.Registry.{Installer}
use pabel.Cli.Shell.{Shell, Command, on_disk}
use pabel.Cli.Doctor.{
  hook_wiring_problem, credential_problem, check_credential, check_installations, verdict,
  unless_down,
}

module _ (M : Machine) (H : Host) (table : List (Text × Installer)) (dir : FilePath) where
  -- Every agent is wired and authenticates, one behind the other: from a state to the state after.
  pub data Checked : List Text → Shell H → Shell H → Type 0 where
    all_checked : (s : Shell H) → Checked [] s s
    checked :
        (agent : Text) (agents : List Text) (token : Text) (files : Files) (world : World H)
        (s s' : Shell H)
        → hook_wiring_problem M table agent dir s.files ≡ (ok false, files)
        → AgentSession.access_token H agent s.world ≡ (ok token, world)
        → Checked agents (record s { files = files; world = world }) s'
        → Checked (agent ∷ agents) s s'

  on_disk-ran :
      {A : Type 0} (m : Disk A) (s s1 : Shell H) (a : A)
      → on_disk m s ≡ (ok a, s1)
      → (files : Files) × (m s.files ≡ (ok a, files)) × (s1 ≡ record s { files = files })
  on_disk-ran m s s1 a h = ((m s.files).1, ap (λ x. (x.0, (m s.files).1)) h, sym (ap (λ x. x.1) h))

  pub ok-eq : {A : Type 0} {a b : A} → Path (Result Failure A) (ok a) (ok b) → a ≡ b
  ok-eq h = cc

  fine :
      (r : Result Failure Text)
      → unless_down H (verdict H r) ≡ ok (false, false)
      → (token : Text) × (r ≡ ok token)
  fine (ok token) h = (token, refl)
  fine (err (auth_error m)) h = cc
  fine (err (keycloak_unreachable m)) h = cc
  fine (err (relay_error m)) h = cc
  fine (err (os_error m)) h = cc
  fine (err (other_error m)) h = cc

  check_credential-answer :
      (agent : Text) (s : Shell H)
      → check_credential H false agent s ≡ (
        unless_down H (verdict H (AgentSession.access_token H agent s.world).0),
        record s { world = (AgentSession.access_token H agent s.world).1 },
      )
  unfolding check_credential credential_problem
  check_credential-answer agent s = refl

  -- a check that finds no problem, and finds Keycloak up
  check_credential-ok :
      (agent : Text) (s s' : Shell H) (answer : Bool × Bool)
      → check_credential H false agent s ≡ (ok answer, s')
      → answer.0 ≡ false
      → answer.1 ≡ false
      → (token : Text) × (world : World H) × (AgentSession.access_token H agent s.world
          ≡ (ok token, world))
        × (s' ≡ record s { world = world })
  check_credential-ok agent s s' (problem, down) h no_problem up =
      let outcome = AgentSession.access_token H agent s.world in
      let both = sym (check_credential-answer agent s) ∙ h in
      let answered : unless_down H (verdict H outcome.0) ≡ ok (problem, down) =
        ap (λ x. x.0) both in
      let (token, got) =
        fine outcome.0
          (answered ∙ ap (λ b. ok (b, down)) no_problem ∙ ap (λ b. ok (false, b)) up) in
      (token, outcome.1, ap (λ r. (r, outcome.1)) got, sym (ap (λ x. x.1) both))

  -- `checked`, with a state behind that is only equal to the one that is meant
  next-Checked :
      (agent : Text) (agents : List Text) (token : Text) (files : Files) (world : World H)
      (s s2 s' : Shell H)
      → hook_wiring_problem M table agent dir s.files ≡ (ok false, files)
      → AgentSession.access_token H agent s.world ≡ (ok token, world)
      → s2 ≡ record s { files = files; world = world }
      → Checked agents s2 s'
      → Checked (agent ∷ agents) s s'
  next-Checked agent agents token files world s s2 s' wiring authenticated s2_is rest =
      checked agent agents token files world s s' wiring authenticated
        (subst (λ x. Checked agents x s') s2_is rest)

  -- the rest of a round, behind the check of the wiring
  abbrev credential_round : List Text → Bool → Bool → Text → Bool → Command H Bool
  credential_round agents good down agent unwired = check_credential H down agent >>= λ answer.
      check_installations H M table dir agents (good && not (unwired || answer.0)) answer.1

  pub check_installations-Checked :
      (agents : List Text) (good down : Bool) (s s' : Shell H)
      → check_installations H M table dir agents good down s ≡ (ok true, s')
      → (good ≡ true) × (down ≡ false) × Checked agents s s'
  unfolding check_installations check_credential
  check_installations-Checked [] good down s s' h =
      let both : good && not down ≡ true = ok-eq (ap (λ x. x.0) h) in
      let same : s ≡ s' = ap (λ x. x.1) h in
      (ground (arith, both), ground (arith, both), subst (Checked [] s) same (all_checked s))
  check_installations-Checked (agent ∷ agents) good true s s' h =
      let (unwired, s1, wired, h1) =
        bind-ran (on_disk (hook_wiring_problem M table agent dir))
          (credential_round agents good true agent) s s' true h in
      let (answer, s2, credential, h2) =
        bind-ran (check_credential H true agent)
          (λ answer.
            check_installations H M table dir agents (good && not (unwired || answer.0)) answer.1)
          s1 s' true h1 in
      let (still, up, rest) =
        check_installations-Checked agents (good && not (unwired || answer.0)) answer.1 s2 s' h2 in
      let same : (false, true) ≡ answer = ok-eq (ap (λ x. x.0) credential) in
      let down : true ≡ answer.1 = ap (λ x. x.1) same in absurd (ground (arith, up, down))
  check_installations-Checked (agent ∷ agents) good false s s' h =
      let (unwired, s1, wired, h1) =
        bind-ran (on_disk (hook_wiring_problem M table agent dir))
          (credential_round agents good false agent) s s' true h in
      let (files, wiring, s1_is) =
        on_disk-ran (hook_wiring_problem M table agent dir) s s1 unwired wired in
      let h1' =
        subst (λ x. credential_round agents good false agent unwired x ≡ (ok true, s')) s1_is h1 in
      let t = record s { files = files } in
      let (answer, s2, credential, h2) =
        bind-ran (check_credential H false agent)
          (λ answer.
            check_installations H M table dir agents (good && not (unwired || answer.0)) answer.1)
          t s' true h1' in
      let (still, up, rest) =
        check_installations-Checked agents (good && not (unwired || answer.0)) answer.1 s2 s' h2 in
      let (token, world, authenticated, s2_is) =
        check_credential-ok agent t s2 answer credential (ground (arith, still)) up in
      (
        ground (arith, still),
        refl,
        next-Checked agent agents token files world s s2 s'
            (wiring ∙ ap (λ b. (ok b, files)) (ground (arith, still))) authenticated s2_is rest,
      )
