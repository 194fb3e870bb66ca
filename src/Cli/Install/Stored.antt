-- ===== src/Cli/Install/Stored.antt =====
-- When an installation stores a credential.
use pabel.Base.{
  ◌≡◌, ◌⊎◌, refl, ap, sym, ◌∙◌, ℕ, Bool, true, false, ◌||◌, Option, none, some, List, [], ◌∷◌, inl,
  inr,
}
use pabel.Base.{Text, is_empty, strip, if◌then◌else◌}
use pabel.Base.Exec.{Result, ok, pure, proceed, ◌>>=◌, ◌>>◌}
use pabel.Base.Exec.Ran.{bind-ran, ok-eq}
use pabel.Client.{Host}
use pabel.Client.AgentSession.{store_credentials}
use pabel.Failure.{Failure}
use pabel.Installers.Disk.{FilePath, Machine}
use pabel.Installers.Registry.{Installer}
use pabel.Cli.Scope.{given}
use pabel.Cli.Shell.{Shell, on_disk, in_client, input, getpass, line_of, secret_of}
use pabel.Cli.Install.{install_one, or_asked}

module _ (M : Machine) (H : Host) where
  result : (a b : ℕ) → Path (Result Failure ℕ) (ok a) (ok b) → a ≡ b
  result a b h = cc

  -- what an argument gives, or else the first text that is typed, without the space around it
  abbrev pub chosen : Option Text → List Text → Option Text
  chosen (some t) typed = some t
  chosen none [] = none
  chosen none (t ∷ ts) = some (strip M.is_space t)

  typed_line :
      (ts : List Text) (s s' : Shell H) (t : Text)
      → proceed (λ u. pure (strip M.is_space u)) (line_of s ts) ≡ (ok t, s')
      → (chosen none ts ≡ some t) × (s'.secrets ≡ s.secrets) × (s'.world ≡ s.world)
  typed_line [] s s' t h = cc
  typed_line (l ∷ ls) s s' t h = (
    ap some (ok-eq (strip M.is_space l) t (ap (λ x. x.0) h)),
    sym (ap (λ x. x.1.secrets) h),
    sym (ap (λ x. x.1.world) h),
  )

  asked_line :
      (o : Option Text) (s s' : Shell H) (t : Text)
      → or_asked M H o input s ≡ (ok t, s')
      → (chosen o s.lines ≡ some t) × (s'.secrets ≡ s.secrets) × (s'.world ≡ s.world)
  asked_line none s s' t h = typed_line s.lines s s' t h
  asked_line (some v) s s' t h = (
    ap some (ok-eq v t (ap (λ x. x.0) h)),
    sym (ap (λ x. x.1.secrets) h),
    sym (ap (λ x. x.1.world) h),
  )

  typed_secret :
      (ts : List Text) (s s' : Shell H) (t : Text)
      → proceed (λ u. pure (strip M.is_space u)) (secret_of s ts) ≡ (ok t, s')
      → (chosen none ts ≡ some t) × (s'.world ≡ s.world)
  typed_secret [] s s' t h = cc
  typed_secret (l ∷ ls) s s' t h =
      (ap some (ok-eq (strip M.is_space l) t (ap (λ x. x.0) h)), sym (ap (λ x. x.1.world) h))

  asked_secret :
      (o : Option Text) (s s' : Shell H) (t : Text)
      → or_asked M H o getpass s ≡ (ok t, s')
      → (chosen o s.secrets ≡ some t) × (s'.world ≡ s.world)
  asked_secret none s s' t h = typed_secret s.secrets s s' t h
  asked_secret (some v) s s' t h =
      (ap some (ok-eq v t (ap (λ x. x.0) h)), sym (ap (λ x. x.1.world) h))

  -- this credential is stored, or it is not whole and nothing is
  abbrev pub Settled : Text → Text → Text → ℕ → Shell H → Shell H → Type 0
  Settled agent id secret rc s s' =
      ((rc ≡ 0)
        × (is_empty id ≡ false)
        × (is_empty secret ≡ false)
        × (s'.world ≡ (store_credentials H agent id secret s.world).1))
      ⊎ ((rc ≡ 2) × ((is_empty id || is_empty secret) ≡ true) × (s'.world ≡ s.world))

  -- the last step, from a state whose world is the first one
  finished-Settled :
      (agent id secret : Text) (rc : ℕ) (s s1 s' : Shell H)
      → s1.world ≡ s.world
      → (if is_empty id || is_empty secret
            then pure 2
            else (in_client (store_credentials H agent id secret) >> pure 0))
          s1
        ≡ (ok rc, s')
      → Settled agent id secret rc s s'
  unfolding store_credentials
  finished-Settled agent [] secret rc s s1 s' same h =
      inr (sym (result 2 rc (ap (λ x. x.0) h)), refl, sym (ap (λ x. x.1.world) h) ∙ same)
  finished-Settled agent (c ∷ id) [] rc s s1 s' same h =
      inr (sym (result 2 rc (ap (λ x. x.0) h)), refl, sym (ap (λ x. x.1.world) h) ∙ same)
  finished-Settled agent (c ∷ id) (d ∷ secret) rc s s1 s' same h = inl (
    sym (result 0 rc (ap (λ x. x.0) h)),
    refl,
    refl,
    sym (ap (λ x. x.1.world) h)
        ∙ ap (λ w. (store_credentials H agent (c ∷ id) (d ∷ secret) w).1) same,
  )

  -- the client_id and the secret that are chosen, and what becomes of them
  abbrev pub Outcome : Text → Option Text → Option Text → ℕ → Shell H → Shell H → Type 0
  Outcome agent client_id client_secret rc s s' =
      (id : Text) × (secret : Text) × (chosen (given client_id) s.lines ≡ some id)
      × (chosen (given client_secret) s.secrets ≡ some secret)
      × Settled agent id secret rc s s'

  -- An installation that ends with an exit code has a client_id and a secret, each the argument where
  -- that is not empty and else the first answer that is typed, stripped. It ends with 0 where neither
  -- is empty, and that client_id with that secret is stored for the agent; and it ends with 2 where
  -- one is empty, and what the connector keeps is as it was.
  pub install_one-stored :
      (agent : Text) (i : Installer) (dir : FilePath) (g : Bool)
      (client_id client_secret : Option Text) (rc : ℕ) (s s' : Shell H)
      → install_one M H agent i dir g client_id client_secret s ≡ (ok rc, s')
      → Outcome agent client_id client_secret rc s s'
  unfolding install_one
  install_one-stored agent i dir g client_id client_secret rc s s' h =
      let finish = λ (id secret : Text).
        if is_empty id || is_empty secret
        then pure 2
        else (in_client (store_credentials H agent id secret) >> pure 0) in
      let after_id = λ (id : Text). or_asked M H (given client_secret) getpass >>= finish id in
      let (_, s1, done, h1) =
        bind-ran (on_disk (i.install dir g))
          (λ _. or_asked M H (given client_id) input >>= after_id) s s' rc h in
      let (id, s2, id_is, h2) =
        bind-ran (or_asked M H (given client_id) input) after_id s1 s' rc h1 in
      let (secret, s3, secret_is, h3) =
        bind-ran (or_asked M H (given client_secret) getpass) (finish id) s2 s' rc h2 in
      let (id_chosen, secrets, same_id) = asked_line (given client_id) s1 s2 id id_is in
      let (secret_chosen, same_secret) =
        asked_secret (given client_secret) s2 s3 secret secret_is in
      (
        id,
        secret,
        ap (chosen (given client_id)) (ap (λ x. x.1.lines) done) ∙ id_chosen,
        ap (chosen (given client_secret)) (ap (λ x. x.1.secrets) done ∙ sym secrets)
            ∙ secret_chosen,
        finished-Settled agent id secret rc s s3 s'
            (same_secret ∙ same_id ∙ sym (ap (λ x. x.1.world) done)) h3,
      )
