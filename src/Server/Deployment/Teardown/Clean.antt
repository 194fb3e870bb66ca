-- ===== src/Server/Deployment/Teardown/Clean.antt =====
-- What a teardown leaves.
use mathlib.Core.Path.{subst}
use pabel.Base.{
  ℕ, ◌≡◌, refl, sym, ap, ◌∙◌, ◌⊎◌, inl, inr, Bool, true, false, Option, none, some, List,
}
use pabel.Base.{Text, [], ◌∷◌, codes, if◌then◌else◌}
use pabel.Base.Exec.{ok, pure, modify, ◌>>=◌}
use pabel.Base.Exec.Ran.{bind-ran, lift-ran, ok-eq}
use pabel.Server.{Services}
use pabel.Server.Deployment.{Desk, Deploy, in_web, compose, run_nerdctl}
use pabel.Server.Deployment.Teardown.{
  uninstall_each, uninstall_agents, teardown_client, cmd_teardown, run_connector, agents_of,
}

-- neither the ABE authority nor the generated realm is left
abbrev pub ServerGone : {S : Services} → Desk S → Type 0
ServerGone d = (d.authority ≡ []) × (d.realm_file ≡ none)

-- the client's files: gone, or as they were
abbrev pub ClientGone : {S : Services} → Bool → Desk S → Desk S → Type 0
ClientGone true d d' = (d'.credentials ≡ none) × (d'.client_session ≡ false)
ClientGone false d d' = (d'.credentials ≡ d.credentials) × (d'.client_session ≡ d.client_session)

module _ (S : Services) (D : Deploy S) where
  -- what runs of the connector do not change
  abbrev Same : Desk S → Desk S → Type 0
  Same d d' = (d'.authority ≡ d.authority) × (d'.realm_file ≡ d.realm_file)

  uninstall_each-Same :
      (connector : Text) (agents : List Text) (d d' : Desk S)
      → uninstall_each S D connector agents d ≡ (ok tt, d')
      → Same d d'
  unfolding uninstall_each
  uninstall_each-Same connector [] d d' h =
      (sym (ap (λ x. x.1.authority) h), sym (ap (λ x. x.1.realm_file) h))
  uninstall_each-Same connector (a ∷ agents) d d' h =
      let (rc, d1, ran, h1) =
        bind-ran (in_web (run_connector S D connector (codes "uninstall" ∷ a ∷ [])))
          (λ rc. uninstall_each S D connector agents) d d' tt h in
      let (authority, realm_file) = uninstall_each-Same connector agents d1 d' h1 in
      (
        authority ∙ sym (ap (λ x. x.1.authority) ran),
        realm_file ∙ sym (ap (λ x. x.1.realm_file) ran),
      )

  uninstall_agents-Same :
      (connector : Option Text) (agents : List Text) (d d' : Desk S)
      → uninstall_agents S D connector agents d ≡ (ok tt, d')
      → Same d d'
  unfolding uninstall_agents
  uninstall_agents-Same none agents d d' h =
      (sym (ap (λ x. x.1.authority) h), sym (ap (λ x. x.1.realm_file) h))
  uninstall_agents-Same (some connector) agents d d' h = uninstall_each-Same connector agents d d' h

  teardown_client-ran :
      (d d' : Desk S) → teardown_client S D d ≡ (ok tt, d') → Same d d' × ClientGone true d d'
  unfolding teardown_client
  teardown_client-ran d d' h =
      let forget = λ (_ : Unit).
        modify (λ (x : Desk S). record x { credentials = none; client_session = false }) in
      let (agents, read, h1) =
        lift-ran (agents_of S D d.credentials)
          (λ agents. uninstall_agents S D D.connector agents >>= forget) d d' tt h in
      let (_, d1, ran, h2) = bind-ran (uninstall_agents S D D.connector agents) forget d d' tt h1 in
      let (authority, realm_file) = uninstall_agents-Same D.connector agents d d1 ran in
      (
        (
          sym (ap (λ x. x.1.authority) h2) ∙ authority,
          sym (ap (λ x. x.1.realm_file) h2) ∙ realm_file,
        ),
        (sym (ap (λ x. x.1.credentials) h2), sym (ap (λ x. x.1.client_session) h2)),
      )

  client_half :
      (include_client : Bool) (d d' : Desk S)
      → (if include_client then teardown_client S D else pure tt) d ≡ (ok tt, d')
      → Same d d' × ClientGone include_client d d'
  client_half true d d' h = teardown_client-ran d d' h
  client_half false d d' h =
      let e = sym (ap (λ x. x.1) h) in
      (
        (ap (λ x. x.authority) e, ap (λ x. x.realm_file) e),
        (ap (λ x. x.credentials) e, ap (λ x. x.client_session) e),
      )

  compose-ClientKept :
      (args : List Text) (d d' : Desk S)
      → compose S D false args d ≡ (ok tt, d')
      → ClientGone false d d'
  unfolding compose run_nerdctl
  compose-ClientKept args d d' h =
      let (rc, d1, ran, h1) = bind-ran (run_nerdctl S D (codes "compose" ∷ args)) _ d d' tt h in
      (
        sym (ap (λ x. x.1.credentials) h1) ∙ sym (ap (λ x. x.1.credentials) ran),
        sym (ap (λ x. x.1.client_session) h1) ∙ sym (ap (λ x. x.1.client_session) ran),
      )

  moved :
      (include_client : Bool) (d e d' : Desk S)
      → ClientGone false d e
      → ClientGone include_client e d'
      → ClientGone include_client d d'
  moved true d e d' h k = k
  moved false d e d' (a, b) (c, f) = (c ∙ a, f ∙ b)

  abbrev pub Outcome : Bool → Bool → ℕ → Desk S → Desk S → Type 0
  Outcome confirmed include_client code d d' =
      ((code ≡ 1) × (confirmed ≡ false) × (d' ≡ d))
      ⊎ ((code ≡ 0) × (confirmed ≡ true) × ServerGone d' × ClientGone include_client d d')

  -- A teardown that ends has exit code 1, was not confirmed and changed nothing; or it has exit code 0
  -- and was confirmed, no file of the ABE authority and no generated realm is left, and the client's
  -- credentials and session are gone where that was asked for, and as they were where it was not.
  pub cmd_teardown-Gone :
      (confirmed include_client : Bool) (code : ℕ) (d d' : Desk S)
      → cmd_teardown S D confirmed include_client d ≡ (ok code, d')
      → Outcome confirmed include_client code d d'
  unfolding cmd_teardown
  cmd_teardown-Gone false include_client code d d' h =
      inl (sym (ok-eq 1 code (ap (λ x. x.0) h)), refl, sym (ap (λ x. x.1) h))
  cmd_teardown-Gone true include_client code d d' h =
      let client = if include_client then teardown_client S D else pure tt in
      let finish = λ (_ : Unit). client >>= λ (_ : Unit). pure 0 in
      let remove = λ (x : Desk S). record x { authority = []; realm_file = none } in
      let (_, d1, composed, h1) =
        bind-ran (compose S D false (codes "down" ∷ codes "-v" ∷ []))
          (λ _. modify remove >>= finish) d d' code h in
      let (_, d2, cleaned, h2) = bind-ran client (λ _. pure 0) (remove d1) d' code h1 in
      let ((authority, realm_file), gone) = client_half include_client (remove d1) d2 cleaned in
      let same : d2 ≡ d' = ap (λ x. x.1) h2 in
      inr (
        sym (ok-eq 0 code (ap (λ x. x.0) h2)),
        refl,
        subst ServerGone same (authority, realm_file),
        subst (ClientGone include_client d) same (
            moved include_client d (remove d1) d2
              (compose-ClientKept (codes "down" ∷ codes "-v" ∷ []) d d1 composed) gone),
      )
