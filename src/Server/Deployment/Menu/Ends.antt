-- ===== src/Server/Deployment/Menu/Ends.antt =====
-- The menu ends when nothing more is typed.
use pabel.Base.{ℕ, zero, suc, ◌≤◌, ◌≡◌, ◌≢◌, refl, Bool, true, false, Option}
use pabel.Base.{none, some, List, [], ◌∷◌, arith, length, if◌then◌else◌, inl, inr, Bool-cases}
use pabel.Base.{Text, strip}
use pabel.Base.Exec.{Result, ok, err, pure, attempt, proceed, ◌>>=◌}
use pabel.Server.{Services, Failure}
use pabel.Server.Db.{list_agents, list_agent_installations}
use pabel.Server.Deployment.{Desk, Deploy, Command, in_service, run_nerdctl, input}
use pabel.Server.Deployment.Wait.{Clock}
use pabel.Server.Deployment.Bootstrap.{cmd_bootstrap}
use pabel.Server.Deployment.Bootstrap.Up.{cmd_bootstrap-ends}
use pabel.Server.Deployment.Teardown.{cmd_status, report, counted, with_roles}
use pabel.Server.Deployment.Menu.{
  menu_onboard, menu_grant, menu_teardown, finished, and_done, perform, Choice, choice_of,
  choose_bootstrap, choose_onboard, choose_grant, choose_status, choose_teardown, go_on, act,
  leaves, cmd_menu, is_exit,
}
use pabel.Server.Deployment.Menu.Reads.{Reads, Reader, bind-Reader, service-Reader}
use pabel.Server.Deployment.Menu.Readers.{
  cmd_bootstrap-Reader, menu_onboard-Reader, menu_grant-Reader, menu_teardown-Reader,
}

module _ (S : Services) (D : Deploy S) (collates : Text → Text → Bool) where
  -- reads lines only, and has rounds enough for its waits
  abbrev Sound : Command S (Option (Unit {0})) → Type 0
  Sound a = Reader S D a × ((d : Desk S) → (a d).0 ≢ ok none)

  never :
      {A : Type 0} (o : Result Failure A × Desk S)
      → (proceed (λ (a : A). pure (some tt)) o).0 ≢ ok none
  never (ok a, d) = λ e. cc
  never (err x, d) = λ e. cc

  and_done-Sound : {A : Type 0} (m : Command S A) → Reader S D m → Sound (and_done S D m)
  unfolding and_done
  and_done-Sound m h =
      (bind-Reader S D m (λ a. pure (some tt)) h (λ a d. omega arith), λ d. never (m d))

  finished-none :
      (o : Result Failure (Option ℕ) × Desk S)
      → o.0 ≢ ok none
      → (proceed (λ code. pure (finished S D code)) o).0 ≢ ok none
  finished-none (ok none, d) h = absurd (h refl)
  finished-none (ok (some code), d) h = λ e. cc
  finished-none (err x, d) h = λ e. cc

  report-Reader :
      (authority : List Text) (counts : Option (ℕ × ℕ × ℕ × ℕ))
      → Reader S D (report S D collates authority counts)
  unfolding report
  report-Reader authority counts =
      let rows = list_agents S collates >>= with_roles S D in
      let installations = list_agent_installations S none in
      bind-Reader S D (in_service rows) _ (service-Reader S D rows) (λ agents.
        bind-Reader S D (in_service installations) _ (service-Reader S D installations)
          (λ i d. omega arith))

  cmd_status-Reader : Reader S D (cmd_status S D collates)
  unfolding cmd_status run_nerdctl
  cmd_status-Reader =
      bind-Reader S D (run_nerdctl S D _) _ (λ d. omega arith)
        (λ rc d.
          report-Reader d.authority _ (record d { world = (attempt (counted S D) d.world).1 }))

  module _ (C : Clock S D) (k : ℕ) (enough : 60 ≤ k) where
    perform-Sound : (choice : Choice) → Sound (perform S D collates (suc k) choice)
    unfolding perform
    perform-Sound choose_bootstrap = (
      bind-Reader S D (cmd_bootstrap S D (suc k) false) (λ code. pure (finished S D code))
          (cmd_bootstrap-Reader S D (suc k) false) (λ code d. omega arith),
      λ d.
          finished-none (cmd_bootstrap S D (suc k) false d)
            (cmd_bootstrap-ends S D C k false d enough),
    )
    perform-Sound choose_onboard = and_done-Sound (menu_onboard S D) (menu_onboard-Reader S D)
    perform-Sound choose_grant = and_done-Sound (menu_grant S D) (menu_grant-Reader S D)
    perform-Sound choose_status = and_done-Sound (cmd_status S D collates) cmd_status-Reader
    perform-Sound choose_teardown = and_done-Sound (menu_teardown S D) (menu_teardown-Reader S D)

    -- a menu that ends wherever at most so many lines are typed
    abbrev EndsWithin : ℕ → Command S (Option ℕ) → Type 0
    EndsWithin n menu = (d : Desk S) → length d.lines ≤ n → (menu d).0 ≢ ok none

    go_on-ends :
        (n : ℕ) (menu : Command S (Option ℕ)) (d : Desk S)
        (o : Result Failure (Option (Unit {0})) × Desk S)
        → EndsWithin n menu
        → length d.lines ≤ n
        → Reads S D d o.1
        → o.0 ≢ ok none
        → (go_on S D menu o.0 o.1).0 ≢ ok none
    go_on-ends n menu d (ok (some u), v) ends few reads some_ = ends v (omega (arith, few, reads))
    go_on-ends n menu d (ok none, v) ends few reads some_ = absurd (some_ refl)
    go_on-ends n menu d (err e, v) ends few reads some_ = elim (Bool-cases (is_exit e)) [
      | inl out ↦ rw out (λ x. cc)
      | inr caught ↦ rw caught (ends v (omega (arith, few, reads)))
    ]

    act-ends :
        (n : ℕ) (menu : Command S (Option ℕ)) (choice : Option Choice)
        → EndsWithin n menu
        → EndsWithin n (act S D collates menu (suc k) choice)
    unfolding act
    act-ends n menu none ends = ends
    act-ends n menu (some choice) ends = λ d few.
        let (reads, some_) = perform-Sound choice in
        go_on-ends n menu d (perform S D collates (suc k) choice d) ends few (reads d) (some_ d)

    choose-ends :
        (n : ℕ) (menu : Command S (Option ℕ)) (leave : Bool) (choice : Option Choice)
        → EndsWithin n menu
        → EndsWithin n (if leave then pure (some 0) else act S D collates menu (suc k) choice)
    choose-ends n menu true choice ends = λ d few e. cc
    choose-ends n menu false choice ends = act-ends n menu choice ends

    abbrev round : Command S (Option ℕ) → Command S (Option ℕ)
    unfolding choice_of act
    round menu = do
      line ← input
      let choice = strip D.realm.is_space line
      if leaves S D choice then pure (some 0) else act S D collates menu (suc k) (choice_of choice)

    none-ends :
        (menu : Command S (Option ℕ)) (d : Desk S) → d.lines ≡ [] → (round menu d).0 ≢ ok none
    unfolding round
    none-ends menu d typed = rw typed (λ e. cc)

    some-ends :
        (n : ℕ) (menu : Command S (Option ℕ)) (t : Text) (ts : List Text) (d : Desk S)
        → EndsWithin n menu
        → d.lines ≡ t ∷ ts
        → length ts ≤ n
        → (round menu d).0 ≢ ok none
    unfolding round
    some-ends n menu t ts d ends typed few =
        let choice = strip D.realm.is_space t in
        rw typed (
          choose-ends n menu (leaves S D choice) (choice_of choice) ends (record d { lines = ts })
            few)

    last_round :
        (menu : Command S (Option ℕ)) (lines : List Text) (d : Desk S)
        → d.lines ≡ lines
        → length lines ≤ 0
        → (round menu d).0 ≢ ok none
    last_round menu [] d typed few = none-ends menu d typed
    last_round menu (t ∷ ts) d typed few = absurd (omega (arith, few))

    a_round :
        (n : ℕ) (menu : Command S (Option ℕ)) (lines : List Text) (d : Desk S)
        → EndsWithin n menu
        → d.lines ≡ lines
        → length lines ≤ suc n
        → (round menu d).0 ≢ ok none
    a_round n menu [] d ends typed few = none-ends menu d typed
    a_round n menu (t ∷ ts) d ends typed few =
        some-ends n menu t ts d ends typed (omega (arith, few))

    -- Where the clock is not set back and a sleep takes its time: the menu ends within one choice more
    -- than lines are typed, if each wait for Keycloak has 61 rounds or more; it ends with an exit code
    -- or with an exception.
    pub cmd_menu-ends :
        (n : ℕ) (d : Desk S)
        → length d.lines ≤ n
        → (cmd_menu S D collates (suc n) (suc k) d).0 ≢ ok none
    unfolding cmd_menu round
    cmd_menu-ends zero d few = last_round (cmd_menu S D collates zero (suc k)) d.lines d refl few
    cmd_menu-ends (suc n) d few =
        a_round n (cmd_menu S D collates (suc n) (suc k)) d.lines d (cmd_menu-ends n) refl few
