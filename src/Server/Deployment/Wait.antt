-- ===== src/Server/Deployment/Wait.antt =====
-- The wait for Keycloak ends, and it finds a realm that comes up in time.
use pabel.Base.{
  ℕ, zero, suc, ◌+◌, ◌*◌, ◌≤◌, ◌<◌, ◌≡◌, ◌≢◌, refl, sym, ◌∙◌, Bool, Option, true, false, arith, inl,
  inr,
}
use pabel.Base.{Text, codes, ltb, Bool-cases, ap, ◌++◌}
use pabel.Base.Exec.{Result, ok, err, lift, ◌>>=◌}
use pabel.Server.{Services, Failure}
use pabel.Server.Admin.{required}
use pabel.Server.Deployment.{Deploy, done, out_of_fuel, serves, wait_until, wait_for_keycloak}

module _ (S : Services) (D : Deploy S) where
  -- `time.time()` reads a clock that is never set back, and `time.sleep` takes its time
  pub record Clock : Type 0 where
    pub at : S.State → ℕ
    pub reads : (s : S.State) → (S.time s).0 ≡ at s
    pub time_forward : (s : S.State) → at s ≤ at (S.time s).1
    pub probe_forward : (url : Text) (s : S.State) → at s ≤ at (D.probe url s).1
    pub sleep_forward : (n : ℕ) (s : S.State) → n + at s ≤ at (D.sleep n s)

  -- what the probe of a round gives, and the state behind a round that found nothing
  abbrev pub answer : Text → S.State → Option ℕ
  answer url s = (D.probe url (S.time s).1).0

  abbrev pub round : Text → S.State → S.State
  round url s = D.sleep 3000 (D.probe url (S.time s).1).1

  abbrev pub rounds : ℕ → Text → S.State → S.State
  rounds zero url s = s
  rounds (suc n) url s = rounds n url (round url s)

  abbrev in_time : ℕ → S.State → Bool
  in_time deadline s = ltb (S.time s).0 deadline

  late :
      (k : ℕ) (url : Text) (deadline : ℕ) (s : S.State)
      → in_time deadline s ≡ false
      → (wait_until S D (suc k) url deadline s).0 ≢ ok out_of_fuel
  unfolding wait_until
  late k url deadline s h = rw h (λ e. cc)

  found :
      (k : ℕ) (url : Text) (deadline : ℕ) (s : S.State)
      → in_time deadline s ≡ true
      → serves S D (answer url s) ≡ true
      → (wait_until S D (suc k) url deadline s).0 ≡ ok done
  unfolding wait_until
  found k url deadline s early up = rw (early, up) refl

  next :
      (k : ℕ) (url : Text) (deadline : ℕ) (s : S.State)
      → in_time deadline s ≡ true
      → serves S D (answer url s) ≡ false
      → wait_until S D (suc k) url deadline s ≡ wait_until S D k url deadline (round url s)
  unfolding wait_until
  next k url deadline s early down = rw (early, down) refl

  -- a wait that is done has got a 200
  wait_until-finds_one :
      (fuel : ℕ) (url : Text) (deadline : ℕ) (s : S.State)
      → (wait_until S D fuel url deadline s).0 ≡ ok done
      → (n : ℕ) × (serves S D (answer url (rounds n url s)) ≡ true)
  unfolding wait_until
  wait_until-finds_one zero url deadline s h = cc
  wait_until-finds_one (suc k) url deadline s h = elim (Bool-cases (in_time deadline s)) [
    | inr after ↦ absurd (too_late after h)
    | inl before ↦ elim (Bool-cases (serves S D (answer url s))) [
      | inl up ↦ (0, up)
      | inr down ↦
          let (n, served) =
            wait_until-finds_one k url deadline (round url s)
              (sym (ap (λ x. x.0) (next k url deadline s before down)) ∙ h) in
          (suc n, served)
    ]
  ]
    where
      too_late : in_time deadline s ≡ false → (wait_until S D (suc k) url deadline s).0 ≢ ok done
      too_late e = rw e (λ x. cc)

  -- the page of the realm that the environment names
  abbrev pub realm_url : Text → Text → Text
  realm_url base_url realm = base_url ++ (codes "/realms/" ++ realm)

  -- the page of the realm that the environment names answers 200 to one of the probes from a state on
  abbrev pub Served : S.State → Type 0
  Served s =
      (base_url : Text) × (realm : Text) × (n : ℕ) × ((required S D.realm (codes "KEYCLOAK_URL")
          s).0
        ≡ ok base_url)
      × ((required S D.realm (codes "REALM") s).0 ≡ ok realm)
      × (serves S D
            (answer (realm_url base_url realm) (rounds n (realm_url base_url realm) (S.time s).1))
          ≡ true)

  pub wait_for_keycloak-Served :
      (fuel timeout : ℕ) (s : S.State)
      → (wait_for_keycloak S D fuel timeout s).0 ≡ ok done
      → Served s
  unfolding wait_for_keycloak
  wait_for_keycloak-Served fuel timeout s h =
      configured (required S D.realm (codes "KEYCLOAK_URL") s).0
        (required S D.realm (codes "REALM") s).0 refl refl h
    where
      configured :
          (base_url realm : Result Failure Text)
          → (required S D.realm (codes "KEYCLOAK_URL") s).0 ≡ base_url
          → (required S D.realm (codes "REALM") s).0 ≡ realm
          → ((lift base_url >>= λ b. lift realm >>= λ r. λ o.
                wait_until S D fuel
                  (b ++ (codes "/realms/" ++ r))
                  ((S.time o).0 + 1000 * timeout)
                  (S.time o).1)
              s).0
            ≡ ok done
          → Served s
      configured (err e) realm e1 e2 x = cc
      configured (ok b) (err e) e1 e2 x = cc
      configured (ok b) (ok r) e1 e2 x =
          let url = b ++ (codes "/realms/" ++ r) in
          let (n, served) =
            wait_until-finds_one fuel url ((S.time s).0 + 1000 * timeout) (S.time s).1 x in
          (b, r, n, e1, e2, served)

  module _ (C : Clock) where
    round-forward : (url : Text) (s : S.State) → 3000 + C.at s ≤ C.at (round url s)
    round-forward url s = omega (
      arith,
      C.time_forward s,
      C.probe_forward url (S.time s).1,
      C.sleep_forward 3000 (D.probe url (S.time s).1).1,
    )

    in_time-no : (deadline : ℕ) (s : S.State) → deadline ≤ C.at s → in_time deadline s ≡ false
    in_time-no deadline s h = ground (arith, C.reads s, h)

    in_time-yes : (deadline : ℕ) (s : S.State) → C.at s < deadline → in_time deadline s ≡ true
    in_time-yes deadline s h = ground (arith, C.reads s, h)

    wait_until-ends :
        (k : ℕ) (url : Text) (deadline : ℕ) (s : S.State)
        → deadline ≤ C.at s + 3000 * k
        → (wait_until S D (suc k) url deadline s).0 ≢ ok out_of_fuel
    wait_until-ends zero url deadline s h =
        late 0 url deadline s (in_time-no deadline s (omega (arith, h)))
    wait_until-ends (suc k) url deadline s h = elim (Bool-cases (in_time deadline s)) [
      | inr after ↦ late (suc k) url deadline s after
      | inl before ↦ elim (Bool-cases (serves S D (answer url s))) [
        | inl up ↦ λ e. cc (found (suc k) url deadline s before up, e)
        | inr down ↦ λ e.
            wait_until-ends k url deadline (round url s) (omega (arith, h, round-forward url s))
              (sym (ap (λ x. x.0) (next (suc k) url deadline s before down)) ∙ e)
      ]
    ]

    rounds-forward : (n : ℕ) (url : Text) (s : S.State) → C.at s ≤ C.at (rounds n url s)
    rounds-forward zero url s = omega arith
    rounds-forward (suc n) url s =
        omega (arith, round-forward url s, rounds-forward n url (round url s))

    wait_until-finds :
        (n fuel : ℕ) (url : Text) (deadline : ℕ) (s : S.State)
        → n < fuel
        → C.at (rounds n url s) < deadline
        → serves S D (answer url (rounds n url s)) ≡ true
        → (wait_until S D fuel url deadline s).0 ≡ ok done
    wait_until-finds n zero url deadline s more early up = absurd (omega (arith, more))
    wait_until-finds zero (suc k) url deadline s more early up =
        found k url deadline s (in_time-yes deadline s early) up
    wait_until-finds (suc n) (suc k) url deadline s more early up =
        let before = in_time-yes deadline s (omega (arith, early, rounds-forward (suc n) url s)) in
        elim (Bool-cases (serves S D (answer url s))) [
          | inl now ↦ found k url deadline s before now
          | inr down ↦
              ap (λ x. x.0) (next k url deadline s before down)
              ∙ wait_until-finds n k url deadline (round url s) (omega (arith, more)) early up
        ]

    -- Where the clock is not set back and a sleep takes its time, waiting so many seconds ends within
    -- a third as many rounds and one more: the realm is served, or the wait gives up.
    pub wait_for_keycloak-ends :
        (k timeout : ℕ) (s : S.State)
        → timeout ≤ 3 * k
        → (wait_for_keycloak S D (suc k) timeout s).0 ≢ ok out_of_fuel
    unfolding wait_for_keycloak
    wait_for_keycloak-ends k timeout s h =
        configured (required S D.realm (codes "KEYCLOAK_URL") s).0
          (required S D.realm (codes "REALM") s).0
      where
        configured :
            (base_url realm : Result Failure Text)
            → ((lift base_url >>= λ b. lift realm >>= λ r. λ o.
                  wait_until S D
                    (suc k)
                    (b ++ (codes "/realms/" ++ r))
                    ((S.time o).0 + 1000 * timeout)
                    (S.time o).1)
                s).0
              ≢ ok out_of_fuel
        configured (err e) realm = λ x. cc
        configured (ok b) (err e) = λ x. cc
        configured (ok b) (ok r) =
            wait_until-ends k (b ++ (codes "/realms/" ++ r)) ((S.time s).0 + 1000 * timeout)
              (S.time s).1 (omega (arith, C.reads s, C.time_forward s, h))

    -- Where the clock is not set back and a sleep takes its time: if the realm answers 200 at its n-th
    -- probe and the clock then is before the deadline, the wait of more than n rounds finds it served.
    pub wait_for_keycloak-finds :
        (n fuel timeout : ℕ) (base_url realm : Text) (s : S.State)
        → n < fuel
        → (required S D.realm (codes "KEYCLOAK_URL") s).0 ≡ ok base_url
        → (required S D.realm (codes "REALM") s).0 ≡ ok realm
        → C.at (rounds n (base_url ++ (codes "/realms/" ++ realm)) (S.time s).1)
          < C.at s + 1000 * timeout
        → serves S D (
            answer
              (base_url ++ (codes "/realms/" ++ realm))
              (rounds n (base_url ++ (codes "/realms/" ++ realm)) (S.time s).1))
          ≡ true
        → (wait_for_keycloak S D fuel timeout s).0 ≡ ok done
    unfolding wait_for_keycloak
    wait_for_keycloak-finds n fuel timeout base_url realm s more base_url_is realm_is early up =
        rw (base_url_is, realm_is)
          (wait_until-finds n fuel (base_url ++ (codes "/realms/" ++ realm))
            ((S.time s).0 + 1000 * timeout) (S.time s).1 more (omega (arith, C.reads s, early)) up)
