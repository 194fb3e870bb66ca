-- ===== src/Server/Deployment.antt =====
-- server/admin.py beside `onboard` and `grant`: what its commands work on, and the wait for Keycloak.
-- The children have the commands. What they print is left out; a failed `print` and an interrupt from
-- the keyboard are not modelled.
pub mod Wait
pub mod Bootstrap
pub mod Teardown
pub mod Menu
use pabel.Base.{
  ℕ, zero, suc, ◌+◌, ◌*◌, ◌/◌, Bool, ◌&&◌, not, Option, none, some, List, [], ◌∷◌, ◌++◌,
}
use pabel.Base.{Text, codes, ltb, nat_beq, is_empty, strip, if◌then◌else◌}
use pabel.Base.Exec.{Exec, Result, ok, err, pure, raise, lift, ◌>>=◌, ◌>>◌}
use pabel.Server.{Services, World, Service, Tables, Failure, other_error, runtime_error, foreign}
use pabel.Server.OauthBrowser.{or_os_error}
use pabel.Server.Admin.{Realm, Web, on_web, required}

-- what containers and their volumes keep
pub record Volumes : Type 0 where
  pub db : Tables
  -- the names of the files authority/*.cpabe
  pub authority : List Text

-- the administrator's machine
pub record Desk (S : Services) : Type 0 where
  pub world : World S
  pub authority : List Text
  -- realm-org.template.json and realm-org.json
  pub template : Option Text
  pub realm_file : Option Text
  -- ~/.pabel/agent_credentials.json, and whether session.json is beside it
  pub credentials : Option Text
  pub client_session : Bool
  -- what is typed at `input`
  pub lines : List Text

-- What a deployment asks beside the realm.
pub record Deploy (S : Services) : Type 0 where
  pub realm : Realm S
  -- `requests.get(url, timeout=5)`: a status, or a `RequestException`
  pub probe : Text → S.State → Option ℕ × S.State
  -- `time.sleep`, of milliseconds
  pub sleep : ℕ → S.State → S.State
  -- `subprocess.run` of nerdctl with its arguments: an exit code, or the program is not there
  pub nerdctl : List Text → Volumes → S.State → Result Text ℕ × Volumes × S.State
  -- `shutil.which("pabel-connector")`, and a run of it with its arguments, on the machine's own files
  pub connector : Option Text
  pub run_connector : Text → List Text → S.State → Result Text ℕ × S.State
  -- `\w`, beyond ASCII
  pub is_word_beyond : ℕ → Bool

abbrev pub Command : Services → Type 0 → Type 0
Command S A = Exec (Desk S) Failure A

abbrev pub in_service : {S : Services} {A : Type 0} → Service S A → Command S A
in_service m d = let (r, world) = m d.world in (r, record d { world = world })

abbrev pub in_web : {S : Services} {A : Type 0} → Web S A → Command S A
in_web m = in_service (on_web m)

-- `input(...)`
abbrev pub line_of : {S : Services} → Desk S → List Text → Result Failure Text × Desk S
line_of d [] = (err (other_error (foreign (codes "EOFError"))), d)
line_of d (t ∷ ts) = (ok t, record d { lines = ts })

abbrev pub input : {S : Services} → Command S Text
input d = line_of d d.lines

-- a loop that may ask for more rounds than it is given
pub data Rounds : Type 0 where
  done : Rounds
  out_of_fuel : Rounds

module _ (S : Services) (D : Deploy S) where
  -- `subprocess.run(["nerdctl", ...])`
  unfoldable pub run_nerdctl : List Text → Command S ℕ
  run_nerdctl args d =
      let volumes : Volumes = record { db = d.world.db; authority = d.authority } in
      let (rc, v, o) = D.nerdctl args volumes d.world.outside in
      (
        or_os_error rc,
        record d { world = record d.world { db = v.db; outside = o }; authority = v.authority },
      )

  -- `_compose`, where `check` asks for the exit code 0
  unfoldable pub compose : Bool → List Text → Command S (Unit {0})
  unfolding run_nerdctl
  compose check args = do
    rc ← run_nerdctl (codes "compose" ∷ args)
    if check && not (nat_beq rc 0)
        then raise (other_error (foreign (codes "CalledProcessError")))
        else pure tt

  abbrev now : Web S ℕ
  now o = let (t, o') = S.time o in (ok t, o')

  abbrev probed : Text → Web S (Option ℕ)
  probed url o = let (status, o') = D.probe url o in (ok status, o')

  abbrev slept : ℕ → Web S (Unit {0})
  slept n o = (ok tt, D.sleep n o)

  -- `resp.status_code == 200`, and nothing is said of a `RequestException`
  abbrev pub serves : Option ℕ → Bool
  serves none = Bool.false
  serves (some status) = nat_beq status 200

  abbrev timed_out : Failure
  timed_out = runtime_error (foreign (codes "Keycloak did not serve the realm"))

  -- the `while` of `_wait_for_keycloak`, with at most so many rounds
  unfoldable pub wait_until : ℕ → Text → ℕ → Web S Rounds
  wait_until zero url deadline = pure out_of_fuel
  wait_until (suc fuel) url deadline = do
    t ← now
    if ltb t deadline
        then (do
          status ← probed url
          if serves status then pure done else (do slept 3000; wait_until fuel url deadline))
        else raise timed_out

  -- `_wait_for_keycloak`, of seconds
  unfoldable pub wait_for_keycloak : ℕ → ℕ → Web S Rounds
  unfolding wait_until
  wait_for_keycloak fuel timeout = do
    base_url ← required S D.realm (codes "KEYCLOAK_URL")
    realm ← required S D.realm (codes "REALM")
    t ← now
    wait_until fuel (base_url ++ (codes "/realms/" ++ realm)) (t + 1000 * timeout)
