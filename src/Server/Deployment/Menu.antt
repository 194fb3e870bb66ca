-- ===== src/Server/Deployment/Menu.antt =====
-- server/admin.py: the interactive menu.
pub mod Untouched
pub mod Reads
pub mod Readers
pub mod Ends
use pabel.Base.{ℕ, zero, suc, Bool, true, false, ◌||◌, Option, none, some, List, [], ◌∷◌}
use pabel.Base.{Text, codes, text_eq, nat_beq, is_empty, strip, if◌then◌else◌}
use pabel.Base.Exec.{Result, ok, err, pure, raise, attempt, ◌>>=◌, ◌>>◌}
use pabel.Server.{
  Services, Failure, auth_error, permission_error, value_error, runtime_error, other_error, foreign,
  Problem,
}
use pabel.Server.Onboard.{cmd_onboard, cmd_grant}
use pabel.Server.Deployment.{Desk, Deploy, Command, in_service, input}
use pabel.Server.Deployment.Bootstrap.{cmd_bootstrap}
use pabel.Server.Deployment.Teardown.{cmd_teardown, cmd_status, Report}

-- what `except Exception` does not catch
abbrev exits : Problem → Bool
exits (foreign t) = text_eq t (codes "SystemExit")
exits other = false

abbrev pub is_exit : Failure → Bool
is_exit (other_error p) = exits p
is_exit other = false

-- `.lower().startswith("y")`
abbrev pub means_yes : Option Text → Bool
means_yes (some (c ∷ s)) = nat_beq c b'y' || nat_beq c b'Y'
means_yes other = false

abbrev pub is_destroy : Option Text → Bool
is_destroy (some t) = text_eq t (codes "DESTROY")
is_destroy none = false

-- the keys of `actions`
pub data Choice : Type 0 where
  choose_bootstrap choose_onboard choose_grant choose_status choose_teardown : Choice

unfoldable pub choice_of : Text → Option Choice
choice_of t =
    if text_eq t (codes "1")
    then some choose_bootstrap
    else if text_eq t (codes "2")
    then some choose_onboard
    else if text_eq t (codes "3")
    then some choose_grant
    else if text_eq t (codes "4")
    then some choose_status
    else if text_eq t (codes "5")
    then some choose_teardown
    else none

module _ (S : Services) (D : Deploy S) where
  -- `answer or default`
  abbrev pub answered : Option Text → Text → Option Text
  answered default answer = if is_empty answer then default else some answer

  -- `_ask`
  unfoldable pub ask_for : Option Text → Command S (Option Text)
  ask_for default = do line ← input; pure (answered default (strip D.realm.is_space line))

  pub onboard_as : Option Text → Command S (Unit {0})
  unfolding ask_for cmd_onboard
  onboard_as none = pure tt
  onboard_as (some agent_id) = do
    display_name ← ask_for (some agent_id)
    label ← ask_for none
    grant_to ← ask_for none
    client ← in_service (cmd_onboard S D.realm agent_id display_name label grant_to)
    pure tt

  unfoldable pub menu_onboard : Command S (Unit {0})
  unfolding onboard_as ask_for
  menu_onboard = do agent_id ← ask_for none; onboard_as agent_id

  pub grant_to : Option Text → Option Text → Command S (Unit {0})
  unfolding cmd_grant
  grant_to (some agent_id) (some to) = in_service (cmd_grant S D.realm agent_id to)
  grant_to agent_id to = pure tt

  unfoldable pub menu_grant : Command S (Unit {0})
  unfolding grant_to ask_for
  menu_grant = do agent_id ← ask_for none; to ← ask_for none; grant_to agent_id to

  -- the irreversible half, behind the typed word
  pub destroy : Option Text → Option Text → Command S (Unit {0})
  unfolding cmd_teardown
  destroy include_client word =
      if is_destroy word
      then (do code ← cmd_teardown S D true (means_yes include_client); pure tt)
      else pure tt

  unfoldable pub menu_teardown : Command S (Unit {0})
  unfolding ask_for cmd_teardown destroy
  menu_teardown = do
    shown ← cmd_teardown S D false false
    include_client ← ask_for (some (codes "n"))
    word ← ask_for none
    destroy include_client word

  -- what a choice does; `none` behind a bootstrap whose wait has run out of rounds
  abbrev pub finished : Option ℕ → Option (Unit {0})
  finished none = none
  finished (some code) = some tt

  pub and_done : {A : Type 0} → Command S A → Command S (Option (Unit {0}))
  and_done m = do a ← m; pure (some tt)

  -- `except Exception`, and on with the menu
  abbrev pub go_on :
      Command S (Option ℕ) → Result Failure (Option (Unit {0})) → Command S (Option ℕ)
  go_on menu (ok (some u)) = menu
  go_on menu (ok none) = pure none
  go_on menu (err e) = if is_exit e then raise e else menu

  abbrev pub leaves : Text → Bool
  leaves choice = text_eq choice (codes "0") || (text_eq choice (codes "q") || is_empty choice)

  -- with the order in which the database lists names
  module _ (collates : Text → Text → Bool) where
    unfoldable pub perform : ℕ → Choice → Command S (Option (Unit {0}))
    unfolding menu_onboard menu_grant menu_teardown cmd_bootstrap cmd_status and_done
    perform rounds choose_bootstrap = do code ← cmd_bootstrap S D rounds false; pure (finished code)
    perform rounds choose_onboard = and_done menu_onboard
    perform rounds choose_grant = and_done menu_grant
    perform rounds choose_status = and_done (cmd_status S D collates)
    perform rounds choose_teardown = and_done menu_teardown

    unfoldable pub act : Command S (Option ℕ) → ℕ → Option Choice → Command S (Option ℕ)
    unfolding perform
    act menu rounds none = menu
    act menu rounds (some choice) = do outcome ← attempt (perform rounds choice); go_on menu outcome

    -- the exit code, if the menu ends within so many choices and each wait within so many rounds
    unfoldable pub cmd_menu : ℕ → ℕ → Command S (Option ℕ)
    unfolding act choice_of
    cmd_menu zero rounds = pure none
    cmd_menu (suc fuel) rounds = do
      line ← input
      let choice = strip D.realm.is_space line
      if leaves choice then pure (some 0) else act (cmd_menu fuel rounds) rounds (choice_of choice)
