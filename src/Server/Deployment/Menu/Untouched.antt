-- ===== src/Server/Deployment/Menu/Untouched.antt =====
-- A teardown from the menu that is not confirmed.
use pabel.Base.{◌≡◌, refl, false, none, List, ◌∷◌, Text, strip}
use pabel.Base.Exec.{ok}
use pabel.Server.{Services}
use pabel.Server.Deployment.{Desk, Deploy}
use pabel.Server.Deployment.Teardown.{cmd_teardown}
use pabel.Server.Deployment.Menu.{ask_for, answered, is_destroy, destroy, menu_teardown}

module _ (S : Services) (D : Deploy S) where
  -- Where the second line that is typed is not the word DESTROY, with or without white space round it,
  -- a teardown from the menu changes nothing but that two lines were read.
  menu_teardown-untouched :
      (first word : Text) (rest : List Text) (d : Desk S)
      → d.lines ≡ first ∷ word ∷ rest
      → is_destroy (answered S D none (strip D.realm.is_space word)) ≡ false
      → menu_teardown S D d ≡ (ok tt, record d { lines = rest })
  unfolding menu_teardown ask_for cmd_teardown destroy
  menu_teardown-untouched first word rest d typed other = rw (typed, other) refl
