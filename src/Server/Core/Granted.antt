-- ===== src/Server/Core/Granted.antt =====
-- The answer of `resolve_agent` where nothing stands against it.
use pabel.Base.{◌≡◌, refl, true, false, some, List}
use pabel.Base.{Text, contains, text_eq_instance}
use pabel.Base.Exec.{ok}
use pabel.Server.{Services, World, Claims, Agent, Installation}
use pabel.Server.Auth.{verify, client_id_of}
use pabel.Server.Db.{connect, find_installation, find_agent, get_agent, get_agent_installation}
use pabel.Server.Core.{resolve_agent, for_agent, for_installation}

module _ (S : Services) where
  -- the database answers twice in a row
  abbrev pub Answers : World S → Type 0
  Answers w = ((S.db_up w.outside).0 ≡ true) × ((S.db_up (S.db_up w.outside).1).0 ≡ true)

  pub resolve_agent-granted :
      (token : Text) (roles : List Text) (c : Claims) (i : Installation) (a : Agent) (id : Text)
      (w v : World S)
      → verify S token w ≡ (ok c, v)
      → client_id_of c ≡ ok id
      → S.has_dsn ≡ true
      → Answers v
      → find_installation id v.db.installations ≡ some i
      → i.revoked ≡ false
      → find_agent i.product v.db.agents ≡ some a
      → a.enabled ≡ true
      → contains a.required_role roles ≡ true
      → (resolve_agent S token roles w).0 ≡ ok (i.product, a.attributes)
  unfolding resolve_agent get_agent_installation connect for_installation get_agent for_agent
  resolve_agent-granted token roles c i a id w v verified named set (up, up_again) row valid product
        enabled has_role =
      rw (verified, named, set, up, row, valid, set, up_again, product, enabled, has_role) refl
