-- ===== src/Client/LocalServer.antt =====
-- mcp_local_server.py: the tools that the model may call directly. A failure of the relay becomes
-- an answer.
use pabel.Base.{true, false}
use pabel.Base.{Text, codes, if◌then◌else◌}
use pabel.Base.Exec.{Result, ok, err, pure, raise, attempt, ◌>>=◌}
use pabel.Json.{Json, bool, str, obj, end, field}
use pabel.Failure.{Failure, auth_error, keycloak_unreachable, relay_error, os_error, other_error}
use pabel.Failure.{Message, message_of, message_text, is_auth_error}
use pabel.Client.{Host, Client}
use pabel.Client.Session
use pabel.Client.Relay
use pabel.Client.Materialize

module _ (repr : Text → Text) (H : Host) where
  abbrev answer_error : Message → Json
  answer_error m =
      obj (field (codes "ok") (bool false) (field (codes "error") (str (message_text repr m)) end))

  -- `except (AuthError, relay.RelayError) as e`
  abbrev answered : Result Failure Json → Client H Json
  answered (ok v) = pure v
  answered (err (auth_error m)) = pure (answer_error m)
  answered (err (keycloak_unreachable m)) = pure (answer_error m)
  answered (err (relay_error m)) = pure (answer_error m)
  answered (err (os_error m)) = raise (os_error m)
  answered (err (other_error m)) = raise (other_error m)

  abbrev logged_in : Result Failure (Unit {0}) → Client H Json
  logged_in (ok _) = pure (obj (field (codes "ok") (bool true) end))
  logged_in (err e) = if is_auth_error e then pure (answer_error (message_of e)) else raise e

  abbrev after_token : Result Failure Text → Client H Json
  after_token (ok token) =
      pure
        (obj (field (codes "ok") (bool true) (field (codes "already_logged_in") (bool true) end)))
  after_token (err e) =
      if is_auth_error e then (do r ← attempt (Session.login H); logged_in r) else raise e

  unfoldable pub login : Client H Json
  unfolding Session.access_token Session.login message_text
  login = do token ← attempt (Session.access_token H); after_token token

  unfoldable pub whoami : Text → Client H Json
  unfolding Relay.whoami message_text
  whoami agent_id = do r ← attempt (Relay.whoami H agent_id); answered r

  unfoldable pub read_document : Text → Text → Text → Client H Json
  unfolding Relay.read_document_with_login message_text
  read_document agent_id path name = do
    r ← attempt (Relay.read_document_with_login H path name agent_id)
    answered r

  unfoldable pub materialize_document : Text → Text → Text → Client H Json
  unfolding Materialize.create message_text
  materialize_document agent_id path name = do
    r ← attempt (do
      (file, result) ← Materialize.create H path name agent_id
      pure (obj (field (codes "materialized_path") (str file) (field (codes "result") result end))))
    answered r
