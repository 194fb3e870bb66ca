-- ===== src/Client/Relay.antt =====
-- relay.py: the calls of the deployed server's tools, with the human's token on the connection
-- and the installation's as an argument.
use pabel.Base.{Option, none, some, List, [], ◌∷◌}
use pabel.Base.{Text, codes, if◌then◌else◌}
use pabel.Base.Exec.{Result, ok, err, lift, pure, raise, attempt, ◌>>=◌, ◌>>◌}
use pabel.Json.{Json, str, obj, end, field}
use pabel.Failure.{Failure, relay_error, auth_error, os_error, other_error}
use pabel.Failure.{
  Message, message_of, is_auth_error, tool_said, tool_call_failed, server_url_not_set,
}
use pabel.Failure.{no_usable_content, relay_call_failed, could_not_read, foreign}
use pabel.Failure.{automatic_login_failed, still_not_authenticated}
use pabel.Client.{Host, Client, ask, set_in_env}
use pabel.Client.{ToolAnswer, broken, is_error, structured, text_blocks}
use pabel.Client.Session
use pabel.Client.AgentSession

-- the joined texts, or the stock message where there are none
abbrev error_text : Text → List Text → Message
error_text tool [] = tool_call_failed tool
error_text tool ([] ∷ []) = tool_call_failed tool
error_text tool texts = tool_said texts

module _ (H : Host) where
  abbrev loaded : Option Json → Result Failure Json
  loaded none = err (other_error (foreign (codes "not JSON")))
  loaded (some v) = ok v

  -- `_call_tool`, from the answer on
  unfoldable pub answer_of : Text → ToolAnswer → Result Failure Json
  answer_of tool (broken e) = err (other_error (foreign e))
  answer_of tool (is_error texts) = err (relay_error (error_text tool texts))
  answer_of tool (structured content) = ok content
  answer_of tool (text_blocks []) = err (relay_error (no_usable_content tool))
  answer_of tool (text_blocks (t ∷ ts)) = loaded (H.loads t)

  -- `except AuthError: raise` and `except Exception`
  abbrev wrapped : Text → Result Failure Json → Result Failure Json
  wrapped url (ok v) = ok v
  wrapped url (err e) =
      if is_auth_error e then err e else err (relay_error (relay_call_failed url (message_of e)))

  relay_to : Text → Json → Option Text → Client H Json
  unfolding answer_of Session.access_token
  relay_to tool arguments none = raise (relay_error server_url_not_set)
  relay_to tool arguments (some url) = do
    token ← Session.access_token H
    answer ← ask (H.call_tool url token tool arguments)
    lift (wrapped url (answer_of tool answer))

  unfoldable pub relay_call : Text → Json → Client H Json
  unfolding relay_to
  relay_call tool arguments =
      relay_to tool arguments (set_in_env (H.environ (codes "PABEL_SERVER_URL")))

  -- `except OSError as e`
  abbrev read_failure : Text → Result Failure Text → Result Failure Text
  read_failure path (ok bytes) = ok bytes
  read_failure path (err (os_error e)) = err (relay_error (could_not_read path e))
  read_failure path (err e) = err e

  unfoldable pub read_document : Text → Text → Text → Client H Json
  unfolding relay_call AgentSession.access_token
  read_document path name agent_id = do
    read ← ask (H.read_bytes path)
    bytes ← lift (read_failure path read)
    agent_token ← AgentSession.access_token H agent_id
    relay_call (codes "read_document") (
        obj (
          field (codes "content") (str (H.base64 bytes))
            (field (codes "name") (str name) (field (codes "agent_token") (str agent_token) end))))

  unfoldable pub whoami : Text → Client H Json
  unfolding relay_call AgentSession.access_token
  whoami agent_id = do
    agent_token ← AgentSession.access_token H agent_id
    relay_call (codes "whoami") (obj (field (codes "agent_token") (str agent_token) end))

  -- `except AuthError as e: raise AuthError(...)`
  abbrev relabel : {A : Type 0} → (Message → Message) → Result Failure A → Result Failure A
  relabel f (ok a) = ok a
  relabel f (err e) = if is_auth_error e then err (auth_error (f (message_of e))) else err e

  log_in_and_retry : Text → Text → Text → Client H Json
  unfolding read_document Session.login
  log_in_and_retry path name agent_id = do
    logged_in ← attempt (Session.login H)
    lift (relabel automatic_login_failed logged_in)
    again ← attempt (read_document path name agent_id)
    lift (relabel still_not_authenticated again)

  -- the first `except AuthError: pass`
  after_first : Text → Text → Text → Result Failure Json → Client H Json
  unfolding log_in_and_retry
  after_first path name agent_id (ok v) = pure v
  after_first path name agent_id (err e) =
      if is_auth_error e then log_in_and_retry path name agent_id else raise e

  unfoldable pub read_document_with_login : Text → Text → Text → Client H Json
  unfolding after_first
  read_document_with_login path name agent_id = do
    first ← attempt (read_document path name agent_id)
    after_first path name agent_id first

  unfoldable pub report_denial : Text → Text → Text → Text → Client H (Unit {0})
  unfolding relay_call AgentSession.access_token
  report_denial agent_id decision_kind reason tool_name = do
    attempt (do
      agent_token ← AgentSession.access_token H agent_id
      relay_call (codes "report_denial") (
          obj (
            field (codes "agent_token") (str agent_token) (
              field (codes "decision_kind") (str decision_kind) (
                field (codes "reason") (str reason)
                  (field (codes "tool_name") (str tool_name) end))))))
    pure tt
