-- ===== src/Client/Session.antt =====
-- session.py: the human's tokens, kept in session.json.
use pabel.Base.{Bool, Option, none, some}
use pabel.Base.{Text, codes, or_default, is_some, if◌then◌else◌}
use pabel.Base.Exec.{lift, pure, raise, gets, modify, ◌>>=◌, ◌>>◌}
use pabel.Failure.{auth_error, not_logged_in, session_expired}
use pabel.Client.{Host, Client, Tokens, StoredSession, ask, required, is_stale, set_in_env}
use pabel.Client.Keycloak.{from_env, refresh_tokens}
use pabel.Client.OauthBrowser.{login_with_browser}

module _ (H : Host) where
  write_session : Tokens → Text → Client H (Unit {0})
  write_session tokens access_token = do
    now ← ask H.time
    modify (λ w. record w {
      session = some (record {
        access_token = access_token;
        refresh_token = tokens.refresh_token;
        expires_in = some (or_default tokens.expires_in 60);
        obtained_at = now;
      });
    })

  unfoldable pub persist : Tokens → Client H (Unit {0})
  unfolding write_session
  persist tokens = do
    access_token ← lift (required (codes "access_token") tokens.access_token)
    write_session tokens access_token

  unfoldable pub login : Client H (Unit {0})
  unfolding login_with_browser persist
  login = do tokens ← login_with_browser H; persist tokens

  unfoldable pub logout : Client H Bool
  logout = do
    existed ← gets (λ w. is_some w.session)
    modify (λ w. record w { session = none })
    pure existed

  -- `data["access_token"]` of the file that was read again
  stored_token : Option StoredSession → Client H Text
  stored_token none = raise (auth_error not_logged_in)
  stored_token (some s) = pure s.access_token

  renew : Option Text → Client H Text
  unfolding refresh_tokens from_env persist stored_token
  renew none = raise (auth_error session_expired)
  renew (some refresh_token) = do
    kc ← lift (from_env H)
    tokens ← refresh_tokens H kc refresh_token
    persist tokens
    again ← gets (λ w. w.session)
    stored_token again

  from_file : Option StoredSession → Client H Text
  unfolding renew
  from_file none = raise (auth_error not_logged_in)
  from_file (some s) = do
    now ← ask H.time
    if is_stale now s.obtained_at (or_default s.expires_in 60)
        then renew (set_in_env s.refresh_token)
        else pure s.access_token

  unfoldable pub access_token : Client H Text
  unfolding from_file
  access_token = do file ← gets (λ w. w.session); from_file file
