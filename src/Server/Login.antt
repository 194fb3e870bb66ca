-- ===== src/Server/Login.antt =====
-- The command line's session: `login_with_browser`, `logout` and `Session.invalidate` of core.py, and
-- login.py with its exit codes. What login.py prints is left out.
pub mod Persisted
pub mod Kept
use pabel.Base.{◌≡◌, refl, ap, sym, ◌∙◌, Bool, none}
use pabel.Base.{ℕ, List, Option, some, Text, codes, is_some, or_default, if◌then◌else◌}
use pabel.Base.Exec.{Result, ok, err, pure, raise, lift, attempt, gets, modify, ◌>>=◌, ◌>>◌}
use pabel.Server.{Services, World, Service, Session, Failure, auth_error, not_logged_in, ask}
use pabel.Server.{Claims, Tokens, op_login, op_logout, op_cli_whoami, reported}
use pabel.Server.Auth.{verify, username_of, attributes_of}
use pabel.Server.Keycloak.{entry}
use pabel.Server.OauthBrowser as Oauth
use pabel.Server.OauthBrowser.{Browser, or_os_error}
use pabel.Server.Core.{current_identity, audit_op}

-- what `invalidate` leaves of a session
abbrev pub forgotten : Session
forgotten = record { tokens = none; obtained_at = 0; session_mtime = none }

module _ (S : Services) where
  unfoldable pub invalidate : Service S (Unit {0})
  invalidate = modify (λ w. record w { session = forgotten })

  -- whether there was a session; the file is removed where it is there
  unfoldable pub logout : Service S Bool
  unfolding invalidate
  logout = do
    existed ← gets (λ w. is_some w.session_file)
    modify (λ w. record w { session_file = none })
    invalidate
    pure existed

  -- `except AuthError`
  abbrev exit_code : {A : Type 0} → Result Failure A → Service S ℕ
  exit_code (ok a) = pure 0
  exit_code (err (auth_error p)) = pure 1
  exit_code (err e) = raise e

  unfoldable pub do_logout : Service S ℕ
  unfolding logout audit_op
  do_logout = do
    existed ← audit_op S op_logout none (do
      existed ← logout
      modify (λ w. record w {
        ctx = record w.ctx {
          detail =
              some (reported (codes (if existed then "session cleared" else "no active session")));
        };
      })
      pure existed)
    pure 0

  whoami_body : Service S (Unit {0})
  unfolding current_identity
  whoami_body = do
    user ← current_identity S
    modify (λ w. record w { ctx = record w.ctx { username = some user.0 } })

  unfoldable pub do_whoami : Service S ℕ
  unfolding whoami_body audit_op
  do_whoami = do
    exists ← gets (λ w. is_some w.session_file)
    if exists
        then (do outcome ← attempt (audit_op S op_cli_whoami none whoami_body); exit_code outcome)
        else pure 0

  module _ (B : Browser S) where
    -- `_persist_session`
    unfoldable pub persist_session : Tokens → Claims → Service S (Unit {0})
    unfolding username_of invalidate
    persist_session tokens claims = do
      access_token ← lift (entry tokens.access_token)
      now ← ask S.time
      username ← lift (username_of claims)
      written ← ask B.write_session
      mtime ← lift (or_os_error written)
      modify (λ w. record w {
        session_file = some (record {
          mtime = mtime;
          access_token = access_token;
          refresh_token = or_default tokens.refresh_token none;
          expires_in = or_default tokens.expires_in 60;
          username = username;
          obtained_at = now;
        });
      })
      invalidate

    -- the username and the ABE attributes
    unfoldable pub login_with_browser : Service S (Text × List Text)
    unfolding Oauth.login_with_browser verify persist_session username_of attributes_of
    login_with_browser = do
      tokens ← Oauth.login_with_browser S B
      access_token ← lift (entry tokens.access_token)
      claims ← verify S access_token
      persist_session tokens claims
      username ← lift (username_of claims)
      pure (username, attributes_of claims)

    login_body : Service S (Unit {0})
    unfolding login_with_browser
    login_body = do
      user ← login_with_browser
      modify (λ w. record w { ctx = record w.ctx { username = some user.0 } })

    unfoldable pub do_login : Service S ℕ
    unfolding login_body audit_op
    do_login = do outcome ← attempt (audit_op S op_login none login_body); exit_code outcome

  no_identity :
      (w : World S)
      → w.request_claims ≡ none
      → w.session_file ≡ none
      → (current_identity S w).0 ≡ err (auth_error not_logged_in)
  unfolding current_identity
  no_identity w no_request no_file = rw (no_request, no_file) refl

  -- After a logout, a call that is no request of the MCP server has no identity: it fails as not
  -- logged in, whatever session the process had read before; and the logout says whether there was a
  -- session.
  pub logout-current_identity :
      (w w' : World S) (existed : Bool)
      → logout w ≡ (ok existed, w')
      → w.request_claims ≡ none
      → (existed ≡ is_some w.session_file)
        × ((current_identity S w').0 ≡ err (auth_error not_logged_in))
  unfolding logout current_identity
  logout-current_identity w w' existed h no_request =
      let answer : Path (Result Failure Bool) (ok (is_some w.session_file)) (ok existed) =
        ap (λ x. x.0) h in
      let request = ap (λ x. x.1.request_claims) h in
      let file = ap (λ x. x.1.session_file) h in
      (cc answer, no_identity w' (sym request ∙ no_request) (sym file))
