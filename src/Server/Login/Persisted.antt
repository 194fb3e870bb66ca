-- ===== src/Server/Login/Persisted.antt =====
-- What a login of the command line leaves behind.
use mathlib.Core.Path.{subst}
use pabel.Base.{◌≡◌, sym, ap, ◌∙◌, Bool, true, false, Option, none, some, List}
use pabel.Base.{Text}
use pabel.Base.Exec.{ok, lift, pure, ◌>>=◌, ◌>>◌}
use pabel.Base.Exec.Ran.{bind-ran, lift-ran, ok-eq}
use pabel.Server.{Services, World, Tokens, Claims, SessionFile}
use pabel.Server.Auth.{verify, username_of, attributes_of}
use pabel.Server.Keycloak.{entry}
use pabel.Server.OauthBrowser as Oauth
use pabel.Server.OauthBrowser.{Browser, or_os_error}
use pabel.Server.Core.{session_token}
use pabel.Server.Core.SessionToken.{ends_soon, session_token-unread}
use pabel.Server.Login.{persist_session, login_with_browser, forgotten, invalidate}

entry-to : {A : Type 0} (o : Option A) (a : A) → entry o ≡ ok a → o ≡ some a
entry-to none a h = cc
entry-to (some b) a h = ap some (ok-eq b a h)

module _ (S : Services) where
  module _ (B : Browser S) where
    -- the file holds the token and the username, and the process has forgotten what it had read
    abbrev pub Holds : Text → Claims → World S → Type 0
    Holds token claims w =
        (file : SessionFile) × (w.session_file ≡ some file)
        × (file.access_token ≡ token)
        × (username_of claims ≡ ok file.username)
        × (w.session ≡ forgotten)

    persist_session-Holds :
        (tokens : Tokens) (token : Text) (claims : Claims) (w w' : World S)
        → tokens.access_token ≡ some token
        → persist_session S B tokens claims w ≡ (ok tt, w')
        → Holds token claims w'
    unfolding persist_session invalidate
    persist_session-Holds tokens token claims w w' e h =
        let (t, given, h1) = lift-ran (entry tokens.access_token) _ w w' tt h in
        let w1 : World S = record w { outside = (S.time w.outside).1 } in
        let (u, named, h2) = lift-ran (username_of claims) _ w1 w' tt h1 in
        let w2 : World S = record w1 { outside = (B.write_session w1.outside).1 } in
        let (m, written, h3) =
          lift-ran (or_os_error (B.write_session w1.outside).0) _ w2 w' tt h2 in
        let same : t ≡ token = cc (entry-to tokens.access_token t given, e) in
        (_, sym (ap (λ x. x.1.session_file) h3), same, named, sym (ap (λ x. x.1.session) h3))

    -- whether the session of the file ends within five seconds
    abbrev pub file_ends_soon : World S → Option SessionFile → Bool
    file_ends_soon w none = true
    file_ends_soon w (some f) = ends_soon f.expires_in f.obtained_at (S.time w.outside).0

    next_token :
        (token : Text) (claims : Claims) (w : World S)
        → Holds token claims w
        → file_ends_soon w w.session_file ≡ false
        → (session_token S w).0 ≡ ok token
    next_token token claims w (f, file, same, named, fresh) lives =
        session_token-unread S f w file (ap (λ s. s.session_mtime) fresh)
          (ap (file_ends_soon w) (sym file) ∙ lives)
        ∙ ap ok same

    persisted :
        (tokens : Tokens) (token : Text) (claims : Claims) (user : Text × List Text)
        (w w' : World S)
        → tokens.access_token ≡ some token
        → (persist_session S B tokens claims
              >> (lift (username_of claims) >>= λ u. pure (u, attributes_of claims)))
            w
          ≡ (ok user, w')
        → Holds token claims w' × (username_of claims ≡ ok user.0) × (attributes_of claims ≡ user.1)
    persisted tokens token claims user w w' e h =
        let (_, w1, done, h1) = bind-ran (persist_session S B tokens claims) _ w w' user h in
        let (u, named, h2) = lift-ran (username_of claims) _ w1 w' user h1 in
        let same = ok-eq (u, attributes_of claims) user (ap (λ x. x.0) h2) in
        (
          subst (Holds token claims) (ap (λ x. x.1) h2)
              (persist_session-Holds tokens token claims w w1 e done),
          named ∙ ap (λ p. ok p.0) same,
          ap (λ p. p.1) same,
        )

    -- the session is of the tokens that Keycloak has given to the browser login
    abbrev pub NewSession : World S → World S → Type 0
    NewSession w w' =
        (tokens : Tokens) × (token : Text) × (claims : Claims) × ((Oauth.login_with_browser S B w).0
          ≡ ok tokens)
        × (tokens.access_token ≡ some token)
        × ((verify S token (Oauth.login_with_browser S B w).1).0 ≡ ok claims)
        × Holds token claims w'

    pub login_with_browser-NewSession :
        (user : Text × List Text) (w w' : World S)
        → login_with_browser S B w ≡ (ok user, w')
        → NewSession w w'
    unfolding login_with_browser
    login_with_browser-NewSession user w w' h =
        let (tokens, w1, logged_in, h1) = bind-ran (Oauth.login_with_browser S B) _ w w' user h in
        let (token, given, h2) = lift-ran (entry tokens.access_token) _ w1 w' user h1 in
        let (claims, w2, verified, h3) = bind-ran (verify S token) _ w1 w' user h2 in
        let has_token = entry-to tokens.access_token token given in
        (
          tokens,
          token,
          claims,
          ap (λ x. x.0) logged_in,
          has_token,
          ap (λ v. (verify S token v).0) (ap (λ x. x.1) logged_in) ∙ ap (λ x. x.0) verified,
          (persisted tokens token claims user w2 w' has_token h3).0,
        )

    -- the token of a login, from Keycloak's answer to the next call
    abbrev pub NextToken : Text × List Text → World S → World S → Type 0
    NextToken user w w' =
        (token : Text) × (claims : Claims) × (tokens : Tokens) × (v : World S)
        × ((Oauth.login_with_browser S B w).0 ≡ ok tokens)
        × (tokens.access_token ≡ some token)
        × ((verify S token v).0 ≡ ok claims)
        × (username_of claims ≡ ok user.0)
        × (attributes_of claims ≡ user.1)
        × ((session_token S w').0 ≡ ok token)

    -- Where a login gives a username and attributes, they are those of a token that verified, after
    -- Keycloak had given it to the browser login; and while the session's lifetime has five seconds
    -- left, the next call takes that very token from the file, whatever session the process had read
    -- before.
    pub login_with_browser-session_token :
        (user : Text × List Text) (w w' : World S)
        → login_with_browser S B w ≡ (ok user, w')
        → file_ends_soon w' w'.session_file ≡ false
        → NextToken user w w'
    unfolding login_with_browser
    login_with_browser-session_token user w w' h lives =
        let (tokens, w1, logged_in, h1) = bind-ran (Oauth.login_with_browser S B) _ w w' user h in
        let (token, given, h2) = lift-ran (entry tokens.access_token) _ w1 w' user h1 in
        let (claims, w2, verified, h3) = bind-ran (verify S token) _ w1 w' user h2 in
        let has_token = entry-to tokens.access_token token given in
        let (holds, named, attributes) = persisted tokens token claims user w2 w' has_token h3 in
        (
          token,
          claims,
          tokens,
          w1,
          ap (λ x. x.0) logged_in,
          has_token,
          ap (λ x. x.0) verified,
          named,
          attributes,
          next_token token claims w' holds lives,
        )
