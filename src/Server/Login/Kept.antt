-- ===== src/Server/Login/Kept.antt =====
-- What a login that fails leaves.
use mathlib.Core.Path.{subst}
use pabel.Base.{◌≡◌, refl, sym, ap, ◌∙◌, none, some, List, arith}
use pabel.Base.{ℕ, ◌⊎◌, inl, inr, Text, codes, Bool, true, false, ◌≢◌, if◌then◌else◌}
use pabel.Base.Exec.{Result, ok, err, lift, pure, modify, proceed, ◌>>=◌, ◌>>◌}
use pabel.Base.Exec.Ran.{ok-eq, bind-ran}
use pabel.Server.{Services, World, Service, Tokens, Claims, Failure, AuditRecord, op_login}
use pabel.Server.{foreign, auth_error, permission_error, value_error, runtime_error, other_error}
use pabel.Server.Auth.{verify, check_expiry, username_of, attributes_of}
use pabel.Server.Keycloak.{entry}
use pabel.Server.OauthBrowser as Oauth
use pabel.Server.OauthBrowser.{Browser, or_os_error}
use pabel.Server.OauthBrowser.Outside.{login_with_browser-Outside}
use pabel.Server.Core.{audit, audit_op, blank, record_of}
use pabel.Server.Core.Audit.{outcome_of, audit-adds}
use pabel.Server.Login.{
  persist_session, login_with_browser, login_body, do_login, exit_code, invalidate,
}
use pabel.Server.Login.Persisted.{NewSession, login_with_browser-NewSession}

module _ (S : Services) where
  -- neither the file nor what the process has read of it has changed
  abbrev pub SameSession : World S → World S → Type 0
  SameSession w w' = (w'.session_file ≡ w.session_file) × (w'.session ≡ w.session)

  SameSession-∘ : (w v u : World S) → SameSession w v → SameSession v u → SameSession w u
  SameSession-∘ w v u (a, b) (c, d) = (c ∙ a, d ∙ b)

  -- a failure spared the old session
  abbrev Settles : {A : Type 0} → World S → Result Failure A × World S → Type 0
  Settles w (ok a, w') = Unit
  Settles w (err e, w') = SameSession w w'

  Settles-after :
      {A : Type 0} (w v : World S) (r : Result Failure A × World S)
      → SameSession w v
      → Settles v r
      → Settles w r
  Settles-after w v (ok a, u) h s = s
  Settles-after w v (err e, u) h s = SameSession-∘ w v u h s

  proceed-Settles :
      {A B : Type 0} (f : A → Service S B) (got : Result Failure A × World S) (w : World S)
      → SameSession w got.1
      → ((a : A) (v : World S) → Settles v (f a v))
      → Settles w (proceed f got)
  proceed-Settles f (ok a, v) w h k = Settles-after w v (f a v) h (k a v)
  proceed-Settles f (err e, v) w h k = h

  module _ (B : Browser S) where
    abbrev store : Tokens → Claims → Service S (Text × List Text)
    unfolding persist_session
    store tokens claims = do
      persist_session S B tokens claims
      u ← lift (username_of claims)
      pure (u, attributes_of claims)

    written :
        (answer : Result Text ℕ) (u t : Text) (tokens : Tokens) (claims : Claims) (w : World S)
        → entry tokens.access_token ≡ ok t
        → username_of claims ≡ ok u
        → (B.write_session (S.time w.outside).1).0 ≡ answer
        → Settles w (store tokens claims w)
    unfolding persist_session invalidate
    written (err e) u t tokens claims w a b c = rw (a, b, c) (refl, refl)
    written (ok m) u t tokens claims w a b c = rw (a, b, c) tt

    -- writing the file is the last step that may fail: `username_of` does not fail behind it
    store-Settles :
        (token username : Result Failure Text) (tokens : Tokens) (claims : Claims) (w : World S)
        → entry tokens.access_token ≡ token
        → username_of claims ≡ username
        → Settles w (store tokens claims w)
    unfolding persist_session invalidate
    store-Settles (err e) username tokens claims w a b = rw a (refl, refl)
    store-Settles (ok t) (err e) tokens claims w a b = rw (a, b) (refl, refl)
    store-Settles (ok t) (ok u) tokens claims w a b =
        written (B.write_session (S.time w.outside).1).0 u t tokens claims w a b refl

    verify-SameSession : (token : Text) (w : World S) → SameSession w (verify S token w).1
    unfolding verify check_expiry
    verify-SameSession token w = ground arith

    Oauth-SameSession : (w : World S) → SameSession w (Oauth.login_with_browser S B w).1
    Oauth-SameSession w =
        let same = login_with_browser-Outside S B w in
        (ap (λ x. x.session_file) same, ap (λ x. x.session) same)

    login-Settles : (w : World S) → Settles w (login_with_browser S B w)
    unfolding login_with_browser
    login-Settles w =
        proceed-Settles _ (Oauth.login_with_browser S B w) w (Oauth-SameSession w) (λ tokens v.
          proceed-Settles _ (lift (entry tokens.access_token) v) v (refl, refl)
            (λ token u.
              proceed-Settles _ (verify S token u) u (verify-SameSession token u) (λ claims x.
                store-Settles (entry tokens.access_token) (username_of claims) tokens claims x refl
                  refl)))

    audit-SameSession : (e : AuditRecord) (w : World S) → SameSession w (audit S e w).1
    unfolding audit
    audit-SameSession e w = ground arith

    -- what an exit code says of the session
    abbrev pub ByCode : World S → ℕ → World S → Type 0
    ByCode w code w' =
        ((code ≡ 0) × NewSession S B (record w { ctx = blank }) w')
        ⊎ ((code ≡ 1) × SameSession w w')

    coded :
        (r : Result Failure Unit) (code : ℕ) (w v w' : World S)
        → Settles w (r, v)
        → (r ≡ ok tt → NewSession S B (record w { ctx = blank }) v)
        → exit_code S r v ≡ (ok code, w')
        → ByCode w code w'
    coded (ok u) code w v w' s made h = inl (
      sym (ok-eq 0 code (ap (λ x. x.0) h)),
      subst (NewSession S B (record w { ctx = blank })) (ap (λ x. x.1) h) (made refl),
    )
    coded (err (auth_error p)) code w v w' s made h =
        inr (sym (ok-eq 1 code (ap (λ x. x.0) h)), subst (SameSession w) (ap (λ x. x.1) h) s)
    coded (err (permission_error p)) code w v w' s made h = cc
    coded (err (value_error p)) code w v w' s made h = cc
    coded (err (runtime_error p)) code w v w' s made h = cc
    coded (err (other_error p)) code w v w' s made h = cc

    -- what leaves the session alone
    moved :
        {A : Type 0} (r : Result Failure A) (w v u : World S)
        → Settles w (r, v)
        → SameSession v u
        → Settles w (r, u)
    moved (ok a) w v u s same = tt
    moved (err e) w v u s same = SameSession-∘ w v u s same

    NewSession-moved : (w v u : World S) → NewSession S B w v → SameSession v u → NewSession S B w u
    NewSession-moved w v u (ts, t, c, given, has, valid, (f, file, token, name, fresh))
          (same_file, same) =
        (ts, t, c, given, has, valid, (f, same_file ∙ file, token, name, same ∙ fresh))

    body-Settles : (w : World S) → Settles w (login_body S B w)
    unfolding login_body
    body-Settles w = named (login_with_browser S B w) (login-Settles w)
      where
        named :
            (r : Result Failure (Text × List Text) × World S)
            → Settles w r
            → Settles w (
                proceed
                  (λ user.
                    modify
                      (λ (v : World S). record v { ctx = record v.ctx { username = some user.0 } }))
                  r)
        named (ok user, v) s = s
        named (err e, v) s = s

    body-NewSession : (w v : World S) → login_body S B w ≡ (ok tt, v) → NewSession S B w v
    unfolding login_body
    body-NewSession w v h =
        let (user, w1, logged_in, h1) = bind-ran (login_with_browser S B) _ w v tt h in
        NewSession-moved w w1 v (login_with_browser-NewSession S B user w w1 logged_in)
          (sym (ap (λ x. x.1.session_file) h1), sym (ap (λ x. x.1.session) h1))

    -- the exit code behind an audit, which fails with nothing but a RuntimeError
    audited :
        (r : Result Failure Unit) (code : ℕ) (w v w' : World S) (a : Result Failure Unit × World S)
        → a.0 ≡ outcome_of S (ok tt)
        → SameSession v a.1
        → Settles w (r, v)
        → (r ≡ ok tt → NewSession S B (record w { ctx = blank }) v)
        → (let (o, x) = proceed (λ (_ : Unit). lift r) a in exit_code S o x) ≡ (ok code, w')
        → ByCode w code w'
    audited r code w v w' (ok t, u) e same s made h =
        coded r code w u w' (moved r w v u s same)
          (λ x. NewSession-moved (record w { ctx = blank }) v u (made x) same) h
    audited r code w v w' (err (auth_error p), u) e same s made h = absurd (no_denial S.has_dsn e)
      where
        no_denial :
            (b : Bool)
            → ◌≢◌ {A = Result Failure Unit} (err (auth_error p)) (
                if b
                then ok tt
                else err (runtime_error (foreign (codes "missing environment variable(s)"))))
        no_denial true x = cc
        no_denial false x = cc
    audited r code w v w' (err (permission_error p), u) e same s made h = cc
    audited r code w v w' (err (value_error p), u) e same s made h = cc
    audited r code w v w' (err (runtime_error p), u) e same s made h = cc
    audited r code w v w' (err (other_error p), u) e same s made h = cc

    -- A login of the command line that ends with exit code 0 has written a session whose token is the
    -- one that Keycloak has given to its browser login and that verified, under the username of that
    -- token's claims, and the process has forgotten the session it had read; one that ends with exit
    -- code 1 has left the session as it was, in the file and in the process; and it has no other exit
    -- code.
    pub do_login-ByCode :
        (code : ℕ) (w w' : World S) → do_login S B w ≡ (ok code, w') → ByCode w code w'
    unfolding do_login audit_op
    do_login-ByCode code w w' h =
        let (r, v) = login_body S B (record w { ctx = blank }) in
        let entry = record_of op_login none v.ctx r in
        audited r code w v w' (audit S entry v) (audit-adds S entry v).0 (audit-SameSession entry v)
          (body-Settles (record w { ctx = blank }))
          (λ e. body-NewSession (record w { ctx = blank }) v (ap (λ x. (x, v)) e)) h
