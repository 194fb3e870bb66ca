-- ===== src/Server/OauthBrowser/SameState.antt =====
-- A login through the browser that gave tokens.
use mathlib.Core.Path.{subst}
use pabel.Base.{
  ◌≡◌, sym, ◌∙◌, refl, ap, Bool, true, false, Option, none, some, List, arith, inl, inr,
}
use pabel.Base.{Text, codes, text_eq, text_eq_iff, Bool-cases}
use pabel.Base.Exec.{Result, ok, err, lift, ◌>>=◌}
use pabel.Base.Exec.Ran.{bind-ran, guard-ran, lift-ran, ok-eq}
use pabel.Server.{Services, World, Tokens, KeycloakAuth, Response, granted, refused, no_answer}
use pabel.Server.{auth_error, state_mismatch}
use pabel.Server.Keycloak.{auth_from_env, exchange_code, granted_or, code_form}
use pabel.Server.OauthBrowser.{
  Browser, Visit, param, callback_path, do_get, result_of_visit, same_state, or_os_error,
  redirect_uri, pkce_pair, challenge_of, authorize_url, called_back, wait_for_callback, trade,
  after_callback, after_open, login_with_browser, login_with_pair,
}

pub same_state-to : (state : Text) (s : Option Text) → same_state state s ≡ true → s ≡ some state
same_state-to state none h = cc
same_state-to state (some s) h = ap some ((text_eq_iff s state).0 h)

visit-to :
    (v : Option Visit) (params : List (Text × Text))
    → result_of_visit v ≡ some params
    → (visit : Visit) × (v ≡ some visit) × (visit.path ≡ callback_path) × (visit.params ≡ params)
unfolding do_get
visit-to none params h = cc
visit-to (some v) params h = elim (Bool-cases (text_eq v.path callback_path)) [
  | inl same ↦ (v, refl, (text_eq_iff v.path callback_path).0 same, ground (arith, same, h))
  | inr other ↦ ground (arith, other, h)
]

granted_or-to :
    (failed : _) (r : Response) (tokens : Tokens)
    → granted_or failed r ≡ ok tokens
    → r ≡ granted tokens
granted_or-to failed (no_answer e) tokens h = cc
granted_or-to failed (refused status text) tokens h = cc
granted_or-to failed (granted t) tokens h = cc

or_os_error-to : {A : Type 0} (r : Result Text A) (a : A) → or_os_error r ≡ ok a → r ≡ ok a
or_os_error-to (ok b) a h = cc
or_os_error-to (err e) a h = cc

module _ (S : Services) (B : Browser S) where
  -- one visit to the callback path, with this state, whose code was traded for the tokens with the
  -- verifier
  pub record Traded (kc : KeycloakAuth) (verifier state : Text) (o : S.State) (tokens : Tokens)
      : Type 0 where
    pub visit : Visit
    pub code : Text
    pub came : (B.handle_request o).0 ≡ ok (some visit)
    pub called_path : visit.path ≡ callback_path
    pub has_state : param (codes "state") visit.params ≡ some state
    pub has_code : param (codes "code") visit.params ≡ some code
    pub granted_for :
        (S.post kc.token_endpoint
          (code_form kc code (redirect_uri S B) verifier)
          (B.handle_request o).1).0
        ≡ granted tokens

  trade-ran :
      (kc : KeycloakAuth) (verifier : Text) (code : Option Text) (params : List (Text × Text))
      (tokens : Tokens) (w w' : World S)
      → trade S B kc verifier code params w ≡ (ok tokens, w')
      → (c : Text) × (code ≡ some c)
        × ((S.post kc.token_endpoint (code_form kc c (redirect_uri S B) verifier) w.outside).0
            ≡ granted tokens)
  unfolding trade exchange_code
  trade-ran kc verifier none params tokens w w' h = cc
  trade-ran kc verifier (some c) params tokens w w' h =
      (c, refl, granted_or-to _ _ tokens (ap (λ x. x.0) h))

  after_callback-ran :
      (kc : KeycloakAuth) (verifier state : Text) (params : List (Text × Text)) (tokens : Tokens)
      (w w' : World S)
      → after_callback S B kc verifier state params w ≡ (ok tokens, w')
      → (param (codes "state") params ≡ some state)
        × (trade S B kc verifier (param (codes "code") params) params w ≡ (ok tokens, w'))
  unfolding after_callback
  after_callback-ran kc verifier state params tokens w w' h =
      let (same, traded) =
        guard-ran (same_state state (param (codes "state") params))
          (trade S B kc verifier (param (codes "code") params) params) (auth_error state_mismatch) w
          w' tokens h in
      (same_state-to state (param (codes "state") params) same, traded)

  called_back-ran :
      (o : Option (List (Text × Text))) (params : List (Text × Text)) (w w' : World S)
      → called_back S B o w ≡ (ok params, w')
      → (o ≡ some params) × (w ≡ w')
  unfolding called_back
  called_back-ran none params w w' h = cc
  called_back-ran (some ps) params w w' h = (cc, ap (λ x. x.1) h)

  visited :
      (answer : Result Text (Option Visit)) (params : List (Text × Text)) (w w' : World S)
      → (lift (or_os_error answer) >>= λ v. called_back S B (result_of_visit v)) w ≡ (ok params, w')
      → (visit : Visit) × (answer ≡ ok (some visit))
        × (visit.path ≡ callback_path)
        × (visit.params ≡ params)
        × (w ≡ w')
  visited (err e) params w w' h = cc
  visited (ok v) params w w' h =
      let (given, same) = called_back-ran (result_of_visit v) params w w' h in
      let (visit, found, path, ps) = visit-to v params given in (visit, ap ok found, path, ps, same)

  after_open-Traded :
      (kc : KeycloakAuth) (verifier state url : Text) (opened : Bool) (tokens : Tokens)
      (w w' : World S)
      → after_open S B kc verifier state url opened w ≡ (ok tokens, w')
      → (opened ≡ true) × Traded kc verifier state w.outside tokens
  unfolding after_open wait_for_callback
  after_open-Traded kc verifier state url false tokens w w' h = cc
  after_open-Traded kc verifier state url true tokens w w' h =
      let w0 = record w { outside = (B.handle_request w.outside).1 } in
      let (params, w1, waited, h1) =
        bind-ran (wait_for_callback S B) (after_callback S B kc verifier state) w w' tokens h in
      let (visit, came, path, same, kept) =
        visited (B.handle_request w.outside).0 params w0 w1 waited in
      let (has_state, traded) = after_callback-ran kc verifier state params tokens w1 w' h1 in
      let (code, has_code, granted_for) =
        trade-ran kc verifier (param (codes "code") params) params tokens w1 w' traded in
      (
        refl,
        record {
          visit = visit;
          code = code;
          came = came;
          called_path = path;
          has_state = ap (param (codes "state")) same ∙ has_state;
          has_code = ap (param (codes "code")) same ∙ has_code;
          granted_for =
              subst
                (λ v.
                  (S.post kc.token_endpoint (code_form kc code (redirect_uri S B) verifier)
                    v.outside).0
                  ≡ granted tokens)
                (sym kept) granted_for;
        },
      )

  -- the challenge is the verifier's
  pkce_pair-ran :
      (pair : Text × Text) (w w1 : World S)
      → pkce_pair S B w ≡ (ok pair, w1)
      → pair.1 ≡ challenge_of S B pair.0
  unfolding pkce_pair
  pkce_pair-ran pair w w1 h =
      subst (λ p. p.1 ≡ challenge_of S B p.0) (ok-eq _ pair (ap (λ x. x.0) h)) refl

  -- what a login has gone through
  abbrev pub BoundLogin : Tokens → World S → Type 0
  BoundLogin tokens w =
      (kc : KeycloakAuth) × (pair : Text × Text) × (w1 : World S) × (auth_from_env B.is_space
          B.env_lines B.environ
        ≡ ok kc)
      × (pkce_pair S B w ≡ (ok pair, w1))
      × (pair.1 ≡ challenge_of S B pair.0)
      × ((state : Text) × (o : S.State) × (B.token_urlsafe w1.outside ≡ (state, o))
          × ((B.open_browser (authorize_url S B kc state pair.1) o).0 ≡ true)
          × Traded kc pair.0 state (B.open_browser (authorize_url S B kc state pair.1) o).1 tokens)

  -- Where a login gives tokens, the environment names the realm; a verifier and then a state were
  -- drawn; the browser was opened at the realm's page with that state and the
  -- verifier's challenge; and the tokens are Keycloak's answer for the code of the one visit that came then, to
  -- the callback path, with that very state, sent with the verifier.
  pub login_with_browser-Traded :
      (tokens : Tokens) (w w' : World S)
      → login_with_browser S B w ≡ (ok tokens, w')
      → BoundLogin tokens w
  unfolding login_with_browser login_with_pair
  login_with_browser-Traded tokens w w' h =
      let (kc, configured, h1) =
        lift-ran (auth_from_env B.is_space B.env_lines B.environ) _ w w' tokens h in
      let (pair, w1, drawn, h2) =
        bind-ran (pkce_pair S B) (login_with_pair S B kc) w w' tokens h1 in
      let (state, o) = B.token_urlsafe w1.outside in
      let (opened, traded) =
        after_open-Traded kc pair.0 state (authorize_url S B kc state pair.1)
          (B.open_browser (authorize_url S B kc state pair.1) o).0 tokens
          (record w1 { outside = (B.open_browser (authorize_url S B kc state pair.1) o).1 }) w'
          h2 in
      (
        kc,
        pair,
        w1,
        configured,
        drawn,
        pkce_pair-ran pair w w1 drawn,
        (state, o, refl, opened, traded),
      )
