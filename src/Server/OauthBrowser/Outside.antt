-- ===== src/Server/OauthBrowser/Outside.antt =====
-- What a login through the browser changes.
use pabel.Base.{◌≡◌, refl, ap, ◌∙◌, Bool, true, false, Option, none, some, List}
use pabel.Base.{Text, codes, if◌then◌else◌}
use pabel.Base.Exec.{Result, ok, err, lift, proceed, raise}
use pabel.Server.{Services, World, Service, KeycloakAuth, Failure, auth_error, state_mismatch}
use pabel.Server.Keycloak.{auth_from_env, exchange_code}
use pabel.Server.OauthBrowser.{
  Browser, pkce_pair, authorize_url, wait_for_callback, trade, called_back, result_of_visit,
  after_callback, after_open, login_with_pair, login_with_browser, or_os_error, same_state, param,
}

-- only the outside differs
abbrev pub Outside : {S : Services} → World S → World S → Type 0
Outside w w' = w' ≡ record w { outside = w'.outside }

module _ (S : Services) where
  Outside-∘ : (w v u : World S) → Outside w v → Outside v u → Outside w u
  Outside-∘ w v u h k = k ∙ ap (λ (x : World S). record x { outside = u.outside }) h

  proceed-Outside :
      {A B : Type 0} (f : A → Service S B) (got : Result Failure A × World S) (w : World S)
      → Outside w got.1
      → ((a : A) (v : World S) → Outside v (f a v).1)
      → Outside w (proceed f got).1
  proceed-Outside f (ok a, v) w h k = Outside-∘ w v (f a v).1 h (k a v)
  proceed-Outside f (err e, v) w h k = h

  module _ (B : Browser S) where
    trade-Outside :
        (kc : KeycloakAuth) (verifier : Text) (code : Option Text) (params : List (Text × Text))
        (w : World S)
        → Outside w (trade S B kc verifier code params w).1
    unfolding trade exchange_code
    trade-Outside kc verifier none params w = refl
    trade-Outside kc verifier (some code) params w = refl

    after_callback-Outside :
        (kc : KeycloakAuth) (verifier state : Text) (params : List (Text × Text)) (w : World S)
        → Outside w (after_callback S B kc verifier state params w).1
    unfolding after_callback
    after_callback-Outside kc verifier state params w =
        elim (same_state state (param (codes "state") params))
          as (λ b.
            Outside w
              ((if b
                  then trade S B kc verifier (param (codes "code") params) params
                  else raise (auth_error state_mismatch))
                w).1) [
                  | true ↦ trade-Outside kc verifier (param (codes "code") params) params w
                  | false ↦ refl
                ]

    called_back-Outside :
        (o : Option (List (Text × Text))) (w : World S) → Outside w (called_back S B o w).1
    unfolding called_back
    called_back-Outside none w = refl
    called_back-Outside (some params) w = refl

    wait_for_callback-Outside : (w : World S) → Outside w (wait_for_callback S B w).1
    unfolding wait_for_callback
    wait_for_callback-Outside w =
        let (answer, o) = B.handle_request w.outside in
        let w0 : World S = record w { outside = o } in
        Outside-∘ w w0 _ refl (
          proceed-Outside (λ v. called_back S B (result_of_visit v)) (lift (or_os_error answer) w0)
            w0 refl (λ v u. called_back-Outside (result_of_visit v) u))

    after_open-Outside :
        (kc : KeycloakAuth) (verifier state url : Text) (opened : Bool) (w : World S)
        → Outside w (after_open S B kc verifier state url opened w).1
    unfolding after_open
    after_open-Outside kc verifier state url false w = refl
    after_open-Outside kc verifier state url true w =
        proceed-Outside (after_callback S B kc verifier state) (wait_for_callback S B w) w
          (wait_for_callback-Outside w) (after_callback-Outside kc verifier state)

    login_with_pair-Outside :
        (kc : KeycloakAuth) (pair : Text × Text) (w : World S)
        → Outside w (login_with_pair S B kc pair w).1
    unfolding login_with_pair
    login_with_pair-Outside kc pair w =
        let (state, o) = B.token_urlsafe w.outside in
        let url = authorize_url S B kc state pair.1 in
        let (opened, o') = B.open_browser url o in
        Outside-∘ w (record w { outside = o' }) _ refl
          (after_open-Outside kc pair.0 state url opened (record w { outside = o' }))

    pub login_with_browser-Outside : (w : World S) → Outside w (login_with_browser S B w).1
    unfolding login_with_browser pkce_pair
    login_with_browser-Outside w =
        proceed-Outside _ (lift (auth_from_env B.is_space B.env_lines B.environ) w) w refl (λ kc v.
          proceed-Outside (login_with_pair S B kc) (pkce_pair S B v) v refl
            (login_with_pair-Outside kc))
