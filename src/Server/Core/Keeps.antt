-- ===== src/Server/Core/Keeps.antt =====
-- The database during `current_identity` and `resolve_agent`.
use pabel.Base.{◌≡◌, refl, ◌∙◌, Option, none, some, List, arith, inl, inr, Bool-cases}
use pabel.Base.{Text}
use pabel.Base.Exec.{lift, Result, ok, err, proceed}
use pabel.Server.{
  Service, Services, World, Claims, Tokens, SessionFile, Agent, Installation, Failure,
}
use pabel.Server.Auth.{username_of, verify, check_expiry, client_id_of}
use pabel.Server.Db.{get_agent, get_agent_installation}
use pabel.Server.Core.{
  read_session_file, refresh_session, use_tokens, from_file, session_token, claims_of_request,
  current_identity, for_agent, for_installation, resolve_agent, credential_claims,
}

module _ (S : Services) where
  pub verify-keeps_db : (token : Text) (w : World S) → (verify S token w).1.db ≡ w.db
  unfolding verify check_expiry
  verify-keeps_db token w = ground arith

  refresh_session-keeps_db : (t : Tokens) (w : World S) → (refresh_session S t w).1.db ≡ w.db
  unfolding refresh_session
  refresh_session-keeps_db t w = ground arith

  use_tokens-keeps_db : (t : Option Tokens) (n : _) (w : World S) → (use_tokens S t n w).1.db ≡ w.db
  unfolding use_tokens
  use_tokens-keeps_db none n w = refl
  use_tokens-keeps_db (some t) n w =
      ground (arith, refresh_session-keeps_db t (record w { outside = (S.time w.outside).1 }))

  read_session_file-keeps_db :
      (f : SessionFile) (w : World S) → (read_session_file S f w).1.db ≡ w.db
  unfolding read_session_file
  read_session_file-keeps_db f w = ground arith

  from_file-keeps_db : (f : Option SessionFile) (w : World S) → (from_file S f w).1.db ≡ w.db
  unfolding from_file read_session_file
  from_file-keeps_db none w = refl
  from_file-keeps_db (some f) w =
      use_tokens-keeps_db (read_session_file S f w).1.session.tokens
        (read_session_file S f w).1.session.obtained_at (read_session_file S f w).1
      ∙ read_session_file-keeps_db f w

  for_agent-keeps_db :
      (id : Text) (roles : List Text) (o : Option Agent) (w : World S)
      → (for_agent S id roles o w).1.db ≡ w.db
  unfolding for_agent
  for_agent-keeps_db id roles none w = refl
  for_agent-keeps_db id roles (some a) w = ground arith

  get_agent-keeps_db : (id : Text) (w : World S) → (get_agent S id w).1.db ≡ w.db
  unfolding get_agent
  get_agent-keeps_db id w = ground arith

  get_agent_installation-keeps_db :
      (id : Text) (w : World S) → (get_agent_installation S id w).1.db ≡ w.db
  unfolding get_agent_installation
  get_agent_installation-keeps_db id w = ground arith

  after-keeps_db :
      {A B : Type 0} (f : A → Service S B) (got : Result Failure A × World S) (w : World S)
      → got.1.db ≡ w.db
      → ((a : A) (v : World S) → (f a v).1.db ≡ v.db)
      → (proceed f got).1.db ≡ w.db
  after-keeps_db f (ok a, v) w h k = k a v ∙ h
  after-keeps_db f (err e, v) w h k = h

  lift-keeps_db :
      {A B : Type 0} (f : A → Service S B) (r : Result Failure A) (w : World S)
      → ((a : A) (v : World S) → (f a v).1.db ≡ v.db)
      → (proceed f (lift r w)).1.db ≡ w.db
  lift-keeps_db f (ok a) w k = k a w
  lift-keeps_db f (err e) w k = refl

  claims_of_request-keeps_db :
      (c : Option Claims) (w : World S) → (claims_of_request S c w).1.db ≡ w.db
  unfolding claims_of_request session_token
  claims_of_request-keeps_db (some c) w = refl
  claims_of_request-keeps_db none w =
      after-keeps_db (verify S) (from_file S w.session_file w) w
        (from_file-keeps_db w.session_file w) verify-keeps_db

  pub current_identity-keeps_db : (w : World S) → (current_identity S w).1.db ≡ w.db
  unfolding current_identity
  current_identity-keeps_db w =
      after-keeps_db _ (claims_of_request S w.request_claims w) w
        (claims_of_request-keeps_db w.request_claims w)
        (λ c v. lift-keeps_db _ (username_of c) v (λ u v'. refl))

  for_installation-keeps_db :
      (client_id : Text) (roles : List Text) (o : Option Installation) (w : World S)
      → (for_installation S client_id roles o w).1.db ≡ w.db
  unfolding for_installation
  for_installation-keeps_db client_id roles none w = refl
  for_installation-keeps_db client_id roles (some i) w = elim (Bool-cases i.revoked) [
    | inl gone ↦ rw gone refl
    | inr valid ↦ rw valid (
        after-keeps_db (for_agent S i.product roles) (get_agent S i.product w) w
          (get_agent-keeps_db i.product w) (for_agent-keeps_db i.product roles))
  ]

  pub resolve_agent-keeps_db :
      (token : Text) (roles : List Text) (w : World S) → (resolve_agent S token roles w).1.db ≡ w.db
  unfolding resolve_agent
  resolve_agent-keeps_db token roles w =
      lift-keeps_db _ (credential_claims S (verify S token w).0) (verify S token w).1 (λ c v.
        lift-keeps_db _ (client_id_of c) v (λ client_id v'.
          after-keeps_db _ (get_agent_installation S client_id v') v'
            (get_agent_installation-keeps_db client_id v')
            (for_installation-keeps_db client_id roles)))
      ∙ verify-keeps_db token w
