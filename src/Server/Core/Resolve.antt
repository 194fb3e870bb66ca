-- ===== src/Server/Core/Resolve.antt =====
-- Which installation a request may act for, and what revoking one does.
use pabel.Base.{
  inl, inr, Bool-cases, ◌≡◌, ◌≢◌, refl, ap, ◌∙◌, sym, Bool, true, false, Option, none, some, List,
  [], ◌∷◌, arith,
}
use pabel.Base.{ℕ, ◌≤◌, ◌*◌, Text, contains, text_eq_instance, or_default, if◌then◌else◌}
use mathlib.Core.Path.{subst}
use pabel.Base.Exec.{Result, ok, err, proceed}
use pabel.Server.{Services, World, Claims, claims}
use pabel.Server.{Tables, Agent, Installation, Failure, auth_error, unrecognized_installation}
use pabel.Server.Auth.{verify, check_expiry, client_id_of}
use pabel.Server.Core.{resolve_agent, for_installation, for_agent, credential_claims}
use pabel.Server.Db.{
  get_agent, get_agent_installation, find_agent, find_installation, update_revoked,
}
use pabel.Server.Db.{set_installation_revoked}

module _ (S : Services) where
  -- the clock that a verification reads
  abbrev pub clock_of : Text → World S → ℕ
  clock_of token w = (S.time (S.decode token w.outside).1).0

  -- A token that verifies was decoded, signature and issuer included, and had not expired then.
  verify-ok :
      (token : Text) (w : World S) (c : Claims)
      → (verify S token w).0 ≡ ok c
      → ((S.decode token w.outside).0 ≡ claims c) × (clock_of token w ≤ 1000 * or_default c.exp 0)
  unfolding verify check_expiry
  verify-ok token w c h = ground arith

  verify-db : (token : Text) (w : World S) → (verify S token w).1.db ≡ w.db
  unfolding verify
  verify-db token w = ground arith

  get_agent-ok :
      (agent_id : Text) (w : World S) (o : Option Agent)
      → (get_agent S agent_id w).0 ≡ ok o
      → find_agent agent_id w.db.agents ≡ o
  unfolding get_agent
  get_agent-ok agent_id w o h = ground arith

  get_agent_installation-ok :
      (client_id : Text) (w : World S) (o : Option Installation)
      → (get_agent_installation S client_id w).0 ≡ ok o
      → find_installation client_id w.db.installations ≡ o
  unfolding get_agent_installation
  get_agent_installation-ok client_id w o h = ground arith

  get_agent_installation-db :
      (client_id : Text) (w : World S) → (get_agent_installation S client_id w).1.db ≡ w.db
  unfolding get_agent_installation
  get_agent_installation-db client_id w = ground arith

  -- what the product gives to a user with these roles
  abbrev pub granted : Agent → List Text → Text
  granted a user_roles = if contains a.required_role user_roles then a.attributes else []

  pub record OfProduct (db : Tables) (product : Text) (user_roles : List Text) (r : Text × Text)
      : Type 0 where
    pub agent : Agent
    pub found : find_agent product db.agents ≡ some agent
    pub enabled : agent.enabled ≡ true
    pub answer : r ≡ (product, granted agent user_roles)

  for_agent-ok :
      (product : Text) (user_roles : List Text) (o : Option Agent) (w v : World S) (r : Text × Text)
      → find_agent product w.db.agents ≡ o
      → (for_agent S product user_roles o v).0 ≡ ok r
      → OfProduct w.db product user_roles r
  unfolding for_agent
  for_agent-ok product user_roles none w v r f h = ground arith
  for_agent-ok product user_roles (some a) w v r f h = record {
    agent = a;
    found = f;
    enabled = ground arith;
    answer = ground arith;
  }

  product_of :
      (product : Text) (user_roles : List Text) (w : World S)
      (got : Result Failure (Option Agent) × World S) (r : Text × Text)
      → get_agent S product w ≡ got
      → (proceed (λ o. for_agent S product user_roles o) got).0 ≡ ok r
      → OfProduct w.db product user_roles r
  product_of product user_roles w (ok o, v) r g h =
      for_agent-ok product user_roles o w v r (get_agent-ok product w o (ap (λ x. x.0) g)) h
  product_of product user_roles w (err e, v) r g h = cc

  pub record OfInstallation (db : Tables) (client_id : Text) (user_roles : List Text)
      (r : Text × Text) : Type 0 where
    pub row : Installation
    pub found : find_installation client_id db.installations ≡ some row
    pub valid : row.revoked ≡ false
    pub product : OfProduct db row.product user_roles r

  for_installation-ok :
      (client_id : Text) (user_roles : List Text) (o : Option Installation) (w : World S)
      (r : Text × Text)
      → find_installation client_id w.db.installations ≡ o
      → (for_installation S client_id user_roles o w).0 ≡ ok r
      → OfInstallation w.db client_id user_roles r
  unfolding for_installation
  for_installation-ok client_id user_roles none w r f h = ground arith
  for_installation-ok client_id user_roles (some i) w r f h = elim (Bool-cases i.revoked) [
    | inl revoked ↦ absurd (refused (rw revoked at h))
    | inr valid ↦ record {
      row = i;
      found = f;
      valid = valid;
      product = product_of i.product user_roles w (get_agent S i.product w) r refl (rw valid at h);
    }
  ]
    where
      refused : err (auth_error (unrecognized_installation client_id)) ≡ ok r → ⊥
      refused e = cc

  of_client :
      (client_id : Text) (user_roles : List Text) (w : World S)
      (got : Result Failure (Option Installation) × World S) (r : Text × Text)
      → get_agent_installation S client_id w ≡ got
      → (proceed (λ o. for_installation S client_id user_roles o) got).0 ≡ ok r
      → OfInstallation w.db client_id user_roles r
  of_client client_id user_roles w (ok o, v) r g h =
      subst (λ db. OfInstallation db client_id user_roles r)
        (ap (λ x. x.1.db) (sym g) ∙ get_agent_installation-db client_id w)
        (for_installation-ok client_id user_roles o v r
          (ap (λ x. find_installation client_id x.1.db.installations) (sym g)
            ∙ (ap (λ t. find_installation client_id t.installations)
                  (get_agent_installation-db client_id w)
                ∙ get_agent_installation-ok client_id w o (ap (λ x. x.0) g)))
          h)
  of_client client_id user_roles w (err e, v) r g h = cc

  pub record Resolved (w : World S) (token : Text) (user_roles : List Text) (r : Text × Text)
      : Type 0 where
    pub claims_of_token : Claims
    pub verified : (verify S token w).0 ≡ ok claims_of_token
    pub client_id : Text
    pub client : client_id_of claims_of_token ≡ ok client_id
    pub installation : OfInstallation w.db client_id user_roles r

  named_client :
      (token : Text) (w : World S) (c : Claims) (v : World S) (user_roles : List Text)
      (named : Result Failure Text) (r : Text × Text)
      → verify S token w ≡ (ok c, v)
      → client_id_of c ≡ named
      → (proceed
          (λ client_id. λ v'.
            proceed
              (λ o. for_installation S client_id user_roles o)
              (get_agent_installation S client_id v'))
          (named, v)).0
        ≡ ok r
      → Resolved w token user_roles r
  named_client token w c v user_roles (err e) r g n h = cc
  named_client token w c v user_roles (ok client_id) r g n h = record {
    claims_of_token = c;
    verified = ap (λ x. x.0) g;
    client_id = client_id;
    client = n;
    installation =
        subst (λ db. OfInstallation db client_id user_roles r)
          (ap (λ x. x.1.db) (sym g) ∙ verify-db token w)
          (of_client client_id user_roles v (get_agent_installation S client_id v) r refl h);
  }

  verified_claims :
      (token : Text) (w : World S) (got : Result Failure Claims × World S) (user_roles : List Text)
      (r : Text × Text)
      → verify S token w ≡ got
      → (proceed
          (λ c. λ v.
            proceed
              (λ client_id. λ v'.
                proceed
                  (λ o. for_installation S client_id user_roles o)
                  (get_agent_installation S client_id v'))
              (client_id_of c, v))
          (credential_claims S got.0, got.1)).0
        ≡ ok r
      → Resolved w token user_roles r
  verified_claims token w (ok c, v) user_roles r g h =
      named_client token w c v user_roles (client_id_of c) r g refl h
  verified_claims token w (err (auth_error p), v) user_roles r g h = cc
  verified_claims token w (err e, v) user_roles r g h = cc

  -- Whoever resolve_agent() answers for has shown a verified token of an installation that is
  -- registered and not revoked, of a product that is enabled. The product is the registered one, and
  -- its attributes are given exactly where the user has the required role.
  pub resolve_agent-ok :
      (token : Text) (user_roles : List Text) (w : World S) (r : Text × Text)
      → (resolve_agent S token user_roles w).0 ≡ ok r
      → Resolved w token user_roles r
  unfolding resolve_agent
  resolve_agent-ok token user_roles w r h =
      verified_claims token w (verify S token w) user_roles r refl h

find_installation-update_revoked :
    (client_id : Text) (is : List Installation) (i : Installation)
    → find_installation client_id (update_revoked client_id true is) ≡ some i
    → i.revoked ≡ true
unfolding find_installation update_revoked
find_installation-update_revoked client_id [] i h = cc
find_installation-update_revoked client_id (x ∷ is) i h =
    ground (arith, find_installation-update_revoked client_id is i)

module _ (S : Services) where
  revoked_rows :
      (client_id : Text) (w : World S) (b : Bool) (i : Installation)
      → (set_installation_revoked S client_id true w).0 ≡ ok b
      → find_installation client_id (set_installation_revoked S client_id true w).1.db.installations
        ≡ some i
      → i.revoked ≡ true
  unfolding set_installation_revoked
  revoked_rows client_id w b i h f =
      ground (arith, find_installation-update_revoked client_id w.db.installations i)

  -- Once an installation is revoked, no token of its client resolves to an agent, whatever roles the
  -- user has.
  resolve_agent-revoked :
      (client_id token : Text) (user_roles : List Text) (w : World S) (b : Bool) (c : Claims)
      (r : Text × Text)
      → (set_installation_revoked S client_id true w).0 ≡ ok b
      → (verify S token (set_installation_revoked S client_id true w).1).0 ≡ ok c
      → client_id_of c ≡ ok client_id
      → (resolve_agent S token user_roles (set_installation_revoked S client_id true w).1).0 ≢ ok r
  resolve_agent-revoked client_id token user_roles w b c r done verified client h =
      let q =
        resolve_agent-ok S token user_roles (set_installation_revoked S client_id true w).1 r h in
      let same : q.client_id ≡ client_id = cc (q.verified, q.client, verified, client) in
      let row = revoked_rows client_id w b q.installation.row done (
        subst
          (λ t.
            find_installation t (set_installation_revoked S client_id true w).1.db.installations
            ≡ some q.installation.row)
          same q.installation.found) in
      cc (row, q.installation.valid)
