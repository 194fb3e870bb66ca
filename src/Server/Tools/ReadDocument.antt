-- ===== src/Server/Tools/ReadDocument.antt =====
-- What stands behind an answer of read_document.
use pabel.Base.{◌≡◌, refl, sym, ◌∙◌, some, List, All}
use pabel.Base.{Text}
use mathlib.Core.Path.{subst}
use pabel.Base.Exec.{Result, ok, err, proceed, lift}
use pabel.Server.{Service, Services, World, Failure, op_read_document}
use pabel.Server.Core.{
  current_identity, resolve_agent, agent_session_key, combined_attributes, blank,
}
use pabel.Server.Core.Audit.{audit_op-ok}
use pabel.Server.Core.Keeps.{current_identity-keeps_db, resolve_agent-keeps_db}
use pabel.Server.Core.Keys.{Matches, agent_session_key-IsKeyFor}
use pabel.Server.Core.Resolve.{Resolved, resolve_agent-ok}
use pabel.Server.Decrypt.{decrypt_document}
use pabel.Server.Tools.{
  read_document, read_body, decoded_content, know_user, know_agent, ReadResult,
}

-- the first of two steps, and the second from there
record Steps {S : Services} {A B : Type 0} (got : Result Failure A × World S) (f : A → Service S B)
    (b : B) : Type 0 where
  value : A
  given : got.0 ≡ ok value
  gives : (f value got.1).0 ≡ ok b

ok_inj : {a b : ReadResult} → ◌≡◌ {A = Result Failure ReadResult} (ok a) (ok b) → a ≡ b
ok_inj h = cc

lifted :
    {S : Services} {A : Type 0} (r : Result Failure A) (w : World S)
    → (lift {S = World S} r w).0 ≡ r
lifted (ok a) w = refl
lifted (err e) w = refl

steps :
    {S : Services} {A B : Type 0} (got : Result Failure A × World S) (f : A → Service S B) (b : B)
    → (proceed f got).0 ≡ ok b
    → Steps got f b
steps (ok a, v) f b h = record { value = a; given = refl; gives = h }
steps (err e, v) f b h = cc

module _ (S : Services) (IsKeyFor : Text → Text → Type 0)
    (oabe_keygen-IsKeyFor : (attributes key : Text) (s : S.State)
      → (S.oabe_keygen attributes s).0 ≡ some key
      → IsKeyFor attributes key)
    (sha256-injective : (a b : Text) → S.sha256 a ≡ S.sha256 b → a ≡ b) where
  -- the identity, the agent, the key and the text that an answer rests on
  pub record Grounds (w : World S) (content token : Text) (r : ReadResult) : Type 0 where
    pub user_attributes : List Text
    pub user_roles : List Text
    pub agent_attributes : Text
    pub key : Text
    pub text : Text
    -- where the agent's credential was looked at
    pub asked : World S
    pub same_tables : asked.db ≡ w.db
    pub identity :
        (current_identity S (record w { ctx = blank })).0 ≡ ok (r.user, user_attributes, user_roles)
    pub agent : Resolved S asked token user_roles (r.agent, agent_attributes)
    pub is_key : IsKeyFor (combined_attributes user_attributes agent_attributes) key
    pub decoded : decoded_content S content ≡ ok text
    pub decrypted : decrypt_document S text key ≡ ok r.sections

  read_body-Grounds :
      (content token name : Text) (w : World S) (r : ReadResult)
      → All (Matches S IsKeyFor oabe_keygen-IsKeyFor sha256-injective) w.db.agent_keys
      → (read_body S content token name (record w { ctx = blank })).0 ≡ ok r
      → Grounds w content token r
  unfolding read_body know_user know_agent
  read_body-Grounds content token name w r m h =
      let who = steps (current_identity S (record w { ctx = blank })) _ r h in
      let told = (know_user S who.value.0 (current_identity S (record w { ctx = blank })).1).1 in
      let agent = steps (resolve_agent S token who.value.2 told) _ r who.gives in
      let known = (know_agent S agent.value.0 (resolve_agent S token who.value.2 told).1).1 in
      let keyed = (agent_session_key S who.value.0 who.value.1 agent.value.0 agent.value.1 known) in
      let key = steps keyed _ r agent.gives in
      let text = steps (lift (decoded_content S content) keyed.1) _ r key.gives in
      let sections =
        steps
          (lift (decrypt_document S text.value key.value)
            (lift (decoded_content S content) keyed.1).1)
          _ r text.gives in
      let tables = current_identity-keeps_db S (record w { ctx = blank }) in
      subst (Grounds w content token) (ok_inj sections.gives) (record {
        user_attributes = who.value.1;
        user_roles = who.value.2;
        agent_attributes = agent.value.1;
        key = key.value;
        text = text.value;
        asked = told;
        same_tables = tables;
        identity = who.given;
        agent = resolve_agent-ok S token who.value.2 told agent.value agent.given;
        is_key =
            agent_session_key-IsKeyFor S IsKeyFor oabe_keygen-IsKeyFor sha256-injective who.value.0
              who.value.1 agent.value.0 agent.value.1 known key.value
              (subst
                (λ db. All (Matches S IsKeyFor oabe_keygen-IsKeyFor sha256-injective) db.agent_keys)
                (sym (resolve_agent-keeps_db S token who.value.2 told ∙ tables)) m)
              key.given;
        decoded = sym (lifted (decoded_content S content) keyed.1) ∙ text.given;
        decrypted = sym (lifted (decrypt_document S text.value key.value) keyed.1) ∙ sections.given;
      })

  -- Where read_document answers, keygen gives a key for the attributes it is asked for, SHA-256 does
  -- not collide, and every cached key matches the hash beside it: the user is the one of the
  -- request; the agent is that of an installation whose verified token was shown, and that is
  -- registered, not revoked and of an enabled product; and the sections are the document's,
  -- decrypted with a key for the attributes of both.
  pub read_document-Grounds :
      (content token name : Text) (w : World S) (r : ReadResult)
      → All (Matches S IsKeyFor oabe_keygen-IsKeyFor sha256-injective) w.db.agent_keys
      → (read_document S content token name w).0 ≡ ok r
      → Grounds w content token r
  unfolding read_document
  read_document-Grounds content token name w r m h =
      read_body-Grounds content token name w r m
        (audit_op-ok S op_read_document (some name) (read_body S content token name) w r h)
