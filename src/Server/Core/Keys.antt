-- ===== src/Server/Core/Keys.antt =====
-- The cache of combined keys of `agent_session_key` in server/core.py.
use pabel.Base.{◌⊎◌, ◌≡◌, refl, ap, sym, ◌∙◌, Option, none, some, List, [], ◌∷◌, arith}
use pabel.Base.{Text, All, inl, inr, Bool-cases, text_eq, text_eq_iff}
use mathlib.Core.Path.{subst}
use mathlib.Core.Option.{some-injective}
use pabel.Base.Exec.{Result, ok, err, pure, proceed}
use pabel.Server.{Services, World, KeyRow, Failure}
use pabel.Server.Core.{agent_session_key, cached_or_new, regenerate, combined_attributes}
use pabel.Server.Abe.{keygen}
use pabel.Server.Db.{find_key, upsert_key, owns, get_agent_key, store_agent_key}

module _ (S : Services)
    -- what OpenABE's keygen promises of its output, and that SHA-256 does not collide
    (IsKeyFor : Text → Text → Type 0)
    (oabe_keygen-IsKeyFor : (attributes key : Text) (s : S.State)
      → (S.oabe_keygen attributes s).0 ≡ some key
      → IsKeyFor attributes key)
    (sha256-injective : (a b : Text) → S.sha256 a ≡ S.sha256 b → a ≡ b) where
  -- the row's key is one for the attributes whose hash the row has
  pub record Matches (k : KeyRow) : Type 0 where
    pub attributes : Text
    pub hashed : k.attributes_hash ≡ S.sha256 attributes
    pub is_key : IsKeyFor attributes k.key_material

  find_key-Matches :
      (username agent_id : Text) (ks : List KeyRow) (k : KeyRow)
      → All Matches ks
      → find_key username agent_id ks ≡ some k
      → Matches k
  unfolding find_key
  find_key-Matches username agent_id [] k m h = cc
  find_key-Matches username agent_id (x ∷ ks) k m h = elim (Bool-cases (owns username agent_id x)) [
    | inl own ↦ subst Matches (some-injective x k (rw own at h)) m.0
    | inr other ↦ find_key-Matches username agent_id ks k m.1 (rw other at h)
  ]

  upsert_key-Matches :
      (username agent_id attributes key : Text) (ks : List KeyRow)
      → All Matches ks
      → IsKeyFor attributes key
      → All Matches (upsert_key username agent_id (S.sha256 attributes) key ks)
  unfolding upsert_key
  upsert_key-Matches username agent_id attributes key [] m h =
      (record { attributes = attributes; hashed = refl; is_key = h }, tt)
  upsert_key-Matches username agent_id attributes key (x ∷ ks) m h =
      elim (Bool-cases (owns username agent_id x)) [
        | inl same ↦ rw same (record { attributes = attributes; hashed = refl; is_key = h }, m.1)
        | inr other ↦ rw other (m.0, upsert_key-Matches username agent_id attributes key ks m.1 h)
      ]

  keygen-ok :
      (attributes key : Text) (w : World S)
      → (keygen S attributes w).0 ≡ ok key
      → IsKeyFor attributes key
  unfolding keygen
  keygen-ok attributes key w h = oabe_keygen-IsKeyFor attributes key w.outside (ground arith)

  keygen-db : (attributes : Text) (w : World S) → (keygen S attributes w).1.db ≡ w.db
  unfolding keygen
  keygen-db attributes w = refl

  regenerate-ok :
      (username agent_id attributes key : Text) (w : World S)
      → (regenerate S username agent_id attributes w).0 ≡ ok key
      → IsKeyFor attributes key
  unfolding regenerate
  regenerate-ok username agent_id attributes key w h = keygen-ok attributes key w (ground arith)

  -- the table is as it was, or has the new row
  store_agent_key-keys :
      (username agent_id hash key : Text) (w : World S)
      → ((store_agent_key S username agent_id hash key w).1.db.agent_keys ≡ w.db.agent_keys)
        ⊎ ((store_agent_key S username agent_id hash key w).1.db.agent_keys
            ≡ upsert_key username agent_id hash key w.db.agent_keys)
  unfolding store_agent_key
  store_agent_key-keys username agent_id hash key w = ground arith

  store_agent_key-Matches :
      (username agent_id attributes key : Text) (w : World S)
      → All Matches w.db.agent_keys
      → IsKeyFor attributes key
      → All Matches
          (store_agent_key S username agent_id (S.sha256 attributes) key w).1.db.agent_keys
  store_agent_key-Matches username agent_id attributes key w m h =
      elim (store_agent_key-keys username agent_id (S.sha256 attributes) key w) [
        | inl same ↦ rw same m
        | inr new ↦ rw new (upsert_key-Matches username agent_id attributes key w.db.agent_keys m h)
      ]

  state_of_pure :
      (key : Text) (x : Result Failure Unit × World S)
      → (proceed (λ _. pure {F = Failure} key) x).1 ≡ x.1
  state_of_pure key (ok u, v) = refl
  state_of_pure key (err e, v) = refl

  -- after the key was made, or the tool failed
  stored_after :
      (username agent_id attributes : Text) (w : World S) (got : Result Failure Text × World S)
      → keygen S attributes w ≡ got
      → All Matches w.db.agent_keys
      → All Matches
          (proceed
            (λ key. λ v.
              proceed
                (λ _. pure key)
                (store_agent_key S username agent_id (S.sha256 attributes) key v))
            got).1.db.agent_keys
  stored_after username agent_id attributes w (ok key, v) g m =
      rw (state_of_pure key (store_agent_key S username agent_id (S.sha256 attributes) key v)) (
        store_agent_key-Matches username agent_id attributes key v
          (subst (λ (x : World S). All Matches x.db.agent_keys) (ap (λ x. x.1) g)
            (rw (keygen-db attributes w) m))
          (keygen-ok attributes key w (ap (λ x. x.0) g)))
  stored_after username agent_id attributes w (err e, v) g m =
      subst (λ (x : World S). All Matches x.db.agent_keys) (ap (λ x. x.1) g)
        (rw (keygen-db attributes w) m)

  regenerate-Matches :
      (username agent_id attributes : Text) (w : World S)
      → All Matches w.db.agent_keys
      → All Matches (regenerate S username agent_id attributes w).1.db.agent_keys
  unfolding regenerate
  regenerate-Matches username agent_id attributes w m =
      stored_after username agent_id attributes w (keygen S attributes w) refl m

  cached_or_new-ok :
      (username agent_id attributes key : Text) (o : Option KeyRow) (w : World S)
      → ((row : KeyRow) → o ≡ some row → Matches row)
      → (cached_or_new S username agent_id attributes o w).0 ≡ ok key
      → IsKeyFor attributes key
  unfolding cached_or_new
  cached_or_new-ok username agent_id attributes key none w m h =
      regenerate-ok username agent_id attributes key w h
  cached_or_new-ok username agent_id attributes key (some row) w m h =
      elim (Bool-cases (text_eq row.attributes_hash (S.sha256 attributes))) [
        | inl same ↦ of_row row (m row refl) ((text_eq_iff _ _).0 same) (rw same at h)
        | inr other ↦ regenerate-ok username agent_id attributes key w (rw other at h)
      ]
    where
      of_row :
          (row : KeyRow)
          → Matches row
          → row.attributes_hash ≡ S.sha256 attributes
          → ◌≡◌ {A = Result Failure Text} (ok row.key_material) (ok key)
          → IsKeyFor attributes key
      of_row row r same e =
          subst (λ k. IsKeyFor attributes k) (cc e)
            (subst (λ a. IsKeyFor a row.key_material)
              (sha256-injective r.attributes attributes (sym r.hashed ∙ same)) r.is_key)

  cached_or_new-Matches :
      (username agent_id attributes : Text) (o : Option KeyRow) (w : World S)
      → All Matches w.db.agent_keys
      → All Matches (cached_or_new S username agent_id attributes o w).1.db.agent_keys
  unfolding cached_or_new
  cached_or_new-Matches username agent_id attributes none w m =
      regenerate-Matches username agent_id attributes w m
  cached_or_new-Matches username agent_id attributes (some row) w m =
      elim (Bool-cases (text_eq row.attributes_hash (S.sha256 attributes))) [
        | inl same ↦ rw same m
        | inr other ↦ rw other (regenerate-Matches username agent_id attributes w m)
      ]

  get_agent_key-ok :
      (username agent_id : Text) (w : World S) (o : Option KeyRow)
      → (get_agent_key S username agent_id w).0 ≡ ok o
      → find_key username agent_id w.db.agent_keys ≡ o
  unfolding get_agent_key
  get_agent_key-ok username agent_id w o h = ground arith

  get_agent_key-db :
      (username agent_id : Text) (w : World S) → (get_agent_key S username agent_id w).1.db ≡ w.db
  unfolding get_agent_key
  get_agent_key-db username agent_id w = ground arith

  -- the two halves, from what the look-up returned
  after_lookup :
      (username agent_id attributes : Text) (w : World S)
      (got : Result Failure (Option KeyRow) × World S)
      → get_agent_key S username agent_id w ≡ got
      → All Matches w.db.agent_keys
      → ((key : Text)
          → (proceed (λ o. cached_or_new S username agent_id attributes o) got).0 ≡ ok key
          → IsKeyFor attributes key)
        × All Matches
            (proceed (λ o. cached_or_new S username agent_id attributes o) got).1.db.agent_keys
  after_lookup username agent_id attributes w (ok o, v) g m = (
    λ key h.
        cached_or_new-ok username agent_id attributes key o v
          (λ row e.
            find_key-Matches username agent_id w.db.agent_keys row m
              (get_agent_key-ok username agent_id w o (ap (λ x. x.0) g) ∙ e))
          h,
    cached_or_new-Matches username agent_id attributes o v (
        subst (λ (x : World S). All Matches x.db.agent_keys) (ap (λ x. x.1) g)
          (rw (get_agent_key-db username agent_id w) m)),
  )
  after_lookup username agent_id attributes w (err e, v) g m = (
    λ key h. cc,
    subst (λ (x : World S). All Matches x.db.agent_keys) (ap (λ x. x.1) g)
        (rw (get_agent_key-db username agent_id w) m),
  )

  both_halves :
      (username : Text) (user_attributes : List Text) (agent_id agent_attributes : Text)
      (w : World S)
      → All Matches w.db.agent_keys
      → ((key : Text)
          → (agent_session_key S username user_attributes agent_id agent_attributes w).0 ≡ ok key
          → IsKeyFor (combined_attributes user_attributes agent_attributes) key)
        × All Matches
            (agent_session_key S username user_attributes agent_id agent_attributes
              w).1.db.agent_keys
  unfolding agent_session_key
  both_halves username [] agent_id agent_attributes w m = (λ key h. cc, m)
  both_halves username (a ∷ as_) agent_id agent_attributes w m =
      after_lookup username agent_id (combined_attributes (a ∷ as_) agent_attributes) w
        (get_agent_key S username agent_id w) refl m

  -- Where keygen gives a key for the attributes it is asked for and SHA-256 does not collide: while
  -- every cached key matches the hash beside it, the key that a request is given is one for the
  -- user's and the agent's attributes of that moment.
  pub agent_session_key-IsKeyFor :
      (username : Text) (user_attributes : List Text) (agent_id agent_attributes : Text)
      (w : World S) (key : Text)
      → All Matches w.db.agent_keys
      → (agent_session_key S username user_attributes agent_id agent_attributes w).0 ≡ ok key
      → IsKeyFor (combined_attributes user_attributes agent_attributes) key
  agent_session_key-IsKeyFor username user_attributes agent_id agent_attributes w key m h =
      (both_halves username user_attributes agent_id agent_attributes w m).0 key h

  -- Where keygen gives a key for the attributes it is asked for and SHA-256 does not collide: whether
  -- a request for a key succeeds or fails, cached keys that match the hashes beside them go on
  -- matching them.
  pub agent_session_key-Matches :
      (username : Text) (user_attributes : List Text) (agent_id agent_attributes : Text)
      (w : World S)
      → All Matches w.db.agent_keys
      → All Matches
          (agent_session_key S username user_attributes agent_id agent_attributes w).1.db.agent_keys
  agent_session_key-Matches username user_attributes agent_id agent_attributes w m =
      (both_halves username user_attributes agent_id agent_attributes w m).1
