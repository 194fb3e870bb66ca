-- ===== src/Client/AgentSession/Stored.antt =====
-- What storing a credential does to the entries of agent_credentials.json.
use pabel.Base.{◌≡◌, ◌≢◌, refl, none, some, List, [], ◌∷◌, arith}
use pabel.Base.{Text, text_eq_iff, text_eq_refl}
use pabel.Base.Exec.{ok}
use pabel.Client.{Host, World, Credential}
use pabel.Client.AgentSession.{entry_of, put_entry, store_credentials}

entry_of-put_entry :
    (agent : Text) (e : Credential) (es : List (Text × Credential))
    → entry_of agent (put_entry agent e es) ≡ some e
unfolding entry_of put_entry
entry_of-put_entry agent e [] = ground (arith, text_eq_refl agent)
entry_of-put_entry agent e ((a, x) ∷ es) = ground (arith, entry_of-put_entry agent e es)

entry_of-put_entry_other :
    (agent other : Text) (e : Credential) (es : List (Text × Credential))
    → other ≢ agent
    → entry_of other (put_entry agent e es) ≡ entry_of other es
unfolding entry_of put_entry
entry_of-put_entry_other agent other e [] ne = ground (arith, text_eq_iff agent other)
entry_of-put_entry_other agent other e ((a, x) ∷ es) ne = ground (
  arith,
  text_eq_iff agent other,
  text_eq_iff a agent,
  text_eq_iff a other,
  entry_of-put_entry_other agent other e es ne,
)

module _ (H : Host) (agent client_id client_secret : Text) (w : World H) where
  abbrev after : World H
  after = (store_credentials H agent client_id client_secret w).1

  -- Storing an installation's credential succeeds, and the agent's entry is then the new client
  -- with no token, whatever token an earlier installation had cached; the human's session is as it
  -- was.
  store_credentials-entry :
      ((store_credentials H agent client_id client_secret w).0 ≡ ok tt)
      × (entry_of agent after.credentials
          ≡ some (record {
            client_id = client_id;
            client_secret = client_secret;
            access_token = none;
            expires_in = none;
            obtained_at = none;
          }))
      × (after.session ≡ w.session)
  unfolding store_credentials
  store_credentials-entry = (refl, entry_of-put_entry agent _ w.credentials, refl)

  -- Storing one agent's credential leaves the entry of every other agent as it was.
  store_credentials-other :
      (other : Text)
      → other ≢ agent
      → entry_of other after.credentials ≡ entry_of other w.credentials
  unfolding store_credentials
  store_credentials-other other ne = entry_of-put_entry_other agent other _ w.credentials ne
