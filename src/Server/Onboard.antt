-- ===== src/Server/Onboard.antt =====
-- admin.py: `onboard` and `grant`. The variables of server/.env are read at each request; a user
-- whose role cannot be assigned ends the command with what was done before in place.
pub mod Ready
pub mod Usable
use pabel.Base.{ℕ, Bool, true, false, not, Option, none, some, List, [], ◌∷◌, ◌++◌}
use pabel.Base.{Text, codes, text_eq, nat_beq, is_empty, strip, keep, if◌then◌else◌}
use pabel.Base.Exec.{Result, ok, err, pure, lift, ◌>>=◌, ◌>>◌}
use pabel.Json.{Json, str, obj, arr, nil, cons, end, field}
use pabel.Server.{Services, Service, Failure}
use pabel.Server.Db.{add_agent, add_agent_installation}
use pabel.Server.Admin.{
  Realm, Request, Reply, Web, on_web, post_json, get, checked, required, text_at, first_found,
  admin_token, create_keycloak_client,
}

-- `s.replace("-", "_")`
unfoldable pub underscored : Text → Text
underscored [] = []
underscored (c ∷ s) = (if nat_beq c b'-' then b'_' else c) ∷ underscored s

-- `_attributes_for`: the attribute and the role
unfoldable pub attributes_for : Text → Text × Text
unfolding underscored
attributes_for agent_id =
    let stem = underscored agent_id in
    (codes "agent_" ++ stem, codes "agent_" ++ (stem ++ codes "_user"))

-- `s.split(",")`, with the part that is being read
unfoldable pub split_commas : Text → Text → List Text
split_commas part [] = part ∷ []
split_commas part (c ∷ s) =
    let next = part ∷ split_commas [] s in
    let longer = split_commas (part ++ (c ∷ [])) s in if nat_beq c b',' then next else longer

-- `value or default`
abbrev pub or_text : Option Text → Text → Text
or_text none t = t
or_text (some s) t = if is_empty s then t else s

module _ (S : Services) (R : Realm S) where
  abbrev admin_url : Text → Text → Text → Text
  admin_url base_url realm rest = base_url ++ (codes "/admin/realms/" ++ (realm ++ rest))

  -- `_ensure_realm_role`: whether it was created
  unfoldable pub ensure_realm_role : Text → Web S Bool
  unfolding admin_token
  ensure_realm_role role = do
    base_url ← required S R (codes "KEYCLOAK_URL")
    realm ← required S R (codes "REALM")
    token ← admin_token S R
    reply ← R.request (
        post_json (admin_url base_url realm (codes "/roles")) token
          (obj (field (codes "name") (str role) end)))
    if nat_beq reply.status 409 then pure false else (lift (checked reply) >> pure true)

  -- `_assign_realm_role`
  unfoldable pub assign_realm_role : Text → Text → Web S (Unit {0})
  unfolding admin_token
  assign_realm_role username role = do
    base_url ← required S R (codes "KEYCLOAK_URL")
    realm ← required S R (codes "REALM")
    token ← admin_token S R
    users ← R.request (
        get (admin_url base_url realm (codes "/users")) token
          ((codes "username", username) ∷ (codes "exact", codes "true") ∷ []))
    user ← lift (first_found users.body)
    role_rep ← R.request (get (admin_url base_url realm (codes "/roles/" ++ role)) token [])
    role_rep ← lift (checked role_rep)
    id ← lift (text_at (codes "id") (obj user))
    answer ← R.request (
        post_json
          (admin_url base_url realm (codes "/users/" ++ (id ++ codes "/role-mappings/realm"))) token
          (arr (cons role_rep.body nil)))
    answer ← lift (checked answer)
    pure tt

  unfoldable pub assign_all : Text → List Text → Web S (Unit {0})
  unfolding assign_realm_role
  assign_all role [] = pure tt
  assign_all role (username ∷ usernames) = do
    assign_realm_role (strip R.is_space username) role
    assign_all role usernames

  -- `[u for u in text.split(",") if u.strip()]`
  abbrev pub names_in : Text → List Text
  names_in text = keep (λ u. not (is_empty (strip R.is_space u))) (split_commas [] text)

  -- the client_id and the secret that are printed last
  unfoldable pub cmd_onboard :
      Text → Option Text → Option Text → Option Text → Service S (Text × Text)
  unfolding add_agent ensure_realm_role assign_all create_keycloak_client add_agent_installation
      attributes_for split_commas
  cmd_onboard agent_id display_name label grant_to = do
    let derived = attributes_for agent_id
    add_agent S agent_id (or_text display_name agent_id) derived.0 derived.1
    created ← on_web (ensure_realm_role derived.1)
    on_web (assign_all derived.1 (names_in (or_text grant_to [])))
    client ← on_web (create_keycloak_client S R agent_id label)
    add_agent_installation S client.0 agent_id label
    pure client

  unfoldable pub cmd_grant : Text → Text → Service S (Unit {0})
  unfolding assign_all attributes_for split_commas
  cmd_grant agent_id to =
      let derived = attributes_for agent_id in on_web (assign_all derived.1 (names_in to))
