-- ===== src/Server/SetupUserProfile.antt =====
-- server/setup_user_profile.py: abe_attributes in the realm's user profile, editable by an admin only.
pub mod Declared
use pabel.Base.{Bool, true, false, Option, none, some, [], ◌∷◌, ◌++◌}
use pabel.Base.{Text, codes, text_eq, if◌then◌else◌}
use pabel.Base.Exec.{Result, ok, err, lift, pure, ◌>>=◌, ◌>>◌}
use pabel.Json.{Json, Items, Fields, bool, str, arr, obj, nil, cons, end, field, find, with_field}
use pabel.Server.{Services, Failure}
use pabel.Server.Admin.{Realm, Web, post_form, get, put_json, required, text_at, checked, key_error}

abbrev pub is_abe_attributes : Json → Bool
is_abe_attributes (str t) = text_eq t (codes "abe_attributes")
is_abe_attributes other = false

-- `a["name"] == "abe_attributes"`
abbrev pub named : Json → Result Failure Bool
named (obj fs) = elim (find (codes "name") fs) [
  | none ↦ err key_error
  | some v ↦ ok (is_abe_attributes v)
]
named other = err key_error

-- `any(...)` over the attributes, which stops at the first one
abbrev pub or_later : Result Failure Bool → Result Failure Bool → Result Failure Bool
or_later (ok true) later = ok true
or_later (ok false) later = later
or_later (err e) later = err e

unfoldable pub declared : Items → Result Failure Bool
unfolding find
declared nil = ok false
declared (cons a as_) = or_later (named a) (declared as_)

unfoldable pub append : Items → Json → Items
append nil v = cons v nil
append (cons a as_) v = cons a (append as_ v)

abbrev pub abe_attributes : Json
abe_attributes = obj (
    field (codes "name") (str (codes "abe_attributes")) (
      field (codes "displayName") (str (codes "ABE attributes")) (
        field (codes "multivalued") (bool true) (
          field (codes "permissions")
            (obj (
              field (codes "view")
                (arr (cons (str (codes "admin")) (cons (str (codes "user")) nil)))
                (field (codes "edit") (arr (cons (str (codes "admin")) nil)) end)))
            end))))

unfoldable pub unless_declared : Fields → Items → Result Failure Bool → Result Failure (Option Json)
unfolding append
unless_declared fs as_ (ok true) = ok none
unless_declared fs as_ (ok false) =
    ok (some (obj (with_field (codes "attributes") (arr (append as_ abe_attributes)) fs)))
unless_declared fs as_ (err e) = err e

unfoldable pub for_attributes : Fields → Option Json → Result Failure (Option Json)
unfolding declared unless_declared
for_attributes fs (some (arr as_)) = unless_declared fs as_ (declared as_)
for_attributes fs other = err key_error

-- the profile that is sent, if any
unfoldable pub declare : Json → Result Failure (Option Json)
unfolding for_attributes find
declare (obj fs) = for_attributes fs (find (codes "attributes") fs)
declare other = err key_error

module _ (S : Services) (R : Realm S) where
  pub put_profile : Text → Text → Option Json → Web S (Unit {0})
  put_profile url token none = pure tt
  put_profile url token (some profile) = do
    resp ← R.request (put_json url token profile)
    resp ← lift (checked resp)
    pure tt

  unfoldable pub setup_user_profile : Web S (Unit {0})
  unfolding declare put_profile
  setup_user_profile = do
    base_url ← required S R (codes "KEYCLOAK_URL")
    realm ← required S R (codes "REALM")
    admin_user ← required S R (codes "KC_BOOTSTRAP_ADMIN_USERNAME")
    admin_pass ← required S R (codes "KC_BOOTSTRAP_ADMIN_PASSWORD")
    reply ← R.request (
        post_form (base_url ++ codes "/realms/master/protocol/openid-connect/token") (
          (codes "grant_type", codes "password")
          ∷ (codes "client_id", codes "admin-cli")
          ∷ (codes "username", admin_user)
          ∷ (codes "password", admin_pass)
          ∷ []))
    token ← lift (text_at (codes "access_token") reply.body)
    let url = base_url ++ (codes "/admin/realms/" ++ (realm ++ codes "/users/profile"))
    profile ← R.request (get url token [])
    changed ← lift (declare profile.body)
    put_profile url token changed
