-- ===== src/Server/Auth.antt =====
-- server/auth.py: what a verified token says. server/token_verifier.py uses the same check.
use pabel.Base.{ℕ, ◌*◌, Option, none, some, List, []}
use pabel.Base.{Text, ltb, is_empty, or_default, if◌then◌else◌}
use pabel.Base.Exec.{Result, ok, err, lift, pure, raise, attempt, ◌>>=◌}
use pabel.Server.{Services, Service, Claims, Decoded, claims, jwt_error, unreachable, ask}
use pabel.Server.{Failure, auth_error, invalid_token, cannot_reach_keycloak, token_expired}
use pabel.Server.{no_username_claim, no_azp_claim}

abbrev decoded : Decoded → Result Failure Claims
decoded (claims c) = ok c
decoded (jwt_error e) = err (auth_error (invalid_token e))
decoded (unreachable e) = err (auth_error (cannot_reach_keycloak e))

-- `if not name: raise AuthError`
abbrev named : Failure → Option Text → Result Failure Text
named missing none = err missing
named missing (some n) = if is_empty n then err missing else ok n

unfoldable pub username_of : Claims → Result Failure Text
username_of c = named (auth_error no_username_claim) c.preferred_username

unfoldable pub attributes_of : Claims → List Text
attributes_of c = or_default c.abe_attributes []

unfoldable pub roles_of : Claims → List Text
roles_of c = or_default c.realm_roles []

unfoldable pub client_id_of : Claims → Result Failure Text
client_id_of c = named (auth_error no_azp_claim) c.azp

-- `claims.get("exp", 0) < time.time()`
unfoldable pub check_expiry : ℕ → Claims → Result Failure Claims
check_expiry now c =
    if ltb (1000 * or_default c.exp 0) now then err (auth_error token_expired) else ok c

module _ (S : Services) where
  unfoldable pub verify : Text → Service S Claims
  unfolding check_expiry
  verify access_token = do
    answer ← ask (S.decode access_token)
    c ← lift (decoded answer)
    now ← ask S.time
    lift (check_expiry now c)

  -- `except AuthError: return None`; the claims become those of the request
  accepted : Result Failure Claims → Service S (Option Claims)
  accepted (ok c) = pure (some c)
  accepted (err (auth_error p)) = pure none
  accepted (err e) = raise e

  unfoldable pub verify_token : Text → Service S (Option Claims)
  unfolding verify accepted
  verify_token token = do checked ← attempt (verify token); accepted checked
