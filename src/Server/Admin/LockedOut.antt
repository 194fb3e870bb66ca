-- ===== src/Server/Admin/LockedOut.antt =====
-- The administrator's revocation, as the running service meets it.
use pabel.Base.{◌≡◌, ◌≢◌, true, some, List}
use mathlib.Core.Path.{subst}
use pabel.Base.{Text}
use pabel.Base.Exec.{ok}
use pabel.Server.{Services, World, Claims}
use pabel.Server.Db.{find_installation}
use pabel.Server.Auth.{verify, client_id_of}
use pabel.Server.Core.{resolve_agent}
use pabel.Server.Core.Resolve.{resolve_agent-ok}
use pabel.Server.Admin.{Realm, do_set_installation_revoked}
use pabel.Server.Admin.Revoked.{do_set_installation_revoked-Marked}

module _ (S : Services) where
  -- Where the command to revoke an installation succeeds, then whether or not Keycloak could be told,
  -- no token of the installation's client resolves to an agent, though it still verifies.
  pub do_set_installation_revoked-resolve_agent :
      (R : Realm S) (client_id token : Text) (user_roles : List Text) (w w' : World S) (c : Claims)
      (r : Text × Text)
      → do_set_installation_revoked S R client_id true w ≡ (ok tt, w')
      → (verify S token w').0 ≡ ok c
      → client_id_of c ≡ ok client_id
      → (resolve_agent S token user_roles w').0 ≢ ok r
  do_set_installation_revoked-resolve_agent R client_id token user_roles w w' c r done verified
        client h =
      let q = resolve_agent-ok S token user_roles w' r h in
      let same : q.client_id ≡ client_id = cc (q.verified, q.client, verified, client) in
      let found =
        subst (λ t. find_installation t w'.db.installations ≡ some q.installation.row) same
          q.installation.found in
      let (i, row, marked) = do_set_installation_revoked-Marked S R client_id true w w' done in
      let same_row : q.installation.row ≡ i = cc (found, row) in
      cc (marked, same_row, q.installation.valid)
