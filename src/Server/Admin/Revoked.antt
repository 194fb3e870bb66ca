-- ===== src/Server/Admin/Revoked.antt =====
-- What revoking an installation does, whatever becomes of it in Keycloak.
use pabel.Base.{
  ◌≡◌, refl, ap, ◌∙◌, Bool, true, false, not, some, List, [], ◌∷◌, arith, inl, inr, Bool-cases,
}
use mathlib.Core.Path.{subst}
use pabel.Base.{Text, text_eq, is_some}
use pabel.Base.Exec.{ok, attempt, pure, ◌>>=◌, ◌>>◌}
use pabel.Base.Exec.Ran.{bind-ran}
use pabel.Server.{Services, World, Installation}
use pabel.Server.Db.{find_installation, update_revoked, set_installation_revoked}
use pabel.Server.Admin.{
  Realm, do_set_installation_revoked, set_keycloak_client_enabled, on_web, or_exit,
}

-- the row of an installation that is there, and its mark
abbrev Marked : Text → Bool → List Installation → Type 0
Marked client_id revoked is =
    (i : Installation) × (find_installation client_id is ≡ some i) × (i.revoked ≡ revoked)

update_revoked-Marked :
    (client_id : Text) (revoked : Bool) (is : List Installation)
    → is_some (find_installation client_id is) ≡ true
    → Marked client_id revoked (update_revoked client_id revoked is)
unfolding find_installation update_revoked
update_revoked-Marked client_id revoked [] h = cc
update_revoked-Marked client_id revoked (x ∷ is) h =
    elim (Bool-cases (text_eq x.client_id client_id)) [
      | inl hit ↦ (record x { revoked = revoked }, ground (arith, hit), refl)
      | inr miss ↦
          let (i, found, marked) =
            update_revoked-Marked client_id revoked is (ground (arith, miss)) in
          (i, ground (arith, miss, found), marked)
    ]

module _ (S : Services) where
  stored-Marked :
      (client_id : Text) (revoked : Bool) (w w1 : World S)
      → set_installation_revoked S client_id revoked w ≡ (ok true, w1)
      → Marked client_id revoked w1.db.installations
  unfolding set_installation_revoked
  stored-Marked client_id revoked w w1 h =
      let there : is_some (find_installation client_id w.db.installations) ≡ true =
        ground (arith, ap (λ x. x.0) h) in
      let rows : update_revoked client_id revoked w.db.installations ≡ w1.db.installations =
        ground (arith, ap (λ x. x.0) h, ap (λ x. x.1.db.installations) h) in
      subst (Marked client_id revoked) rows
        (update_revoked-Marked client_id revoked w.db.installations there)

  or_exit-ran :
      (R : Realm S) (found : Bool) (w w1 : World S)
      → or_exit S R found w ≡ (ok tt, w1)
      → (found ≡ true) × (w ≡ w1)
  or_exit-ran R true w w1 h = (refl, ap (λ x. x.1) h)
  or_exit-ran R false w w1 h = cc

  -- Where the command to revoke or to re-enable an installation succeeds, the installation's row is
  -- there and says so, whether or not Keycloak could be told.
  pub do_set_installation_revoked-Marked :
      (R : Realm S) (client_id : Text) (revoked : Bool) (w w' : World S)
      → do_set_installation_revoked S R client_id revoked w ≡ (ok tt, w')
      → (i : Installation) × (find_installation client_id w'.db.installations ≡ some i)
        × (i.revoked ≡ revoked)
  unfolding do_set_installation_revoked
  do_set_installation_revoked-Marked R client_id revoked w w' h =
      let tell = attempt (on_web (set_keycloak_client_enabled S R client_id (not revoked))) in
      let (found, w1, stored, h1) =
        bind-ran (set_installation_revoked S client_id revoked)
          (λ found. or_exit S R found >> (tell >>= λ outcome. pure tt)) w w' tt h in
      let (_, w2, exited, h2) =
        bind-ran (or_exit S R found) (λ _. tell >>= λ outcome. pure tt) w1 w' tt h1 in
      let (is_found, same) = or_exit-ran R found w1 w2 exited in
      let m = stored-Marked client_id revoked w w1 (stored ∙ ap (λ b. (ok b, w1)) is_found) in
      let same_db : w1.db.installations ≡ w'.db.installations =
        ap (λ v. v.db.installations) same ∙ ap (λ x. x.1.db.installations) h2 in
      subst (Marked client_id revoked) same_db m
