-- ===== src/Tests/Administration.antt =====
-- An administrator's realm that answers every request alike, and one line of an encrypted log.
use pabel.Base.{◌≢◌, ◌≡◌, refl, true, none, some, List, [], ◌∷◌, ◌++◌}
use pabel.Base.{Text, codes, text_eq, is_some, strip_left, strip_right, text_eq_instance, nat_beq}
use pabel.Base.Exec.{ok}
use pabel.Json.{Json, str, obj, end, field, find}
use pabel.Client.AuditLog.{frame}
use pabel.Server.{World, Agent}
use pabel.Server.Db.{find_installation, find_agent}
use pabel.Server.AuditLog.{Decryption, decrypt_audit_entry}
use pabel.Server.AuditLog.RoundTrip.{decrypt_audit_entry-frame}
use pabel.Server.Admin.{Realm, do_set_installation_revoked, do_create_installation}
use pabel.Server.Admin.Registered.{new_row}
use pabel.Server.Onboard.{cmd_onboard}
use pabel.Server.Onboard.Ready.{cmd_onboard-ready}
use pabel.Server.Auth.{verify, client_id_of}
use pabel.Server.Core.{resolve_agent, current_identity}
use pabel.Server.{auth_error, not_logged_in}
use pabel.Server.Login.{logout, logout-current_identity}
use pabel.Base.{true}
use pabel.Base.Exec.{err}
use pabel.Server.Admin.LockedOut.{do_set_installation_revoked-resolve_agent}
use pabel.Tests.Service.{someone, open_services, office}

abbrev wrapped : Text
wrapped = codes "k"

abbrev nonce : Text
nonce = codes "nonce-of-12b"

abbrev cipher : Text
cipher = codes "c"

abbrev framed : Text
framed = 0 ∷ 1 ∷ (wrapped ++ (nonce ++ cipher))

abbrev entry : Json
entry = str (codes "e")

abbrev keyholder : Decryption
keyholder = record {
  b64decode = λ t. some framed;
  rsa_decrypt = λ p t. some t;
  aes_decrypt = λ k n t. some t;
  loads = λ t. some entry;
  is_space = λ c. nat_beq c 32;
}

decrypt_audit_entry-frame_example :
    decrypt_audit_entry keyholder (codes "p") (codes "line") ≡ some entry
unfolding frame
decrypt_audit_entry-frame_example =
    decrypt_audit_entry-frame keyholder (codes "p") (codes "line") wrapped wrapped nonce cipher
      framed cipher entry refl refl refl refl refl refl

abbrev lines : List Text
lines = codes "# realm" ∷ codes "REALM = 'org'" ∷ codes "KEYCLOAK_URL=file" ∷ []

abbrev realm : Realm open_services
realm = record {
  request = λ q s. (
    ok (record {
      status = 201;
      location = some (codes "l");
      body = obj (
          field (codes "access_token") (str (codes "t"))
            (field (codes "value") (str (codes "s")) end));
    }),
    s,
  );
  token_hex = λ s. (codes "7", s);
  is_space = λ c. nat_beq c 32;
  env_lines = [];
  environ =
      (codes "KEYCLOAK_URL", codes "u")
      ∷ (codes "REALM", codes "org")
      ∷ (codes "KC_BOOTSTRAP_ADMIN_USERNAME", codes "a")
      ∷ (codes "KC_BOOTSTRAP_ADMIN_PASSWORD", codes "p")
      ∷ [];
}

abbrev revoked_office : World open_services
revoked_office = (do_set_installation_revoked open_services realm (codes "i1") true office).1

abbrev enrolled : World open_services
enrolled = (do_create_installation open_services realm (codes "cc") none office).1

abbrev onboarded : World open_services
onboarded = (cmd_onboard open_services realm (codes "x-y") none none none office).1

cmd_onboard-ready_example :
    (find_installation (codes "pabel-agent-x-y-7") onboarded.db.installations
      ≡ some (new_row (codes "pabel-agent-x-y-7") (codes "x-y") none))
    × ((a : Agent) × (find_agent (codes "x-y") onboarded.db.agents ≡ some a)
        × (a.attributes ≡ codes "agent_x_y")
        × (a.required_role ≡ codes "agent_x_y_user"))
unfolding cmd_onboard text_eq find strip_right strip_left
cmd_onboard-ready_example =
    cmd_onboard-ready open_services realm (codes "x-y") none none none
      (codes "pabel-agent-x-y-7", codes "s") office onboarded refl

do_set_installation_revoked-resolve_agent_example :
    (resolve_agent open_services (codes "t") (codes "staff" ∷ []) revoked_office).0
    ≢ ok (codes "cc", codes "ai")
unfolding do_set_installation_revoked text_eq verify client_id_of
do_set_installation_revoked-resolve_agent_example =
    do_set_installation_revoked-resolve_agent open_services realm (codes "i1") (codes "t")
      (codes "staff" ∷ []) office revoked_office someone (codes "cc", codes "ai") refl refl refl

-- a command line that is logged in
abbrev logged_in : World open_services
logged_in = record office {
  session_file = some (record {
    mtime = 5;
    access_token = codes "t";
    refresh_token = none;
    expires_in = 60;
    username = codes "ann";
    obtained_at = 0;
  });
}

abbrev logged_out : World open_services
logged_out = (logout open_services logged_in).1

logout-current_identity_example :
    (true ≡ is_some logged_in.session_file)
    × ((current_identity open_services logged_out).0 ≡ err (auth_error not_logged_in))
unfolding logout
logout-current_identity_example =
    logout-current_identity open_services logged_in logged_out true refl refl
