-- ===== src/Tests/Deployment.antt =====
-- A deployment with a clock, on a machine where each probe before the fourth second is refused, and a
-- login through a browser.
use pabel.Base.{ℕ, ◌+◌, ◌≡◌, ◌≢◌, refl, true, false, Option, none, some, List, [], ◌∷◌, ◌++◌}
use pabel.Base.{Bool, arith, Text, codes, leb, nat_beq, text_eq, if◌then◌else◌, strip_right}
use pabel.Base.{strip_left}
use pabel.Base.Exec.{Result, ok, err}
use pabel.Json.{Json, str, arr, obj, nil, field, end, find, null}
use pabel.Server.{Services, World, claims, granted, Tokens, Failure, Agent, Claims}
use pabel.Server.Core.{blank, resolve_agent}
use pabel.Server.Onboard.{cmd_onboard}
use pabel.Server.Onboard.Usable.{cmd_onboard-resolve_agent}
use pabel.Server.Keycloak.{keycloak_auth}
use pabel.Server.Env.{require}
use pabel.Server.OauthBrowser as Oauth
use pabel.Server.OauthBrowser.{Browser, Visit, param}
use pabel.Server.OauthBrowser.SameState.{BoundLogin, login_with_browser-Traded}
use pabel.Server.Login.{login_with_browser, do_login}
use pabel.Server.Login.Persisted.{NextToken, login_with_browser-session_token}
use pabel.Server.Login.Kept.{ByCode, do_login-ByCode}
use pabel.Server.Auth.{verify, client_id_of}
use pabel.Server.Deployment.{compose, Desk, Deploy, out_of_fuel, done, wait_for_keycloak}
use pabel.Server.Deployment.Wait.{Clock, wait_for_keycloak-ends, wait_for_keycloak-finds}
use pabel.Server.GenerateRealm.{generate_realm, given_values}
use pabel.Server.GenerateRealm.Filled.{generate_realm-filled}
use pabel.Server.SetupUserProfile.{declare}
use pabel.Server.SetupUserProfile.Declared.{declare-declare}
use pabel.Server.Deployment.Bootstrap.{cmd_bootstrap}
use pabel.Server.Deployment.Bootstrap.Up.{cmd_bootstrap-Up, Up}
use pabel.Server.Deployment.Teardown.{cmd_teardown}
use pabel.Server.Deployment.Teardown.Clean.{cmd_teardown-Gone, Outcome}
use pabel.Server.Deployment.Menu.{cmd_menu}
use pabel.Server.Deployment.Menu.Ends.{cmd_menu-ends}
use pabel.Tests.Service.{someone, open_services, office}

abbrev variables : List (Text × Text)
variables =
    (codes "KEYCLOAK_URL", codes "u")
    ∷ (codes "REALM", codes "org")
    ∷ (codes "CLIENT_ID", codes "pabel")
    ∷ (codes "KC_BOOTSTRAP_ADMIN_USERNAME", codes "a")
    ∷ (codes "KC_BOOTSTRAP_ADMIN_PASSWORD", codes "p")
    ∷ (codes "POSTGRES_USER", codes "a")
    ∷ (codes "POSTGRES_PASSWORD", codes "p")
    ∷ (codes "POSTGRES_DB", codes "d")
    ∷ (codes "ALICE_PASSWORD", codes "1")
    ∷ (codes "BOB_PASSWORD", codes "2")
    ∷ (codes "CHARLIE_PASSWORD", codes "3")
    ∷ (codes "CLAUDE_CODE_INSTALLATION_SECRET", codes "4")
    ∷ (codes "OPENCODE_INSTALLATION_SECRET", codes "5")
    ∷ []

abbrev is_blank : ℕ → Bool
is_blank c = nat_beq c 32

abbrev browser : Browser open_services
browser = record {
  is_space = is_blank;
  env_lines = [];
  environ = variables;
  callback_port = codes "8766";
  token_bytes = λ s. (codes "v", s);
  urlsafe_b64encode = λ t. t;
  sha256_digest = λ t. t;
  token_urlsafe = λ s. (codes "s", s);
  urlencode = λ ps. [];
  open_browser = λ url s. (true, s);
  handle_request = λ s. (
    ok (
        some (record {
          path = codes "/callback";
          params = (codes "state", codes "s") ∷ (codes "code", codes "c") ∷ [];
        })),
    s,
  );
  write_session = λ s. (ok 7, s);
}

abbrev given : Tokens
given = record { access_token = some (codes "t"); refresh_token = none; expires_in = some 60 }

login_with_browser-Traded_example : BoundLogin open_services browser given office
unfolding Oauth.login_with_browser text_eq
login_with_browser-Traded_example =
    login_with_browser-Traded open_services browser given office office refl

abbrev behind_login : World open_services
behind_login = (login_with_browser open_services browser office).1

login_with_browser-session_token_example :
    NextToken open_services browser (codes "ann", codes "hr" ∷ []) office behind_login
unfolding login_with_browser text_eq
login_with_browser-session_token_example =
    login_with_browser-session_token open_services browser (codes "ann", codes "hr" ∷ []) office
      behind_login refl refl

do_login-ByCode_example :
    ByCode open_services browser office 0 (do_login open_services browser office).1
unfolding do_login text_eq
do_login-ByCode_example =
    do_login-ByCode open_services browser 0 office (do_login open_services browser office).1 refl

-- what the new installation's token says
abbrev installed : Claims
installed = record someone { azp = some (codes "pabel-agent-x-y-7") }

-- the state is the clock
abbrev ticking : Services
ticking = record {
  State = ℕ;
  time = λ s. (s, s);
  decode = λ t s. (claims installed, s);
  post = λ url form s. (granted given, s);
  kc = keycloak_auth none (codes "u") (codes "org") (codes "pabel");
  has_dsn = true;
  db_up = λ s. (true, s);
  can_append = λ s. (true, s);
  sha256 = λ t. t;
  oabe_keygen = λ attributes s. (some attributes, s);
  oabe_dec = λ k c. none;
  b64decode = λ t. some t;
  decode_utf8 = λ t. some t;
  loads = λ t. some (obj end);
}

abbrev site : Deploy ticking
site = record {
  realm = record {
    request = λ q s. (
      ok (record {
        status = 200;
        location = some (codes "l");
        body = obj (
            field (codes "access_token") (str (codes "t"))
              (field (codes "value") (str (codes "s")) (field (codes "attributes") (arr nil) end)));
      }),
      s,
    );
    token_hex = λ s. (codes "7", s);
    is_space = is_blank;
    env_lines = [];
    environ = variables;
  };
  probe = λ url s. (if leb 4000 s then some 200 else none, s);
  sleep = λ n s. n + s;
  nerdctl = λ args v s. (ok 0, v, s);
  connector = none;
  run_connector = λ c args s. (ok 0, s);
  is_word_beyond = λ c. false;
}

abbrev clock : Clock ticking site
clock = record {
  at = λ s. s;
  reads = λ s. refl;
  time_forward = λ s. omega arith;
  probe_forward = λ url s. omega arith;
  sleep_forward = λ n s. omega arith;
}

abbrev desk : Desk ticking
desk = record {
  world = record {
    db = office.db;
    audit_file = [];
    ctx = blank;
    session_file = none;
    session = office.session;
    request_claims = none;
    outside = 0;
  };
  authority = codes "org.mpk.cpabe" ∷ [];
  template = some (codes "{{ALICE_PASSWORD}}!");
  realm_file = none;
  credentials = some (codes "{}");
  client_session = true;
  lines = codes "9" ∷ codes "no" ∷ [];
}

wait_for_keycloak-ends_example : (wait_for_keycloak ticking site 61 180 0).0 ≢ ok out_of_fuel
wait_for_keycloak-ends_example = wait_for_keycloak-ends ticking site clock 60 180 0 (omega arith)

wait_for_keycloak-finds_example : (wait_for_keycloak ticking site 61 180 0).0 ≡ ok done
unfolding require text_eq
wait_for_keycloak-finds_example =
    wait_for_keycloak-finds ticking site clock 2 61 180 (codes "u") (codes "org") 0 (omega arith)
      refl refl (omega arith) refl

generate_realm-filled_example :
    codes "1!" ≢ codes "1!" ++ (codes "{{" ++ (codes "A" ++ (codes "}}" ++ [])))
unfolding generate_realm text_eq given_values
generate_realm-filled_example =
    generate_realm-filled ticking site desk (generate_realm ticking site desk).1 (codes "1!")
      (codes "1!") (codes "A") [] refl refl (refl, tt) refl

abbrev profile : Json
profile = obj (field (codes "attributes") (arr nil) end)

abbrev sent_of : Option Json → Json
sent_of none = null
sent_of (some v) = v

abbrev sent_profile : Result Failure (Option Json) → Json
sent_profile (ok o) = sent_of o
sent_profile (err e) = null

declare-declare_example : declare (sent_profile (declare profile)) ≡ ok none
unfolding declare text_eq
declare-declare_example = declare-declare profile (sent_profile (declare profile)) refl

abbrev stood_up : Desk ticking
stood_up = (cmd_bootstrap ticking site 61 false desk).1

cmd_bootstrap-Up_example : Up ticking site 0 false desk stood_up
unfolding cmd_bootstrap text_eq compose
cmd_bootstrap-Up_example = cmd_bootstrap-Up ticking site 61 0 false desk stood_up refl

abbrev torn_down : Desk ticking
torn_down = (cmd_teardown ticking site true true desk).1

cmd_teardown-Gone_example : Outcome ticking site true true 0 desk torn_down
unfolding cmd_teardown compose
cmd_teardown-Gone_example = cmd_teardown-Gone ticking site true true 0 desk torn_down refl

cmd_menu-ends_example : (cmd_menu ticking site (λ a b. true) 3 61 desk).0 ≢ ok none
cmd_menu-ends_example =
    cmd_menu-ends ticking site (λ a b. true) clock 60 (omega arith) 2 desk (omega arith)

abbrev onboarded : World ticking
onboarded = (cmd_onboard ticking site.realm (codes "x-y") none none none desk.world).1

abbrev product : Agent
product = record {
  agent_id = codes "x-y";
  display_name = codes "x-y";
  attributes = codes "agent_x_y";
  required_role = codes "agent_x_y_user";
  enabled = true;
}

cmd_onboard-resolve_agent_example :
    (resolve_agent ticking (codes "t") (codes "agent_x_y_user" ∷ []) onboarded).0
    ≡ ok (codes "x-y", codes "agent_x_y")
unfolding cmd_onboard text_eq verify find strip_right strip_left client_id_of
cmd_onboard-resolve_agent_example =
    cmd_onboard-resolve_agent ticking site.realm (codes "x-y") none none none
      (codes "pabel-agent-x-y-7", codes "s") (codes "t") (codes "agent_x_y_user" ∷ []) installed
      product desk.world onboarded onboarded refl refl refl refl refl (refl, refl) refl
