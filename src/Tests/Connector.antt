-- ===== src/Tests/Connector.antt =====
-- One machine with one document, and a server that reads it out, for the calls of an agent.
use pabel.Base.{
  ◌&&◌, true, false, ◌≡◌, refl, none, some, [], occurs, starts_with, arith, ◌∷◌, Text, codes,
  text_eq,
}
use pabel.Base.Exec.{ok}
use pabel.Json.{Json, null, str, obj, end, field, with_field, truthy}
use pabel.Json.Dumps.{dumps, escape}
use pabel.Json.Within.{in_fields, first_field, itself}
use pabel.Platform.{Platform, posix, normcase_by}
use pabel.Types.{no_output, NormalizedCall, Decision, decision, allow, deny_with_relay}
use pabel.Client.{Host, World, granted, structured}
use pabel.Client.AgentSession
use pabel.Client.AgentSession.{entry_of, store_credentials}
use pabel.Hook.{main}
use pabel.Hook.Passes.{main-Passes, Passes}
use pabel.Adapters.Windsurf.{parse_run_command, render}
use pabel.Adapters.{get}
use pabel.Client.Relay.{read_document_with_login}
use pabel.Policy.{decide, with_agent_token, targets_server, target_path}
use pabel.Policy.Allowed.{decide-allow, MayPass}
use pabel.Policy.Reasons.{read_blocked}
use pabel.Policy.Relayed.{decide-content, decide-updated_input}
use pabel.Detection.Pattern.{
  connector_internals, oabe_binary, fold_case, encrypted_file, documents_path,
}
use pabel.Client.AuditLog.{append_entry}
use pabel.Detection.{
  invokes_oabe_binary, names_credentials, is_pabel_hook_config_target, pabel_mcp_server_name,
  invokes_pabel_connector_internals, mentions_target, touches_pabel_credential_store,
}
use pabel.Detection.Extension.{mentions_target-extension}
use pabel.Detection.Walk.{find_relayable_file}

abbrev machine : Platform
machine = record {
  is_word_beyond = λ c. false;
  is_space_beyond = λ c. false;
  path_rules = posix;
  is_file = λ p. text_eq p (codes "a.abe");
  path_str = λ p. p;
  path_name = λ p. p;
  session_file = codes "/p/session.json";
  credentials_file = codes "/p/agent_credentials.json";
  repr = λ t. t;
  source_checkout = false;
}

abbrev answer : Json
answer = str (codes "secret")

abbrev pub desk : Host
desk = record {
  State = Unit;
  time = λ s. (7000, s);
  environ = λ name. some (codes "u");
  post = λ url client grant s. (
    granted (record { access_token = some (codes "t"); refresh_token = none; expires_in = none }),
    s,
  );
  token_urlsafe = λ s. (codes "r", s);
  pkce_pair = λ s. ((codes "v", codes "c"), s);
  redirect_uri = codes "l";
  urlencode = λ ps. [];
  open_browser = λ url s. (true, s);
  wait_for_callback = λ s. (none, s);
  call_tool = λ url token tool arguments s. (structured answer, s);
  read_bytes = λ path s. (ok (codes "b"), s);
  base64 = λ t. t;
  loads = λ t. none;
  fresh_name = λ s. (codes "n", s);
  cache_path = λ a n. n;
  print_time = λ t. [];
  is_public_key = λ t. false;
  aes_key = λ s. ([], s);
  nonce = λ s. ([], s);
  aes_encrypt = λ k n t. t;
  rsa_encrypt = λ p t s. (some t, s);
}

-- a human who is logged in, and one installation with a token that is fresh
abbrev pub at_work : World desk
at_work = record {
  session = some (record {
    access_token = codes "h";
    refresh_token = none;
    expires_in = some 60;
    obtained_at = 6000;
  });
  credentials =
      (
        codes "cc",
        record {
          client_id = codes "i";
          client_secret = codes "s";
          access_token = some (codes "t");
          expires_in = some 60;
          obtained_at = some 6000;
        },
      )
      ∷ [];
  audit_public_key = none;
  audit_log = [];
  materialized = [];
  outside = tt;
}

abbrev input_of : Text → Json
input_of path = obj (field (codes "p") (str path) end)

abbrev reading : NormalizedCall
reading = record {
  tool_name = codes "Read";
  tool_input = input_of (codes "a.abe");
  is_write = false;
  is_execute = false;
  mcp_target = none;
  write_target = null;
}

abbrev writing : NormalizedCall
writing = record {
  tool_name = codes "Write";
  tool_input = input_of (codes "n");
  is_write = true;
  is_execute = false;
  mcp_target = none;
  write_target = str (codes "n");
}

abbrev asking : NormalizedCall
asking = record {
  tool_name = codes "q";
  tool_input = input_of (codes "n");
  is_write = false;
  is_execute = false;
  mcp_target = some (codes "pabel", codes "whoami");
  write_target = null;
}

abbrev handed : Json
handed =
    obj (field (codes "p") (str (codes "n")) (field (codes "agent_token") (str (codes "t")) end))

decide-allow_example :
    (touches_pabel_credential_store machine writing.tool_input ≡ false)
    × ((writing.is_execute && invokes_pabel_connector_internals machine writing.tool_input) ≡ false)
    × MayPass machine writing
unfolding decide touches_pabel_credential_store names_credentials occurs normcase_by starts_with
    target_path truthy encrypted_file documents_path is_pabel_hook_config_target
decide-allow_example =
    decide-allow machine desk writing (codes "cc") at_work (decision allow none) refl refl

abbrev blocked : Decision
blocked = record {
  kind = deny_with_relay;
  reason = some (read_blocked machine.repr (codes "a.abe"));
  content = some answer;
  updated_input = none;
}

decide-content_example :
    (touches_pabel_credential_store machine reading.tool_input ≡ false)
    × (blocked.kind ≡ deny_with_relay)
    × ((t : Text) × (find_relayable_file machine reading.tool_input ≡ some t)
        × (machine.is_file t ≡ true)
        × ((read_document_with_login desk
              (machine.path_str t)
              (machine.path_name t)
              (codes "cc")
              at_work).0
            ≡ ok answer))
unfolding decide touches_pabel_credential_store names_credentials occurs normcase_by starts_with
    mentions_target encrypted_file dumps escape find_relayable_file text_eq read_document_with_login
    append_entry
decide-content_example =
    decide-content machine desk reading (codes "cc") at_work blocked answer refl refl

abbrev passed_on : Decision
passed_on = record { kind = allow; reason = none; content = none; updated_input = some handed }

decide-updated_input_example :
    (targets_server pabel_mcp_server_name asking.mcp_target ≡ true)
    × (passed_on.kind ≡ allow)
    × ((token : Text) × ((AgentSession.access_token desk (codes "cc") at_work).0 ≡ ok token)
        × (with_agent_token token asking.tool_input ≡ ok handed))
unfolding decide touches_pabel_credential_store names_credentials occurs normcase_by starts_with
    text_eq AgentSession.access_token append_entry with_agent_token with_field
decide-updated_input_example =
    decide-updated_input machine desk asking (codes "cc") at_work passed_on handed refl refl

mentions_target-extension_example : mentions_target machine (input_of (codes "a.aBe")) ≡ true
unfolding fold_case
mentions_target-extension_example =
    mentions_target-extension machine (input_of (codes "a.aBe")) (codes "a") (codes ".aBe")
      (in_fields (first_field itself)) refl

-- the payload of a harmless command
abbrev command : Json
command =
    obj (field (codes "tool_info") (obj (field (codes "command_line") (str (codes "ls")) end)) end)

main-Passes_example :
    (call : NormalizedCall) × (parse_run_command command ≡ some call) × Passes machine call
unfolding main text_eq parse_run_command get truthy touches_pabel_credential_store names_credentials
    occurs normcase_by starts_with invokes_pabel_connector_internals connector_internals dumps
    escape invokes_oabe_binary oabe_binary mentions_target encrypted_file documents_path render
main-Passes_example = main-Passes machine desk [] command at_work no_output refl (λ e. omega arith)
