-- ===== src/Tests/Service.antt =====
-- One user, one product and one installation, and a document that the user's key does not open.
use pabel.Base.{
  true, false, ◌≡◌, refl, none, some, List, [], ◌∷◌, Text, codes, text_eq, map, All, ◌++◌,
  strip_left, nat_beq, get_elem?, if◌then◌else◌,
}
use mathlib.Core.Option.{some-injective}
use pabel.Base.Exec.{Result, raise}
use pabel.Json.{Json, null, num, str, arr, obj, nil, cons, end, field}
use pabel.Server.{
  Services, World, Claims, claims, Failure, auth_error, not_logged_in, op_whoami, Service,
  AuditRecord, granted,
}
use pabel.Server.Keycloak.{keycloak_auth}
use pabel.Server.Abe.{decrypt_bytes}
use pabel.Server.Document.Bounds.{load_abe-Loaded, Loaded}
use pabel.Server.Document.{Section, Group, load_abe, gated, ungated}
use pabel.Server.Decrypt.{decrypt_document, SectionView}
use pabel.Server.Decrypt.Denied.{
  decrypt_document-closed, decrypt_document-headings, closed_view, heading,
}
use pabel.Server.Core.{
  agent_session_key, resolve_agent, audit_op, blank, record_of, combined_attributes,
}
use pabel.Server.Core.Resolve.{resolve_agent-ok, Resolved}
use pabel.Server.Core.Keys.{Matches, agent_session_key-IsKeyFor, agent_session_key-Matches}
use pabel.Server.Core.Audit.{audit_op-record, kept, file_takes, table_takes, body_run, outcome_of}
use pabel.Server.Tools.{read_document, ReadResult}
use pabel.Server.Tools.ReadDocument.{Grounds, read_document-Grounds}

abbrev pub someone : Claims
someone = record {
  preferred_username = some (codes "ann");
  abe_attributes = some (codes "hr" ∷ []);
  realm_roles = some (codes "staff" ∷ []);
  azp = some (codes "i1");
  exp = some 9;
}

-- two sections of two groups: the first closed, the second in the clear
abbrev document : Json
document = obj (
    field (codes "format") (str (codes "abe-doc")) (
      field (codes "groups")
        (arr (
          cons
            (obj (
              field (codes "policy") (str (codes "boss"))
                (field (codes "ciphertext") (str (codes "c")) end)))
            (cons (obj (field (codes "plaintext") (str (codes "hello")) end)) nil)))
        (field (codes "sections")
          (arr (
            cons (obj (field (codes "group") (num (codes "0")) end))
              (cons (obj (field (codes "group") (num (codes "1")) end)) nil)))
          end)))

-- a key is its attributes, and a hash is its text
abbrev pub open_services : Services
open_services = record {
  State = Unit;
  time = λ s. (1000, s);
  decode = λ t s. (claims someone, s);
  post = λ url form s. (
    granted
        (record { access_token = some (codes "t"); refresh_token = none; expires_in = some 60 }),
    s,
  );
  kc = keycloak_auth none (codes "u") (codes "org") (codes "pabel");
  has_dsn = true;
  db_up = λ s. (true, s);
  can_append = λ s. (true, s);
  sha256 = λ t. t;
  oabe_keygen = λ attributes s. (some attributes, s);
  oabe_dec = λ k c. if text_eq k (codes "l") then some (codes "plan") else none;
  b64decode = λ t. some t;
  decode_utf8 = λ t. some t;
  loads = λ t. some document;
}

abbrev pub office : World open_services
office = record {
  db = record {
    agents =
        record {
          agent_id = codes "cc";
          display_name = codes "C";
          attributes = codes "ai";
          required_role = codes "staff";
          enabled = true;
        }
        ∷ [];
    installations =
        record { client_id = codes "i1"; product = codes "cc"; label = none; revoked = false } ∷ [];
    agent_keys =
        record {
          username = codes "ann";
          product = codes "cc";
          attributes_hash = codes "old";
          key_material = codes "old";
        }
        ∷ [];
    audit_log = [];
  };
  audit_file = [];
  ctx = blank;
  session_file = none;
  session = record { tokens = none; obtained_at = 0; session_mtime = none };
  request_claims = none;
  outside = tt;
}

-- a key is its attributes
abbrev IsKeyFor : Text → Text → Type 0
IsKeyFor attributes key = attributes ≡ key

made_by_keygen :
    (attributes key : Text) (s : open_services.State)
    → (open_services.oabe_keygen attributes s).0 ≡ some key
    → IsKeyFor attributes key
made_by_keygen attributes key s h = some-injective attributes key h

office_keys : All (Matches open_services IsKeyFor made_by_keygen (λ a b h. h)) office.db.agent_keys
office_keys = (record { attributes = codes "old"; hashed = refl; is_key = refl }, tt)

resolve_agent-ok_example :
    Resolved open_services office (codes "t") (codes "staff" ∷ []) (codes "cc", codes "ai")
unfolding resolve_agent text_eq
resolve_agent-ok_example =
    resolve_agent-ok open_services (codes "t") (codes "staff" ∷ []) office (codes "cc", codes "ai")
      refl

agent_session_key-IsKeyFor_example :
    IsKeyFor (combined_attributes (codes "hr" ∷ []) (codes "ai")) (codes "hr|ai")
unfolding agent_session_key text_eq
agent_session_key-IsKeyFor_example =
    agent_session_key-IsKeyFor open_services IsKeyFor made_by_keygen (λ a b h. h) (codes "ann")
      (codes "hr" ∷ []) (codes "cc") (codes "ai") office (codes "hr|ai") office_keys refl

agent_session_key-Matches_example :
    All
      (Matches open_services IsKeyFor made_by_keygen (λ a b h. h))
      (agent_session_key open_services
        (codes "ann")
        (codes "hr" ∷ [])
        (codes "cc")
        (codes "ai")
        office).1.db.agent_keys
agent_session_key-Matches_example =
    agent_session_key-Matches open_services IsKeyFor made_by_keygen (λ a b h. h) (codes "ann")
      (codes "hr" ∷ []) (codes "cc") (codes "ai") office office_keys

abbrev refused : Service open_services Text
refused = raise (auth_error not_logged_in)

-- the run of the body, and the record that it calls for
abbrev run : Result Failure Text × World open_services
run = body_run open_services refused office

abbrev due : AuditRecord
due = record_of op_whoami none run.1.ctx run.0

audit_op-record_example :
    ((audit_op open_services op_whoami none refused office).0 ≡ outcome_of open_services run.0)
    × ((audit_op open_services op_whoami none refused office).1.audit_file
        ≡ run.1.audit_file ++ kept (file_takes open_services run.1) due)
    × ((audit_op open_services op_whoami none refused office).1.db.audit_log
        ≡ run.1.db.audit_log ++ kept (table_takes open_services run.1) due)
audit_op-record_example = audit_op-record open_services op_whoami none refused office

abbrev closed_section : Section
closed_section = record { name = codes "section 1"; group = 0 }

abbrev open_section : Section
open_section = record { name = codes "section 2"; group = 1 }

abbrev closed_group : Group
closed_group = record { policy = str (codes "boss"); payload = gated (codes "c") }

abbrev open_group : Group
open_group = record { policy = null; payload = ungated (str (codes "hello")) }

abbrev seen : List SectionView
seen =
    closed_view closed_section closed_group
    ∷ record {
      name = codes "section 2";
      policy = null;
      accessible = true;
      text = str (codes "hello");
    }
    ∷ []

abbrev all_seen : List SectionView
all_seen =
    record {
      name = codes "section 1";
      policy = str (codes "boss");
      accessible = true;
      text = str (codes "plan");
    }
    ∷ record {
      name = codes "section 2";
      policy = null;
      accessible = true;
      text = str (codes "hello");
    }
    ∷ []

decrypt_document-closed_example : get_elem? seen 0 ≡ some (closed_view closed_section closed_group)
unfolding decrypt_document load_abe text_eq decrypt_bytes
decrypt_document-closed_example =
    decrypt_document-closed open_services (codes "d") (codes "k")
      (closed_section ∷ open_section ∷ []) (closed_group ∷ open_group ∷ []) seen 0 closed_section
      closed_group (codes "c") refl refl refl refl refl refl

decrypt_document-headings_example : map heading seen ≡ map heading all_seen
unfolding decrypt_document text_eq decrypt_bytes
decrypt_document-headings_example =
    decrypt_document-headings open_services (codes "d") (codes "k") (codes "l") seen all_seen refl
      refl

load_abe-Loaded_example :
    (doc : Json) × (open_services.loads (strip_left (λ c. nat_beq c 0xfeff) (codes "d")) ≡ some doc)
    × Loaded open_services doc (closed_section ∷ open_section ∷ []) (closed_group ∷ open_group ∷ [])
unfolding load_abe text_eq
load_abe-Loaded_example =
    load_abe-Loaded open_services (codes "d") (closed_section ∷ open_section ∷ [])
      (closed_group ∷ open_group ∷ []) refl

-- a request of the user
abbrev request : World open_services
request = record office { request_claims = some someone }

abbrev answer : ReadResult
answer = record {
  document = codes "n";
  user = codes "ann";
  agent = codes "cc";
  readable_sections = 1;
  total_sections = 2;
  sections = seen;
}

read_document-Grounds_example :
    Grounds open_services IsKeyFor made_by_keygen
      (λ a b h. h)
      request
      (codes "d")
      (codes "t")
      answer
unfolding read_document text_eq decrypt_bytes
read_document-Grounds_example =
    read_document-Grounds open_services IsKeyFor made_by_keygen (λ a b h. h) (codes "d") (codes "t")
      (codes "n") request answer office_keys refl
