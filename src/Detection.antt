-- ===== src/Detection.antt =====
-- connector/src/pabel_connector/core/detection.py: whether a tool call touches what PABEL
-- protects. Pattern has its regular expressions, Walk the search for one file to relay.
pub mod Pattern
pub mod Walk
pub mod Extension
use pabel.Base.{Bool, true, false, ◌||◌, not, ◌&&◌, List, [], ◌∷◌, ◌++◌, map}
use pabel.Base.{Text, codes, any, occurs, is_empty, nat_beq, if◌then◌else◌}
use pabel.Platform.{Platform, normcase}
use pabel.Json.{Json, Items, Fields, null, bool, num, str, arr, obj, nil, cons, end, field}
use pabel.Json.Dumps.{dumps}
use Pattern.{encrypted_file, documents_path, oabe_binary, connector_internals}

abbrev pub pabel_mcp_server_name : Text
pabel_mcp_server_name = codes "pabel"

abbrev pub pabel_connector_mcp_server_name : Text
pabel_connector_mcp_server_name = codes "pabel-connector"

abbrev hook_config_relative_paths : List Text
hook_config_relative_paths =
    codes ".claude/settings.json"
    ∷ codes ".mcp.json"
    ∷ codes ".github/hooks/pabel.json"
    ∷ codes ".vscode/mcp.json"
    ∷ codes ".github/hooks/pabel-copilot-cli.json"
    ∷ codes ".copilot/hooks/pabel-copilot-cli.json"
    ∷ codes ".cursor/hooks.json"
    ∷ codes ".windsurf/hooks.json"
    ∷ codes ".codeium/windsurf/hooks.json"
    ∷ codes "opencode/plugins/pabel.js"
    ∷ codes "opencode/plugin/pabel.js"
    ∷ codes "opencode.json"
    ∷ []

-- `rel.replace("/", "\\")`
unfoldable pub backslashed : Text → Text
backslashed s = map (λ c. if nat_beq c b'/' then 92 else c) s

abbrev both_spellings : List Text → List Text
both_spellings [] = []
both_spellings (rel ∷ rels) = rel ∷ backslashed rel ∷ both_spellings rels

module _ (P : Platform) where
  unfoldable pub mentions_target : Json → Bool
  mentions_target tool_input =
      encrypted_file P (dumps tool_input) || documents_path (dumps tool_input)

  credential_targets : List Text
  credential_targets = normcase P P.session_file ∷ normcase P P.credentials_file ∷ []

  unfoldable pub names_credentials : Text → Bool
  unfolding credential_targets
  names_credentials value = any (λ target. occurs target (normcase P value)) credential_targets

  unfoldable mutual
    pub touches_pabel_credential_store : Json → Bool
    touches_pabel_credential_store (str s) = names_credentials s
    touches_pabel_credential_store (obj fs) = touches_fields fs
    touches_pabel_credential_store (arr vs) = touches_items vs
    touches_pabel_credential_store null = false
    touches_pabel_credential_store (bool b) = false
    touches_pabel_credential_store (num t) = false

    pub touches_items : Items → Bool
    touches_items nil = false
    touches_items (cons v vs) = touches_pabel_credential_store v || touches_items vs

    pub touches_fields : Fields → Bool
    touches_fields end = false
    touches_fields (field k v fs) = touches_pabel_credential_store v || touches_fields fs

  unfoldable pub invokes_oabe_binary : Json → Bool
  invokes_oabe_binary tool_input = oabe_binary P (dumps tool_input)

  hook_config_candidates : List Text
  unfolding backslashed
  hook_config_candidates = map (normcase P) (both_spellings hook_config_relative_paths)

  unfoldable pub is_pabel_hook_config_target : Text → Bool
  unfolding hook_config_candidates occurs
  is_pabel_hook_config_target path =
      if is_empty path
      then false
      else any (λ candidate. occurs candidate (normcase P path)) hook_config_candidates

  unfoldable pub invokes_pabel_connector_internals : Json → Bool
  invokes_pabel_connector_internals tool_input =
      if P.source_checkout then false else connector_internals P (dumps tool_input)
