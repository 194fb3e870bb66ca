-- ===== src/Policy/Reasons.antt =====
-- The texts of connector/src/pabel_connector/core/decide.py, word for word.
use pabel.Base.{◌++◌}
use pabel.Base.{Text, codes}
use pabel.Failure.{Message, message_text}

unfoldable pub credential_access : Text
credential_access =
    codes
      "This targets PABEL's own local credential store (this installation's human session or agent client secret/token) - only this package's own code ever reads these; denied unconditionally, never relayed. To check who is currently logged in (or why a document section came back access-denied) without reading any local file, call the pabel MCP server's own whoami tool instead - it reports username, ABE attributes, and authorization status directly, and is always a sanctioned call."

unfoldable pub hook_bypass : Text
hook_bypass =
    codes
      "This command references pabel_connector's own internals directly - the hook is the only sanctioned way any of this runs, never a command the model constructs itself; denied unconditionally, never executed."

unfoldable pub own_tools : Text
own_tools = codes "Direct call to this installation's own whoami/read_document/login tools."

unfoldable pub no_stored_credential : Text
no_stored_credential =
    codes
      "Direct call to the deployed pabel server's own tools, but no stored credential for this installation - allowed through unmodified, the server's own error will explain it."

unfoldable pub credential_injected : Text
credential_injected =
    codes
      "Direct call to the deployed pabel server's own tools, with this installation's own credential injected."

unfoldable pub mutating : Text
mutating =
    codes
      "This project has no write/authoring path for .abe files - read_document on the deployed PABEL server is the only sanctioned operation."

unfoldable pub config_tamper : Text
config_tamper =
    codes
      "This targets this installation's own hook/MCP registration file - only `pabel-connector install`/`uninstall`, run directly by a human, are sanctioned to change it. The agent_id baked into it at install time is what ties this hook to which stored credential it uses (see core/decide.py's own docstring) - rewriting it here could let this installation start authenticating as a different agent product, or repoint the deployed server's own URL entirely. Denied unconditionally, never relayed."

unfoldable pub oabe_binary_call : Text
oabe_binary_call =
    codes
      "This invokes an OpenABE CLI binary directly. Decryption must happen on the deployed PABEL server, which combines the current user's and agent's attributes into one key and audits the result - calling oabe_dec/oabe_keygen/oabe_setup directly would bypass both."

unfoldable pub ambiguous : Text
ambiguous =
    codes
      "This targets an .abe file or the documents/ folder in a way that doesn't name one concrete existing file (a directory, a pattern, or several candidates) - relaying automatically isn't possible here. Ask for one specific file by name."

-- `repr` is Python's.
module _ (repr : Text → Text) where
  unfoldable pub not_authenticated : Message → Text
  not_authenticated e = codes "Not authenticated to the PABEL server: " ++ message_text repr e

  unfoldable pub relay_failed : Message → Text
  relay_failed e = codes "Relay to the PABEL server failed: " ++ message_text repr e

  unfoldable pub read_blocked : Text → Text
  read_blocked name =
      codes "Direct reads of .abe files are blocked - the PABEL server's read_document result for "
      ++ (repr name ++ codes " is provided instead.")
