-- ===== src/Lib.antt =====
-- PABEL: agents read .abe documents for a human, and only the sections that the human's and the
-- agent product's attributes together open.
--
-- The program has two halves. The connector (connector/src/pabel_connector) runs beside an AI
-- agent. Its hook gets every tool call, decides on it, and answers in the agent's own format. The
-- server (server) decrypts. The connector relays a read to it over MCP with two tokens, the human's
-- and the installation's, and the server checks both, makes or finds the key of the pair, decrypts,
-- and records the operation.
--
-- Connector:
--   Types, Policy (core/types.py, core/decide.py): NormalizedCall, Decision, and `decide` with its
--     parts `deny_locally`, `to_deployed_server`, `decide_write`, `decide_mention`, `after_relay`.
--     Policy/Reasons has the reason texts.
--   Detection (core/detection.py): one function of the same name for each function, its regular
--     expressions in Detection/Pattern, `find_relayable_file` in Detection/Walk.
--   Client (pabel_client): one child for each file, over one World that holds session.json,
--     agent_credentials.json, the audit log with its key, and the materialized copies.
--     Client/LocalServer is mcp_local_server.py.
--   Adapters (adapters): parse and render of each agent. Hook (hook.py, registry.py): `main` and
--     the table of adapters.
--   Installers (installers): Hooks has the entries of a hooks array (Hooks/Nested those of Claude
--     Code), Setting the edits of base.py, Disk the files and the machine, Registry, CodexFamily and
--     Opencode the installers, and Managed managed_settings.py.
--   Cli (cli/main.py): Scope, Selection, Install, Uninstall and Doctor, over one Shell that holds the
--     files, the World of the clients and what is typed at the terminal.
--   Json, Platform, Failure: JSON values and json.dumps, the machine, the exceptions.
--
-- Server:
--   Server: the failures, the rows of schema.sql, the session file and the request's claims as one
--     World. Server/Db (db.py) has a function for each statement, Server/Auth (auth.py,
--     token_verifier.py) the tokens, Server/Abe (abe.py) the OpenABE tools, with
--     the temporary files of each call in Server/Abe/TempFiles, Server/Document
--     (document.py) `load_abe`, Server/Decrypt the decryption of core.py and document.py,
--     Server/Core (core.py) the principals, the key and the audit, and Server/Tools
--     (mcp_server.py) the three MCP tools.
--   For the administrator: Server/Env (env.py), Server/Admin and Server/AuditLog (agents_admin.py),
--     Server/Onboard (onboard and grant of admin.py) with `requests` as the parameter Realm,
--     Server/GenerateRealm and Server/SetupUserProfile (the scripts of those names), and
--     Server/Deployment (the rest of admin.py: the wait for Keycloak; its children Bootstrap,
--     Teardown, which has status too, and Menu) over a Desk that holds the World, the authority's
--     files, the realm file and the client's files.
--   For the user: Server/Keycloak (the requests of auth.py), Server/OauthBrowser (oauth_browser.py)
--     and Server/Login (the login and the logout of core.py, and login.py).
--
-- Proofs stand below what they are about: Policy/{Effects,Allowed,Relayed}, Detection/Extension,
-- Client/AgentSession/Stored, Hook/{Names,Passes}, Installers/{Wired,Points,Edited},
-- Installers/Hooks/{Remove,Merge,Present}, Installers/Disk/Replaced, Cli/Selection/Sound, Cli/Uninstall/Clean,
-- Cli/Doctor/{Wired,Installed,Checked,Healthy}, Json/Update,
-- Server/Core/{Resolve,Keys,Keeps,Audit}, Installers/Managed/Enforced, Cli/Install/Stored,
-- Server/Core/{SessionToken,Granted}, Server/Env/Wins, Server/AuditLog/RoundTrip,
-- Server/Admin/{Revoked,LockedOut,Registered}, Server/Onboard/{Ready,Usable},
-- Server/Document/Bounds, Server/Decrypt/{Kept,Denied}, Server/Tools/ReadDocument,
-- Server/Abe/TempFiles/{Others,Restored,Cleaned}, Server/OauthBrowser/{SameState,Outside}, Server/Login/{Persisted,Kept},
-- Server/GenerateRealm/Filled, Server/SetupUserProfile/Declared, Server/Deployment/Wait,
-- Server/Deployment/Bootstrap/Up, Server/Deployment/Teardown/Clean and
-- Server/Deployment/Menu/{Untouched,Reads,Readers,Ends}. Base has the shared types and lemmas, and
-- Tests the runs at concrete inputs.
--
-- Code that changes state is in the monad of Base/Exec: a result or a failure, with the world after
-- it. A failure keeps the changes made before it, as an exception does.
--
-- What lies outside is a parameter. Platform is the machine (Unicode classes above ASCII, path
-- conventions, is_file, repr). Host is what the connector asks (clock, environment, Keycloak, the
-- browser, MCP, files, cryptography), Machine what the installers use (json, tomlkit, the bundled
-- files, the environment; an empty directory is not kept), Services what the server asks (clock,
-- jwt, PostgreSQL and whether PABEL_DB_DSN is set, OpenABE, base64, json), and Realm, Browser and Deploy what its commands ask beside
-- that (requests, random numbers, the browser, nerdctl, sleep). Each question may change the outside and may get any
-- answer. Times are in milliseconds, numbers of JSON are the texts that json.dumps prints, and
-- exceptions carry a constructor for each message. A text is a list of code points.
--
-- Every loop is over a list or a JSON value and is structural, but for two, which run on fuel and say
-- when it was too little: the wait for Keycloak, where 61 rounds are enough for its 180 seconds, since
-- each round sleeps three, and the menu, which reads a line at each choice.
--
-- Assumed: Machine and Host show the same environment; the platform takes every name that
-- server/.env sets; a payload is JSON already decoded, and a tool name that is no text ends the
-- hook with an exception; the oabe_* programs are found, except in Server/Abe/TempFiles; the cache directory can be removed; the
-- thread pool gives its results in the order of the groups. What OpenABE's keygen promises of a key
-- and that SHA-256 does not collide are named hypotheses of the theorems on keys.
--
-- Not modelled: what the commands print and argparse; an interrupt from the keyboard; the key pair
-- that server/agents_admin.py generates; the thread and the socket of the login's callback; and the
-- JavaScript plugins. nerdctl, the containers' volumes and runs of the connector from
-- server/admin.py are parameters.
pub mod Base
pub mod Json
pub mod Platform
pub mod Failure
pub mod Types
pub mod Client
pub mod Policy
pub mod Adapters
pub mod Hook
pub mod Server
pub mod Detection
pub mod Installers
pub mod Cli
pub mod Tests
