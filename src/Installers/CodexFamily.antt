-- ===== src/Installers/CodexFamily.antt =====
-- installers/codex_family.py: the entries of the two products in the one config.toml.
use pabel.Base.{Bool, true, false, Option, none, some, List, [], ◌∷◌}
use pabel.Base.{Text, codes, text_eq, is_empty, occurs, if◌then◌else◌}
use pabel.Base.Exec.{Result, ok, err, pure, lift, ◌>>=◌, ◌>>◌}
use pabel.Json.{
  Json, Items, Fields, null, bool, num, str, arr, obj, nil, cons, end, field, find, with_field,
}
use pabel.Failure.{Failure}
use pabel.Installers.Disk.{FilePath, below, Machine, Disk, read_toml, write_toml, write_text}
use pabel.Installers.Hooks.{type_error}
use pabel.Installers.Setting.{set_in, mcp_server_args}

-- `SHARED_ENV_VARS`
abbrev pub shared_env_vars : List Text
shared_env_vars =
    codes "PABEL_KEYCLOAK_URL"
    ∷ codes "PABEL_KEYCLOAK_REALM"
    ∷ codes "PABEL_KEYCLOAK_CLIENT_ID"
    ∷ codes "PABEL_SERVER_URL"
    ∷ []

-- `os.environ.get(name)` where an empty value is none
abbrev pub set_value : Option Text → Option Text
set_value none = none
set_value (some v) = if is_empty v then none else some v

abbrev captured_one : Text → Option Text → Fields → Fields
captured_one name none fs = fs
captured_one name (some v) fs = field name (str v) fs

abbrev env_entry : Fields → Fields
env_entry end = end
env_entry (field k v fs) = field (codes "env") (obj (field k v fs)) end

-- `del d[key]`
unfoldable pub without_field : Text → Fields → Fields
without_field key end = end
without_field key (field k v fs) = if text_eq k key then fs else field k v (without_field key fs)

abbrev is_text : Text → Json → Bool
is_text t null = false
is_text t (bool b) = false
is_text t (num n) = false
is_text t (str s) = text_eq s t
is_text t (arr vs) = false
is_text t (obj fs) = false

abbrev holds_text : Text → Items → Bool
holds_text t nil = false
holds_text t (cons v vs) = if is_text t v then true else holds_text t vs

abbrev has_field : Option Json → Bool
has_field none = false
has_field (some v) = true

-- `name in servers`
unfoldable pub is_in : Text → Json → Result Failure Bool
unfolding find occurs
is_in name (obj fs) = ok (has_field (find name fs))
is_in name (arr vs) = ok (holds_text name vs)
is_in name (str s) = ok (occurs name s)
is_in name null = err type_error
is_in name (bool b) = err type_error
is_in name (num t) = err type_error

-- `del servers[name]`
unfoldable pub delete : Text → Json → Result Failure Json
unfolding without_field
delete name (obj fs) = ok (obj (without_field name fs))
delete name null = err type_error
delete name (bool b) = err type_error
delete name (num t) = err type_error
delete name (str s) = err type_error
delete name (arr vs) = err type_error

-- `data.get(key, {})`
abbrev pub get_dict : Text → Json → Result Failure Json
get_dict key (obj fs) = elim (find key fs) [ none ↦ ok (obj end) | some v ↦ ok v ]
get_dict key null = err type_error
get_dict key (bool b) = err type_error
get_dict key (num t) = err type_error
get_dict key (str s) = err type_error
get_dict key (arr vs) = err type_error

-- `data[key] = v` where `data` is a dict
abbrev pub put_dict : Text → Json → Json → Json
put_dict key v (obj fs) = obj (with_field key v fs)
put_dict key v null = null
put_dict key v (bool b) = bool b
put_dict key v (num t) = num t
put_dict key v (str s) = str s
put_dict key v (arr vs) = arr vs

module _ (M : Machine) where
  abbrev pub codex_config : FilePath
  codex_config = below (below M.home (codes ".codex")) (codes "config.toml")

  abbrev pub codex_skill : FilePath
  codex_skill =
      below (below (below (below M.home (codes ".agents")) (codes "skills")) (codes "pabel"))
        (codes "SKILL.md")

  -- the variables that are set, in their order
  unfoldable pub captured_from : List Text → Fields
  captured_from [] = end
  captured_from (n ∷ ns) = captured_one n (set_value (M.environ n)) (captured_from ns)

  abbrev connector_entry : Text → Json
  connector_entry agent_id = obj (
      field (codes "command") (str M.executable) (
        field (codes "args") (mcp_server_args M agent_id)
          (env_entry (captured_from shared_env_vars))))

  abbrev with_deployed : Option Text → Json → Result Failure Json
  with_deployed none d = ok d
  with_deployed (some url) d =
      set_in (codes "mcp_servers") (codes "pabel")
        (λ old. ok (obj (field (codes "url") (str url) end))) d

  -- the value that `install_mcp_registration` writes
  unfoldable pub register : Text → Text → Json → Result Failure Json
  unfolding set_in mcp_server_args captured_from
  register agent_id connector_server_name d =
      elim (set_in (codes "mcp_servers") connector_server_name
        (λ old. ok (connector_entry agent_id)) d) [
          | ok d' ↦ with_deployed (set_value (M.environ (codes "PABEL_SERVER_URL"))) d'
          | err e ↦ err e
        ]

  unfoldable pub install_mcp_registration : Text → Text → Disk (Unit {0})
  unfolding read_toml write_toml register
  install_mcp_registration agent_id connector_server_name = do
    d ← read_toml M codex_config
    d' ← lift (register agent_id connector_server_name d)
    write_toml M codex_config d'

  unfoldable pub install_skill : Disk (Unit {0})
  unfolding write_text
  install_skill = write_text codex_skill (M.bundled (codes "pabel-codex"))

  abbrev write_if : Bool → Text → Json → Json → Disk Bool
  write_if false name servers d = pure false
  write_if true name servers d = do
    rest ← lift (delete name servers)
    write_toml M codex_config (put_dict (codes "mcp_servers") rest d)
    pure true

  -- whether the entry was there
  unfoldable pub uninstall_mcp_registration : Text → Disk Bool
  unfolding read_toml write_toml is_in delete find
  uninstall_mcp_registration connector_server_name = do
    d ← read_toml M codex_config
    servers ← lift (get_dict (codes "mcp_servers") d)
    removed ← lift (is_in connector_server_name servers)
    write_if removed connector_server_name servers d

  -- codex_cli.py and chatgpt_desktop.py
  unfoldable pub install_codex : Text → Text → FilePath → Bool → Disk (Unit {0})
  unfolding install_mcp_registration install_skill
  install_codex agent_id connector_server_name base_dir global_ = do
    install_mcp_registration agent_id connector_server_name
    install_skill
