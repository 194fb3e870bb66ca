-- ===== src/Installers/Setting.antt =====
-- How an installer changes the value of a configuration file: the commands that it writes and the
-- places that it writes them to, of installers/base.py.
use pabel.Base.{Option, none, some, List, [], ◌∷◌, ◌++◌}
use pabel.Base.{Text, codes}
use pabel.Base.Exec.{Result, ok, err}
use pabel.Json.{
  Json, Fields, null, bool, num, str, arr, obj, nil, cons, end, field, find, with_field,
}
use pabel.Failure.{Failure}
use pabel.Installers.Disk.{Machine}
use pabel.Installers.Hooks.{existing_list, merge_hooks, type_error}
use pabel.Installers.Hooks.Nested.{merge_nested}

infixl 10 ◌>>=◌
abbrev pub ◌>>=◌ : {A B : Type 0} → Result Failure A → (A → Result Failure B) → Result Failure B
ok a >>= f = f a
err e >>= f = err e

-- `d.setdefault(key, ...)` and `d[key] = ...` fail where `d` is no dict
abbrev pub as_dict : Json → Result Failure Fields
as_dict (obj fs) = ok fs
as_dict null = err type_error
as_dict (bool b) = err type_error
as_dict (num t) = err type_error
as_dict (str s) = err type_error
as_dict (arr vs) = err type_error

-- `d.setdefault(key, v)`, as a value
abbrev pub default : Json → Option Json → Json
default v none = v
default v (some w) = w

-- `inner = d.setdefault(outer, {})` and `inner[key] = f(inner.get(key))`
unfoldable pub set_in :
    Text → Text → (Option Json → Result Failure Json) → Json → Result Failure Json
unfolding find with_field
set_in outer key f d = do
  fs ← as_dict d
  inner ← as_dict (default (obj end) (find outer fs))
  v ← f (find key inner)
  ok (obj (with_field outer (obj (with_field key v inner)) fs))

-- `d.setdefault(key, v)`
unfoldable pub set_default : Text → Json → Json → Result Failure Json
set_default key v d = do fs ← as_dict d; ok (obj (with_field key (default v (find key fs)) fs))

unfoldable pub point_key : Text → Text → Text
point_key agent_key point = agent_key ++ (b':' ∷ point)

module _ (M : Machine) where
  unfoldable pub hook_command : Text → Text
  hook_command key = b'"' ∷ (M.executable ++ (b'"' ∷ (codes " -m pabel_connector.hook " ++ key)))

  unfoldable pub hook_command_windows : Text → Text
  unfolding hook_command
  hook_command_windows key = codes "& " ++ hook_command key

  -- `command, *args = mcp_server_command(agent_id)`
  unfoldable pub mcp_server_args : Text → Json
  mcp_server_args agent_id = arr (
      cons (str (codes "-m"))
        (cons (str (codes "pabel_connector.mcp_local_server")) (cons (str agent_id) nil)))

  unfoldable pub mcp_server_command : Text → Json
  mcp_server_command agent_id = arr (
      cons (str M.executable) (
        cons (str (codes "-m"))
          (cons (str (codes "pabel_connector.mcp_local_server")) (cons (str agent_id) nil))))

  abbrev pub merged : Text → Fields → Option Json → Result Failure Json
  merged command extra existing = do
    vs ← existing_list existing
    ok (arr (merge_hooks command extra vs))

  unfoldable pub install_windows_aware_hook : Text → Text → Json → Result Failure Json
  unfolding set_in hook_command hook_command_windows existing_list merge_hooks
  install_windows_aware_hook event_key agent_key d =
      set_in (codes "hooks") event_key
        (merged (hook_command agent_key)
          (field (codes "windows") (str (hook_command_windows agent_key)) end))
        d

  unfoldable pub install_multi_point_hooks : Text → List Text → Json → Result Failure Json
  unfolding set_in hook_command existing_list merge_hooks point_key
  install_multi_point_hooks agent_key [] d = ok d
  install_multi_point_hooks agent_key (p ∷ ps) d = do
    d' ← set_in (codes "hooks") p (merged (hook_command (point_key agent_key p)) end) d
    install_multi_point_hooks agent_key ps d'

  abbrev pub merged_nested : Text → Option Json → Result Failure Json
  merged_nested command existing = do
    vs ← existing_list existing
    ws ← merge_nested command vs
    ok (arr ws)

  -- one event of claude_code.py
  unfoldable pub install_nested : Text → Text → Json → Result Failure Json
  unfolding set_in hook_command existing_list merge_nested
  install_nested event key d = set_in (codes "hooks") event (merged_nested (hook_command key)) d
