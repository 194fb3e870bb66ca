-- ===== src/Installers/Managed/Enforced.antt =====
-- What the managed settings enforce.
use mathlib.Core.List.{append_assoc}
use pabel.Base.{
  ◌≡◌, refl, ap, sym, ◌∙◌, any, nat_beq, true, false, Option, none, some, [], ◌∷◌, ◌++◌, All, arith,
}
use pabel.Base.{Text, codes, text_eq, text_eq_refl}
use pabel.Json.{Json, bool, obj, end, field, find, with_field}
use pabel.Installers.Disk.{Machine, replace_text}
use pabel.Installers.Disk.Replaced.{replace_text-prefix}
use pabel.Installers.Setting.{hook_command}
use pabel.Installers.Hooks.{command_present, append}
use pabel.Installers.Managed.{
  added, hook_block, claude_code_keys, managed_command, generate_managed_settings, ends_with,
  resolve_python_path, quoted,
}

-- two blocks below two events
abbrev settings : Text → Text → Json
settings c d = obj (
    field (codes "allowManagedHooksOnly") (bool true) (
      field (codes "allowManagedPermissionRulesOnly") (bool true) (
        field (codes "hooks")
          (obj (
            added (codes "SessionEnd") (hook_block d)
              (added (codes "PreToolUse") (hook_block c) end)))
          end)))

settings-present :
    (c d : Text)
    → (command_present c (settings c d) ≡ true) × (command_present d (settings c d) ≡ true)
unfolding command_present text_eq find with_field append
settings-present c d = (rw (text_eq_refl c) refl, ground (arith, text_eq_refl d))

-- the interpreter that is given, or else this one
abbrev pub interpreter : Machine → Option Text → Text
interpreter M none = M.executable
interpreter M (some []) = M.executable
interpreter M (some (c ∷ path)) = c ∷ path

-- the call of the hook for a key, with the interpreter in quotes
abbrev pub hook_call : Text → Text → Text
hook_call path key = b'"' ∷ (path ++ (b'"' ∷ (codes " -m pabel_connector.hook " ++ key)))

-- a text that has no quote
decided-plain :
    (t : Text) → any (λ c. nat_beq c b'"') t ≡ false → All (λ c. nat_beq c b'"' ≡ false) t
decided-plain [] h = tt
decided-plain (c ∷ t) h = (ground (arith, h), decided-plain t (ground (arith, h)))

quoted-front : (t s : Text) → quoted t ++ s ≡ b'"' ∷ (t ++ (b'"' ∷ s))
quoted-front t s = ap (λ x. b'"' ∷ x) (append_assoc t (b'"' ∷ []) s)

resolved : (M : Machine) (p : Option Text) → resolve_python_path M p ≡ interpreter M p
unfolding resolve_python_path
resolved M none = refl
resolved M (some []) = refl
resolved M (some (c ∷ path)) = refl

managed_command-hook_call :
    (M : Machine) (p : Option Text) (key : Text)
    → All (λ c. nat_beq c b'"' ≡ false) (codes " -m pabel_connector.hook " ++ key)
    → managed_command M p key ≡ hook_call (interpreter M p) key
unfolding managed_command hook_command
managed_command-hook_call M p key plain =
    let rest = codes " -m pabel_connector.hook " ++ key in
    let exe = M.executable in
    ap (λ t. replace_text (quoted exe) (quoted (resolve_python_path M p)) t)
      (sym (quoted-front exe rest))
    ∙ replace_text-prefix b'"' (exe ++ (b'"' ∷ [])) (quoted (resolve_python_path M p)) rest plain
    ∙ quoted-front (resolve_python_path M p) rest
    ∙ ap (λ t. hook_call t key) (resolved M p)

-- The managed settings hold, for each of Claude Code's keys, the hook whose command calls the
-- interpreter at the given path, in quotes, with `-m pabel_connector.hook` and the key; where no path
-- or the empty one is given, it calls this interpreter.
pub generate_managed_settings-present :
    (M : Machine) (python_path : Option Text)
    → All
        (λ key.
          command_present
            (hook_call (interpreter M python_path) key)
            (generate_managed_settings M python_path)
          ≡ true)
        claude_code_keys
unfolding generate_managed_settings ends_with text_eq
generate_managed_settings-present M python_path =
    let first = codes "claude-code" in
    let second = codes "claude-code:session-end" in
    let both =
      settings-present (managed_command M python_path first)
        (managed_command M python_path second) in
    let all : Json =
      settings (managed_command M python_path first) (managed_command M python_path second) in
    (
      ap (λ c. command_present c all)
            (sym (
              managed_command-hook_call M python_path first
                (decided-plain (codes " -m pabel_connector.hook " ++ first) refl)))
          ∙ both.0,
      (
        ap (λ c. command_present c all)
              (sym (
                managed_command-hook_call M python_path second
                  (decided-plain (codes " -m pabel_connector.hook " ++ second) refl)))
            ∙ both.1,
        tt,
      ),
    )
