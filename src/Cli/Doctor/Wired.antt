-- ===== src/Cli/Doctor/Wired.antt =====
-- The doctor's scan of a file that an installer has edited.
use pabel.Base.{◌≡◌, refl, sym, Bool, true, false, some, List, [], ◌∷◌, All}
use mathlib.Core.Path.{subst}
use pabel.Base.{Text, codes, text_eq, if◌then◌else◌}
use pabel.Base.Exec.{Result, ok, err}
use pabel.Json.{Json, num}
use pabel.Failure.{Failure}
use pabel.Installers.Disk.{FilePath, Machine, Files, parsed, json_text, read_json}
use pabel.Installers.Setting.{
  hook_command, install_nested, install_multi_point_hooks, install_windows_aware_hook, set_default,
  point_key,
}
use pabel.Installers.Registry.{
  Installer, Relative, cursor_hooks, windsurf_hooks, claude_code_hooks, copilot_cli_hooks,
  vscode_hooks, hooks_only, edit_json, cursor_points, windsurf_points, keys_of, and_then,
}
use pabel.Installers.Wired.{WiredAt, WiredAt-present}
use pabel.Installers.Points.{
  points-WiredAt, nested-WiredAt, nested-keeps-WiredAt, windows_aware-WiredAt,
}
use pabel.Installers.Edited.{edit_json-ok, read_json-put_file}
use pabel.Cli.Uninstall.{commands_of, config_of}
use pabel.Cli.Doctor.{all_present, wiring_problem_at, scan}

and_then-ok :
    (r : Result Failure Json) (f : Json → Result Failure Json) (d' : Json)
    → and_then r f ≡ ok d'
    → (d1 : Json) × (r ≡ ok d1) × (f d1 ≡ ok d')
and_then-ok (ok d1) f d' h = (d1, refl, h)
and_then-ok (err e) f d' h = cc

module _ (M : Machine) where
  -- what the doctor finds where every command is in the file
  pub scan-wired :
      (i : Installer) (dir path : FilePath) (g : Bool) (config : Relative) (keys : List Text)
      (d : Json) (fs : Files)
      → config_of M i config dir g ≡ ok path
      → read_json M path fs ≡ (ok d, fs)
      → all_present (commands_of M keys) d ≡ true
      → scan M i dir g (some config) (some keys) fs ≡ (ok false, fs)
  scan-wired i dir path g config keys d fs at back all = rw (at, back, all) refl

  keys_of-all_present :
      (agent : Text) (points : List Text) (d : Json)
      → All (λ p. WiredAt (hook_command M (point_key agent p)) p d) points
      → all_present (commands_of M (keys_of agent points)) d ≡ true
  unfolding commands_of all_present
  keys_of-all_present agent [] d w = refl
  keys_of-all_present agent (p ∷ points) d w =
      rw (WiredAt-present (hook_command M (point_key agent p)) p d w.0)
        (keys_of-all_present agent points d w.1)

  pub cursor_hooks-present :
      (d d' : Json)
      → cursor_hooks M d ≡ ok d'
      → all_present (commands_of M (keys_of (codes "cursor") cursor_points)) d' ≡ true
  unfolding cursor_hooks text_eq
  cursor_hooks-present d d' h =
      let (d1, _, points) =
        and_then-ok (set_default (codes "version") (num (codes "1")) d)
          (install_multi_point_hooks M (codes "cursor") cursor_points) d' h in
      keys_of-all_present (codes "cursor") cursor_points d'
        (points-WiredAt M (codes "cursor") cursor_points d1 d' (refl, (refl, (refl, tt))) points)

  pub windsurf_hooks-present :
      (d d' : Json)
      → windsurf_hooks M d ≡ ok d'
      → all_present (commands_of M (keys_of (codes "windsurf") windsurf_points)) d' ≡ true
  unfolding windsurf_hooks text_eq
  windsurf_hooks-present d d' h = keys_of-all_present (codes "windsurf") windsurf_points d' (
      points-WiredAt M (codes "windsurf") windsurf_points d d' (refl, (refl, (refl, (refl, tt)))) h)

  pub claude_code_hooks-present :
      (d d' : Json)
      → claude_code_hooks M d ≡ ok d'
      → all_present (commands_of M (codes "claude-code" ∷ codes "claude-code:session-end" ∷ [])) d'
        ≡ true
  unfolding claude_code_hooks commands_of all_present text_eq
  claude_code_hooks-present d d' h =
      let (d1, first, second) =
        and_then-ok (install_nested M (codes "PreToolUse") (codes "claude-code") d)
          (install_nested M (codes "SessionEnd") (codes "claude-code:session-end")) d' h in
      let before = hook_command M (codes "claude-code") in
      let at_end = hook_command M (codes "claude-code:session-end") in
      let w =
        nested-keeps-WiredAt M before (codes "PreToolUse") (codes "SessionEnd")
          (codes "claude-code:session-end") d1 d' refl
          (nested-WiredAt M (codes "PreToolUse") (codes "claude-code") d d1 first) second in
      rw
        (
          WiredAt-present before (codes "PreToolUse") d' w,
          WiredAt-present at_end (codes "SessionEnd") d' (
              nested-WiredAt M (codes "SessionEnd") (codes "claude-code:session-end") d1 d' second),
        )
        refl

  -- the doctor's scan behind an edit
  pub edited-wired :
      (i : Installer) (dir path : FilePath) (g : Bool) (config : Relative) (keys : List Text)
      (change : Json → Result Failure Json) (fs fs' : Files)
      → config_of M i config dir g ≡ ok path
      → ((d d' : Json) → change d ≡ ok d' → all_present (commands_of M keys) d' ≡ true)
      → ((d d' : Json)
          → (read_json M path fs).0 ≡ ok d
          → change d ≡ ok d'
          → parsed M (json_text M d') ≡ ok d')
      → edit_json M path change fs ≡ (ok tt, fs')
      → scan M i dir g (some config) (some keys) fs' ≡ (ok false, fs')
  edited-wired i dir path g config keys change fs fs' at wires back h =
      let e = edit_json-ok M path change fs fs' h in
      scan-wired i dir path g config keys e.new fs' at
        (subst (λ f. read_json M path f ≡ (ok e.new, f)) (sym e.written)
          (read_json-put_file M path e.new fs (back e.old e.new e.was_read e.changed)))
        (wires e.old e.new e.changed)

  pub copilot_cli_hooks-present :
      (d d' : Json)
      → copilot_cli_hooks M d ≡ ok d'
      → all_present (commands_of M (codes "copilot-cli" ∷ [])) d' ≡ true
  unfolding copilot_cli_hooks commands_of all_present
  copilot_cli_hooks-present d d' h =
      let (d1, _, wired) =
        and_then-ok (set_default (codes "version") (num (codes "1")) d)
          (install_windows_aware_hook M (codes "preToolUse") (codes "copilot-cli")) d' h in
      rw
        (WiredAt-present (hook_command M (codes "copilot-cli")) (codes "preToolUse") d'
          (windows_aware-WiredAt M (codes "preToolUse") (codes "copilot-cli") d1 d' wired))
        refl

  pub vscode_hooks-present :
      (d d' : Json)
      → vscode_hooks M d ≡ ok d'
      → all_present (commands_of M (codes "vscode" ∷ [])) d' ≡ true
  unfolding vscode_hooks commands_of all_present
  vscode_hooks-present d d' h =
      rw
        (WiredAt-present (hook_command M (codes "vscode")) (codes "PreToolUse") d'
          (windows_aware-WiredAt M (codes "PreToolUse") (codes "vscode") d d' h))
        refl

  -- an installer that writes one file, and that is given its commands
  pub hooks_only-wired :
      (status : Text) (config global_config : Relative) (keys : List Text)
      (change : Json → Result Failure Json) (dir : FilePath) (g : Bool) (fs fs' : Files)
      → ((d d' : Json) → change d ≡ ok d' → all_present (commands_of M keys) d' ≡ true)
      → ((d d' : Json)
          → (read_json M (if g then global_config M.home else config dir) fs).0 ≡ ok d
          → change d ≡ ok d'
          → parsed M (json_text M d') ≡ ok d')
      → edit_json M (if g then global_config M.home else config dir) change fs ≡ (ok tt, fs')
      → wiring_problem_at M (hooks_only M status config global_config keys change) dir g fs'
        ≡ (ok false, fs')
  unfolding wiring_problem_at
  hooks_only-wired status config global_config keys change dir true fs fs' wires back h =
      edited-wired (hooks_only M status config global_config keys change) dir (global_config M.home)
        true config keys change fs fs' refl wires back h
  hooks_only-wired status config global_config keys change dir false fs fs' wires back h =
      edited-wired (hooks_only M status config global_config keys change) dir (config dir) false
        config keys change fs fs' refl wires back h
