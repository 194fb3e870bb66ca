-- ===== src/Cli/Doctor/Installed.antt =====
-- An installation that succeeded is one that the doctor finds wired.
use pabel.Base.{◌≡◌, refl, ap, sym, ◌∙◌, Bool, true, false, [], ◌∷◌}
use pabel.Base.{Text, codes, text_eq}
use mathlib.Core.Path.{subst}
use pabel.Base.Exec.{ok, ◌>>◌}
use pabel.Base.Exec.Ran.{bind-ran}
use pabel.Json.{Json}
use pabel.Installers.Disk.{
  write_text, FilePath, below, Machine, Files, parsed, json_text, read_json, path_eq, put_file,
}
use pabel.Installers.Registry.{
  cursor_hooks, claude_code_hooks, claude_code, cursor, in_folder, skill_in, claude_code_servers,
  edit_json, place, cursor_points, keys_of,
}
use pabel.Installers.Edited.{edit_json-ok, read_json-put_file, read_json-put_file_ne}
use pabel.Cli.Uninstall.{config_of}
use pabel.Cli.Doctor.Wired.{
  scan-wired, hooks_only-wired, cursor_hooks-present, claude_code_hooks-present,
}
use pabel.Cli.Doctor.{wiring_problem_at}

module _ (M : Machine) where
  -- Installing for Cursor, if it succeeds, leaves a configuration in which the doctor finds all of
  -- its hook points wired, in the machine's scope as in a project's, where the written value reads
  -- back from its text.
  cursor-wired :
      (dir : FilePath) (g : Bool) (fs fs' : Files)
      → ((d d' : Json)
          → (read_json M (in_folder (codes ".cursor") (codes "hooks.json") (place M dir g)) fs).0
            ≡ ok d
          → cursor_hooks M d ≡ ok d'
          → parsed M (json_text M d') ≡ ok d')
      → (cursor M).install dir g fs ≡ (ok tt, fs')
      → wiring_problem_at M (cursor M) dir g fs' ≡ (ok false, fs')
  cursor-wired dir true fs fs' back h =
      hooks_only-wired M (codes "unverified") (in_folder (codes ".cursor") (codes "hooks.json"))
        (in_folder (codes ".cursor") (codes "hooks.json")) (keys_of (codes "cursor") cursor_points)
        (cursor_hooks M) dir true fs fs' (cursor_hooks-present M) back h
  cursor-wired dir false fs fs' back h =
      hooks_only-wired M (codes "unverified") (in_folder (codes ".cursor") (codes "hooks.json"))
        (in_folder (codes ".cursor") (codes "hooks.json")) (keys_of (codes "cursor") cursor_points)
        (cursor_hooks M) dir false fs fs' (cursor_hooks-present M) back h

  -- reading behind a write to another file
  read_behind :
      (path other : FilePath) (d : Json) (t : Text) (fs fs' : Files)
      → path_eq other path ≡ false
      → fs' ≡ put_file other t fs
      → read_json M path fs ≡ (ok d, fs)
      → read_json M path fs' ≡ (ok d, fs')
  unfolding read_json
  read_behind path other d t fs fs' n w h =
      let found : (read_json M path fs').0 ≡ ok d =
        rw w (read_json-put_file_ne M path other t fs n ∙ ap (λ x. x.0) h) in
      ap (λ r. (r, fs')) found

  settings_at :
      (dir : FilePath) (g : Bool)
      → config_of M (claude_code M) (in_folder (codes ".claude") (codes "settings.json")) dir g
        ≡ ok (in_folder (codes ".claude") (codes "settings.json") (place M dir g))
  settings_at dir true = refl
  settings_at dir false = refl

  -- Installing for Claude Code, if it succeeds, leaves settings in which the doctor finds both of
  -- its hook points wired, in the machine's scope as in a project's, where the written value reads
  -- back from its text.
  pub claude_code-wired :
      (dir : FilePath) (g : Bool) (fs fs' : Files)
      → ((d d' : Json)
          → (read_json M (in_folder (codes ".claude") (codes "settings.json") (place M dir g)) fs).0
            ≡ ok d
          → claude_code_hooks M d ≡ ok d'
          → parsed M (json_text M d') ≡ ok d')
      → (claude_code M).install dir g fs ≡ (ok tt, fs')
      → wiring_problem_at M (claude_code M) dir g fs' ≡ (ok false, fs')
  unfolding wiring_problem_at write_text path_eq text_eq
  claude_code-wired dir g fs fs' back h =
      let settings = in_folder (codes ".claude") (codes "settings.json") (place M dir g) in
      let mcp = below dir (codes ".mcp.json") in
      let skill = skill_in (place M dir g) in
      let write_skill = write_text skill (M.bundled (codes "pabel")) in
      let (_, fs1, hooks, h1) =
        bind-ran (edit_json M settings (claude_code_hooks M))
          (λ _. edit_json M mcp (claude_code_servers M) >> write_skill) fs fs' tt h in
      let (_, fs2, servers, h2) =
        bind-ran (edit_json M mcp (claude_code_servers M)) (λ _. write_skill) fs1 fs' tt h1 in
      let e = edit_json-ok M settings (claude_code_hooks M) fs fs1 hooks in
      let e2 = edit_json-ok M mcp (claude_code_servers M) fs1 fs2 servers in
      let at1 : read_json M settings fs1 ≡ (ok e.new, fs1) =
        subst (λ f. read_json M settings f ≡ (ok e.new, f)) (sym e.written)
          (read_json-put_file M settings e.new fs (back e.old e.new e.was_read e.changed)) in
      let at2 = read_behind settings mcp e.new (json_text M e2.new) fs1 fs2 refl e2.written at1 in
      let at3 =
        read_behind settings skill e.new (M.bundled (codes "pabel")) fs2 fs' refl
          (sym (ap (λ x. x.1) h2)) at2 in
      scan-wired M (claude_code M) dir settings g
        (in_folder (codes ".claude") (codes "settings.json"))
        (codes "claude-code" ∷ codes "claude-code:session-end" ∷ []) e.new fs' (settings_at dir g)
        at3 (claude_code_hooks-present M e.old e.new e.changed)
