-- ===== src/Tests/Setup.antt =====
-- One machine whose Cursor and Claude Code are set up, and the agents that are picked from a list.
use pabel.Base.{◌≡◌, refl, ap, ◌∙◌, ◌||◌, true, false, Option, none, some, List, [], ◌∷◌, All}
use mathlib.Core.Path.{subst}
use pabel.Base.{
  Text, codes, text_eq, nat_beq, contains, text_eq_instance, if◌then◌else◌, strip_left, strip_right,
}
use pabel.Base.Exec.{Result, ok, err}
use pabel.Json.{Json, Items, null, str, arr, obj, nil, cons, end, field, find}
use pabel.Json.Dumps.{dumps, escape}
use pabel.Installers.Disk.{root, Machine, Files, path_eq, read_json, write_text, json_text, parsed}
use pabel.Installers.Hooks.{command_present, remove_matching_commands, merge_hooks}
use pabel.Installers.Hooks.Remove.{remove_matching_commands_complete}
use pabel.Installers.Hooks.Merge.{IsExtra, others, merge_hooks-merge_hooks, others-merge_hooks}
use pabel.Installers.Registry.{
  Installer, cursor_hooks, claude_code_hooks, claude_code_servers, cursor, claude_code, edit_json,
}
use pabel.Cli.Selection.{parse_selection}
use pabel.Cli.Selection.Sound.{IsAgent, parse_selection-IsSelection}
use pabel.Cli.Shell.{Shell}
use pabel.Cli.Uninstall.{remove_hooks}
use pabel.Cli.Uninstall.Clean.{remove_hooks-clean}
use pabel.Cli.Doctor.{wiring_problem_at, cmd_doctor}
use pabel.Cli.Doctor.Installed.{claude_code-wired}
use pabel.Cli.Doctor.Healthy.{Healthy, cmd_doctor-Healthy}
use pabel.Cli.Install.{install_one}
use pabel.Cli.Install.Stored.{install_one-stored, Outcome}
use pabel.Installers.Managed.{claude_code_keys, generate_managed_settings}
use pabel.Installers.Managed.Enforced.{generate_managed_settings-present, hook_call}
use pabel.Tests.Connector.{desk, at_work}

-- the value that a text prints
abbrev printed : Text → List Json → Option Json
printed t [] = none
printed t (v ∷ vs) = if text_eq t (dumps v) then some v else printed t vs

-- a machine on which `json.loads` knows the texts of some values
abbrev machine_with : List Json → Machine
machine_with known = record {
  executable = codes "py";
  home = root (codes "h");
  environ = λ name. some (codes "u");
  is_space = λ c. nat_beq c 32 || nat_beq c 10;
  loads = λ t. printed t known;
  dumps_indented = dumps;
  toml_parse = λ t. none;
  toml_dumps = λ v. [];
  bundled = λ name. name;
  cwd = root (codes "c");
  resolve = root;
  lower = λ t. t;
  is_digit_beyond = λ c. false;
  digit_beyond = λ c. none;
}

abbrev value_of : {F : Type 0} → Result F Json → Json
value_of (ok v) = v
value_of (err e) = null

-- what the installers write where there was nothing
abbrev cursor_config : Json
cursor_config = value_of (cursor_hooks (machine_with []) (obj end))

abbrev claude_config : Json
claude_config = value_of (claude_code_hooks (machine_with []) (obj end))

abbrev with_cursor : Machine
with_cursor = machine_with (cursor_config ∷ [])

abbrev cursor_files : Files
cursor_files = ((cursor with_cursor).install (root (codes "d")) true []).1

ok-same : {F A : Type 0} (a b : A) → Path (Result F A) (ok a) (ok b) → a ≡ b
ok-same a b h = cc

abbrev with_claude : Machine
with_claude = machine_with (claude_config ∷ [])

abbrev claude_files : Files
claude_files = ((claude_code with_claude).install (root (codes "d")) false []).1

claude_code-wired_example :
    wiring_problem_at with_claude (claude_code with_claude) (root (codes "d")) false claude_files
    ≡ (ok false, claude_files)
unfolding claude_code_hooks parsed json_text text_eq read_json edit_json strip_right strip_left
    dumps escape write_text path_eq claude_code_servers
claude_code-wired_example =
    claude_code-wired with_claude (root (codes "d")) false [] claude_files
      (λ d d' r c.
        let old : obj end ≡ d = ok-same (obj end) d r in
        let new : claude_config ≡ d' =
          ok-same claude_config d' (ap (claude_code_hooks with_claude) old ∙ c) in
        subst (λ v. parsed with_claude (json_text with_claude v) ≡ ok v) new refl)
      refl

abbrev entry : Text → Json
entry c = obj (field (codes "command") (str c) end)

abbrev config : Json
config =
    obj (field (codes "hooks") (arr (cons (entry (codes "a")) (cons (entry (codes "b")) nil))) end)

abbrev rest : Json
rest = obj (field (codes "hooks") (arr (cons (entry (codes "b")) nil)) end)

remove_matching_commands_complete_example : command_present (codes "a") rest ≡ false
unfolding remove_matching_commands text_eq find
remove_matching_commands_complete_example =
    remove_matching_commands_complete (codes "a" ∷ []) config rest true (codes "a") refl refl

end-IsExtra : IsExtra end
unfolding find
end-IsExtra = record { distinct = tt; no_command = refl; no_timeout = refl }

abbrev entries : Items
entries = cons (entry (codes "a")) (cons (entry (codes "b")) nil)

merge_hooks-merge_hooks_example :
    merge_hooks (codes "a") end (merge_hooks (codes "a") end entries)
    ≡ merge_hooks (codes "a") end entries
merge_hooks-merge_hooks_example = merge_hooks-merge_hooks (codes "a") end entries end-IsExtra

others-merge_hooks_example :
    others (codes "a") (merge_hooks (codes "a") end entries) ≡ others (codes "a") entries
others-merge_hooks_example = others-merge_hooks (codes "a") end entries end-IsExtra

parse_selection-IsSelection_example :
    All (IsAgent (codes "a" ∷ codes "b" ∷ [])) (codes "b" ∷ codes "a" ∷ [])
    × ((contains (codes "b") (codes "a" ∷ []) ≡ false)
        × ((contains (codes "a") [] ≡ false) × Unit {0}))
unfolding parse_selection text_eq strip_left strip_right
parse_selection-IsSelection_example =
    parse_selection-IsSelection with_cursor (codes "2, a b") (codes "a" ∷ codes "b" ∷ [])
      (codes "b" ∷ codes "a" ∷ []) (refl, (refl, tt)) refl

abbrev removable : Machine
removable = machine_with (config ∷ rest ∷ [])

abbrev before_removal : Files
before_removal = (root (codes "f"), json_text removable config) ∷ []

abbrev after_removal : Files
after_removal = (root (codes "f"), json_text removable rest) ∷ []

remove_hooks-clean_example :
    (left : Json) × (read_json removable (root (codes "f")) after_removal
      ≡ (ok left, after_removal))
    × (command_present (codes "a") left ≡ false)
unfolding remove_hooks parsed json_text text_eq read_json strip_right strip_left dumps escape find
    path_eq
remove_hooks-clean_example =
    remove_hooks-clean removable (codes "a" ∷ []) (root (codes "f")) (codes "a") true before_removal
      after_removal
      (λ d left r was c.
        let old : config ≡ d = ok-same config d was in
        let new : (rest, true) ≡ (left, r) =
          ok-same (rest, true) (left, r) (ap (remove_matching_commands (codes "a" ∷ [])) old ∙ c) in
        subst (λ v. parsed removable (json_text removable v) ≡ ok v) (ap (λ x. x.0) new) refl)
      refl refl

-- the shell of a user who is logged in, with one installation that is wired
abbrev shell : Shell desk
shell = record { files = cursor_files; world = at_work; lines = []; secrets = [] }

abbrev table : List (Text × Installer)
table = (codes "cc", cursor with_cursor) ∷ []

cmd_doctor-Healthy_example : Healthy with_cursor desk table (root (codes "d")) shell shell
unfolding cmd_doctor text_eq edit_json cursor_hooks path_eq strip_left dumps escape
cmd_doctor-Healthy_example =
    cmd_doctor-Healthy with_cursor desk table (root (codes "d")) shell shell refl

generate_managed_settings-present_example :
    All
      (λ key.
        command_present
          (hook_call (codes "/py") key)
          (generate_managed_settings with_cursor (some (codes "/py")))
        ≡ true)
      claude_code_keys
generate_managed_settings-present_example =
    generate_managed_settings-present with_cursor (some (codes "/py"))

-- with a secret at the keyboard
abbrev typing : Shell desk
typing = record shell { secrets = codes "s" ∷ [] }

install_one-stored_example :
    Outcome with_cursor desk
      (codes "cc")
      (some (codes "i"))
      none
      0
      typing
      (install_one with_cursor desk
        (codes "cc")
        (cursor with_cursor)
        (root (codes "d"))
        true
        (some (codes "i"))
        none
        typing).1
unfolding install_one edit_json cursor_hooks text_eq path_eq strip_right strip_left dumps escape
install_one-stored_example =
    install_one-stored with_cursor desk (codes "cc") (cursor with_cursor) (root (codes "d")) true
      (some (codes "i")) none 0 typing
      (install_one with_cursor desk (codes "cc") (cursor with_cursor) (root (codes "d")) true
        (some (codes "i")) none typing).1
      refl
