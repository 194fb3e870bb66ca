-- ===== src/Cli/Uninstall/Clean.antt =====
-- What is left of an agent's hooks once they were removed.
use pabel.Base.{◌≡◌, ap, sym, ◌∙◌, Bool, true, false, List}
use mathlib.Core.Path.{subst}
use pabel.Base.{Text, contains, text_eq_instance}
use pabel.Base.Exec.{ok, lift, pure, ◌>>=◌, ◌>>◌}
use pabel.Base.Exec.Ran.{bind-ran}
use pabel.Json.{Json}
use pabel.Installers.Disk.{
  FilePath, Machine, Files, parsed, json_text, read_json, write_json, write_text,
}
use pabel.Installers.Edited.{read_json-put_file}
use pabel.Installers.Hooks.{remove_matching_commands, command_present}
use pabel.Installers.Hooks.Remove.{
  remove_matching_commands_complete, remove_matching_commands-unchanged,
}
use pabel.Cli.Uninstall.{remove_hooks, write_if}

module _ (M : Machine) where
  -- behind the decision whether to write
  write_if-reads :
      (removed : Bool) (path : FilePath) (commands : List Text) (d left : Json) (fs fs' : Files)
      → read_json M path fs ≡ (ok d, fs)
      → remove_matching_commands commands d ≡ ok (left, removed)
      → parsed M (json_text M left) ≡ ok left
      → write_if M removed path left fs ≡ (ok tt, fs')
      → read_json M path fs' ≡ (ok left, fs')
  unfolding write_json write_text
  write_if-reads true path commands d left fs fs' was gone back h =
      subst (λ f. read_json M path f ≡ (ok left, f)) (ap (λ x. x.1) h)
        (read_json-put_file M path left fs back)
  write_if-reads false path commands d left fs fs' was gone back h =
      subst (λ f. read_json M path f ≡ (ok left, f)) (ap (λ x. x.1) h)
        (was ∙ ap (λ v. (ok v, fs)) (sym (remove_matching_commands-unchanged commands d left gone)))

  -- Removing an agent's hooks, if it succeeds, leaves a file that can be read and in which none of
  -- the commands is present, at any depth, where the value that is left reads back from its text.
  pub remove_hooks-clean :
      (commands : List Text) (path : FilePath) (c : Text) (removed : Bool) (fs fs' : Files)
      → ((d left : Json) (r : Bool)
          → (read_json M path fs).0 ≡ ok d
          → remove_matching_commands commands d ≡ ok (left, r)
          → parsed M (json_text M left) ≡ ok left)
      → contains c commands ≡ true
      → remove_hooks M commands path fs ≡ (ok removed, fs')
      → (left : Json) × (read_json M path fs' ≡ (ok left, fs')) × (command_present c left ≡ false)
  unfolding remove_hooks read_json
  remove_hooks-clean commands path c removed fs fs' back m h =
      let (d, fs1, was, h1) =
        bind-ran (read_json M path)
          (λ d. lift (remove_matching_commands commands d) >>= λ cleaned.
            write_if M (cleaned.1) path (cleaned.0) >> pure (cleaned.1))
          fs fs' removed h in
      let ((left, gone), fs2, cleaned, h2) =
        bind-ran (lift (remove_matching_commands commands d))
          (λ cleaned. write_if M (cleaned.1) path (cleaned.0) >> pure (cleaned.1)) fs1 fs' removed
          h1 in
      let (_, fs3, wrote, h3) =
        bind-ran (write_if M gone path left) (λ _. pure gone) fs2 fs' removed h2 in
      let kept : fs ≡ fs2 = ap (λ x. x.1) was ∙ ap (λ x. x.1) cleaned in
      let result = ap (λ x. x.0) cleaned in
      let reads =
        write_if-reads gone path commands d left fs fs3 (ap (λ x. (x.0, fs)) was) result
          (back d left gone (ap (λ x. x.0) was) result)
          (subst (λ f. write_if M gone path left f ≡ (ok tt, fs3)) (sym kept) wrote) in
      (
        left,
        subst (λ f. read_json M path f ≡ (ok left, f)) (ap (λ x. x.1) h3) reads,
        remove_matching_commands_complete commands d left gone c result m,
      )
