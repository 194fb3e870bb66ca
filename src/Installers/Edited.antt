-- ===== src/Installers/Edited.antt =====
-- What a file holds after an installer's edit of it.
use pabel.Base.{◌≡◌, refl, ap, sym, ◌∙◌, false}
use pabel.Base.{Text}
use pabel.Base.Exec.{Result, ok, lift, ◌>>=◌}
use pabel.Json.{Json}
use pabel.Failure.{Failure}
use pabel.Installers.Disk.{
  FilePath, Machine, Files, put_file, path_eq, parsed, read_json, write_json, json_text, write_text,
}
use pabel.Base.Exec.Ran.{bind-ran}
use pabel.Installers.Disk.Files.{file_at-put_file, file_at-put_file_ne}
use pabel.Installers.Registry.{edit_json}

module _ (M : Machine) where
  -- an edit that succeeds
  pub record Edited (path : FilePath) (change : Json → Result Failure Json) (fs fs' : Files)
      : Type 0 where
    pub old : Json
    pub new : Json
    pub was_read : (read_json M path fs).0 ≡ ok old
    pub changed : change old ≡ ok new
    pub written : fs' ≡ put_file path (json_text M new) fs

  pub edit_json-ok :
      (path : FilePath) (change : Json → Result Failure Json) (fs fs' : Files)
      → edit_json M path change fs ≡ (ok tt, fs')
      → Edited path change fs fs'
  unfolding edit_json read_json write_json write_text
  edit_json-ok path change fs fs' h =
      let (old, fs1, was_read, h1) =
        bind-ran (read_json M path) (λ d. lift (change d) >>= write_json M path) fs fs' tt h in
      let (new, fs2, changed, h2) =
        bind-ran (lift (change old)) (write_json M path) fs1 fs' tt h1 in
      let kept : fs ≡ fs2 = ap (λ x. x.1) was_read ∙ ap (λ x. x.1) changed in
      record {
        old = old;
        new = new;
        was_read = ap (λ x. x.0) was_read;
        changed = ap (λ x. x.0) changed;
        written = sym (ap (λ x. x.1) h2) ∙ ap (put_file path (json_text M new)) (sym kept);
      }

  pub read_json-put_file :
      (path : FilePath) (d : Json) (fs : Files)
      → parsed M (json_text M d) ≡ ok d
      → read_json M path (put_file path (json_text M d) fs)
        ≡ (ok d, put_file path (json_text M d) fs)
  unfolding read_json
  read_json-put_file path d fs back = rw (file_at-put_file path (json_text M d) fs, back) refl

  pub read_json-put_file_ne :
      (path other : FilePath) (t : Text) (fs : Files)
      → path_eq other path ≡ false
      → (read_json M path (put_file other t fs)).0 ≡ (read_json M path fs).0
  unfolding read_json
  read_json-put_file_ne path other t fs n = rw (file_at-put_file_ne path other t fs n) refl
