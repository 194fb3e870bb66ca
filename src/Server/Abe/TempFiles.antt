-- ===== src/Server/Abe/TempFiles.antt =====
-- server/abe.py with the files that its calls write and remove: the temporary directory, and the
-- directory of the authority. Code points stand for bytes.
pub mod Others
pub mod Restored
pub mod Cleaned
use pabel.Base.{ℕ, ◌+◌, Bool, true, false, ◌&&◌, not, Option, none, some, List, [], ◌∷◌, ◌++◌, keep}
use pabel.Base.{
  Text, codes, text_eq, ltb, is_some, is_empty, starts_with, contains, text_eq_instance,
}
use pabel.Base.{if◌then◌else◌}
use pabel.Base.Exec.{Exec, Result, ok, err, lift, attempt, pure, raise, gets, modify, ◌>>=◌, ◌>>◌}
use pabel.Server.{Failure, other_error, runtime_error, foreign, no_oabe_output}
use pabel.Server.Abe.{lf, drop_bom, produced}

pub record TempFile : Type 0 where
  pub name : Text
  pub content : Text
  -- `st_mtime`, in milliseconds
  pub mtime : ℕ

-- The machine: names that `mkstemp` draws, where OpenABE is, and its tools.
pub record Tools : Type 1 where
  pub State : Type 0
  pub time : State → ℕ × State
  -- a new name with this suffix and this prefix, or an `OSError` where no file can be made
  pub draw_name : Text → Text → State → Option Text × State
  -- an `OSError` at a file that is written
  pub disk_full : State → Bool × State
  -- `shutil.which`, the variable OPENABE_BIN_DIR behind server/.env, and oabe_setup.exe in a folder
  pub on_path : Bool
  pub bin_dir : Option Text
  pub has_setup : Text → Bool
  -- a tool from a folder with its arguments and the files: what it writes to its output, if it does
  pub run : Text → Text → List Text → List TempFile → State → Option Text × State
  -- `read_text(encoding="utf-8-sig")`, but for the mark in front
  pub decode_utf8 : Text → Option Text
  -- an `OSError` at a file that is to be removed
  pub locked : Text → Bool

pub record Disk (T : Tools) : Type 0 where
  pub files : List TempFile
  -- the names of the authority's files
  pub authority : List Text
  pub outside : T.State

abbrev pub Call : Tools → Type 0 → Type 0
Call T A = Exec (Disk T) Failure A

abbrev pub named : Text → TempFile → Bool
named name f = text_eq f.name name

-- what `os.remove` leaves
unfoldable pub unlink : Text → List TempFile → List TempFile
unlink name fs = keep (λ f. not (named name f)) fs

unfoldable pub write : Text → Text → ℕ → List TempFile → List TempFile
unfolding unlink
write name content mtime fs =
    record { name = name; content = content; mtime = mtime } ∷ unlink name fs

unfoldable pub read : Text → List TempFile → Option Text
read name [] = none
read name (f ∷ fs) = if named name f then some f.content else read name fs

-- what a tool leaves
unfoldable pub output : Text → Option Text → ℕ → List TempFile → List TempFile
unfolding write
output name none mtime fs = fs
output name (some content) mtime fs = write name content mtime fs

abbrev unreadable : {A : Type 0} → Option A → Result Failure A
unreadable none = err (other_error (foreign (codes "UnicodeDecodeError")))
unreadable (some a) = ok a

module _ (T : Tools) where
  abbrev pub on_files : (List TempFile → List TempFile) → Call T (Unit {0})
  on_files f = modify (λ d. record d { files = f d.files })

  abbrev pub clock : Call T ℕ
  clock d = let (t, o) = T.time d.outside in (ok t, record d { outside = o })

  -- `try: ... finally: ...`, where an exception of the `finally` takes the outcome's place
  abbrev pub finally : {A : Type 0} → Call T A → Call T (Unit {0}) → Call T A
  finally m last = do r ← attempt m; last; lift r

  abbrev os_error : Failure
  os_error = other_error (foreign (codes "OSError"))

  unfoldable pub created : Option Text → Call T Text
  unfolding write
  created none = raise os_error
  created (some name) = do t ← clock; on_files (write name [] t); pure name

  -- `tempfile.mkstemp`: an empty file
  unfoldable pub mkstemp : Text → Text → Call T Text
  unfolding created
  mkstemp suffix prefix d =
      let (name, o) = T.draw_name suffix prefix d.outside in created name (record d { outside = o })

  -- `os.remove` of a file that is there
  unfoldable pub remove : Text → Call T (Unit {0})
  unfolding unlink
  remove name = if T.locked name then raise os_error else on_files (unlink name)

  -- `if os.path.exists(p): os.remove(p)`
  unfoldable pub remove_existing : Text → Call T (Unit {0})
  unfolding remove read
  remove_existing name = do
    exists ← gets (λ d. is_some (read name d.files))
    if exists then remove name else pure tt

  -- `f.write(data)`
  unfoldable pub write_bytes : Text → Text → Call T (Unit {0})
  unfolding write
  write_bytes name content d =
      let (t, o) = T.time d.outside in
      let (full, o') = T.disk_full o in
      if full
      then (err os_error, record d { outside = o' })
      else (ok tt, record d { files = write name content t d.files; outside = o' })

  abbrev configured : Option Text → Result Failure Text
  configured none = err (other_error (foreign (codes "FileNotFoundError")))
  configured (some dir) =
      if not (is_empty dir) && T.has_setup dir
      then ok dir
      else err (other_error (foreign (codes "FileNotFoundError")))

  -- the folder of the tools, empty where they are on the path
  unfoldable pub find_bin : Result Failure Text
  find_bin = if T.on_path then ok [] else configured T.bin_dir

  -- `_run`, with what the tool writes
  unfoldable pub run_tool : Text → List Text → Call T (Option Text)
  unfolding find_bin
  run_tool command args = do
    bin ← lift find_bin
    fs ← gets (λ d. d.files)
    (λ d. let (out, o) = T.run command bin args fs d.outside in (ok out, record d { outside = o }))

  abbrev mpk : Text
  mpk = codes "org.mpk.cpabe"

  unfoldable pub authority_exists : Call T Bool
  authority_exists = gets (λ d. contains mpk d.authority)

  abbrev with_authority : Option Text → List Text → List Text
  with_authority none names = names
  with_authority (some written) names = mpk ∷ codes "org.msk.cpabe" ∷ names

  unfoldable pub setup_authority : Call T (Unit {0})
  unfolding run_tool authority_exists
  setup_authority = do
    out ← run_tool (codes "oabe_setup") (codes "-s" ∷ codes "CP" ∷ codes "-p" ∷ codes "org" ∷ [])
    modify (λ d. record d { authority = with_authority out d.authority })
    exists ← authority_exists
    if exists then pure tt else raise (runtime_error no_oabe_output)

  -- the `try` of keygen
  unfoldable pub make_key : Text → Text → Call T Text
  unfolding run_tool output read
  make_key attributes tmp = do
    out ← run_tool (codes "oabe_keygen") (
        codes "-s"
        ∷ codes "CP"
        ∷ codes "-p"
        ∷ codes "org"
        ∷ codes "-i"
        ∷ attributes
        ∷ codes "-o"
        ∷ tmp
        ∷ [])
    t ← clock
    on_files (output (tmp ++ codes ".key") out t)
    found ← gets (λ d. read (tmp ++ codes ".key") d.files)
    lift (produced found)

  -- oabe_keygen makes the file itself
  unfoldable pub keygen_call : Text → Call T Text
  unfolding mkstemp make_key remove remove_existing
  keygen_call attributes = do
    tmp ← mkstemp [] (codes "abe_key_")
    remove tmp
    finally (make_key attributes tmp) (remove_existing (tmp ++ codes ".key"))

  abbrev plaintext : Option Text → Result Failure (Option Text)
  plaintext none = ok none
  plaintext (some bytes) = elim (unreadable (T.decode_utf8 bytes)) [
    | ok text ↦ ok (some (drop_bom text))
    | err e ↦ err e
  ]

  abbrev pub dec_args : Text → Text → Text → List Text
  dec_args key_path ct_path out_path =
      codes "-s"
      ∷ codes "CP"
      ∷ codes "-p"
      ∷ codes "org"
      ∷ codes "-k"
      ∷ key_path
      ∷ codes "-i"
      ∷ ct_path
      ∷ codes "-o"
      ∷ out_path
      ∷ []

  -- the plaintext, if the tool has written one
  unfoldable pub collect : Text → Option Text → Call T (Option Text)
  unfolding read output
  collect out_path out = do
    t ← clock
    on_files (output out_path out t)
    found ← gets (λ d. read out_path d.files)
    lift (plaintext found)

  -- the `try` of decrypt_bytes
  unfoldable pub open_with : Text → Text → Text → Text → Text → Call T (Option Text)
  unfolding run_tool write_bytes lf collect
  open_with key_bytes ciphertext key_path ct_path out_path = do
    write_bytes key_path (lf key_bytes)
    write_bytes ct_path (lf ciphertext)
    out ← run_tool (codes "oabe_dec") (dec_args key_path ct_path out_path)
    collect out_path out

  -- oabe_dec makes the output only where it succeeds
  unfoldable pub decrypt_call : Text → Text → Call T (Option Text)
  unfolding mkstemp open_with remove remove_existing
  decrypt_call key_bytes ciphertext = do
    key_path ← mkstemp (codes ".key") (codes "abe_key_")
    ct_path ← mkstemp (codes ".cpabe") (codes "abe_ct_")
    out_path ← mkstemp (codes ".txt") (codes "abe_pt_")
    remove out_path
    finally (open_with key_bytes ciphertext key_path ct_path out_path)
        (do remove_existing key_path; remove_existing ct_path; remove_existing out_path)

  abbrev pub prefixes : List Text
  prefixes = codes "abe_key_" ∷ codes "abe_ct_" ∷ codes "abe_pt_" ∷ []

  -- too old, and it can be removed
  abbrev pub doomed : ℕ → ℕ → TempFile → Bool
  doomed now max_age f = ltb (f.mtime + max_age) now && not (T.locked f.name)

  unfoldable pub remove_stale : ℕ → ℕ → List TempFile → List TempFile → List TempFile
  unfolding unlink
  remove_stale now max_age [] fs = fs
  remove_stale now max_age (g ∷ gs) fs =
      remove_stale now max_age gs (if doomed now max_age g then unlink g.name fs else fs)

  -- `tmp_dir.glob(f"{prefix}*")`, for each prefix
  unfoldable pub clean_all : ℕ → ℕ → List Text → List TempFile → List TempFile
  unfolding remove_stale starts_with
  clean_all now max_age [] fs = fs
  clean_all now max_age (p ∷ ps) fs =
      clean_all now max_age ps (remove_stale now max_age (keep (λ f. starts_with f.name p) fs) fs)

  unfoldable pub cleanup_stale_temp_files : ℕ → Call T (Unit {0})
  unfolding clean_all
  cleanup_stale_temp_files max_age = do now ← clock; on_files (clean_all now max_age prefixes)
