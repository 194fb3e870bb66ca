-- ===== src/Tests/TempFiles.antt =====
-- A machine with one folder of tools, where a tool writes its last argument.
use pabel.Base.{◌≡◌, refl, true, false, some, List, [], ◌∷◌, ◌++◌, codes, text_eq}
use pabel.Server.Abe.TempFiles.{
  Tools, Disk, TempFile, mkstemp, keygen_call, decrypt_call, cleanup_stale_temp_files, prefixes,
}
use pabel.Server.Abe.TempFiles.Restored.{keygen_call-files, decrypt_call-files}
use pabel.Server.Abe.TempFiles.Cleaned.{Cleaned, cleanup_stale_temp_files-Cleaned}

abbrev bench : Tools
bench = record {
  State = Unit;
  time = λ s. (400000, s);
  draw_name = λ suffix prefix s. (some (prefix ++ suffix), s);
  disk_full = λ s. (false, s);
  on_path = false;
  bin_dir = some (codes "b");
  has_setup = λ d. true;
  run = λ command bin args fs s. (some command, s);
  decode_utf8 = λ t. some t;
  locked = λ n. false;
}

-- one file that a call has left behind, and one of another program
abbrev cluttered : List TempFile
cluttered =
    record { name = codes "abe_key_old.key"; content = codes "k"; mtime = 0 }
    ∷ record { name = codes "notes"; content = codes "n"; mtime = 0 }
    ∷ []

abbrev disk : Disk bench
disk = record { files = cluttered; authority = []; outside = tt }

keygen_call-files_example : (keygen_call bench (codes "hr") disk).1.files ≡ cluttered
unfolding mkstemp text_eq
keygen_call-files_example =
    keygen_call-files bench (codes "hr") (codes "abe_key_") disk
      (mkstemp bench [] (codes "abe_key_") disk).1 refl refl refl (refl, (refl, tt))
      (refl, (refl, tt))

decrypt_call-files_example : (decrypt_call bench (codes "k") (codes "c") disk).1.files ≡ cluttered
unfolding mkstemp text_eq
decrypt_call-files_example =
    decrypt_call-files bench (codes "k") (codes "c") (codes "abe_key_.key") (codes "abe_ct_.cpabe")
      (codes "abe_pt_.txt") disk (_, _, _, refl, refl, refl) refl refl refl (refl, (refl, tt))

cleanup_stale_temp_files-Cleaned_example :
    Cleaned bench 400000 300000
      (prefixes bench)
      (cleanup_stale_temp_files bench 300000 disk).1.files
cleanup_stale_temp_files-Cleaned_example = cleanup_stale_temp_files-Cleaned bench 300000 disk
