-- ===== src/Server/Abe.antt =====
-- server/abe.py: what a call of OpenABE's tools gives, by the output that a tool leaves. Bytes are
-- numbers. Server/Abe/TempFiles has the calls with their temporary files.
pub mod TempFiles
use pabel.Base.{Bool, false, ◌&&◌, Option, none, some, [], ◌∷◌}
use pabel.Base.{Text, nat_beq, if◌then◌else◌}
use pabel.Base.Exec.{Result, ok, err, lift, ◌>>=◌}
use pabel.Server.{Services, Service, Failure, runtime_error, no_oabe_output, ask}

abbrev head_is_lf : Text → Bool
head_is_lf [] = false
head_is_lf (c ∷ s) = nat_beq c 10

-- `data.replace(b"\r\n", b"\n")`
unfoldable pub lf : Text → Text
lf [] = []
lf (c ∷ s) = let rest = lf s in if nat_beq c 13 && head_is_lf s then rest else c ∷ rest

-- "utf-8-sig", and `content.lstrip` of a BOM drops every one in front
abbrev pub drop_bom : Text → Text
drop_bom [] = []
drop_bom (c ∷ s) = if nat_beq c 0xfeff then s else c ∷ s

abbrev pub produced : Option Text → Result Failure Text
produced none = err (runtime_error no_oabe_output)
produced (some key) = ok key

module _ (S : Services) where
  unfoldable pub keygen : Text → Service S Text
  keygen attributes = do key ← ask (S.oabe_keygen attributes); lift (produced key)

  -- `none` where the tool left no output: the key does not satisfy the policy.
  unfoldable pub decrypt_bytes : Text → Text → Option Text
  unfolding lf
  decrypt_bytes key_bytes ciphertext = elim (S.oabe_dec (lf key_bytes) (lf ciphertext)) [
    | none ↦ none
    | some text ↦ some (drop_bom text)
  ]
