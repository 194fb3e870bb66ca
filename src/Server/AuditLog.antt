-- ===== src/Server/AuditLog.antt =====
-- agents_admin.py decrypt-audit-log: the connector's local log, read back with the private key.
pub mod RoundTrip
use pabel.Base.{ℕ, zero, suc, ◌+◌, ◌*◌, Bool, Option, none, some, List, [], ◌∷◌, ◌++◌}
use pabel.Base.{Text, take, is_empty, strip, if◌then◌else◌}
use pabel.Json.{Json}

infixl 10 ◌>>=◌
abbrev pub ◌>>=◌ : {A B : Type 0} → Option A → (A → Option B) → Option B
none >>= f = none
some a >>= f = f a

-- `base64`, RSA-OAEP with the private key, AES-GCM, and `json.loads`; each may refuse its input
pub record Decryption : Type 0 where
  pub b64decode : Text → Option Text
  pub rsa_decrypt : Text → Text → Option Text
  pub aes_decrypt : Text → Text → Text → Option Text
  pub loads : Text → Option Json
  pub is_space : ℕ → Bool

-- `raw[n:]`
unfoldable pub drop : ℕ → Text → Text
drop zero s = s
drop (suc n) [] = []
drop (suc n) (c ∷ s) = drop n s

-- `int.from_bytes(b, "big")`, behind the bytes before
unfoldable pub from_bytes : ℕ → Text → ℕ
from_bytes n [] = n
from_bytes n (c ∷ s) = from_bytes (256 * n + c) s

-- the wrapped key, the nonce and the ciphertext
unfoldable pub unframe : Text → Text × Text × Text
unfolding drop from_bytes
unframe raw =
    let key_len = from_bytes 0 (take 2 raw) in
    (take key_len (drop 2 raw), take 12 (drop (2 + key_len) raw), drop (2 + key_len + 12) raw)

module _ (D : Decryption) where
  -- behind the frame
  abbrev pub opened : Text → Text × Text × Text → Option Json
  opened private_key (wrapped_key, nonce, ciphertext) = do
    aes_key ← D.rsa_decrypt private_key wrapped_key
    plaintext ← D.aes_decrypt aes_key nonce ciphertext
    D.loads plaintext

  unfoldable pub decrypt_audit_entry : Text → Text → Option Json
  unfolding unframe
  decrypt_audit_entry private_key line =
      D.b64decode line >>= λ raw. opened private_key (unframe raw)

  abbrev with_entry : Option Json → List Json → List Json
  with_entry none entries = entries
  with_entry (some entry) entries = entry ∷ entries

  -- `do_decrypt_audit_log`: the entries that are printed
  unfoldable pub decrypt_audit_log : Text → List Text → List Json
  unfolding decrypt_audit_entry
  decrypt_audit_log private_key [] = []
  decrypt_audit_log private_key (line ∷ lines) =
      let rest = decrypt_audit_log private_key lines in
      if is_empty (strip D.is_space line)
      then rest
      else with_entry (decrypt_audit_entry private_key line) rest
