-- ===== src/Server/AuditLog/RoundTrip.antt =====
-- What the connector's audit_log.py writes, agents_admin.py reads back.
use pabel.Base.{
  ◌≡◌, refl, ap, sym, ◌∙◌, ℕ, zero, suc, ◌+◌, ◌*◌, ◌/◌, ◌%◌, some, [], ◌∷◌, ◌++◌, arith, inl, inr,
  Bool-cases,
}
use mathlib.Core.Path.{subst}
use pabel.Base.{Text, take, length, ltb}
use pabel.Client.AuditLog.{frame, length_prefix}
use native.Mathlib.Numerals.{unary_clauses}
use pabel.Json.{Json}
use pabel.Server.AuditLog.{Decryption, drop, from_bytes, unframe, opened, decrypt_audit_entry}

take-append : (s t : Text) → take (length s) (s ++ t) ≡ s
take-append [] t = refl
take-append (c ∷ s) t = ap (λ r. c ∷ r) (take-append s t)

drop-append : (s t : Text) → drop (length s) (s ++ t) ≡ t
unfolding drop
drop-append [] t = refl
drop-append (c ∷ s) t = drop-append s t

drop-drop : (m n : ℕ) (s : Text) → drop (m + n) s ≡ drop n (drop m s)
unfolding drop
drop-drop zero n s = let e : 0 + n ≡ n = omega arith in ap (λ k. drop k s) e
drop-drop (suc m) zero [] = simp unary_clauses refl
drop-drop (suc m) (suc n) [] = simp unary_clauses refl
drop-drop (suc m) n (c ∷ s) =
    let e : suc m + n ≡ suc (m + n) = omega arith in ap (λ k. drop k (c ∷ s)) e ∙ drop-drop m n s

triple :
    {a b c x y z : Text} → a ≡ x → b ≡ y → c ≡ z → Path (Text × Text × Text) (a, b, c) (x, y, z)
triple p q r = rw (p, q, r) refl

-- the two bytes of the length, and what follows them
unframe_bytes :
    (a b : ℕ) (wrapped_key nonce ciphertext : Text)
    → 256 * (256 * 0 + a) + b ≡ length wrapped_key
    → length nonce ≡ 12
    → unframe (a ∷ b ∷ (wrapped_key ++ (nonce ++ ciphertext))) ≡ (wrapped_key, nonce, ciphertext)
unfolding unframe drop from_bytes
unframe_bytes a b w n c k e =
    let body = w ++ (n ++ c) in
    let key : take (256 * (256 * 0 + a) + b) body ≡ w = rw k (take-append w (n ++ c)) in
    let behind : drop (256 * (256 * 0 + a) + b) body ≡ n ++ c = rw k (drop-append w (n ++ c)) in
    let raw = a ∷ b ∷ body in
    let len = 256 * (256 * 0 + a) + b in
    let past_length = drop-drop 2 len raw ∙ behind in
    let iv : take 12 (n ++ c) ≡ n = rw (sym e) (take-append n c) in
    let tail : drop 12 (n ++ c) ≡ c = rw (sym e) (drop-append n c) in
    triple key (ap (take 12) past_length ∙ iv)
      (drop-drop (2 + len) 12 raw ∙ ap (drop 12) past_length ∙ tail)

-- A frame of a key, a nonce of 12 bytes and a ciphertext is taken apart into the three.
pub unframe-frame :
    (wrapped_key nonce ciphertext framed : Text)
    → frame wrapped_key nonce ciphertext ≡ some framed
    → length nonce ≡ 12
    → unframe framed ≡ (wrapped_key, nonce, ciphertext)
unfolding frame length_prefix unframe
unframe-frame wrapped_key nonce ciphertext framed h n =
    elim (Bool-cases (ltb (length wrapped_key) 65536)) [
      | inl short ↦
          let made : length wrapped_key / 256
                ∷ length wrapped_key % 256
                ∷ (wrapped_key ++ (nonce ++ ciphertext))
              ≡ framed =
            ground (arith, short) in
          subst (λ f. unframe f ≡ (wrapped_key, nonce, ciphertext)) made
            (unframe_bytes (length wrapped_key / 256) (length wrapped_key % 256) wrapped_key nonce
              ciphertext (omega arith) n)
      | inr long ↦ absurd (ground (arith, long))
    ]

-- An entry of the connector's log is read back where its line decodes to the frame of a wrapped
-- key, a nonce of 12 bytes and a ciphertext, the private key unwraps the key, the key opens the
-- ciphertext, and the plaintext parses.
pub decrypt_audit_entry-frame :
    (D : Decryption) (private_key line aes_key wrapped_key nonce ciphertext framed plaintext : Text)
    (entry : Json)
    → frame wrapped_key nonce ciphertext ≡ some framed
    → length nonce ≡ 12
    → D.b64decode line ≡ some framed
    → D.rsa_decrypt private_key wrapped_key ≡ some aes_key
    → D.aes_decrypt aes_key nonce ciphertext ≡ some plaintext
    → D.loads plaintext ≡ some entry
    → decrypt_audit_entry D private_key line ≡ some entry
unfolding decrypt_audit_entry
decrypt_audit_entry-frame D private_key line aes_key wrapped_key nonce ciphertext framed plaintext
      entry h n raw key text json =
    let parts = unframe-frame wrapped_key nonce ciphertext framed h n in
    let opened_parts : opened D private_key (wrapped_key, nonce, ciphertext) ≡ some entry =
      rw (key, text) json in
    rw raw (ap (opened D private_key) parts ∙ opened_parts)
