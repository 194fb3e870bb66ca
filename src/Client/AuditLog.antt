-- ===== src/Client/AuditLog.antt =====
-- audit_log.py of the connector: the local log of what decide() did, each entry encrypted.
use pabel.Base.{ℕ, ◌/◌, ◌%◌, Option, none, some, [], ◌∷◌, ◌++◌}
use pabel.Base.{Text, codes, ltb, length, if◌then◌else◌}
use pabel.Base.Exec.{Result, ok, err, lift, pure, raise, gets, modify, attempt, ◌>>=◌, ◌>>◌}
use pabel.Json.{Json, null, num, str, obj, end, field}
use pabel.Json.Dumps.{dumps}
use pabel.Failure.{Failure, other_error, foreign}
use pabel.Client.{Host, Client, ask}

-- `x` or null, as `json.dumps` prints an `Optional[str]`
abbrev pub optional_str : Option Text → Json
optional_str none = null
optional_str (some s) = str s

-- a library call that failed
abbrev or_fail : Option Text → Result Failure Text
or_fail none = err (other_error (foreign (codes "encryption failed")))
or_fail (some t) = ok t

-- `len(b).to_bytes(2, "big")`, an OverflowError from 65536 on
unfoldable pub length_prefix : Text → Option Text
length_prefix b = if ltb (length b) 65536 then some (length b / 256 ∷ length b % 256 ∷ []) else none

-- the wrapped key behind its length, then the nonce and the ciphertext
unfoldable pub frame : Text → Text → Text → Option Text
unfolding length_prefix
frame wrapped_key nonce ciphertext = elim (length_prefix wrapped_key) [
  | none ↦ none
  | some n ↦ some (n ++ (wrapped_key ++ (nonce ++ ciphertext)))
]

module _ (H : Host) where
  unfoldable pub entry_json : ℕ → Text → Text → Text → Option Text → Text → Json
  entry_json now agent_id tool_name decision_kind target reason = obj (
      field (codes "ts") (num (H.print_time now)) (
        field (codes "agent_id") (str agent_id) (
          field (codes "tool_name") (str tool_name) (
            field (codes "decision_kind") (str decision_kind) (
              field (codes "target") (optional_str target)
                (field (codes "reason") (str reason) end))))))

  unfoldable pub encrypt_entry : Text → Json → Client H Text
  unfolding frame
  encrypt_entry public_key entry = do
    key ← ask H.aes_key
    nonce ← ask H.nonce
    let ciphertext = H.aes_encrypt key nonce (dumps entry)
    answer ← ask (H.rsa_encrypt public_key key)
    wrapped_key ← lift (or_fail answer)
    framed ← lift (or_fail (frame wrapped_key nonce ciphertext))
    pure (H.base64 framed)

  -- the body of the `try`
  with_key : Text → Text → Text → Option Text → Text → Option Text → Client H (Unit {0})
  unfolding encrypt_entry entry_json
  with_key agent_id tool_name decision_kind target reason none = pure tt
  with_key agent_id tool_name decision_kind target reason (some public_key) =
      if H.is_public_key public_key
      then (do
        now ← ask H.time
        line ←
            encrypt_entry public_key (entry_json now agent_id tool_name decision_kind target reason)
        modify (λ w. record w { audit_log = w.audit_log ++ ((line ++ (10 ∷ [])) ∷ []) }))
      else raise (other_error (foreign (codes "not a public key")))

  -- `except Exception: pass`
  unfoldable pub append_entry : Text → Text → Text → Option Text → Text → Client H (Unit {0})
  unfolding with_key
  append_entry agent_id tool_name decision_kind target reason = do
    public_key ← gets (λ w. w.audit_public_key)
    attempt (with_key agent_id tool_name decision_kind target reason public_key)
    pure tt

  -- Fails before the write if the text is no key.
  unfoldable pub install_public_key : Text → Client H (Unit {0})
  install_public_key source =
      if H.is_public_key source
      then modify (λ w. record w { audit_public_key = some source })
      else raise (other_error (foreign (codes "not a public key")))
