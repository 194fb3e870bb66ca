-- ===== src/Server/Core/SessionToken.antt =====
-- The token that the session of the server process gives.
use pabel.Base.{◌≡◌, Bool, false, none, some, arith}
use pabel.Base.{◌+◌, ◌*◌, ℕ, ltb}
use pabel.Base.Exec.{ok}
use pabel.Server.{Services, World, SessionFile}
use pabel.Server.Core.{session_token, from_file, read_session_file, use_tokens}

-- the lifetime ends within five seconds
abbrev pub ends_soon : ℕ → ℕ → ℕ → Bool
ends_soon expires_in obtained_at now = ltb (1000 * expires_in + obtained_at) (now + 5000)

module _ (S : Services) where
  pub session_token-unread :
      (f : SessionFile) (w : World S)
      → w.session_file ≡ some f
      → w.session.session_mtime ≡ none
      → ends_soon f.expires_in f.obtained_at (S.time w.outside).0 ≡ false
      → (session_token S w).0 ≡ ok f.access_token
  unfolding session_token from_file read_session_file use_tokens
  session_token-unread f w file unread lives = ground (arith, file, unread, lives)
