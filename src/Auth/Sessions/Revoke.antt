-- ===== src/Auth/Sessions/Revoke.antt =====
-- revokeSession, revokeSessionFamily and logoutSession of
-- src/modules/auth/services/session.service.js.
use text.Mathlib.Text.{◌==◌ as str_eq}
use maghsul_backend.Base.{ℕ, String, if◌then◌else◌, Outcome, transaction, ◌>>◌, modify, pure}
use maghsul_backend.Auth.Sessions.Tables.{
  Accounts, Settings, Draw, revoked, is_open_session, is_live_in, is_live_of_family, set_sessions,
  set_tokens, log_session, disconnect, revoke_row, revoke_token, cache_session_state,
}

-- The transaction.
unfoldable pub revoke_writes : ℕ → String → ℕ → Accounts → Outcome Accounts (Unit {0})
revoke_writes i reason now = do
  modify (set_sessions (is_open_session i) (revoke_row now reason))
  modify (set_tokens (is_live_in i) (revoke_token now "session_revoked"))
  (if str_eq reason "logout" then pure tt else modify (log_session i "session_revoked"))
  modify (disconnect i)

-- `revokeSession`
unfoldable pub revoke_session :
    ℕ → String → Settings → Draw → Accounts → Outcome Accounts (Unit {0})
revoke_session i reason settings d = do
  transaction (revoke_writes i reason d.now)
  modify (cache_session_state i revoked settings d)

-- `revokeSessionFamily`
unfoldable pub revoke_session_family : ℕ → String → ℕ → Accounts → Outcome Accounts (Unit {0})
revoke_session_family family reason now =
    modify (set_tokens (is_live_of_family family) (revoke_token now reason))

-- `logoutSession`
unfoldable pub logout_session : ℕ → Settings → Draw → Accounts → Outcome Accounts (Unit {0})
logout_session i settings d = do
  revoke_session i "logout" settings d
  modify (log_session i "logout")
