-- ===== src/Auth/Sessions/Rotate.antt =====
-- rotateRefreshToken of src/modules/auth/services/session.service.js. The token that was read and the
-- transaction behind it are two steps, since other requests may come between them.
use maghsul_backend.Base.{
  ℕ, ◌-◌, ◌*◌, Bool, not, ◌&&◌, ◌||◌, Option, none, some, ◌==◌, ltb, leb, is_some, if◌then◌else◌,
  find, any, Outcome, throw, transaction, found_or, ◌>>=◌, ◌>>◌, require, get, modify, pure,
}
use maghsul_backend.Auth.Sessions.Tables.{
  Device, SessionRow, RefreshToken, Accounts, Settings, Draw, is_customer_app, has_token, has_hash,
  find_session, find_token, device_of, app_type_of, application_of, add_token, set_tokens,
  log_session, revoke_token,
}
use maghsul_backend.Auth.Sessions.Create.{claims_for, Granted, new_token}
use maghsul_backend.Auth.Sessions.Revoke.{revoke_session, revoke_session_family}

-- What the first query finds: the token, its session and the session's device.
pub record Shown : Type 0 where
  pub token : RefreshToken
  pub session : SessionRow
  pub device : Option Device

-- The first query and the three checks on what it finds.
unfoldable pub read_token : (ℕ → ℕ) → ℕ → ℕ → Accounts → Outcome Accounts Shown
read_token hash raw now = do
  s ← get
  token ← found_or (find (has_hash (hash raw)) s.tokens) 401 "INVALID_REFRESH_TOKEN"
  session ← found_or (find_session token.session_id s) 401 "INVALID_REFRESH_TOKEN"
  require (not (session.is_revoked || is_some session.revoked_at)) 401 "SESSION_REVOKED"
  require (not (ltb token.expires_at now)) 401 "REFRESH_TOKEN_EXPIRED"
  pure (record { token = token; session = session; device = device_of session s })

-- `usedAt === null && revokedAt === null`
abbrev pub is_unused : RefreshToken → Bool
is_unused t = not (is_some t.used_at) && not (is_some t.revoked_at)

-- `where: { id, usedAt: null, revokedAt: null }`
abbrev pub is_unused_at : ℕ → RefreshToken → Bool
is_unused_at i t = t.id == i && is_unused t

abbrev pub use_token : ℕ → RefreshToken → RefreshToken
use_token now t = record (revoke_token now "rotated" t) { used_at = some now }

abbrev pub has_no_staff : SessionRow → Bool
has_no_staff row = not (is_some row.staff_membership_id) && not (is_some row.washer_id)

-- The transaction: of the requests that read the token unused, the one whose update counts 1 goes on.
unfoldable pub rotate_writes :
    (ℕ → ℕ) → Shown → Settings → Draw → Accounts → Outcome Accounts Granted
rotate_writes hash shown settings d = do
  s ← get
  require (any (is_unused_at shown.token.id) s.tokens) 409 "CONCURRENT_REFRESH"
  modify (set_tokens (is_unused_at shown.token.id) (use_token d.now))
  modify (
      add_token (
        new_token hash shown.token.session_id shown.token.family_id (some shown.token.id) settings
          d))
  modify
      (set_tokens (has_token shown.token.id) (λ t. record t { replaced_by_id = some d.token_id }))
  let customer = is_customer_app (app_type_of shown.device) || has_no_staff shown.session
  pure (record {
    session = shown.session;
    claims =
        claims_for customer shown.session (application_of shown.device) (app_type_of shown.device);
    refresh_token = some d.raw_token;
  })

-- What is done with a token that was used `used_at` before: a second use inside the window is taken
-- for a concurrent request, a later one for a theft.
unfoldable pub reuse_token :
    Shown → ℕ → Settings → Draw → Accounts → Outcome Accounts (Option Granted)
reuse_token shown used_at settings d =
    if leb (d.now - used_at) (settings.concurrency_window_seconds * 1000)
    then (do
      modify (log_session shown.token.id "concurrent_refresh")
      throw 409 "CONCURRENT_REFRESH")
    else (do
      revoke_session shown.token.session_id "security_reuse" settings d
      revoke_session_family shown.token.family_id "security_reuse" d.now
      modify (log_session shown.token.session_id "refresh_token_reuse")
      throw 403 "SECURITY_ALERT")

-- A token that is revoked and was never used ends without an answer.
unfoldable pub reuse_if_used :
    Shown → Option ℕ → Settings → Draw → Accounts → Outcome Accounts (Option Granted)
reuse_if_used shown none settings d = pure none
reuse_if_used shown (some at) settings d = reuse_token shown at settings d

-- The part behind the first query. The row of the token stays in the table: its second query finds it.
unfoldable pub rotate_shown :
    (ℕ → ℕ) → Shown → Settings → Draw → Accounts → Outcome Accounts (Option Granted)
rotate_shown hash shown settings d =
    if is_unused shown.token
    then (do granted ← transaction (rotate_writes hash shown settings d); pure (some granted))
    else (do
      s ← get
      fresh ← found_or (find_token shown.token.id s) 500 "token_not_found"
      reuse_if_used shown fresh.used_at settings d)

-- `rotateRefreshToken`
unfoldable pub rotate_refresh_token :
    (ℕ → ℕ) → ℕ → Settings → Draw → Accounts → Outcome Accounts (Option Granted)
rotate_refresh_token hash raw settings d = do
  shown ← read_token hash raw d.now
  rotate_shown hash shown settings d
