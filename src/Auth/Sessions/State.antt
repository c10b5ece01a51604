-- ===== src/Auth/Sessions/State.antt =====
-- getSessionState of src/modules/auth/services/session.service.js.
use maghsul_backend.Base.{
  ℕ, Bool, not, ◌&&◌, Option, none, some, ◌==◌, ltb, if◌then◌else◌, find, Outcome, ◌>>=◌, ◌>>◌,
  require, get, modify, pure,
}
use maghsul_backend.Auth.Sessions.Tables.{
  SessionRow, Accounts, Settings, Draw, SessionState, active, revoked, CacheLine, find_session,
  cache_session_state, drop_line,
}

-- A line that has not run out.
abbrev pub is_kept : ℕ → ℕ → CacheLine → Bool
is_kept i now c = c.session_id == i && ltb now c.expires_at

-- `redis.get`
abbrev pub cached_state : ℕ → Draw → Accounts → Option SessionState
cached_state i d s =
    if d.get_fails
    then none
    else (elim (find (is_kept i d.now) s.cache) [ none ↦ none | some c ↦ some c.state ])

abbrev pub state_of : SessionRow → SessionState
state_of row = if row.is_revoked then revoked else active

-- What is told to Redis. For a session that is missing, the key that the source names is not defined
-- there: the error is swallowed, and nothing is told.
unfoldable pub told_state :
    ℕ → Option SessionRow → Settings → Draw → Accounts → Outcome Accounts SessionState
told_state i none settings d = pure revoked
told_state i (some row) settings d = do
  modify (cache_session_state i (state_of row) settings d)
  pure (state_of row)

-- The query of the database.
unfoldable pub session_state : ℕ → Bool → Settings → Draw → Accounts → Outcome Accounts SessionState
session_state i db_fails settings d = do
  require (not db_fails) 503 "SERVICE_UNAVAILABLE"
  s ← get
  told_state i (find_session i s) settings d

unfoldable pub known_or_session_state :
    ℕ → Option SessionState → Bool → Settings → Draw → Accounts → Outcome Accounts SessionState
known_or_session_state i none db_fails settings d = session_state i db_fails settings d
known_or_session_state i (some state) db_fails settings d = pure state

-- `getSessionState`. Only the two states are ever written to Redis, so that behind the first branch
-- nothing was read there, and a failure of the database ends in the error.
unfoldable pub get_session_state :
    ℕ → Bool → Settings → Draw → Accounts → Outcome Accounts SessionState
get_session_state i db_fails settings d = do
  s ← get
  known_or_session_state i (cached_state i d s) db_fails settings d

-- `invalidateSessionCache`
unfoldable pub invalidate_session_cache : ℕ → Draw → Accounts → Accounts
invalidate_session_cache i d s = if d.del_fails then s else drop_line i s
