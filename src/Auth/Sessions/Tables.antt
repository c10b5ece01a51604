-- ===== src/Auth/Sessions/Tables.antt =====
-- The tables of sessions, refresh tokens and devices, and the values that Redis keeps for sessions.
use text.Mathlib.Text.{◌==◌ as str_eq}
use maghsul_backend.Base.{
  ℕ, ◌+◌, ◌*◌, Bool, true, false, not, ◌&&◌, Option, none, some, List, [], ◌∷◌, ◌++◌, String, ◌==◌,
  if◌then◌else◌, find, any, select, update_where,
}
use maghsul_backend.Auth.Guard.{SessionType}

pub record Device : Type 0 where
  pub id : ℕ
  pub application_id : Option ℕ
  pub app_type : Option String

pub record SessionRow : Type 0 where
  pub id : ℕ
  pub identity_id : ℕ
  pub user_device_id : Option ℕ
  pub session_type : SessionType
  pub purpose : Option ℕ
  pub washer_id : Option ℕ
  pub branch_id : Option ℕ
  pub staff_membership_id : Option ℕ
  pub customer_membership_id : Option ℕ
  pub is_revoked : Bool
  pub revoked_at : Option ℕ
  pub revoked_reason : Option String
  pub replaced_by_session_id : Option ℕ
  pub expires_at : ℕ

pub record RefreshToken : Type 0 where
  pub id : ℕ
  pub session_id : ℕ
  pub token_hash : ℕ
  pub family_id : ℕ
  pub parent_token_id : Option ℕ
  pub replaced_by_id : Option ℕ
  pub is_revoked : Bool
  pub revoked_at : Option ℕ
  pub revoked_reason : Option String
  pub used_at : Option ℕ
  pub expires_at : ℕ

pub record SessionAudit : Type 0 where
  pub entity_id : ℕ
  pub action : String

-- What Redis keeps for a session.
pub data SessionState : Type 0 where
  active revoked : SessionState

pub record CacheLine : Type 0 where
  pub session_id : ℕ
  pub state : SessionState
  pub expires_at : ℕ

-- `disconnects` holds the sessions that an event "socket.session.disconnect" was written for: the key
-- of such an event is made from the session alone, and so are the fields that a duplicate must match.
pub record Accounts : Type 0 where
  pub sessions : List SessionRow
  pub tokens : List RefreshToken
  pub devices : List Device
  pub audits : List SessionAudit
  pub disconnects : List ℕ
  pub cache : List CacheLine

-- Time in milliseconds; the settings are those of the environment, in the source's units.
pub record Settings : Type 0 where
  pub access_ttl_min : ℕ
  pub provisional_ttl_min : ℕ
  pub refresh_ttl_days : ℕ
  pub concurrency_window_seconds : ℕ
  pub session_cache_ttl_seconds : ℕ

-- The time, the identifiers of new rows, the raw token and the family that are drawn, and which
-- commands of Redis fail.
pub record Draw : Type 0 where
  pub now : ℕ
  pub session_id : ℕ
  pub token_id : ℕ
  pub raw_token : ℕ
  pub family_id : ℕ
  pub get_fails : Bool
  pub set_fails : Bool
  pub del_fails : Bool

-- What a caller knows about a session: `context`, each entry of which may be missing.
pub record Context : Type 0 where
  pub identity_id : Option ℕ
  pub washer_id : Option ℕ
  pub branch_id : Option ℕ
  pub staff_membership_id : Option ℕ
  pub customer_membership_id : Option ℕ
  pub application_id : Option ℕ
  pub app_type : Option String

abbrev pub is_customer_app : Option String → Bool
is_customer_app none = false
is_customer_app (some x) = str_eq x "customer"

-- A column that is null for customers.
abbrev pub unless : {A : Type 0} → Bool → Option A → Option A
unless b x = if b then none else x

abbrev pub has_session : ℕ → SessionRow → Bool
has_session i row = row.id == i

abbrev pub has_token : ℕ → RefreshToken → Bool
has_token i t = t.id == i

abbrev pub has_hash : ℕ → RefreshToken → Bool
has_hash h t = t.token_hash == h

-- `where: { sessionId, isRevoked: false }`
abbrev pub is_live_in : ℕ → RefreshToken → Bool
is_live_in i t = t.session_id == i && not t.is_revoked

-- `where: { familyId, isRevoked: false }`
abbrev pub is_live_of_family : ℕ → RefreshToken → Bool
is_live_of_family f t = t.family_id == f && not t.is_revoked

-- `where: { id: sessionId, isRevoked: false }`
abbrev pub is_open_session : ℕ → SessionRow → Bool
is_open_session i row = row.id == i && not row.is_revoked

abbrev pub find_session : ℕ → Accounts → Option SessionRow
find_session i s = find (has_session i) s.sessions

abbrev pub find_token : ℕ → Accounts → Option RefreshToken
find_token i s = find (has_token i) s.tokens

abbrev pub device_of : SessionRow → Accounts → Option Device
device_of row s = elim row.user_device_id [ none ↦ none | some d ↦ find (λ x. x.id == d) s.devices ]

abbrev pub app_type_of : Option Device → Option String
app_type_of none = none
app_type_of (some d) = d.app_type

abbrev pub application_of : Option Device → Option ℕ
application_of none = none
application_of (some d) = d.application_id

abbrev pub add_session : SessionRow → Accounts → Accounts
add_session row s = record s { sessions = s.sessions ++ row ∷ [] }

abbrev pub add_token : RefreshToken → Accounts → Accounts
add_token t s = record s { tokens = s.tokens ++ t ∷ [] }

abbrev pub set_sessions : (SessionRow → Bool) → (SessionRow → SessionRow) → Accounts → Accounts
set_sessions p f s = record s { sessions = update_where p f s.sessions }

abbrev pub set_tokens : (RefreshToken → Bool) → (RefreshToken → RefreshToken) → Accounts → Accounts
set_tokens p f s = record s { tokens = update_where p f s.tokens }

abbrev pub log_session : ℕ → String → Accounts → Accounts
log_session i action s = record s {
  audits = s.audits ++ record { entity_id = i; action = action } ∷ [];
}

-- `safeCreateEvent` for "socket.session.disconnect": a second event of the session is a safe
-- duplicate.
abbrev pub disconnect : ℕ → Accounts → Accounts
disconnect i s = record s {
  disconnects = if any (λ x. x == i) s.disconnects then s.disconnects else s.disconnects ++ i ∷ [];
}

-- `data: { isRevoked: true, revokedAt, revokedReason }`
abbrev pub revoke_row : ℕ → String → SessionRow → SessionRow
revoke_row now reason row = record row {
  is_revoked = true;
  revoked_at = some now;
  revoked_reason = some reason;
}

abbrev pub revoke_token : ℕ → String → RefreshToken → RefreshToken
revoke_token now reason t = record t {
  is_revoked = true;
  revoked_at = some now;
  revoked_reason = some reason;
}

abbrev pub drop_line : ℕ → Accounts → Accounts
drop_line i s = record s { cache = select (λ c. not (c.session_id == i)) s.cache }

abbrev pub put_line : CacheLine → Accounts → Accounts
put_line c s = record s { cache = c ∷ select (λ x. not (x.session_id == c.session_id)) s.cache }

abbrev pub is_revoked_state : SessionState → Bool
is_revoked_state revoked = true
is_revoked_state active = false

abbrev pub cache_ttl : SessionState → Settings → ℕ
cache_ttl revoked settings = 86400 * 1000
cache_ttl active settings = settings.session_cache_ttl_seconds * 1000

-- `cacheSessionState`: a "revoked" that cannot be written deletes what stands there, if Redis lets it.
unfoldable pub cache_session_state : ℕ → SessionState → Settings → Draw → Accounts → Accounts
cache_session_state i state settings d s =
    if d.set_fails
    then (if is_revoked_state state && not d.del_fails then drop_line i s else s)
    else put_line
        (record { session_id = i; state = state; expires_at = d.now + cache_ttl state settings }) s
