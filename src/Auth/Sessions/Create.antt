-- ===== src/Auth/Sessions/Create.antt =====
-- createProvisionalSession, createOperationalSession and createReplacementSession of
-- src/modules/auth/services/session.service.js.
use text.Mathlib.Text.{◌==◌ as str_eq}
use maghsul_backend.Base.{
  ℕ, ◌+◌, ◌*◌, Bool, false, not, ◌&&◌, ◌||◌, Option, none, some, String, ◌==◌, is_some, or_else,
  if◌then◌else◌, Outcome, transaction, found_or, ◌>>=◌, ◌>>◌, require, get, modify, pure,
}
use maghsul_backend.Auth.Guard.{SessionType, provisional, operational, customer_session}
use maghsul_backend.Auth.Sessions.Tables.{
  SessionRow, RefreshToken, Accounts, Settings, Draw, Context, revoked, is_customer_app, unless,
  has_session, is_live_in, find_session, device_of, app_type_of, application_of, add_session,
  add_token, set_sessions, set_tokens, log_session, disconnect, revoke_row, revoke_token,
  cache_session_state,
}

-- The payload that is signed; for customers only the session, the identity and the type are there.
pub record AccessClaims : Type 0 where
  pub session_id : ℕ
  pub identity_id : ℕ
  pub session_type : SessionType
  pub washer_id : Option ℕ
  pub branch_id : Option ℕ
  pub staff_membership_id : Option ℕ
  pub customer_membership_id : Option ℕ
  pub application_id : Option ℕ
  pub app_type : Option String

-- `isCustomer ? { … } : { … }`
abbrev pub claims_for : Bool → SessionRow → Option ℕ → Option String → AccessClaims
claims_for customer row application app = record {
  session_id = row.id;
  identity_id = row.identity_id;
  session_type = row.session_type;
  washer_id = unless customer row.washer_id;
  branch_id = unless customer row.branch_id;
  staff_membership_id = unless customer row.staff_membership_id;
  customer_membership_id = unless customer row.customer_membership_id;
  application_id = unless customer application;
  app_type = if customer then some "customer" else app;
}

-- What a creation or a rotation answers.
pub record Granted : Type 0 where
  pub session : SessionRow
  pub claims : AccessClaims
  pub refresh_token : Option ℕ

abbrev pub minute : ℕ
minute = 60 * 1000

abbrev pub day : ℕ
day = 24 * (60 * (60 * 1000))

abbrev pub provisional_row : ℕ → Context → Option ℕ → Settings → Draw → SessionRow
provisional_row identity context device settings d = record {
  id = d.session_id;
  identity_id = identity;
  user_device_id = device;
  session_type = provisional;
  purpose = none;
  washer_id = unless (is_customer_app context.app_type) context.washer_id;
  branch_id = none;
  staff_membership_id = none;
  customer_membership_id = none;
  is_revoked = false;
  revoked_at = none;
  revoked_reason = none;
  replaced_by_session_id = none;
  expires_at = d.now + settings.provisional_ttl_min * minute;
}

-- `createProvisionalSession`. The payload of a provisional session has no branch and no membership,
-- which are null in the row too.
unfoldable pub create_provisional_session :
    ℕ → Context → Option ℕ → Settings → Draw → Accounts → Outcome Accounts Granted
create_provisional_session identity context device settings d = do
  let row = provisional_row identity context device settings d
  modify (add_session row)
  pure (record {
    session = row;
    claims =
        claims_for (is_customer_app context.app_type) row context.application_id context.app_type;
    refresh_token = none;
  })

-- The row of an operational session; a customer's has no laundry and no membership.
abbrev pub operational_row : ℕ → Bool → Context → Option ℕ → Settings → Draw → SessionRow
operational_row identity customer context device settings d = record {
  id = d.session_id;
  identity_id = identity;
  user_device_id = device;
  session_type = operational;
  purpose = none;
  washer_id = unless customer context.washer_id;
  branch_id = unless customer context.branch_id;
  staff_membership_id = unless customer context.staff_membership_id;
  customer_membership_id = unless customer context.customer_membership_id;
  is_revoked = false;
  revoked_at = none;
  revoked_reason = none;
  replaced_by_session_id = none;
  expires_at = d.now + settings.refresh_ttl_days * day;
}

-- A new refresh token. The raw token leaves the server, its hash stays.
abbrev pub new_token : (ℕ → ℕ) → ℕ → ℕ → Option ℕ → Settings → Draw → RefreshToken
new_token hash session family parent settings d = record {
  id = d.token_id;
  session_id = session;
  token_hash = hash d.raw_token;
  family_id = family;
  parent_token_id = parent;
  replaced_by_id = none;
  is_revoked = false;
  revoked_at = none;
  revoked_reason = none;
  used_at = none;
  expires_at = d.now + settings.refresh_ttl_days * day;
}

-- `createOperationalSession`
unfoldable pub create_operational_session :
    (ℕ → ℕ) → ℕ → Context → Option ℕ → Settings → Draw → Accounts → Outcome Accounts Granted
create_operational_session hash identity context device settings d = transaction (do
  let customer = is_customer_app context.app_type
  let row = operational_row identity customer context device settings d
  modify (add_session row)
  modify (add_token (new_token hash row.id d.family_id none settings d))
  pure (record {
    session = row;
    claims = claims_for customer row context.application_id context.app_type;
    refresh_token = some d.raw_token;
  }))

abbrev pub is_security_reuse : Option String → Bool
is_security_reuse none = false
is_security_reuse (some x) = str_eq x "security_reuse"

-- `a && b && a !== b`
abbrev pub both_differ : Option ℕ → Option ℕ → Bool
both_differ (some a) (some b) = not (a == b)
both_differ _ _ = false

-- What must hold of the session that is replaced, and the error otherwise.
unfoldable pub check_replaceable :
    SessionRow → Context → Option ℕ → Accounts → Outcome Accounts (Unit {0})
check_replaceable old context device = do
  require (not (old.is_revoked && is_security_reuse old.revoked_reason)) 403 "SECURITY_ALERT"
  require (not (is_some old.replaced_by_session_id)) 403 "INVALID_TOKEN"
  require (not (both_differ (some old.identity_id) context.identity_id)) 403 "INVALID_TOKEN"
  require (not (both_differ device old.user_device_id)) 403 "INVALID_TOKEN"

abbrev pub action_reason : SessionType → String
action_reason provisional = "upgraded_to_operational"
action_reason operational = "context_switched"
action_reason customer_session = "context_switched"

abbrev pub replace_row : SessionRow → ℕ → ℕ → SessionRow → SessionRow
replace_row old by now row = record (revoke_row now (action_reason old.session_type) row) {
  replaced_by_session_id = some by;
}

-- The writes of a replacement: the old session is revoked with its tokens, the new one has a token.
unfoldable pub replace_writes :
    (ℕ → ℕ) → SessionRow → SessionRow → Settings → Draw → Accounts → Outcome Accounts (Unit {0})
replace_writes hash old row settings d = do
  modify (add_session row)
  modify (set_sessions (has_session old.id) (replace_row old row.id d.now))
  modify (set_tokens (is_live_in old.id) (revoke_token d.now "session_replaced"))
  modify (log_session old.id (action_reason old.session_type))
  modify (disconnect old.id)
  modify (add_token (new_token hash row.id d.family_id none settings d))

-- `transactionLogic`
unfoldable pub replace_session :
    (ℕ → ℕ) → ℕ → Context → Option ℕ → Settings → Draw → Accounts → Outcome Accounts Granted
replace_session hash old_id context device settings d = do
  s ← get
  old ← found_or (find_session old_id s) 404 "Session not found"
  check_replaceable old context device
  let old_device = device_of old s
  let customer = is_customer_app (app_type_of old_device) || is_customer_app context.app_type
  let row =
      operational_row old.identity_id customer context (or_else device old.user_device_id) settings
        d
  replace_writes hash old row settings d
  pure (record {
    session = row;
    claims = claims_for customer row (application_of old_device) (app_type_of old_device);
    refresh_token = some d.raw_token;
  })

-- `createReplacementSession`. Inside a transaction of the caller (`external`) Redis is not told.
unfoldable pub create_replacement_session :
    (ℕ → ℕ) → Bool → ℕ → Context → Option ℕ → Settings → Draw → Accounts → Outcome Accounts Granted
create_replacement_session hash external old_id context device settings d =
    if external then replace_session hash old_id context device settings d else (do
      result ← transaction (replace_session hash old_id context device settings d)
      modify (cache_session_state old_id revoked settings d)
      pure result)
