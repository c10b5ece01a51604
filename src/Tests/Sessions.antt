-- ===== src/Tests/Sessions.antt =====
-- A session, its rotation, its theft and its revocation, and the theorems on sessions at them.
use maghsul_backend.Base.{
  ℕ, ◌+◌, ◌≡◌, ◌≢◌, ◌⊎◌, refl, inr, true, false, Option, some, none, List, [], ◌∷◌, err, Outcome,
  done, thrown, api_error, final_state, arith,
}
use maghsul_backend.Auth.Guard.{operational, context_of, require_operational_session}
use maghsul_backend.Auth.Sessions.Tables.{
  SessionRow, RefreshToken, Accounts, Settings, Draw, Context, SessionState, active, revoked,
  cache_session_state,
}
use maghsul_backend.Auth.Sessions.Create.{Granted, create_operational_session}
use maghsul_backend.Auth.Sessions.Revoke.{revoke_session, revoke_writes, revoke_session_family}
use maghsul_backend.Auth.Sessions.Rotate.{
  Shown, read_token, rotate_writes, rotate_shown, rotate_refresh_token, reuse_token, reuse_if_used,
}
use maghsul_backend.Auth.Sessions.State.{
  get_session_state, known_or_session_state, session_state, told_state,
}
use maghsul_backend.Auth.Sessions.Steps.{Step, rotate, open_operational, take_step, take_steps}
use maghsul_backend.Auth.Sessions.Once.{AreFresh, rotated_once}
use maghsul_backend.Auth.Sessions.Revoked.{revoked_for_good}
use maghsul_backend.Auth.Sessions.Theft.{Stolen, Alerted, rotate_alert}
use maghsul_backend.Auth.Sessions.Claims.{guard_session}
use maghsul_backend.Auth.Sessions.Answers.{customer-refused}
use maghsul_backend.Auth.Sessions.Known.{revoked-known}

-- A hash that tells the raw tokens apart.
abbrev pub shift_hash : ℕ → ℕ
shift_hash n = n + 1000

abbrev pub settings_one : Settings
settings_one = record {
  access_ttl_min = 15;
  provisional_ttl_min = 30;
  refresh_ttl_days = 7;
  concurrency_window_seconds = 10;
  session_cache_ttl_seconds = 900;
}

-- What is drawn at a time: all identifiers are made from `n`.
abbrev pub draw_at : ℕ → ℕ → Draw
draw_at now n = record {
  now = now;
  session_id = n;
  token_id = n + 1;
  raw_token = n + 2;
  family_id = n + 3;
  get_fails = false;
  set_fails = false;
  del_fails = false;
}

abbrev pub no_accounts : Accounts
no_accounts = record {
  sessions = [];
  tokens = [];
  devices = [];
  audits = [];
  disconnects = [];
  cache = [];
}

abbrev pub worker_context : Context
worker_context = record {
  identity_id = some 90;
  washer_id = some 3;
  branch_id = some 4;
  staff_membership_id = some 9;
  customer_membership_id = none;
  application_id = some 2;
  app_type = some "staff";
}

-- A worker logs in: session 10 with token 11 (raw 12).
abbrev opened : Outcome Accounts Granted
opened =
    create_operational_session shift_hash 90 worker_context none settings_one (draw_at 1000 10)
      no_accounts

abbrev granted_of : Outcome Accounts Granted → Granted → Granted
granted_of (done g s) other = g
granted_of (thrown e s) other = other

abbrev session_ten : SessionRow
session_ten = record {
  id = 10;
  identity_id = 90;
  user_device_id = none;
  session_type = operational;
  purpose = none;
  washer_id = some 3;
  branch_id = some 4;
  staff_membership_id = some 9;
  customer_membership_id = none;
  is_revoked = false;
  revoked_at = none;
  revoked_reason = none;
  replaced_by_session_id = none;
  expires_at = 604801000;
}

abbrev token_eleven : RefreshToken
token_eleven = record {
  id = 11;
  session_id = 10;
  token_hash = 1012;
  family_id = 13;
  parent_token_id = none;
  replaced_by_id = none;
  is_revoked = false;
  revoked_at = none;
  revoked_reason = none;
  used_at = none;
  expires_at = 604801000;
}

abbrev pub with_session : Accounts
with_session = record no_accounts { sessions = session_ten ∷ []; tokens = token_eleven ∷ [] }

abbrev shown_one : Shown
shown_one = record { token = token_eleven; session = session_ten; device = none }

abbrev pub granted_one : Granted
granted_one = record {
  session = session_ten;
  claims = record {
    session_id = 10;
    identity_id = 90;
    session_type = operational;
    washer_id = some 3;
    branch_id = some 4;
    staff_membership_id = some 9;
    customer_membership_id = none;
    application_id = some 2;
    app_type = some "staff";
  };
  refresh_token = some 12;
}

pub opened_runs : opened ≡ done granted_one with_session
unfolding create_operational_session
opened_runs = refl

-- Two requests read token 11 unused; one of them rotates it.
abbrev rotated : Outcome Accounts Granted
rotated = rotate_writes shift_hash shown_one settings_one (draw_at 2000 20) with_session

abbrev refreshed : Granted
refreshed = granted_of rotated granted_one

rotated_runs : rotated ≡ done refreshed (final_state rotated)
unfolding rotate_writes
rotated_runs = refl

abbrev other_steps : List (Step × Draw)
other_steps =
    (rotate 22, draw_at 3000 30) ∷ (open_operational 91 worker_context none, draw_at 3500 40) ∷ []

other_steps-AreFresh : AreFresh 11 10 other_steps
other_steps-AreFresh = ((ground arith, ground arith), ((ground arith, ground arith), tt))

rotated_once_example :
    rotate_writes shift_hash shown_one settings_one
      (draw_at 4000 50)
      (take_steps shift_hash settings_one other_steps (final_state rotated))
    ≡ thrown
        (api_error 409 "CONCURRENT_REFRESH")
        (take_steps shift_hash settings_one other_steps (final_state rotated))
rotated_once_example =
    rotated_once shift_hash shown_one shown_one settings_one (draw_at 2000 20) (draw_at 4000 50)
      with_session refreshed (final_state rotated) other_steps rotated_runs refl (ground arith)
      other_steps-AreFresh

-- Session 10 is revoked, and the worker logs in again; the new token is rotated.
abbrev closed : Outcome Accounts (Unit {0})
closed = revoke_session 10 "admin" settings_one (draw_at 2000 20) with_session

closed_runs : closed ≡ done tt (final_state closed)
unfolding revoke_session revoke_writes
closed_runs = refl

abbrev login_steps : List (Step × Draw)
login_steps = (open_operational 90 worker_context none, draw_at 3000 30) ∷ []

abbrev rotated_later : Accounts → Outcome Accounts (Option Granted)
rotated_later s =
    rotate_refresh_token shift_hash 32 settings_one (draw_at 4000 50)
      (take_steps shift_hash settings_one login_steps s)

abbrev session_thirty : SessionRow
session_thirty = record session_ten { id = 30; expires_at = 604803000 }

abbrev granted_later : Granted
granted_later = record granted_one {
  session = session_thirty;
  claims = record granted_one.claims { session_id = 30; application_id = none; app_type = none };
  refresh_token = some 52;
}

rotated_later_runs :
    rotated_later (final_state closed)
    ≡ done (some granted_later) (final_state (rotated_later (final_state closed)))
unfolding rotate_refresh_token take_steps take_step read_token rotate_shown rotate_writes
    create_operational_session revoke_session revoke_writes cache_session_state
rotated_later_runs = refl

revoked_for_good_example : granted_later.session.id ≢ 10
revoked_for_good_example =
    revoked_for_good 10 11 "admin" shift_hash 32 settings_one (draw_at 2000 20) (draw_at 4000 50)
      login_steps with_session (final_state closed) granted_later
      (final_state (rotated_later (final_state closed))) closed_runs
      ((ground arith, ground arith), tt) rotated_later_runs

-- Token 11 was used at 2000 and comes again 48 seconds later.
abbrev stolen : Accounts
stolen = record with_session { tokens = record token_eleven { used_at = some 2000 } ∷ [] }

abbrev alerted : Outcome Accounts (Option Granted)
alerted = rotate_refresh_token shift_hash 12 settings_one (draw_at 50000 20) stolen

alerted_runs : alerted ≡ thrown (api_error 403 "SECURITY_ALERT") (final_state alerted)
unfolding rotate_refresh_token read_token rotate_shown reuse_if_used reuse_token revoke_session
    revoke_writes revoke_session_family
alerted_runs = refl

rotate_alert_example :
    ((s' : Accounts) × (shown : Shown) × (rotate_refresh_token shift_hash 12 settings_one
          (draw_at 50000 20)
          stolen
        ≡ thrown (api_error 403 "SECURITY_ALERT") s')
      × Stolen shift_hash 12 settings_one (draw_at 50000 20) stolen shown
      × Alerted shown s')
    ⊎ ((¬ (
          (s' : Accounts) × (rotate_refresh_token shift_hash 12 settings_one
              (draw_at 50000 20)
              stolen
            ≡ thrown (api_error 403 "SECURITY_ALERT") s')))
        × (¬ ((shown : Shown) × Stolen shift_hash 12 settings_one (draw_at 50000 20) stolen shown)))
rotate_alert_example = rotate_alert shift_hash 12 settings_one (draw_at 50000 20) stolen

rotated_after_alert_runs :
    rotated_later (final_state alerted)
    ≡ done (some granted_later) (final_state (rotated_later (final_state alerted)))
unfolding rotate_refresh_token take_steps take_step read_token rotate_shown rotate_writes
    create_operational_session reuse_if_used reuse_token revoke_session revoke_writes
    revoke_session_family cache_session_state
rotated_after_alert_runs = refl

-- A customer logs in: nothing of the context is kept.
abbrev customer_context : Context
customer_context = record worker_context {
  staff_membership_id = none;
  customer_membership_id = some 5;
  app_type = some "customer";
}

abbrev customer_opened : Outcome Accounts Granted
customer_opened =
    create_operational_session shift_hash 50 customer_context none settings_one (draw_at 1000 10)
      no_accounts

customer_opened_runs :
    customer_opened ≡ done (granted_of customer_opened granted_one) (final_state customer_opened)
unfolding create_operational_session
customer_opened_runs = refl

customer-refused_example :
    require_operational_session
      (context_of (guard_session (granted_of customer_opened granted_one).session))
    ≡ err (api_error 403 "INVALID_SESSION_STATE")
customer-refused_example =
    customer-refused shift_hash 50 customer_context none settings_one (draw_at 1000 10) no_accounts
      (granted_of customer_opened granted_one) (final_state customer_opened) refl
      customer_opened_runs

-- Redis keeps the session as active, refuses the new state and deletes the old one.
abbrev half_broken : Draw
half_broken = record (draw_at 2000 20) { set_fails = true }

abbrev seen : Accounts
seen = record with_session {
  cache = record { session_id = 10; state = active; expires_at = 900000 } ∷ [];
}

abbrev closed_seen : Outcome Accounts (Unit {0})
closed_seen = revoke_session 10 "admin" settings_one half_broken seen

closed_seen_runs : closed_seen ≡ done tt (final_state closed_seen)
unfolding revoke_session revoke_writes
closed_seen_runs = refl

abbrev asked : Outcome Accounts SessionState
asked = get_session_state 10 false settings_one (draw_at 2500 40) (final_state closed_seen)

asked_runs : asked ≡ done revoked (final_state asked)
unfolding get_session_state known_or_session_state session_state told_state revoke_session
    revoke_writes cache_session_state
asked_runs = refl

revoked-known_example : revoked ≡ revoked
revoked-known_example =
    revoked-known 10 "admin" settings_one half_broken (draw_at 2500 40) seen
      (final_state closed_seen) false revoked (final_state asked) closed_seen_runs (inr refl)
      asked_runs
