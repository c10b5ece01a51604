-- ===== src/Auth/Guard.antt =====
-- src/middlewares/contextGuard.js: the checks of a session. The claims of a verified token, and
-- the answer of the session service on the state of a session, are arguments; a missing header is no
-- claims. A claim that is missing is `none`, as null is.
pub mod Laws
use maghsul_backend.Base.{
  ℕ, Bool, true, false, not, ◌&&◌, ◌||◌, Option, none, some, List, ◌==◌, ltb, is_some,
  if◌then◌else◌, opt_eq, any, find, Result, ok, err, api_error,
}
use maghsul_backend.Orders.StateMachine.{Role}
use maghsul_backend.Store.{CustomerMembership, MembershipStatus, is_active}

pub data SessionType : Type 0 where
  provisional operational customer_session : SessionType

abbrev pub is_provisional : SessionType → Bool
is_provisional provisional = true
is_provisional operational = false
is_provisional customer_session = false

abbrev pub is_operational : SessionType → Bool
is_operational operational = true
is_operational provisional = false
is_operational customer_session = false

abbrev pub same_type : SessionType → SessionType → Bool
same_type provisional provisional = true
same_type operational operational = true
same_type customer_session customer_session = true
same_type _ _ = false

pub record Claims : Type 0 where
  pub session_id : ℕ
  pub identity_id : ℕ
  pub session_type : SessionType
  pub purpose : Option ℕ
  pub washer_id : Option ℕ
  pub branch_id : Option ℕ
  pub staff_membership_id : Option ℕ
  pub customer_membership_id : Option ℕ

pub record Session : Type 0 where
  pub id : ℕ
  pub identity_id : ℕ
  pub session_type : SessionType
  pub purpose : Option ℕ
  pub washer_id : Option ℕ
  pub branch_id : Option ℕ
  pub staff_membership_id : Option ℕ
  pub customer_membership_id : Option ℕ
  pub user_device_id : Option ℕ
  pub is_revoked : Bool
  pub expires_at : ℕ

pub record AuthContext : Type 0 where
  pub identity_id : ℕ
  pub session_id : ℕ
  pub session_type : SessionType
  pub purpose : Option ℕ
  pub washer_id : Option ℕ
  pub branch_id : Option ℕ
  pub staff_membership_id : Option ℕ
  pub customer_membership_id : Option ℕ
  pub user_device_id : Option ℕ

abbrev pub context_of : Session → AuthContext
context_of session = record {
  identity_id = session.identity_id;
  session_id = session.id;
  session_type = session.session_type;
  purpose = session.purpose;
  washer_id = session.washer_id;
  branch_id = session.branch_id;
  staff_membership_id = session.staff_membership_id;
  customer_membership_id = session.customer_membership_id;
  user_device_id = session.user_device_id;
}

abbrev pub has_session_id : ℕ → Session → Bool
has_session_id i session = session.id == i

-- The seven comparisons of the claims with the session.
unfoldable pub match_session : Claims → Session → Result AuthContext
match_session claims session =
    if not (claims.identity_id == session.identity_id)
    then err (api_error 401 "TOKEN_SESSION_MISMATCH")
    else if not (same_type claims.session_type session.session_type)
    then err (api_error 401 "TOKEN_SESSION_MISMATCH")
    else if not (opt_eq claims.purpose session.purpose)
    then err (api_error 401 "TOKEN_SESSION_MISMATCH")
    else if not (opt_eq claims.washer_id session.washer_id)
    then err (api_error 401 "TOKEN_SESSION_MISMATCH")
    else if not (opt_eq claims.branch_id session.branch_id)
    then err (api_error 401 "TOKEN_SESSION_MISMATCH")
    else if not (opt_eq claims.staff_membership_id session.staff_membership_id)
    then err (api_error 401 "TOKEN_SESSION_MISMATCH")
    else if not (opt_eq claims.customer_membership_id session.customer_membership_id)
    then err (api_error 401 "TOKEN_SESSION_MISMATCH")
    else ok (context_of session)

-- What is checked of the session that is found, with what `getSessionState` answers of it.
unfoldable pub admit_session : Claims → Result Bool → ℕ → Session → Result AuthContext
admit_session claims (err e) now session = err e
admit_session claims (ok revoked) now session =
    if revoked || session.is_revoked
    then err (api_error 401 "SESSION_REVOKED")
    else if ltb session.expires_at now
    then err (api_error 401 "SESSION_EXPIRED")
    else match_session claims session

-- `contextGuard`. `state` is `getSessionState`: whether a session is revoked, or the error.
unfoldable pub context_guard :
    Option Claims → (ℕ → Result Bool) → ℕ → List Session → Result AuthContext
context_guard none state now sessions = err (api_error 401 "TOKEN_MISSING")
context_guard (some claims) state now sessions =
    elim (find (has_session_id claims.session_id) sessions) [
      | none ↦ err (api_error 401 "SESSION_NOT_FOUND")
      | some session ↦ admit_session claims (state session.id) now session
    ]

-- `requireProvisionalSession`
unfoldable pub require_provisional_session : AuthContext → Result AuthContext
require_provisional_session ctx =
    if not (is_provisional ctx.session_type)
    then err (api_error 403 "PROVISIONAL_SESSION_REQUIRED")
    else ok ctx

-- `requireOperationalSession`
unfoldable pub require_operational_session : AuthContext → Result AuthContext
require_operational_session ctx =
    if not (is_operational ctx.session_type)
    then err (api_error 403 "OPERATIONAL_SESSION_REQUIRED")
    else if is_some ctx.customer_membership_id && is_some ctx.staff_membership_id
    then err (api_error 403 "INVALID_SESSION_STATE")
    else if not (is_some ctx.customer_membership_id) && not (is_some ctx.staff_membership_id)
    then err (api_error 403 "INVALID_SESSION_STATE")
    else if not (is_some ctx.washer_id)
    then err (api_error 403 "INVALID_SESSION_STATE")
    else ok ctx

abbrev pub has_customer_id : ℕ → CustomerMembership → Bool
has_customer_id i m = m.id == i

-- `requireCustomerSession`
unfoldable pub require_customer_session : AuthContext → List CustomerMembership → Result AuthContext
require_customer_session ctx members = elim ctx.customer_membership_id [
  | none ↦ err (api_error 403 "CUSTOMER_SESSION_REQUIRED")
  | some i ↦
      if is_some ctx.staff_membership_id
      then err (api_error 403 "INVALID_SESSION_STATE")
      else (elim (find (has_customer_id i) members) [
        | none ↦ err (api_error 403 "MEMBERSHIP_NOT_FOUND")
        | some m ↦
            if not (is_active m.status)
            then err (api_error 403 "MEMBERSHIP_INACTIVE")
            else if not (m.identity_id == ctx.identity_id)
            then err (api_error 403 "MEMBERSHIP_IDENTITY_MISMATCH")
            else if not (opt_eq (some m.washer_id) ctx.washer_id)
            then err (api_error 403 "MEMBERSHIP_WASHER_MISMATCH")
            else ok ctx
      ])
]

-- A member of the staff with the flag of access to all branches; the accesses to single branches;
-- the branches.
pub record StaffMember : Type 0 where
  pub id : ℕ
  pub identity_id : ℕ
  pub washer_id : ℕ
  pub role : Role
  pub status : MembershipStatus
  pub has_full_washer_access : Bool

pub record BranchAccess : Type 0 where
  pub id : ℕ
  pub staff_membership_id : ℕ
  pub branch_id : ℕ

pub record Branch : Type 0 where
  pub id : ℕ
  pub washer_id : ℕ

pub record StaffTables : Type 0 where
  pub members : List StaffMember
  pub accesses : List BranchAccess
  pub branches : List Branch

abbrev pub has_staff_id : ℕ → StaffMember → Bool
has_staff_id i m = m.id == i

abbrev pub has_branch_id : ℕ → Branch → Bool
has_branch_id i b = b.id == i

abbrev pub gives_access : ℕ → ℕ → BranchAccess → Bool
gives_access i branch a = a.staff_membership_id == i && a.branch_id == branch

abbrev pub is_branch_of : Option ℕ → Option Branch → Bool
is_branch_of washer none = false
is_branch_of washer (some b) = opt_eq (some b.washer_id) washer

unfoldable pub admit_staff : AuthContext → ℕ → ℕ → StaffTables → Result Role
admit_staff ctx i branch tables = elim (find (has_staff_id i) tables.members) [
  | none ↦ err (api_error 403 "MEMBERSHIP_NOT_FOUND")
  | some m ↦
      if not (is_active m.status)
      then err (api_error 403 "MEMBERSHIP_INACTIVE")
      else if not (m.identity_id == ctx.identity_id)
      then err (api_error 403 "MEMBERSHIP_IDENTITY_MISMATCH")
      else if not (opt_eq (some m.washer_id) ctx.washer_id)
      then err (api_error 403 "MEMBERSHIP_WASHER_MISMATCH")
      else if not (is_branch_of ctx.washer_id (find (has_branch_id branch) tables.branches))
      then err (api_error 403 "BRANCH_WASHER_MISMATCH")
      else if not (m.has_full_washer_access || any (gives_access i branch) tables.accesses)
      then err (api_error 403 "BRANCH_ACCESS_DENIED")
      else ok m.role
]

-- `requireStaffSession`: the role that it adds to the context.
unfoldable pub require_staff_session : AuthContext → StaffTables → Result Role
require_staff_session ctx tables = elim ctx.staff_membership_id [
  | none ↦ err (api_error 403 "STAFF_SESSION_REQUIRED")
  | some i ↦
      if is_some ctx.customer_membership_id
      then err (api_error 403 "INVALID_SESSION_STATE")
      else (elim ctx.branch_id [
        | none ↦ err (api_error 403 "BRANCH_CONTEXT_REQUIRED")
        | some branch ↦ admit_staff ctx i branch tables
      ])
]
