-- ===== src/Auth/Invitations/Accept.antt =====
-- acceptInvitation of src/modules/auth/services/staff-invitation.service.js.
use maghsul_backend.Base.{
  ℕ, ◌+◌, ◌*◌, Bool, true, false, not, ◌&&◌, Option, none, some, List, [], ◌∷◌, ◌++◌, ◌==◌, ltb,
  if◌then◌else◌, opt_eq, find, any, update_where, Outcome, transaction, found_or, ◌>>=◌, ◌>>◌,
  require, get, modify, pure,
}
use maghsul_backend.Store.{is_active, active}
use maghsul_backend.Auth.Guard.{
  AuthContext, StaffMember, gives_access, has_staff_id, is_provisional, operational,
}
use maghsul_backend.Auth.Digits.{Text}
use maghsul_backend.Auth.Phone.{normalize_phone}
use maghsul_backend.Auth.Sessions.Tables.{RefreshToken}
use maghsul_backend.Auth.Sessions.Create.{day}
use maghsul_backend.Auth.Invitations.Tables.{
  Invitation, accepted, is_pending, Laundry, StaffSession, Desk, InviteDraw, accepted_event,
  membership_activated, same_phone, announce, publish,
}

-- The purposes of a session that this service names.
abbrev pub staff_invitation_accept : ℕ
staff_invitation_accept = 1

abbrev pub staff_context_selection : ℕ
staff_context_selection = 2

-- `where: { tokenHash, phone, status: 'pending' }`
abbrev pub is_invited : ℕ → Text → Invitation → Bool
is_invited h phone inv = inv.token_hash == h && same_phone phone inv && is_pending inv.status

abbrev pub has_laundry : ℕ → Laundry → Bool
has_laundry i l = l.id == i

abbrev pub is_member_of : ℕ → ℕ → StaffMember → Bool
is_member_of identity washer m = m.identity_id == identity && m.washer_id == washer

-- The invitation of the identity, with what must hold of it.
unfoldable pub find_invited : (ℕ → ℕ) → AuthContext → Option ℕ → ℕ → Desk → Outcome Desk Invitation
find_invited hash ctx token now = do
  require (is_provisional ctx.session_type && opt_eq ctx.purpose (some staff_invitation_accept)) 403
      "INVALID_SESSION_PURPOSE"
  raw ← found_or token 400 "MISSING_TOKEN"
  s ← get
  identity ← found_or (find (λ x. x.id == ctx.identity_id) s.identities) 404 "IDENTITY_NOT_FOUND"
  phone ← found_or (normalize_phone identity.phone) 500 "phone_is_null"
  inv ← found_or (find (is_invited (hash raw) phone) s.invitations) 400 "INVALID_INVITATION"
  require (not (ltb inv.expires_at now)) 400 "INVITATION_EXPIRED"
  laundry ← found_or (find (has_laundry inv.washer_id) s.laundries) 500 "washer_is_null"
  require laundry.is_active 400 "WASHER_INACTIVE"
  pure inv

-- `updateMany({ where: { id, status: 'pending' } })`
abbrev pub is_pending_at : ℕ → Invitation → Bool
is_pending_at i inv = inv.id == i && is_pending inv.status

unfoldable pub take_invitation : ℕ → ℕ → Desk → Outcome Desk (Unit {0})
take_invitation i now = do
  s ← get
  require (any (is_pending_at i) s.invitations) 409 "CONCURRENT_ACCEPTANCE"
  modify (λ s. record s {
    invitations =
        update_where (is_pending_at i)
          (λ inv. record inv { status = accepted; accepted_at = some now }) s.invitations;
  })

abbrev pub new_member : ℕ → Invitation → InviteDraw → StaffMember
new_member identity inv d = record {
  id = d.member_id;
  identity_id = identity;
  washer_id = inv.washer_id;
  role = inv.proposed_role;
  status = active;
  has_full_washer_access = false;
}

abbrev pub add_member : StaffMember → Desk → Desk
add_member m s = record s { members = s.members ++ m ∷ [] }

abbrev pub activate : Invitation → StaffMember → StaffMember
activate inv m = record m { status = active; role = inv.proposed_role }

abbrev pub activate_member : Invitation → StaffMember → Desk → Desk
activate_member inv m s = record s {
  members = update_where (has_staff_id m.id) (activate inv) s.members;
}

-- The membership with the laundry: it is made, or made active again; an active one is refused.
unfoldable pub take_member :
    ℕ → Invitation → InviteDraw → Option StaffMember → Desk → Outcome Desk StaffMember
take_member identity inv d none = do
  modify (add_member (new_member identity inv d))
  pure (new_member identity inv d)
take_member identity inv d (some m) = do
  require (not (is_active m.status)) 400 "MEMBERSHIP_ALREADY_ACTIVE"
  modify (activate_member inv m)
  pure (activate inv m)

abbrev pub grant_branch : ℕ → ℕ → InviteDraw → Desk → Desk
grant_branch member b d s = if any (gives_access member b) s.accesses then s else record s {
  accesses =
      s.accesses ++ record { id = d.access_id b; staff_membership_id = member; branch_id = b } ∷ [];
}

-- The loop over the branches: an access for each where none is.
unfoldable pub grant_branches : ℕ → List ℕ → InviteDraw → Desk → Desk
grant_branches member [] d s = s
grant_branches member (b ∷ bs) d s = grant_branches member bs d (grant_branch member b d s)

-- A single branch is entered at once; otherwise the session is for choosing one.
abbrev pub session_branch : List ℕ → Option ℕ
session_branch (b ∷ []) = some b
session_branch _ = none

abbrev pub session_purpose : List ℕ → Option ℕ
session_purpose (b ∷ []) = none
session_purpose _ = some staff_context_selection

abbrev pub staff_session : ℕ → Invitation → StaffMember → InviteDraw → StaffSession
staff_session identity inv m d = record {
  id = d.session_id;
  identity_id = identity;
  session_type = operational;
  purpose = session_purpose inv.proposed_branch_ids;
  washer_id = some inv.washer_id;
  branch_id = session_branch inv.proposed_branch_ids;
  staff_membership_id = some m.id;
  is_revoked = false;
  replaced_by_session_id = none;
  expires_at = d.now + 30 * day;
}

abbrev pub staff_token : (ℕ → ℕ) → InviteDraw → RefreshToken
staff_token hash d = record {
  id = d.token_id;
  session_id = d.session_id;
  token_hash = hash d.raw_token;
  family_id = d.family_id;
  parent_token_id = none;
  replaced_by_id = none;
  is_revoked = false;
  revoked_at = none;
  revoked_reason = none;
  used_at = none;
  expires_at = d.now + 7 * day;
}

-- The new session with its token.
abbrev pub add_staff_session : (ℕ → ℕ) → StaffSession → InviteDraw → Desk → Desk
add_staff_session hash row d s = record s {
  sessions = s.sessions ++ row ∷ [];
  tokens = s.tokens ++ staff_token hash d ∷ [];
}

-- The old session is replaced, and the version of the permissions counts up.
abbrev pub close_staff_session : AuthContext → StaffSession → Invitation → Desk → Desk
close_staff_session ctx row inv s = record s {
  sessions =
      update_where (λ x. x.id == ctx.session_id)
        (λ x. record x { is_revoked = true; replaced_by_session_id = some row.id }) s.sessions;
  laundries =
      update_where (has_laundry inv.washer_id)
        (λ l. record l { permissions_version = l.permissions_version + 1 }) s.laundries;
}

-- The new session in place of the old one; the update of a missing session throws.
unfoldable pub open_staff_session :
    (ℕ → ℕ) → AuthContext → StaffSession → Invitation → InviteDraw → Desk → Outcome Desk (Unit {0})
open_staff_session hash ctx row inv d = do
  modify (add_staff_session hash row d)
  s ← get
  require (any (λ x. x.id == ctx.session_id) s.sessions) 500 "record_not_found"
  modify (close_staff_session ctx row inv)

abbrev pub log_joined : ℕ → Desk → Desk
log_joined i s = record s { audits = s.audits ++ i ∷ [] }

-- What the acceptance answers.
pub record Joined : Type 0 where
  pub session : StaffSession
  pub membership : StaffMember
  pub refresh_token : ℕ

-- The writes behind the change of the invitation.
unfoldable pub join_writes :
    (ℕ → ℕ) → AuthContext → Invitation → InviteDraw → Desk → Outcome Desk Joined
join_writes hash ctx inv d = do
  s ← get
  m ←
      take_member ctx.identity_id inv d
        (find (is_member_of ctx.identity_id inv.washer_id) s.members)
  modify (grant_branches m.id inv.proposed_branch_ids d)
  let row = staff_session ctx.identity_id inv m d
  open_staff_session hash ctx row inv d
  modify (log_joined m.id)
  announce (accepted_event inv.id)
  modify (publish (accepted_event inv.id))
  modify (publish (membership_activated m.id))
  pure (record { session = row; membership = m; refresh_token = d.raw_token })

-- The transaction.
unfoldable pub accept_writes :
    (ℕ → ℕ) → AuthContext → Invitation → InviteDraw → Desk → Outcome Desk Joined
accept_writes hash ctx inv d = do take_invitation inv.id d.now; join_writes hash ctx inv d

-- `acceptInvitation`. The deletion of the code's key in Redis, which nothing reads, is left out.
unfoldable pub accept_invitation :
    (ℕ → ℕ) → AuthContext → Option ℕ → InviteDraw → Desk → Outcome Desk Joined
accept_invitation hash ctx token d = do
  inv ← find_invited hash ctx token d.now
  transaction (accept_writes hash ctx inv d)
