-- ===== src/Auth/Invitations.antt =====
-- src/modules/auth/services/staff-invitation.service.js: the invitations of staff. Phones are texts;
-- the hash of a token, what is drawn, and whether a message can be sent are arguments.
pub mod Tables
pub mod Accept
pub mod Kept
pub mod Upheld
pub mod Life
pub mod Ends
pub mod Rows
pub mod Joins
use maghsul_backend.Base.{
  ℕ, ◌+◌, ◌*◌, Bool, true, false, not, ◌&&◌, ◌||◌, Option, none, some, List, [], ◌∷◌, ◌++◌, String,
  ◌==◌, ltb, is_some, if◌then◌else◌, opt_eq, find, any, select, includes, length, map, Outcome,
  throw, transaction, found_or, ◌>>=◌, ◌>>◌, require, get, modify, pure,
}
use maghsul_backend.Orders.StateMachine.{Role}
use maghsul_backend.Store.{is_active}
use maghsul_backend.Auth.Guard.{AuthContext, StaffMember, Branch, has_staff_id}
use maghsul_backend.Auth.Digits.{Text}
use maghsul_backend.Auth.Phone.{normalize_phone}
use maghsul_backend.Auth.Invitations.Tables.{
  Invitation, InvitationStatus, pending, accepted, expired, revoked, superseded, is_pending, Desk,
  InviteEvent, created, resent, revoked_event, InviteDraw, same_phone, is_pending_for,
  has_invitation, find_invitation, add_invitation, set_invitation, announce, publish,
  invitation_ttl,
}

-- `_validateInviter`
unfoldable pub validate_inviter : AuthContext → Desk → Outcome Desk StaffMember
validate_inviter ctx = do
  member_id ← found_or ctx.staff_membership_id 403 "INVALID_INVITER_CONTEXT"
  require (is_some ctx.washer_id) 403 "INVALID_INVITER_CONTEXT"
  s ← get
  m ← found_or (find (has_staff_id member_id) s.members) 403 "INVALID_INVITER_MEMBERSHIP"
  require
      (m.identity_id == ctx.identity_id
        && opt_eq (some m.washer_id) ctx.washer_id
        && is_active m.status)
      403 "INVALID_INVITER_MEMBERSHIP"
  pure m

-- What an inviter asks for. No list of branches is an empty one.
pub record Proposal : Type 0 where
  pub phone : Text
  pub proposed_role : Role
  pub proposed_branch_ids : List ℕ

-- Each branch named is one of the laundry.
abbrev pub are_branches_of : ℕ → List ℕ → Desk → Bool
are_branches_of washer ids s =
    length (select (λ b. includes ids b.id && b.washer_id == washer) s.branches) == length ids

abbrev pub new_invitation :
    (ℕ → ℕ) → ℕ → Text → Role → List ℕ → StaffMember → ℕ → ℕ → InviteDraw → Invitation
new_invitation hash washer phone role branches inviter sent resends d = record {
  id = d.invitation_id;
  washer_id = washer;
  phone = phone;
  proposed_role = role;
  proposed_branch_ids = branches;
  invited_by_identity_id = inviter.identity_id;
  invited_by_staff_membership_id = inviter.id;
  token_hash = hash d.raw_token;
  expires_at = d.now + invitation_ttl;
  status = pending;
  accepted_at = none;
  revoked_at = none;
  revoked_reason = none;
  send_count = sent;
  resend_count = resends;
}

-- The row, under the unique index of pending invitations of a laundry for a phone.
unfoldable pub insert_invitation : Invitation → Desk → Outcome Desk (Unit {0})
insert_invitation inv = do
  s ← get
  require (not (any (is_pending_for inv.washer_id inv.phone) s.invitations)) 409
      "DUPLICATE_INVITATION"
  modify (add_invitation inv)

-- `data: { status: 'revoked', revokedAt, revokedReason }`
abbrev pub revoke_invitation_row : ℕ → String → Invitation → Invitation
revoke_invitation_row now reason inv = record inv {
  status = revoked;
  revoked_at = some now;
  revoked_reason = some reason;
}

-- The message with the raw token; if it cannot be sent, the new invitation is taken back.
unfoldable pub send_or_revoke : Invitation → Bool → ℕ → Desk → Outcome Desk Invitation
send_or_revoke inv sms_fails now =
    if sms_fails
    then (do
      modify (set_invitation inv.id (revoke_invitation_row now "delivery_failed"))
      throw 503 "MESSAGE_PROVIDER_UNAVAILABLE")
    else pure inv

unfoldable pub create_writes : Invitation → Desk → Outcome Desk (Unit {0})
create_writes inv = do
  insert_invitation inv
  announce (created inv.id)
  modify (publish (created inv.id))

-- `createInvitation`. The laundry and the identity of the context are the inviter's by the check.
unfoldable pub create_invitation :
    (ℕ → ℕ) → AuthContext → Proposal → Bool → InviteDraw → Desk → Outcome Desk Invitation
create_invitation hash ctx proposal sms_fails d = do
  inviter ← validate_inviter ctx
  phone ← found_or (normalize_phone proposal.phone) 400 "INVALID_PHONE_FORMAT"
  s ← get
  require (are_branches_of inviter.washer_id proposal.proposed_branch_ids s) 400 "INVALID_BRANCHES"
  let inv =
      new_invitation hash inviter.washer_id phone proposal.proposed_role
        proposal.proposed_branch_ids inviter 1 0 d
  transaction (create_writes inv)
  send_or_revoke inv sms_fails d.now

-- The status that is shown: a pending invitation that has run out is "expired".
abbrev pub shown_status : ℕ → Invitation → InvitationStatus
shown_status now inv =
    if is_pending inv.status && ltb inv.expires_at now then expired else inv.status

-- `findFirst({ where: { id, washerId } })`
abbrev pub is_own_invitation : Option ℕ → ℕ → Invitation → Bool
is_own_invitation washer i inv = inv.id == i && opt_eq (some inv.washer_id) washer

-- `listInvitations`, before its order and its page.
unfoldable pub list_invitations : AuthContext → ℕ → Desk → List (ℕ × InvitationStatus)
list_invitations ctx now s =
    map (λ inv. (inv.id, shown_status now inv))
      (select (λ inv. opt_eq (some inv.washer_id) ctx.washer_id) s.invitations)

-- `getInvitationById`
unfoldable pub get_invitation_by_id : AuthContext → ℕ → ℕ → Desk → Outcome Desk InvitationStatus
get_invitation_by_id ctx i now = do
  s ← get
  inv ← found_or (find (is_own_invitation ctx.washer_id i) s.invitations) 404 "INVITATION_NOT_FOUND"
  pure (shown_status now inv)

-- The old invitation is superseded by the new one, whatever its time is.
unfoldable pub resend_writes : Invitation → Invitation → Desk → Outcome Desk (Unit {0})
resend_writes old inv = do
  modify (set_invitation old.id (λ x. record x { status = superseded }))
  insert_invitation inv
  announce (resent inv.id inv.resend_count)
  modify (publish (resent inv.id inv.resend_count))

-- `resendInvitation`
unfoldable pub resend_invitation :
    (ℕ → ℕ) → AuthContext → ℕ → Bool → InviteDraw → Desk → Outcome Desk Invitation
resend_invitation hash ctx i sms_fails d = do
  inviter ← validate_inviter ctx
  s ← get
  old ← found_or (find (is_own_invitation ctx.washer_id i) s.invitations) 404 "INVITATION_NOT_FOUND"
  require (is_pending old.status) 400 "INVALID_INVITATION_STATUS"
  let inv =
      new_invitation hash inviter.washer_id old.phone old.proposed_role old.proposed_branch_ids
        inviter (old.send_count + 1) (old.resend_count + 1) d
  transaction (resend_writes old inv)
  send_or_revoke inv sms_fails d.now

unfoldable pub revoke_invitation_writes : Invitation → ℕ → Desk → Outcome Desk (Unit {0})
revoke_invitation_writes inv now = do
  modify (set_invitation inv.id (revoke_invitation_row now "manual_revocation"))
  modify (publish (revoked_event inv.id))

-- `revokeInvitation`
unfoldable pub revoke_invitation : AuthContext → ℕ → ℕ → Desk → Outcome Desk (Unit {0})
revoke_invitation ctx i now = do
  m ← validate_inviter ctx
  s ← get
  inv ← found_or (find (is_own_invitation ctx.washer_id i) s.invitations) 404 "INVITATION_NOT_FOUND"
  require (is_pending inv.status) 400 "INVALID_INVITATION_STATUS"
  transaction (revoke_invitation_writes inv now)
