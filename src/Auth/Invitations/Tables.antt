-- ===== src/Auth/Invitations/Tables.antt =====
-- The tables behind src/modules/auth/services/staff-invitation.service.js.
use maghsul_backend.Base.{
  ℕ, ◌*◌, Bool, true, false, not, ◌&&◌, Option, List, [], ◌∷◌, ◌++◌, String, ◌==◌, find, any,
  if◌then◌else◌, update_where, Outcome, ◌>>=◌, ◌>>◌, require, get, modify,
}
use maghsul_backend.Orders.StateMachine.{Role}
use maghsul_backend.Auth.Guard.{StaffMember, BranchAccess, Branch}
use maghsul_backend.Auth.Digits.{Text, text_eq}
use maghsul_backend.Auth.Sessions.Tables.{RefreshToken}
use maghsul_backend.Auth.Guard.{SessionType}

pub data InvitationStatus : Type 0 where
  pending accepted expired revoked superseded : InvitationStatus

abbrev pub is_pending : InvitationStatus → Bool
is_pending pending = true
is_pending _ = false

pub record Invitation : Type 0 where
  pub id : ℕ
  pub washer_id : ℕ
  pub phone : Text
  pub proposed_role : Role
  pub proposed_branch_ids : List ℕ
  pub invited_by_identity_id : ℕ
  pub invited_by_staff_membership_id : ℕ
  pub token_hash : ℕ
  pub expires_at : ℕ
  pub status : InvitationStatus
  pub accepted_at : Option ℕ
  pub revoked_at : Option ℕ
  pub revoked_reason : Option String
  pub send_count : ℕ
  pub resend_count : ℕ

pub record Identity : Type 0 where
  pub id : ℕ
  pub phone : Text

pub record Laundry : Type 0 where
  pub id : ℕ
  pub is_active : Bool
  pub permissions_version : ℕ

-- What a session that an invitation replaces, or the one that replaces it, is known by.
pub record StaffSession : Type 0 where
  pub id : ℕ
  pub identity_id : ℕ
  pub session_type : SessionType
  pub purpose : Option ℕ
  pub washer_id : Option ℕ
  pub branch_id : Option ℕ
  pub staff_membership_id : Option ℕ
  pub is_revoked : Bool
  pub replaced_by_session_id : Option ℕ
  pub expires_at : ℕ

-- The events of an invitation; each stands for its key.
pub data InviteEvent : Type 0 where
  created revoked_event accepted_event membership_activated : ℕ → InviteEvent
  resent : ℕ → ℕ → InviteEvent

unfoldable pub event_eq : InviteEvent → InviteEvent → Bool
event_eq (created a) (created b) = a == b
event_eq (revoked_event a) (revoked_event b) = a == b
event_eq (accepted_event a) (accepted_event b) = a == b
event_eq (membership_activated a) (membership_activated b) = a == b
event_eq (resent a m) (resent b n) = a == b && m == n
event_eq _ _ = false

pub record Desk : Type 0 where
  pub invitations : List Invitation
  pub identities : List Identity
  pub laundries : List Laundry
  pub branches : List Branch
  pub members : List StaffMember
  pub accesses : List BranchAccess
  pub sessions : List StaffSession
  pub tokens : List RefreshToken
  pub notifications : List InviteEvent
  pub realtime : List InviteEvent
  pub audits : List ℕ

-- The time and what is drawn: identifiers of new rows, the raw token, the family.
pub record InviteDraw : Type 0 where
  pub now : ℕ
  pub invitation_id : ℕ
  pub member_id : ℕ
  pub access_id : ℕ → ℕ
  pub session_id : ℕ
  pub token_id : ℕ
  pub raw_token : ℕ
  pub family_id : ℕ

-- 24 hours.
abbrev pub invitation_ttl : ℕ
invitation_ttl = 24 * (60 * (60 * 1000))

abbrev pub has_invitation : ℕ → Invitation → Bool
has_invitation i inv = inv.id == i

abbrev pub same_phone : Text → Invitation → Bool
same_phone phone inv = text_eq inv.phone phone

-- The unique index of the table: at most one such row for a laundry and a phone.
abbrev pub is_pending_for : ℕ → Text → Invitation → Bool
is_pending_for washer phone inv =
    inv.washer_id == washer && same_phone phone inv && is_pending inv.status

abbrev pub find_invitation : ℕ → Desk → Option Invitation
find_invitation i s = find (has_invitation i) s.invitations

abbrev pub add_invitation : Invitation → Desk → Desk
add_invitation inv s = record s { invitations = s.invitations ++ inv ∷ [] }

abbrev pub set_invitation : ℕ → (Invitation → Invitation) → Desk → Desk
set_invitation i f s = record s { invitations = update_where (has_invitation i) f s.invitations }

-- `notificationOutboxEvent.create`: the key is unique.
unfoldable pub announce : InviteEvent → Desk → Outcome Desk (Unit {0})
announce e = do
  s ← get
  require (not (any (event_eq e) s.notifications)) 409 "DUPLICATE_EVENT_KEY"
  modify (λ s. record s { notifications = s.notifications ++ e ∷ [] })

-- `safeCreateEvent`: a second event of the key is a safe duplicate, since the key gives the fields.
abbrev pub publish : InviteEvent → Desk → Desk
publish e s = record s {
  realtime = if any (event_eq e) s.realtime then s.realtime else s.realtime ++ e ∷ [];
}
