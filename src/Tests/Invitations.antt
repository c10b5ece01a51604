-- ===== src/Tests/Invitations.antt =====
-- An invitation of a worker and its acceptance, and the theorems on invitations at them.
use maghsul_backend.Base.{
  ℕ, ◌+◌, ◌≡◌, refl, inl, inr, true, false, some, none, List, [], ◌∷◌, any, Outcome, done, thrown,
  api_error, final_state, arith,
}
use maghsul_backend.Orders.StateMachine.{worker, washer_owner}
use maghsul_backend.Store.{active}
use maghsul_backend.Auth.Guard.{AuthContext, provisional, operational, context_of}
use maghsul_backend.Auth.Digits.{Text, trim, trim_start, trim_end, text_eq}
use maghsul_backend.Auth.Phone.{
  normalize_phone, without_zero, without_country, without_gaps, without_prefix,
}
use maghsul_backend.Auth.Sessions.Claims.{guard_session}
use maghsul_backend.Auth.Invitations.Tables.{
  Invitation, pending, Desk, StaffSession, InviteDraw, announce, event_eq,
}
use maghsul_backend.Auth.Invitations.Accept.{
  is_pending_at, find_invited, take_invitation, take_member, grant_branches, open_staff_session,
  join_writes, accept_writes, accept_invitation, Joined, staff_invitation_accept,
}
use maghsul_backend.Auth.Invitations.Kept.{single}
use maghsul_backend.Auth.Invitations.Life.{InviteCall, invite, resend, take_back, invite_calls}
use maghsul_backend.Auth.Invitations.Ends.{AreOthers, invite_calls-single, accepted_once}
use maghsul_backend.Auth.Invitations.Joins.{Invited, Joins, accept_invitation_done, created-refused}
use maghsul_backend.Tests.Sessions.{
  shift_hash, worker_context, settings_one, draw_at, no_accounts, granted_one, with_session,
  opened_runs,
}

abbrev phone_one : Text
phone_one = 53 ∷ 48 ∷ 49 ∷ 50 ∷ 51 ∷ 52 ∷ 53 ∷ 54 ∷ 55 ∷ []

abbrev invitation_one : Invitation
invitation_one = record {
  id = 21;
  washer_id = 3;
  phone = phone_one;
  proposed_role = worker;
  proposed_branch_ids = 4 ∷ [];
  invited_by_identity_id = 80;
  invited_by_staff_membership_id = 8;
  token_hash = 1024;
  expires_at = 86400000;
  status = pending;
  accepted_at = none;
  revoked_at = none;
  revoked_reason = none;
  send_count = 1;
  resend_count = 0;
}

-- The session of the acceptance in the table.
abbrev session_sixty : StaffSession
session_sixty = record {
  id = 60;
  identity_id = 90;
  session_type = provisional;
  purpose = some staff_invitation_accept;
  washer_id = none;
  branch_id = none;
  staff_membership_id = none;
  is_revoked = false;
  replaced_by_session_id = none;
  expires_at = 1802000;
}

-- Laundry 3 of owner 8 with branch 4, and identity 90 of the phone that is invited.
abbrev desk_one : Desk
desk_one = record {
  invitations = invitation_one ∷ [];
  identities = record { id = 90; phone = 48 ∷ phone_one } ∷ [];
  laundries = record { id = 3; is_active = true; permissions_version = 2 } ∷ [];
  branches = record { id = 4; washer_id = 3 } ∷ [];
  members =
      record {
        id = 8;
        identity_id = 80;
        washer_id = 3;
        role = washer_owner;
        status = active;
        has_full_washer_access = true;
      }
      ∷ [];
  accesses = [];
  sessions = session_sixty ∷ [];
  tokens = [];
  notifications = [];
  realtime = [];
  audits = [];
}

abbrev invite_draw : ℕ → InviteDraw
invite_draw n = record {
  now = 2000;
  invitation_id = n;
  member_id = n + 1;
  access_id = λ b. n + 2 + b;
  session_id = n;
  token_id = n;
  raw_token = n;
  family_id = n;
}

-- The provisional session that an acceptance asks for.
abbrev invited_context : AuthContext
invited_context = record {
  session_id = 60;
  identity_id = 90;
  session_type = provisional;
  purpose = some staff_invitation_accept;
  washer_id = none;
  branch_id = none;
  staff_membership_id = none;
  customer_membership_id = none;
  user_device_id = none;
}

abbrev owner_context : AuthContext
owner_context = record invited_context {
  session_id = 61;
  identity_id = 80;
  session_type = operational;
  purpose = none;
  washer_id = some 3;
  staff_membership_id = some 8;
}

-- The owner invites the phone again, takes back the first invitation and invites once more.
abbrev calls_one : List (InviteCall × InviteDraw)
calls_one =
    (
      invite owner_context
          (record { phone = phone_one; proposed_role = worker; proposed_branch_ids = 4 ∷ [] })
          false,
      invite_draw 30,
    )
    ∷ (take_back owner_context 21, invite_draw 40)
    ∷ (resend owner_context 21 false, invite_draw 50)
    ∷ []

desk_one-single : single desk_one.invitations ≡ true
unfolding single
desk_one-single = refl

invite_calls-single_example : single (invite_calls shift_hash calls_one desk_one).invitations ≡ true
invite_calls-single_example = invite_calls-single shift_hash calls_one desk_one desk_one-single

-- The invited one accepts.
abbrev joined : Outcome Desk Joined
joined = accept_invitation shift_hash invited_context (some 24) (invite_draw 70) desk_one

abbrev joined_one : Joined
joined_one = record {
  session = record {
    id = 70;
    identity_id = 90;
    session_type = operational;
    purpose = none;
    washer_id = some 3;
    branch_id = some 4;
    staff_membership_id = some 71;
    is_revoked = false;
    replaced_by_session_id = none;
    expires_at = 2592002000;
  };
  membership = record {
    id = 71;
    identity_id = 90;
    washer_id = 3;
    role = worker;
    status = active;
    has_full_washer_access = false;
  };
  refresh_token = 70;
}

joined_runs : joined ≡ done joined_one (final_state joined)
unfolding accept_invitation find_invited accept_writes take_invitation join_writes
    open_staff_session take_member grant_branches announce event_eq normalize_phone without_zero
    without_country without_gaps without_prefix trim trim_start trim_end text_eq
joined_runs = refl

accept_invitation_done_example :
    (inv : Invitation) × Invited shift_hash invited_context (some 24) 2000 desk_one inv
    × Joins shift_hash invited_context inv (invite_draw 70) desk_one joined_one (final_state joined)
    × (any (is_pending_at inv.id) (final_state joined).invitations ≡ false)
accept_invitation_done_example =
    accept_invitation_done shift_hash invited_context (some 24) (invite_draw 70) desk_one joined_one
      (final_state joined) joined_runs

abbrev accepted_one : Outcome Desk Joined
accepted_one = accept_writes shift_hash invited_context invitation_one (invite_draw 70) desk_one

accepted_one_runs : accepted_one ≡ done joined_one (final_state accepted_one)
unfolding accept_writes take_invitation join_writes open_staff_session take_member grant_branches
    announce event_eq
accepted_one_runs = refl

calls_one-AreOthers : AreOthers 21 calls_one
calls_one-AreOthers = (ground arith, (ground arith, (ground arith, tt)))

accepted_once_example :
    accept_writes shift_hash invited_context invitation_one
      (invite_draw 90)
      (invite_calls shift_hash calls_one (final_state accepted_one))
    ≡ thrown
        (api_error 409 "CONCURRENT_ACCEPTANCE")
        (invite_calls shift_hash calls_one (final_state accepted_one))
accepted_once_example =
    accepted_once shift_hash invited_context invited_context invitation_one invitation_one
      (invite_draw 70) (invite_draw 90) desk_one joined_one (final_state accepted_one) calls_one
      accepted_one_runs refl calls_one-AreOthers

created-refused_example :
    accept_invitation shift_hash
      (context_of (guard_session granted_one.session))
      (some 24)
      (invite_draw 70)
      desk_one
    ≡ thrown (api_error 403 "INVALID_SESSION_PURPOSE") desk_one
created-refused_example =
    created-refused shift_hash worker_context none settings_one (draw_at 1000 10) no_accounts
      granted_one with_session (some 24) (invite_draw 70) desk_one (inr (inl (90, opened_runs)))
