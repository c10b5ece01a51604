-- ===== src/Auth/Invitations/Joins.antt =====
-- What an acceptance leaves: acceptInvitation of src/modules/auth/services/staff-invitation.service.js.
use maghsul_backend.Base.{
  ℕ, ◌<◌, ◌≡◌, refl, inl, inr, true, false, Option, some, [], ◌∷◌, ◌++◌, ◌==◌, any, find,
  find_sound, update_where, All, done, thrown, api_error, arith, Option-cases, Outcome-cases,
  >>-eq-done, opt_eq_iff,
}
use maghsul_backend.Store.{active}
use maghsul_backend.Auth.Guard.{AuthContext, StaffMember, gives_access, provisional, context_of}
use maghsul_backend.Auth.Digits.{Text}
use maghsul_backend.Auth.Phone.{normalize_phone}
use maghsul_backend.Auth.Invitations.Tables.{
  Invitation, Identity, Laundry, Desk, InviteDraw, announce, accepted_event, publish,
  membership_activated,
}
use maghsul_backend.Auth.Invitations.Accept.{
  staff_invitation_accept, is_invited, has_laundry, is_member_of, find_invited, staff_token,
  take_invitation, take_member, grant_branches, staff_session, join_writes, accept_writes,
  accept_invitation, Joined, log_joined, open_staff_session, is_pending_at,
}
use maghsul_backend.Auth.Invitations.Ends.{accepted_ended}
use maghsul_backend.Auth.Sessions.Tables.{Context, Settings, Draw, Accounts}
use maghsul_backend.Auth.Sessions.Create.{Granted}
use maghsul_backend.Auth.Sessions.Claims.{guard_session}
use maghsul_backend.Auth.Sessions.Answers.{Created, created_purpose}
use maghsul_backend.Auth.Invitations.Rows.{
  take_member_done, take_member_stored, grant_branches-adds, grant_branches_rows,
  open_staff_session_done, announce_rows, announce_accesses,
}

-- Who may accept which invitation.
pub record Invited (hash : ℕ → ℕ) (ctx : AuthContext) (token : Option ℕ) (now : ℕ) (s : Desk)
    (inv : Invitation) : Type 0 where
  pub raw : ℕ
  pub identity : Identity
  pub phone : Text
  pub laundry : Laundry
  pub type : ctx.session_type ≡ provisional
  pub purpose : ctx.purpose ≡ some staff_invitation_accept
  pub given : token ≡ some raw
  pub known : find (λ x. x.id == ctx.identity_id) s.identities ≡ some identity
  pub own_phone : normalize_phone identity.phone ≡ some phone
  pub invited : find (is_invited (hash raw) phone) s.invitations ≡ some inv
  pub in_time : ¬ (inv.expires_at < now)
  pub at : find (has_laundry inv.washer_id) s.laundries ≡ some laundry
  pub open_laundry : laundry.is_active ≡ true

find_invited_done :
    (hash : ℕ → ℕ) (ctx : AuthContext) (token : Option ℕ) (now : ℕ) (s : Desk) (inv : Invitation)
    (s' : Desk)
    → find_invited hash ctx token now s ≡ done inv s'
    → Invited hash ctx token now s inv × (s' ≡ s)
unfolding find_invited
find_invited_done hash ctx token now s inv s' h = elim (Option-cases token) [
  | inl missing ↦ absurd (ground arith)
  | inr (raw, given) ↦ elim (Option-cases (find (λ x. x.id == ctx.identity_id) s.identities)) [
    | inl unknown ↦ absurd (ground arith)
    | inr (identity, known) ↦ elim (Option-cases (normalize_phone identity.phone)) [
      | inl no_phone ↦ absurd (ground arith)
      | inr (phone, own_phone) ↦
          elim (Option-cases (find (is_invited (hash raw) phone) s.invitations)) [
            | inl not_invited ↦ absurd (ground arith)
            | inr (inv', invited) ↦
                elim (Option-cases (find (has_laundry inv'.washer_id) s.laundries)) [
                  | inl nowhere ↦ absurd (ground arith)
                  | inr (laundry, at) ↦
                      let same : inv' ≡ inv = ground arith in
                      (
                        record {
                          raw = raw;
                          identity = identity;
                          phone = phone;
                          laundry = laundry;
                          type = ground arith;
                          purpose = (opt_eq_iff ctx.purpose (some 1)).0 (ground arith);
                          given = given;
                          known = known;
                          own_phone = own_phone;
                          invited = rw (← same) invited;
                          in_time = ground arith;
                          at = rw (← same) at;
                          open_laundry = ground arith;
                        },
                        ground arith,
                      )
                ]
          ]
    ]
  ]
]

-- What an acceptance answers and leaves: the membership stands in the table, with the accesses; the
-- new session and its token do too, and the session that asked is revoked and replaced by it.
pub record Joins (hash : ℕ → ℕ) (ctx : AuthContext) (inv : Invitation) (d : InviteDraw) (s : Desk)
    (j : Joined) (s' : Desk) : Type 0 where
  pub stored : find (is_member_of ctx.identity_id inv.washer_id) s'.members ≡ some j.membership
  pub member_status : j.membership.status ≡ active
  pub member_role : j.membership.role ≡ inv.proposed_role
  pub member_washer : j.membership.washer_id ≡ inv.washer_id
  pub member_identity : j.membership.identity_id ≡ ctx.identity_id
  pub branches :
      All (λ b. any (gives_access j.membership.id b) s'.accesses ≡ true) inv.proposed_branch_ids
  pub session : j.session ≡ staff_session ctx.identity_id inv j.membership d
  pub token : j.refresh_token ≡ d.raw_token
  pub sessions :
      s'.sessions
      ≡ update_where
          (λ x. x.id == ctx.session_id)
          (λ x. record x { is_revoked = true; replaced_by_session_id = some j.session.id })
          (s.sessions ++ j.session ∷ [])
  pub tokens : s'.tokens ≡ s.tokens ++ staff_token hash d ∷ []

-- The writes one after another.
written_Joins :
    (hash : ℕ → ℕ) (ctx : AuthContext) (inv : Invitation) (d : InviteDraw) (s : Desk)
    (m : StaffMember) (s1 s2 s3 : Desk)
    → take_member ctx.identity_id inv d
        (find (is_member_of ctx.identity_id inv.washer_id) s.members)
        s
      ≡ done m s1
    → open_staff_session hash ctx
        (staff_session ctx.identity_id inv m d)
        inv
        d
        (grant_branches m.id inv.proposed_branch_ids d s1)
      ≡ done tt s2
    → announce (accepted_event inv.id) (log_joined m.id s2) ≡ done tt s3
    → Joins hash ctx inv d s
        (record {
          session = staff_session ctx.identity_id inv m d;
          membership = m;
          refresh_token = d.raw_token;
        })
        (publish (membership_activated m.id) (publish (accepted_event inv.id) s3))
written_Joins hash ctx inv d s m s1 s2 s3 w o v =
    let at = find (is_member_of ctx.identity_id inv.washer_id) s.members in
    let (active', role, washer, identity) =
      take_member_done ctx.identity_id inv d at s m s1
        (λ old e. find_sound (is_member_of ctx.identity_id inv.washer_id) s.members old e) w in
    let (stored, sessions, tokens) = take_member_stored ctx.identity_id inv d at s m s1 refl w in
    let granted = grant_branches m.id inv.proposed_branch_ids d s1 in
    let (members', sessions', tokens') = grant_branches_rows m.id inv.proposed_branch_ids d s1 in
    let row = staff_session ctx.identity_id inv m d in
    let opened = open_staff_session_done hash ctx row inv d granted s2 o in
    let (members'', sessions'', tokens'') =
      announce_rows (accepted_event inv.id) (log_joined m.id s2) s3 v in
    let accesses = announce_accesses (accepted_event inv.id) (log_joined m.id s2) s3 v in
    record {
      stored = rw (members'', opened, members') stored;
      member_status = active';
      member_role = role;
      member_washer = washer;
      member_identity = identity;
      branches = rw (accesses, opened) (grant_branches-adds m.id inv.proposed_branch_ids d s1);
      session = refl;
      token = refl;
      sessions = rw (sessions'', opened, sessions', sessions) refl;
      tokens = rw (tokens'', opened, tokens', tokens) refl;
    }

join_done :
    (hash : ℕ → ℕ) (ctx : AuthContext) (inv : Invitation) (d : InviteDraw) (s : Desk) (j : Joined)
    (s' : Desk)
    → join_writes hash ctx inv d s ≡ done j s'
    → Joins hash ctx inv d s j s'
unfolding join_writes
join_done hash ctx inv d s j s' h =
    let at = find (is_member_of ctx.identity_id inv.washer_id) s.members in
    elim (Outcome-cases (take_member ctx.identity_id inv d at s)) [
      | inr (e, s1, w) ↦ absurd (ground arith)
      | inl (m, s1, w) ↦
          let granted = grant_branches m.id inv.proposed_branch_ids d s1 in
          let row = staff_session ctx.identity_id inv m d in
          elim (Outcome-cases (open_staff_session hash ctx row inv d granted)) [
            | inr (e, s2, o) ↦ absurd (ground arith)
            | inl (u, s2, o) ↦
                elim (Outcome-cases (announce (accepted_event inv.id) (log_joined m.id s2))) [
                  | inr (e, s3, v) ↦ absurd (ground arith)
                  | inl (u', s3, v) ↦
                      let answer : j
                          ≡ record { session = row; membership = m; refresh_token = d.raw_token } =
                        ground arith in
                      let last : s'
                          ≡ publish (membership_activated m.id)
                              (publish (accepted_event inv.id) s3) =
                        ground arith in
                      rw (answer, last) (written_Joins hash ctx inv d s m s1 s2 s3 w o v)
                ]
          ]
    ]

take_invitation_rows :
    (i now : ℕ) (s s' : Desk)
    → take_invitation i now s ≡ done tt s'
    → (s'.sessions ≡ s.sessions) × (s'.tokens ≡ s.tokens)
unfolding take_invitation
take_invitation_rows i now s s' h = ground arith

Joins-at :
    (hash : ℕ → ℕ) (ctx : AuthContext) (inv : Invitation) (d : InviteDraw) (s s1 : Desk)
    (j : Joined) (s' : Desk)
    → s1.sessions ≡ s.sessions
    → s1.tokens ≡ s.tokens
    → Joins hash ctx inv d s1 j s'
    → Joins hash ctx inv d s j s'
Joins-at hash ctx inv d s s1 j s' same_sessions same_tokens k = record {
  stored = k.stored;
  member_status = k.member_status;
  member_role = k.member_role;
  member_washer = k.member_washer;
  member_identity = k.member_identity;
  branches = k.branches;
  session = k.session;
  token = k.token;
  sessions = rw (← same_sessions) k.sessions;
  tokens = rw (← same_tokens) k.tokens;
}

-- An acceptance that returns. It was asked in a provisional session made for it, with the token of a
-- pending invitation to the phone of the identity, in time, by a laundry that is active. Behind it the
-- table holds, for the identity and that laundry, an active membership in the proposed role, with
-- access to every proposed branch; the new session is for that membership and stands in the table with
-- its token; the session that asked is revoked and replaced by it; and the invitation is pending no
-- more.
pub accept_invitation_done :
    (hash : ℕ → ℕ) (ctx : AuthContext) (token : Option ℕ) (d : InviteDraw) (s : Desk) (j : Joined)
    (s' : Desk)
    → accept_invitation hash ctx token d s ≡ done j s'
    → (inv : Invitation) × Invited hash ctx token d.now s inv
      × Joins hash ctx inv d s j s'
      × (any (is_pending_at inv.id) s'.invitations ≡ false)
unfolding accept_invitation accept_writes
accept_invitation_done hash ctx token d s j s' h =
    elim (Outcome-cases (find_invited hash ctx token d.now s)) [
      | inr (e, s1, w) ↦ absurd (ground arith)
      | inl (inv, s1, w) ↦
          let (invited, same) = find_invited_done hash ctx token d.now s inv s1 w in
          elim (Outcome-cases (accept_writes hash ctx inv d s)) [
            | inr (e, s2, v) ↦ absurd (ground arith)
            | inl (j', s2, v) ↦
                let (s3, first, rest) =
                  >>-eq-done (take_invitation inv.id d.now) (join_writes hash ctx inv d) s j' s2
                    v in
                let answer : j ≡ j' = ground arith in
                let last : s' ≡ s2 = ground arith in
                let (sessions, tokens) = take_invitation_rows inv.id d.now s s3 first in
                (
                  inv,
                  invited,
                  rw (answer, last)
                      (Joins-at hash ctx inv d s s3 j' s2 sessions tokens
                        (join_done hash ctx inv d s3 j' s2 rest)),
                  rw last (accepted_ended hash ctx inv d s j' s2 v),
                )
          ]
    ]

-- No session that the session service grants can accept an invitation: it is made for no purpose.
pub created-refused :
    (hash : ℕ → ℕ) (context : Context) (device : Option ℕ) (settings : Settings) (d : Draw)
    (s : Accounts) (g : Granted) (s' : Accounts) (token : Option ℕ) (x : InviteDraw) (desk : Desk)
    → Created hash context device settings d s g s'
    → accept_invitation hash (context_of (guard_session g.session)) token x desk
      ≡ thrown (api_error 403 "INVALID_SESSION_PURPOSE") desk
unfolding accept_invitation find_invited
created-refused hash context device settings d s g s' token x desk c =
    let purpose = created_purpose hash context device settings d s g s' c in
    rw purpose (ground arith)
