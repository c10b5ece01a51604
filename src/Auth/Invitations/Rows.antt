-- ===== src/Auth/Invitations/Rows.antt =====
-- The rows behind the writes of acceptInvitation of
-- src/modules/auth/services/staff-invitation.service.js.
use maghsul_backend.Base.{
  ℕ, ◌≡◌, refl, inl, inr, Bool, true, Option, none, some, List, [], ◌∷◌, ◌++◌, any, find,
  find-append, find-update_where, update_where, All, done, arith, Bool-cases,
}
use maghsul_backend.Store.{active}
use maghsul_backend.Auth.Guard.{AuthContext, StaffMember, gives_access, has_staff_id}
use maghsul_backend.Auth.Invitations.Tables.{
  Invitation, Desk, InviteDraw, announce, InviteEvent, StaffSession,
}
use maghsul_backend.Auth.Invitations.Accept.{
  is_member_of, new_member, activate, add_staff_session, close_staff_session, take_member,
  grant_branch, grant_branches, open_staff_session,
}

pub take_member_done :
    (identity : ℕ) (inv : Invitation) (d : InviteDraw) (x : Option StaffMember) (s : Desk)
    (m : StaffMember) (s' : Desk)
    → ((old : StaffMember) → x ≡ some old → is_member_of identity inv.washer_id old ≡ true)
    → take_member identity inv d x s ≡ done m s'
    → (m.status ≡ active)
      × (m.role ≡ inv.proposed_role)
      × (m.washer_id ≡ inv.washer_id)
      × (m.identity_id ≡ identity)
unfolding take_member
take_member_done identity inv d none s m s' k h = ground arith
take_member_done identity inv d (some old) s m s' k h = let q = k old refl in ground arith

-- What the other writes of an acceptance leave alone.
abbrev SameRows : Desk → Desk → Type 0
SameRows s s' = (s'.members ≡ s.members) × (s'.sessions ≡ s.sessions) × (s'.tokens ≡ s.tokens)

pub take_member_stored :
    (identity : ℕ) (inv : Invitation) (d : InviteDraw) (x : Option StaffMember) (s : Desk)
    (m : StaffMember) (s' : Desk)
    → find (is_member_of identity inv.washer_id) s.members ≡ x
    → take_member identity inv d x s ≡ done m s'
    → (find (is_member_of identity inv.washer_id) s'.members ≡ some m)
      × (s'.sessions ≡ s.sessions)
      × (s'.tokens ≡ s.tokens)
unfolding take_member
take_member_stored identity inv d none s m s' k h =
    let new = new_member identity inv d in
    let rows : s'.members ≡ s.members ++ new ∷ [] = ground arith in
    let same : m ≡ new = ground arith in
    let first = find-append (is_member_of identity inv.washer_id) s.members (new ∷ []) k in
    (rw (rows, first, same) (ground arith), ground arith, ground arith)
take_member_stored identity inv d (some old) s m s' k h =
    let rows : s'.members ≡ update_where (has_staff_id old.id) (activate inv) s.members =
      ground arith in
    let same : m ≡ activate inv old = ground arith in
    let through =
      find-update_where (is_member_of identity inv.washer_id) (has_staff_id old.id) (activate inv)
        (λ x. ground arith) s.members in
    (rw (rows, through, k, same) (ground arith), ground arith, ground arith)

any-append_kept :
    {A : Type 0} (p : A → Bool) (xs : List A) (x : A)
    → any p xs ≡ true
    → any p (xs ++ x ∷ []) ≡ true
any-append_kept p [] x h = absurd (ground arith)
any-append_kept p (y ∷ ys) x h = ground (arith, any-append_kept p ys x)

any-append_new :
    {A : Type 0} (p : A → Bool) (xs : List A) (x : A) → p x ≡ true → any p (xs ++ x ∷ []) ≡ true
any-append_new p [] x h = ground arith
any-append_new p (y ∷ ys) x h = ground (arith, any-append_new p ys x)

grant_branch-adds :
    (m b : ℕ) (d : InviteDraw) (s : Desk)
    → any (gives_access m b) (grant_branch m b d s).accesses ≡ true
grant_branch-adds m b d s = elim (Bool-cases (any (gives_access m b) s.accesses)) [
  | inl there ↦ ground arith
  | inr new ↦ ground (
    arith,
    any-append_new (gives_access m b) s.accesses
        (record { id = d.access_id b; staff_membership_id = m; branch_id = b }),
  )
]

grant_branches-keeps :
    (m b : ℕ) (bs : List ℕ) (d : InviteDraw) (s : Desk)
    → any (gives_access m b) s.accesses ≡ true
    → any (gives_access m b) (grant_branches m bs d s).accesses ≡ true
unfolding grant_branches
grant_branches-keeps m b [] d s h = h
grant_branches-keeps m b (c ∷ bs) d s h =
    grant_branches-keeps m b bs d (grant_branch m c d s)
      (elim (Bool-cases (any (gives_access m c) s.accesses)) [
        | inl there ↦ ground arith
        | inr new ↦ ground (
          arith,
          any-append_kept (gives_access m b) s.accesses
              (record { id = d.access_id c; staff_membership_id = m; branch_id = c }),
        )
      ])

pub grant_branches-adds :
    (m : ℕ) (bs : List ℕ) (d : InviteDraw) (s : Desk)
    → All (λ b. any (gives_access m b) (grant_branches m bs d s).accesses ≡ true) bs
unfolding grant_branches
grant_branches-adds m [] d s = tt
grant_branches-adds m (b ∷ bs) d s = (
  grant_branches-keeps m b bs d (grant_branch m b d s) (grant_branch-adds m b d s),
  grant_branches-adds m bs d (grant_branch m b d s),
)

pub grant_branches_rows :
    (m : ℕ) (bs : List ℕ) (d : InviteDraw) (s : Desk) → SameRows s (grant_branches m bs d s)
unfolding grant_branches
grant_branches_rows m [] d s = (refl, refl, refl)
grant_branches_rows m (b ∷ bs) d s =
    let (members, sessions, tokens) = grant_branches_rows m bs d (grant_branch m b d s) in
    elim (Bool-cases (any (gives_access m b) s.accesses)) [
      | inl there ↦ ground arith
      | inr new ↦ ground arith
    ]

-- The session is opened in place of the one that asked, which is there.
pub open_staff_session_done :
    (hash : ℕ → ℕ) (ctx : AuthContext) (row : StaffSession) (inv : Invitation) (d : InviteDraw)
    (s s' : Desk)
    → open_staff_session hash ctx row inv d s ≡ done tt s'
    → s' ≡ close_staff_session ctx row inv (add_staff_session hash row d s)
unfolding open_staff_session
open_staff_session_done hash ctx row inv d s s' h = ground arith

pub announce_rows : (e : InviteEvent) (s s' : Desk) → announce e s ≡ done tt s' → SameRows s s'
unfolding announce
announce_rows e s s' h = ground arith

pub announce_accesses :
    (e : InviteEvent) (s s' : Desk) → announce e s ≡ done tt s' → s'.accesses ≡ s.accesses
unfolding announce
announce_accesses e s s' h = ground arith
