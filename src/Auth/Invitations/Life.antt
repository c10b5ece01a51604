-- ===== src/Auth/Invitations/Life.antt =====
-- The life of an invitation under any calls of
-- src/modules/auth/services/staff-invitation.service.js.
use maghsul_backend.Base.{
  ℕ, ◌≡◌, ◌≢◌, refl, ◌∙◌, Bool, Option, none, some, List, [], ◌∷◌, final_state, modify, arith,
  Keeps, keeps_rules,
}
use maghsul_backend.Orders.StateMachine.{Role}
use maghsul_backend.Auth.Guard.{AuthContext, StaffMember}
use maghsul_backend.Auth.Digits.{Text}
use maghsul_backend.Auth.Invitations.Tables.{Invitation, Desk, InviteDraw, StaffSession}
use maghsul_backend.Auth.Invitations.{
  validate_inviter, Proposal, new_invitation, send_or_revoke, create_writes, create_invitation,
  resend_writes, resend_invitation, revoke_invitation_writes, revoke_invitation,
}
use maghsul_backend.Auth.Invitations.Accept.{
  find_invited, take_member, grant_branches, open_staff_session, add_staff_session,
  close_staff_session, grant_branch, activate_member, log_joined, add_member, join_writes,
  accept_writes, accept_invitation,
}
use maghsul_backend.Auth.Invitations.Upheld.{
  Upholds, Upholds-IsPreorder, quiet-Upholds, revoke_row-Upholds, supersede-Upholds,
  publish-Upholds, announce-Upholds, take-Upholds, insert-Upholds,
}

-- The calls that write; a draw goes with each.
pub data InviteCall : Type 0 where
  invite : AuthContext → Proposal → Bool → InviteCall
  resend : AuthContext → ℕ → Bool → InviteCall
  take_back : AuthContext → ℕ → InviteCall
  accept : AuthContext → Option ℕ → InviteCall

unfoldable pub invite_call : (ℕ → ℕ) → InviteCall → InviteDraw → Desk → Desk
invite_call hash (invite ctx proposal sms_fails) d s =
    final_state (create_invitation hash ctx proposal sms_fails d s)
invite_call hash (resend ctx i sms_fails) d s =
    final_state (resend_invitation hash ctx i sms_fails d s)
invite_call hash (take_back ctx i) d s = final_state (revoke_invitation ctx i d.now s)
invite_call hash (accept ctx token) d s = final_state (accept_invitation hash ctx token d s)

unfoldable pub invite_calls : (ℕ → ℕ) → List (InviteCall × InviteDraw) → Desk → Desk
invite_calls hash [] s = s
invite_calls hash ((c, d) ∷ cs) s = invite_calls hash cs (invite_call hash c d s)

grant_table :
    (m : ℕ) (bs : List ℕ) (d : InviteDraw) (s : Desk)
    → (grant_branches m bs d s).invitations ≡ s.invitations
unfolding grant_branches
grant_table m [] d s = refl
grant_table m (b ∷ bs) d s = grant_table m bs d (grant_branch m b d s) ∙ one
  where
    one : (grant_branch m b d s).invitations ≡ s.invitations
    one = ground arith

module _ (i : ℕ) where
  ruleset upheld_rules = (
    keeps_rules, Upholds-IsPreorder, revoke_row-Upholds, supersede-Upholds, publish-Upholds,
    announce-Upholds, take-Upholds, insert-Upholds,
  )

  inviter-Upholds : (ctx : AuthContext) → Keeps (Upholds i) (validate_inviter ctx)
  unfolding validate_inviter
  inviter-Upholds ctx = search upheld_rules depth 12

  send-Upholds :
      (inv : Invitation) (sms_fails : Bool) (now : ℕ)
      → Keeps (Upholds i) (send_or_revoke inv sms_fails now)
  unfolding send_or_revoke
  send-Upholds inv sms_fails now = search upheld_rules depth 12

  find-Upholds :
      (hash : ℕ → ℕ) (ctx : AuthContext) (token : Option ℕ) (now : ℕ)
      → Keeps (Upholds i) (find_invited hash ctx token now)
  unfolding find_invited
  find-Upholds hash ctx token now = search upheld_rules depth 30

  revoke_writes-Upholds :
      (inv : Invitation) (now : ℕ) → Keeps (Upholds i) (revoke_invitation_writes inv now)
  unfolding revoke_invitation_writes
  revoke_writes-Upholds inv now = search upheld_rules depth 12

  revoke-Upholds : (ctx : AuthContext) (j now : ℕ) → Keeps (Upholds i) (revoke_invitation ctx j now)
  unfolding revoke_invitation
  revoke-Upholds ctx j now = search (upheld_rules, inviter-Upholds, revoke_writes-Upholds) depth 16

  add_member-Upholds : (m : StaffMember) → Keeps (Upholds i) (modify (add_member m))
  add_member-Upholds m = quiet-Upholds i (add_member m) (λ s. refl)

  activate-Upholds :
      (inv : Invitation) (m : StaffMember) → Keeps (Upholds i) (modify (activate_member inv m))
  activate-Upholds inv m = quiet-Upholds i (activate_member inv m) (λ s. refl)

  grant-Upholds :
      (m : ℕ) (bs : List ℕ) (d : InviteDraw) → Keeps (Upholds i) (modify (grant_branches m bs d))
  grant-Upholds m bs d = quiet-Upholds i (grant_branches m bs d) (grant_table m bs d)

  add_session-Upholds :
      (hash : ℕ → ℕ) (row : StaffSession) (d : InviteDraw)
      → Keeps (Upholds i) (modify (add_staff_session hash row d))
  add_session-Upholds hash row d = quiet-Upholds i (add_staff_session hash row d) (λ s. refl)

  close-Upholds :
      (ctx : AuthContext) (row : StaffSession) (inv : Invitation)
      → Keeps (Upholds i) (modify (close_staff_session ctx row inv))
  close-Upholds ctx row inv = quiet-Upholds i (close_staff_session ctx row inv) (λ s. refl)

  open-Upholds :
      (hash : ℕ → ℕ) (ctx : AuthContext) (row : StaffSession) (inv : Invitation) (d : InviteDraw)
      → Keeps (Upholds i) (open_staff_session hash ctx row inv d)
  unfolding open_staff_session
  open-Upholds hash ctx row inv d =
      search (upheld_rules, add_session-Upholds, close-Upholds) depth 12

  log-Upholds : (m : ℕ) → Keeps (Upholds i) (modify (log_joined m))
  log-Upholds m = quiet-Upholds i (log_joined m) (λ s. refl)

  member-Upholds :
      (identity : ℕ) (inv : Invitation) (d : InviteDraw) (x : Option StaffMember)
      → Keeps (Upholds i) (take_member identity inv d x)
  unfolding take_member
  member-Upholds identity inv d none = search (upheld_rules, add_member-Upholds) depth 12
  member-Upholds identity inv d (some m) = search (upheld_rules, activate-Upholds) depth 12

  pub join_writes-Upholds :
      (hash : ℕ → ℕ) (ctx : AuthContext) (inv : Invitation) (d : InviteDraw)
      → Keeps (Upholds i) (join_writes hash ctx inv d)
  unfolding join_writes
  join_writes-Upholds hash ctx inv d =
      search (upheld_rules, member-Upholds, grant-Upholds, open-Upholds, log-Upholds) depth 30

  accept_writes-Upholds :
      (hash : ℕ → ℕ) (ctx : AuthContext) (inv : Invitation) (d : InviteDraw)
      → Keeps (Upholds i) (accept_writes hash ctx inv d)
  unfolding accept_writes
  accept_writes-Upholds hash ctx inv d = search (upheld_rules, join_writes-Upholds) depth 12

  accept-Upholds :
      (hash : ℕ → ℕ) (ctx : AuthContext) (token : Option ℕ) (d : InviteDraw)
      → Keeps (Upholds i) (accept_invitation hash ctx token d)
  unfolding accept_invitation
  accept-Upholds hash ctx token d =
      search (upheld_rules, find-Upholds, accept_writes-Upholds) depth 12

  module _ (d : InviteDraw) (fresh : d.invitation_id ≢ i) where
    create_writes-Upholds :
        (hash : ℕ → ℕ) (washer : ℕ) (phone : Text) (role : Role) (branches : List ℕ)
        (inviter : StaffMember) (sent resends : ℕ)
        → Keeps
            (Upholds i)
            (create_writes (new_invitation hash washer phone role branches inviter sent resends d))
    unfolding create_writes
    create_writes-Upholds hash washer phone role branches inviter sent resends =
        search (upheld_rules, fresh) depth 12

    resend_writes-Upholds :
        (old : Invitation) (hash : ℕ → ℕ) (washer : ℕ) (phone : Text) (role : Role)
        (branches : List ℕ) (inviter : StaffMember) (sent resends : ℕ)
        → Keeps (Upholds i) (
            resend_writes old
              (new_invitation hash washer phone role branches inviter sent resends d))
    unfolding resend_writes
    resend_writes-Upholds old hash washer phone role branches inviter sent resends =
        search (upheld_rules, fresh) depth 12

    invite-Upholds :
        (hash : ℕ → ℕ) (ctx : AuthContext) (proposal : Proposal) (sms_fails : Bool)
        → Keeps (Upholds i) (create_invitation hash ctx proposal sms_fails d)
    unfolding create_invitation
    invite-Upholds hash ctx proposal sms_fails =
        search (upheld_rules, inviter-Upholds, create_writes-Upholds, send-Upholds) depth 20

    resend-Upholds :
        (hash : ℕ → ℕ) (ctx : AuthContext) (j : ℕ) (sms_fails : Bool)
        → Keeps (Upholds i) (resend_invitation hash ctx j sms_fails d)
    unfolding resend_invitation
    resend-Upholds hash ctx j sms_fails =
        search (upheld_rules, inviter-Upholds, resend_writes-Upholds, send-Upholds) depth 20

    pub call-Upholds :
        (hash : ℕ → ℕ) (c : InviteCall) (s : Desk) → Upholds i s (invite_call hash c d s)
    unfolding invite_call
    call-Upholds hash (invite ctx proposal sms_fails) s =
        (invite-Upholds hash ctx proposal sms_fails).kept s
    call-Upholds hash (resend ctx j sms_fails) s = (resend-Upholds hash ctx j sms_fails).kept s
    call-Upholds hash (take_back ctx j) s = (revoke-Upholds ctx j d.now).kept s
    call-Upholds hash (accept ctx token) s = (accept-Upholds hash ctx token d).kept s
