-- ===== src/Auth/Invitations/Ends.antt =====
-- Invitations of src/modules/auth/services/staff-invitation.service.js that have ended.
use maghsul_backend.Base.{
  ℕ, suc, ◌≡◌, ◌≢◌, refl, true, false, some, List, [], ◌∷◌, any, update_where, All, done, thrown,
  api_error, arith, >>-eq-done,
}
use maghsul_backend.Auth.Guard.{AuthContext}
use maghsul_backend.Auth.Invitations.Tables.{Invitation, accepted, Desk, InviteDraw}
use maghsul_backend.Auth.Invitations.Accept.{
  is_pending_at, take_invitation, join_writes, accept_writes, Joined,
}
use maghsul_backend.Auth.Invitations.Kept.{single}
use maghsul_backend.Auth.Invitations.Upheld.{Upholds, Upholds-IsPreorder}
use maghsul_backend.Auth.Invitations.Life.{
  InviteCall, invite_call, invite_calls, call-Upholds, join_writes-Upholds,
}

-- Whatever is called, in any order, a laundry never has two pending invitations for one phone.
pub invite_calls-single :
    (hash : ℕ → ℕ) (cs : List (InviteCall × InviteDraw)) (s : Desk)
    → single s.invitations ≡ true
    → single (invite_calls hash cs s).invitations ≡ true
unfolding invite_calls
invite_calls-single hash [] s h = h
invite_calls-single hash ((c, d) ∷ cs) s h =
    let other : d.invitation_id ≢ suc d.invitation_id = λ e. omega (arith, e) in
    invite_calls-single hash cs (invite_call hash c d s)
      ((call-Upholds (suc d.invitation_id) d other hash c s).singles h)

-- The draws of the calls give other identifiers than `i`.
abbrev pub AreOthers : ℕ → List (InviteCall × InviteDraw) → Type 0
AreOthers i = All (λ x. (x.1).invitation_id ≢ i)

calls-Upholds :
    (i : ℕ) (hash : ℕ → ℕ) (cs : List (InviteCall × InviteDraw)) (s : Desk)
    → AreOthers i cs
    → Upholds i s (invite_calls hash cs s)
unfolding invite_calls
calls-Upholds i hash [] s h = (Upholds-IsPreorder i).same s
calls-Upholds i hash ((c, d) ∷ cs) s (n, h) =
    (Upholds-IsPreorder i).after s (invite_call hash c d s) _ (call-Upholds i d n hash c s)
      (calls-Upholds i hash cs (invite_call hash c d s) h)

take_all :
    (i now : ℕ) (invs : List Invitation)
    → any (is_pending_at i) (
        update_where
          (is_pending_at i)
          (λ inv. record inv { status = accepted; accepted_at = some now })
          invs)
      ≡ false
take_all i now [] = refl
take_all i now (inv ∷ invs) = ground (arith, take_all i now invs)

taken_table :
    (i now : ℕ) (s s' : Desk)
    → take_invitation i now s ≡ done tt s'
    → s'.invitations
      ≡ update_where
          (is_pending_at i)
          (λ inv. record inv { status = accepted; accepted_at = some now })
          s.invitations
unfolding take_invitation
taken_table i now s s' h = ground arith

pub accepted_ended :
    (hash : ℕ → ℕ) (ctx : AuthContext) (inv : Invitation) (d : InviteDraw) (s : Desk) (j : Joined)
    (s' : Desk)
    → accept_writes hash ctx inv d s ≡ done j s'
    → any (is_pending_at inv.id) s'.invitations ≡ false
unfolding accept_writes
accepted_ended hash ctx inv d s j s' h =
    let (s1, first, rest) =
      >>-eq-done (take_invitation inv.id d.now) (join_writes hash ctx inv d) s j s' h in
    let ended : any (is_pending_at inv.id) s1.invitations ≡ false =
      rw (taken_table inv.id d.now s s1 first) (take_all inv.id d.now s.invitations) in
    let k = ((join_writes-Upholds inv.id hash ctx inv d).kept s1).ended ended in rw rest at k

-- An acceptance of an invitation that is not pending is refused and writes nothing.
refused_when_ended :
    (hash : ℕ → ℕ) (ctx : AuthContext) (inv : Invitation) (d : InviteDraw) (s : Desk)
    → any (is_pending_at inv.id) s.invitations ≡ false
    → accept_writes hash ctx inv d s ≡ thrown (api_error 409 "CONCURRENT_ACCEPTANCE") s
unfolding accept_writes take_invitation
refused_when_ended hash ctx inv d s h = ground arith

-- An invitation is accepted once: whatever calls come behind its acceptance, in any order, the
-- transaction of a further acceptance, also of a request that had read it as pending before, answers
-- 409 and writes nothing. The identifiers of later invitations are other ones.
pub accepted_once :
    (hash : ℕ → ℕ) (ctx ctx' : AuthContext) (inv again : Invitation) (d d' : InviteDraw) (s : Desk)
    (j : Joined) (s' : Desk) (cs : List (InviteCall × InviteDraw))
    → accept_writes hash ctx inv d s ≡ done j s'
    → again.id ≡ inv.id
    → AreOthers inv.id cs
    → accept_writes hash ctx' again d' (invite_calls hash cs s')
      ≡ thrown (api_error 409 "CONCURRENT_ACCEPTANCE") (invite_calls hash cs s')
accepted_once hash ctx ctx' inv again d d' s j s' cs h same others =
    refused_when_ended hash ctx' again d' (invite_calls hash cs s') (
      rw same
        ((calls-Upholds inv.id hash cs s' others).ended (accepted_ended hash ctx inv d s j s' h)))
