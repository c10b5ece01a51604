-- ===== src/Auth/Invitations/Upheld.antt =====
-- Every call of src/modules/auth/services/staff-invitation.service.js, on the table of invitations.
use maghsul_backend.Base.{
  ℕ, ◌≡◌, ◌≢◌, refl, inl, inr, Bool, true, false, some, List, [], ◌∷◌, ◌++◌, String, any,
  update_where, final_state, modify, arith, Bool-cases, Keeps, IsPreorder,
}
use maghsul_backend.Orders.StateMachine.{Role}
use maghsul_backend.Auth.Guard.{StaffMember}
use maghsul_backend.Auth.Digits.{Text}
use maghsul_backend.Auth.Invitations.Tables.{
  Invitation, superseded, accepted, Desk, InviteEvent, InviteDraw, is_pending_for, set_invitation,
  has_invitation, announce, publish,
}
use maghsul_backend.Auth.Invitations.{new_invitation, insert_invitation, revoke_invitation_row}
use maghsul_backend.Auth.Invitations.Accept.{is_pending_at, take_invitation}
use maghsul_backend.Auth.Invitations.Kept.{
  single, Closes, single-update_where, ended-update_where, single-append, ended-append,
}

-- The invitation `i` that is not pending never becomes pending again, and two pending invitations of a
-- laundry are never for one phone.
pub record Upholds (i : ℕ) (s s' : Desk) : Type 0 where
  pub ended :
      any (is_pending_at i) s.invitations ≡ false → any (is_pending_at i) s'.invitations ≡ false
  pub singles : single s.invitations ≡ true → single s'.invitations ≡ true

module _ (i : ℕ) where
  pub Upholds-IsPreorder : IsPreorder (Upholds i)
  Upholds-IsPreorder = record {
    same = λ s. record { ended = λ h. h; singles = λ h. h };
    after = λ a b c p q. record {
      ended = λ h. q.ended (p.ended h);
      singles = λ h. q.singles (p.singles h);
    };
  }

  same_table : (s s' : Desk) → s'.invitations ≡ s.invitations → Upholds i s s'
  same_table s s' e = record { ended = λ h. rw e h; singles = λ h. rw e h }

  pub quiet-Upholds :
      (f : Desk → Desk)
      → ((s : Desk) → (f s).invitations ≡ s.invitations)
      → Keeps (Upholds i) (modify f)
  quiet-Upholds f e = record { kept = λ s. same_table s (f s) (e s) }

  Closes-Upholds :
      (p : Invitation → Bool) (f : Invitation → Invitation) (s s' : Desk)
      → Closes f
      → s'.invitations ≡ update_where p f s.invitations
      → Upholds i s s'
  Closes-Upholds p f s s' c e = record {
    ended = λ h. rw e (ended-update_where f c p i s.invitations h);
    singles = λ h. rw e (single-update_where f c p s.invitations h);
  }

  revoke_row-Closes : (now : ℕ) (reason : String) → Closes (revoke_invitation_row now reason)
  revoke_row-Closes now reason = record {
    id = λ inv. refl;
    washer = λ inv. refl;
    phone = λ inv. refl;
    status = λ inv h. refl;
  }

  pub revoke_row-Upholds :
      (j now : ℕ) (reason : String)
      → Keeps (Upholds i) (modify (set_invitation j (revoke_invitation_row now reason)))
  revoke_row-Upholds j now reason = record {
    kept = λ s.
        Closes-Upholds (has_invitation j) (revoke_invitation_row now reason) s _
          (revoke_row-Closes now reason) refl;
  }

  pub supersede-Upholds :
      (j : ℕ)
      → Keeps (Upholds i) (modify (set_invitation j (λ x. record x { status = superseded })))
  supersede-Upholds j = record {
    kept = λ s.
        Closes-Upholds (has_invitation j) (λ x. record x { status = superseded }) s _
          (record {
            id = λ inv. refl;
            washer = λ inv. refl;
            phone = λ inv. refl;
            status = λ inv h. refl;
          })
          refl;
  }

  pub publish-Upholds : (e : InviteEvent) → Keeps (Upholds i) (modify (publish e))
  publish-Upholds e = quiet-Upholds (publish e) (λ s. refl)

  announce_table :
      (e : InviteEvent) (s : Desk) → (final_state (announce e s)).invitations ≡ s.invitations
  unfolding announce
  announce_table e s = ground arith

  pub announce-Upholds : (e : InviteEvent) → Keeps (Upholds i) (announce e)
  announce-Upholds e = record { kept = λ s. same_table s _ (announce_table e s) }

  taken_table : (j now : ℕ) (s : Desk) → Upholds i s (final_state (take_invitation j now s))
  unfolding take_invitation
  taken_table j now s = elim (Bool-cases (any (is_pending_at j) s.invitations)) [
    | inr none_left ↦ same_table s _ (ground arith)
    | inl live ↦
        Closes-Upholds (is_pending_at j)
          (λ inv. record inv { status = accepted; accepted_at = some now }) s _
          (record {
            id = λ inv. refl;
            washer = λ inv. refl;
            phone = λ inv. refl;
            status = λ inv h. refl;
          })
          (ground arith)
  ]

  pub take-Upholds : (j now : ℕ) → Keeps (Upholds i) (take_invitation j now)
  take-Upholds j now = record { kept = taken_table j now }

  inserted :
      (inv : Invitation) (s : Desk)
      → inv.id ≢ i
      → Upholds i s (final_state (insert_invitation inv s))
  unfolding insert_invitation
  inserted inv s n =
      elim (Bool-cases (any (is_pending_for inv.washer_id inv.phone) s.invitations)) [
        | inl taken ↦ same_table s _ (ground arith)
        | inr free ↦
            let e : (final_state (insert_invitation inv s)).invitations
                ≡ s.invitations ++ inv ∷ [] =
              ground arith in
            record {
              ended = λ h. rw e (ended-append i inv s.invitations h n);
              singles = λ h. rw e (single-append inv s.invitations h free);
            }
      ]

  -- The identifiers of new invitations are other ones.
  module _ (d : InviteDraw) (fresh : d.invitation_id ≢ i) where
    pub insert-Upholds :
        (hash : ℕ → ℕ) (washer : ℕ) (phone : Text) (role : Role) (branches : List ℕ)
        (inviter : StaffMember) (sent resends : ℕ)
        → Keeps (Upholds i) (
            insert_invitation
              (new_invitation hash washer phone role branches inviter sent resends d))
    insert-Upholds hash washer phone role branches inviter sent resends = record {
      kept = λ s.
          inserted (new_invitation hash washer phone role branches inviter sent resends d) s fresh;
    }
