-- ===== src/Auth/Invitations/Kept.antt =====
-- What every call of src/modules/auth/services/staff-invitation.service.js keeps.
use maghsul_backend.Base.{
  ℕ, ◌≡◌, ◌≢◌, refl, inl, inr, Bool, true, false, not, ◌&&◌, List, [], ◌∷◌, ◌++◌, any, update_where,
  on, arith, Bool-cases,
}
use maghsul_backend.Auth.Digits.{Text, text_eq}
use maghsul_backend.Auth.Invitations.Tables.{Invitation, is_pending, is_pending_for}
use maghsul_backend.Auth.Invitations.Accept.{is_pending_at}

-- No two pending invitations of a laundry are for one phone.
unfoldable pub single : List Invitation → Bool
single [] = true
single (inv ∷ invs) =
    not (is_pending inv.status && any (is_pending_for inv.washer_id inv.phone) invs) && single invs

text_eq_sym : (a b : Text) → text_eq a b ≡ text_eq b a
unfolding text_eq
text_eq_sym [] [] = refl
text_eq_sym [] (y ∷ ys) = refl
text_eq_sym (x ∷ xs) [] = refl
text_eq_sym (x ∷ xs) (y ∷ ys) = ground (arith, text_eq_sym xs ys)

-- A write that makes no invitation pending and keeps its laundry and phone.
pub record Closes (f : Invitation → Invitation) : Type 0 where
  pub id : (inv : Invitation) → (f inv).id ≡ inv.id
  pub washer : (inv : Invitation) → (f inv).washer_id ≡ inv.washer_id
  pub phone : (inv : Invitation) → (f inv).phone ≡ inv.phone
  pub status :
      (inv : Invitation) → is_pending inv.status ≡ false → is_pending (f inv).status ≡ false

module _ (f : Invitation → Invitation) (c : Closes f) (p : Invitation → Bool) where
  pending_kept :
      (w : ℕ) (t : Text) (inv : Invitation)
      → is_pending_for w t inv ≡ false
      → is_pending_for w t (on p f inv) ≡ false
  pending_kept w t inv h = elim (Bool-cases (p inv)) [
    | inr out ↦ rw out h
    | inl hit ↦ rw hit (rw (c.washer inv, c.phone inv) (ground (arith, c.status inv)))
  ]

  none_pending_kept :
      (w : ℕ) (t : Text) (invs : List Invitation)
      → any (is_pending_for w t) invs ≡ false
      → any (is_pending_for w t) (update_where p f invs) ≡ false
  none_pending_kept w t [] h = refl
  none_pending_kept w t (inv ∷ invs) h =
      ground (arith, pending_kept w t inv, none_pending_kept w t invs)

  single_head :
      (inv : Invitation) (invs : List Invitation)
      → (is_pending inv.status && any (is_pending_for inv.washer_id inv.phone) invs) ≡ false
      → (is_pending (on p f inv).status
          && any (is_pending_for (on p f inv).washer_id (on p f inv).phone) (update_where p f invs))
        ≡ false
  single_head inv invs h =
      let same_washer : (on p f inv).washer_id ≡ inv.washer_id = ground (arith, c.washer inv) in
      let same_phone' : (on p f inv).phone ≡ inv.phone = ground (arith, c.phone inv) in
      rw (same_washer, same_phone')
        (elim (Bool-cases (is_pending inv.status)) [
          | inr over ↦
              let still : is_pending (on p f inv).status ≡ false = ground (arith, c.status inv) in
              rw still refl
          | inl live ↦
              let none_else = none_pending_kept inv.washer_id inv.phone invs in
              ground (arith, none_else)
        ])

  pub single-update_where :
      (invs : List Invitation) → single invs ≡ true → single (update_where p f invs) ≡ true
  unfolding single
  single-update_where [] h = refl
  single-update_where (inv ∷ invs) h =
      ground (arith, single_head inv invs, single-update_where invs)

  pub ended-update_where :
      (i : ℕ) (invs : List Invitation)
      → any (is_pending_at i) invs ≡ false
      → any (is_pending_at i) (update_where p f invs) ≡ false
  ended-update_where i [] h = refl
  ended-update_where i (inv ∷ invs) h =
      ground (arith, c.id inv, c.status inv, ended-update_where i invs)

-- A pending invitation may be added where no other of its laundry and phone is pending.
apart :
    (inv x : Invitation)
    → is_pending_for inv.washer_id inv.phone x ≡ false
    → is_pending x.status ≡ true
    → is_pending_for x.washer_id x.phone inv ≡ false
apart inv x h k = let s = text_eq_sym inv.phone x.phone in ground arith

none_apart :
    (inv x : Invitation) (invs : List Invitation)
    → any (is_pending_for x.washer_id x.phone) invs ≡ false
    → is_pending_for x.washer_id x.phone inv ≡ false
    → any (is_pending_for x.washer_id x.phone) (invs ++ inv ∷ []) ≡ false
none_apart inv x [] h k = ground arith
none_apart inv x (y ∷ ys) h k = ground (arith, none_apart inv x ys)

pub single-append :
    (inv : Invitation) (invs : List Invitation)
    → single invs ≡ true
    → any (is_pending_for inv.washer_id inv.phone) invs ≡ false
    → single (invs ++ inv ∷ []) ≡ true
unfolding single
single-append inv [] h k = ground arith
single-append inv (x ∷ xs) h k = elim (Bool-cases (is_pending x.status)) [
  | inr over ↦ rw over (ground (arith, single-append inv xs))
  | inl live ↦ ground (arith, single-append inv xs, apart inv x, none_apart inv x xs)
]

pub ended-append :
    (i : ℕ) (inv : Invitation) (invs : List Invitation)
    → any (is_pending_at i) invs ≡ false
    → inv.id ≢ i
    → any (is_pending_at i) (invs ++ inv ∷ []) ≡ false
ended-append i inv [] h n = ground arith
ended-append i inv (x ∷ xs) h n = ground (arith, ended-append i inv xs)
