-- ===== src/Payments/Refund/Bounds.antt =====
-- The bound on refunds: src/modules/payments/refund.service.js.
use mathlib.Core.Path.{subst}
use maghsul_backend.Base.{
  ℕ, ℤ, pos, negsuc, pos_part, neg_part, ◌+ℤ◌, ◌≤ℤ◌, +ℤ_parts, ◌+◌, ◌≡◌, refl, sym, ◌∙◌, inl, inr,
  Bool, true, false, Option, none, some, List, [], ◌∷◌, ◌++◌, ◌==◌, any, find, All, All-append,
  All-zip, All-map, All-update_where, arith, Bool-cases, find-All, final_state,
}
use maghsul_backend.Orders.StateMachine.{Actor}
use maghsul_backend.Store.{Store, Env, Order, Payment, Refund, RefundStatus}
use maghsul_backend.Store
use maghsul_backend.Store.{RealtimeEvent, find_order}
use maghsul_backend.Payments.Refund.{
  cumulative, counts, refund_amount, RefundAnswer, process_order_refund, has_refund_id, new_refund,
  is_paid_of,
}
use maghsul_backend.Payments.Refund.Runs.{Adding, process_order_refund-RanFor}

-- One more refund that counts adds its amount; one that does not count adds nothing.
module _ (pid : ℕ) (r : Refund) where
  abbrev Adds : List Refund → Type 0
  Adds rs =
      pos_part (cumulative pid (rs ++ r ∷ [])) + neg_part (cumulative pid rs) + neg_part r.amount
      ≡ neg_part (cumulative pid (rs ++ r ∷ [])) + pos_part (cumulative pid rs) + pos_part r.amount

  cumulative-append : (rs : List Refund) → counts pid r ≡ true → Adds rs
  unfolding cumulative
  cumulative-append [] h = rw h (omega (arith, +ℤ_parts r.amount (pos 0)))
  cumulative-append (x ∷ rs) h = elim (Bool-cases (counts pid x)) [
    | inl t ↦ rw t (
        omega (
          arith,
          cumulative-append rs h,
          +ℤ_parts x.amount (cumulative pid rs),
          +ℤ_parts x.amount (cumulative pid (rs ++ r ∷ [])),
        ))
    | inr n ↦ rw n (cumulative-append rs h)
  ]

  cumulative-append_other :
      (rs : List Refund) → counts pid r ≡ false → cumulative pid (rs ++ r ∷ []) ≡ cumulative pid rs
  unfolding cumulative
  cumulative-append_other [] h = rw h refl
  cumulative-append_other (x ∷ rs) h = rw (cumulative-append_other rs h) refl

-- The refunds of a payment that are completed or reserved are within its amount.
abbrev pub Within : List Refund → Payment → Type 0
Within refunds p = cumulative p.id refunds ≤ℤ pos p.amount

abbrev pub Covered : Store → Type 0
Covered s = All (Within s.refunds) s.payments

-- No refund is negative.
abbrev pub IsNonNegative : Refund → Type 0
IsNonNegative r = neg_part r.amount ≡ 0

abbrev pub IsBounded : Store → Type 0
IsBounded s = Covered s × All IsNonNegative s.refunds

-- The amount of a request is missing or not negative.
abbrev pub IsAmount : Option ℤ → Type 0
IsAmount none = Unit
IsAmount (some a) = neg_part a ≡ 0

amount_IsNonNegative :
    (wanted : Option ℤ) (order : Order)
    → IsAmount wanted
    → neg_part (refund_amount wanted order) ≡ 0
amount_IsNonNegative none order h = refl
amount_IsNonNegative (some (pos a)) order h = elim (Bool-cases (a == 0)) [
  | inl zero_asked ↦ rw zero_asked refl
  | inr some_asked ↦ rw some_asked refl
]
amount_IsNonNegative (some (negsuc a)) order h = h

-- A payment is found under its key.
abbrev pub has_payment_id : ℕ → Payment → Bool
has_payment_id i p = p.id == i

abbrev pub IsKeyed : List Payment → Type 0
IsKeyed payments = All (λ p. find (has_payment_id p.id) payments ≡ some p) payments

module _ (refunds : List Refund) (r : Refund) (payment : Payment) (payments : List Payment) where
  -- A refund within what is left of its payment.
  abbrev Fits : Type 0
  Fits =
      (r.payment_id ≡ payment.id)
      × (find (has_payment_id payment.id) payments ≡ some payment)
      × (cumulative payment.id refunds +ℤ r.amount ≤ℤ pos payment.amount)

  Within-append :
      Fits
      → (q : Payment) → Within refunds q × (find (has_payment_id q.id) payments ≡ some q)
      → Within (refunds ++ r ∷ []) q
  Within-append (owner, found, fits) q (within, keyed) = elim (Bool-cases (counts q.id r)) [
    | inr n ↦ rw (cumulative-append_other q.id r refunds n) within
    | inl t ↦
        let same_id : q.id ≡ payment.id = ground (arith, owner) in
        let keyed' : find (has_payment_id payment.id) payments ≡ some q =
          subst (λ k. find (has_payment_id k) payments ≡ some q) same_id keyed in
        let row : some q ≡ some payment = sym keyed' ∙ found in
        let same : q ≡ payment = cc in
        subst (λ p. Within (refunds ++ r ∷ []) p) (sym same)
          (omega (
            arith,
            added (rw same_id at t),
            fits,
            +ℤ_parts (cumulative payment.id refunds) r.amount,
          ))
  ]
    where
      added : counts payment.id r ≡ true → Adds payment.id r refunds
      added t = cumulative-append payment.id r refunds t

  All-Within-append :
      Fits
      → IsKeyed payments
      → All (Within refunds) payments
      → All (Within (refunds ++ r ∷ [])) payments
  All-Within-append fits keyed within = All-map _ _ (Within-append fits) payments (
      All-zip (Within refunds) (λ q. find (has_payment_id q.id) payments ≡ some q) payments within
        keyed)

-- A refund that fits its payment keeps every payment covered, whatever its mark is afterwards: one
-- that failed no longer counts.
module _ (user : Actor) (i : ℕ) (wanted : Option ℤ) (answer : RefundAnswer) (env : Env) (s : Store)
    (fresh : any (has_refund_id (env.new_id 0)) s.refunds ≡ false)
    (keyed : IsKeyed s.payments) where
  added-Covered :
      (payment : Payment) (order : Order) (s' : Store)
      → find (is_paid_of i) s.payments ≡ some payment
      → cumulative payment.id s.refunds +ℤ refund_amount wanted order ≤ℤ pos payment.amount
      → Adding payment order (refund_amount wanted order) env s s'
      → Covered s
      → Covered s'
  added-Covered payment order s' paid_one fits (mark, rows, payments) covered =
      let by_key =
        find-All (λ p. find (has_payment_id p.id) s.payments ≡ some p) (is_paid_of i) s.payments
          payment keyed paid_one in
      let all =
        All-Within-append s.refunds (new_refund payment order (refund_amount wanted order) mark env)
          payment s.payments (refl, by_key, fits) keyed covered in
      elim payments [
        | inl same ↦ rw (rows, same) all
        | inr marked ↦
            rw (rows, marked)
              (All-update_where
                (Within (
                  s.refunds ++ new_refund payment order (refund_amount wanted order) mark env ∷ []))
                (λ p. p.id == payment.id) (λ p. record p { status = Store.PaymentStatus.refunded })
                (λ p h. h) s.payments all)
      ]

  -- The signed sums stay within the amounts whatever is asked; a negative refund makes room for others.
  pub process_order_refund-Covered :
      Covered s → Covered (final_state (process_order_refund user i wanted answer env s))
  process_order_refund-Covered covered =
      elim (process_order_refund-RanFor user i wanted answer env s fresh) [
        | inl (rows, payments) ↦ rw (rows, payments) covered
        | inr (order, payment, paid_one, inl (rows, payments)) ↦ rw (rows, payments) covered
        | inr (order, payment, paid_one, inr (fits, adding)) ↦
            added-Covered payment order
              (final_state (process_order_refund user i wanted answer env s)) paid_one fits adding
              covered
      ]

  row_IsNonNegative :
      (payment : Payment) (order : Order) (mark : RefundStatus)
      → IsAmount wanted
      → IsNonNegative (new_refund payment order (refund_amount wanted order) mark env)
  row_IsNonNegative payment order mark h = amount_IsNonNegative wanted order h

  process_order_refund-IsNonNegative :
      IsAmount wanted
      → All IsNonNegative s.refunds
      → All IsNonNegative (final_state (process_order_refund user i wanted answer env s)).refunds
  process_order_refund-IsNonNegative asked positive =
      elim (process_order_refund-RanFor user i wanted answer env s fresh) [
        | inl (rows, payments) ↦ rw rows positive
        | inr (order, payment, paid_one, inl (rows, payments)) ↦ rw rows positive
        | inr (order, payment, paid_one, inr (fits, (mark, rows, payments))) ↦ rw rows (
            All-append IsNonNegative s.refunds
              (new_refund payment order (refund_amount wanted order) mark env ∷ []) positive
              (row_IsNonNegative payment order mark asked, tt))
      ]

  -- A refund that is asked for without an amount, or with one that is not negative, keeps the books of
  -- refunds: no refund is negative, and for every payment the sum of those that are completed or
  -- reserved is within its amount. It holds for every answer of the provider and at whatever place the
  -- run ends. The refund has a new identifier, and payments have one key each. (A negative amount is
  -- not refused: it would count against the others.)
  pub process_order_refund-IsBounded :
      IsAmount wanted
      → IsBounded s
      → IsBounded (final_state (process_order_refund user i wanted answer env s))
  process_order_refund-IsBounded asked (covered, positive) =
      (process_order_refund-Covered covered, process_order_refund-IsNonNegative asked positive)
