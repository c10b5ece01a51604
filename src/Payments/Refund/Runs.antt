-- ===== src/Payments/Refund/Runs.antt =====
-- What a run of src/modules/payments/refund.service.js leaves in the tables of refunds and payments.
use mathlib.Core.Path.{subst}
use maghsul_backend.Base.{
  ℕ, ℤ, pos, ◌+ℤ◌, ◌≤ℤ◌, ltb_ℤ, ltb_ℤ-false, ◌≡◌, refl, ap, sym, ◌∙◌, ◌⊎◌, inl, inr, Bool, true,
  false, ◌&&◌, Option, some, [], ◌∷◌, ◌++◌, ◌==◌, is_some, any, find, update_where, Outcome, done,
  thrown, update_where-append_fresh, arith, Outcome-cases, Bool-cases, Option-cases, ApiError,
  opt_eq, ==_refl, final_state,
}
use maghsul_backend.Orders.StateMachine.{Actor}
use maghsul_backend.Store.{Store, Env, Order, Payment, Refund, RefundStatus}
use maghsul_backend.Store
use maghsul_backend.Store.{RealtimeEvent, find_order}
use maghsul_backend.Store.Realtime.{safe_create_event}
use maghsul_backend.Store.Frame.{SameRows, SameRows-trans, create-SameRows}
use maghsul_backend.Payments.Service.{set_payment_status, send_notice}
use maghsul_backend.Payments.Service.Laws.{send_notice-SameRows}
use maghsul_backend.Payments.Webhook.{customer_identity}
use maghsul_backend.Payments.Refund.{
  cumulative, reserve, refund_amount, RefundAnswer, call_provider, complete, process_order_refund,
  set_refund, has_refund_id, may_refund, refund_payment, new_refund, is_paid_of, set_payment,
  is_fully_refunded,
}

-- A state reached before the payment is touched.
module _ (payment : Payment) (order : Order) (amount : ℤ) (env : Env) (s : Store) where
  abbrev pub new_row : RefundStatus → Refund
  new_row mark = new_refund payment order amount mark env

  -- The refunds of `s'` are those of `s` and the new one, under some mark.
  abbrev pub Adding : Store → Type 0
  Adding s' =
      (mark : RefundStatus) × (s'.refunds ≡ s.refunds ++ new_row mark ∷ [])
      × ((s'.payments ≡ s.payments)
          ⊎ (s'.payments ≡ (set_payment payment.id Store.PaymentStatus.refunded s).payments))

  reserve_done :
      (taken : ℤ) (s' : Store)
      → reserve payment order amount env s ≡ done taken s'
      → (cumulative payment.id s.refunds +ℤ amount ≤ℤ pos payment.amount)
        × (s'.refunds ≡ s.refunds ++ new_row Store.RefundStatus.pending ∷ [])
        × (s'.payments ≡ s.payments)
        × (taken ≡ cumulative payment.id s.refunds)
  unfolding reserve
  reserve_done taken s' h =
      elim (Bool-cases (ltb_ℤ (pos payment.amount) (cumulative payment.id s.refunds +ℤ amount))) [
        | inl t ↦ absurd (ground arith)
        | inr n ↦ (
          ltb_ℤ-false (pos payment.amount) (cumulative payment.id s.refunds +ℤ amount) n,
          ground arith,
          ground arith,
          ground arith,
        )
      ]

  -- Marking the new refund.
  mark_new :
      (old mark : RefundStatus)
      → any (has_refund_id (env.new_id 0)) s.refunds ≡ false
      → update_where
          (has_refund_id (env.new_id 0))
          (λ r. record r { status = mark })
          (s.refunds ++ new_row old ∷ [])
        ≡ s.refunds ++ new_row mark ∷ []
  mark_new old mark fresh =
      rw
        (
          update_where-append_fresh (has_refund_id (env.new_id 0)) (λ r. record r { status = mark })
              s.refunds (new_row old) fresh,
          ==_refl (env.new_id 0),
        )
        refl

  module _ (s1 : Store) (fresh : any (has_refund_id (env.new_id 0)) s.refunds ≡ false)
      (reserved : s1.refunds ≡ s.refunds ++ new_row Store.RefundStatus.pending ∷ [])
      (kept : s1.payments ≡ s.payments) where
    marked :
        (mark : RefundStatus)
        → (set_refund (env.new_id 0) mark s1).refunds ≡ s.refunds ++ new_row mark ∷ []
    marked mark = rw reserved (mark_new Store.RefundStatus.pending mark fresh)

    call_provider_done :
        (answer : RefundAnswer) (s2 : Store)
        → call_provider payment (env.new_id 0) answer s1 ≡ done tt s2
        → s2 ≡ s1
    unfolding call_provider
    call_provider_done answer s2 h = ground arith

    call_provider_thrown :
        (answer : RefundAnswer) (e : ApiError) (s2 : Store)
        → call_provider payment (env.new_id 0) answer s1 ≡ thrown e s2
        → s2 ≡ set_refund (env.new_id 0) Store.RefundStatus.failed s1
    unfolding call_provider
    call_provider_thrown answer e s2 h = ground arith

    abbrev refunded_event : RealtimeEvent
    refunded_event = record {
      event_key = Store.EventKey.refund_key (env.new_id 0) env.now;
      event_type = Store.EventType.payment_refunded;
      aggregate_type = Store.AggregateType.payment_aggregate;
      aggregate_id = payment.id;
    }

    abbrev closed : Bool → Store
    closed true = set_payment_status order.id Store.PaymentStatus.refunded (
        set_payment payment.id Store.PaymentStatus.refunded
          (set_refund (env.new_id 0) Store.RefundStatus.completed s1))
    closed false = set_refund (env.new_id 0) Store.RefundStatus.completed s1

    closed-Adding : (fully : Bool) (s2 : Store) → SameRows (closed fully) s2 → Adding s2
    closed-Adding true s2 same = (
      Store.RefundStatus.completed,
      same.refunds ∙ marked Store.RefundStatus.completed,
      inr (
          same.payments
          ∙ ap
              (λ t.
                update_where (λ p. p.id == payment.id)
                  (λ p. record p { status = Store.PaymentStatus.refunded }) t)
              kept),
    )
    closed-Adding false s2 same = (
      Store.RefundStatus.completed,
      same.refunds ∙ marked Store.RefundStatus.completed,
      inl (same.payments ∙ kept),
    )

    complete_done :
        (fully : Bool) (s2 : Store)
        → complete payment order (env.new_id 0) fully env s1 ≡ done tt s2
        → Adding s2
    unfolding complete
    complete_done true s2 h =
        elim (Outcome-cases (safe_create_event refunded_event (closed true))) [
          | inl (u, s3, w) ↦ closed-Adding true s2 (
              SameRows-trans (closed true) s3 s2 (create-SameRows refunded_event (closed true) s3 w)
                (ground arith))
          | inr (e, s3, w) ↦ absurd (ground arith)
        ]
    complete_done false s2 h =
        elim (Outcome-cases (safe_create_event refunded_event (closed false))) [
          | inl (u, s3, w) ↦ closed-Adding false s2 (
              SameRows-trans (closed false) s3 s2
                (create-SameRows refunded_event (closed false) s3 w) (ground arith))
          | inr (e, s3, w) ↦ absurd (ground arith)
        ]

module _ (payment : Payment) (order : Order) (amount : ℤ) (env : Env) (s : Store) where
  -- A run on a payment: nothing is written to the two tables, or a refund is added that fits.
  abbrev pub RanOn : Store → Type 0
  RanOn s' =
      ((s'.refunds ≡ s.refunds) × (s'.payments ≡ s.payments))
      ⊎ ((cumulative payment.id s.refunds +ℤ amount ≤ℤ pos payment.amount)
          × Adding payment order amount env s s')

  unreserved :
      (identity : Option ℕ) (answer : RefundAnswer) (e : ApiError) (s1 : Store)
      → reserve payment order amount env s ≡ thrown e s1
      → final_state (refund_payment payment order identity amount answer env s) ≡ s
  unfolding refund_payment
  unreserved identity answer e s1 w = ground arith

  module _ (identity : Option ℕ) (answer : RefundAnswer) (taken : ℤ) (s1 : Store)
      (w : reserve payment order amount env s ≡ done taken s1) where
    abbrev close_it : Store → Outcome Store (Unit {0})
    close_it = complete payment order (env.new_id 0) (is_fully_refunded payment taken amount) env

    abbrev told : Store → Store
    told s3 = send_notice identity order.id "payment_refunded" s3

    uncalled :
        (e : ApiError) (s2 : Store)
        → call_provider payment (env.new_id 0) answer s1 ≡ thrown e s2
        → final_state (refund_payment payment order identity amount answer env s) ≡ s2
    unfolding refund_payment
    uncalled e s2 c = ground arith

    unclosed :
        (e : ApiError) (s2 s3 : Store)
        → call_provider payment (env.new_id 0) answer s1 ≡ done tt s2
        → close_it s2 ≡ thrown e s3
        → final_state (refund_payment payment order identity amount answer env s) ≡ s2
    unfolding refund_payment
    unclosed e s2 s3 c d = ground arith

    closed_run :
        (s2 s3 : Store)
        → call_provider payment (env.new_id 0) answer s1 ≡ done tt s2
        → close_it s2 ≡ done tt s3
        → final_state (refund_payment payment order identity amount answer env s) ≡ told s3
    unfolding refund_payment
    closed_run s2 s3 c d = ground arith

  module _ (identity : Option ℕ) (answer : RefundAnswer)
      (fresh : any (has_refund_id (env.new_id 0)) s.refunds ≡ false) where
    called-RanOn :
        (taken : ℤ) (s1 : Store)
        → reserve payment order amount env s ≡ done taken s1
        → RanOn (final_state (refund_payment payment order identity amount answer env s))
    called-RanOn taken s1 w =
        let (fits, rows, kept, sum) = reserve_done payment order amount env s taken s1 w in
        elim (Outcome-cases (call_provider payment (env.new_id 0) answer s1)) [
          | inr (e, s2, c) ↦
              let last =
                uncalled identity answer taken s1 w e s2 c
                ∙ call_provider_thrown payment order amount env s s1 fresh rows kept answer e s2
                    c in
              subst RanOn (sym last) (
                inr (
                  fits,
                  (
                    Store.RefundStatus.failed,
                    marked payment order amount env s s1 fresh rows kept Store.RefundStatus.failed,
                    inl kept,
                  ),
                ))
          | inl (u, s2, c) ↦
              let same =
                call_provider_done payment order amount env s s1 fresh rows kept answer s2 c in
              elim (Outcome-cases (close_it identity answer taken s1 w s2)) [
                | inr (e, s3, d) ↦
                    subst RanOn (sym (unclosed identity answer taken s1 w e s2 s3 c d ∙ same))
                      (inr (fits, (Store.RefundStatus.pending, rows, inl kept)))
                | inl (v, s3, d) ↦
                    let (mark, added, paid_rows) =
                      complete_done payment order amount env s s1 fresh rows kept
                        (is_fully_refunded payment taken amount) s3
                        (subst (λ x. close_it identity answer taken s1 w x ≡ done tt s3) same d) in
                    let quiet = send_notice-SameRows identity order.id "payment_refunded" s3 in
                    subst RanOn (sym (closed_run identity answer taken s1 w s2 s3 c d))
                      (inr (fits, (mark, quiet.refunds ∙ added, rw (quiet.payments) paid_rows)))
              ]
        ]

    refund_payment-RanOn :
        RanOn (final_state (refund_payment payment order identity amount answer env s))
    refund_payment-RanOn = elim (Outcome-cases (reserve payment order amount env s)) [
      | inr (e, s1, w) ↦ subst RanOn (sym (unreserved identity answer e s1 w)) (inl (refl, refl))
      | inl (taken, s1, w) ↦ called-RanOn taken s1 w
    ]

-- A run leaves the tables, or adds a refund that fits what its payment has left.
abbrev pub RanFor : Option ℤ → ℕ → Env → Store → Store → Type 0
RanFor wanted order_id env s s' =
    ((s'.refunds ≡ s.refunds) × (s'.payments ≡ s.payments))
    ⊎ ((order : Order) × (payment : Payment) × (find (is_paid_of order_id) s.payments
          ≡ some payment)
        × RanOn payment order (refund_amount wanted order) env s s')

pub process_order_refund-RanFor :
    (user : Actor) (i : ℕ) (wanted : Option ℤ) (answer : RefundAnswer) (env : Env) (s : Store)
    → any (has_refund_id (env.new_id 0)) s.refunds ≡ false
    → RanFor wanted i env s (final_state (process_order_refund user i wanted answer env s))
unfolding process_order_refund
process_order_refund-RanFor user i wanted answer env s fresh =
    elim (Bool-cases (is_some user.washer_id && may_refund user.role)) [
      | inr forbidden ↦ rw forbidden (inl (refl, refl))
      | inl may ↦ elim (Option-cases (find_order i s)) [
        | inl missing ↦ rw (may, missing) (inl (refl, refl))
        | inr (order, found) ↦ elim (Bool-cases (opt_eq user.washer_id (some order.washer_id))) [
          | inr elsewhere ↦ rw (may, found, elsewhere) (inl (refl, refl))
          | inl here ↦ elim (Option-cases (find (is_paid_of i) s.payments)) [
            | inl nothing ↦ rw (may, found, here, nothing) (inl (refl, refl))
            | inr (payment, paid_one) ↦
                rw (may, found, here, paid_one)
                  (inr (
                    order,
                    payment,
                    refl,
                    refund_payment-RanOn payment order (refund_amount wanted order) env s
                        (customer_identity order s) answer fresh,
                  ))
          ]
        ]
      ]
    ]
