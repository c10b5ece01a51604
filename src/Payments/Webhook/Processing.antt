-- ===== src/Payments/Webhook/Processing.antt =====
-- The processing of a webhook: `processWebhookEvent` and its branches in
-- src/modules/payments/webhook-processor.service.js.
use maghsul_backend.Base.{
  ℕ, ◌≡◌, refl, ap, ◌∙◌, ◌≢◌, ◌⊎◌, inl, inr, Bool, true, false, Option, none, some, or_else, find,
  done, arith, Outcome-cases, Verdict-cases, Bool-cases, Option-cases, Result, ok, ==_refl, ==_iff,
  find-update_where, find_sound,
}
use maghsul_backend.Orders.StateMachine.{
  payment_confirmed, status, webhook_payment_confirm, assert_order_transition,
}
use maghsul_backend.Orders.StateMachine.Access.{
  assert_order_transition_iff, idempotent_iff, Permitted-Edge,
}
use maghsul_backend.Orders.StateMachine.Matrix.{Edge}
use maghsul_backend.Store.{
  Store, Env, Order, view, PaymentStatus, paid, Payment, find_order, has_order_id, WebhookEvent,
  WebhookEventType, payment_paid, payment_captured, payment_authorized, payment_failed,
  payment_abandoned, other_event,
}
use maghsul_backend.Store
use maghsul_backend.Store.Frame.{find_order_at_id}
use maghsul_backend.Payments.Service.{send_notice}
use maghsul_backend.Payments.Service.Laws.{send_notice-SameRows}
use maghsul_backend.Payments.Webhook.{
  paid_writes, amount_or, is_moyasar, confirm_payment, Answer, already_processed, processed,
  amount_differs, not_sar, system_actor, customer_identity, has_webhook_id, is_processed,
  process_payment_paid, process_payment_failed, dispatch, process_webhook_event, locate_order,
  order_of_payment,
}
use maghsul_backend.Payments.Webhook.Paid.{
  Confirmed, paid_writes-Confirmed, Confirmed-row, Confirmed-payment,
}

-- What a confirmation has checked.
pub record Checked (e : WebhookEvent) (order : Order) : Type 0 where
  pub amount : (e.payload.amount ≡ none) ⊎ (e.payload.amount ≡ some order.total_price)
  pub step : (order.status ≡ payment_confirmed) ⊎ Edge order.status payment_confirmed

amount_agrees :
    (a : Option ℕ) (total : ℕ) → amount_differs a total ≡ false → (a ≡ none) ⊎ (a ≡ some total)
amount_agrees none total h = inl refl
amount_agrees (some a) total h = ground arith

module _ (order : Order) where
  abbrev verdict : Result Bool
  verdict =
      assert_order_transition (view order) (status payment_confirmed) (system_actor order)
        webhook_payment_confirm

  step_same : verdict ≡ ok true → order.status ≡ payment_confirmed
  step_same same =
      let e =
        (idempotent_iff (view order) (status payment_confirmed) (system_actor order)
            webhook_payment_confirm).0
          same in
      cc

  step_edge : verdict ≡ ok false → Edge order.status payment_confirmed
  step_edge passed =
      let (n, p) =
        (assert_order_transition_iff (view order) (status payment_confirmed) (system_actor order)
            webhook_payment_confirm).0
          passed in
      Permitted-Edge (view order) payment_confirmed (system_actor order) webhook_payment_confirm n p

module _ (e : WebhookEvent) (order : Order) (pid : ℕ) (env : Env) (s : Store) (a : Answer)
    (s' : Store) where
  confirm_payment_done :
      confirm_payment e order pid env s ≡ done a s'
      → (a ≡ processed) × Checked e order × Confirmed e order pid env s s'
  unfolding confirm_payment
  confirm_payment_done h =
      let assertion =
        assert_order_transition (view order) (status payment_confirmed) (system_actor order)
          webhook_payment_confirm in
      let sums : amount_differs e.payload.amount order.total_price ≡ false = ground arith in
      let riyal : not_sar e.payload.currency ≡ false = ground arith in
      elim (Outcome-cases (paid_writes e order pid env s)) [
        | inr (x, s1, w) ↦ elim (Verdict-cases assertion) [
          | inl same ↦ absurd (ground arith)
          | inr (inl other_status) ↦ absurd (ground arith)
          | inr (inr (y, refused)) ↦ absurd (ground arith)
        ]
        | inl (u, s1, w) ↦
            let kept =
              send_notice-SameRows (customer_identity order s) order.id "payment_paid" s1 in
            let c = paid_writes-Confirmed e order pid env s s1 w in
            let after : (a ≡ processed)
                × (s' ≡ send_notice (customer_identity order s) order.id "payment_paid" s1) =
              elim (Verdict-cases assertion) [
                | inl same ↦ ground arith
                | inr (inl other_status) ↦ ground arith
                | inr (inr (y, refused)) ↦ absurd (ground arith)
              ] in
            (
              after.0,
              record {
                amount = amount_agrees e.payload.amount order.total_price sums;
                step = elim (Verdict-cases assertion) [
                  | inl same ↦ inl (step_same order same)
                  | inr (inl other_status) ↦ inr (step_edge order other_status)
                  | inr (inr (y, refused)) ↦ absurd (ground arith)
                ];
              },
              rw (after.1) (record {
                orders = kept.orders ∙ c.orders;
                payments = kept.payments ∙ c.payments;
                invoices = kept.invoices ∙ c.invoices;
                events = kept.order_events ∙ c.events;
                webhooks = kept.webhooks ∙ c.webhooks;
                refunds = kept.refunds ∙ c.refunds;
              }),
            )
      ]

order_of_payment_at_id :
    (x : Option ℕ) (s : Store) (order : Order)
    → order_of_payment x s ≡ some order
    → find_order order.id s ≡ some order
order_of_payment_at_id none s order h = absurd (ground arith)
order_of_payment_at_id (some x) s order h = elim (Option-cases (find (is_moyasar x) s.payments)) [
  | inl missing ↦ absurd (ground arith)
  | inr (p, found) ↦ find_order_at_id p.order_id s order (ground arith)
]

pub locate_order_at_id :
    (e : WebhookEvent) (s : Store) (order : Order)
    → locate_order e s ≡ some order
    → find_order order.id s ≡ some order
unfolding locate_order
locate_order_at_id e s order h = elim (Option-cases e.payload.metadata_order_id) [
  | inl unnamed ↦ order_of_payment_at_id e.payment_external_id s order (ground arith)
  | inr (i, named) ↦ elim (Option-cases (find_order i s)) [
    | inl missing ↦ order_of_payment_at_id e.payment_external_id s order (ground arith)
    | inr (o, found) ↦ find_order_at_id i s order (ground arith)
  ]
]

-- What a processed payment event leaves.
pub record Paid (e : WebhookEvent) (env : Env) (s s' : Store) : Type 0 where
  pub order : Order
  pub pid : ℕ
  pub payment : Payment
  pub event_names : e.payload.payment_id ≡ some pid
  pub located : locate_order e s ≡ some order
  pub checked : Checked e order
  pub confirmed : Confirmed e order pid env s s'
  pub row :
      find_order order.id s'
      ≡ some (record order { status = payment_confirmed; payment_status = paid })
  pub recorded : find (is_moyasar pid) s'.payments ≡ some payment
  pub settled : payment.status ≡ paid
  pub amount : payment.amount ≡ amount_or e.payload.amount order.total_price

pub process_payment_paid_done :
    (e : WebhookEvent) (env : Env) (s : Store) (a : Answer) (s' : Store)
    → process_payment_paid e env s ≡ done a s'
    → (a ≡ processed) × Paid e env s s'
unfolding process_payment_paid
process_payment_paid_done e env s a s' h = elim (Option-cases e.payload.payment_id) [
  | inl missing ↦ absurd (ground arith)
  | inr (pid, names) ↦ elim (Option-cases (locate_order e s)) [
    | inl nowhere ↦ absurd (ground arith)
    | inr (order, located) ↦
        let (is_processed', checked, c) =
          confirm_payment_done e order pid env s a s' (ground arith) in
        let (p, recorded, settled, amount) = Confirmed-payment e order pid env s s' c in
        (
          is_processed',
          record {
            order = order;
            pid = pid;
            payment = p;
            event_names = names;
            located = located;
            checked = checked;
            confirmed = c;
            row = Confirmed-row e order pid env s s' (locate_order_at_id e s order located) c;
            recorded = recorded;
            settled = settled;
            amount = amount;
          },
        )
  ]
]

failed_answer :
    (e : WebhookEvent) (env : Env) (s s' : Store)
    → process_payment_failed e env s ≢ done processed s'
unfolding process_payment_failed
failed_answer e env s s' h = ground arith

dispatch_processed :
    (t : WebhookEventType) (e : WebhookEvent) (env : Env) (s s' : Store)
    → dispatch t e env s ≡ done processed s'
    → process_payment_paid e env s ≡ done processed s'
unfolding dispatch
dispatch_processed payment_paid e env s s' h = h
dispatch_processed payment_captured e env s s' h = h
dispatch_processed payment_authorized e env s s' h = h
dispatch_processed payment_failed e env s s' h = absurd (failed_answer e env s s' h)
dispatch_processed payment_abandoned e env s s' h = absurd (failed_answer e env s s' h)
dispatch_processed other_event e env s s' h = absurd (ground arith)

-- A processed event marks itself, so that a second processing finds it done and writes nothing.
process_again :
    (i : ℕ) (env : Env) (s : Store) (e : WebhookEvent)
    → find (has_webhook_id i) s.webhooks ≡ some e
    → is_processed e.processing_status ≡ true
    → process_webhook_event i env s ≡ done already_processed s
unfolding process_webhook_event
process_again i env s e found settled = ground arith

-- When an event is answered by "processed", its payment is confirmed once and for all: the order that
-- the event names is at `payment_confirmed` and paid, reached along the table or there before; the
-- provider's payment is recorded as paid with the amount of the event, which is the order's total if
-- the event names one; and a second processing of the event, at any time, answers
-- "already processed" and changes nothing.
pub process_webhook_event_processed :
    (i : ℕ) (env : Env) (s s' : Store)
    → process_webhook_event i env s ≡ done processed s'
    → (e : WebhookEvent) × (find (has_webhook_id i) s.webhooks ≡ some e)
      × Paid e env s s'
      × ((env' : Env) → process_webhook_event i env' s' ≡ done already_processed s')
unfolding process_webhook_event
process_webhook_event_processed i env s s' h =
    elim (Option-cases (find (has_webhook_id i) s.webhooks)) [
      | inl missing ↦ absurd (ground arith)
      | inr (e, found) ↦ elim (Bool-cases (is_processed e.processing_status)) [
        | inl before ↦ absurd (ground arith)
        | inr fresh ↦
            let (a, p) =
              process_payment_paid_done e env s processed s'
                (dispatch_processed e.event_type e env s s' (ground arith)) in
            let e_id = (==_iff e.id i).0 (find_sound (has_webhook_id i) s.webhooks e found) in
            (e, found, p, λ env'. process_again i env' s' (marked e) (again e found e_id p) refl)
      ]
    ]
  where
    marked : WebhookEvent → WebhookEvent
    marked e = record e {
      processing_status = Store.WebhookStatus.processed;
      last_error_code = or_else none e.last_error_code;
    }

    again :
        (e : WebhookEvent)
        → find (has_webhook_id i) s.webhooks ≡ some e
        → e.id ≡ i
        → Paid e env s s'
        → find (has_webhook_id i) s'.webhooks ≡ some (marked e)
    again e found e_id p =
        ap (find (has_webhook_id i)) p.confirmed.webhooks
        ∙ find-update_where (has_webhook_id i) (has_webhook_id e.id) marked (λ x. ground arith)
            s.webhooks
        ∙ rw (found, ==_refl e.id) refl
