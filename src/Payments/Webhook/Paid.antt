-- ===== src/Payments/Webhook/Paid.antt =====
-- A confirmed payment: `processPaymentPaid` of src/modules/payments/webhook-processor.service.js.
use maghsul_backend.Base.{
  ℕ, ◌≡◌, refl, ap, ◌∙◌, inl, inr, true, none, some, [], ◌∷◌, ◌++◌, any, find, update_where, done,
  ◌>>◌, arith, >>-eq-done, Bool-cases, ==_refl, find-update_where, any-find_missing,
  any-find_present, find-append, find_sound,
}
use maghsul_backend.Orders.StateMachine.{payment_confirmed}
use maghsul_backend.Orders.WasherStatus.{is_unmoved, status_event}
use maghsul_backend.Store.{
  Store, Env, Order, OrderEvent, view, PaymentStatus, paid, Payment, find_order, has_order_id,
  WebhookEvent, WebhookPayload, moyasar_id, moyasar, AuditLog, payment_entity, add_audit,
  add_order_event,
}
use maghsul_backend.Store
use maghsul_backend.Store.Frame.{create-SameRows, find_order-update_where}
use maghsul_backend.Store.Realtime.{safe_create_event, payment_updated, status_updated}
use maghsul_backend.Payments.Webhook.{
  paid_writes, confirm_one, confirmed_payment, payment_id_of, add_or_confirm, confirm_order,
  confirm_invoice, mark_webhook, amount_or, is_moyasar, system_id, has_webhook_id,
}

abbrev pub confirm_event : Order → OrderEvent
confirm_event order = record {
  order_id = order.id;
  from = some order.status;
  to = payment_confirmed;
  by_user_id = some system_id;
  note = some "moyasar_webhook_payment_confirmed";
}

abbrev confirmed_audit : ℕ → Env → Store → AuditLog
confirmed_audit pid env s = record {
  entity_type = payment_entity;
  entity_id = payment_id_of pid env s;
  action = "WEBHOOK_PAYMENT_CONFIRMED";
}

-- The rows that the transaction leaves.
pub record Confirmed (e : WebhookEvent) (order : Order) (pid : ℕ) (env : Env) (s s' : Store)
    : Type 0 where
  pub orders : s'.orders ≡ (confirm_order order s).orders
  pub payments : s'.payments ≡ (add_or_confirm order pid e.payload env s).payments
  pub invoices : s'.invoices ≡ (confirm_invoice order env s).invoices
  pub events : s'.order_events ≡ s.order_events ++ confirm_event order ∷ []
  pub webhooks : s'.webhooks ≡ (mark_webhook e.id Store.WebhookStatus.processed none s).webhooks
  pub refunds : s'.refunds ≡ s.refunds

pub paid_writes-Confirmed :
    (e : WebhookEvent) (order : Order) (pid : ℕ) (env : Env) (s s' : Store)
    → paid_writes e order pid env s ≡ done tt s'
    → Confirmed e order pid env s s'
unfolding paid_writes
paid_writes-Confirmed e order pid env s s' h =
    let s0 = add_order_event (confirm_event order) (
      confirm_invoice order env (confirm_order order (add_or_confirm order pid e.payload env s))) in
    let last = λ (x : Store).
      mark_webhook e.id Store.WebhookStatus.processed none
        (add_audit (confirmed_audit pid env s) x) in
    let (s1, first, rest) =
      >>-eq-done (status_event order.id payment_confirmed env)
        (λ x.
          (safe_create_event (payment_updated (payment_id_of pid env s) paid env)
              >> (λ y. done tt (last y)))
            x)
        s0 tt s' h in
    let (s2, second, end) =
      >>-eq-done (safe_create_event (payment_updated (payment_id_of pid env s) paid env))
        (λ y. done tt (last y)) s1 tt s' rest in
    let a = create-SameRows (status_updated order.id payment_confirmed env) s0 s1 first in
    let b = create-SameRows (payment_updated (payment_id_of pid env s) paid env) s1 s2 second in
    let end' : s' ≡ last s2 = cc in
    rw end' (record {
      orders = b.orders ∙ a.orders;
      payments = b.payments ∙ a.payments;
      invoices = b.invoices ∙ a.invoices;
      events = b.order_events ∙ a.order_events;
      webhooks = ap (update_where (has_webhook_id e.id) _) (b.webhooks ∙ a.webhooks);
      refunds = b.refunds ∙ a.refunds;
    })

-- The order is confirmed and paid.
pub Confirmed-row :
    (e : WebhookEvent) (order : Order) (pid : ℕ) (env : Env) (s s' : Store)
    → find_order order.id s ≡ some order
    → Confirmed e order pid env s s'
    → find_order order.id s'
      ≡ some (record order { status = payment_confirmed; payment_status = paid })
Confirmed-row e order pid env s s' found c =
    let self : is_unmoved order order ≡ true = ground arith in
    ap (find (has_order_id order.id)) c.orders
    ∙ find_order-update_where (is_unmoved order)
        (λ o. record o { status = payment_confirmed; payment_status = paid }) (λ o. refl) order.id
        s.orders
    ∙ rw (found, self) refl

-- The payment of the provider stands in the table, paid, with the amount of the event or, where that
-- names none, the order's total.
pub Confirmed-payment :
    (e : WebhookEvent) (order : Order) (pid : ℕ) (env : Env) (s s' : Store)
    → Confirmed e order pid env s s'
    → (p : Payment) × (find (is_moyasar pid) s'.payments ≡ some p)
      × (p.status ≡ paid)
      × (p.amount ≡ amount_or e.payload.amount order.total_price)
Confirmed-payment e order pid env s s' c = elim (Bool-cases (any (is_moyasar pid) s.payments)) [
  | inl known ↦
      let (p, found) = any-find_present (is_moyasar pid) s.payments known in
      let pass = find_sound (is_moyasar pid) s.payments p found in
      let rows : s'.payments
          ≡ update_where (is_moyasar pid) (confirm_one order e.payload) s.payments =
        c.payments ∙ rw known refl in
      (
        confirm_one order e.payload p,
        ap (find (is_moyasar pid)) rows
            ∙ find-update_where (is_moyasar pid) (is_moyasar pid) (confirm_one order e.payload)
                (λ x. ground arith) s.payments
            ∙ rw (found, pass) refl,
        refl,
        refl,
      )
  | inr new ↦
      let rows : s'.payments ≡ s.payments ++ confirmed_payment order pid e.payload env ∷ [] =
        c.payments ∙ rw new refl in
      (
        confirmed_payment order pid e.payload env,
        ap (find (is_moyasar pid)) rows
            ∙ find-append (is_moyasar pid) s.payments
                (confirmed_payment order pid e.payload env ∷ [])
                (any-find_missing (is_moyasar pid) s.payments new)
            ∙ rw (==_refl pid) refl,
        refl,
        refl,
      )
]
