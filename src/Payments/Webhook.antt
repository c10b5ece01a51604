-- ===== src/Payments/Webhook.antt =====
-- src/modules/payments/webhook-processor.service.js: what is done with a received event of the
-- provider.
pub mod Receive
pub mod Paid
pub mod Processing
use text.Mathlib.Text.{◌==◌ as str_eq}
use maghsul_backend.Base.{
  ℕ, Bool, true, false, not, ◌||◌, ◌&&◌, Option, none, some, List, [], ◌∷◌, ◌++◌, String, ◌==◌,
  is_some, or_else, get_or, if◌then◌else◌, opt_eq, find, any, update_where, Outcome, throw, lift,
  transaction, found_or, ◌>>=◌, ◌>>◌, require, get, modify, pure,
}
use maghsul_backend.Orders.StateMachine.{
  OrderStatus, payment_confirmed, Target, status, Actor, washer_manager, webhook_payment_confirm,
  assert_order_transition,
}
use maghsul_backend.Orders.WasherStatus.{is_unmoved, status_event}
use maghsul_backend.Store.{
  Store, Env, Order, view, Invoice, PaymentStatus, paid, Payment, moyasar, ExternalId, moyasar_id,
  manual_id, cod_id, find_order, add_payment, add_order_event, add_audit, payment_entity,
  WebhookStatus, WebhookEventType, payment_paid, payment_captured, payment_authorized,
  payment_failed, payment_abandoned, other_event, WebhookPayload, WebhookEvent,
}
use maghsul_backend.Store
use maghsul_backend.Store.Realtime.{safe_create_event, payment_updated}
use maghsul_backend.Payments.Service.{send_notice}

abbrev pub has_webhook_id : ℕ → WebhookEvent → Bool
has_webhook_id i e = e.id == i

abbrev pub mark_webhook : ℕ → WebhookStatus → Option String → Store → Store
mark_webhook i mark code s = record s {
  webhooks =
      update_where (has_webhook_id i)
        (λ e. record e {
          processing_status = mark;
          last_error_code = or_else code e.last_error_code;
        })
        s.webhooks;
}

-- The event is marked as failed with a code, and the same code is thrown.
abbrev pub fail_webhook : {A : Type 0} → ℕ → ℕ → String → Store → Outcome Store A
fail_webhook i http code s =
    throw http code (mark_webhook i Store.WebhookStatus.failed (some code) s)

abbrev pub is_moyasar : ℕ → Payment → Bool
is_moyasar x p = elim p.external_id [
  | none ↦ false
  | some e ↦ elim e [ moyasar_id y ↦ y == x | manual_id a b ↦ false | cod_id a b ↦ false ]
]

-- The order of the payment that is known already by the event's external identifier.
abbrev pub order_of_payment : Option ℕ → Store → Option Order
order_of_payment none s = none
order_of_payment (some x) s = elim (find (is_moyasar x) s.payments) [
  | none ↦ none
  | some p ↦ find_order p.order_id s
]

-- The order of the payload's metadata, or else of the payment.
unfoldable pub locate_order : WebhookEvent → Store → Option Order
locate_order e s = elim e.payload.metadata_order_id [
  | none ↦ order_of_payment e.payment_external_id s
  | some i ↦ or_else (find_order i s) (order_of_payment e.payment_external_id s)
]

-- `a || b` on an amount that may be missing or 0.
abbrev pub amount_or : Option ℕ → ℕ → ℕ
amount_or none d = d
amount_or (some a) d = if a == 0 then d else a

abbrev pub confirmed_payment : Order → ℕ → WebhookPayload → Env → Payment
confirmed_payment order pid data' env = record {
  id = env.new_id 0;
  order_id = order.id;
  provider = moyasar;
  external_id = some (moyasar_id pid);
  amount = amount_or data'.amount order.total_price;
  status = paid;
  method = or_else data'.source_type (some "online");
}

abbrev pub confirm_one : Order → WebhookPayload → Payment → Payment
confirm_one order data' p = record p {
  status = paid;
  amount = amount_or data'.amount order.total_price;
  method = or_else data'.source_type (some "online");
}

abbrev pub add_or_confirm : Order → ℕ → WebhookPayload → Env → Store → Store
add_or_confirm order pid data' env s = record s {
  payments =
      if any (is_moyasar pid) s.payments
      then update_where (is_moyasar pid) (confirm_one order data') s.payments
      else s.payments ++ confirmed_payment order pid data' env ∷ [];
}

-- The payment row behind the upsert.
abbrev pub payment_id_of : ℕ → Env → Store → ℕ
payment_id_of pid env s = elim (find (is_moyasar pid) s.payments) [
  | none ↦ env.new_id 0
  | some p ↦ p.id
]

abbrev pub confirm_order : Order → Store → Store
confirm_order order s = record s {
  orders =
      update_where (is_unmoved order)
        (λ o. record o { status = payment_confirmed; payment_status = paid }) s.orders;
}

abbrev pub of_order : ℕ → Invoice → Bool
of_order i v = v.order_id == i

abbrev pub new_invoice : Order → Env → Invoice
new_invoice order env = record {
  id = env.new_id 1;
  order_id = order.id;
  subtotal = amount_or (some order.subtotal) order.total_price;
  delivery_fee = order.delivery_fee;
  discount = order.discount;
  total = order.total_price;
  payment_status = paid;
}

abbrev pub confirm_invoice : Order → Env → Store → Store
confirm_invoice order env s = record s {
  invoices = elim (find (of_order order.id) s.invoices) [
    | some v ↦ update_where (λ w. w.id == v.id) (λ w. record w { payment_status = paid }) s.invoices
    | none ↦ s.invoices ++ new_invoice order env ∷ []
  ];
}

-- The number that stands for the text "system".
abbrev pub system_id : ℕ
system_id = 0

-- Step 4 of `processPaymentPaid`, inside the transaction.
unfoldable pub paid_writes : WebhookEvent → Order → ℕ → Env → Store → Outcome Store (Unit {0})
paid_writes e order pid env = do
  s ← get
  let payment_id = payment_id_of pid env s
  modify (add_or_confirm order pid e.payload env)
  modify (confirm_order order)
  modify (confirm_invoice order env)
  modify (
      add_order_event (record {
        order_id = order.id;
        from = some order.status;
        to = payment_confirmed;
        by_user_id = some system_id;
        note = some "moyasar_webhook_payment_confirmed";
      }))
  status_event order.id payment_confirmed env
  safe_create_event (payment_updated payment_id paid env)
  modify (
      add_audit (record {
        entity_type = payment_entity;
        entity_id = payment_id;
        action = "WEBHOOK_PAYMENT_CONFIRMED";
      }))
  modify (mark_webhook e.id Store.WebhookStatus.processed none)

abbrev pub system_actor : Order → Actor
system_actor order = record {
  washer_id = some order.washer_id;
  branch_id = some order.branch_id;
  role = some washer_manager;
  staff_membership_id = none;
  user_id = some system_id;
  id = none;
}

pub data Answer : Type 0 where
  already_processed processed ignored failed_recorded : Answer

abbrev pub amount_differs : Option ℕ → ℕ → Bool
amount_differs none total = false
amount_differs (some a) total = not (a == total)

abbrev pub not_sar : Option String → Bool
not_sar none = false
not_sar (some c) = not (str_eq c "") && not (str_eq c "SAR")

abbrev pub customer_identity : Order → Store → Option ℕ
customer_identity order s = elim (find (λ m. m.id == order.customer_membership_id) s.customers) [
  | none ↦ none
  | some m ↦ some m.identity_id
]

-- Steps 2 to 4 of `processPaymentPaid`, on the order that was found.
unfoldable pub confirm_payment : WebhookEvent → Order → ℕ → Env → Store → Outcome Store Answer
confirm_payment e order pid env s =
    if amount_differs e.payload.amount order.total_price
    then fail_webhook e.id 400 "AMOUNT_MISMATCH" (
        add_audit
          (record {
            entity_type = payment_entity;
            entity_id = order.id;
            action = "SECURITY_AMOUNT_MISMATCH";
          })
          s)
    else if not_sar e.payload.currency
    then fail_webhook e.id 400 "CURRENCY_MISMATCH" s
    else (do
      same ← lift (
          assert_order_transition (view order) (status payment_confirmed) (system_actor order)
            webhook_payment_confirm)
      transaction (paid_writes e order pid env)
      modify (send_notice (customer_identity order s) order.id "payment_paid")
      pure processed)
        s

-- `processPaymentPaid`
unfoldable pub process_payment_paid : WebhookEvent → Env → Store → Outcome Store Answer
process_payment_paid e env s = elim e.payload.payment_id [
  | none ↦ fail_webhook e.id 400 "MISSING_PAYMENT_ID" s
  | some pid ↦ elim (locate_order e s) [
    | none ↦ fail_webhook e.id 404 "ORDER_NOT_FOUND" s
    | some order ↦ confirm_payment e order pid env s
  ]
]

abbrev pub failed_payment : ℕ → ℕ → WebhookPayload → Env → Payment
failed_payment order_id pid data' env = record {
  id = env.new_id 0;
  order_id = order_id;
  provider = moyasar;
  external_id = some (moyasar_id pid);
  amount = get_or data'.amount 0;
  status = Store.PaymentStatus.failed;
  method = none;
}

abbrev pub add_or_fail : ℕ → ℕ → WebhookPayload → Env → Store → Store
add_or_fail order_id pid data' env s = record s {
  payments =
      if any (is_moyasar pid) s.payments
      then update_where (is_moyasar pid) (λ p. record p { status = Store.PaymentStatus.failed })
          s.payments
      else s.payments ++ failed_payment order_id pid data' env ∷ [];
}

-- The upsert: a payment for an order that is not there violates the foreign key.
abbrev pub may_upsert : ℕ → ℕ → Store → Bool
may_upsert order_id pid s = any (is_moyasar pid) s.payments || is_some (find_order order_id s)

-- `processPaymentFailed`
unfoldable pub process_payment_failed : WebhookEvent → Env → Store → Outcome Store Answer
process_payment_failed e env s =
    let marked = mark_webhook e.id Store.WebhookStatus.processed none in
    elim e.payload.payment_id [
      | none ↦ pure failed_recorded (marked s)
      | some pid ↦ elim e.payload.metadata_order_id [
        | none ↦ pure failed_recorded (marked s)
        | some i ↦
            if may_upsert i pid s
            then pure failed_recorded (marked (add_or_fail i pid e.payload env s))
            else throw 500 "foreign_key_constraint" s
      ]
    ]

abbrev pub is_processed : WebhookStatus → Bool
is_processed Store.WebhookStatus.processed = true
is_processed _ = false

-- The choice by the type of the event.
unfoldable pub dispatch : WebhookEventType → WebhookEvent → Env → Store → Outcome Store Answer
dispatch payment_paid e env = process_payment_paid e env
dispatch payment_captured e env = process_payment_paid e env
dispatch payment_authorized e env = process_payment_paid e env
dispatch payment_failed e env = process_payment_failed e env
dispatch payment_abandoned e env = process_payment_failed e env
dispatch other_event e env = do
  modify (mark_webhook e.id Store.WebhookStatus.ignored none)
  pure ignored

-- `processWebhookEvent`
unfoldable pub process_webhook_event : ℕ → Env → Store → Outcome Store Answer
process_webhook_event i env = do
  s ← get
  e ← found_or (find (has_webhook_id i) s.webhooks) 404 "webhook_event_not_found"
  (if is_processed e.processing_status then pure already_processed else dispatch e.event_type e env)
