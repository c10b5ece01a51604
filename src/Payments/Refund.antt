-- ===== src/Payments/Refund.antt =====
-- src/modules/payments/refund.service.js. The amount comes from the body of the request, where
-- nothing checks its sign: it is an integer here. What the provider answers is an argument.
pub mod Runs
pub mod Bounds
use maghsul_backend.Base.{
  ℕ, ℤ, pos, negsuc, ◌+ℤ◌, ltb_ℤ, Bool, true, false, not, ◌||◌, ◌&&◌, Option, none, some, List, [],
  ◌∷◌, ◌++◌, String, ◌==◌, is_some, if◌then◌else◌, opt_eq, find, update_where, Outcome, throw,
  transaction, found_or, ◌>>=◌, ◌>>◌, require, get, modify, pure,
}
use maghsul_backend.Orders.StateMachine.{Actor, Role, washer_owner, washer_manager}
use maghsul_backend.Store.{
  Store, Env, Order, Payment, Provider, moyasar, PaymentStatus, refunded, Refund, RefundStatus,
  completed, pending, failed, find_order, set_order, set_invoices, add_audit, refund_entity,
  refund_key, payment_refunded, payment_aggregate,
}
use maghsul_backend.Store
use maghsul_backend.Store.Realtime.{safe_create_event}
use maghsul_backend.Payments.Service.{send_notice, set_payment_status, is_paid}
use maghsul_backend.Payments.Webhook.{customer_identity}

abbrev pub may_refund : Option Role → Bool
may_refund none = false
may_refund (some washer_manager) = true
may_refund (some washer_owner) = true
may_refund (some _) = false

-- `amount || order.totalPrice`: a missing amount and 0 stand for the whole price.
abbrev pub refund_amount : Option ℤ → Order → ℤ
refund_amount none order = pos order.total_price
refund_amount (some (pos a)) order = if a == 0 then pos order.total_price else pos a
refund_amount (some (negsuc a)) order = negsuc a

-- `status: { in: ['completed', 'pending'] }`
abbrev pub is_active_refund : RefundStatus → Bool
is_active_refund Store.RefundStatus.completed = true
is_active_refund Store.RefundStatus.pending = true
is_active_refund Store.RefundStatus.failed = false

abbrev pub counts : ℕ → Refund → Bool
counts pid r = r.payment_id == pid && is_active_refund r.status

-- The sum of the refunds of a payment that are completed or reserved.
unfoldable pub cumulative : ℕ → List Refund → ℤ
cumulative pid [] = pos 0
cumulative pid (r ∷ rs) =
    let rest = cumulative pid rs in if counts pid r then r.amount +ℤ rest else rest

-- The row of a refund; it is created as pending.
abbrev pub new_refund : Payment → Order → ℤ → RefundStatus → Env → Refund
new_refund payment order amount mark env = record {
  id = env.new_id 0;
  payment_id = payment.id;
  order_id = order.id;
  amount = amount;
  status = mark;
}

-- The reservation transaction: the amount is kept as pending if the payment covers it.
unfoldable pub reserve : Payment → Order → ℤ → Env → Store → Outcome Store ℤ
reserve payment order amount env s =
    let taken = cumulative payment.id s.refunds in
    if ltb_ℤ (pos payment.amount) (taken +ℤ amount)
    then throw 400 "OVER_REFUND_EXCEEDED" s
    else pure taken (record s {
      refunds = s.refunds ++ new_refund payment order amount Store.RefundStatus.pending env ∷ [];
    })

abbrev pub has_refund_id : ℕ → Refund → Bool
has_refund_id i r = r.id == i

abbrev pub set_refund : ℕ → RefundStatus → Store → Store
set_refund i mark s = record s {
  refunds = update_where (has_refund_id i) (λ r. record r { status = mark }) s.refunds;
}

-- What comes back from the provider: an answer that is fine, one with another HTTP status, or none.
pub data RefundAnswer : Type 0 where
  fine : RefundAnswer
  refused : ℕ → RefundAnswer
  unreachable : RefundAnswer

abbrev pub is_moyasar_provider : Provider → Bool
is_moyasar_provider moyasar = true
is_moyasar_provider _ = false

-- The call of the provider: only for a payment that it made; a failure marks the refund.
unfoldable pub call_provider : Payment → ℕ → RefundAnswer → Store → Outcome Store (Unit {0})
call_provider payment refund_id answer s =
    if is_moyasar_provider payment.provider && is_some payment.external_id
    then (elim answer [
      | fine ↦ pure tt s
      | refused http ↦
          throw http "Moyasar refund API call failed"
            (set_refund refund_id Store.RefundStatus.failed s)
      | unreachable ↦
          throw 500 "MOYASAR_REFUND_FAILED" (set_refund refund_id Store.RefundStatus.failed s)
    ])
    else pure tt s

abbrev pub set_payment : ℕ → PaymentStatus → Store → Store
set_payment i mark s = record s {
  payments = update_where (λ p. p.id == i) (λ p. record p { status = mark }) s.payments;
}

-- `cumulativeRefunded + refundAmount >= payment.amount`
abbrev pub is_fully_refunded : Payment → ℤ → ℤ → Bool
is_fully_refunded payment taken amount = not (ltb_ℤ (taken +ℤ amount) (pos payment.amount))

-- The closing transaction.
unfoldable pub complete : Payment → Order → ℕ → Bool → Env → Store → Outcome Store (Unit {0})
complete payment order refund_id fully env = do
  modify (set_refund refund_id Store.RefundStatus.completed)
  modify (λ s.
      if fully then set_payment_status order.id refunded (set_payment payment.id refunded s) else s)
  safe_create_event (record {
    event_key = refund_key refund_id env.now;
    event_type = payment_refunded;
    aggregate_type = payment_aggregate;
    aggregate_id = payment.id;
  })
  modify (
      add_audit (record {
        entity_type = refund_entity;
        entity_id = refund_id;
        action = "PAYMENT_REFUND_COMPLETED";
      }))

abbrev pub is_paid_of : ℕ → Payment → Bool
is_paid_of i p = p.order_id == i && is_paid p.status

-- The reservation, the call, the closing transaction and the notification.
unfoldable pub refund_payment :
    Payment → Order → Option ℕ → ℤ → RefundAnswer → Env → Store → Outcome Store (Option Refund)
refund_payment payment order identity amount answer env = do
  taken ← transaction (reserve payment order amount env)
  call_provider payment (env.new_id 0) answer
  transaction (complete payment order (env.new_id 0) (is_fully_refunded payment taken amount) env)
  modify (send_notice identity order.id "payment_refunded")
  s' ← get
  pure (find (has_refund_id (env.new_id 0)) s'.refunds)

-- `processOrderRefund`
unfoldable pub process_order_refund :
    Actor → ℕ → Option ℤ → RefundAnswer → Env → Store → Outcome Store (Option Refund)
process_order_refund user order_id wanted answer env = do
  require (is_some user.washer_id && may_refund user.role) 403 "forbidden"
  s ← get
  order ← found_or (find_order order_id s) 404 "Order not found"
  require (opt_eq user.washer_id (some order.washer_id)) 403 "forbidden"
  payment ← found_or (find (is_paid_of order_id) s.payments) 400 "NO_PAID_PAYMENT"
  refund_payment payment order (customer_identity order s) (refund_amount wanted order) answer env
