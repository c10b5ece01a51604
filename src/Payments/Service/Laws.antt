-- ===== src/Payments/Service/Laws.antt =====
-- What the operations of src/modules/payments/payment.service.js do to orders, invoices, payments.
use mathlib.Core.Path.{subst}
use maghsul_backend.Base.{
  ℕ, ◌≡◌, refl, ap, ◌∙◌, ◌⊎◌, inl, inr, true, false, Option, none, some, [], ◌∷◌, ◌++◌, String,
  or_else, find, done, arith, Bool-cases, Option-cases, Outcome-cases, ==_refl, opt_eq_iff,
}
use maghsul_backend.Orders.StateMachine.{Actor}
use maghsul_backend.Store.{
  Store, Env, Order, cash_on_delivery, PaymentStatus, unpaid, paid, Payment, Provider, ExternalId,
  cod, cod_id, manual, manual_id, moyasar, moyasar_id, find_order, has_order_id,
}
use maghsul_backend.Store.Frame.{SameRows, find_order_id, find_order-update_where, find_order_at_id}
use maghsul_backend.Store.Realtime.{safe_create_event}
use maghsul_backend.Payments.Sync.{InSync, set_payment_status-InSync}
use maghsul_backend.Payments.Service.{
  settle_writes, moyasar_writes, set_payment_status, send_notice, map_status, ProviderPayment,
  mark_order_paid_manually, collect_cash_by_driver, is_driver_of, collects, is_unpaid,
  settle_method, settles,
}

-- The rows behind a settlement: the order and its invoices have the status, and one payment is new.
pub record Settled (i : ℕ) (p : PaymentStatus) (payment : Payment) (s s' : Store) : Type 0 where
  pub orders : s'.orders ≡ (set_payment_status i p s).orders
  pub invoices : s'.invoices ≡ (set_payment_status i p s).invoices
  pub payments : s'.payments ≡ s.payments ++ payment ∷ []
  pub refunds : s'.refunds ≡ s.refunds

abbrev pub settlement : Order → Provider → ExternalId → String → Env → Payment
settlement order provider external method env = record {
  id = env.new_id 0;
  order_id = order.id;
  provider = provider;
  external_id = some external;
  amount = order.total_price;
  status = paid;
  method = some method;
}

settle_writes-Settled :
    (order : Order) (provider : Provider) (external : ExternalId) (method : String) (env : Env)
    (s s' : Store)
    → settle_writes order provider external method env s ≡ done tt s'
    → Settled order.id paid (settlement order provider external method env) s s'
unfolding settle_writes safe_create_event
settle_writes-Settled order provider external method env s s' h = ground arith

abbrev pub charge : Order → ProviderPayment → String → Env → Payment
charge order p method env = record {
  id = env.new_id 0;
  order_id = order.id;
  provider = moyasar;
  external_id = some (moyasar_id p.id);
  amount = p.amount;
  status = map_status p.status;
  method = or_else p.source_type (some method);
}

pub moyasar_writes-Settled :
    (order : Order) (p : ProviderPayment) (method : String) (env : Env) (s s' : Store)
    → moyasar_writes order p method env s ≡ done tt s'
    → Settled order.id (map_status p.status) (charge order p method env) s s'
unfolding moyasar_writes safe_create_event
moyasar_writes-Settled order p method env s s' h = ground arith

pub Settled-InSync :
    (i : ℕ) (p : PaymentStatus) (payment : Payment) (s s' : Store)
    → Settled i p payment s s'
    → InSync s
    → InSync s'
Settled-InSync i p payment s s' w h = rw (w.orders, w.invoices) (set_payment_status-InSync i p s h)

pub Settled-row :
    (order : Order) (p : PaymentStatus) (payment : Payment) (s s' : Store)
    → find_order order.id s ≡ some order
    → Settled order.id p payment s s'
    → find_order order.id s' ≡ some (record order { payment_status = p })
Settled-row order p payment s s' found w =
    ap (find (has_order_id order.id)) w.orders
    ∙ find_order-update_where (has_order_id order.id) (λ o. record o { payment_status = p })
        (λ o. refl) order.id s.orders
    ∙ rw (found, ==_refl order.id) refl

pub send_notice-SameRows :
    (u : Option ℕ) (i : ℕ) (type : String) (s : Store) → SameRows s (send_notice u i type s)
send_notice-SameRows none i type s = ground arith
send_notice-SameRows (some u) i type s = ground arith

-- What a driver's collection of cash does. An order that is not unpaid is given back as it is;
-- otherwise it was to be paid in cash, it and its invoices are paid, and one payment of the order's
-- total price is recorded. In both cases the user has the order's driver for its membership.
pub collect_cash_by_driver_done :
    (user : Actor) (i : ℕ) (env : Env) (s : Store) (out : Option Order) (s' : Store)
    → collect_cash_by_driver user i env s ≡ done out s'
    → (order : Order) × (find_order i s ≡ some order)
      × (is_driver_of user order ≡ true)
      × (collects user.role ≡ true)
      × (((is_unpaid order.payment_status ≡ false) × (s' ≡ s) × (out ≡ some order))
          ⊎ ((order.payment_status ≡ unpaid)
              × (order.payment_method ≡ cash_on_delivery)
              × (out ≡ some (record order { payment_status = paid }))
              × Settled order.id paid (settlement order cod (cod_id i env.now) "cash" env) s s'))
unfolding collect_cash_by_driver
collect_cash_by_driver_done user i env s out s' h = elim (Option-cases (find_order i s)) [
  | inl missing ↦ absurd (ground arith)
  | inr (order, found) ↦
      let own : is_driver_of user order ≡ true = ground arith in
      elim (Bool-cases (is_unpaid order.payment_status)) [
        | inr settled ↦ (order, found, own, ground arith, inl (settled, ground arith, ground arith))
        | inl due ↦ elim (Outcome-cases (settle_writes order cod (cod_id i env.now) "cash" env s)) [
          | inr (e, s1, w) ↦ absurd (ground arith)
          | inl (u, s1, w) ↦
              let last : s' ≡ s1 = ground arith in
              let w' = settle_writes-Settled order cod (cod_id i env.now) "cash" env s s1 w in
              let row = Settled-row order paid _ s s1 (find_order_at_id i s order found) w' in
              let same_id = find_order_id i s order found in
              (
                order,
                found,
                own,
                ground arith,
                inr (ground arith, ground arith, ground arith, rw last w'),
              )
        ]
      ]
]

collect_again :
    (user : Actor) (i : ℕ) (env : Env) (s : Store) (order : Order)
    → find_order i s ≡ some order
    → collects user.role ≡ true
    → is_driver_of user order ≡ true
    → is_unpaid order.payment_status ≡ false
    → collect_cash_by_driver user i env s ≡ done (some order) s
unfolding collect_cash_by_driver
collect_again user i env s order found role own settled = ground arith

-- A second collection for the order, at any time, changes nothing.
pub collect_cash_by_driver_twice :
    (user : Actor) (i : ℕ) (env env' : Env) (s : Store) (out : Option Order) (s' : Store)
    → collect_cash_by_driver user i env s ≡ done out s'
    → collect_cash_by_driver user i env' s' ≡ done out s'
collect_cash_by_driver_twice user i env env' s out s' h =
    let (order, found, own, role, cases) = collect_cash_by_driver_done user i env s out s' h in
    elim cases [
      | inl (settled, kept, answer) ↦
          rw (kept, answer) (collect_again user i env' s order found role own settled)
      | inr (due, cash, answer, w) ↦
          let row = Settled-row order paid _ s s' (find_order_at_id i s order found) w in
          let row' =
            subst (λ k. find_order k s' ≡ some (record order { payment_status = paid }))
              (find_order_id i s order found) row in
          rw answer (
            collect_again user i env' s' (record order { payment_status = paid }) row' role own
              refl)
    ]

-- When a settlement by hand returns, the user is a member of the order's laundry whose role settles,
-- the order and its invoices are paid, and one payment of the order's total price is recorded.
pub mark_order_paid_manually_done :
    (user : Actor) (i : ℕ) (method : Option String) (env : Env) (s : Store) (out : Option Order)
    (s' : Store)
    → mark_order_paid_manually user i method env s ≡ done out s'
    → (order : Order) × (find_order i s ≡ some order)
      × (user.washer_id ≡ some order.washer_id)
      × (settles user.role ≡ true)
      × Settled order.id paid
          (settlement order manual (manual_id i env.now) (settle_method method) env)
          s
          s'
unfolding mark_order_paid_manually
mark_order_paid_manually_done user i method env s out s' h = elim (Option-cases (find_order i s)) [
  | inl missing ↦ absurd (ground arith)
  | inr (order, found) ↦
      elim (Outcome-cases
        (settle_writes order manual (manual_id i env.now) (settle_method method) env s)) [
          | inr (e, s1, w) ↦ absurd (ground arith)
          | inl (u, s1, w) ↦
              let last : s' ≡ s1 = ground arith in
              (
                order,
                found,
                (opt_eq_iff user.washer_id (some order.washer_id)).0 (ground arith),
                ground arith,
                rw last (
                    settle_writes-Settled order manual (manual_id i env.now) (settle_method method)
                      env s s1 w),
              )
        ]
]
