-- ===== src/System/Payments.antt =====
-- The requests of src/modules/payments/payment.service.js change no status of an order.
use maghsul_backend.Base.{ℕ, refl, Option, String, modify, modify-Keeps, Keeps}
use maghsul_backend.Orders.StateMachine.{Actor}
use maghsul_backend.Store.{
  Store, Env, Order, Payment, PaymentStatus, has_order_id, cash_on_delivery, Provider, ExternalId,
  add_payment,
}
use maghsul_backend.Payments.Service.{
  create_moyasar_payment, mark_order_paid_manually, collect_cash_by_driver, set_cash, refused,
  accepted, moyasar_writes, settle_writes, ProviderPayment, ProviderAnswer, set_payment_status,
  switch_to_cod_by_customer, switch_to_cod_by_driver,
}
use maghsul_backend.Payments.Service.Keeps.{
  Request, create, mark_paid, switch_by_customer, switch_by_driver, collect_cash, serve,
}
use maghsul_backend.System.Quiet.{Quiet, Quiet-orders, Quiet-update_where, quiet_rules}

set_payment_status-Quiet :
    (i : ℕ) (p : PaymentStatus) → Keeps Quiet (modify (set_payment_status i p))
set_payment_status-Quiet i p = modify-Keeps (set_payment_status i p) (λ s.
    Quiet-update_where (has_order_id i) (λ o. record o { payment_status = p }) (λ o. refl)
      (λ o. refl) s (set_payment_status i p s) refl)

set_cash-Quiet : (i : ℕ) → Keeps Quiet (modify (set_cash i))
set_cash-Quiet i = modify-Keeps (set_cash i) (λ s.
    Quiet-update_where (has_order_id i) (λ o. record o { payment_method = cash_on_delivery })
      (λ o. refl) (λ o. refl) s (set_cash i s) refl)

add_payment-Quiet : (p : Payment) → Keeps Quiet (modify (add_payment p))
add_payment-Quiet p = modify-Keeps (add_payment p) (λ s. Quiet-orders s (add_payment p s) refl)

ruleset payment_rules = (quiet_rules, set_payment_status-Quiet, set_cash-Quiet, add_payment-Quiet)

moyasar_writes-Quiet :
    (order : Order) (p : ProviderPayment) (method : String) (env : Env)
    → Keeps Quiet (moyasar_writes order p method env)
unfolding moyasar_writes
moyasar_writes-Quiet order p method env = search payment_rules depth 12

settle_writes-Quiet :
    (order : Order) (provider : Provider) (external : ExternalId) (method : String) (env : Env)
    → Keeps Quiet (settle_writes order provider external method env)
unfolding settle_writes
settle_writes-Quiet order provider external method env = search payment_rules depth 12

create-Quiet :
    (actor : Actor) (identity i : ℕ) (method : String) (x : ProviderAnswer) (env : Env)
    → Keeps Quiet (create_moyasar_payment actor identity i method x env)
unfolding create_moyasar_payment
create-Quiet actor identity i method (refused http) env = search payment_rules depth 12
create-Quiet actor identity i method (accepted p) env =
    search (payment_rules, moyasar_writes-Quiet) depth 12

mark-Quiet :
    (user : Actor) (i : ℕ) (method : Option String) (env : Env)
    → Keeps Quiet (mark_order_paid_manually user i method env)
unfolding mark_order_paid_manually
mark-Quiet user i method env = search (payment_rules, settle_writes-Quiet) depth 12

collect-Quiet : (user : Actor) (i : ℕ) (env : Env) → Keeps Quiet (collect_cash_by_driver user i env)
unfolding collect_cash_by_driver
collect-Quiet user i env = search (payment_rules, settle_writes-Quiet) depth 12

switch_customer-Quiet :
    (actor : Actor) (identity i : ℕ) → Keeps Quiet (switch_to_cod_by_customer actor identity i)
unfolding switch_to_cod_by_customer
switch_customer-Quiet actor identity i = search payment_rules depth 12

switch_driver-Quiet : (user : Actor) (i : ℕ) → Keeps Quiet (switch_to_cod_by_driver user i)
unfolding switch_to_cod_by_driver
switch_driver-Quiet user i = search payment_rules depth 12

pub serve-Quiet : (r : Request) (env : Env) (s : Store) → Quiet s (serve r env s)
serve-Quiet (create actor identity i method x) env s =
    (create-Quiet actor identity i method x env).kept s
serve-Quiet (mark_paid user i method) env s = (mark-Quiet user i method env).kept s
serve-Quiet (switch_by_customer actor identity i) env s =
    (switch_customer-Quiet actor identity i).kept s
serve-Quiet (switch_by_driver user i) env s = (switch_driver-Quiet user i).kept s
serve-Quiet (collect_cash user i) env s = (collect-Quiet user i env).kept s
