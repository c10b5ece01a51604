-- ===== src/Payments/Service.antt =====
-- src/modules/payments/payment.service.js. What the provider answers to `fetch` is an argument.
pub mod Laws
pub mod Keeps
use text.Mathlib.Text.{◌==◌ as str_eq}
use maghsul_backend.Base.{
  ℕ, Bool, true, false, not, ◌||◌, ◌&&◌, Option, none, some, List, [], ◌∷◌, String, ◌==◌, is_some,
  or_else, if◌then◌else◌, opt_eq, any, Outcome, throw, transaction, found_or, ◌>>=◌, ◌>>◌, require,
  get, modify, pure,
}
use maghsul_backend.Orders.StateMachine.{
  OrderStatus, cancelled, Actor, Role, customer, washer_owner, washer_manager, washer_admin, worker,
  driver, status_eq,
}
use maghsul_backend.Store.{
  is_own, Store, Env, Order, CustomerMembership, PaymentMethod, cash_on_delivery, online,
  PaymentStatus, unpaid, initiated, paid, failed, Payment, Provider, moyasar, manual, cod,
  ExternalId, moyasar_id, manual_id, cod_id, find_order, set_order, add_payment, set_invoices,
  find_customer, Notice,
}
use maghsul_backend.Store.Realtime.{safe_create_event, payment_updated}
use maghsul_backend.Store.Notices.{add_notices}

-- `mapStatus`
unfoldable pub map_status : String → PaymentStatus
map_status x =
    if str_eq x "paid" || str_eq x "authorized" || str_eq x "captured"
    then paid
    else if str_eq x "initiated" || str_eq x "verified"
    then initiated
    else failed

abbrev pub is_online : PaymentMethod → Bool
is_online online = true
is_online cash_on_delivery = false

abbrev pub is_unpaid : PaymentStatus → Bool
is_unpaid unpaid = true
is_unpaid _ = false

abbrev pub is_paid : PaymentStatus → Bool
is_paid paid = true
is_paid _ = false

-- The provider's answer: a failure with its HTTP status, or the payment that it made.
pub record ProviderPayment : Type 0 where
  pub id : ℕ
  pub amount : ℕ
  pub status : String
  pub source_type : Option String

pub data ProviderAnswer : Type 0 where
  refused : ℕ → ProviderAnswer
  accepted : ProviderPayment → ProviderAnswer

-- The same three writes stand in every settlement, then the event of the payment.
abbrev pub set_payment_status : ℕ → PaymentStatus → Store → Store
set_payment_status i p s = set_invoices i p (set_order i (λ o. record o { payment_status = p }) s)

-- `createAndSendNotification`: without a user it does nothing; its failures are swallowed.
abbrev pub send_notice : Option ℕ → ℕ → String → Store → Store
send_notice none order_id type s = s
send_notice (some u) order_id type s =
    add_notices (record { user_id = u; order_id = order_id; role = customer; type = type } ∷ []) s

abbrev pub identity_of : Option CustomerMembership → Option ℕ
identity_of none = none
identity_of (some m) = some m.identity_id

abbrev pub is_moyasar_id : ℕ → Option ExternalId → Bool
is_moyasar_id i (some (moyasar_id j)) = j == i
is_moyasar_id i _ = false

-- The transaction: an identifier of the provider that is there already violates the unique index.
unfoldable pub moyasar_writes :
    Order → ProviderPayment → String → Env → Store → Outcome Store (Unit {0})
unfolding map_status
moyasar_writes order p method env = do
  s ← get
  require (not (any (λ x. is_moyasar_id p.id x.external_id) s.payments)) 500 "unique_constraint"
  modify (
      add_payment (record {
        id = env.new_id 0;
        order_id = order.id;
        provider = moyasar;
        external_id = some (moyasar_id p.id);
        amount = p.amount;
        status = map_status p.status;
        method = or_else p.source_type (some method);
      }))
  modify (set_payment_status order.id (map_status p.status))
  safe_create_event (payment_updated (env.new_id 0) (map_status p.status) env)

-- `createMoyasarPayment`, with the identity of the actor and the membership of the order's customer.
unfoldable pub create_moyasar_payment :
    Actor → ℕ → ℕ → String → ProviderAnswer → Env → Store → Outcome Store (Unit {0})
unfolding map_status
create_moyasar_payment actor identity order_id method answer env = do
  s ← get
  order ← found_or (find_order order_id s) 404 "Order not found"
  let member = find_customer identity actor.washer_id s
  require (is_own member order) 403 "forbidden"
  require (is_online order.payment_method) 400 "payment_not_online"
  (elim answer [
    | refused http ↦ throw http "Moyasar request failed"
    | accepted p ↦ do
      transaction (moyasar_writes order p method env)
      modify (
          send_notice (identity_of member) order.id
            (if is_paid (map_status p.status) then "payment_paid" else "payment_failed"))
  ])

abbrev pub settles : Option Role → Bool
settles none = false
settles (some washer_owner) = true
settles (some washer_manager) = true
settles (some washer_admin) = true
settles (some worker) = true
settles (some _) = false

-- The settlement by hand: order, invoices, an audit payment and its event.
unfoldable pub settle_writes :
    Order → Provider → ExternalId → String → Env → Store → Outcome Store (Unit {0})
settle_writes order provider external method env = do
  modify (set_payment_status order.id paid)
  modify (
      add_payment (record {
        id = env.new_id 0;
        order_id = order.id;
        provider = provider;
        external_id = some external;
        amount = order.total_price;
        status = paid;
        method = some method;
      }))
  safe_create_event (payment_updated (env.new_id 0) paid env)

abbrev pub settle_method : Option String → String
settle_method none = "cod"
settle_method (some m) = if str_eq m "cod" || str_eq m "manual" then m else "cod"

-- `markOrderPaidManually`. The notification goes to `order.customerId`, a column that orders do not
-- have, and so to nobody.
unfoldable pub mark_order_paid_manually :
    Actor → ℕ → Option String → Env → Store → Outcome Store (Option Order)
mark_order_paid_manually user order_id method env = do
  require (is_some user.washer_id && settles user.role) 403 "forbidden"
  s ← get
  order ← found_or (find_order order_id s) 404 "Order not found"
  require (opt_eq user.washer_id (some order.washer_id)) 403 "forbidden"
  transaction (settle_writes order manual (manual_id order_id env.now) (settle_method method) env)
  modify (send_notice none order_id "payment_paid")
  s' ← get
  pure (find_order order_id s')

-- `data: { paymentMethod: 'cash_on_delivery' }`
abbrev pub set_cash : ℕ → Store → Store
set_cash i s = set_order i (λ o. record o { payment_method = cash_on_delivery }) s

-- `switchToCodByCustomer`. The status "completed" that the source names is none of the twenty.
unfoldable pub switch_to_cod_by_customer : Actor → ℕ → ℕ → Store → Outcome Store (Option Order)
switch_to_cod_by_customer actor identity order_id = do
  s ← get
  order ← found_or (find_order order_id s) 404 "Order not found"
  require (is_own (find_customer identity actor.washer_id s) order) 403 "forbidden"
  require (is_unpaid order.payment_status) 400 "order_already_paid"
  (if is_online order.payment_method
      then (do
        require (not (status_eq order.status cancelled)) 400 "order_not_editable"
        modify (set_cash order_id)
        s' ← get
        pure (find_order order_id s'))
      else pure (some order))

abbrev pub collects : Option Role → Bool
collects none = false
collects (some driver) = true
collects (some washer_admin) = true
collects (some worker) = true
collects (some _) = false

-- `user.staffMembershipId || user.userId` is the driver of the order; with neither, the value is
-- undefined and equals no column.
abbrev pub is_driver_of : Actor → Order → Bool
is_driver_of user order = elim (or_else user.staff_membership_id user.user_id) [
  | none ↦ false
  | some d ↦ opt_eq order.driver_staff_membership_id (some d)
]

-- `switchToCodByDriver`
unfoldable pub switch_to_cod_by_driver : Actor → ℕ → Store → Outcome Store (Option Order)
switch_to_cod_by_driver user order_id = do
  require (collects user.role) 403 "forbidden"
  s ← get
  order ← found_or (find_order order_id s) 404 "Order not found"
  require (is_driver_of user order) 403 "forbidden"
  require (is_unpaid order.payment_status) 400 "order_already_paid"
  (if is_online order.payment_method
      then (do modify (set_cash order_id); s' ← get; pure (find_order order_id s'))
      else pure (some order))

-- `collectCashByDriver`. An order that is not unpaid is returned as it is. The notification goes to
-- nobody, as above.
unfoldable pub collect_cash_by_driver : Actor → ℕ → Env → Store → Outcome Store (Option Order)
collect_cash_by_driver user order_id env = do
  require (collects user.role) 403 "forbidden"
  s ← get
  order ← found_or (find_order order_id s) 404 "Order not found"
  require (is_driver_of user order) 403 "forbidden"
  (if is_unpaid order.payment_status
      then (do
        require (not (is_online order.payment_method)) 400 "order_not_cod"
        transaction (settle_writes order cod (cod_id order_id env.now) "cash" env)
        modify (send_notice none order_id "payment_paid")
        s' ← get
        pure (find_order order_id s'))
      else pure (some order))
