-- ===== src/Orders/Create.antt =====
-- createOrder of src/modules/orders/order.service.js. The columns idempotencyKey and contentHash of an
-- order stand in a table of their own (`keys`); the fields of a request that only go into the order's
-- columns and the hash are one number (`details`). The geocoder and the hash are arguments.
pub mod Tables
pub mod Writes
pub mod Answer
pub mod Numbers
pub mod Grown
pub mod Once
use maghsul_backend.Base.{
  ℕ, suc, ◌+◌, Bool, true, false, not, ◌&&◌, Option, none, some, List, [], ◌∷◌, ◌++◌, String, ◌==◌,
  is_some, get_or, if◌then◌else◌, find, any, update_where, Result, Outcome, done, thrown, throw,
  lift, transaction, found_or, ◌>>=◌, ◌>>◌, require, get, modify, pure,
}
use maghsul_backend.Orders.StateMachine.{pending_pickup}
use maghsul_backend.Store.{
  Store, Env, Order, PaymentMethod, cash_on_delivery, unpaid, find_order, find_customer, is_active,
  add_order_event, pickup, open_task, order_created_key, driver_task_created_key, order_created,
  driver_task_created, order_aggregate, driver_task_aggregate, CustomerMembership, RealtimeEvent,
}
use maghsul_backend.Store.Realtime.{safe_create_event}
use maghsul_backend.Store.Notices.{notify_customer, notify_washer}
use maghsul_backend.Laundries.Places.{
  Point, Geometry, Limits, is_between, Place, ServiceType, Mapped, CoverageWasher,
  map_required_coordinates, validate_washer_coverage,
}
use maghsul_backend.Laundries.Coverage.{CoverageBranch, evaluate_branch_coverage}
use maghsul_backend.Orders.Create.Tables.{
  WasherRow, OrderKey, Shop, Customer, OrderRequest, OrderContent, Surroundings, has_washer_row,
  has_branch_row, is_serving, in_store,
}

-- The laundry and the branch that the customer has selected.
unfoldable pub select_branch : Geometry → ℕ → Option ℕ → Mapped → Shop → Outcome Shop CoverageBranch
select_branch g washer_id branch_id places = do
  s ← get
  washer ← found_or (find (has_washer_row washer_id) s.washers) 404 "Washer not found"
  require washer.is_active 400 "washer_inactive"
  require (validate_washer_coverage g washer.area places.pickup places.delivery) 422
      "WASHER_OUT_OF_COVERAGE"
  require (any (is_serving washer_id) s.branches) 422 "BRANCH_OUT_OF_COVERAGE"
  i ← found_or branch_id 400 "branch_selection_required"
  branch ← found_or (find (has_branch_row i) s.branches) 404 "Branch not found"
  require (branch.washer_id == washer_id) 400 "branch_washer_mismatch"
  require (branch.is_active && branch.accepting_orders) 400 "branch_not_accepting_orders"
  require (evaluate_branch_coverage g branch places.pickup places.delivery).is_covered 422
      "BRANCH_OUT_OF_COVERAGE"
  pure branch

unfoldable pub find_membership : ℕ → ℕ → Shop → Outcome Shop CustomerMembership
find_membership identity washer_id = do
  s ← get
  m ← found_or (find_customer identity (some washer_id) s.store) 403 "MEMBERSHIP_NOT_FOUND"
  require (is_active m.status) 403 "MEMBERSHIP_INACTIVE"
  pure m

-- `a.lat === b.lat && a.lng === b.lng`
abbrev pub same_point : Point → Point → Bool
same_point a b = is_between b.lat b.lat a.lat && is_between b.lng b.lng a.lng

abbrev pub delivery_address_of : Surroundings → Mapped → Option ℕ
delivery_address_of x places = elim places.delivery [
  | none ↦ none
  | some d ↦ if same_point d places.pickup then x.geocode places.pickup else x.geocode d
]

abbrev pub content_of :
    Surroundings
    → Customer
    → OrderRequest
    → Mapped
    → ℕ
    → CoverageBranch
    → CustomerMembership
    → OrderContent
content_of x caller r places washer_id branch m = record {
  customer_membership_id = m.id;
  washer_id = washer_id;
  branch_id = branch.id;
  pickup = places.pickup;
  pickup_address = x.geocode places.pickup;
  delivery = get_or places.delivery places.pickup;
  delivery_address = delivery_address_of x places;
  payment_method = get_or r.payment_method cash_on_delivery;
  service_type = r.service_type;
  details = r.details;
  by_user_id = caller.identity_id;
}

abbrev pub new_order : OrderContent → ℕ → Env → Order
new_order c number env = record {
  id = env.new_id 0;
  washer_id = c.washer_id;
  branch_id = c.branch_id;
  customer_membership_id = c.customer_membership_id;
  driver_staff_membership_id = none;
  public_number = number;
  subtotal = 0;
  delivery_fee = 0;
  discount = 0;
  total_price = 0;
  payment_method = c.payment_method;
  payment_status = unpaid;
  status = pending_pickup;
}

-- The two unique indexes of the table of orders.
abbrev pub has_number : ℕ → ℕ → Order → Bool
has_number washer_id n o = o.washer_id == washer_id && o.public_number == n

abbrev pub has_key : ℕ → ℕ → OrderKey → Bool
has_key membership key k = k.customer_membership_id == membership && k.idempotency_key == key

-- `data: { nextOrderSequence: { increment: 1 } }`
abbrev pub count_order : ℕ → Shop → Shop
count_order washer_id s = record s {
  washers =
      update_where (has_washer_row washer_id)
        (λ w. record w { next_order_sequence = w.next_order_sequence + 1 }) s.washers;
}

abbrev pub add_order : Order → OrderKey → ℕ → Shop → Shop
add_order o k by s = record s {
  store =
      add_order_event
        (record {
          order_id = o.id;
          from = none;
          to = pending_pickup;
          by_user_id = some by;
          note = some "created";
        })
        (record s.store { orders = s.store.orders ++ o ∷ [] });
  keys = s.keys ++ k ∷ [];
}

unfoldable pub insert_order : Order → OrderKey → ℕ → Shop → Outcome Shop (Unit {0})
insert_order o k by = do
  s ← get
  require (not (any (has_number o.washer_id o.public_number) s.store.orders)) 500
      "unique_constraint"
  require (not (any (has_key k.customer_membership_id k.idempotency_key) s.keys)) 500
      "unique_constraint"
  modify (add_order o k by)

abbrev pub add_task : ℕ → ℕ → Store → Store
add_task order_id i t = record t {
  tasks =
      t.tasks
      ++ record {
        id = i;
        order_id = order_id;
        task_type = pickup;
        status = open_task;
        assigned_driver_id = none;
      }
        ∷ [];
}

abbrev pub order_created_event : ℕ → RealtimeEvent
order_created_event i = record {
  event_key = order_created_key i;
  event_type = order_created;
  aggregate_type = order_aggregate;
  aggregate_id = i;
}

abbrev pub task_created_event : ℕ → RealtimeEvent
task_created_event i = record {
  event_key = driver_task_created_key i;
  event_type = driver_task_created;
  aggregate_type = driver_task_aggregate;
  aggregate_id = i;
}

unfoldable pub announce_order : ℕ → ℕ → Store → Outcome Store (Unit {0})
announce_order order_id task_id = do
  modify (add_task order_id task_id)
  safe_create_event (order_created_event order_id)
  safe_create_event (task_created_event task_id)

abbrev pub key_of_order : OrderContent → ℕ → ℕ → Order → OrderKey
key_of_order c key hash o = record {
  order_id = o.id;
  customer_membership_id = c.customer_membership_id;
  idempotency_key = key;
  content_hash = hash;
}

-- The row of the new order, its task and its events.
unfoldable pub place_order : OrderContent → ℕ → ℕ → Env → Order → Shop → Outcome Shop Order
place_order c key hash env o = do
  insert_order o (key_of_order c key hash o) c.by_user_id
  in_store (announce_order o.id (env.new_id 1))
  pure o

-- The writes of a new order.
unfoldable pub create_writes : OrderContent → ℕ → ℕ → Env → Shop → Outcome Shop Order
create_writes c key hash env = do
  modify (count_order c.washer_id)
  s ← get
  washer ← found_or (find (has_washer_row c.washer_id) s.washers) 404 "Washer not found"
  place_order c key hash env (new_order c washer.next_order_sequence env)

-- The order that has the key already, if its content is the same. `find_order` finds it: the key and
-- the order are one row of the source.
unfoldable pub replay_order : ℕ → OrderKey → Shop → Outcome Shop Order
replay_order hash k = do
  require (k.content_hash == hash) 409 "IDEMPOTENCY_CONFLICT"
  s ← get
  found_or (find_order k.order_id s.store) 500 "order_missing"

unfoldable pub submit_order :
    OrderContent → Option ℕ → ℕ → ℕ → Env → Option OrderKey → Shop → Outcome Shop Order
submit_order c key random hash env none = create_writes c (get_or key random) hash env
submit_order c key random hash env (some k) = replay_order hash k

-- The order of the membership with the key of the request.
abbrev pub find_key : ℕ → Option ℕ → Shop → Option OrderKey
find_key membership none s = none
find_key membership (some key) s = find (has_key membership key) s.keys

-- The part of the transaction behind the checks.
unfoldable pub order_of_member :
    Surroundings
    → Customer
    → OrderRequest
    → Mapped
    → ℕ
    → CoverageBranch
    → CustomerMembership
    → Shop
    → Outcome Shop Order
order_of_member x caller r places washer_id branch m = do
  let c = content_of x caller r places washer_id branch m
  s ← get
  submit_order c r.idempotency_key x.random_key (x.hash c) x.env (find_key m.id r.idempotency_key s)

-- The transaction.
unfoldable pub order_writes :
    Surroundings → Customer → OrderRequest → Mapped → ℕ → Shop → Outcome Shop Order
order_writes x caller r places washer_id = do
  branch ← select_branch x.geometry washer_id r.branch_id places
  m ← find_membership caller.identity_id washer_id
  order_of_member x caller r places washer_id branch m

abbrev pub notify_created : Order → Store → Store
notify_created o t = notify_washer o "order_created" (notify_customer o "order_created" t)

-- `createOrder`
unfoldable pub create_order :
    Surroundings → Customer → OrderRequest → Shop → Outcome Shop (Option Order)
create_order x caller r = do
  places ← lift (map_required_coordinates x.limits r.service_type r.pickup r.delivery)
  washer_id ← found_or caller.washer_id 400 "WASHER_HEADER_REQUIRED"
  o ← transaction (order_writes x caller r places washer_id)
  modify (λ s. record s { store = notify_created o s.store })
  s ← get
  pure (find_order o.id s.store)
