-- ===== src/Orders/DriverStatus.antt =====
-- `updateDriverStatus` of src/modules/orders/order.service.js.
pub mod Laws
pub mod Answer
use text.Mathlib.Text.{◌==◌ as str_eq}
use maghsul_backend.Base.{
  ℕ, Bool, true, false, not, ◌||◌, ◌&&◌, Option, none, some, List, [], ◌∷◌, String, ◌==◌, is_some,
  or_else, if◌then◌else◌, find, update_where, Outcome, throw, lift, transaction, found_or, ◌>>=◌,
  ◌>>◌, require, get, modify, pure,
}
use maghsul_backend.Orders.StateMachine.{
  OrderStatus, pending_pickup, pickup_assigned, driver_heading_to_pickup, driver_arrived_pickup,
  delivered_to_laundry, driver_heading_to_delivery, driver_arrived_delivery, delivered, status_eq,
  Target, status, other, Actor, update_driver_status as as_update_driver_status,
  assert_order_transition, is_one_of, assigned_elsewhere,
}
use maghsul_backend.Store.{
  Store, Env, Order, view, find_order, set_order, add_order_event, DriverTask, TaskType, TaskStatus,
  StaffMembership, is_active, pickup, delivery, open_task, assigned, completed,
  driver_task_updated_key, driver_task_updated, driver_task_aggregate,
}
use maghsul_backend.Store.Realtime.{safe_create_event, task_updated}
use maghsul_backend.Store.Notices.{notify_customer, notify_driver, notify_washer}
use maghsul_backend.Orders.WasherStatus.{is_delivery, status_event}

-- The names of the mobile application for statuses.
unfoldable pub translate : Target → Order → Target
translate (status t) order = status t
translate (other x) order =
    if str_eq x "picked_up"
    then (if not (is_some order.driver_staff_membership_id) || status_eq order.status pending_pickup
        then status pickup_assigned
        else status driver_arrived_pickup)
    else if str_eq x "accepted"
    then status pickup_assigned
    else if str_eq x "delivering"
    then status driver_heading_to_delivery
    else other x

abbrev pub staff_at : ℕ → ℕ → StaffMembership → Bool
staff_at identity washer m =
    m.identity_id == identity && m.washer_id == washer && is_active m.status

abbrev pub staff_anywhere : ℕ → StaffMembership → Bool
staff_anywhere identity m = m.identity_id == identity && is_active m.status

abbrev pub membership_id : Option StaffMembership → Option ℕ
membership_id none = none
membership_id (some m) = some m.id

-- The membership by which the user acts: the one of the token, or an active one of the identity,
-- of the order's washer first.
unfoldable pub acting_membership : Actor → Order → Store → Option ℕ
acting_membership user order s = elim user.staff_membership_id [
  | some m ↦ some m
  | none ↦ elim (or_else user.user_id user.id) [
    | none ↦ none
    | some identity ↦
        or_else (membership_id (find (staff_at identity order.washer_id) s.staff))
          (membership_id (find (staff_anywhere identity) s.staff))
  ]
]

abbrev pub is_open : TaskStatus → Bool
is_open open_task = true
is_open _ = false

abbrev pub is_open_or_assigned : TaskStatus → Bool
is_open_or_assigned open_task = true
is_open_or_assigned assigned = true
is_open_or_assigned _ = false

abbrev pub is_open_pickup : ℕ → DriverTask → Bool
is_open_pickup i t = t.order_id == i && not (is_delivery t.task_type) && is_open t.status

-- `data: { driverStaffMembershipId, status, events: { create } }`
abbrev pub assign_order : Order → OrderStatus → Option ℕ → Option ℕ → Option String → Store → Store
assign_order order t driver by remark s =
    add_order_event
      (record {
        order_id = order.id;
        from = some order.status;
        to = t;
        by_user_id = by;
        note = remark;
      })
      (set_order order.id (λ o. record o { status = t; driver_staff_membership_id = driver }) s)

abbrev pub assign_task : ℕ → Option ℕ → Store → Store
assign_task i driver s = record s {
  tasks =
      update_where (λ t. t.id == i)
        (λ t. record t { status = assigned; assigned_driver_id = driver }) s.tasks;
}

-- The order has no driver and is still to be picked up: an open pickup task is taken, if any.
unfoldable pub claim_writes :
    Order → OrderStatus → Actor → Option ℕ → Option String → Env → Store → Outcome Store (Unit {0})
claim_writes order t user member remark env = do
  s ← get
  let driver = or_else member (or_else user.staff_membership_id user.user_id)
  (elim (find (is_open_pickup order.id) s.tasks) [
    | none ↦ pure tt
    | some task ↦ do
      modify (assign_task task.id (or_else member user.staff_membership_id))
      safe_create_event (task_updated task.id env)
  ])
  modify (assign_order order t driver user.user_id (or_else remark (some "claimed_by_driver")))
  status_event order.id t env

abbrev pub complete_tasks : ℕ → (TaskType → Bool) → Store → Store
complete_tasks i kind s = record s {
  tasks =
      update_where (λ t. t.order_id == i && kind t.task_type && is_open_or_assigned t.status)
        (λ t. record t { status = completed }) s.tasks;
}

-- The order has this driver, or none and the status has passed the pickup's first ones.
unfoldable pub progress_writes :
    Order → OrderStatus → Actor → Option ℕ → Option String → Env → Store → Outcome Store (Unit {0})
progress_writes order t user member remark env = do
  modify (λ s.
      if status_eq t delivered_to_laundry
      then complete_tasks order.id (λ k. not (is_delivery k)) s
      else s)
  modify (λ s. if status_eq t delivered then complete_tasks order.id is_delivery s else s)
  modify (
      assign_order order t
        (or_else order.driver_staff_membership_id
          (or_else member (or_else user.staff_membership_id user.user_id)))
        user.user_id remark)
  status_event order.id t env

-- The transaction.
unfoldable pub driver_writes :
    Order → OrderStatus → Actor → Option ℕ → Option String → Env → Store → Outcome Store (Unit {0})
driver_writes order t user member remark env = elim order.driver_staff_membership_id [
  | some d ↦ do
    require (is_one_of d (member ∷ user.staff_membership_id ∷ user.user_id ∷ user.id ∷ [])) 403
        "forbidden"
    progress_writes order t user member remark env
  | none ↦ do
    require (status_eq t pickup_assigned || status_eq t driver_arrived_pickup) 400
        "driver_must_pickup_first"
    (if status_eq order.status pending_pickup || status_eq order.status pickup_assigned
        then claim_writes order t user member remark env
        else progress_writes order t user member remark env)
]

-- The texts of the notifications, by the status as it was asked for.
abbrev pub notice_type : Target → Option String
notice_type (status pickup_assigned) = some "pickup_assigned"
notice_type (status driver_heading_to_pickup) = some "driver_heading_to_pickup"
notice_type (status driver_arrived_pickup) = some "driver_arrived_pickup"
notice_type (status delivered_to_laundry) = some "delivered_to_laundry"
notice_type (status driver_heading_to_delivery) = some "driver_heading_to_delivery"
notice_type (status driver_arrived_delivery) = some "driver_arrived_delivery"
notice_type (status delivered) = some "delivered"
notice_type (status _) = none
notice_type (other x) =
    if str_eq x "picked_up"
    then some "picked_up"
    else if str_eq x "completed"
    then some "completed"
    else none

abbrev pub driver_notices : Option Order → Option String → Store → Store
driver_notices none type s = s
driver_notices (some o) none s = s
driver_notices (some o) (some type) s =
    notify_driver o type (notify_washer o type (notify_customer o type s))

-- A text that is no status is refused by the column; the check stops it before.
unfoldable pub run_transaction :
    Order → Target → Actor → Option ℕ → Option String → Env → Store → Outcome Store (Unit {0})
run_transaction order (other _) user member remark env = throw 500 "INTERNAL_ERROR"
run_transaction order (status t) user member remark env =
    transaction (driver_writes order t user member remark env)

unfoldable pub move_by_driver :
    Order
    → Target
    → Target
    → Actor
    → Option String
    → Env
    → Bool
    → Store
    → Outcome Store (Option Order)
move_by_driver order to target user remark env true = pure (some order)
move_by_driver order to target user remark env false = do
  s ← get
  run_transaction order target user (acting_membership user order s) remark env
  s' ← get
  let final_order = find_order order.id s'
  modify (driver_notices final_order (notice_type to))
  pure final_order

unfoldable pub update_driver_status :
    Actor → ℕ → Target → Option String → Env → Store → Outcome Store (Option Order)
update_driver_status user order_id to remark env = do
  s ← get
  order ← found_or (find_order order_id s) 404 "Order not found"
  let target = translate to order
  same ← lift (assert_order_transition (view order) target user as_update_driver_status)
  move_by_driver order to target user remark env same
