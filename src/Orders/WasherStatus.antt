-- ===== src/Orders/WasherStatus.antt =====
-- `updateWasherStatus` of src/modules/orders/order.service.js.
pub mod Laws
use maghsul_backend.Base.{
  ℕ, Bool, true, false, not, ◌||◌, ◌&&◌, Option, none, some, List, [], ◌∷◌, ◌++◌, String, ◌==◌,
  is_some, if◌then◌else◌, any, find, update_where, Outcome, done, thrown, throw, api_error, lift,
  transaction, found_or, ◌>>=◌, ◌>>◌, require, get, modify, pure,
}
use maghsul_backend.Orders.StateMachine.{
  OrderStatus, ready_for_delivery, sorting_in_progress, sorting_confirmed, status_eq, Target,
  status, other, Actor, update_washer_status as as_update_washer_status, assert_order_transition,
}
use maghsul_backend.Store.{
  Store, Env, Order, view, find_order, set_order, has_order_id, add_order_event, DriverTask,
  delivery, TaskType, pickup, open_task, order_status_key, order_status_updated, order_aggregate,
  driver_task_created_key, driver_task_created, driver_task_aggregate,
}
use maghsul_backend.Store.Realtime.{safe_create_event, status_updated}
use maghsul_backend.Store.Notices.{notify_customer, notify_driver, notify_washer}

abbrev pub is_delivery : TaskType → Bool
is_delivery delivery = true
is_delivery pickup = false

abbrev pub has_delivery_task : ℕ → Store → Bool
has_delivery_task i s = any (λ t. t.order_id == i && is_delivery t.task_type) s.tasks

-- The event that every change of status leaves in the realtime outbox.
abbrev pub status_event : ℕ → OrderStatus → Env → Store → Outcome Store (Unit {0})
status_event i t env = safe_create_event (status_updated i t env)

-- `data: { status, events: { create: { from, to, byUserId, note } } }`; a note that is missing or
-- empty is `none`.
abbrev pub move_order : Order → OrderStatus → Option ℕ → Option String → Store → Store
move_order order t by remark s =
    add_order_event
      (record {
        order_id = order.id;
        from = some order.status;
        to = t;
        by_user_id = by;
        note = remark;
      })
      (set_order order.id (λ o. record o { status = t }) s)

-- The branch of `to === 'ready_for_delivery'`: the delivery task is made if there is none.
unfoldable pub ready_writes : Order → Actor → Option String → Env → Store → Outcome Store (Unit {0})
ready_writes order user remark env = do
  s ← get
  let existing = has_delivery_task order.id s
  let task_id = env.new_id 0
  modify (λ s. if existing then s else record s {
    tasks =
        s.tasks
        ++ record {
          id = task_id;
          order_id = order.id;
          task_type = delivery;
          status = open_task;
          assigned_driver_id = none;
        }
          ∷ [];
  })
  modify (move_order order ready_for_delivery user.user_id remark)
  status_event order.id ready_for_delivery env
  (if existing
      then pure tt
      else safe_create_event (record {
        event_key = driver_task_created_key task_id;
        event_type = driver_task_created;
        aggregate_type = driver_task_aggregate;
        aggregate_id = task_id;
      }))

-- `where: { id, status: order.status }`
abbrev pub is_unmoved : Order → Order → Bool
is_unmoved order o = o.id == order.id && status_eq o.status order.status

-- The other statuses: the write is made only if the status is still the one that was read.
unfoldable pub plain_writes :
    Order → OrderStatus → Actor → Option String → Env → Store → Outcome Store (Unit {0})
plain_writes order t user remark env = do
  s ← get
  require (any (is_unmoved order) s.orders) 409 "CONCURRENCY_CONFLICT"
  modify (λ s.
      add_order_event
        (record {
          order_id = order.id;
          from = some order.status;
          to = t;
          by_user_id = user.user_id;
          note = remark;
        })
        (record s {
          orders = update_where (is_unmoved order) (λ o. record o { status = t }) s.orders;
        }))
  status_event order.id t env

-- The transaction. The texts "washing" and "ready" have branches of their own in the source, whose
-- write of a status that the column does not have is refused; `assertOrderTransition` stops such
-- a text before.
unfoldable pub washer_writes :
    Order → Target → Actor → Option String → Env → Store → Outcome Store (Unit {0})
washer_writes order (other _) user remark env = throw 500 "INTERNAL_ERROR"
washer_writes order (status t) user remark env =
    if status_eq t ready_for_delivery
    then ready_writes order user remark env
    else plain_writes order t user remark env

-- The notifications behind the transaction.
abbrev pub washer_notices : Option Order → Target → Store → Store
washer_notices none to s = s
washer_notices (some updated) (other _) s = s
washer_notices (some updated) (status t) s =
    if status_eq t ready_for_delivery
    then notify_driver updated "delivery_assigned" (
        notify_washer updated "ready_for_delivery" (notify_customer updated "ready_for_delivery" s))
    else if status_eq t sorting_in_progress || status_eq t sorting_confirmed
    then notify_customer updated "processing_started" s
    else s

-- Behind an idempotent answer of the check nothing is written.
unfoldable pub move_by_washer :
    Order → Target → Actor → Option String → Env → Bool → Store → Outcome Store (Option Order)
move_by_washer order to user remark env true = pure (some order)
move_by_washer order to user remark env false = do
  transaction (washer_writes order to user remark env)
  s ← get
  let updated = find_order order.id s
  modify (washer_notices updated to)
  pure updated

unfoldable pub update_washer_status :
    Actor → ℕ → Target → Option String → Env → Store → Outcome Store (Option Order)
update_washer_status user order_id to remark env = do
  require (is_some user.washer_id) 400 "washer_id_missing"
  s ← get
  order ← found_or (find_order order_id s) 404 "Order not found"
  same ← lift (assert_order_transition (view order) to user as_update_washer_status)
  move_by_washer order to user remark env same
