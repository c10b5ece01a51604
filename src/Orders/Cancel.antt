-- ===== src/Orders/Cancel.antt =====
-- `customerCancel` of src/modules/orders/order.service.js.
pub mod Laws
pub mod Answer
use maghsul_backend.Base.{
  ℕ, Bool, true, false, ◌&&◌, Option, none, some, List, [], ◌∷◌, String, ◌==◌, is_some, select,
  update_where, Outcome, lift, transaction, found_or, ◌>>=◌, ◌>>◌, require, get, modify, pure,
}
use maghsul_backend.Orders.StateMachine.{
  cancelled, Target, status, Actor, customer, customer_cancel as as_customer_cancel, driver,
  assert_order_transition,
}
use maghsul_backend.Store.{
  Store, Env, Order, view, find_order, set_order, add_order_event, DriverTask, TaskStatus,
  open_task, assigned, in_progress, driver_task_updated_key, driver_task_updated,
  driver_task_aggregate,
}
use maghsul_backend.Store
use maghsul_backend.Store.Realtime.{safe_create_event, task_updated}
use maghsul_backend.Store.Notices.{notify_customer, notify_washer, add_notices}
use maghsul_backend.Orders.WasherStatus.{status_event}

abbrev pub is_live_task : TaskStatus → Bool
is_live_task open_task = true
is_live_task assigned = true
is_live_task in_progress = true
is_live_task _ = false

abbrev pub is_live_of : ℕ → DriverTask → Bool
is_live_of i t = t.order_id == i && is_live_task t.status

-- The loop over the tasks that were live: an event for each.
unfoldable pub cancel_events : List DriverTask → Env → Store → Outcome Store (Unit {0})
cancel_events [] env = pure tt
cancel_events (t ∷ ts) env = do safe_create_event (task_updated t.id env); cancel_events ts env

abbrev pub cancel_tasks : ℕ → Store → Store
cancel_tasks i s = record s {
  tasks =
      update_where (is_live_of i) (λ t. record t { status = Store.TaskStatus.cancelled }) s.tasks;
}

abbrev pub cancel_order : Order → Option ℕ → Store → Store
cancel_order order by s =
    add_order_event
      (record {
        order_id = order.id;
        from = some order.status;
        to = cancelled;
        by_user_id = by;
        note = some "customer_cancelled";
      })
      (set_order order.id (λ o. record o { status = cancelled; driver_staff_membership_id = none })
        s)

-- The transaction.
unfoldable pub cancel_writes : Order → Option ℕ → Env → Store → Outcome Store (Unit {0})
cancel_writes order identity env = do
  s ← get
  let active_tasks = select (is_live_of order.id) s.tasks
  modify (cancel_tasks order.id)
  cancel_events active_tasks env
  modify (cancel_order order identity)
  status_event order.id cancelled env

abbrev pub cancel_notices : Order → Option Order → Store → Store
cancel_notices order none s = s
cancel_notices order (some updated) s =
    let s' =
      notify_washer updated "order_cancelled" (notify_customer updated "order_cancelled" s) in
    elim order.driver_staff_membership_id [
      | none ↦ s'
      | some d ↦
          add_notices
            (record { user_id = d; order_id = updated.id; role = driver; type = "order_cancelled" }
              ∷ [])
            s'
    ]

-- The membership of the customer is read and not used, and the idempotent answer of the check
-- is not looked at. The identity of the actor is an argument of its own.
unfoldable pub customer_cancel : Actor → Option ℕ → ℕ → Env → Store → Outcome Store (Option Order)
customer_cancel actor identity order_id env = do
  require (is_some actor.washer_id) 403 "forbidden"
  s ← get
  order ← found_or (find_order order_id s) 404 "Order not found"
  same ← lift (
      assert_order_transition (view order) (status cancelled)
        (record actor { role = some customer }) as_customer_cancel)
  transaction (cancel_writes order identity env)
  s' ← get
  modify (cancel_notices order (find_order order.id s'))
  s'' ← get
  pure (find_order order_id s'')
