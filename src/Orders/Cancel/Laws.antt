-- ===== src/Orders/Cancel/Laws.antt =====
-- What `customerCancel` of src/modules/orders/order.service.js does on each branch.
use maghsul_backend.Base.{
  ℕ, ◌≡◌, refl, false, Option, none, some, List, [], ◌∷◌, ◌++◌, update_where, done, thrown, All,
  select, arith, >>-eq-done, ApiError, ==_refl, ==_iff,
}
use maghsul_backend.Orders.StateMachine.{cancelled, Actor}
use maghsul_backend.Store.{
  Store, Env, Order, OrderEvent, view, find_order, set_order, has_order_id, add_order_event,
  DriverTask, TaskStatus,
}
use maghsul_backend.Store
use maghsul_backend.Store.Frame.{SameRows, SameRows-trans, create-SameRows}
use maghsul_backend.Store.Realtime.{safe_create_event, task_updated, status_updated}
use maghsul_backend.Orders.Moved.{Moved, Moved-by_update}
use maghsul_backend.Orders.Cancel.{
  customer_cancel, cancel_writes, cancel_events, cancel_tasks, cancel_order, is_live_of,
}

-- An error leaves every table as it was.
pub customer_cancel_thrown :
    (actor : Actor) (identity : Option ℕ) (i : ℕ) (env : Env) (s : Store) {e : ApiError}
    {s' : Store}
    → customer_cancel actor identity i env s ≡ thrown e s'
    → s' ≡ s
unfolding customer_cancel
customer_cancel_thrown actor identity i env s h = ground arith

cancel_events-SameRows :
    (ts : List DriverTask) (env : Env) (s s' : Store)
    → cancel_events ts env s ≡ done tt s'
    → SameRows s s'
unfolding cancel_events
cancel_events-SameRows [] env s s' h = ground arith
cancel_events-SameRows (t ∷ ts) env s s' h =
    let (s1, first, rest) =
      >>-eq-done (safe_create_event (task_updated t.id env)) (cancel_events ts env) s tt s' h in
    SameRows-trans s s1 s' (create-SameRows (task_updated t.id env) s s1 first)
      (cancel_events-SameRows ts env s1 s' rest)

-- No task of the order is open, assigned or in progress.
abbrev pub NoLiveTask : ℕ → List DriverTask → Type 0
NoLiveTask i ts = All (λ t. is_live_of i t ≡ false) ts

cancel_tasks-NoLiveTask :
    (i : ℕ) (ts : List DriverTask)
    → NoLiveTask i
        (update_where (is_live_of i) (λ t. record t { status = Store.TaskStatus.cancelled }) ts)
cancel_tasks-NoLiveTask i [] = tt
cancel_tasks-NoLiveTask i (t ∷ ts) = (ground arith, cancel_tasks-NoLiveTask i ts)

-- The transaction, on a state in which the order is found.
pub record Cancelled (order : Order) (by : Option ℕ) (s s' : Store) : Type 0 where
  pub moved : Moved order cancelled none s s'
  pub events :
      s'.order_events
      ≡ s.order_events
        ++ record {
          order_id = order.id;
          from = some order.status;
          to = cancelled;
          by_user_id = by;
          note = some "customer_cancelled";
        }
          ∷ []
  pub tasks : NoLiveTask order.id s'.tasks

module _ (order : Order) (by : Option ℕ) (env : Env) (s s' : Store)
    (found : find_order order.id s ≡ some order)
    (h : cancel_writes order by env s ≡ done tt s') where
  cancel_writes_done :
      (s1 : Store) × SameRows (cancel_tasks order.id s) s1 × SameRows (cancel_order order by s1) s'
  unfolding cancel_writes
  cancel_writes_done =
      let (s1, first, rest) =
        >>-eq-done (cancel_events (select (is_live_of order.id) s.tasks) env)
          (λ s1.
            safe_create_event (status_updated order.id cancelled env) (cancel_order order by s1))
          (cancel_tasks order.id s) tt s' h in
      (
        s1,
        cancel_events-SameRows (select (is_live_of order.id) s.tasks) env (cancel_tasks order.id s)
            s1 first,
        create-SameRows (status_updated order.id cancelled env) (cancel_order order by s1) s' rest,
      )

  pub cancel_writes-Cancelled : Cancelled order by s s'
  cancel_writes-Cancelled =
      let (s1, before, behind) = cancel_writes_done in
      record {
        moved =
            Moved-by_update order cancelled none (has_order_id order.id)
              (λ o. record o { status = cancelled; driver_staff_membership_id = none })
              (==_refl order.id) (λ o q. (==_iff o.id order.id).0 q) refl (λ o. refl) s s' found
              (ground (arith, before.orders, behind.orders));
        events = ground (arith, before.order_events, behind.order_events);
        tasks = rw (behind.tasks, before.tasks) (cancel_tasks-NoLiveTask order.id s.tasks);
      }
