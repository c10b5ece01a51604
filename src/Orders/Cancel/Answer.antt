-- ===== src/Orders/Cancel/Answer.antt =====
-- The answers of `customerCancel` of src/modules/orders/order.service.js.
use maghsul_backend.Base.{
  ℕ, ◌≡◌, refl, ap, sym, ◌≢◌, inl, inr, true, false, Option, none, some, List, [], ◌∷◌, done,
  thrown, api_error, select, arith, Outcome-cases, Verdict-cases, Option-cases, ok, ApiError,
}
use maghsul_backend.Orders.StateMachine.{
  OrderStatus, cancelled, status, Actor, customer, customer_cancel as as_customer_cancel,
  assert_order_transition,
}
use maghsul_backend.Store.{Store, Env, Order, view, find_order, DriverTask}
use maghsul_backend.Store.Frame.{
  SameRows, SameRows-refl, find_order_at_id, notify_customer-SameRows, notify_washer-SameRows,
}
use maghsul_backend.Store.Realtime.{safe_create_event, task_updated}
use maghsul_backend.Store.Notices.{notify_customer}
use maghsul_backend.Orders.StateMachine.Access.{
  assert_order_transition_iff, idempotent_iff, IsWithCustomer,
}
use maghsul_backend.Orders.Cancel.{
  customer_cancel, cancel_writes, cancel_events, cancel_notices, cancel_tasks, is_live_of,
}
use maghsul_backend.Orders.Cancel.Laws.{Cancelled, cancel_writes-Cancelled}

abbrev as_customer : Actor → Actor
as_customer actor = record actor { role = some customer }

cancel_notices-SameRows :
    (order : Order) (out : Option Order) (s : Store) → SameRows s (cancel_notices order out s)
cancel_notices-SameRows order none s = SameRows-refl s
cancel_notices-SameRows order (some o) s = ground (
  arith,
  notify_customer-SameRows o "order_cancelled" s,
  notify_washer-SameRows o "order_cancelled" (notify_customer o "order_cancelled" s),
)

-- The parts of a call that returns.
cancel_done :
    (actor : Actor) (identity : Option ℕ) (i : ℕ) (env : Env) (s : Store) (out : Option Order)
    (s' : Store)
    → customer_cancel actor identity i env s ≡ done out s'
    → (order : Order) × (s1 : Store) × (find_order i s ≡ some order)
      × (assert_order_transition
              (view order)
              (status cancelled)
              (as_customer actor)
              as_customer_cancel
            ≢ ok true
          → assert_order_transition
              (view order)
              (status cancelled)
              (as_customer actor)
              as_customer_cancel
            ≡ ok false)
      × (cancel_writes order identity env s ≡ done tt s1)
      × (s' ≡ cancel_notices order (find_order order.id s1) s1)
unfolding customer_cancel
cancel_done actor identity i env s out s' h = elim (Option-cases (find_order i s)) [
  | inl missing ↦ absurd (ground arith)
  | inr (order, found) ↦ elim (Outcome-cases (cancel_writes order identity env s)) [
    | inr (e, s1, w) ↦ absurd (ground arith)
    | inl (u, s1, w) ↦
        elim (Verdict-cases (
          assert_order_transition (view order) (status cancelled) (as_customer actor)
            as_customer_cancel)) [
              | inl same ↦ (order, s1, found, λ n. absurd (n same), w, ground arith)
              | inr (inl other_status) ↦ (order, s1, found, λ n. other_status, w, ground arith)
              | inr (inr (e, refused)) ↦ absurd (ground arith)
            ]
  ]
]

-- A call that returns leaves the order cancelled and without a driver, whatever its tasks were no
-- task of it is live, one event of the order tells the change, and every other order is as before.
-- If the order was not cancelled before, the laundry is the actor's and the clothes were still with
-- a customer; of a cancelled order nothing is asked. That the order is the customer's own is not
-- asked in either case.
pub customer_cancel_done :
    (actor : Actor) (identity : Option ℕ) (i : ℕ) (env : Env) (s : Store) (out : Option Order)
    (s' : Store)
    → customer_cancel actor identity i env s ≡ done out s'
    → (order : Order) × (find_order i s ≡ some order)
      × Cancelled order identity s s'
      × ((order.status ≢ cancelled)
          → (actor.washer_id ≡ some order.washer_id) × IsWithCustomer order.status)
customer_cancel_done actor identity i env s out s' h =
    let (order, s1, found, passed, w, last) = cancel_done actor identity i env s out s' h in
    let at_id = find_order_at_id i s order found in
    let c = cancel_writes-Cancelled order identity env s s1 at_id w in
    let kept = cancel_notices-SameRows order (find_order order.id s1) s1 in
    (
      order,
      found,
      record {
        moved = record { rows = λ j. rw (last, kept.orders) (c.moved.rows j) };
        events = rw (last, kept.order_events) c.events;
        tasks = rw (last, kept.tasks) c.tasks;
      },
      λ live.
          let p =
            ((assert_order_transition_iff (view order) (status cancelled) (as_customer actor)
                as_customer_cancel).0
              (passed (λ e. live (
                sym_status (
                  (idempotent_iff (view order) (status cancelled) (as_customer actor)
                      as_customer_cancel).0
                    e))))).1 in
          (p.same_washer, p.by_customer refl),
    )
  where
    sym_status : {t : OrderStatus} → status cancelled ≡ status t → t ≡ cancelled
    sym_status e = cc

cancel_events_thrown :
    (ts : List DriverTask) (env : Env) (s : Store) (e : ApiError) (s' : Store)
    → cancel_events ts env s ≡ thrown e s'
    → e ≡ api_error 500 "realtime_event_key_collision"
unfolding cancel_events safe_create_event
cancel_events_thrown [] env s e s' h = cc
cancel_events_thrown (t ∷ ts) env s e s' h =
    elim (Outcome-cases (safe_create_event (task_updated t.id env) s)) [
      | inl (u, s1, w) ↦ cancel_events_thrown ts env s1 e s' (ground arith)
      | inr (e', s1, w) ↦ ground arith
    ]

cancel_writes_thrown :
    (order : Order) (by : Option ℕ) (env : Env) (s : Store) (e : ApiError) (s' : Store)
    → cancel_writes order by env s ≡ thrown e s'
    → e ≡ api_error 500 "realtime_event_key_collision"
unfolding cancel_writes safe_create_event
cancel_writes_thrown order by env s e s' h =
    let tasks = select (is_live_of order.id) s.tasks in
    elim (Outcome-cases (cancel_events tasks env (cancel_tasks order.id s))) [
      | inl (u, s1, w) ↦ ground arith
      | inr (e', s1, w) ↦
          let e'-is = cancel_events_thrown tasks env (cancel_tasks order.id s) e' s1 w in
          ground arith
    ]

-- A cancellation of a cancelled order is refused to nobody who has a laundry at all, his own or
-- another: the only error is a collision of keys in the realtime outbox.
pub customer_cancel_cancelled :
    (actor : Actor) (w : ℕ) (identity : Option ℕ) (i : ℕ) (env : Env) (s : Store) (order : Order)
    (e : ApiError) (s' : Store)
    → actor.washer_id ≡ some w
    → find_order i s ≡ some order
    → order.status ≡ cancelled
    → customer_cancel actor identity i env s ≡ thrown e s'
    → e ≡ api_error 500 "realtime_event_key_collision"
unfolding customer_cancel
customer_cancel_cancelled actor w identity i env s order e s' c found gone h =
    let same =
      (idempotent_iff (view order) (status cancelled) (as_customer actor) as_customer_cancel).1
        (ap status (sym gone)) in
    elim (Outcome-cases (cancel_writes order identity env s)) [
      | inl (u, s1, w) ↦ absurd (ground arith)
      | inr (e', s1, w) ↦
          let e'-is = cancel_writes_thrown order identity env s e' s1 w in ground arith
    ]
