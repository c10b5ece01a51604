-- ===== src/Orders/WasherStatus/Laws.antt =====
-- What `updateWasherStatus` of src/modules/orders/order.service.js does on each branch.
use maghsul_backend.Base.{
  ℕ, ◌≡◌, refl, ◌∙◌, ◌≢◌, ◌⊎◌, inl, inr, true, false, Option, none, some, [], ◌∷◌, ◌++◌, String,
  update_where, done, thrown, arith, Outcome-cases, Verdict-cases, Bool-cases, Option-cases, ok,
  ApiError, ==_refl, ==_iff,
}
use maghsul_backend.Orders.StateMachine.{
  OrderStatus, ready_for_delivery, status_eq, Target, status, other, Actor,
  update_washer_status as as_update_washer_status, assert_order_transition,
}
use maghsul_backend.Store.{Store, Env, Order, OrderEvent, view, find_order, has_order_id}
use maghsul_backend.Store.Frame.{
  find_order_at_id, notify_customer-SameRows, notify_driver-SameRows, notify_washer-SameRows,
}
use maghsul_backend.Store.Realtime.{safe_create_event}
use maghsul_backend.Store.Notices.{notify_customer, notify_washer}
use maghsul_backend.Orders.StateMachine.Access.{
  Permitted, assert_order_transition_iff, idempotent_iff, Permitted-Edge, Permitted-status,
}
use maghsul_backend.Orders.StateMachine.Matrix.{status_eq_iff, Edge}
use maghsul_backend.Orders.Moved.{Moved, Moved-by_update, moved_to}
use maghsul_backend.Orders.WasherStatus.{
  update_washer_status, move_by_washer, washer_writes, ready_writes, plain_writes, is_unmoved,
  washer_notices,
}

-- An error leaves every table as it was.
pub update_washer_status_thrown :
    (user : Actor) (i : ℕ) (to : Target) (remark : Option String) (env : Env) (s : Store)
    {e : ApiError} {s' : Store}
    → update_washer_status user i to remark env s ≡ thrown e s'
    → s' ≡ s
unfolding update_washer_status move_by_washer washer_writes ready_writes plain_writes
update_washer_status_thrown user i to remark env s h = ground arith

abbrev pub moved_event : Order → OrderStatus → Option ℕ → Option String → OrderEvent
moved_event order t by remark = record {
  order_id = order.id;
  from = some order.status;
  to = t;
  by_user_id = by;
  note = remark;
}

-- The table of orders is written by a test that only the order passes.
record Written (order : Order) (t : OrderStatus) (e : OrderEvent) (s s' : Store) : Type 0 where
  found : find_order order.id s ≡ some order
  events : s'.order_events ≡ s.order_events ++ e ∷ []
  rows :
      (s'.orders ≡ update_where (has_order_id order.id) (λ o. record o { status = t }) s.orders)
      ⊎ (s'.orders ≡ update_where (is_unmoved order) (λ o. record o { status = t }) s.orders)

module _ (order : Order) (user : Actor) (remark : Option String) (env : Env) (s : Store)
    (found : find_order order.id s ≡ some order) where
  ready_writes-Written :
      (s' : Store)
      → ready_writes order user remark env s ≡ done tt s'
      → Written order ready_for_delivery
          (moved_event order ready_for_delivery user.user_id remark)
          s
          s'
  unfolding ready_writes safe_create_event
  ready_writes-Written s' h = record {
    found = found;
    events = ground arith;
    rows = inl (ground arith);
  }

  plain_writes-Written :
      (t : OrderStatus) (s' : Store)
      → plain_writes order t user remark env s ≡ done tt s'
      → Written order t (moved_event order t user.user_id remark) s s'
  unfolding plain_writes safe_create_event
  plain_writes-Written t s' h = record {
    found = found;
    events = ground arith;
    rows = inr (ground arith);
  }

  writes-Written :
      (t : OrderStatus) (s' : Store)
      → washer_writes order (status t) user remark env s ≡ done tt s'
      → Written order t (moved_event order t user.user_id remark) s s'
  unfolding washer_writes
  writes-Written t s' h = elim (Bool-cases (status_eq t ready_for_delivery)) [
    | inl r ↦
        let r' = status_eq_iff t ready_for_delivery r in
        rw r' (ready_writes-Written s' (rw (r', washer_writes) at h))
    | inr n ↦ plain_writes-Written t s' (rw (n, washer_writes) at h)
  ]

Written-Moved :
    (order : Order) (t : OrderStatus) (e : OrderEvent) (s s' : Store)
    → Written order t e s s'
    → Moved order t order.driver_staff_membership_id s s'
Written-Moved order t e s s' w = elim w.rows [
  | inl byid ↦
      Moved-by_update order t order.driver_staff_membership_id (has_order_id order.id)
        (λ o. record o { status = t }) (==_refl order.id) (λ o p. (==_iff o.id order.id).0 p) refl
        (λ o. refl) s s' w.found byid
  | inr unmoved ↦
      Moved-by_update order t order.driver_staff_membership_id (is_unmoved order)
        (λ o. record o { status = t }) (ground arith) (λ o p. ground arith) refl (λ o. refl) s s'
        w.found unmoved
]

move_done :
    (order : Order) (to : Target) (user : Actor) (remark : Option String) (env : Env) (s : Store)
    (out : Option Order) (s' : Store)
    → move_by_washer order to user remark env false s ≡ done out s'
    → (s1 : Store) × (washer_writes order to user remark env s ≡ done tt s1)
      × (out ≡ find_order order.id s1)
      × (s' ≡ washer_notices out to s1)
unfolding move_by_washer
move_done order to user remark env s out s' h =
    elim (Outcome-cases (washer_writes order to user remark env s)) [
      | inl (u, s1, w) ↦ (s1, w, ground arith, ground arith)
      | inr (e, s1, w) ↦ absurd (ground arith)
    ]

washer_notices-rows :
    (out : Option Order) (to : Target) (s : Store)
    → ((washer_notices out to s).orders ≡ s.orders)
      × ((washer_notices out to s).order_events ≡ s.order_events)
washer_notices-rows none to s = ground arith
washer_notices-rows (some o) (other x) s = ground arith
washer_notices-rows (some o) (status t) s = ground (
  arith,
  notify_customer-SameRows o "ready_for_delivery" s,
  notify_customer-SameRows o "processing_started" s,
  notify_washer-SameRows o "ready_for_delivery" (notify_customer o "ready_for_delivery" s),
  notify_driver-SameRows o "delivery_assigned"
      (notify_washer o "ready_for_delivery" (notify_customer o "ready_for_delivery" s)),
)

move_same :
    (order : Order) (to : Target) (user : Actor) (remark : Option String) (env : Env) (s : Store)
    → move_by_washer order to user remark env true s ≡ done (some order) s
unfolding move_by_washer
move_same order to user remark env s = refl

update_done :
    (user : Actor) (i : ℕ) (to : Target) (remark : Option String) (env : Env) (s : Store)
    (out : Option Order) (s' : Store)
    → update_washer_status user i to remark env s ≡ done out s'
    → (order : Order) × (find_order i s ≡ some order)
      × (((assert_order_transition (view order) to user as_update_washer_status ≡ ok true)
            × (out ≡ some order)
            × (s' ≡ s))
          ⊎ ((assert_order_transition (view order) to user as_update_washer_status ≡ ok false)
              × (move_by_washer order to user remark env false s ≡ done out s')))
unfolding update_washer_status
update_done user i to remark env s out s' h = elim (Option-cases (find_order i s)) [
  | inl missing ↦ absurd (ground arith)
  | inr (order, found) ↦ (
    order,
    found,
    elim (Verdict-cases (assert_order_transition (view order) to user as_update_washer_status)) [
      | inl same ↦ inl (
        same,
        ground (arith, move_same order to user remark env s),
        ground (arith, move_same order to user remark env s),
      )
      | inr (inl other_status) ↦ inr (other_status, ground arith)
      | inr (inr (e, refused)) ↦ absurd (ground arith)
    ],
  )
]

-- What an accepted change of status leaves.
pub record Accepted (user : Actor) (i : ℕ) (to : Target) (remark : Option String) (s : Store)
    (out : Option Order) (s' : Store) : Type 0 where
  pub order : Order
  pub t : OrderStatus
  pub found : find_order i s ≡ some order
  pub target : to ≡ status t
  pub permitted : Permitted (view order) to user as_update_washer_status
  pub edge : Edge order.status t
  pub moved : Moved order t order.driver_staff_membership_id s s'
  pub answer : out ≡ some (moved_to t order.driver_staff_membership_id order)
  pub event : s'.order_events ≡ s.order_events ++ moved_event order t user.user_id remark ∷ []

module _ (user : Actor) (i : ℕ) (to : Target) (remark : Option String) (env : Env) (s : Store)
    (out : Option Order) (s' : Store) (order : Order) (found : find_order i s ≡ some order) where
  accept :
      (t : OrderStatus)
      → to ≡ status t
      → status t ≢ status order.status
      → Permitted (view order) to user as_update_washer_status
      → move_by_washer order to user remark env false s ≡ done out s'
      → Accepted user i to remark s out s'
  accept t e n p m =
      let (s1, w, answer, last) = move_done order to user remark env s out s' m in
      let at_id = find_order_at_id i s order found in
      let written = writes-Written order user remark env s at_id t s1 (rw e at w) in
      let moved = Written-Moved order t _ s s1 written in
      let (same_orders, same_events) = washer_notices-rows out to s1 in
      record {
        order = order;
        t = t;
        found = found;
        target = e;
        permitted = p;
        edge = Permitted-Edge (view order) t user as_update_washer_status n (rw e at p);
        moved = record { rows = λ j. rw (last, same_orders) (moved.rows j) };
        answer = answer ∙ moved.rows order.id ∙ rw (==_refl order.id) refl;
        event = rw (last, same_events) written.events;
      }

-- A call that returns has either found the order in the status that is asked for, and changed
-- nothing, or made one permitted change of status along the table: it found the order, the check
-- permits the actor, the row has the new status and its other columns are kept, every other order is
-- as before, and one event of the order tells the change.
pub update_washer_status_done :
    (user : Actor) (i : ℕ) (to : Target) (remark : Option String) (env : Env) (s : Store)
    (out : Option Order) (s' : Store)
    → update_washer_status user i to remark env s ≡ done out s'
    → ((order : Order) × (find_order i s ≡ some order)
        × (to ≡ status order.status)
        × (out ≡ some order)
        × (s' ≡ s))
      ⊎ Accepted user i to remark s out s'
update_washer_status_done user i to remark env s out s' h =
    let (order, found, cases) = update_done user i to remark env s out s' h in
    elim cases [
      | inl (same, answer, kept) ↦ inl (
        order,
        found,
        (idempotent_iff (view order) to user as_update_washer_status).0 same,
        answer,
        kept,
      )
      | inr (passed, m) ↦
          let (n, p) =
            (assert_order_transition_iff (view order) to user as_update_washer_status).0 passed in
          let (t, e) = Permitted-status (view order) to user as_update_washer_status p in
          inr (accept user i to remark env s out s' order found t e (λ q. n (e ∙ q)) p m)
    ]

-- The texts that are no status of an order, such as "washing", "ready" and "completed", are refused
-- whatever the actor and the tables are.
pub update_washer_status_other :
    (user : Actor) (i : ℕ) (x : String) (remark : Option String) (env : Env) (s : Store)
    (out : Option Order) (s' : Store)
    → update_washer_status user i (other x) remark env s ≢ done out s'
update_washer_status_other user i x remark env s out s' h =
    elim (update_washer_status_done user i (other x) remark env s out s' h) [
      | inl (order, found, e, answer, kept) ↦ cc
      | inr a ↦ let e = a.target in cc
    ]
