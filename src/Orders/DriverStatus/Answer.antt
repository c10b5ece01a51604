-- ===== src/Orders/DriverStatus/Answer.antt =====
-- The answers of `updateDriverStatus` of src/modules/orders/order.service.js.
use maghsul_backend.Base.{
  ℕ, ◌≡◌, refl, ◌∙◌, ◌≢◌, ◌⊎◌, inl, inr, true, false, Option, none, some, String, done, arith,
  Outcome-cases, Verdict-cases, Option-cases, ok, ==_refl, ==_iff,
}
use maghsul_backend.Orders.StateMachine.{
  OrderStatus, Target, status, Actor, update_driver_status as as_update_driver_status,
  assert_order_transition,
}
use maghsul_backend.Store.{Store, Env, Order, view, find_order, has_order_id}
use maghsul_backend.Store.Frame.{
  find_order_at_id, notify_customer-SameRows, notify_driver-SameRows, notify_washer-SameRows,
}
use maghsul_backend.Store.Notices.{notify_customer, notify_washer}
use maghsul_backend.Orders.StateMachine.Access.{
  Permitted, assert_order_transition_iff, idempotent_iff, Permitted-Edge, Permitted-status,
}
use maghsul_backend.Orders.StateMachine.Matrix.{Edge}
use maghsul_backend.Orders.Moved.{Moved, Moved-by_update, moved_to}
use maghsul_backend.Orders.DriverStatus.{
  update_driver_status, move_by_driver, run_transaction, driver_writes, driver_notices, notice_type,
  acting_membership, translate,
}
use maghsul_backend.Orders.DriverStatus.Laws.{Driven, driven}

driver_notices-rows :
    (out : Option Order) (type : Option String) (s : Store)
    → ((driver_notices out type s).orders ≡ s.orders)
      × ((driver_notices out type s).order_events ≡ s.order_events)
driver_notices-rows none type s = (refl, refl)
driver_notices-rows (some o) none s = (refl, refl)
driver_notices-rows (some o) (some type) s = ground (
  arith,
  notify_customer-SameRows o type s,
  notify_washer-SameRows o type (notify_customer o type s),
  notify_driver-SameRows o type (notify_washer o type (notify_customer o type s)),
)

move_same :
    (order : Order) (to target : Target) (user : Actor) (remark : Option String) (env : Env)
    (s : Store)
    → move_by_driver order to target user remark env true s ≡ done (some order) s
unfolding move_by_driver
move_same order to target user remark env s = refl

update_done :
    (user : Actor) (i : ℕ) (to : Target) (remark : Option String) (env : Env) (s : Store)
    (out : Option Order) (s' : Store)
    → update_driver_status user i to remark env s ≡ done out s'
    → (order : Order) × (find_order i s ≡ some order)
      × (((assert_order_transition (view order) (translate to order) user as_update_driver_status
              ≡ ok true)
            × (out ≡ some order)
            × (s' ≡ s))
          ⊎ ((assert_order_transition (view order) (translate to order) user as_update_driver_status
                ≡ ok false)
              × (move_by_driver order to (translate to order) user remark env false s
                  ≡ done out s')))
unfolding update_driver_status
update_done user i to remark env s out s' h = elim (Option-cases (find_order i s)) [
  | inl missing ↦ absurd (ground arith)
  | inr (order, found) ↦ (
    order,
    found,
    elim (Verdict-cases
        (assert_order_transition (view order) (translate to order) user as_update_driver_status)) [
          | inl same ↦
              let m = move_same order to (translate to order) user remark env s in
              inl (same, ground arith, ground arith)
          | inr (inl other_status) ↦ inr (other_status, ground arith)
          | inr (inr (e, refused)) ↦ absurd (ground arith)
        ],
  )
]

move_done :
    (order : Order) (to : Target) (t : OrderStatus) (user : Actor) (remark : Option String)
    (env : Env) (s : Store) (out : Option Order) (s' : Store)
    → move_by_driver order to (status t) user remark env false s ≡ done out s'
    → (s1 : Store) × (driver_writes order t user (acting_membership user order s) remark env s
        ≡ done tt s1)
      × (out ≡ find_order order.id s1)
      × (s' ≡ driver_notices out (notice_type to) s1)
unfolding move_by_driver run_transaction
move_done order to t user remark env s out s' h =
    elim (Outcome-cases
      (driver_writes order t user (acting_membership user order s) remark env s)) [
        | inl (u, s1, w) ↦ (s1, w, ground arith, ground arith)
        | inr (e, s1, w) ↦ absurd (ground arith)
      ]

-- What an accepted change of status leaves. `target` is the status behind the name that the mobile
-- application gives; the acting membership is read from the state before.
pub record Accepted (user : Actor) (i : ℕ) (to : Target) (s : Store) (out : Option Order)
    (s' : Store) : Type 0 where
  pub order : Order
  pub t : OrderStatus
  pub found : find_order i s ≡ some order
  pub target : translate to order ≡ status t
  pub permitted : Permitted (view order) (status t) user as_update_driver_status
  pub edge : Edge order.status t
  pub driven : Driven order t user (acting_membership user order s) s s'
  pub moved : Moved order t driven.driver s s'
  pub answer : out ≡ some (moved_to t driven.driver order)

module _ (user : Actor) (i : ℕ) (to : Target) (remark : Option String) (env : Env) (s : Store)
    (out : Option Order) (s' : Store) (order : Order) (found : find_order i s ≡ some order) where
  accept :
      (t : OrderStatus)
      → translate to order ≡ status t
      → status t ≢ status order.status
      → Permitted (view order) (status t) user as_update_driver_status
      → move_by_driver order to (status t) user remark env false s ≡ done out s'
      → Accepted user i to s out s'
  accept t e n p m =
      let (s1, w, answer, last) = move_done order to t user remark env s out s' m in
      let at_id = find_order_at_id i s order found in
      let d = driven order t user (acting_membership user order s) remark env s s1 w in
      let (same_orders, same_events) = driver_notices-rows out (notice_type to) s1 in
      let moved =
        Moved-by_update order t d.driver (has_order_id order.id)
          (λ o. record o { status = t; driver_staff_membership_id = d.driver }) (==_refl order.id)
          (λ o q. (==_iff o.id order.id).0 q) refl (λ o. refl) s s1 at_id d.assigned.rows in
      record {
        order = order;
        t = t;
        found = found;
        target = e;
        permitted = p;
        edge = Permitted-Edge (view order) t user as_update_driver_status n p;
        driven = record {
          driver = d.driver;
          assigned = record {
            note = d.assigned.note;
            events = rw (last, same_events) d.assigned.events;
            rows = rw (last, same_orders) d.assigned.rows;
          };
          keeps = d.keeps;
          own = d.own;
          first = d.first;
        };
        moved = record { rows = λ j. rw (last, same_orders) (moved.rows j) };
        answer = answer ∙ moved.rows order.id ∙ rw (==_refl order.id) refl;
      }

-- A call that returns has either found the order in the status that is asked for, and changed
-- nothing, or made one permitted change of status along the table. Then a driver of the order stays
-- its driver, and is one of the identifiers of the user; an order without a driver goes to
-- `pickup_assigned` or `driver_arrived_pickup`; every other order is as before, and one event of the
-- order tells the change.
pub update_driver_status_done :
    (user : Actor) (i : ℕ) (to : Target) (remark : Option String) (env : Env) (s : Store)
    (out : Option Order) (s' : Store)
    → update_driver_status user i to remark env s ≡ done out s'
    → ((order : Order) × (find_order i s ≡ some order)
        × (translate to order ≡ status order.status)
        × (out ≡ some order)
        × (s' ≡ s))
      ⊎ Accepted user i to s out s'
update_driver_status_done user i to remark env s out s' h =
    let (order, found, cases) = update_done user i to remark env s out s' h in
    elim cases [
      | inl (same, answer, kept) ↦ inl (
        order,
        found,
        (idempotent_iff (view order) (translate to order) user as_update_driver_status).0 same,
        answer,
        kept,
      )
      | inr (passed, m) ↦
          let (n, p) =
            (assert_order_transition_iff (view order) (translate to order) user
                as_update_driver_status).0
              passed in
          let (t, e) =
            Permitted-status (view order) (translate to order) user as_update_driver_status p in
          inr (
            accept user i to remark env s out s' order found t e (λ q. n (e ∙ q)) (rw e at p)
              (rw e at m))
    ]
