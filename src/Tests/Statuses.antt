-- ===== src/Tests/Statuses.antt =====
-- Walks through the table of statuses, and the check of a transition on concrete orders.
use maghsul_backend.Base.{◌≡◌, ◌≢◌, ◌↔◌, refl, false, none, ok}
use maghsul_backend.Orders.StateMachine.{
  OrderStatus, OrderView, pending_pickup, received_in_laundry, invoice_generated, payment_confirmed,
  ready_for_delivery, delivery_assigned, delivered, is_allowed_transition, allowed_transitions,
  status, assert_order_transition, update_washer_status,
}
use maghsul_backend.Orders.StateMachine.Matrix.{Edge, Walk, here, step}
use maghsul_backend.Orders.StateMachine.Access.{Permitted, assert_order_transition_iff}
use maghsul_backend.Store.{view, online, unpaid}
use maghsul_backend.Tests.Fixture.{order_one, worker_one}

received : Edge pending_pickup received_in_laundry
unfolding is_allowed_transition allowed_transitions
received = record { allowed = refl; changes = λ e. cc }

billed : Edge received_in_laundry invoice_generated
unfolding is_allowed_transition allowed_transitions
billed = record { allowed = refl; changes = λ e. cc }

ready : Edge invoice_generated ready_for_delivery
unfolding is_allowed_transition allowed_transitions
ready = record { allowed = refl; changes = λ e. cc }

sent : Edge ready_for_delivery delivery_assigned
unfolding is_allowed_transition allowed_transitions
sent = record { allowed = refl; changes = λ e. cc }

handed_over : Edge delivery_assigned delivered
unfolding is_allowed_transition allowed_transitions
handed_over = record { allowed = refl; changes = λ e. cc }

paid_ready : Edge payment_confirmed ready_for_delivery
unfolding is_allowed_transition allowed_transitions
paid_ready = record { allowed = refl; changes = λ e. cc }

abbrev whole : Walk pending_pickup delivered
whole = step received (step billed (step ready (step sent (step handed_over here))))

abbrev waiting : OrderStatus → OrderView
waiting t = view (order_one t online unpaid none)

assert_order_transition_iff_example :
    (assert_order_transition
        (waiting pending_pickup)
        (status received_in_laundry)
        worker_one
        update_washer_status
      ≡ ok false)
    ↔ ((status received_in_laundry ≢ status pending_pickup)
        × Permitted
            (waiting pending_pickup)
            (status received_in_laundry)
            worker_one
            update_washer_status)
assert_order_transition_iff_example =
    assert_order_transition_iff (waiting pending_pickup) (status received_in_laundry) worker_one
      update_washer_status
