-- ===== src/Tests/Moves.antt =====
-- Runs of the order service, and its theorems at them.
use maghsul_backend.Base.{
  [], ◌∷◌, ◌≡◌, ◌≢◌, ◌⊎◌, ◌↔◌, refl, true, false, Option, none, some, Outcome, done, thrown,
  final_state, api_error, ok,
}
use maghsul_backend.Orders.StateMachine.{
  pending_pickup, pickup_assigned, ready_for_delivery, delivered, cancelled, packaging,
  delivery_assigned, is_allowed_transition, allowed_transitions, status, other,
  assert_order_transition, customer_rule, driver_rule, is_driver_target, is_cancelable,
}
use maghsul_backend.Orders.StateMachine.Access.{IsWithCustomer}
use maghsul_backend.Store.{
  Invoice, order_status_key, order_status_updated, order_aggregate, Store, Order, online,
  cash_on_delivery, unpaid, find_order, CustomerMembership, find_customer, paid,
}
use maghsul_backend.Store.Realtime.{safe_create_event, event_matches, key_eq}
use maghsul_backend.Store.Notices.{notify_customer, notify_driver, notify_washer}
use maghsul_backend.Orders.WasherStatus.{
  update_washer_status, move_by_washer, washer_writes, ready_writes, plain_writes,
}
use maghsul_backend.Orders.WasherStatus.Laws.{
  update_washer_status_thrown, update_washer_status_done, update_washer_status_other,
}
use maghsul_backend.Orders.WasherStatus.Laws as Washer
use maghsul_backend.Orders.DriverStatus.{
  update_driver_status, move_by_driver, run_transaction, driver_writes, claim_writes,
  progress_writes, acting_membership, translate,
}
use maghsul_backend.Orders.DriverStatus.Answer.{update_driver_status_done}
use maghsul_backend.Orders.DriverStatus.Answer as Driver
use maghsul_backend.Orders.Cancel.{customer_cancel, cancel_writes, cancel_events}
use maghsul_backend.Orders.Cancel.Laws.{Cancelled}
use maghsul_backend.Orders.Cancel.Answer.{customer_cancel_done}
use maghsul_backend.Orders.Reads.{may_read, get_order, get_order_invoice, get_order-customer_iff}
use maghsul_backend.Tests.Fixture.{order_one, tables, env_one, worker_one, driver_one, customer_of}

abbrev packed : Order
packed = order_one packaging online paid (some 7)

abbrev fresh_order : Order
fresh_order = order_one pending_pickup cash_on_delivery unpaid none

abbrev gone : Order
gone = order_one cancelled cash_on_delivery unpaid none

-- The laundry makes order 1 ready.
abbrev readied : Outcome Store (Option Order)
readied = update_washer_status worker_one 1 (status ready_for_delivery) none env_one (tables packed)

readied_runs : readied ≡ done (find_order 1 (final_state readied)) (final_state readied)
unfolding update_washer_status move_by_washer washer_writes ready_writes plain_writes
    safe_create_event key_eq event_matches assert_order_transition customer_rule driver_rule
    is_allowed_transition allowed_transitions is_driver_target is_cancelable notify_customer
    notify_driver notify_washer
readied_runs = refl

update_washer_status_done_example :
    ((order : Order) × (find_order 1 (tables packed) ≡ some order)
      × (status ready_for_delivery ≡ status order.status)
      × (find_order 1 (final_state readied) ≡ some order)
      × (final_state readied ≡ tables packed))
    ⊎ Washer.Accepted worker_one 1
        (status ready_for_delivery)
        none
        (tables packed)
        (find_order 1 (final_state readied))
        (final_state readied)
update_washer_status_done_example =
    update_washer_status_done worker_one 1 (status ready_for_delivery) none env_one (tables packed)
      (find_order 1 (final_state readied)) (final_state readied) readied_runs

-- It does not deliver it.
abbrev undelivered : Outcome Store (Option Order)
undelivered = update_washer_status worker_one 1 (status delivered) none env_one (tables packed)

undelivered_runs :
    undelivered ≡ thrown (api_error 400 "invalid_transition") (final_state undelivered)
unfolding update_washer_status assert_order_transition is_allowed_transition allowed_transitions
undelivered_runs = refl

-- A driver takes a fresh order by the application's name for it.
abbrev claimed : Outcome Store (Option Order)
claimed = update_driver_status driver_one 1 (other "accepted") none env_one (tables fresh_order)

claimed_runs : claimed ≡ done (find_order 1 (final_state claimed)) (final_state claimed)
unfolding update_driver_status move_by_driver run_transaction driver_writes claim_writes
    progress_writes acting_membership translate safe_create_event key_eq event_matches
    assert_order_transition customer_rule driver_rule is_allowed_transition allowed_transitions
    is_driver_target is_cancelable notify_customer notify_driver notify_washer
claimed_runs = refl

claimed_driver :
    find_order 1 (final_state claimed)
    ≡ some (order_one pickup_assigned cash_on_delivery unpaid (some 7))
unfolding update_driver_status move_by_driver run_transaction driver_writes claim_writes
    progress_writes acting_membership translate safe_create_event key_eq event_matches
    assert_order_transition customer_rule driver_rule is_allowed_transition allowed_transitions
    is_driver_target is_cancelable notify_customer notify_driver notify_washer
claimed_driver = refl

update_driver_status_done_example :
    ((order : Order) × (find_order 1 (tables fresh_order) ≡ some order)
      × (translate (other "accepted") order ≡ status order.status)
      × (find_order 1 (final_state claimed) ≡ some order)
      × (final_state claimed ≡ tables fresh_order))
    ⊎ Driver.Accepted driver_one 1
        (other "accepted")
        (tables fresh_order)
        (find_order 1 (final_state claimed))
        (final_state claimed)
update_driver_status_done_example =
    update_driver_status_done driver_one 1 (other "accepted") none env_one (tables fresh_order)
      (find_order 1 (final_state claimed)) (final_state claimed) claimed_runs

-- Another driver's order is not moved.
abbrev foreign : Outcome Store (Option Order)
foreign =
    update_driver_status driver_one 1 (status delivered) none env_one
      (tables (order_one delivery_assigned online paid (some 8)))

foreign_runs : foreign ≡ thrown (api_error 403 "forbidden") (final_state foreign)
unfolding update_driver_status translate assert_order_transition customer_rule driver_rule
    is_allowed_transition allowed_transitions is_driver_target is_cancelable
foreign_runs = refl

-- Somebody of the same laundry who is not the order's customer cancels it.
abbrev withdrawn : Outcome Store (Option Order)
withdrawn = customer_cancel (customer_of 3) (some 51) 1 env_one (tables fresh_order)

withdrawn_runs : withdrawn ≡ done (find_order 1 (final_state withdrawn)) (final_state withdrawn)
unfolding customer_cancel cancel_writes cancel_events safe_create_event key_eq event_matches
    assert_order_transition customer_rule driver_rule is_allowed_transition allowed_transitions
    is_driver_target is_cancelable notify_customer notify_washer
withdrawn_runs = refl

customer_cancel_done_example :
    (order : Order) × (find_order 1 (tables fresh_order) ≡ some order)
    × Cancelled order (some 51) (tables fresh_order) (final_state withdrawn)
    × ((order.status ≢ cancelled)
        → ((customer_of 3).washer_id ≡ some order.washer_id) × IsWithCustomer order.status)
customer_cancel_done_example =
    customer_cancel_done (customer_of 3) (some 51) 1 env_one (tables fresh_order)
      (find_order 1 (final_state withdrawn)) (final_state withdrawn) withdrawn_runs

-- An order that is in the laundry is not cancelled by its customer.
abbrev too_late : Outcome Store (Option Order)
too_late = customer_cancel (customer_of 3) (some 50) 1 env_one (tables packed)

too_late_runs : too_late ≡ thrown (api_error 400 "invalid_transition") (final_state too_late)
unfolding customer_cancel assert_order_transition is_allowed_transition allowed_transitions
too_late_runs = refl

get_order-customer_iff_example :
    (get_order true (customer_of 3) 50 1 (tables packed) ≡ ok packed) ↔ (
      (find_order 1 (tables packed) ≡ some packed)
      × ((m : CustomerMembership) × (find_customer 50 (some 3) (tables packed) ≡ some m)
          × (packed.customer_membership_id ≡ m.id)))
get_order-customer_iff_example = get_order-customer_iff (customer_of 3) 50 1 (tables packed) packed

shown : get_order false driver_one 70 1 (tables packed) ≡ ok packed
unfolding get_order may_read
shown = refl

abbrev billed : Invoice
billed = record {
  id = 2;
  order_id = 1;
  subtotal = 900;
  delivery_fee = 100;
  discount = 0;
  total = 1000;
  payment_status = paid;
}

billed_shown : get_order_invoice true (customer_of 3) 50 1 (tables packed) ≡ ok (billed, packed)
unfolding get_order_invoice may_read
billed_shown = refl

-- The key of the event is taken by an event of another order.
abbrev clashing : Store
clashing = record (tables gone) {
  realtime =
      record {
        event_key = order_status_key 1 cancelled 1000;
        event_type = order_status_updated;
        aggregate_type = order_aggregate;
        aggregate_id = 2;
      }
      ∷ [];
}

-- A customer of another laundry cancels the cancelled order, and only the clash stops the call.
abbrev stopped : Outcome Store (Option Order)
stopped = customer_cancel (customer_of 4) (some 60) 1 env_one clashing

stopped_runs : stopped ≡ thrown (api_error 500 "realtime_event_key_collision") (final_state stopped)
unfolding customer_cancel cancel_writes cancel_events safe_create_event key_eq event_matches
    assert_order_transition is_allowed_transition allowed_transitions
stopped_runs = refl
