-- ===== src/Orders/StateMachine.antt =====
-- src/modules/orders/order-state-machine.js: the order statuses, the transition table and the
-- check of one transition.
pub mod Matrix
pub mod Access
use maghsul_backend.Base.{
  ℕ, Bool, true, false, not, ◌&&◌, ◌||◌, Option, none, some, List, [], ◌∷◌, String, ◌==◌,
  if◌then◌else◌, opt_eq, is_some, any, Result, ok, err, api_error,
}

-- The twenty statuses of an order.
pub data OrderStatus : Type 0 where
  pending_pickup pickup_assigned driver_heading_to_pickup driver_arrived_pickup : OrderStatus
  delivered_to_laundry received_in_laundry sorting_in_progress sorting_confirmed : OrderStatus
  invoice_generated payment_pending payment_confirmed drying ironing packaging : OrderStatus
  ready_for_delivery delivery_assigned driver_heading_to_delivery : OrderStatus
  driver_arrived_delivery delivered cancelled : OrderStatus

-- The place of a status in the list; `===` on statuses compares places.
abbrev pub place : OrderStatus → ℕ
place pending_pickup = 0
place pickup_assigned = 1
place driver_heading_to_pickup = 2
place driver_arrived_pickup = 3
place delivered_to_laundry = 4
place received_in_laundry = 5
place sorting_in_progress = 6
place sorting_confirmed = 7
place invoice_generated = 8
place payment_pending = 9
place payment_confirmed = 10
place drying = 11
place ironing = 12
place packaging = 13
place ready_for_delivery = 14
place delivery_assigned = 15
place driver_heading_to_delivery = 16
place driver_arrived_delivery = 17
place delivered = 18
place cancelled = 19

abbrev pub status_eq : OrderStatus → OrderStatus → Bool
status_eq s t = place s == place t

abbrev pub lists : List OrderStatus → OrderStatus → Bool
lists ts t = any (λ s. status_eq s t) ts

-- A status that a request asks for: one of the twenty, or any other text.
pub data Target : Type 0 where
  status : OrderStatus → Target
  other : String → Target

abbrev pub is_status : OrderStatus → Target → Bool
is_status s (status t) = status_eq s t
is_status s (other _) = false

unfoldable pub allowed_transitions : OrderStatus → List OrderStatus
allowed_transitions pending_pickup =
    pickup_assigned ∷ driver_heading_to_pickup ∷ driver_arrived_pickup ∷ delivered_to_laundry
    ∷ received_in_laundry ∷ cancelled ∷ []
allowed_transitions pickup_assigned =
    driver_heading_to_pickup ∷ driver_arrived_pickup ∷ delivered_to_laundry ∷ received_in_laundry
    ∷ cancelled ∷ []
allowed_transitions driver_heading_to_pickup =
    driver_arrived_pickup ∷ delivered_to_laundry ∷ received_in_laundry ∷ cancelled ∷ []
allowed_transitions driver_arrived_pickup =
    delivered_to_laundry ∷ received_in_laundry ∷ cancelled ∷ []
allowed_transitions delivered_to_laundry =
    received_in_laundry ∷ sorting_in_progress ∷ cancelled ∷ []
allowed_transitions received_in_laundry =
    sorting_in_progress ∷ sorting_confirmed ∷ invoice_generated ∷ cancelled ∷ []
allowed_transitions sorting_in_progress = sorting_confirmed ∷ invoice_generated ∷ cancelled ∷ []
allowed_transitions sorting_confirmed = invoice_generated ∷ payment_pending ∷ cancelled ∷ []
allowed_transitions invoice_generated =
    payment_pending ∷ payment_confirmed ∷ drying ∷ ready_for_delivery ∷ cancelled ∷ []
allowed_transitions payment_pending =
    payment_confirmed ∷ drying ∷ ready_for_delivery ∷ cancelled ∷ []
allowed_transitions payment_confirmed = drying ∷ ironing ∷ packaging ∷ ready_for_delivery ∷ []
allowed_transitions drying = ironing ∷ packaging ∷ ready_for_delivery ∷ []
allowed_transitions ironing = packaging ∷ ready_for_delivery ∷ []
allowed_transitions packaging = ready_for_delivery ∷ []
allowed_transitions ready_for_delivery = delivery_assigned ∷ driver_heading_to_delivery ∷ []
allowed_transitions delivery_assigned =
    driver_heading_to_delivery ∷ driver_arrived_delivery ∷ delivered ∷ []
allowed_transitions driver_heading_to_delivery = driver_arrived_delivery ∷ delivered ∷ []
allowed_transitions driver_arrived_delivery = delivered ∷ []
allowed_transitions delivered = []
allowed_transitions cancelled = []

abbrev pub customer_cancelable_statuses : List OrderStatus
customer_cancelable_statuses =
    pending_pickup ∷ pickup_assigned ∷ driver_heading_to_pickup ∷ driver_arrived_pickup ∷ []

-- `isAllowedTransition`; both arguments are texts that are not empty.
unfoldable pub is_allowed_transition : OrderStatus → Target → Bool
is_allowed_transition s (status t) = if status_eq s t then true else lists (allowed_transitions s) t
is_allowed_transition s (other _) = false

-- The roles that the code names; `other_role` is any other text.
pub data Role : Type 0 where
  washer_owner washer_manager branch_manager worker driver washer_admin customer : Role
  other_role : Role

-- Who acts. An identifier is a text that the code only compares: here a number. `none` is null
-- or undefined.
pub record Actor : Type 0 where
  pub washer_id : Option ℕ
  pub branch_id : Option ℕ
  pub role : Option Role
  pub staff_membership_id : Option ℕ
  pub user_id : Option ℕ
  pub id : Option ℕ

-- What the check reads of an order.
pub record OrderView : Type 0 where
  pub status : OrderStatus
  pub washer_id : ℕ
  pub branch_id : ℕ
  pub driver_staff_membership_id : Option ℕ

pub data ActionName : Type 0 where
  customer_cancel update_washer_status update_driver_status webhook_payment_confirm : ActionName

abbrev pub is_customer_cancel : ActionName → Bool
is_customer_cancel customer_cancel = true
is_customer_cancel _ = false

unfoldable pub is_driver_target : Target → Bool
is_driver_target (status t) =
    lists
      (pickup_assigned ∷ driver_heading_to_pickup ∷ driver_arrived_pickup ∷ delivered_to_laundry
        ∷ delivery_assigned ∷ driver_heading_to_delivery ∷ driver_arrived_delivery ∷ delivered ∷ [])
      t
is_driver_target (other _) = false

abbrev pub is_staff_or_driver : Role → Bool
is_staff_or_driver driver = true
is_staff_or_driver washer_owner = true
is_staff_or_driver washer_manager = true
is_staff_or_driver worker = true
is_staff_or_driver branch_manager = true
is_staff_or_driver _ = false

abbrev pub is_driver : Role → Bool
is_driver driver = true
is_driver _ = false

-- The driver of the order is one of the identifiers that are given.
abbrev pub is_one_of : ℕ → List (Option ℕ) → Bool
is_one_of d ids = any (λ i. opt_eq i (some d)) ids

-- `CUSTOMER_CANCELABLE_STATUSES.includes(status)`.
unfoldable pub is_cancelable : OrderStatus → Bool
is_cancelable s = lists customer_cancelable_statuses s

-- Steps 1 to 5 of `assertOrderTransition`; `ok true` says that the status is unchanged. The
-- missing order (404) is the callers' own check.
unfoldable pub customer_rule : OrderView → Target → Actor → ActionName → Bool
customer_rule order target actor action =
    if is_customer_cancel action || is_status cancelled target && not (is_some actor.role)
    then is_cancelable order.status
    else true

abbrev pub assigned_elsewhere : Option ℕ → List (Option ℕ) → Bool
assigned_elsewhere none ids = false
assigned_elsewhere (some d) ids = not (is_one_of d ids)

unfoldable pub driver_rule : OrderView → Target → Actor → Option Role → Result Bool
driver_rule order target actor none = ok false
driver_rule order target actor (some role) =
    if is_driver_target target
    then (if is_staff_or_driver role
        then (if assigned_elsewhere order.driver_staff_membership_id
                (actor.staff_membership_id ∷ actor.user_id ∷ actor.id ∷ [])
              && is_driver role
            then err (api_error 403 "forbidden")
            else ok false)
        else err (api_error 403 "forbidden"))
    else ok false

abbrev pub branch_mismatch : Option ℕ → ℕ → Bool
branch_mismatch none b = false
branch_mismatch (some a) b = not (b == a)

unfoldable pub assert_order_transition : OrderView → Target → Actor → ActionName → Result Bool
assert_order_transition order target actor action =
    if is_status order.status target
    then ok true
    else if not (opt_eq actor.washer_id (some order.washer_id))
    then err (api_error 403 "forbidden")
    else if branch_mismatch actor.branch_id order.branch_id
    then err (api_error 403 "forbidden")
    else if not (is_allowed_transition order.status target)
    then err (api_error 400 "invalid_transition")
    else if not (customer_rule order target actor action)
    then err (api_error 400 "order_cannot_be_cancelled")
    else driver_rule order target actor actor.role
