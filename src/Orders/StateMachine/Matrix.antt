-- ===== src/Orders/StateMachine/Matrix.antt =====
-- The transition table of src/modules/orders/order-state-machine.js as a graph.
use maghsul_backend.Base.{
  ℕ, zero, suc, ◌+◌, ◌≤◌, ◌<◌, ◌≡◌, refl, ap, ◌≢◌, ◌⊎◌, inl, inr, Bool, true, arith, leb, ◌&&◌,
  ◌||◌, ◌↔◌, sym,
}
use maghsul_backend.Orders.StateMachine.{
  OrderStatus, pending_pickup, pickup_assigned, driver_heading_to_pickup, driver_arrived_pickup,
  delivered_to_laundry, received_in_laundry, sorting_in_progress, sorting_confirmed,
  invoice_generated, payment_pending, payment_confirmed, drying, ironing, packaging,
  ready_for_delivery, delivery_assigned, driver_heading_to_delivery, driver_arrived_delivery,
  delivered, cancelled, place, status_eq, status, is_allowed_transition, allowed_transitions,
}

-- One change of status that the table allows.
pub record Edge (s t : OrderStatus) : Type 0 where
  pub allowed : is_allowed_transition s (status t) ≡ true
  pub changes : s ≢ t

-- A sequence of such changes, with the statuses that it passes.
pub data Walk : OrderStatus → OrderStatus → Type 0 where
  here : {s : OrderStatus} → Walk s s
  step : {s t u : OrderStatus} → Edge s t → Walk t u → Walk s u

abbrev pub steps : {s t : OrderStatus} → Walk s t → ℕ
steps here = 0
steps (step _ w) = suc (steps w)

-- The walk stands in the status at some time.
abbrev pub visits : {s t : OrderStatus} → OrderStatus → Walk s t → Bool
visits {s} u here = status_eq s u
visits {s} u (step _ w) = status_eq s u || visits u w

place-injective : (s t : OrderStatus) → place s ≡ place t → s ≡ t
place-injective s t e = ground arith

pub status_eq_iff : (s t : OrderStatus) → status_eq s t ≡ true → s ≡ t
status_eq_iff s t e = place-injective s t (ground arith)

place-le : (s : OrderStatus) → place s ≤ 19
place-le s = ground arith

pub Edge-place : {s t : OrderStatus} → Edge s t → place s < place t
unfolding is_allowed_transition allowed_transitions
Edge-place {s} {t} e = ground arith

Walk-place : {s t : OrderStatus} (w : Walk s t) → place s + steps w ≤ place t
Walk-place here = omega arith
Walk-place (step e w) = omega (arith, Edge-place e, Walk-place w)

-- A walk through the table has at most nineteen changes of status, so no order moves for ever.
pub steps-le : {s t : OrderStatus} (w : Walk s t) → steps w ≤ 19
steps-le {t} w = omega (arith, Walk-place w, place-le t)

-- A walk of at least one change of status does not come back to where it started.
pub Walk-acyclic : {s t : OrderStatus} (w : Walk s t) → 0 < steps w → s ≢ t
Walk-acyclic {s} {t} w h e = omega (arith, Walk-place w, ap place e)

-- A change to make from each status that is not final.
next_status : OrderStatus → OrderStatus
next_status pending_pickup = received_in_laundry
next_status pickup_assigned = received_in_laundry
next_status driver_heading_to_pickup = received_in_laundry
next_status driver_arrived_pickup = received_in_laundry
next_status delivered_to_laundry = received_in_laundry
next_status received_in_laundry = invoice_generated
next_status sorting_in_progress = invoice_generated
next_status sorting_confirmed = invoice_generated
next_status ready_for_delivery = driver_heading_to_delivery
next_status delivery_assigned = delivered
next_status driver_heading_to_delivery = delivered
next_status driver_arrived_delivery = delivered
next_status delivered = delivered
next_status cancelled = cancelled
next_status _ = ready_for_delivery

next_status-Edge : (s : OrderStatus) → s ≢ delivered → s ≢ cancelled → Edge s (next_status s)
unfolding is_allowed_transition allowed_transitions next_status
next_status-Edge s d c = record { allowed = ground arith; changes = ground arith }

final-only_two :
    (s : OrderStatus) → ((t : OrderStatus) → ¬ Edge s t) → (s ≡ delivered) ⊎ (s ≡ cancelled)
final-only_two delivered h = inl refl
final-only_two cancelled h = inr refl
final-only_two s h = absurd (h (next_status s) (next_status-Edge s (λ e. cc) (λ e. cc)))

-- The statuses without a change to make are `delivered` and `cancelled`, and no other.
pub final_iff :
    (s : OrderStatus) → ((t : OrderStatus) → ¬ Edge s t) ↔ ((s ≡ delivered) ⊎ (s ≡ cancelled))
unfolding is_allowed_transition allowed_transitions
final_iff s = (λ h. final-only_two s (λ t a. h t a), λ f t e. ground arith)

abbrev is_paid_stage : OrderStatus → Bool
is_paid_stage s = leb 10 (place s) && leb (place s) 18

paid_stage-step : {s t : OrderStatus} → is_paid_stage s ≡ true → Edge s t → is_paid_stage t ≡ true
unfolding is_allowed_transition allowed_transitions
paid_stage-step {s} {t} p e = ground arith

paid_stage-Walk : {s t : OrderStatus} → is_paid_stage s ≡ true → Walk s t → is_paid_stage t ≡ true
paid_stage-Walk p here = p
paid_stage-Walk p (step e w) = paid_stage-Walk (paid_stage-step p e) w

-- Once the payment is confirmed, the table leads to no cancellation.
pub paid-not-cancelled : {t : OrderStatus} → Walk payment_confirmed t → t ≢ cancelled
paid-not-cancelled {t} w = ground (arith, paid_stage-Walk {s = payment_confirmed} {t = t} refl w)

before_ready-step :
    {s t : OrderStatus}
    → place s < 14
    → Edge s t
    → (place t < 14) ⊎ ((t ≡ ready_for_delivery) ⊎ (t ≡ cancelled))
unfolding is_allowed_transition allowed_transitions
before_ready-step {s} {t} h e = ground arith

visits_start : {s t u : OrderStatus} (w : Walk s t) → s ≡ u → visits u w ≡ true
visits_start {s} here e = ground arith
visits_start {s} (step d w) e = ground arith

from_cancelled : {s t : OrderStatus} → Walk s t → s ≡ cancelled → t ≢ delivered
from_cancelled here e = λ d. ground arith
from_cancelled {t} (step {s} e w) q =
    λ d. omega (arith, Edge-place e, Walk-place w, ap place q, place-le t, ap place d)

-- A walk to `delivered` from a status that stands before `ready_for_delivery` in the list (those of
-- the pickup and of the laundry) passes through `ready_for_delivery`.
pub delivered-visits_ready :
    {s t : OrderStatus} (w : Walk s t)
    → place s < 14
    → t ≡ delivered
    → visits ready_for_delivery w ≡ true
delivered-visits_ready here h d = absurd (ground arith)
delivered-visits_ready (step {s} {t} e w) h d = elim (before_ready-step h e) [
  | inl earlier ↦ ground (arith, delivered-visits_ready w earlier d)
  | inr (inl ready) ↦ ground (arith, visits_start w ready)
  | inr (inr gone) ↦ absurd (from_cancelled w gone d)
]

-- How many of the changes above lead to `delivered`.
abbrev changes_left : OrderStatus → ℕ
changes_left delivered = 0
changes_left delivery_assigned = 1
changes_left driver_heading_to_delivery = 1
changes_left driver_arrived_delivery = 1
changes_left ready_for_delivery = 2
changes_left invoice_generated = 3
changes_left payment_pending = 3
changes_left payment_confirmed = 3
changes_left drying = 3
changes_left ironing = 3
changes_left packaging = 3
changes_left received_in_laundry = 4
changes_left sorting_in_progress = 4
changes_left sorting_confirmed = 4
changes_left _ = 5

next_status_left :
    (s : OrderStatus)
    → s ≢ delivered
    → s ≢ cancelled
    → (changes_left s ≡ suc (changes_left (next_status s))) × (next_status s ≢ cancelled)
unfolding next_status
next_status_left s d c = ground arith

walk_on :
    (k : ℕ) (s : OrderStatus)
    → changes_left s ≡ k
    → s ≢ cancelled
    → (w : Walk s delivered) × (steps w ≡ k)
walk_on zero s e c =
    let last : s ≡ delivered = ground arith in rw last (rw (sym e, last) (here, refl))
walk_on (suc k) s e c =
    let more : s ≢ delivered = ground arith in
    let (closer, live) = next_status_left s more c in
    let (w, n) = walk_on k (next_status s) (omega arith) live in
    (step (next_status-Edge s more c) w, omega (arith, n))

changes_left-le : (s : OrderStatus) → changes_left s ≤ 5
changes_left-le s = ground arith

-- The table has a path of at most five edges to `delivered` from every status but `cancelled`.
pub to_delivered : (s : OrderStatus) → s ≢ cancelled → (w : Walk s delivered) × (steps w ≤ 5)
to_delivered s h =
    let (w, n) = walk_on (changes_left s) s refl h in (w, omega (arith, n, changes_left-le s))
