-- ===== src/Orders/StateMachine/Access.antt =====
-- Who may make a transition: the checks of `assertOrderTransition`.
use maghsul_backend.Base.{
  ℕ, ◌≡◌, refl, ap, sym, ◌∙◌, not, not_true, opt_eq, true≢false, Bool-cases, Option-cases, ◌≢◌, ◌⊎◌,
  inl, inr, ◌↔◌, Bool, true, false, Option, none, some, List, [], ◌∷◌, arith, if◌then◌else◌,
  opt_eq_iff, Result, ok, err, api_error,
}
use maghsul_backend.Orders.StateMachine.Matrix.{Edge}
use maghsul_backend.Orders.StateMachine.{
  OrderStatus, pending_pickup, pickup_assigned, driver_heading_to_pickup, driver_arrived_pickup,
  delivered_to_laundry, delivery_assigned, driver_heading_to_delivery, driver_arrived_delivery,
  delivered, cancelled, Target, status, is_allowed_transition, is_status, assert_order_transition,
  OrderView, Actor, ActionName, customer_cancel, Role, driver, washer_owner, washer_manager, worker,
  branch_manager, is_one_of, is_driver_target, is_cancelable, branch_mismatch, other, customer_rule,
  driver_rule,
}

abbrev pub IsStaff : Role → Type 0
IsStaff r =
    (r ≡ driver) ⊎ (r ≡ washer_owner) ⊎ (r ≡ washer_manager) ⊎ (r ≡ worker) ⊎ (r ≡ branch_manager)

abbrev pub IsWithCustomer : OrderStatus → Type 0
IsWithCustomer s =
    (s ≡ pending_pickup)
    ⊎ (s ≡ pickup_assigned)
    ⊎ (s ≡ driver_heading_to_pickup)
    ⊎ (s ≡ driver_arrived_pickup)

abbrev pub IsDriverTarget : Target → Type 0
IsDriverTarget t =
    (t ≡ status pickup_assigned)
    ⊎ (t ≡ status driver_heading_to_pickup)
    ⊎ (t ≡ status driver_arrived_pickup)
    ⊎ (t ≡ status delivered_to_laundry)
    ⊎ (t ≡ status delivery_assigned)
    ⊎ (t ≡ status driver_heading_to_delivery)
    ⊎ (t ≡ status driver_arrived_delivery)
    ⊎ (t ≡ status delivered)

-- The rules of a change of status, without the order in which the code checks them.
pub record Permitted (order : OrderView) (target : Target) (actor : Actor) (action : ActionName)
    : Type 0 where
  pub listed : is_allowed_transition order.status target ≡ true
  pub same_washer : actor.washer_id ≡ some order.washer_id
  pub same_branch : (actor.branch_id ≡ none) ⊎ (actor.branch_id ≡ some order.branch_id)
  pub by_customer : action ≡ customer_cancel → IsWithCustomer order.status
  pub by_nobody : target ≡ status cancelled → actor.role ≡ none → IsWithCustomer order.status
  pub by_staff : (r : Role) → actor.role ≡ some r → IsDriverTarget target → IsStaff r
  pub own_driver :
      (d : ℕ)
      → actor.role ≡ some driver
      → IsDriverTarget target
      → order.driver_staff_membership_id ≡ some d
      → is_one_of d (actor.staff_membership_id ∷ actor.user_id ∷ actor.id ∷ []) ≡ true

pub is_driver_target_iff : (t : Target) → (is_driver_target t ≡ true) ↔ IsDriverTarget t
unfolding is_driver_target
is_driver_target_iff (status s) = (λ h. ground arith, λ h. ground arith)
is_driver_target_iff (other x) = (λ h. ground arith, λ h. ground arith)

pub is_cancelable_iff : (s : OrderStatus) → (is_cancelable s ≡ true) ↔ IsWithCustomer s
unfolding is_cancelable
is_cancelable_iff s = (λ h. ground arith, λ h. ground arith)

pub is_status_iff : (s : OrderStatus) (t : Target) → (is_status s t ≡ true) ↔ (t ≡ status s)
is_status_iff s (status t) = (λ h. ground arith, λ h. ground arith)
is_status_iff s (other x) = (λ h. ground arith, λ h. ground arith)

branch_mismatch_iff :
    (a : Option ℕ) (b : ℕ) → (branch_mismatch a b ≡ false) ↔ ((a ≡ none) ⊎ (a ≡ some b))
branch_mismatch_iff none b = (λ h. inl refl, λ h. refl)
branch_mismatch_iff (some a) b = (λ h. ground arith, λ h. ground arith)

-- The ladder of the five checks, over any outcomes of them.
ladder :
    (same washer branch listed customer : Bool) (rest : Result Bool)
    → (if same
        then ok true
        else if not washer
        then err (api_error 403 "forbidden")
        else if branch
        then err (api_error 403 "forbidden")
        else if not listed
        then err (api_error 400 "invalid_transition")
        else if not customer
        then err (api_error 400 "order_cannot_be_cancelled")
        else rest)
      ≡ ok false
    → (same ≡ false)
      × (washer ≡ true)
      × (branch ≡ false)
      × (listed ≡ true)
      × (customer ≡ true)
      × (rest ≡ ok false)
ladder same washer branch listed customer rest h = ground arith

module _ (order : OrderView) (target : Target) (actor : Actor) (action : ActionName) where
  abbrev ids : List (Option ℕ)
  ids = actor.staff_membership_id ∷ actor.user_id ∷ actor.id ∷ []

  customer_rule_iff : (customer_rule order target actor action ≡ true) ↔ (
      (action ≡ customer_cancel → IsWithCustomer order.status)
      × (target ≡ status cancelled → actor.role ≡ none → IsWithCustomer order.status))
  unfolding customer_rule
  customer_rule_iff = (
    λ h. (
      λ a. (is_cancelable_iff order.status).0 (ground arith),
      λ a b.
          let t = (is_status_iff cancelled target).1 a in
          (is_cancelable_iff order.status).0 (ground arith),
    ),
    λ h. ground (arith, is_cancelable_iff order.status, is_status_iff cancelled target, h.0, h.1),
  )

  driver_rule_iff :
      (role : Option Role)
      → (driver_rule order target actor role ≡ ok false) ↔ (
          ((r : Role) → role ≡ some r → IsDriverTarget target → IsStaff r)
          × ((d : ℕ)
              → role ≡ some driver
              → IsDriverTarget target
              → order.driver_staff_membership_id ≡ some d
              → is_one_of d ids ≡ true))
  unfolding driver_rule
  driver_rule_iff none = (λ h. (λ r a b. ground arith, λ d a b c. ground arith), λ h. refl)
  driver_rule_iff (some r) = (
    λ h. (
      λ r' a b. let t = (is_driver_target_iff target).1 b in ground arith,
      λ d a b c. let t = (is_driver_target_iff target).1 b in ground arith,
    ),
    λ h. elim (Bool-cases (is_driver_target target)) [
      | inl t ↦
          let b = (is_driver_target_iff target).0 t in
          let staff = h.0 r refl b in
          elim (Option-cases order.driver_staff_membership_id) [
            | inl free ↦ ground arith
            | inr (d, taken) ↦
                let own = λ (e : r ≡ driver). h.1 d (ap some e) b taken in ground arith
          ]
      | inr f ↦ rw f
    ],
  )

  driver_rule-ne_true : (role : Option Role) → driver_rule order target actor role ≢ ok true
  unfolding driver_rule
  driver_rule-ne_true none h = ground arith
  driver_rule-ne_true (some r) h = ground arith

  -- `assertOrderTransition` lets a change of status pass exactly when the status is another one
  -- and the rules permit the change.
  pub assert_order_transition_iff :
      (assert_order_transition order target actor action ≡ ok false)
      ↔ ((target ≢ status order.status) × Permitted order target actor action)
  unfolding assert_order_transition
  assert_order_transition_iff = (
    λ h.
        let (same, washer, branch, listed, customer, rest) =
          ladder (is_status order.status target) (opt_eq actor.washer_id (some order.washer_id))
            (branch_mismatch actor.branch_id order.branch_id)
            (is_allowed_transition order.status target) (customer_rule order target actor action)
            (driver_rule order target actor actor.role) h in
        let c = customer_rule_iff.0 customer in
        let d = (driver_rule_iff actor.role).0 rest in
        (
          λ t. true≢false (sym ((is_status_iff order.status target).1 t) ∙ same),
          record {
            listed = listed;
            same_washer = (opt_eq_iff actor.washer_id (some order.washer_id)).0 washer;
            same_branch = (branch_mismatch_iff actor.branch_id order.branch_id).0 branch;
            by_customer = c.0;
            by_nobody = c.1;
            by_staff = d.0;
            own_driver = d.1;
          },
        ),
    λ (t, p).
        let other_status = not_true (λ e. t ((is_status_iff order.status target).0 e)) in
        let washer = (opt_eq_iff actor.washer_id (some order.washer_id)).1 p.same_washer in
        let branch = (branch_mismatch_iff actor.branch_id order.branch_id).1 p.same_branch in
        let customer = customer_rule_iff.1 (p.by_customer, p.by_nobody) in
        let rest = (driver_rule_iff actor.role).1 (p.by_staff, p.own_driver) in
        rw (other_status, washer, branch, p.listed, customer, rest),
  )

ladder_true :
    (same washer branch listed customer : Bool) (rest : Result Bool)
    → rest ≢ ok true
    → (if same
        then ok true
        else if not washer
        then err (api_error 403 "forbidden")
        else if branch
        then err (api_error 403 "forbidden")
        else if not listed
        then err (api_error 400 "invalid_transition")
        else if not customer
        then err (api_error 400 "order_cannot_be_cancelled")
        else rest)
      ≡ ok true
    → same ≡ true
ladder_true same washer branch listed customer rest n h = ground arith

-- The idempotent answer is given exactly when the order has the status already, before any check
-- of who asks.
pub idempotent_iff :
    (order : OrderView) (target : Target) (actor : Actor) (action : ActionName)
    → (assert_order_transition order target actor action ≡ ok true) ↔ (target ≡ status order.status)
unfolding assert_order_transition
idempotent_iff order target actor action = (
  λ h. (is_status_iff order.status target).0 (
      ladder_true (is_status order.status target) (opt_eq actor.washer_id (some order.washer_id))
        (branch_mismatch actor.branch_id order.branch_id)
        (is_allowed_transition order.status target) (customer_rule order target actor action)
        (driver_rule order target actor actor.role)
        (driver_rule-ne_true order target actor action actor.role) h),
  λ e. rw ((is_status_iff order.status target).1 e),
)

-- A status that is permitted and another one is the end of an edge of the table.
pub Permitted-Edge :
    (order : OrderView) (t : OrderStatus) (actor : Actor) (action : ActionName)
    → status t ≢ status order.status
    → Permitted order (status t) actor action
    → Edge order.status t
Permitted-Edge order t actor action n p = record {
  allowed = p.listed;
  changes = λ e. n (ap status (sym e));
}

pub Permitted-status :
    (order : OrderView) (target : Target) (actor : Actor) (action : ActionName)
    → Permitted order target actor action
    → (t : OrderStatus) × (target ≡ status t)
unfolding is_allowed_transition
Permitted-status order (status t) actor action p = (t, refl)
Permitted-status order (other x) actor action p = absurd (ground (arith, p.listed))
