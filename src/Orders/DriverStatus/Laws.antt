-- ===== src/Orders/DriverStatus/Laws.antt =====
-- What `updateDriverStatus` of src/modules/orders/order.service.js does on each branch.
use maghsul_backend.Base.{
  ℕ, ◌≡◌, ◌⊎◌, inl, inr, true, ◌||◌, Option, none, some, [], ◌∷◌, ◌++◌, String, update_where, done,
  thrown, arith, Bool-cases, Option-cases, ApiError, or_else,
}
use maghsul_backend.Orders.StateMachine.{
  OrderStatus, pickup_assigned, driver_arrived_pickup, status_eq, Target, Actor, is_one_of,
  pending_pickup,
}
use maghsul_backend.Store.{Store, Env, Order, has_order_id}
use maghsul_backend.Store.Realtime.{safe_create_event}
use maghsul_backend.Orders.DriverStatus.{
  update_driver_status, move_by_driver, run_transaction, driver_writes, claim_writes,
  progress_writes,
}

-- An error leaves every table as it was.
pub update_driver_status_thrown :
    (user : Actor) (i : ℕ) (to : Target) (remark : Option String) (env : Env) (s : Store)
    {e : ApiError} {s' : Store}
    → update_driver_status user i to remark env s ≡ thrown e s'
    → s' ≡ s
unfolding update_driver_status move_by_driver run_transaction
update_driver_status_thrown user i to remark env s h = ground arith

-- The row of the order and its event, behind the transaction.
pub record Assigned (order : Order) (t : OrderStatus) (user : Actor) (driver : Option ℕ)
    (s s' : Store) : Type 0 where
  pub note : Option String
  pub events :
      s'.order_events
      ≡ s.order_events
        ++ record {
          order_id = order.id;
          from = some order.status;
          to = t;
          by_user_id = user.user_id;
          note = note;
        }
          ∷ []
  pub rows :
      s'.orders
      ≡ update_where
          (has_order_id order.id)
          (λ o. record o { status = t; driver_staff_membership_id = driver })
          s.orders

module _ (order : Order) (t : OrderStatus) (user : Actor) (member : Option ℕ)
    (remark : Option String) (env : Env) (s : Store) where
  abbrev chosen : Option ℕ
  chosen = or_else member (or_else user.staff_membership_id user.user_id)

  claim_writes-Assigned :
      (s' : Store)
      → claim_writes order t user member remark env s ≡ done tt s'
      → Assigned order t user chosen s s'
  unfolding claim_writes safe_create_event
  claim_writes-Assigned s' h = record {
    note = or_else remark (some "claimed_by_driver");
    events = ground arith;
    rows = ground arith;
  }

  progress_writes-Assigned :
      (s' : Store)
      → progress_writes order t user member remark env s ≡ done tt s'
      → Assigned order t user (or_else order.driver_staff_membership_id chosen) s s'
  unfolding progress_writes safe_create_event
  progress_writes-Assigned s' h = record {
    note = remark;
    events = ground arith;
    rows = ground arith;
  }

-- What the transaction lets pass, and the driver that it leaves.
pub record Driven (order : Order) (t : OrderStatus) (user : Actor) (member : Option ℕ)
    (s s' : Store) : Type 0 where
  pub driver : Option ℕ
  pub assigned : Assigned order t user driver s s'
  pub keeps : (d : ℕ) → order.driver_staff_membership_id ≡ some d → driver ≡ some d
  pub own :
      (d : ℕ)
      → order.driver_staff_membership_id ≡ some d
      → is_one_of d (member ∷ user.staff_membership_id ∷ user.user_id ∷ user.id ∷ []) ≡ true
  pub first :
      order.driver_staff_membership_id ≡ none → (t ≡ pickup_assigned) ⊎ (t ≡ driver_arrived_pickup)

first_status :
    (t : OrderStatus)
    → (status_eq t pickup_assigned || status_eq t driver_arrived_pickup) ≡ true
    → (t ≡ pickup_assigned) ⊎ (t ≡ driver_arrived_pickup)
first_status t h = ground arith

module _ (order : Order) (t : OrderStatus) (user : Actor) (member : Option ℕ)
    (remark : Option String) (env : Env) (s : Store) (s' : Store)
    (h : driver_writes order t user member remark env s ≡ done tt s') where
  driven_by : (d : ℕ) → order.driver_staff_membership_id ≡ some d → Driven order t user member s s'
  unfolding driver_writes
  driven_by d taken =
      let own : is_one_of d (member ∷ user.staff_membership_id ∷ user.user_id ∷ user.id ∷ [])
          ≡ true =
        ground arith in
      let w = progress_writes-Assigned order t user member remark env s s' (ground arith) in
      record {
        driver = or_else order.driver_staff_membership_id (chosen order t user member remark env s);
        assigned = w;
        keeps = λ e same. ground arith;
        own = λ e same. ground arith;
        first = λ free. cc;
      }

  driven_first : order.driver_staff_membership_id ≡ none → Driven order t user member s s'
  unfolding driver_writes
  driven_first free =
      let early : (status_eq t pickup_assigned || status_eq t driver_arrived_pickup) ≡ true =
        ground arith in
      let start = status_eq order.status pending_pickup || status_eq order.status pickup_assigned in
      elim (Bool-cases start) [
        | inl fresh ↦ record {
          driver = chosen order t user member remark env s;
          assigned = claim_writes-Assigned order t user member remark env s s' (ground arith);
          keeps = λ e same. cc;
          own = λ e same. cc;
          first = λ free. first_status t early;
        }
        | inr later ↦ record {
          driver =
              or_else order.driver_staff_membership_id (chosen order t user member remark env s);
          assigned = progress_writes-Assigned order t user member remark env s s' (ground arith);
          keeps = λ e same. cc;
          own = λ e same. cc;
          first = λ free. first_status t early;
        }
      ]

  pub driven : Driven order t user member s s'
  driven = elim (Option-cases order.driver_staff_membership_id) [
    | inl free ↦ driven_first free
    | inr (d, taken) ↦ driven_by d taken
  ]
