-- ===== src/Orders/Create/Answer.antt =====
-- What a call of createOrder (src/modules/orders/order.service.js) that returns was given and leaves.
use maghsul_backend.Base.{
  ℕ, ◌≡◌, ◌⊎◌, inl, inr, refl, ap, ◌∙◌, true, Option, none, some, get_or, find, ok, Outcome, done,
  thrown, ApiError, arith, Option-cases, Outcome-cases, Result-cases, >>=-eq_done, ◌>>=◌,
}
use maghsul_backend.Store.{
  Store, Env, Order, has_order_id, find_order, find_customer, is_active, CustomerMembership,
}
use maghsul_backend.Store.Frame.{notify_customer-SameRows, notify_washer-SameRows}
use maghsul_backend.Store.Notices.{notify_customer}
use maghsul_backend.Laundries.Places.{Mapped, map_required_coordinates}
use maghsul_backend.Laundries.Coverage.{CoverageBranch}
use maghsul_backend.Orders.Create.Tables.{
  OrderKey, Shop, Customer, OrderRequest, OrderContent, Surroundings,
}
use maghsul_backend.Orders.Create.{
  select_branch, find_membership, content_of, replay_order, order_of_member, submit_order, find_key,
  order_writes, notify_created, create_order,
}
use maghsul_backend.Orders.Create.Writes.{
  Selected, select_branch_done, find_membership_done, Created, create_writes_done,
}

-- The order that has the key of the request, with the same content, and no write.
abbrev pub Replayed : ℕ → Option OrderKey → Shop → Order → Shop → Type 0
Replayed hash key s o s' =
    (k : OrderKey) × (key ≡ some k)
    × (k.content_hash ≡ hash)
    × (find_order k.order_id s.store ≡ some o)
    × (s' ≡ s)

replay_order_done :
    (hash : ℕ) (k : OrderKey) (s : Shop) (o : Order) (s' : Shop)
    → replay_order hash k s ≡ done o s'
    → Replayed hash (some k) s o s'
unfolding replay_order
replay_order_done hash k s o s' h = (k, refl, ground arith, ground arith, ground arith)

submit_order_done :
    (c : OrderContent) (key : Option ℕ) (random hash : ℕ) (env : Env) (old : Option OrderKey)
    (s : Shop) (o : Order) (s' : Shop)
    → submit_order c key random hash env old s ≡ done o s'
    → Replayed hash old s o s' ⊎ ((old ≡ none) × Created c (get_or key random) hash env s o s')
unfolding submit_order
submit_order_done c key random hash env none s o s' h =
    inr (refl, create_writes_done c (get_or key random) hash env s o s' h)
submit_order_done c key random hash env (some k) s o s' h = inl (replay_order_done hash k s o s' h)

-- What the transaction leaves, for a customer of the laundry and a branch that covers the places.
pub record Submitted (x : Surroundings) (caller : Customer) (r : OrderRequest) (places : Mapped)
    (washer_id : ℕ) (s : Shop) (o : Order) (s' : Shop) : Type 0 where
  pub branch : CoverageBranch
  pub selected : Selected x.geometry washer_id places r.branch_id s branch
  pub membership : CustomerMembership
  pub member : find_customer caller.identity_id (some washer_id) s.store ≡ some membership
  pub active : is_active membership.status ≡ true
  pub outcome :
      Replayed
        (x.hash (content_of x caller r places washer_id branch membership))
        (find_key membership.id r.idempotency_key s)
        s
        o
        s'
      ⊎ ((find_key membership.id r.idempotency_key s ≡ none)
          × Created
              (content_of x caller r places washer_id branch membership)
              (get_or r.idempotency_key x.random_key)
              (x.hash (content_of x caller r places washer_id branch membership))
              x.env
              s
              o
              s')

order_writes_done :
    (x : Surroundings) (caller : Customer) (r : OrderRequest) (places : Mapped) (washer_id : ℕ)
    (s : Shop) (o : Order) (s' : Shop)
    → order_writes x caller r places washer_id s ≡ done o s'
    → Submitted x caller r places washer_id s o s'
unfolding order_writes order_of_member
order_writes_done x caller r places washer_id s o s' h =
    let submit : CoverageBranch → CustomerMembership → Shop → Outcome Shop Order =
      λ branch m. order_of_member x caller r places washer_id branch m in
    let (branch, s1, first, k1) =
      >>=-eq_done (select_branch x.geometry washer_id r.branch_id places)
        (λ branch. find_membership caller.identity_id washer_id >>= submit branch) s o s' h in
    let (m, s2, second, rest) =
      >>=-eq_done (find_membership caller.identity_id washer_id) (submit branch) s1 o s' k1 in
    let (selected, same) =
      select_branch_done x.geometry washer_id r.branch_id places s branch s1 first in
    let (member, is_member, same') =
      find_membership_done caller.identity_id washer_id s1 m s2 second in
    let c = content_of x caller r places washer_id branch m in
    record {
      branch = branch;
      selected = selected;
      membership = m;
      member = rw (← same) member;
      active = is_member;
      outcome =
          submit_order_done c r.idempotency_key x.random_key (x.hash c) x.env
            (find_key m.id r.idempotency_key s) s o s' (rw (same', same) at rest);
    }

pub created_orders : (o : Order) (t : Store) → (notify_created o t).orders ≡ t.orders
created_orders o t =
    (notify_washer-SameRows o "order_created" (notify_customer o "order_created" t)).orders
    ∙ (notify_customer-SameRows o "order_created" t).orders

-- A call of createOrder that returns. The request names places and a laundry; the branch that it
-- selects is one of the laundry, takes orders and covers the places; and the identity is an active
-- customer of the laundry. Either an order of that customer has the key of the request and the same
-- content, and nothing is written; or no order has the key, and a new order with the next number of
-- the laundry is there, unpaid and to be picked up, with its key and an open task. In both cases the
-- customer and the laundry are notified of a new order.
pub create_order_done :
    (x : Surroundings) (caller : Customer) (r : OrderRequest) (s : Shop) (out : Option Order)
    (s' : Shop)
    → create_order x caller r s ≡ done out s'
    → (places : Mapped) × (washer_id : ℕ) × (o : Order) × (s1 : Shop) × (map_required_coordinates
          x.limits r.service_type r.pickup r.delivery
        ≡ ok places)
      × (caller.washer_id ≡ some washer_id)
      × Submitted x caller r places washer_id s o s1
      × (s' ≡ record s1 { store = notify_created o s1.store })
      × (out ≡ find_order o.id s1.store)
unfolding create_order
create_order_done x caller r s out s' h =
    let located = map_required_coordinates x.limits r.service_type r.pickup r.delivery in
    elim (Result-cases located) [
      | inr (e, w) ↦ absurd (ground arith)
      | inl (places, w) ↦ elim (Option-cases caller.washer_id) [
        | inl missing ↦ absurd (ground arith)
        | inr (washer_id, laundry) ↦
            elim (Outcome-cases (order_writes x caller r places washer_id s)) [
              | inr (e, s1, v) ↦ absurd (ground arith)
              | inl (o, s1, v) ↦
                  let last : s' ≡ record s1 { store = notify_created o s1.store } = ground arith in
                  let answer : out ≡ find_order o.id s'.store = ground arith in
                  (
                    places,
                    washer_id,
                    o,
                    s1,
                    w,
                    laundry,
                    order_writes_done x caller r places washer_id s o s1 v,
                    last,
                    answer
                        ∙ ap (λ z. find_order o.id z.store) last
                        ∙ ap (λ rows. find (has_order_id o.id) rows) (created_orders o s1.store),
                  )
            ]
      ]
    ]

-- An error of createOrder leaves the tables as they were.
pub create_order_thrown :
    (x : Surroundings) (caller : Customer) (r : OrderRequest) (s : Shop) (e : ApiError) (s' : Shop)
    → create_order x caller r s ≡ thrown e s'
    → s' ≡ s
unfolding create_order
create_order_thrown x caller r s e s' h = ground arith
