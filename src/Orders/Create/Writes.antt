-- ===== src/Orders/Create/Writes.antt =====
-- The checks and the writes of createOrder (src/modules/orders/order.service.js) when they succeed.
use maghsul_backend.Base.{
  find-update_where, find_sound, ℕ, ◌+◌, ◌≡◌, inl, inr, sym, ap, ◌∙◌, true, false, Option, some, [],
  ◌∷◌, ◌++◌, find, any, Outcome, done, arith, Option-cases, Outcome-cases, >>-eq-done, ◌>>◌, pure,
}
use maghsul_backend.Store.{Store, Env, Order, find_customer, is_active, CustomerMembership}
use maghsul_backend.Store.Frame.{SameRows, SameRows-trans, create-SameRows}
use maghsul_backend.Store.Realtime.{safe_create_event}
use maghsul_backend.Laundries.Places.{Geometry, Mapped}
use maghsul_backend.Laundries.Coverage.{CoverageBranch, evaluate_branch_coverage}
use maghsul_backend.Laundries.Covered.{covers, evaluate_branch_coverage_lem}
use maghsul_backend.Orders.Create.Tables.{
  WasherRow, OrderKey, Shop, OrderContent, has_washer_row, has_branch_row, in_store,
}
use maghsul_backend.Orders.Create.{
  select_branch, find_membership, new_order, has_number, has_key, count_order, add_order,
  insert_order, add_task, announce_order, create_writes, order_created_event, task_created_event,
  key_of_order, place_order,
}

-- The branch that is selected.
pub record Selected (g : Geometry) (washer_id : ℕ) (places : Mapped) (branch_id : Option ℕ)
    (s : Shop) (branch : CoverageBranch) : Type 0 where
  pub i : ℕ
  pub selected : branch_id ≡ some i
  pub found : find (has_branch_row i) s.branches ≡ some branch
  pub own_branch : branch.washer_id ≡ washer_id
  pub covered : covers g branch places.pickup places.delivery ≡ true

pub select_branch_done :
    (g : Geometry) (washer_id : ℕ) (branch_id : Option ℕ) (places : Mapped) (s : Shop)
    (branch : CoverageBranch) (s' : Shop)
    → select_branch g washer_id branch_id places s ≡ done branch s'
    → Selected g washer_id places branch_id s branch × (s' ≡ s)
unfolding select_branch
select_branch_done g washer_id branch_id places s branch s' h = elim (Option-cases branch_id) [
  | inl missing ↦ absurd (ground arith)
  | inr (i, selected) ↦ elim (Option-cases (find (has_branch_row i) s.branches)) [
    | inl missing ↦ absurd (ground arith)
    | inr (b, found) ↦
        let b-is : branch ≡ b = ground arith in
        let cover : (evaluate_branch_coverage g b places.pickup places.delivery).is_covered ≡ true =
          ground arith in
        (
          record {
            i = i;
            selected = selected;
            found = found ∙ ap some (sym b-is);
            own_branch = ground arith;
            covered =
                rw b-is
                  (sym (evaluate_branch_coverage_lem g b places.pickup places.delivery) ∙ cover);
          },
          ground arith,
        )
  ]
]

pub find_membership_done :
    (identity washer_id : ℕ) (s : Shop) (m : CustomerMembership) (s' : Shop)
    → find_membership identity washer_id s ≡ done m s'
    → (find_customer identity (some washer_id) s.store ≡ some m)
      × (is_active m.status ≡ true)
      × (s' ≡ s)
unfolding find_membership
find_membership_done identity washer_id s m s' h = (ground arith, ground arith, ground arith)

-- The row of the laundry behind the count.
pub counted_row :
    (i : ℕ) (s : Shop) (w : WasherRow)
    → find (has_washer_row i) (count_order i s).washers ≡ some w
    → (before : WasherRow) × (find (has_washer_row i) s.washers ≡ some before)
      × (w ≡ record before { next_order_sequence = before.next_order_sequence + 1 })
counted_row i s w h =
    let count : WasherRow → WasherRow =
      λ x. record x { next_order_sequence = x.next_order_sequence + 1 } in
    let e =
      find-update_where (has_washer_row i) (has_washer_row i) count (λ x. ground arith) s.washers in
    elim (Option-cases (find (has_washer_row i) s.washers)) [
      | inl missing ↦ absurd (ground arith)
      | inr (before, at) ↦
          let own = find_sound (has_washer_row i) s.washers before at in (before, at, ground arith)
    ]

announce_done :
    (order_id task_id : ℕ) (t t' : Store)
    → announce_order order_id task_id t ≡ done tt t'
    → SameRows (add_task order_id task_id t) t'
unfolding announce_order
announce_done order_id task_id t t' h =
    let (t1, first, rest) =
      >>-eq-done (safe_create_event (order_created_event order_id))
        (safe_create_event (task_created_event task_id)) (add_task order_id task_id t) tt t' h in
    SameRows-trans (add_task order_id task_id t) t1 t'
      (create-SameRows (order_created_event order_id) (add_task order_id task_id t) t1 first)
      (create-SameRows (task_created_event task_id) t1 t' rest)

insert_done :
    (o : Order) (k : OrderKey) (by : ℕ) (s s' : Shop)
    → insert_order o k by s ≡ done tt s'
    → (any (has_number o.washer_id o.public_number) s.store.orders ≡ false)
      × (any (has_key k.customer_membership_id k.idempotency_key) s.keys ≡ false)
      × (s' ≡ add_order o k by s)
unfolding insert_order
insert_done o k by s s' h = (ground arith, ground arith, ground arith)

store_done :
    (m : Store → Outcome Store (Unit {0})) (s s' : Shop)
    → in_store m s ≡ done tt s'
    → (t : Store) × (m s.store ≡ done tt t) × (s' ≡ record s { store = t })
store_done m s s' h = elim (Outcome-cases (m s.store)) [
  | inr (e, t, w) ↦ absurd (ground arith)
  | inl (u, t, w) ↦ (t, w, ground arith)
]

announce_customers :
    (order_id task_id : ℕ) (t t' : Store)
    → announce_order order_id task_id t ≡ done tt t'
    → t'.customers ≡ t.customers
unfolding announce_order safe_create_event
announce_customers order_id task_id t t' h = ground arith

-- What the placing of an order leaves.
pub record Placed (c : OrderContent) (key hash : ℕ) (env : Env) (s : Shop) (o : Order) (s' : Shop)
    : Type 0 where
  pub unused_number : any (has_number o.washer_id o.public_number) s.store.orders ≡ false
  pub unused_key : any (has_key c.customer_membership_id key) s.keys ≡ false
  pub orders : s'.store.orders ≡ s.store.orders ++ o ∷ []
  pub tasks : s'.store.tasks ≡ (add_task o.id (env.new_id 1) s.store).tasks
  pub invoices : s'.store.invoices ≡ s.store.invoices
  pub payments : s'.store.payments ≡ s.store.payments
  pub customers : s'.store.customers ≡ s.store.customers
  pub washers : s'.washers ≡ s.washers
  pub keys : s'.keys ≡ s.keys ++ key_of_order c key hash o ∷ []

place_order_done :
    (c : OrderContent) (key hash : ℕ) (env : Env) (n : Order) (s : Shop) (o : Order) (s' : Shop)
    → place_order c key hash env n s ≡ done o s'
    → (o ≡ n) × Placed c key hash env s n s'
unfolding place_order
place_order_done c key hash env n s o s' h =
    let k = key_of_order c key hash n in
    let (s1, first, rest) =
      >>-eq-done (insert_order n k c.by_user_id)
        (in_store (announce_order n.id (env.new_id 1)) >> pure n) s o s' h in
    let (s2, second, last) =
      >>-eq-done (in_store (announce_order n.id (env.new_id 1))) (pure n) s1 o s' rest in
    let (numbers, keys, inserted) = insert_done n k c.by_user_id s s1 first in
    let (t, announced, stored) = store_done (announce_order n.id (env.new_id 1)) s1 s2 second in
    let rows = announce_done n.id (env.new_id 1) s1.store t announced in
    let same : s' ≡ s2 = ground arith in
    (
      ground arith,
      record {
        unused_number = numbers;
        unused_key = keys;
        orders = rw (same, stored) (rows.orders ∙ ap (λ x. x.store.orders) inserted);
        tasks =
            rw (same, stored)
              (rows.tasks ∙ ap (λ x. (add_task n.id (env.new_id 1) x.store).tasks) inserted);
        invoices = rw (same, stored) (rows.invoices ∙ ap (λ x. x.store.invoices) inserted);
        payments = rw (same, stored) (rows.payments ∙ ap (λ x. x.store.payments) inserted);
        customers =
            rw (same, stored)
              (announce_customers n.id (env.new_id 1) s1.store t announced
                ∙ ap (λ x. x.store.customers) inserted);
        washers = rw (same, stored) (ap (λ x. x.washers) inserted);
        keys = rw (same, stored) (ap (λ x. x.keys) inserted);
      },
    )

-- The number that a new order of the laundry gets.
abbrev pub Numbered : ℕ → Shop → ℕ → Type 0
Numbered i s number =
    (w : WasherRow) × (find (has_washer_row i) s.washers ≡ some w)
    × (number ≡ w.next_order_sequence + 1)

-- What a new order leaves: the laundry's count goes up, and the order with its key and task is there.
abbrev pub Created : OrderContent → ℕ → ℕ → Env → Shop → Order → Shop → Type 0
Created c key hash env s o s' =
    (number : ℕ) × Numbered c.washer_id s number
    × (o ≡ new_order c number env)
    × Placed c key hash env (count_order c.washer_id s) (new_order c number env) s'

pub create_writes_done :
    (c : OrderContent) (key hash : ℕ) (env : Env) (s : Shop) (o : Order) (s' : Shop)
    → create_writes c key hash env s ≡ done o s'
    → Created c key hash env s o s'
unfolding create_writes
create_writes_done c key hash env s o s' h =
    let counted = count_order c.washer_id s in
    elim (Option-cases (find (has_washer_row c.washer_id) counted.washers)) [
      | inl missing ↦ absurd (ground arith)
      | inr (w, at) ↦
          let (before, row, counted_up) = counted_row c.washer_id s w at in
          let n = new_order c w.next_order_sequence env in
          let (answer, placed) = place_order_done c key hash env n counted o s' (rw at at h) in
          (
            w.next_order_sequence,
            (before, row, ap (λ x. x.next_order_sequence) counted_up),
            answer,
            placed,
          )
    ]
