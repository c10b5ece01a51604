-- ===== src/Orders/Create/Numbers.antt =====
-- The public numbers of orders under createOrder of src/modules/orders/order.service.js.
use maghsul_backend.Base.{
  ℕ, ◌+◌, ◌≤◌, ◌≡◌, inl, inr, refl, ap, Bool, true, false, not, ◌&&◌, ◌||◌, some, List, [], ◌∷◌,
  ◌++◌, ◌==◌, find, any, arith, All, All-append, All-map, find-update_where, Option-cases,
  Bool-cases, find_sound, find-append, any-find_missing, none, ◌∙◌, done,
}
use maghsul_backend.Store.{
  Store, Env, Order, EventKey, RealtimeEvent, order_created_key, driver_task_created_key,
}
use maghsul_backend.Store.Realtime.{safe_create_event, key_eq, find_event, add_event}
use maghsul_backend.Orders.Create.Tables.{WasherRow, Shop, OrderContent, has_washer_row}
use maghsul_backend.Orders.Create.{
  has_number, has_key, count_order, new_order, add_order, key_of_order, insert_order,
  announce_order, place_order, create_writes, order_created_event, task_created_event, add_task,
}
use maghsul_backend.Orders.Create.Writes.{Numbered, Created, counted_row, create_writes_done}

-- No two orders of a laundry have one number.
unfoldable pub distinct : List Order → Bool
distinct [] = true
distinct (o ∷ os) = not (any (has_number o.washer_id o.public_number) os) && distinct os

abbrev pub IsCounted : List WasherRow → Order → Type 0
IsCounted ws o =
    (w : WasherRow)
    → find (has_washer_row o.washer_id) ws ≡ some w
    → o.public_number ≤ w.next_order_sequence

pub record IsNumbered (s : Shop) : Type 0 where
  pub counted : All (IsCounted s.washers) s.store.orders
  pub unique : distinct s.store.orders ≡ true

any-snoc :
    (i n : ℕ) (os : List Order) (o : Order)
    → any (has_number i n) (os ++ o ∷ []) ≡ (any (has_number i n) os || has_number i n o)
any-snoc i n [] o = ground arith
any-snoc i n (x ∷ os) o = ground (arith, any-snoc i n os o)

distinct-snoc :
    (os : List Order) (o : Order)
    → distinct os ≡ true
    → any (has_number o.washer_id o.public_number) os ≡ false
    → distinct (os ++ o ∷ []) ≡ true
unfolding distinct
distinct-snoc [] o h k = refl
distinct-snoc (x ∷ os) o h k =
    let rest = distinct-snoc os o (ground arith) (ground arith) in
    let other : has_number o.washer_id o.public_number x ≡ false = ground arith in
    let more = any-snoc x.washer_id x.public_number os o in ground (arith, rest, more)

-- The count of one laundry goes up, and nothing else.
count-IsCounted :
    (i : ℕ) (s : Shop) (o : Order) → IsCounted s.washers o → IsCounted (count_order i s).washers o
count-IsCounted i s o h w at =
    let count : WasherRow → WasherRow =
      λ x. record x { next_order_sequence = x.next_order_sequence + 1 } in
    let e =
      find-update_where (has_washer_row o.washer_id) (has_washer_row i) count (λ x. ground arith)
        s.washers in
    elim (Option-cases (find (has_washer_row o.washer_id) s.washers)) [
      | inl missing ↦ absurd (ground arith)
      | inr (before, found) ↦ let low = h before found in ground arith
    ]

unused_number :
    (i : ℕ) (w : WasherRow) (ws : List WasherRow) (os : List Order)
    → find (has_washer_row i) ws ≡ some w
    → All (IsCounted ws) os
    → any (has_number i (w.next_order_sequence + 1)) os ≡ false
unused_number i w ws [] at h = refl
unused_number i w ws (o ∷ os) at (first, rest) =
    let others = unused_number i w ws os at rest in
    elim (Bool-cases (o.washer_id == i)) [
      | inr other ↦ ground arith
      | inl own ↦
          let same : o.washer_id ≡ i = ground arith in
          let low = first w (rw same at) in ground arith
    ]

-- The number that the laundry's count gives is used by no order.
pub next_number_unused :
    (i number : ℕ) (s : Shop)
    → IsNumbered s
    → Numbered i s number
    → any (has_number i number) s.store.orders ≡ false
next_number_unused i number s numbered (w, at, e) =
    rw e (unused_number i w s.washers s.store.orders at numbered.counted)

created-IsNumbered :
    (c : OrderContent) (key hash : ℕ) (env : Env) (s : Shop) (o : Order) (s' : Shop)
    → IsNumbered s
    → Created c key hash env s o s'
    → IsNumbered s'
created-IsNumbered c key hash env s o s' numbered (number, (w, at, e), answer, placed) =
    let n = new_order c number env in
    let new : IsCounted (count_order c.washer_id s).washers n = λ w' at'.
      let (before, found, e') = counted_row c.washer_id s w' at' in
      let same : before ≡ w = cc in
      omega (arith, e, ap (λ x. x.next_order_sequence) e', ap (λ x. x.next_order_sequence) same) in
    record {
      counted =
          rw (placed.washers, placed.orders)
            (All-append (IsCounted (count_order c.washer_id s).washers) s.store.orders (n ∷ [])
              (All-map (IsCounted s.washers) (IsCounted (count_order c.washer_id s).washers)
                (count-IsCounted c.washer_id s) s.store.orders numbered.counted)
              (new, tt));
      unique =
          rw placed.orders (distinct-snoc s.store.orders n numbered.unique placed.unused_number);
    }

-- The count of the laundry behind the first write.
counted_up :
    (i : ℕ) (s : Shop) (w : WasherRow)
    → find (has_washer_row i) s.washers ≡ some w
    → find (has_washer_row i) (count_order i s).washers
      ≡ some (record w { next_order_sequence = w.next_order_sequence + 1 })
counted_up i s w at =
    let own = find_sound (has_washer_row i) s.washers w at in
    let through =
      find-update_where (has_washer_row i) (has_washer_row i)
        (λ x. record x { next_order_sequence = x.next_order_sequence + 1 }) (λ x. ground arith)
        s.washers in
    through ∙ rw at (rw own refl)

-- No event has the key.
abbrev pub IsFree : EventKey → Store → Type 0
IsFree key t = any (λ e. key_eq e.event_key key) t.realtime ≡ false

safe_free :
    (e : RealtimeEvent) (t : Store)
    → find_event e.event_key t ≡ none
    → safe_create_event e t ≡ done tt (add_event e t)
unfolding safe_create_event
safe_free e t free = rw (safe_create_event, free) refl

announces :
    (order_id task_id : ℕ) (t : Store)
    → IsFree (order_created_key order_id) t
    → IsFree (driver_task_created_key task_id) t
    → (t' : Store) × (announce_order order_id task_id t ≡ done tt t')
unfolding announce_order key_eq
announces order_id task_id t free_order free_task =
    let e = order_created_event order_id in
    let t1 = add_event e (add_task order_id task_id t) in
    let first = safe_free e (add_task order_id task_id t) (
      any-find_missing (λ x. key_eq x.event_key (order_created_key order_id)) t.realtime
        free_order) in
    let missing =
      any-find_missing (λ x. key_eq x.event_key (driver_task_created_key task_id)) t.realtime
        free_task in
    let second = safe_free (task_created_event task_id) t1 (
      find-append (λ x. key_eq x.event_key (driver_task_created_key task_id)) t.realtime (e ∷ [])
        missing) in
    (add_event (task_created_event task_id) t1, ground arith)

-- A new order of a laundry in good order gets the next number.
placed_next :
    (c : OrderContent) (key hash : ℕ) (env : Env) (s : Shop) (w : WasherRow)
    → IsNumbered s
    → find (has_washer_row c.washer_id) s.washers ≡ some w
    → any (has_key c.customer_membership_id key) s.keys ≡ false
    → IsFree (order_created_key (env.new_id 0)) s.store
    → IsFree (driver_task_created_key (env.new_id 1)) s.store
    → (s' : Shop) × (create_writes c key hash env s
        ≡ done (new_order c (w.next_order_sequence + 1) env) s')
unfolding create_writes place_order insert_order
placed_next c key hash env s w numbered at unused free_order free_task =
    let number = w.next_order_sequence + 1 in
    let o = new_order c number env in
    let counted = counted_up c.washer_id s w at in
    let s1 = add_order o (key_of_order c key hash o) c.by_user_id (count_order c.washer_id s) in
    let free = next_number_unused c.washer_id number s numbered (w, at, refl) in
    let (t', announced) = announces (env.new_id 0) (env.new_id 1) s1.store free_order free_task in
    (record s1 { store = t' }, ground arith)

-- The writes of a new order succeed for a laundry whose orders are in order: no number of an order
-- beyond its laundry's count, and no two orders of a laundry with one number. The key of the request
-- and the two keys of the events are unused. The order has the number behind the laundry's count, the
-- count is that number afterwards, and the orders are in order again.
pub create_writes-IsNumbered :
    (c : OrderContent) (key hash : ℕ) (env : Env) (s : Shop) (w : WasherRow)
    → IsNumbered s
    → find (has_washer_row c.washer_id) s.washers ≡ some w
    → any (has_key c.customer_membership_id key) s.keys ≡ false
    → IsFree (order_created_key (env.new_id 0)) s.store
    → IsFree (driver_task_created_key (env.new_id 1)) s.store
    → (s' : Shop) × (create_writes c key hash env s
        ≡ done (new_order c (w.next_order_sequence + 1) env) s')
      × IsNumbered s'
      × (find (has_washer_row c.washer_id) s'.washers
          ≡ some (record w { next_order_sequence = w.next_order_sequence + 1 }))
create_writes-IsNumbered c key hash env s w numbered at unused free_order free_task =
    let (s', written) = placed_next c key hash env s w numbered at unused free_order free_task in
    let o = new_order c (w.next_order_sequence + 1) env in
    let created = create_writes_done c key hash env s o s' written in
    let (number, next, answer, placed) = created in
    (
      s',
      written,
      created-IsNumbered c key hash env s o s' numbered created,
      ap (λ ws. find (has_washer_row c.washer_id) ws) placed.washers
          ∙ counted_up c.washer_id s w at,
    )
