-- ===== src/Orders/Moved.antt =====
-- One order changes its status along the table, and no other order is touched.
use maghsul_backend.Base.{
  ℕ, ◌≡◌, refl, ap, sym, ◌∙◌, Bool, true, false, Option, none, some, ◌==◌, ==_iff, ==_refl_of,
  not_true, true≢false, if◌then◌else◌, find, on, map_option, update_where, Bool-cases, inl, inr,
}
use maghsul_backend.Orders.StateMachine.{OrderStatus}
use maghsul_backend.Store.{Store, Order, find_order, has_order_id}
use maghsul_backend.Store.Frame.{find_order_id, find_order-update_where}

abbrev pub moved_to : OrderStatus → Option ℕ → Order → Order
moved_to t driver o = record o { status = t; driver_staff_membership_id = driver }

-- In `s'` the order has the status `t` and the driver `driver`; every other query for an order
-- finds what it found in `s`.
pub record Moved (order : Order) (t : OrderStatus) (driver : Option ℕ) (s s' : Store) : Type 0 where
  pub rows :
      (j : ℕ)
      → find_order j s' ≡ (if j == order.id then some (moved_to t driver order) else find_order j s)

module _ (order : Order) (t : OrderStatus) (driver : Option ℕ) (p : Order → Bool)
    (f : Order → Order) (hits : p order ≡ true) (only : (o : Order) → p o ≡ true → o.id ≡ order.id)
    (gives : f order ≡ moved_to t driver order) (keeps : (o : Order) → (f o).id ≡ o.id) where
  -- What the write makes of the answer to a query for `j`.
  row :
      (j : ℕ) (s : Store) (x : Option Order)
      → find_order order.id s ≡ some order
      → find_order j s ≡ x
      → map_option (on p f) x ≡ (if j == order.id then some (moved_to t driver order) else x)
  row j s none found e = elim (Bool-cases (j == order.id)) [
    | inl same ↦
        let same' = (==_iff j order.id).0 same in
        let e' : find_order order.id s ≡ none = rw (← same') e in cc
    | inr differs ↦ rw differs
  ]
  row j s (some o) found e = elim (Bool-cases (j == order.id)) [
    | inl same ↦
        let same' = (==_iff j order.id).0 same in
        let e' : find_order order.id s ≡ some o = rw (← same') e in
        let o-is : o ≡ order = cc in rw (same, o-is, hits, gives)
    | inr differs ↦
        let missed : p o ≡ false =
          not_true (λ h.
            true≢false (sym (==_refl_of (sym (find_order_id j s o e) ∙ only o h)) ∙ differs)) in
        rw (differs, missed)
  ]

  pub Moved-by_update :
      (s s' : Store)
      → find_order order.id s ≡ some order
      → s'.orders ≡ update_where p f s.orders
      → Moved order t driver s s'
  Moved-by_update s s' found e = record {
    rows = λ j.
        ap (find (has_order_id j)) e
        ∙ find_order-update_where p f keeps j s.orders
        ∙ row j s (find_order j s) found refl;
  }
