-- ===== src/Orders/Reads.antt =====
-- `getOrder` and `getOrderInvoice` of src/modules/orders/order.service.js. They read only, so they
-- are functions of the tables.
use maghsul_backend.Base.{
  ℕ, ◌≡◌, inl, inr, Bool, true, false, not, Option, none, some, ◌==◌, ==_iff, opt_eq_iff,
  if◌then◌else◌, opt_eq, find, Result, ok, err, api_error, arith, Option-cases, Bool-cases,
  find_sound, ◌↔◌,
}
use maghsul_backend.Store.Frame.{find_order_id}
use maghsul_backend.Orders.StateMachine.{Actor, Role, driver, is_driver}
use maghsul_backend.Store.{
  is_own, Store, Order, Invoice, CustomerMembership, find_order, find_customer,
}

abbrev wrong_washer : Option ℕ → Order → Bool
wrong_washer none order = false
wrong_washer (some w) order = not (order.washer_id == w)

abbrev acts_as_driver : Option Role → Bool
acts_as_driver none = false
acts_as_driver (some r) = is_driver r

abbrev is_assigned : Order → Actor → Bool
is_assigned order user = elim order.driver_staff_membership_id [
  | none ↦ false
  | some d ↦ opt_eq user.staff_membership_id (some d)
]

-- The access check that both share: `appType === 'customer'` chooses the customer's rule.
unfoldable pub may_read : Bool → Actor → ℕ → Order → Store → Bool
may_read true actor identity order s = is_own (find_customer identity actor.washer_id s) order
may_read false user identity order s =
    if wrong_washer user.washer_id order
    then false
    else if acts_as_driver user.role
    then is_assigned order user
    else true

-- The code of the refusal differs between the two reads.
unfoldable pub get_order : Bool → Actor → ℕ → ℕ → Store → Result Order
get_order is_customer actor identity order_id s = elim (find_order order_id s) [
  | none ↦ err (api_error 404 "Order not found")
  | some order ↦
      if may_read is_customer actor identity order s
      then ok order
      else err (api_error 403 (if is_customer then "order_access_forbidden" else "forbidden"))
]

unfoldable pub get_order_invoice : Bool → Actor → ℕ → ℕ → Store → Result (Invoice × Order)
get_order_invoice is_customer actor identity order_id s = elim (find_order order_id s) [
  | none ↦ err (api_error 404 "Order not found")
  | some order ↦
      if may_read is_customer actor identity order s
      then (elim (find (λ v. v.order_id == order_id) s.invoices) [
        | none ↦ err (api_error 404 "Invoice not found for this order")
        | some v ↦ ok (v, order)
      ])
      else err (api_error 403 "forbidden")
]

-- A customer reads an order exactly when it exists and belongs to the customer's own membership
-- with the laundry of the request.
pub get_order-customer_iff :
    (actor : Actor) (identity i : ℕ) (s : Store) (order : Order)
    → (get_order true actor identity i s ≡ ok order) ↔ (
        (find_order i s ≡ some order)
        × ((m : CustomerMembership) × (find_customer identity actor.washer_id s ≡ some m)
            × (order.customer_membership_id ≡ m.id)))
unfolding get_order may_read
get_order-customer_iff actor identity i s order = (
  λ h. elim (Option-cases (find_customer identity actor.washer_id s)) [
    | inl nobody ↦ absurd (ground arith)
    | inr (m, member) ↦ (ground arith, (m, member, ground arith))
  ],
  λ (found, (m, member, own)). ground arith,
)

-- Staff of a laundry reads no order of another laundry, and a driver only the assigned ones.
pub get_order-staff_rules :
    (user : Actor) (identity i w : ℕ) (s : Store) (order : Order)
    → user.washer_id ≡ some w
    → get_order false user identity i s ≡ ok order
    → (order.washer_id ≡ w)
      × (user.role ≡ some driver
          → (d : ℕ) × (order.driver_staff_membership_id ≡ some d)
            × (user.staff_membership_id ≡ some d))
unfolding get_order may_read
get_order-staff_rules user identity i w s order c h = (
  ground arith,
  λ r. elim (Option-cases order.driver_staff_membership_id) [
    | inl free ↦ absurd (ground arith)
    | inr (d, taken) ↦ (d, taken, (opt_eq_iff user.staff_membership_id (some d)).0 (ground arith))
  ],
)

-- The invoice of an order is shown only to whom the order is shown, and is one of that order.
pub get_order_invoice_sound :
    (is_customer : Bool) (actor : Actor) (identity i : ℕ) (s : Store) (v : Invoice) (order : Order)
    → get_order_invoice is_customer actor identity i s ≡ ok (v, order)
    → (get_order is_customer actor identity i s ≡ ok order) × (v.order_id ≡ order.id)
unfolding get_order get_order_invoice
get_order_invoice_sound is_customer actor identity i s v order h =
    elim (Option-cases (find_order i s)) [
      | inl missing ↦ absurd (ground arith)
      | inr (o, found) ↦ elim (Bool-cases (may_read is_customer actor identity o s)) [
        | inr no_access ↦ absurd (ground arith)
        | inl access ↦ elim (Option-cases (find (λ v. v.order_id == i) s.invoices)) [
          | inl none_made ↦ absurd (ground arith)
          | inr (made, found_made) ↦
              let of_order =
                (==_iff made.order_id i).0
                  (find_sound (λ v. v.order_id == i) s.invoices made found_made) in
              let at_id = find_order_id i s o found in (ground arith, ground arith)
        ]
      ]
    ]
