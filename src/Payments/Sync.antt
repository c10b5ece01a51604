-- ===== src/Payments/Sync.antt =====
-- The payment status of an order and of its invoices (src/modules/payments/payment.service.js,
-- `syncOrderPaymentStatusToInvoices` and the writes that repeat it).
use maghsul_backend.Base.{
  ℕ, ◌≡◌, refl, Bool, some, List, ◌==◌, ==_iff, find, find_sound, update_where, on, All, All-map,
  All-update_where_on, arith, Option-cases, inl, inr,
}
use maghsul_backend.Store.{Store, Order, Invoice, PaymentStatus, has_order_id}
use maghsul_backend.Store.Frame.{SameRows, find_order-update_where}
use maghsul_backend.Payments.Service.{set_payment_status}

-- Every invoice has the payment status of its order.
abbrev pub Agrees : List Order → Invoice → Type 0
Agrees orders v =
    (o : Order)
    → find (has_order_id v.order_id) orders ≡ some o
    → v.payment_status ≡ o.payment_status

abbrev pub InSync : Store → Type 0
InSync s = All (Agrees s.orders) s.invoices

-- The rows of two states that have the same orders and invoices.
pub InSync-SameRows : (s s' : Store) → SameRows s s' → InSync s → InSync s'
InSync-SameRows s s' r h = rw (r.orders, r.invoices) h

-- A write of orders that keeps identifiers and payment statuses keeps the agreement.
pub InSync-orders :
    (p : Order → Bool) (f : Order → Order) (orders : List Order) (invoices : List Invoice)
    → ((o : Order) → (f o).id ≡ o.id)
    → ((o : Order) → (f o).payment_status ≡ o.payment_status)
    → All (Agrees orders) invoices
    → All (Agrees (update_where p f orders)) invoices
InSync-orders p f orders invoices ids kept h = All-map _ _ keep invoices h
  where
    keep : (v : Invoice) → Agrees orders v → Agrees (update_where p f orders) v
    keep v a o e = elim (Option-cases (find (has_order_id v.order_id) orders)) [
      | inl missing ↦
          let e' = find_order-update_where p f ids v.order_id orders in absurd (ground arith)
      | inr (old, found) ↦
          let e' = find_order-update_where p f ids v.order_id orders in
          let k = kept old in let a' = a old found in ground arith
    ]

module _ (i : ℕ) (p : PaymentStatus) (orders : List Order) where
  abbrev pay : Order → Order
  pay o = record o { payment_status = p }

  abbrev bill : Invoice → Invoice
  bill v = on (λ v. v.order_id == i) (λ v. record v { payment_status = p }) v

  Agrees-pay :
      (v : Invoice) → Agrees orders v → Agrees (update_where (has_order_id i) pay orders) (bill v)
  Agrees-pay v a o e =
      let lookup = find_order-update_where (has_order_id i) pay (λ o. refl) v.order_id orders in
      elim (Option-cases (find (has_order_id v.order_id) orders)) [
        | inl missing ↦ absurd (ground arith)
        | inr (old, found) ↦
            let old_id =
              (==_iff old.id v.order_id).0
                (find_sound (has_order_id v.order_id) orders old found) in
            let a' = a old found in ground arith
      ]

-- Setting the status of an order and of all its invoices keeps every order in agreement.
pub set_payment_status-InSync :
    (i : ℕ) (p : PaymentStatus) (s : Store) → InSync s → InSync (set_payment_status i p s)
set_payment_status-InSync i p s h =
    All-update_where_on (Agrees s.orders)
      (Agrees (update_where (has_order_id i) (pay i p s.orders) s.orders)) (λ v. v.order_id == i)
      (λ v. record v { payment_status = p }) (Agrees-pay i p s.orders) s.invoices h
