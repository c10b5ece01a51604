-- ===== src/Orders/Pages.antt =====
-- myOrders of src/modules/orders/order.service.js over findCustomerOrdersPaged of order.model.js: the
-- orders of a customer's membership, newest first, a page at a time. A row that is added later is a
-- newer one.
pub mod Walks
pub mod Client
use maghsul_backend.Base.{
  ℕ, zero, suc, ◌+◌, Bool, Option, none, some, List, [], ◌∷◌, ◌++◌, ◌==◌, ltb, leb, if◌then◌else◌,
  select, length, Result, ok, err, api_error,
}
use maghsul_backend.Store.{Store, Order, find_customer}

abbrev pub max_page : ℕ
max_page = 50

-- `Math.min(Math.max(Number(limit) || 10, 1), 50)`
abbrev pub page_size : ℕ → ℕ
page_size zero = 10
page_size (suc n) = if leb (suc n) max_page then suc n else max_page

unfoldable pub take : ℕ → List Order → List Order
take zero os = []
take (suc n) [] = []
take (suc n) (o ∷ os) = o ∷ take n os

-- `cursor: { id: afterId }, skip: 1`
unfoldable pub skip_to : ℕ → List Order → List Order
skip_to i [] = []
skip_to i (o ∷ os) = let rest = skip_to i os in if o.id == i then os else rest

abbrev pub from_cursor : Option ℕ → List Order → List Order
from_cursor none os = os
from_cursor (some i) os = skip_to i os

-- `items[items.length - 1]?.id ?? null`
unfoldable pub last_id : List Order → Option ℕ
last_id [] = none
last_id (o ∷ []) = some o.id
last_id (o ∷ p ∷ os) = last_id (p ∷ os)

unfoldable pub newest : List Order → List Order
newest [] = []
newest (o ∷ os) = newest os ++ o ∷ []

abbrev pub is_order_of : ℕ → Order → Bool
is_order_of membership o = o.customer_membership_id == membership

-- `findCustomerOrdersPaged`
unfoldable pub find_customer_orders_paged : ℕ → Option ℕ → List Order → List Order
find_customer_orders_paged limit after os = take (page_size limit + 1) (from_cursor after os)

pub record Page : Type 0 where
  pub items : List Order
  pub next_cursor : Option ℕ

-- The page of the rows that were fetched; one more than the limit shows that there are more.
abbrev pub page_of : ℕ → List Order → Page
page_of limit rows =
    if ltb limit (length rows)
    then record { items = take limit rows; next_cursor = last_id (take limit rows) }
    else record { items = rows; next_cursor = none }

-- `myOrders` for a limit and a cursor of the request; without a limit it is 10.
unfoldable pub my_orders : Option ℕ → ℕ → ℕ → Option ℕ → Store → Result Page
my_orders none identity limit after s = err (api_error 403 "no_canonical_washer")
my_orders (some w) identity limit after s = elim (find_customer identity (some w) s) [
  | none ↦ ok (record { items = []; next_cursor = none })
  | some m ↦ ok (
      page_of limit
        (find_customer_orders_paged limit after (newest (select (is_order_of m.id) s.orders))))
]
