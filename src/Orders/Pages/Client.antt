-- ===== src/Orders/Pages/Client.antt =====
-- A customer who follows the cursors of myOrders (src/modules/orders/order.service.js).
use mathlib.Core.List.{reverse, reverse-cons}
use maghsul_backend.Base.{
  ℕ, zero, suc, ◌≤◌, ◌<◌, ◌≡◌, refl, sym, ap, ◌∙◌, inl, inr, Bool, true, false, ◌||◌, Option, none,
  some, List, [], ◌∷◌, ◌++◌, any, select, length, Result, ok, err, arith, Bool-cases, Option-cases,
}
use maghsul_backend.Store.{Store, Order, find_customer, CustomerMembership}
use maghsul_backend.Orders.Pages.{
  Page, page_of, find_customer_orders_paged, newest, is_order_of, my_orders,
}
use maghsul_backend.Orders.Pages.Walks.{has_id, follow, distinct_ids, walk_pages, walk_from}

-- The orders of a page before those of the next ones.
abbrev joined : List Order → Result (List Order) → Result (List Order)
joined items (ok next) = ok (items ++ next)
joined items (err e) = err e

abbrev follow_answer : Result Page → (ℕ → Result (List Order)) → Result (List Order)
follow_answer (err e) next = err e
follow_answer (ok page) next = elim page.next_cursor [
  | none ↦ ok page.items
  | some c ↦ joined page.items (next c)
]

-- The answers of myOrders, from a cursor on, one behind the other.
unfoldable pub walk_my_orders : ℕ → Option ℕ → ℕ → ℕ → Option ℕ → Store → Result (List Order)
walk_my_orders zero w identity limit after s = ok []
walk_my_orders (suc n) w identity limit after s =
    follow_answer (my_orders w identity limit after s)
      (λ c. walk_my_orders n w identity limit (some c) s)

newest_lem : (os : List Order) → newest os ≡ reverse os
unfolding newest
newest_lem [] = refl
newest_lem (o ∷ os) = ap (λ l. l ++ o ∷ []) (newest_lem os) ∙ sym (reverse-cons o os)

length-snoc : (os : List Order) (o : Order) → length (os ++ o ∷ []) ≡ suc (length os)
length-snoc [] o = refl
length-snoc (x ∷ os) o = ground (arith, length-snoc os o)

length-newest : (os : List Order) → length (newest os) ≡ length os
unfolding newest
length-newest [] = refl
length-newest (o ∷ os) = length-snoc (newest os) o ∙ ap (λ n. suc n) (length-newest os)

length-select : (p : Order → Bool) (os : List Order) → length (select p os) ≤ length os
length-select p [] = ground arith
length-select p (o ∷ os) = ground (arith, length-select p os)

any-snoc :
    (p : Order → Bool) (os : List Order) (o : Order) → any p (os ++ o ∷ []) ≡ (any p os || p o)
any-snoc p [] o = ground arith
any-snoc p (x ∷ os) o = ground (arith, any-snoc p os o)

any-newest : (p : Order → Bool) (os : List Order) → any p (newest os) ≡ any p os
unfolding newest
any-newest p [] = refl
any-newest p (o ∷ os) = let e = any-snoc p (newest os) o in ground (arith, any-newest p os)

any-select : (p q : Order → Bool) (os : List Order) → any p os ≡ false → any p (select q os) ≡ false
any-select p q [] h = refl
any-select p q (o ∷ os) h = ground (arith, any-select p q os)

select_distinct :
    (q : Order → Bool) (os : List Order)
    → distinct_ids os ≡ true
    → distinct_ids (select q os) ≡ true
unfolding distinct_ids
select_distinct q [] h = refl
select_distinct q (o ∷ os) h =
    let rest = select_distinct q os (ground arith) in
    let other = any-select (has_id o.id) q os (ground arith) in
    elim (Bool-cases (q o)) [ inl t ↦ ground arith | inr n ↦ ground arith ]

snoc_distinct :
    (os : List Order) (o : Order)
    → distinct_ids os ≡ true
    → any (has_id o.id) os ≡ false
    → distinct_ids (os ++ o ∷ []) ≡ true
unfolding distinct_ids
snoc_distinct [] o h k = refl
snoc_distinct (x ∷ os) o h k =
    let rest = snoc_distinct os o (ground arith) (ground arith) in
    let more = any-snoc (has_id x.id) os o in ground arith

newest_distinct : (os : List Order) → distinct_ids os ≡ true → distinct_ids (newest os) ≡ true
unfolding newest distinct_ids
newest_distinct [] h = refl
newest_distinct (o ∷ os) h =
    snoc_distinct (newest os) o (newest_distinct os (ground arith))
      (any-newest (has_id o.id) os ∙ ground arith)

follow_answer_lem :
    (page : Page) (f : ℕ → Result (List Order)) (g : ℕ → List Order)
    → ((c : ℕ) → f c ≡ ok (g c))
    → follow_answer (ok page) f ≡ ok (follow page g)
follow_answer_lem page f g h = elim (Option-cases page.next_cursor) [
  | inl last ↦ rw last refl
  | inr (c, more) ↦ rw (more, h c) refl
]

member_page :
    (w identity limit : ℕ) (after : Option ℕ) (s : Store) (m : CustomerMembership)
    → find_customer identity (some w) s ≡ some m
    → my_orders (some w) identity limit after s
      ≡ ok (
          page_of limit
            (find_customer_orders_paged limit after (newest (select (is_order_of m.id) s.orders))))
unfolding my_orders
member_page w identity limit after s m member = rw (my_orders, member) refl

-- The answers are the pages of the membership's orders.
walk_my_orders_lem :
    (n w identity limit : ℕ) (after : Option ℕ) (s : Store) (m : CustomerMembership)
    → find_customer identity (some w) s ≡ some m
    → walk_my_orders n (some w) identity limit after s
      ≡ ok (walk_pages n limit after (newest (select (is_order_of m.id) s.orders)))
unfolding walk_my_orders walk_pages
walk_my_orders_lem zero w identity limit after s m member = refl
walk_my_orders_lem (suc n) w identity limit after s m member =
    let os = newest (select (is_order_of m.id) s.orders) in
    ap (λ answer. follow_answer answer (λ c. walk_my_orders n (some w) identity limit (some c) s))
      (member_page w identity limit after s m member)
    ∙ follow_answer_lem (page_of limit (find_customer_orders_paged limit after os))
        (λ c. walk_my_orders n (some w) identity limit (some c) s)
        (λ c. walk_pages n limit (some c) os)
        (λ c. walk_my_orders_lem n w identity limit (some c) s m member)

-- A customer of the laundry who follows the cursors of myOrders from the first page on gets an answer:
-- every order of the membership once, the latest in the table first, and no other order. The limit is
-- from one to fifty, the orders have different identifiers, and none is added meanwhile; as many pages
-- as there are orders, and one more, are enough.
pub walk_my_orders_all :
    (limit w identity : ℕ) (s : Store) (m : CustomerMembership)
    → 0 < limit
    → limit ≤ 50
    → distinct_ids s.orders ≡ true
    → find_customer identity (some w) s ≡ some m
    → walk_my_orders (suc (length s.orders)) (some w) identity limit none s
      ≡ ok (reverse (select (is_order_of m.id) s.orders))
walk_my_orders_all limit w identity s m positive small distinct member =
    let own = select (is_order_of m.id) s.orders in
    let short : length (newest own) < suc (length s.orders) =
      ground (arith, length-newest own, length-select (is_order_of m.id) s.orders) in
    walk_my_orders_lem (suc (length s.orders)) w identity limit none s m member
    ∙ ap ok (
        walk_from limit positive small (suc (length s.orders)) none [] (newest own) (newest own)
          (newest_distinct own (select_distinct (is_order_of m.id) s.orders distinct)) refl refl
          short
        ∙ newest_lem own)
