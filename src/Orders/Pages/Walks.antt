-- ===== src/Orders/Pages/Walks.antt =====
-- A client that follows the cursors of myOrders (src/modules/orders/order.service.js).
use maghsul_backend.Base.{
  ℕ, zero, suc, ◌+◌, ◌-◌, ◌≤◌, ◌<◌, ◌≡◌, refl, sym, ap, ◌∙◌, inl, inr, Bool, true, false, not, ◌&&◌,
  Option, none, some, List, [], ◌∷◌, ◌++◌, ◌==◌, ltb, leb, any, length, arith, Bool-cases, ==_iff,
}
use maghsul_backend.Store.{Order}
use maghsul_backend.Orders.Pages.{
  take, skip_to, from_cursor, last_id, find_customer_orders_paged, page_of, page_size, Page,
}

abbrev pub has_id : ℕ → Order → Bool
has_id i o = o.id == i

unfoldable pub distinct_ids : List Order → Bool
distinct_ids [] = true
distinct_ids (o ∷ os) = not (any (has_id o.id) os) && distinct_ids os

abbrev pub follow : Page → (ℕ → List Order) → List Order
follow page next = elim page.next_cursor [ none ↦ page.items | some c ↦ page.items ++ next c ]

-- The pages from a cursor on, one behind the other.
unfoldable pub walk_pages : ℕ → ℕ → Option ℕ → List Order → List Order
walk_pages zero limit after os = []
walk_pages (suc n) limit after os =
    follow (page_of limit (find_customer_orders_paged limit after os))
      (λ c. walk_pages n limit (some c) os)

drop : ℕ → List Order → List Order
drop zero os = os
drop (suc n) [] = []
drop (suc n) (o ∷ os) = drop n os

length-take : (n : ℕ) (os : List Order) → n ≤ length os → length (take n os) ≡ n
unfolding take
length-take zero os h = refl
length-take (suc n) [] h = ground arith
length-take (suc n) (o ∷ os) h = ground (arith, length-take n os (ground arith))

take_all : (n : ℕ) (os : List Order) → length os ≤ n → take n os ≡ os
unfolding take
take_all zero [] h = refl
take_all zero (o ∷ os) h = ground arith
take_all (suc n) [] h = refl
take_all (suc n) (o ∷ os) h = ap (λ xs. o ∷ xs) (take_all n os (ground arith))

take-take : (n : ℕ) (os : List Order) → take n (take (suc n) os) ≡ take n os
unfolding take
take-take zero os = refl
take-take (suc n) [] = refl
take-take (suc n) (o ∷ os) = ap (λ xs. o ∷ xs) (take-take n os)

take-drop : (n : ℕ) (os : List Order) → take n os ++ drop n os ≡ os
unfolding take drop
take-drop zero os = refl
take-drop (suc n) [] = refl
take-drop (suc n) (o ∷ os) = ap (λ xs. o ∷ xs) (take-drop n os)

length-drop : (n : ℕ) (os : List Order) → n ≤ length os → length (drop n os) + n ≡ length os
unfolding drop
length-drop zero os h = ground arith
length-drop (suc n) [] h = ground arith
length-drop (suc n) (o ∷ os) h = ground (arith, length-drop n os (ground arith))

append_assoc : (xs ys zs : List Order) → (xs ++ ys) ++ zs ≡ xs ++ (ys ++ zs)
append_assoc [] ys zs = refl
append_assoc (x ∷ xs) ys zs = ap (λ l. x ∷ l) (append_assoc xs ys zs)

last_in : (xs ys : List Order) (i : ℕ) → last_id xs ≡ some i → any (has_id i) (xs ++ ys) ≡ true
unfolding last_id
last_in [] ys i h = absurd (ground arith)
last_in (x ∷ []) ys i h = ground arith
last_in (x ∷ y ∷ xs) ys i h = ground (arith, last_in (y ∷ xs) ys i h)

-- The cursor of the last row of a first part leads to the rest.
skip_past :
    (xs ys : List Order) (i : ℕ)
    → last_id xs ≡ some i
    → distinct_ids (xs ++ ys) ≡ true
    → skip_to i (xs ++ ys) ≡ ys
unfolding last_id skip_to distinct_ids
skip_past [] ys i h d = absurd (ground arith)
skip_past (x ∷ []) ys i h d = ground arith
skip_past (x ∷ y ∷ xs) ys i h d =
    let rest = skip_past (y ∷ xs) ys i h (ground arith) in
    let here = last_in (y ∷ xs) ys i h in
    elim (Bool-cases (x.id == i)) [
      | inr other ↦ rw other rest
      | inl same ↦
          let e = (==_iff x.id i).0 same in
          let twice : any (has_id x.id) ((y ∷ xs) ++ ys) ≡ any (has_id i) ((y ∷ xs) ++ ys) =
            ap (λ k. any (has_id k) ((y ∷ xs) ++ ys)) e in
          absurd (ground (arith, twice, here))
    ]

last_append : (xs ys : List Order) (i : ℕ) → last_id ys ≡ some i → last_id (xs ++ ys) ≡ some i
unfolding last_id
last_append [] ys i h = h
last_append (x ∷ []) [] i h = absurd (ground arith)
last_append (x ∷ []) (y ∷ ys) i h = h
last_append (x ∷ z ∷ xs) ys i h = last_append (z ∷ xs) ys i h

has_last : (n : ℕ) (os : List Order) → length os ≡ suc n → (i : ℕ) × (last_id os ≡ some i)
unfolding last_id
has_last n [] h = absurd (ground arith)
has_last n (o ∷ []) h = (o.id, refl)
has_last zero (o ∷ p ∷ os) h = absurd (ground arith)
has_last (suc n) (o ∷ p ∷ os) h = has_last n (p ∷ os) (ground arith)

module _ (limit : ℕ) (positive : 0 < limit) (small : limit ≤ 50) where
  size : page_size limit + 1 ≡ suc limit
  size = ground arith

  -- A page that is the last one, and a page with others behind it.
  last_page :
      (after : Option ℕ) (os : List Order)
      → length (from_cursor after os) ≤ limit
      → page_of limit (find_customer_orders_paged limit after os)
        ≡ record { items = from_cursor after os; next_cursor = none }
  unfolding find_customer_orders_paged
  last_page after os short =
      let all : take (page_size limit + 1) (from_cursor after os) ≡ from_cursor after os =
        take_all (page_size limit + 1) (from_cursor after os) (ground (arith, size)) in
      let test : ltb limit (length (from_cursor after os)) ≡ false = ground arith in
      rw (all, test) refl

  full_page :
      (after : Option ℕ) (os : List Order)
      → limit < length (from_cursor after os)
      → page_of limit (find_customer_orders_paged limit after os) ≡ record {
        items = take limit (from_cursor after os);
        next_cursor = last_id (take limit (from_cursor after os));
      }
  unfolding find_customer_orders_paged
  full_page after os long =
      let n : length (take (suc limit) (from_cursor after os)) ≡ suc limit =
        length-take (suc limit) (from_cursor after os) (ground arith) in
      let test : ltb limit (length (take (suc limit) (from_cursor after os))) ≡ true =
        ground arith in
      rw (size, test, take-take limit (from_cursor after os)) refl

  pub walk_from :
      (fuel : ℕ) (after : Option ℕ) (pre rest os : List Order)
      → distinct_ids os ≡ true
      → pre ++ rest ≡ os
      → from_cursor after os ≡ rest
      → length rest < fuel
      → walk_pages fuel limit after os ≡ rest
  unfolding walk_pages
  walk_from zero after pre rest os distinct parts at enough = ground arith
  walk_from (suc fuel) after pre rest os distinct parts at enough =
      elim (Bool-cases (leb (length rest) limit)) [
        | inl short ↦
            ap (λ p. follow p (λ c. walk_pages fuel limit (some c) os))
              (last_page after os (rw at (ground arith)))
            ∙ at
        | inr long ↦
            let first = take limit (from_cursor after os) in
            let more : limit < length (from_cursor after os) = rw at (ground arith) in
            let n : length first ≡ suc (limit - 1) =
              ground (arith, length-take limit (from_cursor after os) (ground arith)) in
            let (i, last) = has_last (limit - 1) first n in
            let whole : first ++ drop limit (from_cursor after os) ≡ rest =
              take-drop limit (from_cursor after os) ∙ at in
            let parts' : (pre ++ first) ++ drop limit (from_cursor after os) ≡ os =
              append_assoc pre first (drop limit (from_cursor after os))
              ∙ ap (λ l. pre ++ l) whole
              ∙ parts in
            let at' : skip_to i os ≡ drop limit (from_cursor after os) =
              ap (λ l. skip_to i l) (sym parts')
              ∙ skip_past (pre ++ first) (drop limit (from_cursor after os)) i
                  (last_append pre first i last) (ap distinct_ids parts' ∙ distinct) in
            let fewer : length (drop limit (from_cursor after os)) < fuel = ground (
              arith,
              length-drop limit (from_cursor after os) (ground arith),
              ap (λ l. length l) at,
            ) in
            let others =
              walk_from fuel (some i) (pre ++ first) (drop limit (from_cursor after os)) os distinct
                parts' at' fewer in
            ap (λ p. follow p (λ c. walk_pages fuel limit (some c) os)) (full_page after os more)
            ∙ ap
                (λ c.
                  follow (record { items = first; next_cursor = c })
                    (λ c. walk_pages fuel limit (some c) os))
                last
            ∙ ap (λ l. first ++ l) others
            ∙ whole
      ]
