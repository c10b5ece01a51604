-- ===== src/Orders/Create/Grown.antt =====
-- What calls of createOrder of src/modules/orders/order.service.js leave of what is found.
use maghsul_backend.Base.{
  ℕ, ◌≡◌, inl, inr, refl, ◌∙◌, Bool, true, some, List, [], ◌∷◌, ◌++◌, find, final_state, arith,
  Bool-cases, Outcome-cases,
}
use maghsul_backend.Store.{Store, Order}
use maghsul_backend.Store.Notices.{notify_customer, notify_washer}
use maghsul_backend.Laundries.Places.{Mapped}
use maghsul_backend.Orders.Create.Tables.{OrderKey, Shop, Customer, OrderRequest, Surroundings}
use maghsul_backend.Orders.Create.{create_order, notify_created}
use maghsul_backend.Orders.Create.Answer.{
  Submitted, created_orders, create_order_done, create_order_thrown,
}

-- Calls of createOrder one after another, by any customers, returning or throwing.
unfoldable pub create_orders : List (Surroundings × Customer × OrderRequest) → Shop → Shop
create_orders [] s = s
create_orders ((x, caller, r) ∷ calls) s =
    create_orders calls (final_state (create_order x caller r s))

module _ {A : Type 0} where
  find-append_kept :
      (p : A → Bool) (xs ys : List A) (x : A) → find p xs ≡ some x → find p (xs ++ ys) ≡ some x
  find-append_kept p [] ys x e = absurd (ground arith)
  find-append_kept p (z ∷ zs) ys x e = elim (Bool-cases (p z)) [
    | inl t ↦ rw t (rw t at e)
    | inr n ↦ rw n (find-append_kept p zs ys x (rw n at e))
  ]

  pub find-append_some :
      (p : A → Bool) (xs : List A) (y : A) → p y ≡ true → (x : A) × (find p (xs ++ y ∷ []) ≡ some x)
  find-append_some p [] y t = (y, rw t refl)
  find-append_some p (z ∷ zs) y t = elim (Bool-cases (p z)) [
    | inl h ↦ (z, rw h refl)
    | inr n ↦ let (x, e) = find-append_some p zs y t in (x, rw n e)
  ]

-- What is found stays found, and the customers stay the same.
pub record Grows (s s' : Shop) : Type 0 where
  pub keys : (p : OrderKey → Bool) (k : OrderKey) → find p s.keys ≡ some k → find p s'.keys ≡ some k
  pub orders :
      (p : Order → Bool) (o : Order)
      → find p s.store.orders ≡ some o
      → find p s'.store.orders ≡ some o
  pub customers : s'.store.customers ≡ s.store.customers

pub created_customers : (o : Order) (t : Store) → (notify_created o t).customers ≡ t.customers
unfolding notify_customer notify_washer
created_customers o t = ground arith

pub Submitted-Grows :
    (x : Surroundings) (caller : Customer) (r : OrderRequest) (places : Mapped) (washer_id : ℕ)
    (s : Shop) (o : Order) (s1 : Shop)
    → Submitted x caller r places washer_id s o s1
    → Grows s s1
Submitted-Grows x caller r places washer_id s o s1 h = elim h.outcome [
  | inl (k, found, b, c, same) ↦
      rw same (record { keys = λ p k e. e; orders = λ p o e. e; customers = refl })
  | inr (fresh, (number, numbered, answer, placed)) ↦ record {
    keys = λ p k e. rw placed.keys (find-append_kept p s.keys _ k e);
    orders = λ p o e. rw placed.orders (find-append_kept p s.store.orders _ o e);
    customers = placed.customers;
  }
]

call-Grows :
    (x : Surroundings) (caller : Customer) (r : OrderRequest) (s : Shop)
    → Grows s (final_state (create_order x caller r s))
call-Grows x caller r s = elim (Outcome-cases (create_order x caller r s)) [
  | inr (e, s1, w) ↦
      rw (w, create_order_thrown x caller r s e s1 w)
        (record { keys = λ p k e. e; orders = λ p o e. e; customers = refl })
  | inl (out, s1, w) ↦
      let (places, washer_id, o, s2, a, b, h, last, c) = create_order_done x caller r s out s1 w in
      let k = Submitted-Grows x caller r places washer_id s o s2 h in
      rw (w, last)
        (record {
          keys = k.keys;
          orders = λ p o' e. rw (created_orders o s2.store) (k.orders p o' e);
          customers = created_customers o s2.store ∙ k.customers;
        })
]

pub calls-Grows :
    (calls : List (Surroundings × Customer × OrderRequest)) (s : Shop)
    → Grows s (create_orders calls s)
unfolding create_orders
calls-Grows [] s = record { keys = λ p k e. e; orders = λ p o e. e; customers = refl }
calls-Grows ((x, caller, r) ∷ calls) s =
    let first = call-Grows x caller r s in
    let rest = calls-Grows calls (final_state (create_order x caller r s)) in
    record {
      keys = λ p k e. rest.keys p k (first.keys p k e);
      orders = λ p o e. rest.orders p o (first.orders p o e);
      customers = rest.customers ∙ first.customers;
    }
