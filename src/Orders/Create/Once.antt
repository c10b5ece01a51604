-- ===== src/Orders/Create/Once.antt =====
-- The idempotency keys of createOrder of src/modules/orders/order.service.js.
use mathlib.Core.Path.{subst}
use maghsul_backend.Base.{
  ℕ, ◌≡◌, inl, inr, refl, sym, ap, ◌∙◌, Bool, true, ◌&&◌, Option, none, some, List, [], ◌∷◌, ◌++◌,
  ◌==◌, if◌then◌else◌, find, find_sound, find-append, ok, Outcome, done, thrown, api_error, arith,
  ==_refl, ==_iff, Bool-cases,
}
use maghsul_backend.Store.{
  Store, Order, has_order_id, find_order, find_customer, is_active, CustomerMembership,
}
use maghsul_backend.Laundries.Places.{Mapped, map_required_coordinates}
use maghsul_backend.Laundries.Coverage.{CoverageBranch}
use maghsul_backend.Orders.Create.Tables.{OrderKey, Shop, Customer, OrderRequest, Surroundings}
use maghsul_backend.Orders.Create.{
  has_key, find_key, create_order, notify_created, key_of_order, new_order, content_of,
  select_branch, find_membership, replay_order, submit_order, order_of_member, order_writes,
}
use maghsul_backend.Orders.Create.Writes.{Selected}
use maghsul_backend.Orders.Create.Answer.{Submitted, created_orders, create_order_done}
use maghsul_backend.Orders.Create.Grown.{
  create_orders, find-append_some, created_customers, Submitted-Grows, calls-Grows,
}

-- An order, and the key of a customer's membership that answers with it.
record Keyed (m key hash : ℕ) (o : Order) (s : Shop) : Type 0 where
  k : OrderKey
  has : find_key m (some key) s ≡ some k
  same_content : k.content_hash ≡ hash
  order : find_order k.order_id s.store ≡ some o

found_own : (i : ℕ) (t : Store) (o : Order) → find_order i t ≡ some o → find_order o.id t ≡ some o
found_own i t o at =
    let own = (==_iff o.id i).0 (find_sound (has_order_id i) t.orders o at) in
    subst (λ j. find (has_order_id j) t.orders ≡ some o) (sym own) at

Submitted-Keyed :
    (x : Surroundings) (caller : Customer) (r : OrderRequest) (places : Mapped) (washer_id key : ℕ)
    (s : Shop) (o : Order) (s1 : Shop) (h : Submitted x caller r places washer_id s o s1)
    → r.idempotency_key ≡ some key
    → (o' : Order) × (find_order o.id s1.store ≡ some o')
      × Keyed h.membership.id key
          (x.hash (content_of x caller r places washer_id h.branch h.membership))
          o'
          s1
Submitted-Keyed x caller r places washer_id key s o s1 h e = elim h.outcome [
  | inl (k, found, content, at, same) ↦ rw same (
    o,
    found_own k.order_id s.store o at,
    record { k = k; has = rw e at found; same_content = content; order = at },
  )
  | inr (fresh, (number, numbered, answer, placed)) ↦
      let c = content_of x caller r places washer_id h.branch h.membership in
      let n = new_order c number x.env in
      let (o', at) = find-append_some (has_order_id n.id) s.store.orders n (==_refl n.id) in
      let at' : find_order n.id s1.store ≡ some o' = rw placed.orders at in
      let missing : find_key h.membership.id (some key) s ≡ none = rw e at fresh in
      let key_is : s1.keys ≡ s.keys ++ key_of_order c key (x.hash c) n ∷ [] = rw e at placed.keys in
      (
        o',
        rw answer at',
        record {
          k = key_of_order c key (x.hash c) n;
          has = rw key_is (
              find-append (has_key h.membership.id key) s.keys
                (key_of_order c key (x.hash c) n ∷ []) missing
              ∙ rw (==_refl h.membership.id, ==_refl key) refl);
          same_content = refl;
          order = at';
        },
      )
]

replays :
    (hash : ℕ) (k : OrderKey) (s : Shop) (o : Order)
    → find_order k.order_id s.store ≡ some o
    → replay_order hash k s ≡ (
        if k.content_hash == hash
        then done o s
        else thrown (api_error 409 "IDEMPOTENCY_CONFLICT") s)
unfolding replay_order
replays hash k s o at = elim (Bool-cases (k.content_hash == hash)) [
  | inl same ↦ rw (same, at) refl
  | inr differs ↦ rw differs refl
]

-- The answer to a request with a key that is taken by the order `o`.
abbrev pub answer_of : Bool → Order → Shop → Outcome Shop (Option Order)
answer_of same o s =
    if same
    then done (some o) (record s { store = notify_created o s.store })
    else thrown (api_error 409 "IDEMPOTENCY_CONFLICT") s

module _ (x : Surroundings) (caller : Customer) (r : OrderRequest) (places : Mapped)
    (washer_id key : ℕ) (s : Shop) (branch : CoverageBranch) (m : CustomerMembership) (k : OrderKey)
    (o : Order) (keyed : r.idempotency_key ≡ some key) (has : find_key m.id (some key) s ≡ some k)
    (at : find_order k.order_id s.store ≡ some o) where
  abbrev later_hash : ℕ
  later_hash = x.hash (content_of x caller r places washer_id branch m)

  writes_at :
      select_branch x.geometry washer_id r.branch_id places s ≡ done branch s
      → find_membership caller.identity_id washer_id s ≡ done m s
      → order_writes x caller r places washer_id s ≡ (
          if k.content_hash == later_hash
          then done o s
          else thrown (api_error 409 "IDEMPOTENCY_CONFLICT") s)
  unfolding order_writes order_of_member submit_order
  writes_at chosen member =
      let first : order_writes x caller r places washer_id s
          ≡ order_of_member x caller r places washer_id branch m s =
        ground arith in
      let has' : find_key m.id r.idempotency_key s ≡ some k = rw keyed has in
      let second : order_of_member x caller r places washer_id branch m s
          ≡ replay_order later_hash k s =
        ground arith in
      first ∙ second ∙ replays later_hash k s o at

  answered :
      map_required_coordinates x.limits r.service_type r.pickup r.delivery ≡ ok places
      → caller.washer_id ≡ some washer_id
      → select_branch x.geometry washer_id r.branch_id places s ≡ done branch s
      → find_membership caller.identity_id washer_id s ≡ done m s
      → create_order x caller r s ≡ answer_of (k.content_hash == later_hash) o s
  unfolding create_order
  answered mapped laundry chosen member =
      let writes = writes_at chosen member in
      let found : find_order o.id (notify_created o s.store) ≡ some o =
        ap (λ rows. find (has_order_id o.id) rows) (created_orders o s.store)
        ∙ found_own k.order_id s.store o at in
      elim (Bool-cases (k.content_hash == later_hash)) [
        | inl same ↦ let w = rw same at writes in rw same (ground arith)
        | inr differs ↦ let w = rw differs at writes in rw differs (ground arith)
      ]

found_membership :
    (identity washer_id : ℕ) (s s' : Shop) (m : CustomerMembership)
    → s'.store.customers ≡ s.store.customers
    → find_customer identity (some washer_id) s.store ≡ some m
    → is_active m.status ≡ true
    → find_membership identity washer_id s' ≡ done m s'
unfolding find_membership
found_membership identity washer_id s s' m same member active' =
    let member' : find_customer identity (some washer_id) s'.store ≡ some m =
      ap (λ rows. find (λ z. z.identity_id == identity && z.washer_id == washer_id) rows) same
      ∙ member in
    ground arith

-- A submission, and a later call with its key.
later_answer :
    (calls : List (Surroundings × Customer × OrderRequest)) (x x' : Surroundings)
    (caller : Customer) (r r' : OrderRequest) (key washer_id : ℕ) (s s0 s1 : Shop) (o : Order)
    (places places' : Mapped) (branch' : CoverageBranch)
    (h : Submitted x caller r places washer_id s o s0)
    → s1 ≡ record s0 { store = notify_created o s0.store }
    → r.idempotency_key ≡ some key
    → r'.idempotency_key ≡ some key
    → caller.washer_id ≡ some washer_id
    → map_required_coordinates x'.limits r'.service_type r'.pickup r'.delivery ≡ ok places'
    → select_branch x'.geometry washer_id r'.branch_id places' (create_orders calls s1)
      ≡ done branch' (create_orders calls s1)
    → (o' : Order) × (find_order o.id s0.store ≡ some o')
      × (create_order x' caller r' (create_orders calls s1)
          ≡ answer_of
              (x.hash (content_of x caller r places washer_id h.branch h.membership)
                == x'.hash (content_of x' caller r' places' washer_id branch' h.membership))
              o'
              (create_orders calls s1))
later_answer calls x x' caller r r' key washer_id s s0 s1 o places places' branch' h last e e'
      laundry mapped chosen =
    let m = h.membership in
    let (o', at, keyed) = Submitted-Keyed x caller r places washer_id key s o s0 h e in
    let grown = calls-Grows calls s1 in
    let start = Submitted-Grows x caller r places washer_id s o s0 h in
    let has : find_key m.id (some key) (create_orders calls s1) ≡ some keyed.k =
      grown.keys (has_key m.id key) keyed.k
        (ap (λ z. find_key m.id (some key) z) last ∙ keyed.has) in
    let rows : s1.store.orders ≡ s0.store.orders =
      ap (λ z. z.store.orders) last ∙ created_orders o s0.store in
    let there : find_order keyed.k.order_id (create_orders calls s1).store ≡ some o' =
      grown.orders (has_order_id keyed.k.order_id) o'
        (ap (λ os. find (has_order_id keyed.k.order_id) os) rows ∙ keyed.order) in
    let customers : (create_orders calls s1).store.customers ≡ s.store.customers =
      grown.customers
      ∙ ap (λ z. z.store.customers) last
      ∙ created_customers o s0.store
      ∙ start.customers in
    let member =
      found_membership caller.identity_id washer_id s (create_orders calls s1) m customers h.member
        h.active in
    let later =
      answered x' caller r' places' washer_id key (create_orders calls s1) branch' m keyed.k o' e'
        has there mapped laundry chosen member in
    (o', at, rw (← keyed.same_content) later)

-- A request is answered by one order. Once a call with a key has returned, with the order `o`, take any
-- further calls of createOrder, by anyone, and behind them a call of the same customer at the same
-- laundry with the key, whose places are well formed and whose branch is accepted. It creates nothing:
-- if its content has the hash of the first call's, it answers with `o` again and notifies of it again;
-- if not, it throws IDEMPOTENCY_CONFLICT and leaves everything as it was.
pub create_order_once :
    (calls : List (Surroundings × Customer × OrderRequest)) (x x' : Surroundings)
    (caller : Customer) (r r' : OrderRequest) (key washer_id : ℕ) (s : Shop) (out : Option Order)
    (s1 : Shop) (places' : Mapped) (branch' : CoverageBranch)
    → create_order x caller r s ≡ done out s1
    → r.idempotency_key ≡ some key
    → r'.idempotency_key ≡ some key
    → caller.washer_id ≡ some washer_id
    → map_required_coordinates x'.limits r'.service_type r'.pickup r'.delivery ≡ ok places'
    → select_branch x'.geometry washer_id r'.branch_id places' (create_orders calls s1)
      ≡ done branch' (create_orders calls s1)
    → (o : Order) × (places : Mapped) × (branch : CoverageBranch) × (m : CustomerMembership) × (out
        ≡ some o)
      × (map_required_coordinates x.limits r.service_type r.pickup r.delivery ≡ ok places)
      × Selected x.geometry washer_id places r.branch_id s branch
      × (find_customer caller.identity_id (some washer_id) s.store ≡ some m)
      × (create_order x' caller r' (create_orders calls s1)
          ≡ answer_of
              (x.hash (content_of x caller r places washer_id branch m)
                == x'.hash (content_of x' caller r' places' washer_id branch' m))
              o
              (create_orders calls s1))
create_order_once calls x x' caller r r' key washer_id s out s1 places' branch' h e e' laundry
      mapped chosen =
    let (places, i, o, s0, located, laundry', sub, last, answer) =
      create_order_done x caller r s out s1 h in
    let same_laundry : i ≡ washer_id = cc in
    let k = subst (λ j. Submitted x caller r places j s o s0) same_laundry sub in
    let (o', at, later) =
      later_answer calls x x' caller r r' key washer_id s s0 s1 o places places' branch' k last e e'
        laundry mapped chosen in
    (o', places, k.branch, k.membership, answer ∙ at, located, k.selected, k.member, later)
