-- ===== src/Payments/Service/Keeps.antt =====
-- The operations of src/modules/payments/payment.service.js keep orders and invoices in agreement.
use mathlib.Core.Path.{subst}
use maghsul_backend.Base.{
  ℕ, ◌≡◌, refl, ◌⊎◌, inl, inr, true, false, Option, some, [], ◌∷◌, ◌++◌, String, if◌then◌else◌,
  done, thrown, final_state, arith, Bool-cases, Option-cases, Outcome-cases, ApiError,
}
use maghsul_backend.Orders.StateMachine.{Actor, cancelled, status_eq}
use maghsul_backend.Store.{
  is_own, Store, Env, Order, cash_on_delivery, online, unpaid, paid, CustomerMembership, find_order,
  has_order_id, find_customer,
}
use maghsul_backend.Store.Frame.{find_order_id, find_order_at_id}
use maghsul_backend.Payments.Sync.{InSync, InSync-SameRows, InSync-orders}
use maghsul_backend.Payments.Service.{
  moyasar_writes, send_notice, map_status, ProviderPayment, ProviderAnswer, refused, accepted,
  create_moyasar_payment, mark_order_paid_manually, switch_to_cod_by_customer,
  switch_to_cod_by_driver, collect_cash_by_driver, is_online, set_cash, is_paid,
}
use maghsul_backend.Payments.Service.Laws.{
  charge, moyasar_writes-Settled, Settled-InSync, Settled-row, send_notice-SameRows,
  collect_cash_by_driver_done, mark_order_paid_manually_done,
}

-- A payment that the provider has accepted. It is recorded with the provider's amount, and the order
-- and its invoices take the status of the attempt, whatever their status was before.
pub create_moyasar_payment_done :
    (actor : Actor) (identity i : ℕ) (method : String) (answer : ProviderAnswer) (env : Env)
    (s s' : Store)
    → create_moyasar_payment actor identity i method answer env s ≡ done tt s'
    → (order : Order) × (p : ProviderPayment) × (m : CustomerMembership) × (answer ≡ accepted p)
      × (find_order i s ≡ some order)
      × (find_customer identity actor.washer_id s ≡ some m)
      × (order.customer_membership_id ≡ m.id)
      × (order.payment_method ≡ online)
      × (find_order i s' ≡ some (record order { payment_status = map_status p.status }))
      × (s'.payments ≡ s.payments ++ charge order p method env ∷ [])
      × (InSync s → InSync s')
unfolding create_moyasar_payment
create_moyasar_payment_done actor identity i method (refused http) env s s' h =
    absurd (ground arith)
create_moyasar_payment_done actor identity i method (accepted p) env s s' h =
    elim (Option-cases (find_order i s)) [
      | inl missing ↦ absurd (ground arith)
      | inr (order, found) ↦ elim (Option-cases (find_customer identity actor.washer_id s)) [
        | inl nobody ↦ absurd (ground arith)
        | inr (m, member) ↦ elim (Outcome-cases (moyasar_writes order p method env s)) [
          | inr (e, s1, w) ↦ absurd (ground arith)
          | inl (u, s1, w) ↦
              let type : String =
                if is_paid (map_status p.status) then "payment_paid" else "payment_failed" in
              let last : s' ≡ send_notice (some m.identity_id) order.id type s1 = ground arith in
              let kept = send_notice-SameRows (some m.identity_id) order.id type s1 in
              let w' = moyasar_writes-Settled order p method env s s1 w in
              let row =
                Settled-row order (map_status p.status) _ s s1 (find_order_at_id i s order found)
                  w' in
              (
                order,
                p,
                m,
                refl,
                found,
                member,
                ground arith,
                ground arith,
                rw last (
                    subst
                      (λ k.
                        find_order k s1
                        ≡ some (record order { payment_status = map_status p.status }))
                      (find_order_id i s order found) row),
                rw last (w'.payments),
                λ h. rw last (
                    InSync-SameRows s1 _ kept
                      (Settled-InSync order.id (map_status p.status) _ s s1 w' h)),
              )
        ]
      ]
    ]

-- An error leaves every table as it was.
create_thrown :
    (actor : Actor) (identity i : ℕ) (method : String) (answer : ProviderAnswer) (env : Env)
    (s : Store) {e : ApiError} {s' : Store}
    → create_moyasar_payment actor identity i method answer env s ≡ thrown e s'
    → s' ≡ s
unfolding create_moyasar_payment
create_thrown actor identity i method (refused http) env s h = ground arith
create_thrown actor identity i method (accepted p) env s h = ground arith

mark_thrown :
    (user : Actor) (i : ℕ) (method : Option String) (env : Env) (s : Store) {e : ApiError}
    {s' : Store}
    → mark_order_paid_manually user i method env s ≡ thrown e s'
    → s' ≡ s
unfolding mark_order_paid_manually
mark_thrown user i method env s h = ground arith

collect_thrown :
    (user : Actor) (i : ℕ) (env : Env) (s : Store) {e : ApiError} {s' : Store}
    → collect_cash_by_driver user i env s ≡ thrown e s'
    → s' ≡ s
unfolding collect_cash_by_driver
collect_thrown user i env s h = ground arith

-- The two switches write the payment method of the order, or nothing.
abbrev SwitchOnly : ℕ → Store → Store → Type 0
SwitchOnly i s s' = (s' ≡ s) ⊎ (s' ≡ set_cash i s)

switch_customer_state :
    (actor : Actor) (identity i : ℕ) (s : Store)
    → SwitchOnly i s (final_state (switch_to_cod_by_customer actor identity i s))
unfolding switch_to_cod_by_customer
switch_customer_state actor identity i s = ground arith

switch_driver_state :
    (user : Actor) (i : ℕ) (s : Store)
    → SwitchOnly i s (final_state (switch_to_cod_by_driver user i s))
unfolding switch_to_cod_by_driver
switch_driver_state user i s = ground arith

SwitchOnly-InSync : (i : ℕ) (s s' : Store) → SwitchOnly i s s' → InSync s → InSync s'
SwitchOnly-InSync i s s' (inl same) h = rw same h
SwitchOnly-InSync i s s' (inr cash) h = rw cash (
    InSync-orders (has_order_id i) (λ o. record o { payment_method = cash_on_delivery }) s.orders
      s.invoices (λ o. refl) (λ o. refl) h)

-- When a customer's switch to cash returns, the order is the customer's own and unpaid. If it was to
-- be paid in cash already, it is given back and nothing changes; otherwise it is not cancelled, and
-- its payment method is all that changes.
pub switch_to_cod_by_customer_done :
    (actor : Actor) (identity i : ℕ) (s : Store) (out : Option Order) (s' : Store)
    → switch_to_cod_by_customer actor identity i s ≡ done out s'
    → (order : Order) × (find_order i s ≡ some order)
      × (is_own (find_customer identity actor.washer_id s) order ≡ true)
      × (order.payment_status ≡ unpaid)
      × (((order.payment_method ≡ cash_on_delivery) × (s' ≡ s) × (out ≡ some order))
          ⊎ ((order.payment_method ≡ online)
              × (status_eq order.status cancelled ≡ false)
              × (s' ≡ set_cash i s)))
unfolding switch_to_cod_by_customer
switch_to_cod_by_customer_done actor identity i s out s' h = elim (Option-cases (find_order i s)) [
  | inl missing ↦ absurd (ground arith)
  | inr (order, found) ↦ elim (Bool-cases (is_online order.payment_method)) [
    | inl o ↦
        (order, found, ground arith, ground arith, inr (ground arith, ground arith, ground arith))
    | inr c ↦
        (order, found, ground arith, ground arith, inl (ground arith, ground arith, ground arith))
  ]
]

-- The requests of the payment service.
pub data Request : Type 0 where
  create : Actor → ℕ → ℕ → String → ProviderAnswer → Request
  mark_paid : Actor → ℕ → Option String → Request
  switch_by_customer : Actor → ℕ → ℕ → Request
  switch_by_driver : Actor → ℕ → Request
  collect_cash : Actor → ℕ → Request

abbrev pub serve : Request → Env → Store → Store
serve (create actor identity i method answer) env s =
    final_state (create_moyasar_payment actor identity i method answer env s)
serve (mark_paid user i method) env s = final_state (mark_order_paid_manually user i method env s)
serve (switch_by_customer actor identity i) env s =
    final_state (switch_to_cod_by_customer actor identity i s)
serve (switch_by_driver user i) env s = final_state (switch_to_cod_by_driver user i s)
serve (collect_cash user i) env s = final_state (collect_cash_by_driver user i env s)

-- Whatever the payment service is asked, and whether it returns or throws, every invoice keeps the
-- payment status of its order.
pub serve-InSync : (r : Request) (env : Env) (s : Store) → InSync s → InSync (serve r env s)
serve-InSync (create actor identity i method answer) env s h =
    elim (Outcome-cases (create_moyasar_payment actor identity i method answer env s)) [
      | inl (u, s1, w) ↦
          let (order, p, m, a, b, c, d, e, f, g, keeps) =
            create_moyasar_payment_done actor identity i method answer env s s1 w in
          rw w (keeps h)
      | inr (e, s1, w) ↦ rw (w, create_thrown actor identity i method answer env s w) h
    ]
serve-InSync (mark_paid user i method) env s h =
    elim (Outcome-cases (mark_order_paid_manually user i method env s)) [
      | inl (out, s1, w) ↦
          let (order, a, b, c, settled) =
            mark_order_paid_manually_done user i method env s out s1 w in
          rw w (Settled-InSync order.id paid _ s s1 settled h)
      | inr (e, s1, w) ↦ rw (w, mark_thrown user i method env s w) h
    ]
serve-InSync (switch_by_customer actor identity i) env s h =
    SwitchOnly-InSync i s _ (switch_customer_state actor identity i s) h
serve-InSync (switch_by_driver user i) env s h =
    SwitchOnly-InSync i s _ (switch_driver_state user i s) h
serve-InSync (collect_cash user i) env s h =
    elim (Outcome-cases (collect_cash_by_driver user i env s)) [
      | inl (out, s1, w) ↦
          let (order, a, b, c, cases) = collect_cash_by_driver_done user i env s out s1 w in
          elim cases [
            | inl (x, same, y) ↦ rw (w, same) h
            | inr (x, y, z, settled) ↦ rw w (Settled-InSync order.id paid _ s s1 settled h)
          ]
      | inr (e, s1, w) ↦ rw (w, collect_thrown user i env s w) h
    ]
