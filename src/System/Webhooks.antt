-- ===== src/System/Webhooks.antt =====
-- The processing of webhooks, src/modules/payments/webhook-processor.service.js, on the statuses.
use maghsul_backend.Base.{
  ℕ, String, ◌≡◌, refl, ap, ◌∙◌, ◌⊎◌, inl, inr, true, false, Option, none, some, ◌==◌, ==_iff, find,
  done, arith, Outcome-cases, Bool-cases, Option-cases, final_state, if◌then◌else◌, map_option, on,
}
use maghsul_backend.Orders.StateMachine.{payment_confirmed}
use maghsul_backend.Orders.StateMachine.Matrix.{Edge}
use maghsul_backend.Orders.WasherStatus.{is_unmoved}
use maghsul_backend.Store.{
  Store, Env, Order, find_order, has_order_id, paid, WebhookEvent, WebhookEventType, payment_paid,
  payment_captured, payment_authorized, payment_failed, payment_abandoned, other_event,
}
use maghsul_backend.Store.Frame.{find_order_id, find_order-update_where}
use maghsul_backend.Payments.Reception.{WebhookBody, receive_moyasar_webhook}
use maghsul_backend.Payments.Webhook.{
  process_webhook_event, process_payment_failed, dispatch, Answer, has_webhook_id, is_processed,
  confirm_order,
}
use maghsul_backend.Payments.Webhook.Processing.{
  Paid, process_payment_paid_done, locate_order_at_id,
}
use maghsul_backend.Payments.Webhook.Receive.{process_webhook_event_thrown}
use maghsul_backend.System.{board, status_of, put, Step, stay, advance}
use maghsul_backend.System.Quiet.{Quiet, Quiet-orders, put_stay}

failed-orders :
    (e : WebhookEvent) (env : Env) (s : Store)
    → (final_state (process_payment_failed e env s)).orders ≡ s.orders
unfolding process_payment_failed
failed-orders e env s = ground arith

failed-Quiet :
    (e : WebhookEvent) (env : Env) (s : Store) (a : Answer) (s' : Store)
    → process_payment_failed e env s ≡ done a s'
    → Quiet s s'
failed-Quiet e env s a s' h = let k = failed-orders e env s in Quiet-orders s s' (rw h at k)

receive_orders :
    (expected : Option String) (body : WebhookBody) (env : Env) (s : Store)
    → (final_state (receive_moyasar_webhook expected body env s)).orders ≡ s.orders
unfolding receive_moyasar_webhook
receive_orders expected body env s = ground arith

-- An event that is answered has confirmed its payment, or it moved no order.
dispatch_done :
    (t : WebhookEventType) (e : WebhookEvent) (env : Env) (s : Store) (a : Answer) (s' : Store)
    → dispatch t e env s ≡ done a s'
    → Paid e env s s' ⊎ Quiet s s'
unfolding dispatch
dispatch_done payment_paid e env s a s' h = inl (process_payment_paid_done e env s a s' h).1
dispatch_done payment_captured e env s a s' h = inl (process_payment_paid_done e env s a s' h).1
dispatch_done payment_authorized e env s a s' h = inl (process_payment_paid_done e env s a s' h).1
dispatch_done payment_failed e env s a s' h = inr (failed-Quiet e env s a s' h)
dispatch_done payment_abandoned e env s a s' h = inr (failed-Quiet e env s a s' h)
dispatch_done other_event e env s a s' h = inr (Quiet-orders s s' (ground arith))

process_done :
    (i : ℕ) (env : Env) (s : Store) (a : Answer) (s' : Store)
    → process_webhook_event i env s ≡ done a s'
    → ((e : WebhookEvent) × Paid e env s s') ⊎ Quiet s s'
unfolding process_webhook_event
process_done i env s a s' h = elim (Option-cases (find (has_webhook_id i) s.webhooks)) [
  | inl missing ↦ absurd (ground arith)
  | inr (e, found) ↦ elim (Bool-cases (is_processed e.processing_status)) [
    | inl before ↦ inr (Quiet-orders s s' (ground arith))
    | inr fresh ↦ elim (dispatch_done e.event_type e env s a s' (ground arith)) [
      | inl p ↦ inl (e, p)
      | inr q ↦ inr q
    ]
  ]
]

module _ (order : Order) (s s' : Store) (found : find_order order.id s ≡ some order)
    (orders : s'.orders ≡ (confirm_order order s).orders) where
  abbrev confirm : Order → Order
  confirm o = record o { status = payment_confirmed; payment_status = paid }

  confirmed_row :
      (j : ℕ) (x : Option Order)
      → find_order j s ≡ x
      → status_of (map_option (on (is_unmoved order) confirm) x)
        ≡ (if j == order.id then some payment_confirmed else status_of x)
  confirmed_row j none e = elim (Bool-cases (j == order.id)) [
    | inl same ↦ let e' : find_order order.id s ≡ none = rw (← (==_iff j order.id).0 same) e in cc
    | inr differs ↦ rw differs refl
  ]
  confirmed_row j (some o) e = elim (Bool-cases (j == order.id)) [
    | inl same ↦
        let e' : find_order order.id s ≡ some o = rw (← (==_iff j order.id).0 same) e in
        let o-is : o ≡ order = cc in
        let self : is_unmoved order order ≡ true = ground arith in rw (same, o-is, self) refl
    | inr differs ↦
        let at_j = find_order_id j s o e in
        let missed : is_unmoved order o ≡ false = ground (arith, at_j) in rw (differs, missed) refl
  ]

  confirmed_board : (j : ℕ) → board s' j ≡ put order.id payment_confirmed (board s) j
  unfolding board
  confirmed_board j =
      ap (λ rows. status_of (find (has_order_id j) rows)) orders
      ∙ ap status_of (find_order-update_where (is_unmoved order) confirm (λ o. refl) j s.orders)
      ∙ confirmed_row j (find_order j s) refl

confirmed_Step :
    (order : Order) (s s' : Store)
    → find_order order.id s ≡ some order
    → s'.orders ≡ (confirm_order order s).orders
    → (order.status ≡ payment_confirmed) ⊎ Edge order.status payment_confirmed
    → Step (board s) (board s')
unfolding board
confirmed_Step order s s' found orders (inr e) =
    advance order.id order.status payment_confirmed e (ap status_of found)
      (confirmed_board order s s' found orders)
confirmed_Step order s s' found orders (inl e) =
    put_stay order.id payment_confirmed (board s) (board s')
      (confirmed_board order s s' found orders) (ap status_of found ∙ ap some e)

pub process-Step :
    (i : ℕ) (env : Env) (s : Store)
    → Step (board s) (board (final_state (process_webhook_event i env s)))
process-Step i env s = elim (Outcome-cases (process_webhook_event i env s)) [
  | inr (x, s1, w) ↦
      rw w (stay (Quiet-orders s s1 (process_webhook_event_thrown i env s x s1 w).0).same)
  | inl (a, s1, w) ↦ elim (process_done i env s a s1 w) [
    | inl (e, p) ↦ rw w (
        confirmed_Step p.order s s1 (locate_order_at_id e s p.order p.located) p.confirmed.orders
          p.checked.step)
    | inr q ↦ rw w (stay q.same)
  ]
]

pub receive-Step :
    (expected : Option String) (body : WebhookBody) (env : Env) (s : Store)
    → Step (board s) (board (final_state (receive_moyasar_webhook expected body env s)))
receive-Step expected body env s = stay (Quiet-orders s _ (receive_orders expected body env s)).same
