-- ===== src/Payments/Webhook/Receive.antt =====
-- Receiving a webhook (src/modules/payments/webhook.service.js), and what an error of the later
-- processing leaves.
use text.Mathlib.TextEquality.{eq_iff}
use maghsul_backend.Base.{
  ℕ, ◌≡◌, refl, sym, ◌∙◌, ◌≢◌, ◌⊎◌, inl, inr, true, false, Option, none, some, List, [], ◌∷◌, ◌++◌,
  String, find, done, thrown, All, All-append, true≢false, arith, Bool-cases, Option-cases,
  ApiError, ==_refl_of,
}
use maghsul_backend.Store.{
  Store, Env, WebhookEvent, WebhookEventType, payment_paid, payment_captured, payment_authorized,
  payment_failed, payment_abandoned, other_event, Order,
}
use maghsul_backend.Payments.Webhook.{
  process_webhook_event, process_payment_paid, process_payment_failed, may_upsert, dispatch,
  confirm_payment, has_webhook_id, is_processed, locate_order,
}
use maghsul_backend.Payments.Reception.{
  WebhookBody, Receipt, verify_secret, has_external, received_event, receive_moyasar_webhook,
}

-- A body is accepted only with the secret of the environment, which is not empty.
verify_secret_sound :
    (received expected : Option String)
    → verify_secret received expected ≡ true
    → (x : String) × (received ≡ some x) × (expected ≡ some x) × (x ≢ "")
unfolding verify_secret
verify_secret_sound none expected h = absurd (ground arith)
verify_secret_sound (some x) none h = absurd (ground arith)
verify_secret_sound (some x) (some y) h =
    (x, refl, ground (arith, eq_iff x y), λ e. ground (arith, eq_iff x ""))

-- No two events have the same external identifier.
abbrev pub NoTwins : List WebhookEvent → Type 0
NoTwins [] = Unit
NoTwins (e ∷ es) = All (λ f. f.external_event_id ≢ e.external_event_id) es × NoTwins es

NoTwins-append :
    (es : List WebhookEvent) (e : WebhookEvent)
    → NoTwins es
    → find (has_external e.external_event_id) es ≡ none
    → NoTwins (es ++ e ∷ [])
NoTwins-append [] e h n = (tt, tt)
NoTwins-append (f ∷ es) e (k, h) n = elim (Bool-cases (has_external e.external_event_id f)) [
  | inl same ↦ absurd (ground arith)
  | inr differs ↦ (
    All-append _ es (e ∷ []) k (λ q. true≢false (sym (==_refl_of (sym q)) ∙ differs), tt),
    NoTwins-append es e h (rw differs at n),
  )
]

-- What an accepted body leaves. The secret of the environment was shown; the first event of its
-- external identifier is kept as pending, behind the others, and a further one changes nothing and is
-- answered with the identifier of the first; so no two events ever have one external identifier.
pub receive_done :
    (expected : Option String) (body : WebhookBody) (env : Env) (s : Store) (r : Receipt)
    (s' : Store)
    → receive_moyasar_webhook expected body env s ≡ done r s'
    → (x : ℕ) × (secret : String) × (body.id ≡ some x)
      × (body.secret_token ≡ some secret)
      × (expected ≡ some secret)
      × (((r.duplicate ≡ false)
            × (find (has_external x) s.webhooks ≡ none)
            × (s'
                ≡ record s { webhooks = s.webhooks ++ received_event (env.new_id 0) x body ∷ [] }))
          ⊎ ((old : WebhookEvent) × (r.duplicate ≡ true)
              × (find (has_external x) s.webhooks ≡ some old)
              × (r.id ≡ old.id)
              × (s' ≡ s)))
      × (NoTwins s.webhooks → NoTwins s'.webhooks)
unfolding receive_moyasar_webhook
receive_done expected body env s r s' h = elim (Option-cases body.id) [
  | inl missing ↦ elim (Bool-cases (verify_secret body.secret_token expected)) [
    | inl shown ↦ absurd (ground arith)
    | inr hidden ↦ absurd (ground arith)
  ]
  | inr (x, named) ↦ elim (Bool-cases (verify_secret body.secret_token expected)) [
    | inr hidden ↦ absurd (ground arith)
    | inl shown ↦
        let (secret, received, known, nonempty) =
          verify_secret_sound body.secret_token expected shown in
        elim (Option-cases (find (has_external x) s.webhooks)) [
          | inl fresh ↦
              let last : s' ≡ record s {
                webhooks = s.webhooks ++ received_event (env.new_id 0) x body ∷ [];
              } =
                ground arith in
              (
                x,
                secret,
                named,
                received,
                known,
                inl (ground arith, fresh, last),
                λ n.
                    rw last
                      (NoTwins-append s.webhooks (received_event (env.new_id 0) x body) n fresh),
              )
          | inr (old, found) ↦
              let last : s' ≡ s = ground arith in
              (
                x,
                secret,
                named,
                received,
                known,
                inr (old, ground arith, found, ground arith, last),
                λ n. rw last n,
              )
        ]
  ]
]

-- What money and orders stand on is as before.
abbrev pub SameMoney : Store → Store → Type 0
SameMoney s s' =
    (s'.orders ≡ s.orders)
    × (s'.order_events ≡ s.order_events)
    × (s'.payments ≡ s.payments)
    × (s'.invoices ≡ s.invoices)
    × (s'.refunds ≡ s.refunds)
    × (s'.realtime ≡ s.realtime)

confirm_payment_thrown :
    (e : WebhookEvent) (order : Order) (pid : ℕ) (env : Env) (s : Store) (x : ApiError) (s' : Store)
    → confirm_payment e order pid env s ≡ thrown x s'
    → SameMoney s s'
unfolding confirm_payment
confirm_payment_thrown e order pid env s x s' h = ground arith

process_payment_paid_thrown :
    (e : WebhookEvent) (env : Env) (s : Store) (x : ApiError) (s' : Store)
    → process_payment_paid e env s ≡ thrown x s'
    → SameMoney s s'
unfolding process_payment_paid
process_payment_paid_thrown e env s x s' h = elim (Option-cases e.payload.payment_id) [
  | inl missing ↦ ground arith
  | inr (pid, names) ↦ elim (Option-cases (locate_order e s)) [
    | inl nowhere ↦ ground arith
    | inr (order, located) ↦ confirm_payment_thrown e order pid env s x s' (ground arith)
  ]
]

process_payment_failed_thrown :
    (e : WebhookEvent) (env : Env) (s : Store) (x : ApiError) (s' : Store)
    → process_payment_failed e env s ≡ thrown x s'
    → s' ≡ s
unfolding process_payment_failed
process_payment_failed_thrown e env s x s' h = elim (Option-cases e.payload.payment_id) [
  | inl unnamed ↦ absurd (ground arith)
  | inr (pid, names) ↦ elim (Option-cases e.payload.metadata_order_id) [
    | inl nowhere ↦ absurd (ground arith)
    | inr (i, at) ↦ elim (Bool-cases (may_upsert i pid s)) [
      | inl may ↦ let h' = rw (names, at, may) at h in absurd (ground arith)
      | inr refused ↦ let h' = rw (names, at, refused) at h in ground arith
    ]
  ]
]

dispatch_thrown :
    (t : WebhookEventType) (e : WebhookEvent) (env : Env) (s : Store) (x : ApiError) (s' : Store)
    → dispatch t e env s ≡ thrown x s'
    → SameMoney s s'
unfolding dispatch
dispatch_thrown payment_paid e env s x s' h = process_payment_paid_thrown e env s x s' h
dispatch_thrown payment_captured e env s x s' h = process_payment_paid_thrown e env s x s' h
dispatch_thrown payment_authorized e env s x s' h = process_payment_paid_thrown e env s x s' h
dispatch_thrown payment_failed e env s x s' h =
    rw (process_payment_failed_thrown e env s x s' h) (refl, refl, refl, refl, refl, refl)
dispatch_thrown payment_abandoned e env s x s' h =
    rw (process_payment_failed_thrown e env s x s' h) (refl, refl, refl, refl, refl, refl)
dispatch_thrown other_event e env s x s' h = absurd (ground arith)

-- An error of the processing moves no order and no money: the orders, their events, the payments, the
-- invoices, the refunds and the realtime outbox are as before. Only the webhook's mark and the audit log may change.
pub process_webhook_event_thrown :
    (i : ℕ) (env : Env) (s : Store) (x : ApiError) (s' : Store)
    → process_webhook_event i env s ≡ thrown x s'
    → SameMoney s s'
unfolding process_webhook_event
process_webhook_event_thrown i env s x s' h =
    elim (Option-cases (find (has_webhook_id i) s.webhooks)) [
      | inl missing ↦ ground arith
      | inr (e, found) ↦ elim (Bool-cases (is_processed e.processing_status)) [
        | inl before ↦ absurd (ground arith)
        | inr fresh ↦ dispatch_thrown e.event_type e env s x s' (ground arith)
      ]
    ]
