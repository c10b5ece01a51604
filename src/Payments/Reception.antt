-- ===== src/Payments/Reception.antt =====
-- src/modules/payments/webhook.service.js: the reception of an event of the provider.
use text.Mathlib.Text.{◌==◌ as str_eq}
use maghsul_backend.Base.{
  ℕ, Bool, true, false, not, ◌&&◌, Option, none, some, [], ◌∷◌, ◌++◌, String, ◌==◌, find, Outcome,
  found_or, ◌>>=◌, ◌>>◌, require, get, modify, pure,
}
use maghsul_backend.Store.{
  Store, Env, Order, view, Invoice, PaymentStatus, paid, Payment, moyasar, ExternalId, moyasar_id,
  manual_id, cod_id, find_order, add_payment, add_order_event, add_audit, payment_entity,
  WebhookStatus, WebhookEventType, payment_paid, payment_captured, payment_authorized,
  payment_failed, payment_abandoned, other_event, WebhookPayload, WebhookEvent,
}
use maghsul_backend.Store

-- The body of a request to the webhook. An `id` that is no text is `none`.
pub record WebhookBody : Type 0 where
  pub secret_token : Option String
  pub id : Option ℕ
  pub type : WebhookEventType
  pub payload : WebhookPayload

-- `verifyMoyasarWebhookSecret`: the comparison of the bytes is one of the texts.
unfoldable pub verify_secret : Option String → Option String → Bool
verify_secret none expected = false
verify_secret (some received) none = false
verify_secret (some received) (some expected) =
    not (str_eq received "") && not (str_eq expected "") && str_eq received expected

pub record Receipt : Type 0 where
  pub duplicate : Bool
  pub id : ℕ

abbrev pub has_external : ℕ → WebhookEvent → Bool
has_external x e = e.external_event_id == x

abbrev pub received_event : ℕ → ℕ → WebhookBody → WebhookEvent
received_event id external body = record {
  id = id;
  external_event_id = external;
  event_type = body.type;
  payment_external_id = body.payload.payment_id;
  processing_status = Store.WebhookStatus.pending;
  last_error_code = none;
  payload = body.payload;
}

-- `receiveMoyasarWebhook`: the unique index on the provider's event makes a second event a
-- duplicate. `expected` is the secret of the environment.
unfoldable pub receive_moyasar_webhook :
    Option String → WebhookBody → Env → Store → Outcome Store Receipt
unfolding verify_secret
receive_moyasar_webhook expected body env = do
  require (verify_secret body.secret_token expected) 401 "unauthorized"
  external ← found_or body.id 400 "invalid_payload"
  s ← get
  (elim (find (has_external external) s.webhooks) [
    | some old ↦ pure (record { duplicate = true; id = old.id })
    | none ↦ do
      modify (λ s. record s {
        webhooks = s.webhooks ++ received_event (env.new_id 0) external body ∷ [];
      })
      pure (record { duplicate = false; id = env.new_id 0 })
  ])
