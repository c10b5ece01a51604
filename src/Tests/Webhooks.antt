-- ===== src/Tests/Webhooks.antt =====
-- Runs of the webhook and of refunds, and their theorems at them.
use maghsul_backend.Base.{
  ℕ, arith, pos, ◌≡◌, ◌⊎◌, [], ◌∷◌, refl, find, true, false, none, some, String, Outcome, done,
  thrown, final_state, api_error,
}
use maghsul_backend.Orders.StateMachine.{
  payment_pending, payment_confirmed, cancelled, is_allowed_transition, allowed_transitions,
  assert_order_transition, customer_rule, driver_rule, is_driver_target, is_cancelable,
}
use maghsul_backend.Store.{Store, Env, Order, WebhookEvent, online, unpaid, paid, payment_paid}
use maghsul_backend.Store.Realtime.{safe_create_event, event_matches, key_eq}
use maghsul_backend.Payments.Webhook.{
  has_webhook_id, locate_order, paid_writes, confirm_payment, process_payment_paid, dispatch,
  process_webhook_event, Answer, processed, already_processed,
}
use maghsul_backend.Payments.Reception.{
  WebhookBody, verify_secret, Receipt, received_event, receive_moyasar_webhook, has_external,
}
use maghsul_backend.Payments.Webhook.Processing.{Paid, process_webhook_event_processed}
use maghsul_backend.Payments.Webhook.Receive.{NoTwins, receive_done}
use maghsul_backend.Payments.Refund.{fine, process_order_refund, cumulative}
use maghsul_backend.Payments.Refund.Bounds.{Covered, IsBounded, process_order_refund-IsBounded}
use maghsul_backend.Tests.Fixture.{
  order_one, tables, env_one, manager_one, paid_tables, payload_one, webhook_one,
}

abbrev to_pay : Order
to_pay = order_one payment_pending online unpaid none

abbrev confirmed_run : Outcome Store Answer
confirmed_run = process_webhook_event 8 env_one (tables to_pay)

confirmed_runs : confirmed_run ≡ done processed (final_state confirmed_run)
unfolding process_webhook_event dispatch process_payment_paid confirm_payment locate_order
    paid_writes safe_create_event key_eq event_matches assert_order_transition customer_rule
    driver_rule is_allowed_transition allowed_transitions is_driver_target is_cancelable
confirmed_runs = refl

process_webhook_event_processed_example :
    (e : WebhookEvent) × (find (has_webhook_id 8) (tables to_pay).webhooks ≡ some e)
    × Paid e env_one (tables to_pay) (final_state confirmed_run)
    × ((env' : Env)
        → process_webhook_event 8 env' (final_state confirmed_run)
          ≡ done already_processed (final_state confirmed_run))
process_webhook_event_processed_example =
    process_webhook_event_processed 8 env_one (tables to_pay) (final_state confirmed_run)
      confirmed_runs

-- An order that is cancelled is not confirmed.
abbrev late_run : Outcome Store Answer
late_run = process_webhook_event 8 env_one (tables (order_one cancelled online unpaid none))

late_runs : late_run ≡ thrown (api_error 400 "invalid_transition") (final_state late_run)
unfolding process_webhook_event dispatch process_payment_paid confirm_payment locate_order
    assert_order_transition is_allowed_transition allowed_transitions
late_runs = refl

abbrev body_one : WebhookBody
body_one = record {
  secret_token = some "s3cret";
  id = some 81;
  type = payment_paid;
  payload = payload_one;
}

abbrev receipt_one : Receipt
receipt_one = record { duplicate = false; id = 20 }

abbrev received_run : Outcome Store Receipt
received_run = receive_moyasar_webhook (some "s3cret") body_one env_one (tables to_pay)

received_runs : received_run ≡ done receipt_one (final_state received_run)
unfolding receive_moyasar_webhook verify_secret
received_runs = refl

receive_done_example :
    (x : ℕ) × (secret : String) × (body_one.id ≡ some x)
    × (body_one.secret_token ≡ some secret)
    × (some "s3cret" ≡ some secret)
    × (((receipt_one.duplicate ≡ false)
          × (find (has_external x) (tables to_pay).webhooks ≡ none)
          × (final_state received_run ≡ record (tables to_pay) {
            webhooks = webhook_one ∷ received_event 20 x body_one ∷ [];
          }))
        ⊎ ((old : WebhookEvent) × (receipt_one.duplicate ≡ true)
            × (find (has_external x) (tables to_pay).webhooks ≡ some old)
            × (receipt_one.id ≡ old.id)
            × (final_state received_run ≡ tables to_pay)))
    × (NoTwins (tables to_pay).webhooks → NoTwins (final_state received_run).webhooks)
receive_done_example =
    receive_done (some "s3cret") body_one env_one (tables to_pay) receipt_one
      (final_state received_run) received_runs

abbrev settled_tables : Store
settled_tables = paid_tables (order_one payment_confirmed online paid none)

settled_tables-Covered : Covered settled_tables
unfolding cumulative
settled_tables-Covered = (omega arith, tt)

process_order_refund-IsBounded_example :
    IsBounded (
      final_state (process_order_refund manager_one 1 (some (pos 400)) fine env_one settled_tables))
process_order_refund-IsBounded_example =
    process_order_refund-IsBounded manager_one 1 (some (pos 400)) fine env_one settled_tables refl
      (refl, tt) refl (settled_tables-Covered, tt)
