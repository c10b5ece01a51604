-- ===== src/Tests/Money.antt =====
-- Runs of the payment services, and their theorems at them.
use maghsul_backend.Base.{◌≡◌, refl, Option, none, some, Outcome, done, final_state}
use maghsul_backend.Orders.StateMachine.{payment_pending, delivered}
use maghsul_backend.Store.{Store, Order, online, cash_on_delivery, unpaid, find_order}
use maghsul_backend.Store.Realtime.{safe_create_event, event_matches, key_eq}
use maghsul_backend.Payments.Sync.{InSync}
use maghsul_backend.Payments.Service.{
  ProviderPayment, accepted, map_status, create_moyasar_payment, moyasar_writes, settle_writes,
  mark_order_paid_manually, switch_to_cod_by_customer, collect_cash_by_driver,
}
use maghsul_backend.Payments.Service.Keeps.{create, serve, serve-InSync}
use maghsul_backend.Tests.Fixture.{order_one, tables, env_one, driver_one, manager_one, customer_of}

abbrev in_cash : Order
in_cash = order_one delivered cash_on_delivery unpaid (some 7)

abbrev to_pay : Order
to_pay = order_one payment_pending online unpaid none

-- The driver collects the cash.
abbrev collected : Outcome Store (Option Order)
collected = collect_cash_by_driver driver_one 1 env_one (tables in_cash)

collected_runs : collected ≡ done (find_order 1 (final_state collected)) (final_state collected)
unfolding collect_cash_by_driver settle_writes safe_create_event key_eq event_matches
collected_runs = refl

-- The manager settles by hand.
abbrev settled : Outcome Store (Option Order)
settled = mark_order_paid_manually manager_one 1 (some "manual") env_one (tables in_cash)

settled_runs : settled ≡ done (find_order 1 (final_state settled)) (final_state settled)
unfolding mark_order_paid_manually settle_writes safe_create_event key_eq event_matches
settled_runs = refl

-- The provider accepts a payment.
abbrev answer_one : ProviderPayment
answer_one = record { id = 77; amount = 1000; status = "initiated"; source_type = none }

abbrev charged : Outcome Store (Unit {0})
charged =
    create_moyasar_payment (customer_of 3) 50 1 "creditcard" (accepted answer_one) env_one
      (tables to_pay)

charged_runs : charged ≡ done tt (final_state charged)
unfolding create_moyasar_payment moyasar_writes safe_create_event key_eq event_matches map_status
charged_runs = refl

-- The customer switches to cash.
abbrev switched : Outcome Store (Option Order)
switched = switch_to_cod_by_customer (customer_of 3) 50 1 (tables to_pay)

switched_runs : switched ≡ done (find_order 1 (final_state switched)) (final_state switched)
unfolding switch_to_cod_by_customer
switched_runs = refl

tables-InSync : InSync (tables to_pay)
tables-InSync = (λ o e. cc, tt)

serve-InSync_example :
    InSync (
      serve
        (create (customer_of 3) 50 1 "creditcard" (accepted answer_one))
        env_one
        (tables to_pay))
serve-InSync_example =
    serve-InSync (create (customer_of 3) 50 1 "creditcard" (accepted answer_one)) env_one
      (tables to_pay) tables-InSync
