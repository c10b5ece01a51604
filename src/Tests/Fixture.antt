-- ===== src/Tests/Fixture.antt =====
-- The tables of one laundry: order 1 of customer 5 (identity 50), driver 7 (identity 70).
use maghsul_backend.Base.{ℕ, ◌+◌, Option, none, some, [], ◌∷◌}
use maghsul_backend.Orders.StateMachine.{
  OrderStatus, Actor, worker, driver, customer, washer_manager,
}
use maghsul_backend.Store.{
  Store, Env, Order, PaymentMethod, PaymentStatus, Invoice, Payment, moyasar, moyasar_id, paid,
  unpaid, Refund, DriverTask, pickup, open_task, CustomerMembership, StaffMembership, active,
  WebhookEvent, payment_paid, WebhookPayload,
}
use maghsul_backend.Store

abbrev pub order_one : OrderStatus → PaymentMethod → PaymentStatus → Option ℕ → Order
order_one at method pay chosen = record {
  id = 1;
  washer_id = 3;
  branch_id = 4;
  customer_membership_id = 5;
  driver_staff_membership_id = chosen;
  public_number = 12;
  subtotal = 900;
  delivery_fee = 100;
  discount = 0;
  total_price = 1000;
  payment_method = method;
  payment_status = pay;
  status = at;
}

abbrev pub payload_one : WebhookPayload
payload_one = record {
  payment_id = some 77;
  amount = some 1000;
  currency = some "SAR";
  metadata_order_id = some 1;
  source_type = none;
}

abbrev pub webhook_one : WebhookEvent
webhook_one = record {
  id = 8;
  external_event_id = 80;
  event_type = payment_paid;
  payment_external_id = some 77;
  processing_status = Store.WebhookStatus.pending;
  last_error_code = none;
  payload = payload_one;
}

abbrev pub tables : Order → Store
tables o = record {
  orders = o ∷ [];
  order_events = [];
  invoices =
      record {
        id = 2;
        order_id = 1;
        subtotal = 900;
        delivery_fee = 100;
        discount = 0;
        total = 1000;
        payment_status = o.payment_status;
      }
      ∷ [];
  payments = [];
  refunds = [];
  tasks =
      record {
        id = 6;
        order_id = 1;
        task_type = pickup;
        status = open_task;
        assigned_driver_id = none;
      }
      ∷ [];
  audit_logs = [];
  customers = record { id = 5; identity_id = 50; washer_id = 3; status = active } ∷ [];
  staff = record { id = 7; identity_id = 70; washer_id = 3; role = driver; status = active } ∷ [];
  realtime = [];
  webhooks = webhook_one ∷ [];
  notices = [];
}

abbrev pub env_one : Env
env_one = record { now = 1000; new_id = λ n. 20 + n }

abbrev pub env_two : Env
env_two = record { now = 2000; new_id = λ n. 30 + n }

abbrev pub worker_one : Actor
worker_one = record {
  washer_id = some 3;
  branch_id = none;
  role = some worker;
  staff_membership_id = some 9;
  user_id = some 90;
  id = none;
}

abbrev pub driver_one : Actor
driver_one = record {
  washer_id = some 3;
  branch_id = none;
  role = some driver;
  staff_membership_id = some 7;
  user_id = some 70;
  id = none;
}

abbrev pub manager_one : Actor
manager_one = record {
  washer_id = some 3;
  branch_id = none;
  role = some washer_manager;
  staff_membership_id = some 10;
  user_id = some 91;
  id = none;
}

abbrev pub customer_of : ℕ → Actor
customer_of w = record {
  washer_id = some w;
  branch_id = none;
  role = some customer;
  staff_membership_id = none;
  user_id = none;
  id = none;
}

-- The order is paid by a payment of its whole price.
abbrev pub paid_tables : Order → Store
paid_tables o = record (tables o) {
  payments =
      record {
        id = 11;
        order_id = 1;
        provider = moyasar;
        external_id = some (moyasar_id 77);
        amount = 1000;
        status = paid;
        method = some "creditcard";
      }
      ∷ [];
}
