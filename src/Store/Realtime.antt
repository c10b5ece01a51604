-- ===== src/Store/Realtime.antt =====
-- src/modules/realtime/realtime-outbox.service.js: events are written once for each key.
use maghsul_backend.Base.{
  ℕ, Bool, false, ◌&&◌, Option, none, some, [], ◌∷◌, ◌++◌, ◌==◌, if◌then◌else◌, find, Outcome, done,
  thrown, api_error,
}
use maghsul_backend.Orders.StateMachine.{OrderStatus, status_eq}
use maghsul_backend.Store.{
  Store, Env, EventKey, order_created_key, driver_task_created_key, order_status_key,
  driver_task_updated_key, refund_key, payment_status_key, EventType, order_created,
  order_status_updated, driver_task_created, driver_task_updated, payment_status_updated,
  payment_refunded, AggregateType, order_aggregate, driver_task_aggregate, payment_aggregate,
  RealtimeEvent, PaymentStatus, unpaid, initiated, paid, failed, refunded,
}

abbrev pub payment_status_place : PaymentStatus → ℕ
payment_status_place unpaid = 0
payment_status_place initiated = 1
payment_status_place paid = 2
payment_status_place failed = 3
payment_status_place refunded = 4

unfoldable pub key_eq : EventKey → EventKey → Bool
key_eq (order_created_key a) (order_created_key b) = a == b
key_eq (driver_task_created_key a) (driver_task_created_key b) = a == b
key_eq (order_status_key a s m) (order_status_key b t n) = a == b && status_eq s t && m == n
key_eq (driver_task_updated_key a m) (driver_task_updated_key b n) = a == b && m == n
key_eq (refund_key a m) (refund_key b n) = a == b && m == n
key_eq (payment_status_key a s m) (payment_status_key b t n) =
    a == b && payment_status_place s == payment_status_place t && m == n
key_eq _ _ = false

abbrev type_place : EventType → ℕ
type_place order_created = 0
type_place order_status_updated = 1
type_place driver_task_created = 2
type_place driver_task_updated = 3
type_place payment_status_updated = 4
type_place payment_refunded = 5

abbrev aggregate_place : AggregateType → ℕ
aggregate_place order_aggregate = 0
aggregate_place driver_task_aggregate = 1
aggregate_place payment_aggregate = 2

-- The fields in which a duplicate must agree. Version and kind are the same in every call.
unfoldable pub event_matches : RealtimeEvent → RealtimeEvent → Bool
event_matches a b =
    type_place a.event_type == type_place b.event_type
    && aggregate_place a.aggregate_type == aggregate_place b.aggregate_type
    && a.aggregate_id == b.aggregate_id

abbrev pub find_event : EventKey → Store → Option RealtimeEvent
find_event k s = find (λ e. key_eq e.event_key k) s.realtime

abbrev pub add_event : RealtimeEvent → Store → Store
add_event e s = record s { realtime = s.realtime ++ e ∷ [] }

-- `safeCreateEvent`
unfoldable pub safe_create_event : RealtimeEvent → Store → Outcome Store (Unit {0})
safe_create_event e s = elim (find_event e.event_key s) [
  | none ↦ done tt (add_event e s)
  | some old ↦
      if event_matches old e
      then done tt s
      else thrown (api_error 500 "realtime_event_key_collision") s
]

abbrev pub status_updated : ℕ → OrderStatus → Env → RealtimeEvent
status_updated i t env = record {
  event_key = order_status_key i t env.now;
  event_type = order_status_updated;
  aggregate_type = order_aggregate;
  aggregate_id = i;
}

abbrev pub task_updated : ℕ → Env → RealtimeEvent
task_updated i env = record {
  event_key = driver_task_updated_key i env.now;
  event_type = driver_task_updated;
  aggregate_type = driver_task_aggregate;
  aggregate_id = i;
}

abbrev pub payment_updated : ℕ → PaymentStatus → Env → RealtimeEvent
payment_updated i p env = record {
  event_key = payment_status_key i p env.now;
  event_type = payment_status_updated;
  aggregate_type = payment_aggregate;
  aggregate_id = i;
}
