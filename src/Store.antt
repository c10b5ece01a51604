-- ===== src/Store.antt =====
-- The tables that the order and payment services share (prisma/schema.prisma), each as the list of
-- its rows, and the effects that leave the database. An identifier is a text that the code only
-- compares: here a number, with 0 for the text "system". Columns that these services neither test
-- nor compute with are left out.
pub mod Realtime
pub mod Notices
pub mod Frame
use maghsul_backend.Base.{
  ℕ, ℤ, Bool, true, false, Option, none, some, List, [], ◌∷◌, ◌++◌, String, ◌==◌, ◌&&◌,
  if◌then◌else◌, find, update_where, Outcome, done,
}
use maghsul_backend.Orders.StateMachine.{OrderStatus, OrderView, Role}

pub data PaymentMethod : Type 0 where
  cash_on_delivery online : PaymentMethod

pub data PaymentStatus : Type 0 where
  unpaid initiated paid failed refunded : PaymentStatus

pub record Order : Type 0 where
  pub id : ℕ
  pub washer_id : ℕ
  pub branch_id : ℕ
  pub customer_membership_id : ℕ
  pub driver_staff_membership_id : Option ℕ
  pub public_number : ℕ
  pub subtotal : ℕ
  pub delivery_fee : ℕ
  pub discount : ℕ
  pub total_price : ℕ
  pub payment_method : PaymentMethod
  pub payment_status : PaymentStatus
  pub status : OrderStatus

abbrev pub view : Order → OrderView
view o = record {
  status = o.status;
  washer_id = o.washer_id;
  branch_id = o.branch_id;
  driver_staff_membership_id = o.driver_staff_membership_id;
}

pub record OrderEvent : Type 0 where
  pub order_id : ℕ
  pub from : Option OrderStatus
  pub to : OrderStatus
  pub by_user_id : Option ℕ
  pub note : Option String

pub record Invoice : Type 0 where
  pub id : ℕ
  pub order_id : ℕ
  pub subtotal : ℕ
  pub delivery_fee : ℕ
  pub discount : ℕ
  pub total : ℕ
  pub payment_status : PaymentStatus

-- The texts that stand in `externalId`: the provider's, or one made of the order and the time.
pub data ExternalId : Type 0 where
  moyasar_id : ℕ → ExternalId
  manual_id cod_id : ℕ → ℕ → ExternalId

pub data Provider : Type 0 where
  moyasar manual cod : Provider

pub record Payment : Type 0 where
  pub id : ℕ
  pub order_id : ℕ
  pub provider : Provider
  pub external_id : Option ExternalId
  pub amount : ℕ
  pub status : PaymentStatus
  pub method : Option String

pub data RefundStatus : Type 0 where
  pending completed failed : RefundStatus

pub record Refund : Type 0 where
  pub id : ℕ
  pub payment_id : ℕ
  pub order_id : ℕ
  pub amount : ℤ
  pub status : RefundStatus

pub data TaskType : Type 0 where
  pickup delivery : TaskType

pub data TaskStatus : Type 0 where
  open_task assigned in_progress completed cancelled : TaskStatus

pub record DriverTask : Type 0 where
  pub id : ℕ
  pub order_id : ℕ
  pub task_type : TaskType
  pub status : TaskStatus
  pub assigned_driver_id : Option ℕ

pub data EntityType : Type 0 where
  payment_entity refund_entity otp_entity : EntityType

pub record AuditLog : Type 0 where
  pub entity_type : EntityType
  pub entity_id : ℕ
  pub action : String

pub data MembershipStatus : Type 0 where
  active suspended blocked pending_deletion deleted : MembershipStatus

abbrev pub is_active : MembershipStatus → Bool
is_active active = true
is_active _ = false

pub record CustomerMembership : Type 0 where
  pub id : ℕ
  pub identity_id : ℕ
  pub washer_id : ℕ
  pub status : MembershipStatus

pub record StaffMembership : Type 0 where
  pub id : ℕ
  pub identity_id : ℕ
  pub washer_id : ℕ
  pub role : Role
  pub status : MembershipStatus

-- The `eventKey` texts: each is made of a word and of what stands behind the constructor.
pub data EventKey : Type 0 where
  order_created_key driver_task_created_key : ℕ → EventKey
  order_status_key : ℕ → OrderStatus → ℕ → EventKey
  driver_task_updated_key refund_key : ℕ → ℕ → EventKey
  payment_status_key : ℕ → PaymentStatus → ℕ → EventKey

pub data EventType : Type 0 where
  order_created order_status_updated driver_task_created driver_task_updated : EventType
  payment_status_updated payment_refunded : EventType

pub data AggregateType : Type 0 where
  order_aggregate driver_task_aggregate payment_aggregate : AggregateType

pub record RealtimeEvent : Type 0 where
  pub event_key : EventKey
  pub event_type : EventType
  pub aggregate_type : AggregateType
  pub aggregate_id : ℕ

pub data WebhookStatus : Type 0 where
  pending processed failed ignored : WebhookStatus

pub data WebhookEventType : Type 0 where
  payment_paid payment_captured payment_authorized payment_failed : WebhookEventType
  payment_abandoned other_event : WebhookEventType

-- `payload.data` of a webhook: what the processor reads of it.
pub record WebhookPayload : Type 0 where
  pub payment_id : Option ℕ
  pub amount : Option ℕ
  pub currency : Option String
  pub metadata_order_id : Option ℕ
  pub source_type : Option String

pub record WebhookEvent : Type 0 where
  pub id : ℕ
  pub external_event_id : ℕ
  pub event_type : WebhookEventType
  pub payment_external_id : Option ℕ
  pub processing_status : WebhookStatus
  pub last_error_code : Option String
  pub payload : WebhookPayload

-- A job that is handed to the notification queue.
pub record Notice : Type 0 where
  pub user_id : ℕ
  pub order_id : ℕ
  pub role : Role
  pub type : String

pub record Store : Type 0 where
  pub orders : List Order
  pub order_events : List OrderEvent
  pub invoices : List Invoice
  pub payments : List Payment
  pub refunds : List Refund
  pub tasks : List DriverTask
  pub audit_logs : List AuditLog
  pub customers : List CustomerMembership
  pub staff : List StaffMembership
  pub realtime : List RealtimeEvent
  pub webhooks : List WebhookEvent
  pub notices : List Notice

-- What the surroundings give to one call: the time, and the identifier of the n-th row that the
-- database creates in it.
pub record Env : Type 0 where
  pub now : ℕ
  pub new_id : ℕ → ℕ

abbrev pub has_order_id : ℕ → Order → Bool
has_order_id i o = o.id == i

abbrev pub find_order : ℕ → Store → Option Order
find_order i s = find (has_order_id i) s.orders

abbrev pub set_order : ℕ → (Order → Order) → Store → Store
set_order i f s = record s { orders = update_where (has_order_id i) f s.orders }

abbrev pub add_order_event : OrderEvent → Store → Store
add_order_event e s = record s { order_events = s.order_events ++ e ∷ [] }

abbrev pub add_payment : Payment → Store → Store
add_payment p s = record s { payments = s.payments ++ p ∷ [] }

abbrev pub add_audit : AuditLog → Store → Store
add_audit a s = record s { audit_logs = s.audit_logs ++ a ∷ [] }

abbrev pub set_invoices : ℕ → PaymentStatus → Store → Store
set_invoices i p s = record s {
  invoices = update_where (λ v. v.order_id == i) (λ v. record v { payment_status = p }) s.invoices;
}

-- The membership of an identity with a washer.
abbrev pub find_customer : ℕ → Option ℕ → Store → Option CustomerMembership
find_customer identity none s = none
find_customer identity (some w) s =
    find (λ m. m.identity_id == identity && m.washer_id == w) s.customers

-- `membership && order.customerMembershipId === membership.id`
abbrev pub is_own : Option CustomerMembership → Order → Bool
is_own none order = false
is_own (some m) order = order.customer_membership_id == m.id
