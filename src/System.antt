-- ===== src/System.antt =====
-- The handlers of src/modules/orders/order.service.js that change a status, and those of
-- src/modules/payments, side by side.
pub mod Quiet
pub mod Payments
pub mod Webhooks
pub mod Life
use maghsul_backend.Base.{
  ℕ, ℤ, ◌≡◌, Option, none, some, List, [], ◌∷◌, String, ◌==◌, if◌then◌else◌, final_state,
}
use maghsul_backend.Orders.StateMachine.{OrderStatus, Target, Actor}
use maghsul_backend.Orders.StateMachine.Matrix.{Edge}
use maghsul_backend.Orders.WasherStatus.{update_washer_status}
use maghsul_backend.Orders.DriverStatus.{update_driver_status}
use maghsul_backend.Orders.Cancel.{customer_cancel}
use maghsul_backend.Store.{Store, Env, Order, find_order}
use maghsul_backend.Payments.Service.Keeps.{Request, serve}
use maghsul_backend.Payments.Reception.{WebhookBody, receive_moyasar_webhook}
use maghsul_backend.Payments.Webhook.{process_webhook_event}
use maghsul_backend.Payments.Refund.{RefundAnswer, process_order_refund}

-- A call of a handler, with what it is given.
pub data Call : Type 0 where
  washer_status : Actor → ℕ → Target → Option String → Call
  driver_status : Actor → ℕ → Target → Option String → Call
  cancel : Actor → Option ℕ → ℕ → Call
  payment : Request → Call
  webhook_received : Option String → WebhookBody → Call
  webhook_processed : ℕ → Call
  refund : Actor → ℕ → Option ℤ → RefundAnswer → Call

-- The tables behind a call, whether it returns or throws.
unfoldable pub answer : Call → Env → Store → Store
answer (washer_status user i to remark) env s =
    final_state (update_washer_status user i to remark env s)
answer (driver_status user i to remark) env s =
    final_state (update_driver_status user i to remark env s)
answer (cancel actor identity i) env s = final_state (customer_cancel actor identity i env s)
answer (payment r) env s = serve r env s
answer (webhook_received expected body) env s =
    final_state (receive_moyasar_webhook expected body env s)
answer (webhook_processed i) env s = final_state (process_webhook_event i env s)
answer (refund user i wanted x) env s = final_state (process_order_refund user i wanted x env s)

-- Calls that come one after the other, each with its own time and identifiers.
unfoldable pub answer_all : List (Call × Env) → Store → Store
answer_all [] s = s
answer_all ((c, env) ∷ cs) s = answer_all cs (answer c env s)

-- The abstract view: which status each order has, and nothing else.
abbrev pub Board : Type 0
Board = ℕ → Option OrderStatus

abbrev pub status_of : Option Order → Option OrderStatus
status_of none = none
status_of (some o) = some o.status

unfoldable pub board : Store → Board
board s j = status_of (find_order j s)

abbrev pub put : ℕ → OrderStatus → Board → Board
put i t b j = if j == i then some t else b j

-- The abstract machine: nothing happens, or one order makes one change of status along the table.
pub data Step (b c : Board) : Type 0 where
  stay : ((j : ℕ) → c j ≡ b j) → Step b c
  advance :
      (i : ℕ) (s t : OrderStatus)
      → Edge s t
      → b i ≡ some s
      → ((j : ℕ) → c j ≡ put i t b j)
      → Step b c

pub data Run : Board → Board → Type 0 where
  end : {b c : Board} → ((j : ℕ) → c j ≡ b j) → Run b c
  next : {b c d : Board} → Step b c → Run c d → Run b d
