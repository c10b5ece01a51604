-- ===== src/System/Life.antt =====
-- Each of these handlers against the table of statuses.
use mathlib.Core.Path.{subst}
use maghsul_backend.Base.{
  ℕ, ◌≡◌, refl, ap, ◌∙◌, ◌≢◌, ◌⊎◌, inl, inr, Option, some, List, [], ◌∷◌, String, ◌==◌, ==_iff,
  arith, Outcome-cases, Bool-cases, Option-cases, final_state,
}
use maghsul_backend.Orders.StateMachine.{
  OrderStatus, status_eq, is_allowed_transition, allowed_transitions, cancelled, Target, Actor,
}
use maghsul_backend.Orders.StateMachine.Matrix.{Edge, Walk, here, step, status_eq_iff}
use maghsul_backend.Orders.StateMachine.Access.{IsWithCustomer}
use maghsul_backend.Orders.WasherStatus.{update_washer_status}
use maghsul_backend.Orders.WasherStatus.Laws.{
  update_washer_status_done, update_washer_status_thrown,
}
use maghsul_backend.Orders.DriverStatus.{update_driver_status}
use maghsul_backend.Orders.DriverStatus.Laws.{update_driver_status_thrown}
use maghsul_backend.Orders.DriverStatus.Answer.{update_driver_status_done}
use maghsul_backend.Orders.Cancel.{customer_cancel}
use maghsul_backend.Orders.Cancel.Laws.{customer_cancel_thrown}
use maghsul_backend.Orders.Cancel.Answer.{customer_cancel_done}
use maghsul_backend.Orders.Moved.{Moved}
use maghsul_backend.Store.{Store, Env, Order, find_order}
use maghsul_backend.System.{
  Call, washer_status, driver_status, cancel, payment, webhook_received, webhook_processed, refund,
  answer, answer_all, board, status_of, put, Board, Step, stay, advance, Run, end, next,
}
use maghsul_backend.System.Quiet.{Quiet, put_stay, process_order_refund-Quiet}
use maghsul_backend.Store.Frame.{find_order_at_id}
use maghsul_backend.System.Webhooks.{process-Step, receive-Step}
use maghsul_backend.System.Payments.{serve-Quiet}

Quiet-Step : {s s' : Store} → Quiet s s' → Step (board s) (board s')
Quiet-Step q = stay q.same

same-Step : {s s' : Store} → s' ≡ s → Step (board s) (board s')
same-Step e = rw e (stay (λ j. refl))

module _ {order : Order} {t : OrderStatus} {driver : Option ℕ} {s s' : Store}
    (found : find_order order.id s ≡ some order) (m : Moved order t driver s s') where
  moved_board : (j : ℕ) → board s' j ≡ put order.id t (board s) j
  unfolding board
  moved_board j = elim (Bool-cases (j == order.id)) [
    | inl same ↦ rw (m.rows j, same) refl
    | inr differs ↦ rw (m.rows j, differs) refl
  ]

  board_start : board s order.id ≡ some order.status
  unfolding board
  board_start = ap status_of found

  pub Moved-Step : Edge order.status t → Step (board s) (board s')
  Moved-Step e = advance order.id order.status t e board_start moved_board

  pub Moved-stay : order.status ≡ t → Step (board s) (board s')
  Moved-stay e = put_stay order.id t (board s) (board s') moved_board (board_start ∙ ap some e)

washer_status-Step :
    (user : Actor) (i : ℕ) (to : Target) (remark : Option String) (env : Env) (s : Store)
    → Step (board s) (board (final_state (update_washer_status user i to remark env s)))
washer_status-Step user i to remark env s =
    elim (Outcome-cases (update_washer_status user i to remark env s)) [
      | inr (e, s1, w) ↦ rw w (same-Step (update_washer_status_thrown user i to remark env s w))
      | inl (out, s1, w) ↦ elim (update_washer_status_done user i to remark env s out s1 w) [
        | inl (order, a, b, c, kept) ↦ rw w (same-Step kept)
        | inr x ↦ rw w (Moved-Step (find_order_at_id i s x.order x.found) x.moved x.edge)
      ]
    ]

driver_status-Step :
    (user : Actor) (i : ℕ) (to : Target) (remark : Option String) (env : Env) (s : Store)
    → Step (board s) (board (final_state (update_driver_status user i to remark env s)))
driver_status-Step user i to remark env s =
    elim (Outcome-cases (update_driver_status user i to remark env s)) [
      | inr (e, s1, w) ↦ rw w (same-Step (update_driver_status_thrown user i to remark env s w))
      | inl (out, s1, w) ↦ elim (update_driver_status_done user i to remark env s out s1 w) [
        | inl (order, a, b, c, kept) ↦ rw w (same-Step kept)
        | inr x ↦ rw w (Moved-Step (find_order_at_id i s x.order x.found) x.moved x.edge)
      ]
    ]

cancel_edge : (s : OrderStatus) → s ≢ cancelled → IsWithCustomer s → Edge s cancelled
unfolding is_allowed_transition allowed_transitions
cancel_edge s n w = record { allowed = ground arith; changes = n }

cancel-Step :
    (actor : Actor) (identity : Option ℕ) (i : ℕ) (env : Env) (s : Store)
    → Step (board s) (board (final_state (customer_cancel actor identity i env s)))
cancel-Step actor identity i env s = elim (Outcome-cases (customer_cancel actor identity i env s)) [
  | inr (e, s1, w) ↦ rw w (same-Step (customer_cancel_thrown actor identity i env s w))
  | inl (out, s1, w) ↦
      let (order, found, c, live) = customer_cancel_done actor identity i env s out s1 w in
      let at_id = find_order_at_id i s order found in
      elim (Bool-cases (status_eq order.status cancelled)) [
        | inl gone ↦ rw w (Moved-stay at_id c.moved (status_eq_iff order.status cancelled gone))
        | inr other ↦
            let n : order.status ≢ cancelled = ground arith in
            rw w (Moved-Step at_id c.moved (cancel_edge order.status n (live n).1))
      ]
]

-- A call of one of these handlers refines the abstract machine: a change of status by the laundry or a
-- driver, a cancellation by the customer, a request to the payment service, the reception or the
-- processing of an event of the provider, or a refund. Whatever it answers, and whether it returns or
-- throws, no order comes or goes, at most one order changes its status, and that one by one change that
-- the table allows.
pub answer-Step : (c : Call) (env : Env) (s : Store) → Step (board s) (board (answer c env s))
unfolding answer
answer-Step (washer_status user i to remark) env s = washer_status-Step user i to remark env s
answer-Step (driver_status user i to remark) env s = driver_status-Step user i to remark env s
answer-Step (cancel actor identity i) env s = cancel-Step actor identity i env s
answer-Step (payment r) env s = Quiet-Step (serve-Quiet r env s)
answer-Step (webhook_received expected body) env s = receive-Step expected body env s
answer-Step (webhook_processed i) env s = process-Step i env s
answer-Step (refund user i wanted x) env s =
    Quiet-Step ((process_order_refund-Quiet user i wanted x env).kept s)

-- Calls one after another are steps of the abstract machine one after another.
pub answer_all-Run : (cs : List (Call × Env)) (s : Store) → Run (board s) (board (answer_all cs s))
unfolding answer_all
answer_all-Run [] s = end (λ j. refl)
answer_all-Run ((c, env) ∷ cs) s = next (answer-Step c env s) (answer_all-Run cs (answer c env s))

step_Walk :
    {b c : Board} (j : ℕ) (x : OrderStatus)
    → Step b c
    → b j ≡ some x
    → (y : OrderStatus) × (c j ≡ some y) × ((x ≡ y) ⊎ Edge x y)
step_Walk j x (stay k) e = (x, k j ∙ e, inl refl)
step_Walk {b} j x (advance i s t edge at k) e = elim (Bool-cases (j == i)) [
  | inl same ↦
      let at_i : b i ≡ some x = rw (← (==_iff j i).0 same) e in
      let x-is : x ≡ s = cc in (t, k j ∙ rw same refl, inr (rw x-is edge))
  | inr differs ↦ (x, k j ∙ rw differs e, inl refl)
]

Run-Walk :
    {b c : Board} (j : ℕ) (x : OrderStatus)
    → Run b c
    → b j ≡ some x
    → (y : OrderStatus) × (c j ≡ some y) × Walk x y
Run-Walk j x (end k) e = (x, k j ∙ e, here)
Run-Walk j x (next s r) e =
    let (y, at_y, moved) = step_Walk j x s e in
    let (z, at_z, w) = Run-Walk j y r at_y in
    (z, at_z, elim moved [ inl same ↦ rw same w | inr edge ↦ step edge w ])

board_at :
    (i : ℕ) (s : Store) (order : Order)
    → find_order i s ≡ some order
    → board s i ≡ some order.status
unfolding board
board_at i s order found = ap status_of found

board_order :
    (i : ℕ) (s : Store) (t : OrderStatus)
    → board s i ≡ some t
    → (order : Order) × (find_order i s ≡ some order) × (t ≡ order.status)
unfolding board
board_order i s t e = elim (Option-cases (find_order i s)) [
  | inl missing ↦ absurd (ground arith)
  | inr (order, found) ↦ (order, found, ground arith)
]

-- Behind any sequence of these calls an order is still in the tables, and its status has moved along
-- the table of statuses.
pub answer_all-Walk :
    (cs : List (Call × Env)) (s : Store) (i : ℕ) (order : Order)
    → find_order i s ≡ some order
    → (order' : Order) × (find_order i (answer_all cs s) ≡ some order')
      × Walk order.status order'.status
answer_all-Walk cs s i order found =
    let (t, at_t, w) = Run-Walk i order.status (answer_all-Run cs s) (board_at i s order found) in
    let (order', found', e) = board_order i (answer_all cs s) t at_t in
    (order', found', subst (Walk order.status) e w)
