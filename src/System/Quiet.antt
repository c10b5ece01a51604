-- ===== src/System/Quiet.antt =====
-- Writes that change no status of an order: settlements, switches to cash, refunds and notices.
use maghsul_backend.Base.{
  ℕ, ℤ, ◌≡◌, get, pure, refl, ap, ◌∙◌, ◌⊎◌, inl, inr, Bool, true, false, Option, none, some,
  update_where, on, find, ◌==◌, ==_iff, map_option, final_state, done, thrown, transaction, arith,
  IsPreorder, keeps_rules, Keeps, require, found_or, modify, modify-Keeps, get-Keeps, pure-Keeps,
  Outcome, ◌>>=◌, String, if◌then◌else◌, Outcome-cases, Bool-cases, Option-cases,
}
use maghsul_backend.Orders.StateMachine.{Actor, OrderStatus}
use maghsul_backend.Store.{
  Store, Env, Order, Payment, RealtimeEvent, find_order, has_order_id, refunded,
}
use maghsul_backend.Store.Frame.{safe_create_event-SameRows, find_order-update_where}
use maghsul_backend.Store.Realtime.{safe_create_event}
use maghsul_backend.Payments.Service.{send_notice, set_payment_status}
use maghsul_backend.Payments.Service.Laws.{send_notice-SameRows}
use maghsul_backend.Payments.Refund.{
  RefundAnswer, reserve, call_provider, complete, refund_payment, process_order_refund,
}
use maghsul_backend.System.{Board, board, status_of, put, Step, stay}

-- Every order has the status that it had.
pub record Quiet (s s' : Store) : Type 0 where
  pub same : (j : ℕ) → board s' j ≡ board s j

pub Quiet-orders : (s s' : Store) → s'.orders ≡ s.orders → Quiet s s'
unfolding board
Quiet-orders s s' e = record { same = λ j. ap (λ rows. status_of (find (has_order_id j) rows)) e }

-- An order that is put at the status that it has makes no step.
pub put_stay :
    (i : ℕ) (t : OrderStatus) (b c : Board)
    → ((j : ℕ) → c j ≡ put i t b j)
    → b i ≡ some t
    → Step b c
put_stay i t b c p e = stay (λ j. p j ∙ unchanged j)
  where
    unchanged : (j : ℕ) → put i t b j ≡ b j
    unchanged j = elim (Bool-cases (j == i)) [
      | inl same ↦ rw (same, (==_iff j i).0 same, e) refl
      | inr differs ↦ rw differs refl
    ]

status_of-on :
    (p : Order → Bool) (f : Order → Order)
    → ((o : Order) → (f o).status ≡ o.status)
    → (x : Option Order) → status_of (map_option (on p f) x) ≡ status_of x
status_of-on p f k none = refl
status_of-on p f k (some o) = ground (arith, k o)

pub Quiet-update_where :
    (p : Order → Bool) (f : Order → Order)
    → ((o : Order) → (f o).id ≡ o.id)
    → ((o : Order) → (f o).status ≡ o.status)
    → (s s' : Store) → s'.orders ≡ update_where p f s.orders
    → Quiet s s'
unfolding board
Quiet-update_where p f ids k s s' e = record {
  same = λ j.
      ap (λ rows. status_of (find (has_order_id j) rows)) e
      ∙ ap status_of (find_order-update_where p f ids j s.orders)
      ∙ status_of-on p f k (find_order j s);
}

pub Quiet-IsPreorder : IsPreorder Quiet
Quiet-IsPreorder = record {
  same = λ s. record { same = λ j. refl };
  after = λ a b c p q. record { same = λ j. q.same j ∙ p.same j };
}

pub send_notice-Quiet :
    (identity : Option ℕ) (i : ℕ) (type : String)
    → Keeps Quiet (modify (send_notice identity i type))
send_notice-Quiet identity i type =
    modify-Keeps (send_notice identity i type)
      (λ s. Quiet-orders s _ (send_notice-SameRows identity i type s).orders)

pub safe_create_event-Quiet : (e : RealtimeEvent) → Keeps Quiet (safe_create_event e)
safe_create_event-Quiet e = record {
  kept = λ s. Quiet-orders s _ (safe_create_event-SameRows e s).orders;
}

pub ruleset quiet_rules =
    (keeps_rules, Quiet-IsPreorder, send_notice-Quiet, safe_create_event-Quiet)

module _ (payment : Payment) (order : Order) (amount : ℤ) (x : RefundAnswer) (env : Env) where
  reserve-orders :
      (s : Store) → (final_state (reserve payment order amount env s)).orders ≡ s.orders
  unfolding reserve
  reserve-orders s = ground arith

  call_provider-orders :
      (i : ℕ) (s : Store) → (final_state (call_provider payment i x s)).orders ≡ s.orders
  unfolding call_provider
  call_provider-orders i s = ground arith

  complete-orders :
      (i : ℕ) (fully : Bool) (s : Store)
      → (final_state (complete payment order i fully env s)).orders
        ≡ (if fully then (set_payment_status order.id refunded s).orders else s.orders)
  unfolding complete safe_create_event
  complete-orders i true s = ground arith
  complete-orders i false s = ground arith

  complete-Quiet : (i : ℕ) (fully : Bool) → Keeps Quiet (complete payment order i fully env)
  complete-Quiet i true = record {
    kept = λ s.
        Quiet-update_where (has_order_id order.id) (λ o. record o { payment_status = refunded })
          (λ o. refl) (λ o. refl) s _ (complete-orders i true s);
  }
  complete-Quiet i false = record { kept = λ s. Quiet-orders s _ (complete-orders i false s) }

  reserve-Quiet : Keeps Quiet (reserve payment order amount env)
  reserve-Quiet = record { kept = λ s. Quiet-orders s _ (reserve-orders s) }

  call_provider-Quiet : (i : ℕ) → Keeps Quiet (call_provider payment i x)
  call_provider-Quiet i = record { kept = λ s. Quiet-orders s _ (call_provider-orders i s) }

  refund_payment-Quiet :
      (identity : Option ℕ) → Keeps Quiet (refund_payment payment order identity amount x env)
  unfolding refund_payment
  refund_payment-Quiet identity =
      search (quiet_rules, reserve-Quiet, call_provider-Quiet, complete-Quiet) depth 12

pub process_order_refund-Quiet :
    (user : Actor) (i : ℕ) (wanted : Option ℤ) (x : RefundAnswer) (env : Env)
    → Keeps Quiet (process_order_refund user i wanted x env)
unfolding process_order_refund
process_order_refund-Quiet user i wanted x env = search (quiet_rules, refund_payment-Quiet) depth 12
