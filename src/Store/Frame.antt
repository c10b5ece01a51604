-- ===== src/Store/Frame.antt =====
-- What the writes of the realtime outbox and of the notifications leave alone, and how a query
-- for an order reads a table of orders that was written.
use mathlib.Core.Path.{subst}
use maghsul_backend.Base.{
  ℕ, ◌≡◌, sym, Bool, some, List, String, ==_iff, find, find_sound, on, map_option,
  find-update_where, update_where, done, final_state, arith,
}
use maghsul_backend.Store.{Store, Order, RealtimeEvent, find_order, has_order_id}
use maghsul_backend.Store.Realtime.{safe_create_event}
use maghsul_backend.Store.Notices.{notify_customer, notify_driver, notify_washer}

-- Two states with the same tables of orders, payments, invoices, refunds, webhooks, tasks, members.
pub record SameRows (s s' : Store) : Type 0 where
  pub orders : s'.orders ≡ s.orders
  pub order_events : s'.order_events ≡ s.order_events
  pub invoices : s'.invoices ≡ s.invoices
  pub payments : s'.payments ≡ s.payments
  pub refunds : s'.refunds ≡ s.refunds
  pub tasks : s'.tasks ≡ s.tasks
  pub webhooks : s'.webhooks ≡ s.webhooks

pub SameRows-refl : (s : Store) → SameRows s s
SameRows-refl s = ground arith

pub safe_create_event-SameRows :
    (e : RealtimeEvent) (s : Store) → SameRows s (final_state (safe_create_event e s))
unfolding safe_create_event
safe_create_event-SameRows e s = ground arith

pub SameRows-trans : (a b c : Store) → SameRows a b → SameRows b c → SameRows a c
SameRows-trans a b c p q = ground arith

pub create-SameRows :
    (e : RealtimeEvent) (s s' : Store) → safe_create_event e s ≡ done tt s' → SameRows s s'
unfolding safe_create_event
create-SameRows e s s' h = ground arith

pub notify_customer-SameRows :
    (o : Order) (type : String) (s : Store) → SameRows s (notify_customer o type s)
unfolding notify_customer
notify_customer-SameRows o type s = ground arith

pub notify_driver-SameRows :
    (o : Order) (type : String) (s : Store) → SameRows s (notify_driver o type s)
unfolding notify_driver
notify_driver-SameRows o type s = ground arith

pub notify_washer-SameRows :
    (o : Order) (type : String) (s : Store) → SameRows s (notify_washer o type s)
unfolding notify_washer
notify_washer-SameRows o type s = ground arith

-- The order that a query for `i` finds has the identifier `i`.
pub find_order_id : (i : ℕ) (s : Store) (o : Order) → find_order i s ≡ some o → o.id ≡ i
find_order_id i s o h = (==_iff o.id i).0 (find_sound (has_order_id i) s.orders o h)

-- Behind a write of the rows that pass a test, which keeps the identifiers.
pub find_order-update_where :
    (p : Order → Bool) (f : Order → Order)
    → ((o : Order) → (f o).id ≡ o.id)
    → (j : ℕ) (rows : List Order)
    → find (has_order_id j) (update_where p f rows)
      ≡ map_option (on p f) (find (has_order_id j) rows)
find_order-update_where p f keeps j rows =
    find-update_where (has_order_id j) p f (λ o. ground (arith, keeps o)) rows

pub find_order_at_id :
    (i : ℕ) (s : Store) (o : Order) → find_order i s ≡ some o → find_order o.id s ≡ some o
find_order_at_id i s o h = subst (λ k. find_order k s ≡ some o) (sym (find_order_id i s o h)) h
