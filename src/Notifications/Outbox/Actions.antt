-- ===== src/Notifications/Outbox/Actions.antt =====
-- The calls of dispatchers and workers on the outbox (src/modules/notifications), and what any
-- interleaving of them does to the table.
use maghsul_backend.Base.{ℕ, List, [], ◌∷◌, Option, none, some, String, final_state}
use maghsul_backend.Notifications.Outbox.{
  Table, claim_pending_events, mark_as_queued, record_dispatch_failure, release_claims,
  claim_queued_event, renew_processing_lease, release_for_retry, Ending, end_event,
}

pub data Action : Type 0 where
  claim_batch : ℕ → ℕ → ℕ → Action
  enqueue : ℕ → ℕ → Action
  postpone : ℕ → ℕ → String → ℕ → ℕ → Action
  release : List ℕ → ℕ → ℕ → Action
  start : ℕ → ℕ → Action
  renew : ℕ → ℕ → Action
  retry : ℕ → ℕ → String → Action
  finish : Ending → ℕ → ℕ → Action

-- The worker that calls, if a worker does.
abbrev pub worker_of : Action → Option ℕ
worker_of (start i w) = some w
worker_of (renew i w) = some w
worker_of (retry i w reason) = some w
worker_of (finish ending i w) = some w
worker_of _ = none

-- The table behind a call at a time.
unfoldable pub perform : Action → ℕ → Table → Table
perform (claim_batch batch dispatcher seconds) now t =
    (claim_pending_events batch dispatcher seconds now t).1
perform (enqueue i dispatcher) now t = final_state (mark_as_queued i dispatcher now t)
perform (postpone i dispatcher code next attempts) now t =
    final_state (record_dispatch_failure i dispatcher code next attempts t)
perform (release ids dispatcher delay) now t = release_claims ids dispatcher delay now t
perform (start i worker) now t = (claim_queued_event i worker now t).1
perform (renew i worker) now t = (renew_processing_lease i worker now t).1
perform (retry i worker reason) now t = (release_for_retry i worker reason t).1
perform (finish ending i worker) now t = end_event ending i worker now t

-- Calls in any order, of any processes, each at its time.
unfoldable pub perform_all : List (ℕ × Action) → Table → Table
perform_all [] t = t
perform_all ((now, a) ∷ rest) t = perform_all rest (perform a now t)
