-- ===== src/Tests/Outbox.antt =====
-- Runs of the notification outbox, and its theorems at them.
use maghsul_backend.Base.{ℕ, ◌≡◌, refl, some, none, Option, map, [], ◌∷◌, List, All, arith}
use maghsul_backend.Notifications.Outbox.{
  EventStatus, pending, processing, completed, OutboxRow, Table, complete, claim_pending_events,
  claimed_ids, sort_rows, insert_row, take_rows, mark_as_queued, claim_queued_event,
  renew_processing_lease, end_event,
}
use maghsul_backend.Notifications.Outbox.Rows.{Rows}
use maghsul_backend.Notifications.Outbox.Actions.{
  Action, claim_batch, enqueue, start, renew, finish, worker_of, perform, perform_all,
}
use maghsul_backend.Notifications.Outbox.Claims.{AreDistinct, event_ids}
use maghsul_backend.Notifications.Outbox.Lawful.{Leased, Lawful}
use maghsul_backend.Notifications.Outbox.Traces.{
  perform-Lawful, perform_all-exclusive, perform_all-Leased,
}

abbrev row_one : ℕ → EventStatus → Option ℕ → OutboxRow
row_one i at holder = record {
  event_id = i;
  event_type = "staff_invitation.created";
  payload_version = 1;
  status = at;
  reason_code = none;
  dispatch_attempt_count = 0;
  next_attempt_at = none;
  claimed_at = holder;
  claimed_by = holder;
  claim_expires_at = holder;
  queued_at = none;
  processed_at = none;
  last_error_code = none;
  created_at = i;
}

abbrev outbox : Table
outbox = row_one 1 pending none ∷ row_one 2 processing (some 5) ∷ row_one 3 completed none ∷ []

-- One event is dispatched and worked on by worker 6, at times after the lease of worker 5.
abbrev trace_one : List (ℕ × Action)
trace_one =
    (1000, claim_batch 10 9 60)
    ∷ (1001, enqueue 1 9)
    ∷ (1002, start 1 6)
    ∷ (1003, start 2 6)
    ∷ (1004, renew 2 6)
    ∷ (1005, finish (complete none) 1 6)
    ∷ []

distinct : AreDistinct (event_ids outbox)
distinct = ((λ e. cc, (λ e. cc, tt)), ((λ e. cc, tt), (tt, tt)))

perform-Lawful_example :
    Rows
      (Lawful (worker_of (claim_batch 10 9 60)))
      outbox
      (perform (claim_batch 10 9 60) 1000 outbox)
perform-Lawful_example = perform-Lawful (claim_batch 10 9 60) 1000 outbox distinct

perform_all-exclusive_example :
    Rows
      (λ r r'. r.status ≡ processing → r.claimed_by ≡ some 5 → r' ≡ r)
      outbox
      (perform_all trace_one outbox)
perform_all-exclusive_example =
    perform_all-exclusive 5 trace_one outbox
      (λ e. cc, (λ e. cc, (λ e. cc, (λ e. cc, (λ e. cc, (λ e. cc, tt)))))) distinct

outbox-Leased : All Leased outbox
outbox-Leased = (ground arith, (ground arith, (ground arith, tt)))

trace_one-Leased : All Leased (perform_all trace_one outbox)
trace_one-Leased = perform_all-Leased trace_one outbox distinct outbox-Leased

-- In the end event 1 is completed, and event 2 is still worked on by worker 5.
trace_one_ends :
    map (λ r. r.status) (perform_all trace_one outbox) ≡ completed ∷ processing ∷ completed ∷ []
unfolding perform_all perform claim_pending_events claimed_ids sort_rows insert_row take_rows
    mark_as_queued claim_queued_event renew_processing_lease end_event
trace_one_ends = refl
