-- ===== src/Notifications/Outbox.antt =====
-- The table of the notification outbox and its conditional updates:
-- src/modules/notifications/notification-outbox.repository.js (the dispatchers) and
-- notification-processing-lease.repository.js (the workers). Times are seconds; NOW() is an argument.
-- The identifier of an event is the primary key. Each statement is one atomic step of the database.
pub mod Rows
pub mod Actions
pub mod Lawful
pub mod Claims
pub mod Traces
use maghsul_backend.Base.{
  ℕ, zero, suc, ◌+◌, Bool, true, false, ◌&&◌, ◌||◌, Option, none, some, List, [], ◌∷◌, String, ◌==◌,
  ltb, leb, if◌then◌else◌, opt_eq, any, select, update_where, map, includes, Outcome, done, throw,
}

pub data EventStatus : Type 0 where
  pending queued processing completed partial failed skipped : EventStatus

pub record OutboxRow : Type 0 where
  pub event_id : ℕ
  pub event_type : String
  pub payload_version : ℕ
  pub status : EventStatus
  pub reason_code : Option String
  pub dispatch_attempt_count : ℕ
  pub next_attempt_at : Option ℕ
  pub claimed_at : Option ℕ
  pub claimed_by : Option ℕ
  pub claim_expires_at : Option ℕ
  pub queued_at : Option ℕ
  pub processed_at : Option ℕ
  pub last_error_code : Option String
  pub created_at : ℕ

abbrev pub Table : Type 0
Table = List OutboxRow

abbrev pub is_pending : EventStatus → Bool
is_pending pending = true
is_pending _ = false

abbrev pub is_queued : EventStatus → Bool
is_queued queued = true
is_queued _ = false

abbrev pub is_processing : EventStatus → Bool
is_processing processing = true
is_processing _ = false

abbrev pub is_none : Option ℕ → Bool
is_none none = true
is_none (some _) = false

-- `column < NOW()`, which NULL does not satisfy.
abbrev pub before : Option ℕ → ℕ → Bool
before none now = false
before (some t) now = ltb t now

-- `"nextAttemptAt" IS NULL OR "nextAttemptAt" <= NOW()`
abbrev pub is_due : Option ℕ → ℕ → Bool
is_due none now = true
is_due (some t) now = leb t now

abbrev pub is_eligible : ℕ → OutboxRow → Bool
is_eligible now r =
    is_pending r.status
    && is_due r.next_attempt_at now
    && (is_none r.claimed_at || before r.claim_expires_at now)

-- `ORDER BY "createdAt" ASC LIMIT batchSize`
unfoldable pub insert_row : OutboxRow → List OutboxRow → List OutboxRow
insert_row r [] = r ∷ []
insert_row r (x ∷ xs) =
    let rest = insert_row r xs in if leb r.created_at x.created_at then r ∷ x ∷ xs else x ∷ rest

unfoldable pub sort_rows : List OutboxRow → List OutboxRow
sort_rows [] = []
sort_rows (r ∷ rs) = insert_row r (sort_rows rs)

unfoldable pub take_rows : ℕ → List OutboxRow → List OutboxRow
take_rows zero rs = []
take_rows (suc n) [] = []
take_rows (suc n) (r ∷ rs) = r ∷ take_rows n rs

unfoldable pub claimed_ids : ℕ → ℕ → Table → List ℕ
claimed_ids batch now t =
    map (λ r. r.event_id) (take_rows batch (sort_rows (select (is_eligible now) t)))

abbrev pub is_claimed : List ℕ → OutboxRow → Bool
is_claimed ids r = includes ids r.event_id

abbrev pub lease : ℕ → ℕ → ℕ → OutboxRow → OutboxRow
lease holder now seconds r = record r {
  claimed_by = some holder;
  claimed_at = some now;
  claim_expires_at = some (now + seconds);
}

abbrev pub unlease : OutboxRow → OutboxRow
unlease r = record r { claimed_by = none; claimed_at = none; claim_expires_at = none }

-- `claimPendingEvents`
unfoldable pub claim_pending_events : ℕ → ℕ → ℕ → ℕ → Table → List OutboxRow × Table
claim_pending_events batch dispatcher seconds now t =
    let ids = claimed_ids batch now t in
    let t' = update_where (is_claimed ids) (lease dispatcher now seconds) t in
    (select (is_claimed ids) t', t')

-- The condition of a dispatcher's updates, and that of a worker's.
abbrev pub is_held : ℕ → ℕ → OutboxRow → Bool
is_held i dispatcher r =
    r.event_id == i && opt_eq r.claimed_by (some dispatcher) && is_pending r.status

abbrev pub is_owned : ℕ → ℕ → OutboxRow → Bool
is_owned i worker r = r.event_id == i && opt_eq r.claimed_by (some worker) && is_processing r.status

abbrev pub queue_row : ℕ → OutboxRow → OutboxRow
queue_row now r = record (unlease r) {
  status = queued;
  queued_at = some now;
  last_error_code = none;
}

-- `markAsQueued`
unfoldable pub mark_as_queued : ℕ → ℕ → ℕ → Table → Outcome Table (Unit {0})
mark_as_queued i dispatcher now t =
    if any (is_held i dispatcher) t
    then done tt (update_where (is_held i dispatcher) (queue_row now) t)
    else throw 500 "Lease collision or event not found" t

abbrev pub fail_row : String → ℕ → ℕ → OutboxRow → OutboxRow
fail_row code next attempts r = record (unlease r) {
  dispatch_attempt_count = attempts;
  next_attempt_at = some next;
  last_error_code = some code;
}

-- `recordDispatchFailure`
unfoldable pub record_dispatch_failure : ℕ → ℕ → String → ℕ → ℕ → Table → Outcome Table (Unit {0})
record_dispatch_failure i dispatcher code next attempts t =
    if any (is_held i dispatcher) t
    then done tt (update_where (is_held i dispatcher) (fail_row code next attempts) t)
    else throw 500 "Lease collision or event not found on failure record" t

abbrev pub is_held_among : List ℕ → ℕ → OutboxRow → Bool
is_held_among ids dispatcher r =
    includes ids r.event_id && opt_eq r.claimed_by (some dispatcher) && is_pending r.status

abbrev pub delay_row : ℕ → OutboxRow → OutboxRow
delay_row next r = record (unlease r) { next_attempt_at = some next }

-- `releaseClaims`
unfoldable pub release_claims : List ℕ → ℕ → ℕ → ℕ → Table → Table
release_claims ids dispatcher delay now t =
    update_where (is_held_among ids dispatcher) (delay_row (now + delay)) t

abbrev pub lease_duration : ℕ
lease_duration = 120

abbrev pub is_claimable : ℕ → ℕ → OutboxRow → Bool
is_claimable i now r =
    r.event_id == i
    && is_queued r.status
    && (is_none r.claim_expires_at || before r.claim_expires_at now)

abbrev pub work_row : ℕ → ℕ → OutboxRow → OutboxRow
work_row worker now r = record (lease worker now lease_duration r) { status = processing }

-- `claimQueuedEvent`
unfoldable pub claim_queued_event : ℕ → ℕ → ℕ → Table → Bool × Table
claim_queued_event i worker now t =
    (any (is_claimable i now) t, update_where (is_claimable i now) (work_row worker now) t)

abbrev pub renew_row : ℕ → OutboxRow → OutboxRow
renew_row now r = record r { claim_expires_at = some (now + lease_duration) }

-- `renewProcessingLease`
unfoldable pub renew_processing_lease : ℕ → ℕ → ℕ → Table → Bool × Table
renew_processing_lease i worker now t =
    (any (is_owned i worker) t, update_where (is_owned i worker) (renew_row now) t)

abbrev pub retry_row : String → OutboxRow → OutboxRow
retry_row reason r = record (unlease r) { status = queued; reason_code = some reason }

-- `releaseForRetry`
unfoldable pub release_for_retry : ℕ → ℕ → String → Table → Bool × Table
release_for_retry i worker reason t =
    (any (is_owned i worker) t, update_where (is_owned i worker) (retry_row reason) t)

-- How a worker ends its work on an event.
pub data Ending : Type 0 where
  complete : Option String → Ending
  mark_partial : Ending
  fail : Option String → Option String → Ending
  skip : String → Ending

abbrev pub end_row : Ending → ℕ → OutboxRow → OutboxRow
end_row (complete reason) now r = record (unlease r) {
  status = completed;
  reason_code = reason;
  processed_at = some now;
}
end_row mark_partial now r = record (unlease r) { status = partial; processed_at = some now }
end_row (fail reason code) now r = record (unlease r) {
  status = failed;
  reason_code = reason;
  last_error_code = code;
  processed_at = some now;
}
end_row (skip reason) now r = record (unlease r) {
  status = skipped;
  reason_code = some reason;
  processed_at = some now;
}

-- `completeEvent`, `markEventPartial`, `failEvent` and `skipEvent`
unfoldable pub end_event : Ending → ℕ → ℕ → ℕ → Table → Table
end_event ending i worker now t = update_where (is_owned i worker) (end_row ending now) t
