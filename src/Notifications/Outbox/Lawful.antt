-- ===== src/Notifications/Outbox/Lawful.antt =====
-- What one call of src/modules/notifications' outbox does to a row: the life of an event, the lease
-- and the exclusion of other workers.
use mathlib.Core.Path.{subst}
use maghsul_backend.Base.{
  ℕ, String, ◌≡◌, ◌≢◌, refl, sym, ◌∙◌, Bool, true, false, Option, none, some, List, inl, inr, arith,
  Bool-cases, on, opt_eq_iff,
}
use maghsul_backend.Notifications.Outbox.{
  EventStatus, pending, queued, processing, completed, partial, failed, skipped, OutboxRow,
  is_pending, is_queued, is_processing, is_none, is_eligible, Ending, complete, mark_partial, fail,
  skip, lease, is_held, is_owned, is_held_among, is_claimable, queue_row, fail_row, delay_row,
  work_row, renew_row, retry_row, end_row,
}

-- The changes of status of an event.
pub data Life : EventStatus → EventStatus → Type 0 where
  stays : {s : EventStatus} → Life s s
  is_handed_over : Life pending queued
  is_started : Life queued processing
  is_given_back : Life processing queued
  is_completed : Life processing completed
  is_partial : Life processing partial
  has_failed : Life processing failed
  is_skipped : Life processing skipped

abbrev pub is_final : EventStatus → Bool
is_final completed = true
is_final partial = true
is_final failed = true
is_final skipped = true
is_final _ = false

-- A claim is a holder, a time and an expiry together. Work needs a claim, and only a pending event
-- and one in work have one.
pub record Leased (r : OutboxRow) : Type 0 where
  pub since : is_none r.claimed_at ≡ is_none r.claimed_by
  pub until : is_none r.claim_expires_at ≡ is_none r.claimed_by
  pub in_work : is_processing r.status ≡ true → is_none r.claimed_by ≡ false
  pub at_rest :
      is_processing r.status ≡ false → is_pending r.status ≡ false → is_none r.claimed_by ≡ true

pub record Lawful (by : Option ℕ) (r r' : OutboxRow) : Type 0 where
  pub same_id : r'.event_id ≡ r.event_id
  pub life : Life r.status r'.status
  pub final : is_final r.status ≡ true → r' ≡ r
  pub exclusive : (w : ℕ) → r.status ≡ processing → r.claimed_by ≡ some w → by ≢ some w → r' ≡ r
  pub keeps_lease : Leased r → Leased r'

pub Lawful-refl : (by : Option ℕ) (r : OutboxRow) → Lawful by r r
Lawful-refl by r = record {
  same_id = refl;
  life = stays;
  final = λ h. refl;
  exclusive = λ w h k n. refl;
  keeps_lease = λ h. h;
}

-- A write of the rows that pass a test is lawful if it is for these rows.
pub Lawful-on :
    (by : Option ℕ) (p : OutboxRow → Bool) (f : OutboxRow → OutboxRow) (r : OutboxRow)
    → (p r ≡ true → Lawful by r (f r))
    → Lawful by r (on p f r)
Lawful-on by p f r k = elim (Bool-cases (p r)) [
  | inl t ↦ rw t (k t)
  | inr n ↦ rw n (Lawful-refl by r)
]

is_pending_iff : (s : EventStatus) → is_pending s ≡ true → s ≡ pending
is_pending_iff s h = ground arith

is_queued_iff : (s : EventStatus) → is_queued s ≡ true → s ≡ queued
is_queued_iff s h = ground arith

is_processing_iff : (s : EventStatus) → is_processing s ≡ true → s ≡ processing
is_processing_iff s h = ground arith

-- A write of a row in a known status.
module _ (by : Option ℕ) (r r' : OutboxRow) (same : r'.event_id ≡ r.event_id)
    (leased : Leased r → Leased r') where
  from_pending : is_pending r.status ≡ true → Life pending r'.status → Lawful by r r'
  from_pending h l =
      let e = is_pending_iff r.status h in
      record {
        same_id = same;
        life = subst (λ s. Life s r'.status) (sym e) l;
        final = λ f. absurd (ground arith);
        exclusive = λ w k c n. absurd (ground arith);
        keeps_lease = leased;
      }

  from_queued : is_queued r.status ≡ true → Life queued r'.status → Lawful by r r'
  from_queued h l =
      let e = is_queued_iff r.status h in
      record {
        same_id = same;
        life = subst (λ s. Life s r'.status) (sym e) l;
        final = λ f. absurd (ground arith);
        exclusive = λ w k c n. absurd (ground arith);
        keeps_lease = leased;
      }

  from_work :
      (v : ℕ)
      → by ≡ some v
      → is_processing r.status ≡ true
      → r.claimed_by ≡ some v
      → Life processing r'.status
      → Lawful by r r'
  from_work v own h c l =
      let e = is_processing_iff r.status h in
      record {
        same_id = same;
        life = subst (λ s. Life s r'.status) (sym e) l;
        final = λ f. absurd (ground arith);
        exclusive = λ w k d n. absurd (n (own ∙ sym c ∙ d));
        keeps_lease = leased;
      }

-- The writes of the dispatchers.
module _ (i dispatcher : ℕ) (r : OutboxRow) where
  pub queue-Lawful : (now : ℕ) → is_held i dispatcher r ≡ true → Lawful none r (queue_row now r)
  queue-Lawful now h =
      from_pending none r (queue_row now r) refl (λ l. ground arith) (ground arith) is_handed_over

  pub fail-Lawful :
      (code : String) (next attempts : ℕ)
      → is_held i dispatcher r ≡ true
      → Lawful none r (fail_row code next attempts r)
  fail-Lawful code next attempts h =
      from_pending none r (fail_row code next attempts r) refl (λ l. ground arith) (ground arith)
        (subst (λ s. Life pending s) (sym (is_pending_iff r.status (ground arith))) stays)

pub delay-Lawful :
    (ids : List ℕ) (dispatcher next : ℕ) (r : OutboxRow)
    → is_held_among ids dispatcher r ≡ true
    → Lawful none r (delay_row next r)
delay-Lawful ids dispatcher next r h =
    let e : is_pending r.status ≡ true = ground arith in
    from_pending none r (delay_row next r) refl (λ l. ground arith) e
      (subst (λ s. Life pending s) (sym (is_pending_iff r.status e)) stays)

pub claim-Lawful :
    (dispatcher now seconds : ℕ) (r : OutboxRow)
    → is_eligible now r ≡ true
    → Lawful none r (lease dispatcher now seconds r)
claim-Lawful dispatcher now seconds r h =
    let e : is_pending r.status ≡ true = ground arith in
    from_pending none r (lease dispatcher now seconds r) refl (λ l. ground arith) e
      (subst (λ s. Life pending s) (sym (is_pending_iff r.status e)) stays)

-- The writes of the workers.
pub start-Lawful :
    (i worker now : ℕ) (r : OutboxRow)
    → is_claimable i now r ≡ true
    → Lawful (some worker) r (work_row worker now r)
start-Lawful i worker now r h =
    from_queued (some worker) r (work_row worker now r) refl (λ l. ground arith) (ground arith)
      is_started

module _ (i worker : ℕ) (r : OutboxRow) (h : is_owned i worker r ≡ true) where
  at_work : is_processing r.status ≡ true
  at_work = ground arith

  own : r.claimed_by ≡ some worker
  own = (opt_eq_iff r.claimed_by (some worker)).0 (ground arith)

  pub renew-Lawful : (now : ℕ) → Lawful (some worker) r (renew_row now r)
  renew-Lawful now =
      from_work (some worker) r (renew_row now r) refl (λ l. ground (arith, own)) worker refl
        at_work own
        (subst (λ s. Life processing s) (sym (is_processing_iff r.status at_work)) stays)

  pub retry-Lawful : (reason : String) → Lawful (some worker) r (retry_row reason r)
  retry-Lawful reason =
      from_work (some worker) r (retry_row reason r) refl (λ l. ground arith) worker refl at_work
        own is_given_back

  pub end-Lawful : (ending : Ending) (now : ℕ) → Lawful (some worker) r (end_row ending now r)
  end-Lawful (complete reason) now =
      from_work (some worker) r (end_row (complete reason) now r) refl (λ l. ground arith) worker
        refl at_work own is_completed
  end-Lawful mark_partial now =
      from_work (some worker) r (end_row mark_partial now r) refl (λ l. ground arith) worker refl
        at_work own is_partial
  end-Lawful (fail reason code) now =
      from_work (some worker) r (end_row (fail reason code) now r) refl (λ l. ground arith) worker
        refl at_work own has_failed
  end-Lawful (skip reason) now =
      from_work (some worker) r (end_row (skip reason) now r) refl (λ l. ground arith) worker refl
        at_work own is_skipped
