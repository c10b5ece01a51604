-- ===== src/Notifications/Outbox/Traces.antt =====
-- Any interleaving of the calls of dispatchers and workers on the outbox (src/modules/notifications).
use mathlib.Core.Path.{subst}
use maghsul_backend.Base.{
  ℕ, ◌+◌, ◌≡◌, ◌≢◌, refl, sym, ap, ◌∙◌, true, Bool, Option, none, some, List, [], ◌∷◌, inl, inr,
  All, any, update_where, Bool-cases, find,
}
use maghsul_backend.Notifications.Outbox.{
  processing, OutboxRow, Table, claim_pending_events, mark_as_queued, record_dispatch_failure,
  release_claims, claim_queued_event, renew_processing_lease, release_for_retry, end_event, lease,
  is_claimed, claimed_ids, is_held, is_owned, is_held_among, is_claimable, queue_row, fail_row,
  delay_row, work_row, renew_row, retry_row, end_row,
}
use maghsul_backend.Notifications.Outbox.Rows.{
  Rows, Rows-refl, Rows-trans, Rows-map, Rows-update_where,
}
use maghsul_backend.Notifications.Outbox.Actions.{
  Action, claim_batch, enqueue, postpone, release, start, renew, retry, finish, worker_of, perform,
  perform_all,
}
use maghsul_backend.Notifications.Outbox.Claims.{
  IsKeyed-of, AreDistinct, event_ids, has_event_id, is_claimed-eligible,
}
use maghsul_backend.Notifications.Outbox.Lawful.{
  is_final, Leased, Lawful, Lawful-refl, Lawful-on, queue-Lawful, fail-Lawful, delay-Lawful,
  claim-Lawful, start-Lawful, renew-Lawful, retry-Lawful, end-Lawful,
}

-- A table that is written in the rows that pass a test.
written :
    (by : Option ℕ) (p : OutboxRow → Bool) (f : OutboxRow → OutboxRow) (t : Table)
    → ((r : OutboxRow) → p r ≡ true → Lawful by r (f r))
    → Rows (Lawful by) t (update_where p f t)
written by p f t k =
    Rows-update_where (λ r. Unit {0}) (Lawful by) p f (λ r h. Lawful-on by p f r (k r)) t (every t)
  where
    every : (t : Table) → All (λ r. Unit {0}) t
    every [] = tt
    every (r ∷ t) = (tt, every t)

-- Every call is lawful in every row of the table, if identifiers are unique: an event changes its
-- status along its life, a finished event is never written, an event in work is written by nobody
-- but the worker that has claimed it, however old its lease is, and claims stay well formed.
pub perform-Lawful :
    (a : Action) (now : ℕ) (t : Table)
    → AreDistinct (event_ids t)
    → Rows (Lawful (worker_of a)) t (perform a now t)
unfolding perform claim_pending_events mark_as_queued record_dispatch_failure release_claims
    claim_queued_event renew_processing_lease release_for_retry end_event
perform-Lawful (claim_batch batch d seconds) now t k =
    let keyed = IsKeyed-of t k in
    Rows-update_where (λ r. find (has_event_id r.event_id) t ≡ some r) (Lawful none)
      (is_claimed (claimed_ids batch now t)) (lease d now seconds)
      (λ r found.
        Lawful-on none (is_claimed (claimed_ids batch now t)) (lease d now seconds) r
          (λ h. claim-Lawful d now seconds r (is_claimed-eligible batch now t r keyed found h)))
      t keyed
perform-Lawful (enqueue i d) now t k = elim (Bool-cases (any (is_held i d) t)) [
  | inl held ↦
      rw held (written none (is_held i d) (queue_row now) t (λ r h. queue-Lawful i d r now h))
  | inr lost ↦ rw lost (Rows-refl (Lawful none) (Lawful-refl none) t)
]
perform-Lawful (postpone i d code next attempts) now t k = elim (Bool-cases (any (is_held i d) t)) [
  | inl held ↦ rw held (
      written none (is_held i d) (fail_row code next attempts) t
        (λ r h. fail-Lawful i d r code next attempts h))
  | inr lost ↦ rw lost (Rows-refl (Lawful none) (Lawful-refl none) t)
]
perform-Lawful (release ids d delay) now t k =
    written none (is_held_among ids d) (delay_row (now + delay)) t (λ r h. delay-Lawful ids d _ r h)
perform-Lawful (start i w) now t k =
    written (some w) (is_claimable i now) (work_row w now) t (λ r h. start-Lawful i w now r h)
perform-Lawful (renew i w) now t k =
    written (some w) (is_owned i w) (renew_row now) t (λ r h. renew-Lawful i w r h now)
perform-Lawful (retry i w reason) now t k =
    written (some w) (is_owned i w) (retry_row reason) t (λ r h. retry-Lawful i w r h reason)
perform-Lawful (finish ending i w) now t k =
    written (some w) (is_owned i w) (end_row ending now) t (λ r h. end-Lawful i w r h ending now)

same_ids : (by : Option ℕ) (t t' : Table) → Rows (Lawful by) t t' → event_ids t' ≡ event_ids t
same_ids by [] [] h = refl
same_ids by [] (y ∷ ys) h = absurd h
same_ids by (x ∷ xs) [] h = absurd h
same_ids by (x ∷ xs) (y ∷ ys) (a, h) = let e = same_ids by xs ys h in let i = a.same_id in cc

-- What every lawful call of a trace does and what composes, the trace does.
module _ (R : OutboxRow → OutboxRow → Type 0) (Q : ℕ × Action → Type 0)
    (R-refl : (r : OutboxRow) → R r r) (R-trans : (x y z : OutboxRow) → R x y → R y z → R x z)
    (R-Lawful : (c : ℕ × Action)
      → Q c
      → (r r' : OutboxRow) → Lawful (worker_of c.1) r r'
      → R r r') where
  perform_all-Rows :
      (trace : List (ℕ × Action)) (t : Table)
      → All Q trace
      → AreDistinct (event_ids t)
      → Rows R t (perform_all trace t)
  unfolding perform_all
  perform_all-Rows [] t q k = Rows-refl R R-refl t
  perform_all-Rows ((now, a) ∷ rest) t (q, qs) k =
      let lawful = perform-Lawful a now t k in
      let k' : AreDistinct (event_ids (perform a now t)) =
        subst AreDistinct (sym (same_ids (worker_of a) t (perform a now t) lawful)) k in
      Rows-trans R R-trans t (perform a now t) (perform_all rest (perform a now t))
        (Rows-map (Lawful (worker_of a)) R (R-Lawful (now, a) q) t (perform a now t) lawful)
        (perform_all-Rows rest (perform a now t) qs k')

anything : (trace : List (ℕ × Action)) → All (λ c. Unit {0}) trace
anything [] = tt
anything (c ∷ rest) = (tt, anything rest)

Rows-All :
    (P : OutboxRow → Type 0) (t t' : Table) → Rows (λ r r'. P r → P r') t t' → All P t → All P t'
Rows-All P [] [] h k = tt
Rows-All P [] (y ∷ ys) h k = absurd h
Rows-All P (x ∷ xs) [] h k = absurd h
Rows-All P (x ∷ xs) (y ∷ ys) (a, h) (p, k) = (a p, Rows-All P xs ys h k)

-- Whatever dispatchers and workers call, in any order and at any times, an event that is completed,
-- partial, failed or skipped stays as it is, every column of it.
pub perform_all-final :
    (trace : List (ℕ × Action)) (t : Table)
    → AreDistinct (event_ids t)
    → Rows (λ r r'. is_final r.status ≡ true → r' ≡ r) t (perform_all trace t)
perform_all-final trace t k =
    perform_all-Rows (λ r r'. is_final r.status ≡ true → r' ≡ r) (λ c. Unit {0}) (λ r h. refl)
      (λ x y z f g h. g (subst (λ r. is_final r.status ≡ true) (sym (f h)) h) ∙ f h)
      (λ c q r r' l. l.final) trace t (anything trace) k

-- While a worker has an event in work, no calls of the dispatchers and of the other workers change
-- the event, in any order and at any times, even when its lease has expired: two workers never work
-- on one event, and an event whose worker is gone stays in work for ever.
pub perform_all-exclusive :
    (w : ℕ) (trace : List (ℕ × Action)) (t : Table)
    → All (λ c. worker_of c.1 ≢ some w) trace
    → AreDistinct (event_ids t)
    → Rows (λ r r'. r.status ≡ processing → r.claimed_by ≡ some w → r' ≡ r) t (perform_all trace t)
perform_all-exclusive w trace t others k =
    perform_all-Rows (λ r r'. r.status ≡ processing → r.claimed_by ≡ some w → r' ≡ r)
      (λ c. worker_of c.1 ≢ some w) (λ r h g. refl)
      (λ x y z f g h c.
        let same = f h c in
        g (ap (λ r. r.status) same ∙ h) (ap (λ r. r.claimed_by) same ∙ c) ∙ same)
      (λ c q r r' l h g. l.exclusive w h g q) trace t others k

-- Claims stay well formed under any calls: an event in work is claimed, one that is neither pending
-- nor in work is not, and the holder, the time and the expiry of a claim stand or are missing together.
pub perform_all-Leased :
    (trace : List (ℕ × Action)) (t : Table)
    → AreDistinct (event_ids t)
    → All Leased t
    → All Leased (perform_all trace t)
perform_all-Leased trace t k h =
    Rows-All Leased t (perform_all trace t)
      (perform_all-Rows (λ r r'. Leased r → Leased r') (λ c. Unit {0}) (λ r l. l)
        (λ x y z f g l. g (f l)) (λ c q r r' l. l.keeps_lease) trace t (anything trace) k)
      h
