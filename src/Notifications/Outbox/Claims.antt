-- ===== src/Notifications/Outbox/Claims.antt =====
-- The batch that a dispatcher claims (src/modules/notifications/notification-outbox.repository.js).
use mathlib.Core.Path.{subst}
use maghsul_backend.Base.{
  ℕ, zero, suc, ◌≡◌, refl, ap, sym, ◌∙◌, Bool, true, false, ◌||◌, ◌∷◌, [], List, none, some, inl,
  inr, arith, Bool-cases, Option-cases, All, any, select, map, includes, find, ◌==◌, ==_iff,
  ==_refl, ◌≢◌,
}
use maghsul_backend.Notifications.Outbox.{
  OutboxRow, Table, insert_row, sort_rows, take_rows, claimed_ids, is_claimed, is_eligible,
  claim_pending_events, lease, before,
}
use maghsul_backend.Notifications.Outbox.Rows.{Rows, Rows-update_where}

-- The primary key: the query by identifier finds each row.
abbrev pub has_event_id : ℕ → OutboxRow → Bool
has_event_id i r = r.event_id == i

abbrev pub event_ids : Table → List ℕ
event_ids t = map (λ r. r.event_id) t

abbrev pub AreDistinct : List ℕ → Type 0
AreDistinct [] = Unit
AreDistinct (k ∷ ks) = All (λ j. j ≢ k) ks × AreDistinct ks

abbrev pub IsKeyed : Table → Type 0
IsKeyed t = All (λ r. find (has_event_id r.event_id) t ≡ some r) t

skip_head :
    (r : OutboxRow) (whole t : Table)
    → All (λ j. j ≢ r.event_id) (event_ids t)
    → All (λ x. find (has_event_id x.event_id) whole ≡ some x) t
    → All (λ x. find (has_event_id x.event_id) (r ∷ whole) ≡ some x) t
skip_head r whole [] h k = tt
skip_head r whole (x ∷ t) (n, h) (e, k) = elim (Bool-cases (r.event_id == x.event_id)) [
  | inl same ↦ absurd (n (sym ((==_iff r.event_id x.event_id).0 same)))
  | inr other ↦ (rw other e, skip_head r whole t h k)
]

pub IsKeyed-of : (t : Table) → AreDistinct (event_ids t) → IsKeyed t
IsKeyed-of [] h = tt
IsKeyed-of (r ∷ t) (n, h) = (rw (==_refl r.event_id) refl, skip_head r t t n (IsKeyed-of t h))

module _ (q : OutboxRow → Bool) where
  any-insert_row :
      (r : OutboxRow) (rs : List OutboxRow) → any q (insert_row r rs) ≡ (q r || any q rs)
  unfolding insert_row
  any-insert_row r [] = refl
  any-insert_row r (x ∷ xs) = ground (arith, any-insert_row r xs)

  any-sort_rows : (rs : List OutboxRow) → any q (sort_rows rs) ≡ any q rs
  unfolding sort_rows
  any-sort_rows [] = refl
  any-sort_rows (r ∷ rs) = rw (any-insert_row r (sort_rows rs), any-sort_rows rs) refl

  any-take_rows : (n : ℕ) (rs : List OutboxRow) → any q (take_rows n rs) ≡ true → any q rs ≡ true
  unfolding take_rows
  any-take_rows zero rs h = absurd (ground arith)
  any-take_rows (suc n) [] h = h
  any-take_rows (suc n) (r ∷ rs) h = ground (arith, any-take_rows n rs)

  any-select :
      (P : OutboxRow → Type 0) (p : OutboxRow → Bool) (rs : List OutboxRow)
      → All P rs
      → any q (select p rs) ≡ true
      → (r : OutboxRow) × P r × (p r ≡ true) × (q r ≡ true)
  any-select P p [] h e = absurd (ground arith)
  any-select P p (r ∷ rs) (k, h) e = elim (Bool-cases (p r)) [
    | inr n ↦ any-select P p rs h (rw n at e)
    | inl t ↦ elim (Bool-cases (q r)) [
      | inl u ↦ (r, k, t, u)
      | inr v ↦ any-select P p rs h (rw (t, v) at e)
    ]
  ]

includes-map :
    (k : ℕ) (rs : List OutboxRow) → includes (map (λ r. r.event_id) rs) k ≡ any (has_event_id k) rs
includes-map k [] = refl
includes-map k (r ∷ rs) = ap (λ b. (r.event_id == k) || b) (includes-map k rs)

-- A row that is claimed was eligible.
pub is_claimed-eligible :
    (batch now : ℕ) (t : Table) (r : OutboxRow)
    → IsKeyed t
    → find (has_event_id r.event_id) t ≡ some r
    → is_claimed (claimed_ids batch now t) r ≡ true
    → is_eligible now r ≡ true
unfolding claimed_ids
is_claimed-eligible batch now t r keyed found h =
    let (x, key, eligible, same) =
      any-select (has_event_id r.event_id) (λ x. find (has_event_id x.event_id) t ≡ some x)
        (is_eligible now) t keyed
        (sym (any-sort_rows (has_event_id r.event_id) (select (is_eligible now) t))
          ∙ any-take_rows (has_event_id r.event_id) batch (sort_rows (select (is_eligible now) t)) (
              sym
                (includes-map r.event_id (take_rows batch (sort_rows (select (is_eligible now) t))))
              ∙ h)) in
    let key' : find (has_event_id r.event_id) t ≡ some x =
      subst (λ k. find (has_event_id k) t ≡ some x) ((==_iff x.event_id r.event_id).0 same) key in
    let row : some x ≡ some r = sym key' ∙ found in
    let row' : x ≡ r = cc in subst (λ y. is_eligible now y ≡ true) row' eligible

-- A dispatcher claims no event whose claim has not run out, whoever holds it.
pub claim_pending_events-respects :
    (batch dispatcher seconds now : ℕ) (t : Table)
    → AreDistinct (event_ids t)
    → Rows
        (λ r r'. r.claimed_at ≢ none → before r.claim_expires_at now ≡ false → r' ≡ r)
        t
        (claim_pending_events batch dispatcher seconds now t).1
unfolding claim_pending_events
claim_pending_events-respects batch dispatcher seconds now t k =
    let keyed = IsKeyed-of t k in
    Rows-update_where (λ r. find (has_event_id r.event_id) t ≡ some r)
      (λ r r'. r.claimed_at ≢ none → before r.claim_expires_at now ≡ false → r' ≡ r)
      (is_claimed (claimed_ids batch now t)) (lease dispatcher now seconds)
      (λ r found held fresh. elim (Bool-cases (is_claimed (claimed_ids batch now t) r)) [
        | inr n ↦ rw n refl
        | inl h ↦ absurd (unclaimed r (is_claimed-eligible batch now t r keyed found h) held fresh)
      ])
      t keyed
  where
    unclaimed :
        (r : OutboxRow)
        → is_eligible now r ≡ true
        → r.claimed_at ≢ none
        → before r.claim_expires_at now ≡ false
        → ⊥
    unclaimed r e held fresh = elim (Option-cases r.claimed_at) [
      | inl free ↦ held free
      | inr (at, taken) ↦ ground arith
    ]
