-- ===== src/Auth/Permissions/Versions.antt =====
-- `resolvePermissions` and `incrementPermissionsVersion` of
-- src/modules/auth/services/permission.service.js: Redis against the tables.
use mathlib.Core.Path.{subst}
use maghsul_backend.Base.{
  ℕ, ◌+◌, ◌≡◌, ◌≢◌, refl, ap, sym, ◌∙◌, inl, inr, Option, none, some, List, [], ==_iff, find,
  find_sound, All, All-map, find-update_where, map_option, on, Outcome, done, thrown, arith,
  Bool-cases, Option-cases, ◌>>=◌,
}
use maghsul_backend.Auth.Permissions.{
  Washer, Key, Entry, Rights, Weather, key_of, find_washer, has_washer, query, resolve_washer,
  resolve_permissions, increment_permissions_version, unavailable,
}
use maghsul_backend.Auth.Permissions.Computed.{granted}
use maghsul_backend.Auth.Permissions.Cache.{
  IsCurrent, IsCoherent, granted_same, key_done, keep-IsCoherent, query_done,
}

-- What the tables give, without Redis.
abbrev pub reference : ℕ → ℕ → Option ℕ → Rights → List ℕ
reference washer member branch s = elim (find_washer washer s) [
  | none ↦ []
  | some x ↦ granted (key_of washer member branch x) s
]

unavailable_done :
    {A : Type 0} (o : Outcome Rights A) (x : A) (s' : Rights)
    → unavailable o ≡ done x s'
    → o ≡ done x s'
unavailable_done (done a s1) x s' h = h
unavailable_done (thrown e s1) x s' h = absurd (ground arith)

same_answer :
    (a b : List ℕ) (s s' : Rights)
    → ◌≡◌ {A = Outcome Rights (List ℕ)} (done a s) (done b s')
    → (b ≡ a) × (s' ≡ s)
same_answer a b s s' h = (cc, cc)

module _ (washer member : ℕ) (branch : Option ℕ) (w : Weather) (s : Rights) (codes : List ℕ)
    (s' : Rights) where
  answered :
      resolve_permissions washer member branch w s ≡ done codes s'
      → resolve_washer washer member branch (find_washer washer s) w s ≡ done codes s'
  unfolding resolve_permissions
  answered h =
      query_done 0 w (find_washer washer) (λ x. resolve_washer washer member branch x w) s codes s'
        (unavailable_done
          ((query 0 w (find_washer washer) >>= (λ x. resolve_washer washer member branch x w)) s)
          codes s' h)

  without_washer :
      IsCoherent s
      → find_washer washer s ≡ none
      → resolve_washer washer member branch none w s ≡ done codes s'
      → (codes ≡ reference washer member branch s) × IsCoherent s'
  unfolding resolve_washer
  without_washer coherent missing h =
      let (value, state) = same_answer [] codes s s' h in
      (rw (missing, reference) value, rw state coherent)

  with_washer :
      (x : Washer)
      → IsCoherent s
      → find_washer washer s ≡ some x
      → resolve_washer washer member branch (some x) w s ≡ done codes s'
      → (codes ≡ reference washer member branch s) × IsCoherent s'
  unfolding resolve_washer
  with_washer x coherent at h =
      let k = key_of washer member branch x in
      let (value, cases) = key_done k w s x codes s' coherent at refl h in
      (
        rw (at, reference) value,
        elim cases [
          | inl same ↦ rw same coherent
          | inr held ↦ rw held (keep-IsCoherent k codes w s x coherent at refl value)
        ],
      )

  -- While what Redis holds is coherent, the resolver answers what the tables give, whether Redis has
  -- the set, has it not or fails; and what Redis holds stays coherent.
  pub resolve_done :
      IsCoherent s
      → resolve_permissions washer member branch w s ≡ done codes s'
      → (codes ≡ reference washer member branch s) × IsCoherent s'
  resolve_done coherent h = elim (Option-cases (find_washer washer s)) [
    | inl missing ↦ let k = answered h in without_washer coherent missing (rw missing at k)
    | inr (x, at) ↦ let k = answered h in with_washer x coherent at (rw at at k)
  ]

-- A change of the rights of one laundry, with its version counted up in the same transaction.
module _ (i : ℕ) (s s' : Rights) (cache : s'.cache ≡ s.cache) (washers : s'.washers ≡ s.washers)
    (others : (k : Key) → k.washer_id ≢ i → granted k s' ≡ granted k s) where
  abbrev counted : Washer → Washer
  counted x = record x { permissions_version = x.permissions_version + 1 }

  find_counted :
      (j : ℕ)
      → find_washer j (increment_permissions_version i s')
        ≡ map_option (on (has_washer i) counted) (find_washer j s)
  find_counted j =
      find-update_where (has_washer j) (has_washer i) counted (λ x. ground arith) s'.washers
      ∙ ap (λ rows. map_option (on (has_washer i) counted) (find (has_washer j) rows)) washers

  unversioned : (k : Key) → granted k (increment_permissions_version i s') ≡ granted k s'
  unversioned k =
      granted_same k s' (increment_permissions_version i s')
        (record { members = refl; role_permissions = refl; accesses = refl; overrides = refl })

  entry_counted : (e : Entry) → IsCurrent s e → IsCurrent (increment_permissions_version i s') e
  entry_counted e (x, at, cases) = elim (Bool-cases (has_washer i x)) [
    | inl mine ↦ (
      counted x,
      find_counted e.key.washer_id ∙ rw (at, mine) refl,
      inl (elim cases [ inl late ↦ omega (arith, late) | inr (now, value) ↦ omega (arith, now) ]),
    )
    | inr other ↦ (
      x,
      find_counted e.key.washer_id ∙ rw (at, other) refl,
      elim cases [
        | inl late ↦ inl late
        | inr (now, value) ↦
            let id =
              (==_iff x.id e.key.washer_id).0
                (find_sound (has_washer e.key.washer_id) s.washers x at) in
            let n : e.key.washer_id ≢ i = ground arith in
            inr (now, value ∙ sym (others e.key n) ∙ sym (unversioned e.key))
      ],
    )
  ]

  -- Whatever a transaction changes of the rights in one laundry, counting up the version of the
  -- laundry in it keeps what Redis holds coherent: no set of before the change is answered again.
  pub increment-IsCoherent : IsCoherent s → IsCoherent (increment_permissions_version i s')
  increment-IsCoherent coherent =
      subst (All (IsCurrent (increment_permissions_version i s'))) (sym cache) (
        All-map (IsCurrent s) (IsCurrent (increment_permissions_version i s')) entry_counted s.cache
          coherent)
