-- ===== src/Auth/Permissions/Cache.antt =====
-- The sets that Redis keeps for src/modules/auth/services/permission.service.js, by version.
use maghsul_backend.Base.{
  ℕ, ◌+◌, ◌*◌, ◌<◌, ◌≡◌, refl, ap, sym, ◌∙◌, ◌⊎◌, inl, inr, Bool, true, not, ◌&&◌, Option, none,
  some, List, [], ◌∷◌, ◌==◌, ltb, find, find-All, find_sound, select, All, All-map, opt_eq_iff,
  Outcome, ◌>>=◌, >>=-eq_done, done, arith, Bool-cases, Option-cases,
}
use maghsul_backend.Store.{is_active}
use maghsul_backend.Auth.Guard.{StaffMember, BranchAccess, gives_access, has_staff_id}
use maghsul_backend.Auth.Permissions.{
  Washer, Key, Entry, Rights, Weather, query, key_eq, cached, keep, kept, find_washer, find_member,
  restrict, apply_branch, resolve_member, resolve_key, add_codes, deny_codes, is_of_role,
  is_override_of,
}
use maghsul_backend.Auth.Permissions.Computed.{granted, member_codes, restricted, access_codes}

-- An entry is out of date for good, or it holds what the tables give.
abbrev pub IsCurrent : Rights → Entry → Type 0
IsCurrent s e =
    (w : Washer) × (find_washer e.key.washer_id s ≡ some w)
    × ((e.key.version < w.permissions_version)
        ⊎ ((e.key.version ≡ w.permissions_version) × (e.codes ≡ granted e.key s)))

abbrev pub IsCoherent : Rights → Type 0
IsCoherent s = All (IsCurrent s) s.cache

key_eq_sound : (a b : Key) → key_eq a b ≡ true → a ≡ b
key_eq_sound a b h =
    let same = (opt_eq_iff a.branch_id b.branch_id).0 (ground arith) in ground arith

-- What Redis answers for the version of the laundry is what the tables give.
cached-granted :
    (k : Key) (w : Weather) (s : Rights) (x : Washer) (codes : List ℕ)
    → IsCoherent s
    → find_washer k.washer_id s ≡ some x
    → k.version ≡ x.permissions_version
    → cached k w s ≡ some codes
    → codes ≡ granted k s
cached-granted k w s x codes coherent at now h =
    elim (Option-cases (find (λ e. key_eq e.key k && ltb w.now e.expires_at) s.cache)) [
      | inl missing ↦ absurd (ground arith)
      | inr (e, found) ↦
          let (y, aty, cases) =
            find-All (IsCurrent s) (λ e. key_eq e.key k && ltb w.now e.expires_at) s.cache e
              coherent found in
          let passes = find_sound (λ e. key_eq e.key k && ltb w.now e.expires_at) s.cache e found in
          let same : e.key ≡ k = key_eq_sound e.key k (ground arith) in
          let value : codes ≡ e.codes = ground arith in
          let aty' : find_washer k.washer_id s ≡ some y = rw same at aty in
          let one : y ≡ x = cc in
          let version : e.key.version ≡ k.version = ap (λ a. a.version) same in
          elim cases [
            | inl late ↦
                absurd (omega (arith, late, version, now, ap (λ a. a.permissions_version) one))
            | inr (current, holds) ↦ value ∙ holds ∙ ap (λ a. granted a s) same
          ]
    ]

-- The part behind Redis: the set that the tables give, which is kept or not.
abbrev pub Resolved : Key → Weather → Rights → List ℕ → List ℕ → Rights → Type 0
Resolved k w s want codes s' = (codes ≡ want) × ((s' ≡ s) ⊎ (s' ≡ keep k codes w s))

query_gives :
    {A : Type 0} (n : ℕ) (w : Weather) (q : Rights → A) (s : Rights) (a : A) (s1 : Rights)
    → query n w q s ≡ done a s1
    → (a ≡ q s) × (s1 ≡ s)
query_gives n w q s a s1 h = ground arith

pub query_done :
    {A B : Type 0} (n : ℕ) (w : Weather) (q : Rights → A) (f : A → Rights → Outcome Rights B)
    (s : Rights) (b : B) (s' : Rights)
    → (query n w q >>= f) s ≡ done b s'
    → f (q s) s ≡ done b s'
query_done n w q f s b s' h =
    let (a, s1, first, rest) = >>=-eq_done (query n w q) f s b s' h in
    let (value, same) = query_gives n w q s a s1 first in rw (value, same) at rest

restrict_done :
    (k : Key) (m : StaffMember) (x : Option BranchAccess) (codes : List ℕ) (w : Weather)
    (s : Rights) (out : List ℕ) (s' : Rights)
    → restrict k m x codes w s ≡ done out s'
    → Resolved k w s (access_codes m x codes s) out s'
unfolding restrict
restrict_done k m none codes w s out s' h = elim (Bool-cases m.has_full_washer_access) [
  | inl full ↦ ground arith
  | inr part ↦ ground arith
]
restrict_done k m (some access) codes w s out s' h =
    let h' =
      query_done 4 w (λ s. select (is_override_of access.id) s.overrides)
        (λ overrides. kept k (deny_codes overrides codes) w) s out s' h in
    ground arith

restricted_at :
    (k : Key) (m : StaffMember) (b : ℕ) (codes : List ℕ) (s : Rights)
    → k.branch_id ≡ some b
    → restricted k m codes s
      ≡ access_codes m (find (gives_access k.membership_id b) s.accesses) codes s
restricted_at k m b codes s e = rw e refl

branch_done :
    (k : Key) (m : StaffMember) (x : Option ℕ) (codes : List ℕ) (w : Weather) (s : Rights)
    (out : List ℕ) (s' : Rights)
    → k.branch_id ≡ x
    → apply_branch k m x codes w s ≡ done out s'
    → Resolved k w s (restricted k m codes s) out s'
unfolding apply_branch
branch_done k m none codes w s out s' e h = rw e (ground arith)
branch_done k m (some b) codes w s out s' e h =
    let (value, state) =
      restrict_done k m (find (gives_access k.membership_id b) s.accesses) codes w s out s' (
        query_done 3 w (λ s. find (gives_access k.membership_id b) s.accesses)
          (λ access. restrict k m access codes w) s out s' h) in
    (value ∙ sym (restricted_at k m b codes s e), state)

member_done :
    (k : Key) (x : Option StaffMember) (w : Weather) (s : Rights) (out : List ℕ) (s' : Rights)
    → resolve_member k x w s ≡ done out s'
    → Resolved k w s (member_codes k x s) out s'
unfolding resolve_member
member_done k none w s out s' h = ground arith
member_done k (some m) w s out s' h =
    elim (Bool-cases (m.washer_id == k.washer_id && is_active m.status)) [
      | inr out' ↦ rw out' (ground arith)
      | inl in' ↦ rw in' (
          branch_done k m k.branch_id (add_codes (select (is_of_role m.role) s.role_permissions) [])
            w s out s' refl
            (query_done 2 w (λ s. select (is_of_role m.role) s.role_permissions)
              (λ rows. apply_branch k m k.branch_id (add_codes rows []) w) s out s' (rw in' at h)))
    ]

pub key_done :
    (k : Key) (w : Weather) (s : Rights) (x : Washer) (codes : List ℕ) (s' : Rights)
    → IsCoherent s
    → find_washer k.washer_id s ≡ some x
    → k.version ≡ x.permissions_version
    → resolve_key k (cached k w s) w s ≡ done codes s'
    → Resolved k w s (granted k s) codes s'
unfolding resolve_key granted
key_done k w s x codes s' coherent at now h = elim (Option-cases (cached k w s)) [
  | inr (held, hit) ↦
      let (value, state) = held_done held (rw hit at h) in
      (value ∙ cached-granted k w s x held coherent at now hit, inl state)
  | inl miss ↦ member_done k (find_member k.membership_id s) w s codes s' (
      query_done 1 w (find_member k.membership_id) (λ m. resolve_member k m w) s codes s'
        (rw miss at h))
]
  where
    held_done :
        (held : List ℕ)
        → ◌≡◌ {A = Outcome Rights (List ℕ)} (done held s) (done codes s')
        → (codes ≡ held) × (s' ≡ s)
    held_done held e = (cc, cc)

-- The tables that a set is computed from.
pub record SameTables (s s' : Rights) : Type 0 where
  pub members : s'.members ≡ s.members
  pub role_permissions : s'.role_permissions ≡ s.role_permissions
  pub accesses : s'.accesses ≡ s.accesses
  pub overrides : s'.overrides ≡ s.overrides

access_same :
    (m : StaffMember) (x : Option BranchAccess) (codes : List ℕ) (s s' : Rights)
    → SameTables s s'
    → access_codes m x codes s' ≡ access_codes m x codes s
access_same m none codes s s' e = refl
access_same m (some access) codes s s' e = rw e.overrides refl

restricted_same :
    (k : Key) (m : StaffMember) (codes : List ℕ) (s s' : Rights)
    → SameTables s s'
    → restricted k m codes s' ≡ restricted k m codes s
restricted_same k m codes s s' e = elim (Option-cases k.branch_id) [
  | inl everywhere ↦ rw everywhere refl
  | inr (b, at) ↦
      let x = find (gives_access k.membership_id b) s'.accesses in
      restricted_at k m b codes s' at
      ∙ ap (λ rows. access_codes m (find (gives_access k.membership_id b) rows) codes s') e.accesses
      ∙ access_same m (find (gives_access k.membership_id b) s.accesses) codes s s' e
      ∙ sym (restricted_at k m b codes s at)
]

member_same :
    (k : Key) (x : Option StaffMember) (s s' : Rights)
    → SameTables s s'
    → member_codes k x s' ≡ member_codes k x s
member_same k none s s' e = refl
member_same k (some m) s s' e =
    elim (Bool-cases (m.washer_id == k.washer_id && is_active m.status)) [
      | inr out ↦ rw out refl
      | inl inside ↦ rw inside (
          ap (λ rows. restricted k m (add_codes (select (is_of_role m.role) rows) []) s')
            e.role_permissions
          ∙ restricted_same k m (add_codes (select (is_of_role m.role) s.role_permissions) []) s s'
              e)
    ]

pub granted_same : (k : Key) (s s' : Rights) → SameTables s s' → granted k s' ≡ granted k s
unfolding granted
granted_same k s s' e =
    ap (λ rows. member_codes k (find (has_staff_id k.membership_id) rows) s') e.members
    ∙ member_same k (find_member k.membership_id s) s s' e

IsCurrent-same :
    (s s' : Rights) (e : Entry)
    → SameTables s s'
    → s'.washers ≡ s.washers
    → IsCurrent s e
    → IsCurrent s' e
IsCurrent-same s s' e same washers (x, at, cases) = (
  x,
  rw washers at,
  elim cases [
    | inl late ↦ inl late
    | inr (now, value) ↦ inr (now, value ∙ sym (granted_same e.key s s' same))
  ],
)

All-select :
    {A : Type 0} (P : A → Type 0) (p : A → Bool) (xs : List A) → All P xs → All P (select p xs)
All-select P p [] h = tt
All-select P p (x ∷ xs) (px, h) = elim (Bool-cases (p x)) [
  | inl t ↦ rw t (px, All-select P p xs h)
  | inr n ↦ rw n (All-select P p xs h)
]

pub keep-IsCoherent :
    (k : Key) (codes : List ℕ) (w : Weather) (s : Rights) (x : Washer)
    → IsCoherent s
    → find_washer k.washer_id s ≡ some x
    → k.version ≡ x.permissions_version
    → codes ≡ granted k s
    → IsCoherent (keep k codes w s)
keep-IsCoherent k codes w s x coherent at now value = elim (Bool-cases w.set_fails) [
  | inl fails ↦ rw fails coherent
  | inr works ↦ rw works (
    (x, at, inr (now, value ∙ sym (granted_same k s (kept_with s) (same_tables s)))),
    All-map (IsCurrent s) (IsCurrent (kept_with s))
        (λ e c. IsCurrent-same s (kept_with s) e (same_tables s) refl c) _
        (All-select (IsCurrent s) (λ e. not (key_eq e.key k)) s.cache coherent),
  )
]
  where
    kept_with : Rights → Rights
    kept_with r = record r {
      cache =
          record { key = k; codes = codes; expires_at = w.now + 3600 * 1000 }
          ∷ select (λ e. not (key_eq e.key k)) r.cache;
    }

    same_tables : (r : Rights) → SameTables r (kept_with r)
    same_tables r = record {
      members = refl;
      role_permissions = refl;
      accesses = refl;
      overrides = refl;
    }
