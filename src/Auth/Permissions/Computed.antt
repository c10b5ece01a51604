-- ===== src/Auth/Permissions/Computed.antt =====
-- The permissions that src/modules/auth/services/permission.service.js computes from the tables.
use maghsul_backend.Base.{
  ℕ, ◌≡◌, refl, sym, ◌∙◌, inl, inr, Bool, true, false, not, ◌&&◌, ◌||◌, Option, none, some, List,
  [], ◌∷◌, ◌++◌, ◌==◌, ==_iff, any, find, select, includes, if◌then◌else◌, arith, Bool-cases,
  Option-cases,
}
use maghsul_backend.Store.{is_active}
use maghsul_backend.Auth.Guard.{StaffMember, BranchAccess, gives_access}
use maghsul_backend.Auth.Permissions.{
  RolePermission, Override, Key, Rights, is_deny, add_code, delete_code, is_of_role, add_codes,
  deny_codes, is_override_of, find_member,
}

-- The set behind the branch, when every query is answered.
abbrev pub access_codes : StaffMember → Option BranchAccess → List ℕ → Rights → List ℕ
access_codes m none codes s = if m.has_full_washer_access then codes else []
access_codes m (some access) codes s =
    deny_codes (select (is_override_of access.id) s.overrides) codes

abbrev pub restricted : Key → StaffMember → List ℕ → Rights → List ℕ
restricted k m codes s = elim k.branch_id [
  | none ↦ codes
  | some b ↦ access_codes m (find (gives_access k.membership_id b) s.accesses) codes s
]

abbrev pub member_codes : Key → Option StaffMember → Rights → List ℕ
member_codes k none s = []
member_codes k (some m) s =
    if m.washer_id == k.washer_id && is_active m.status
    then restricted k m (add_codes (select (is_of_role m.role) s.role_permissions) []) s
    else []

-- The set that the tables give; the version of the key is not read.
unfoldable pub granted : Key → Rights → List ℕ
granted k s = member_codes k (find_member k.membership_id s) s

includes-append : (xs : List ℕ) (x c : ℕ) → includes (xs ++ x ∷ []) c ≡ (includes xs c || x == c)
includes-append [] x c = ground arith
includes-append (y ∷ ys) x c = ground (arith, includes-append ys x c)

includes-add_code :
    (x c : ℕ) (codes : List ℕ) → includes (add_code x codes) c ≡ (includes codes c || x == c)
includes-add_code x c codes = elim (Bool-cases (includes codes x)) [
  | inl there ↦ elim (Bool-cases (x == c)) [
    | inl same ↦
        let c-in : includes codes c ≡ true = rw ((==_iff x c).0 same) at there in
        ground (arith, c-in)
    | inr other ↦ ground arith
  ]
  | inr new ↦ rw new (includes-append codes x c)
]

includes-delete_code :
    (x c : ℕ) (codes : List ℕ)
    → includes (delete_code x codes) c ≡ (includes codes c && not (x == c))
includes-delete_code x c [] = refl
includes-delete_code x c (y ∷ ys) = ground (arith, includes-delete_code x c ys)

abbrev pub gives : ℕ → RolePermission → Bool
gives c rp = rp.permission.is_active && rp.permission.code == c

abbrev pub denies : ℕ → Override → Bool
denies c o = is_deny o.effect && o.permission.code == c

any-select :
    {A : Type 0} (p q : A → Bool) (xs : List A) → any p (select q xs) ≡ any (λ x. q x && p x) xs
any-select p q [] = refl
any-select p q (x ∷ xs) = ground (arith, any-select p q xs)

includes-add_codes :
    (c : ℕ) (rps : List RolePermission) (codes : List ℕ)
    → includes (add_codes rps codes) c ≡ (includes codes c || any (gives c) rps)
unfolding add_codes
includes-add_codes c [] codes = ground arith
includes-add_codes c (rp ∷ rps) codes = elim (Bool-cases rp.permission.is_active) [
  | inl active ↦
      let rest = includes-add_codes c rps (add_code rp.permission.code codes) in
      let one = includes-add_code rp.permission.code c codes in
      rw active (ground (arith, rest, one))
  | inr off ↦ let rest = includes-add_codes c rps codes in rw off (ground (arith, rest))
]

includes-deny_codes :
    (c : ℕ) (os : List Override) (codes : List ℕ)
    → includes (deny_codes os codes) c ≡ (includes codes c && not (any (denies c) os))
unfolding deny_codes
includes-deny_codes c [] codes = ground arith
includes-deny_codes c (o ∷ os) codes = elim (Bool-cases (is_deny o.effect)) [
  | inl denied ↦
      let rest = includes-deny_codes c os (delete_code o.permission.code codes) in
      let one = includes-delete_code o.permission.code c codes in
      rw denied (ground (arith, rest, one))
  | inr off ↦ let rest = includes-deny_codes c os codes in rw off (ground (arith, rest))
]

-- The role of the member gives the permission.
abbrev pub role_gives : ℕ → StaffMember → Rights → Bool
role_gives c m s = any (λ rp. is_of_role m.role rp && gives c rp) s.role_permissions

-- What the access to the branch says: without one, only a member with access to everything passes;
-- with one, whoever is not denied the permission there.
abbrev pub access_allows : ℕ → StaffMember → Option BranchAccess → Rights → Bool
access_allows c m none s = m.has_full_washer_access
access_allows c m (some access) s =
    not (any (λ o. is_override_of access.id o && denies c o) s.overrides)

abbrev pub branch_allows : ℕ → Key → StaffMember → Rights → Bool
branch_allows c k m s = elim k.branch_id [
  | none ↦ true
  | some b ↦ access_allows c m (find (gives_access k.membership_id b) s.accesses) s
]

-- The meaning of a permission, without lists of codes.
abbrev pub has_permission : ℕ → Key → Option StaffMember → Rights → Bool
has_permission c k none s = false
has_permission c k (some m) s =
    m.washer_id == k.washer_id && is_active m.status && role_gives c m s && branch_allows c k m s

includes_access :
    (c : ℕ) (m : StaffMember) (x : Option BranchAccess) (codes : List ℕ) (s : Rights)
    → includes (access_codes m x codes s) c ≡ (includes codes c && access_allows c m x s)
includes_access c m none codes s = ground arith
includes_access c m (some access) codes s =
    rw
      (
        includes-deny_codes c (select (is_override_of access.id) s.overrides) codes,
        any-select (denies c) (is_override_of access.id) s.overrides,
      )
      refl

includes-restricted :
    (c : ℕ) (k : Key) (m : StaffMember) (codes : List ℕ) (s : Rights)
    → includes (restricted k m codes s) c ≡ (includes codes c && branch_allows c k m s)
includes-restricted c k m codes s = elim (Option-cases k.branch_id) [
  | inl everywhere ↦ rw everywhere (ground arith)
  | inr (b, at) ↦
      rw at (includes_access c m (find (gives_access k.membership_id b) s.accesses) codes s)
]

includes_member :
    (c : ℕ) (k : Key) (x : Option StaffMember) (s : Rights)
    → includes (member_codes k x s) c ≡ has_permission c k x s
includes_member c k none s = refl
includes_member c k (some m) s =
    elim (Bool-cases (m.washer_id == k.washer_id && is_active m.status)) [
      | inr out ↦ ground arith
      | inl here' ↦
          let rows = select (is_of_role m.role) s.role_permissions in
          let a = includes-restricted c k m (add_codes rows []) s in
          let b = includes-add_codes c rows [] in
          let d = any-select (gives c) (is_of_role m.role) s.role_permissions in
          ground (arith, a, b, d)
    ]

-- The loops of the resolver against the meaning of a permission: the set that is computed has a code
-- exactly when the member is an active one of the laundry, an active permission with the code is
-- given to the role, and, for a branch, the access to it does not deny the code or, without such an
-- access, the member has access to everything.
pub granted_lem :
    (c : ℕ) (k : Key) (s : Rights)
    → includes (granted k s) c ≡ has_permission c k (find_member k.membership_id s) s
unfolding granted
granted_lem c k s = includes_member c k (find_member k.membership_id s) s

anywhere_member :
    (c : ℕ) (k : Key) (x : Option StaffMember) (s : Rights)
    → has_permission c k x s ≡ true
    → has_permission c (record k { branch_id = none }) x s ≡ true
anywhere_member c k none s h = h
anywhere_member c k (some m) s h = ground arith

-- A branch takes permissions away and adds none: what a member may do in a branch the member may do
-- without one.
pub granted-restricts :
    (c : ℕ) (k : Key) (s : Rights)
    → includes (granted k s) c ≡ true
    → includes (granted (record k { branch_id = none }) s) c ≡ true
granted-restricts c k s h =
    granted_lem c (record k { branch_id = none }) s
    ∙ anywhere_member c k (find_member k.membership_id s) s (sym (granted_lem c k s) ∙ h)
