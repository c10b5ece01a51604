-- ===== src/Auth/Permissions.antt =====
-- src/modules/auth/services/permission.service.js: the permissions of a member of the staff, and the
-- sets that Redis keeps by the version of the laundry. A permission is a number, its code.
pub mod Computed
pub mod Cache
pub mod Versions
use maghsul_backend.Base.{
  ℕ, ◌+◌, ◌*◌, Bool, true, false, not, ◌&&◌, Option, none, some, List, [], ◌∷◌, ◌++◌, ◌==◌, ltb,
  if◌then◌else◌, opt_eq, find, select, includes, update_where, Outcome, done, thrown, throw,
  api_error, get, pure, modify, ◌>>=◌, ◌>>◌,
}
use maghsul_backend.Orders.StateMachine.{
  Role, washer_owner, washer_manager, branch_manager, worker, driver, washer_admin, customer,
  other_role,
}
use maghsul_backend.Store.{is_active}
use maghsul_backend.Auth.Guard.{StaffMember, BranchAccess, has_staff_id, gives_access}

pub record Permission : Type 0 where
  pub code : ℕ
  pub is_active : Bool

-- A row with the permission that it includes.
pub record RolePermission : Type 0 where
  pub role : Role
  pub permission : Permission

pub data Effect : Type 0 where
  allow deny : Effect

pub record Override : Type 0 where
  pub branch_access_id : ℕ
  pub permission : Permission
  pub effect : Effect

pub record Washer : Type 0 where
  pub id : ℕ
  pub permissions_version : ℕ

-- The key of a set that is kept; without a branch it is "global".
pub record Key : Type 0 where
  pub washer_id : ℕ
  pub membership_id : ℕ
  pub branch_id : Option ℕ
  pub version : ℕ

pub record Entry : Type 0 where
  pub key : Key
  pub codes : List ℕ
  pub expires_at : ℕ

pub record Rights : Type 0 where
  pub washers : List Washer
  pub members : List StaffMember
  pub role_permissions : List RolePermission
  pub accesses : List BranchAccess
  pub overrides : List Override
  pub cache : List Entry

-- The time, and what fails: reading from Redis, writing to it, the n-th query of the database.
pub record Weather : Type 0 where
  pub now : ℕ
  pub get_fails : Bool
  pub set_fails : Bool
  pub query_fails : ℕ → Bool

abbrev pub role_place : Role → ℕ
role_place washer_owner = 0
role_place washer_manager = 1
role_place branch_manager = 2
role_place worker = 3
role_place driver = 4
role_place washer_admin = 5
role_place customer = 6
role_place other_role = 7

abbrev pub is_deny : Effect → Bool
is_deny deny = true
is_deny allow = false

-- `Set.add` and `Set.delete`
abbrev pub add_code : ℕ → List ℕ → List ℕ
add_code c codes = if includes codes c then codes else codes ++ c ∷ []

abbrev pub delete_code : ℕ → List ℕ → List ℕ
delete_code c codes = select (λ x. not (x == c)) codes

abbrev pub is_of_role : Role → RolePermission → Bool
is_of_role r rp = role_place rp.role == role_place r

-- The loop over the permissions of the role.
unfoldable pub add_codes : List RolePermission → List ℕ → List ℕ
add_codes [] codes = codes
add_codes (rp ∷ rps) codes =
    add_codes rps (if rp.permission.is_active then add_code rp.permission.code codes else codes)

-- The loop over the overrides of the branch: only a denial has an effect.
unfoldable pub deny_codes : List Override → List ℕ → List ℕ
deny_codes [] codes = codes
deny_codes (o ∷ os) codes =
    deny_codes os (if is_deny o.effect then delete_code o.permission.code codes else codes)

abbrev pub has_washer : ℕ → Washer → Bool
has_washer i w = w.id == i

abbrev pub is_override_of : ℕ → Override → Bool
is_override_of i o = o.branch_access_id == i

abbrev pub key_eq : Key → Key → Bool
key_eq a b =
    a.washer_id == b.washer_id
    && a.membership_id == b.membership_id
    && opt_eq a.branch_id b.branch_id
    && a.version == b.version

-- A query of the database.
abbrev pub query : {A : Type 0} → ℕ → Weather → (Rights → A) → Rights → Outcome Rights A
query n w q s = if w.query_fails n then thrown (api_error 500 "database") s else done (q s) s

abbrev pub find_washer : ℕ → Rights → Option Washer
find_washer i s = find (has_washer i) s.washers

abbrev pub find_member : ℕ → Rights → Option StaffMember
find_member i s = find (has_staff_id i) s.members

-- `redis.get`; a failure is logged and nothing is found.
abbrev pub cached : Key → Weather → Rights → Option (List ℕ)
cached k w s =
    if w.get_fails
    then none
    else (elim (find (λ e. key_eq e.key k && ltb w.now e.expires_at) s.cache) [
      | none ↦ none
      | some e ↦ some e.codes
    ])

-- `redis.setex(cacheKey, 3600, …)`; a failure is logged.
abbrev pub keep : Key → List ℕ → Weather → Rights → Rights
keep k codes w s = if w.set_fails then s else record s {
  cache =
      record { key = k; codes = codes; expires_at = w.now + 3600 * 1000 }
      ∷ select (λ e. not (key_eq e.key k)) s.cache;
}

-- The set is kept and returned.
abbrev pub kept : Key → List ℕ → Weather → Rights → Outcome Rights (List ℕ)
kept k codes w = do modify (keep k codes w); pure codes

-- Step 2 for a branch: the access to it, and its overrides.
unfoldable pub restrict :
    Key → StaffMember → Option BranchAccess → List ℕ → Weather → Rights → Outcome Rights (List ℕ)
restrict k m none codes w = if m.has_full_washer_access then kept k codes w else pure []
restrict k m (some access) codes w = do
  overrides ← query 4 w (λ s. select (is_override_of access.id) s.overrides)
  kept k (deny_codes overrides codes) w

unfoldable pub apply_branch :
    Key → StaffMember → Option ℕ → List ℕ → Weather → Rights → Outcome Rights (List ℕ)
apply_branch k m none codes w = kept k codes w
apply_branch k m (some b) codes w = do
  access ← query 3 w (λ s. find (gives_access k.membership_id b) s.accesses)
  restrict k m access codes w

-- Step 1 for a member that was found.
unfoldable pub resolve_member :
    Key → Option StaffMember → Weather → Rights → Outcome Rights (List ℕ)
resolve_member k none w = pure []
resolve_member k (some m) w =
    if m.washer_id == k.washer_id && is_active m.status
    then (do
      rows ← query 2 w (λ s. select (is_of_role m.role) s.role_permissions)
      apply_branch k m k.branch_id (add_codes rows []) w)
    else pure []

-- The answer of Redis, or else the database.
unfoldable pub resolve_key : Key → Option (List ℕ) → Weather → Rights → Outcome Rights (List ℕ)
resolve_key k (some codes) w = pure codes
resolve_key k none w = do m ← query 1 w (find_member k.membership_id); resolve_member k m w

abbrev pub key_of : ℕ → ℕ → Option ℕ → Washer → Key
key_of washer member branch found = record {
  washer_id = washer;
  membership_id = member;
  branch_id = branch;
  version = found.permissions_version;
}

unfoldable pub resolve_washer :
    ℕ → ℕ → Option ℕ → Option Washer → Weather → Rights → Outcome Rights (List ℕ)
resolve_washer washer member branch none w = pure []
resolve_washer washer member branch (some found) w = do
  let k = key_of washer member branch found
  s ← get
  resolve_key k (cached k w s) w

-- Every failure of the database is answered by the same error.
abbrev pub unavailable : {A : Type 0} → Outcome Rights A → Outcome Rights A
unavailable (done a s) = done a s
unavailable (thrown e s) = thrown (api_error 503 "SERVICE_UNAVAILABLE") s

-- `resolvePermissions`
unfoldable pub resolve_permissions : ℕ → ℕ → Option ℕ → Weather → Rights → Outcome Rights (List ℕ)
resolve_permissions washer member branch w s =
    unavailable
      ((do found ← query 0 w (find_washer washer); resolve_washer washer member branch found w) s)

-- `incrementPermissionsVersion`
abbrev pub increment_permissions_version : ℕ → Rights → Rights
increment_permissions_version i s = record s {
  washers =
      update_where (has_washer i)
        (λ x. record x { permissions_version = x.permissions_version + 1 }) s.washers;
}
