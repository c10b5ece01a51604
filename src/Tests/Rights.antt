-- ===== src/Tests/Rights.antt =====
-- The permissions of a worker, and the spellings of a phone number, with their theorems at them.
use maghsul_backend.Base.{
  ℕ, ◌≡◌, ◌≢◌, refl, inr, true, false, Option, some, List, [], ◌∷◌, ◌++◌, includes, Outcome, done,
  arith,
}
use maghsul_backend.Orders.StateMachine.{worker, driver}
use maghsul_backend.Store.{active}
use maghsul_backend.Auth.Permissions.{
  Rights, Key, Weather, allow, deny, Permission, find_member, resolve_permissions, resolve_washer,
  resolve_key, increment_permissions_version, add_codes, deny_codes,
}
use maghsul_backend.Auth.Permissions.Computed.{granted, has_permission, granted_lem}
use maghsul_backend.Auth.Permissions.Cache.{IsCoherent}
use maghsul_backend.Auth.Permissions.Versions.{reference, resolve_done, increment-IsCoherent}
use maghsul_backend.Auth.Phone.{normalize_phone, plus_code, zero_code, normalize_phone_spellings}
use maghsul_backend.Auth.Digits.{Text}

abbrev permission_one : ℕ → Permission
permission_one c = record { code = c; is_active = true }

-- Worker 9 may do 100 and 101; branch 4 denies 101. Redis holds the set of the branch.
abbrev rights_one : Rights
rights_one = record {
  washers = record { id = 3; permissions_version = 2 } ∷ [];
  members =
      record {
        id = 9;
        identity_id = 90;
        washer_id = 3;
        role = worker;
        status = active;
        has_full_washer_access = false;
      }
      ∷ [];
  role_permissions =
      record { role = worker; permission = permission_one 100 }
      ∷ record { role = worker; permission = permission_one 101 }
      ∷ record { role = driver; permission = permission_one 102 }
      ∷ [];
  accesses = record { id = 1; staff_membership_id = 9; branch_id = 4 } ∷ [];
  overrides =
      record { branch_access_id = 1; permission = permission_one 101; effect = deny }
      ∷ record { branch_access_id = 1; permission = permission_one 102; effect = allow }
      ∷ [];
  cache =
      record {
        key = record { washer_id = 3; membership_id = 9; branch_id = some 4; version = 2 };
        codes = 100 ∷ [];
        expires_at = 5000;
      }
      ∷ [];
}

abbrev key_one : Option ℕ → Key
key_one branch = record { washer_id = 3; membership_id = 9; branch_id = branch; version = 2 }

granted_lem_example :
    includes (granted (key_one (some 4)) rights_one) 101
    ≡ has_permission 101 (key_one (some 4)) (find_member 9 rights_one) rights_one
granted_lem_example = granted_lem 101 (key_one (some 4)) rights_one

branch_codes : granted (key_one (some 4)) rights_one ≡ 100 ∷ []
unfolding granted add_codes deny_codes
branch_codes = refl

rights_one-IsCoherent : IsCoherent rights_one
unfolding granted add_codes deny_codes
rights_one-IsCoherent = ((record { id = 3; permissions_version = 2 }, refl, inr (refl, refl)), tt)

abbrev fair : Weather
fair = record { now = 1000; get_fails = false; set_fails = false; query_fails = λ n. false }

-- Redis answers.
abbrev resolved : Outcome Rights (List ℕ)
resolved = resolve_permissions 3 9 (some 4) fair rights_one

resolved_runs : resolved ≡ done (100 ∷ []) rights_one
unfolding resolve_permissions resolve_washer resolve_key
resolved_runs = refl

resolve_done_example : ((100 ∷ []) ≡ reference 3 9 (some 4) rights_one) × IsCoherent rights_one
resolve_done_example =
    resolve_done 3 9 (some 4) fair rights_one (100 ∷ []) rights_one rights_one-IsCoherent
      resolved_runs

-- The denial is taken back.
abbrev changed : Rights
changed = record rights_one { overrides = [] }

washer_only : (k : Key) → k.washer_id ≢ 3 → granted k changed ≡ granted k rights_one
unfolding granted
washer_only k n = ground arith

increment-IsCoherent_example : IsCoherent (increment_permissions_version 3 changed)
increment-IsCoherent_example =
    increment-IsCoherent 3 rights_one changed refl refl washer_only rights_one-IsCoherent

-- Nine digits.
abbrev local_one : Text
local_one = 53 ∷ 48 ∷ 49 ∷ 50 ∷ 51 ∷ 52 ∷ 53 ∷ 54 ∷ 55 ∷ []

normalize_phone_spellings_example :
    (normalize_phone local_one ≡ some local_one)
    × (normalize_phone (48 ∷ local_one) ≡ some local_one)
    × (normalize_phone (plus_code ++ local_one) ≡ some local_one)
    × (normalize_phone (zero_code ++ local_one) ≡ some local_one)
normalize_phone_spellings_example =
    normalize_phone_spellings 53 (48 ∷ 49 ∷ 50 ∷ 51 ∷ 52 ∷ 53 ∷ 54 ∷ 55 ∷ [])
      (record { digits = refl; nine = refl }) (ground arith)
