-- ===== src/Tests/Guards.antt =====
-- Sessions of a customer and of a worker, and the theorems on the guards at them.
use maghsul_backend.Base.{
  ℕ, ◌≡◌, ◌⊎◌, ◌↔◌, true, false, some, none, Option, [], ◌∷◌, List, ok, any, find,
}
use maghsul_backend.Orders.StateMachine.{worker}
use maghsul_backend.Store.{CustomerMembership, active}
use maghsul_backend.Auth.Guard.{
  Claims, Session, AuthContext, context_of, operational, context_guard, require_staff_session,
  StaffMember, Branch, StaffTables, has_staff_id, has_branch_id, gives_access,
}
use maghsul_backend.Auth.Guard.Laws.{Passes, context_guard_iff, require_staff_session_iff}

abbrev session_one : Option ℕ → Option ℕ → Option ℕ → Session
session_one branch staff customer = record {
  id = 1;
  identity_id = 50;
  session_type = operational;
  purpose = none;
  washer_id = some 3;
  branch_id = branch;
  staff_membership_id = staff;
  customer_membership_id = customer;
  user_device_id = none;
  is_revoked = false;
  expires_at = 9000;
}

abbrev claims_one : Claims
claims_one = record {
  session_id = 1;
  identity_id = 50;
  session_type = operational;
  purpose = none;
  washer_id = some 3;
  branch_id = none;
  staff_membership_id = none;
  customer_membership_id = some 5;
}

abbrev customer_context : AuthContext
customer_context = context_of (session_one none none (some 5))

abbrev staff_context : AuthContext
staff_context = context_of (session_one (some 4) (some 7) none)

context_guard_iff_example :
    (context_guard (some claims_one) (λ i. ok false) 1000 (session_one none none (some 5) ∷ [])
      ≡ ok customer_context)
    ↔ ((c : Claims) × (some claims_one ≡ some c)
        × (s : Session) × Passes c
            (λ i. ok false)
            1000
            (session_one none none (some 5) ∷ [])
            customer_context
            s)
context_guard_iff_example =
    context_guard_iff (some claims_one) (λ i. ok false) 1000 (session_one none none (some 5) ∷ [])
      customer_context

abbrev customers : List CustomerMembership
customers = record { id = 5; identity_id = 50; washer_id = 3; status = active } ∷ []

abbrev staff_tables : StaffTables
staff_tables = record {
  members =
      record {
        id = 7;
        identity_id = 50;
        washer_id = 3;
        role = worker;
        status = active;
        has_full_washer_access = false;
      }
      ∷ [];
  accesses = record { id = 1; staff_membership_id = 7; branch_id = 4 } ∷ [];
  branches = record { id = 4; washer_id = 3 } ∷ [];
}

require_staff_session_iff_example :
    (require_staff_session staff_context staff_tables ≡ ok worker) ↔ (
      (i branch : ℕ) × (m : StaffMember) × (b : Branch) × (staff_context.staff_membership_id
        ≡ some i)
      × (staff_context.customer_membership_id ≡ none)
      × (staff_context.branch_id ≡ some branch)
      × (find (has_staff_id i) staff_tables.members ≡ some m)
      × (m.status ≡ active)
      × (m.identity_id ≡ staff_context.identity_id)
      × (staff_context.washer_id ≡ some m.washer_id)
      × (find (has_branch_id branch) staff_tables.branches ≡ some b)
      × (staff_context.washer_id ≡ some b.washer_id)
      × ((m.has_full_washer_access ≡ true)
          ⊎ (any (gives_access i branch) staff_tables.accesses ≡ true))
      × (worker ≡ m.role))
require_staff_session_iff_example = require_staff_session_iff staff_context staff_tables worker
