-- ===== src/Auth/Guard/Laws.antt =====
-- Who passes the guards of src/middlewares/contextGuard.js.
use mathlib.Core.Path.{subst}
use maghsul_backend.Base.{
  ℕ, ◌≤◌, ◌≡◌, ◌≢◌, ◌⊎◌, ◌↔◌, refl, sym, inl, inr, Bool, true, false, not, Option, none, some, List,
  ◌==◌, ==_iff, ltb, if◌then◌else◌, opt_eq, opt_eq_iff, any, find, Result, ok, err, api_error,
  arith, Option-cases,
}
use maghsul_backend.Orders.StateMachine.{Role}
use maghsul_backend.Store.{CustomerMembership, active}
use maghsul_backend.Auth.Guard.{
  SessionType, provisional, operational, customer_session, same_type, Claims, Session, AuthContext,
  context_of, has_session_id, match_session, admit_session, context_guard,
  require_operational_session, has_customer_id, require_customer_session, StaffMember, Branch,
  StaffTables, has_staff_id, has_branch_id, gives_access, admit_staff, require_staff_session,
}

-- The claims of a token and the columns of a session agree.
pub record Matches (c : Claims) (s : Session) : Type 0 where
  pub identity : c.identity_id ≡ s.identity_id
  pub type : c.session_type ≡ s.session_type
  pub purpose : c.purpose ≡ s.purpose
  pub washer : c.washer_id ≡ s.washer_id
  pub branch : c.branch_id ≡ s.branch_id
  pub staff : c.staff_membership_id ≡ s.staff_membership_id
  pub customer : c.customer_membership_id ≡ s.customer_membership_id

same_type_iff : (a b : SessionType) → (same_type a b ≡ true) ↔ (a ≡ b)
same_type_iff provisional provisional = (λ h. refl, λ h. refl)
same_type_iff operational operational = (λ h. refl, λ h. refl)
same_type_iff customer_session customer_session = (λ h. refl, λ h. refl)
same_type_iff provisional operational = (λ h. cc, λ h. cc)
same_type_iff provisional customer_session = (λ h. cc, λ h. cc)
same_type_iff operational provisional = (λ h. cc, λ h. cc)
same_type_iff operational customer_session = (λ h. cc, λ h. cc)
same_type_iff customer_session provisional = (λ h. cc, λ h. cc)
same_type_iff customer_session operational = (λ h. cc, λ h. cc)

-- A ladder of seven comparisons.
seven :
    {A : Type 0} (a b c d e f g : Bool) (x : A) (y : Result A)
    → (if not a
        then err (api_error 401 "TOKEN_SESSION_MISMATCH")
        else if not b
        then err (api_error 401 "TOKEN_SESSION_MISMATCH")
        else if not c
        then err (api_error 401 "TOKEN_SESSION_MISMATCH")
        else if not d
        then err (api_error 401 "TOKEN_SESSION_MISMATCH")
        else if not e
        then err (api_error 401 "TOKEN_SESSION_MISMATCH")
        else if not f
        then err (api_error 401 "TOKEN_SESSION_MISMATCH")
        else if not g
        then err (api_error 401 "TOKEN_SESSION_MISMATCH")
        else ok x)
      ≡ y
    → (z : A) → y ≡ ok z
    → (a ≡ true)
      × (b ≡ true)
      × (c ≡ true)
      × (d ≡ true)
      × (e ≡ true)
      × (f ≡ true)
      × (g ≡ true)
      × (x ≡ z)
seven a b c d e f g x y h z k = ground arith

match_session_sound :
    (c : Claims) (s : Session) (ctx : AuthContext)
    → match_session c s ≡ ok ctx
    → Matches c s × (ctx ≡ context_of s)
unfolding match_session
match_session_sound c s ctx h =
    let (a, b, p, w, r, t, u, x) =
      seven (c.identity_id == s.identity_id) (same_type c.session_type s.session_type)
        (opt_eq c.purpose s.purpose) (opt_eq c.washer_id s.washer_id)
        (opt_eq c.branch_id s.branch_id) (opt_eq c.staff_membership_id s.staff_membership_id)
        (opt_eq c.customer_membership_id s.customer_membership_id) (context_of s)
        (match_session c s) refl ctx h in
    (
      record {
        identity = (==_iff c.identity_id s.identity_id).0 a;
        type = (same_type_iff c.session_type s.session_type).0 b;
        purpose = (opt_eq_iff c.purpose s.purpose).0 p;
        washer = (opt_eq_iff c.washer_id s.washer_id).0 w;
        branch = (opt_eq_iff c.branch_id s.branch_id).0 r;
        staff = (opt_eq_iff c.staff_membership_id s.staff_membership_id).0 t;
        customer = (opt_eq_iff c.customer_membership_id s.customer_membership_id).0 u;
      },
      sym x,
    )

match_session_complete :
    (c : Claims) (s : Session) → Matches c s → match_session c s ≡ ok (context_of s)
unfolding match_session
match_session_complete c s m =
    rw
      (
        (==_iff c.identity_id s.identity_id).1 (m.identity),
        (same_type_iff c.session_type s.session_type).1 (m.type),
        (opt_eq_iff c.purpose s.purpose).1 (m.purpose),
        (opt_eq_iff c.washer_id s.washer_id).1 (m.washer),
        (opt_eq_iff c.branch_id s.branch_id).1 (m.branch),
        (opt_eq_iff c.staff_membership_id s.staff_membership_id).1 (m.staff),
        (opt_eq_iff c.customer_membership_id s.customer_membership_id).1 (m.customer),
      )
      refl

-- What the guard asks for.
abbrev pub Passes : Claims → (ℕ → Result Bool) → ℕ → List Session → AuthContext → Session → Type 0
Passes c state now sessions ctx s =
    (find (has_session_id c.session_id) sessions ≡ some s)
    × (state s.id ≡ ok false)
    × (s.is_revoked ≡ false)
    × (now ≤ s.expires_at)
    × Matches c s
    × (ctx ≡ context_of s)

module _ (c : Claims) (state : ℕ → Result Bool) (now : ℕ) (sessions : List Session)
    (ctx : AuthContext) where
  guard_sound :
      context_guard (some c) state now sessions ≡ ok ctx
      → (s : Session) × Passes c state now sessions ctx s
  unfolding context_guard admit_session
  guard_sound h = elim (Option-cases (find (has_session_id c.session_id) sessions)) [
    | inl missing ↦ absurd (ground arith)
    | inr (s, found) ↦
        let (m, same) = match_session_sound c s ctx (ground arith) in
        (s, (found, ground arith, ground arith, ground arith, m, same))
  ]

  guard_complete :
      (s : Session)
      → Passes c state now sessions ctx s
      → context_guard (some c) state now sessions ≡ ok ctx
  unfolding context_guard admit_session
  guard_complete s (found, known, kept, alive, m, same) =
      let fresh : ltb s.expires_at now ≡ false = ground arith in
      let matched = match_session_complete c s m in ground arith

unnamed :
    (state : ℕ → Result Bool) (now : ℕ) (sessions : List Session) (ctx : AuthContext)
    → ¬ (context_guard none state now sessions ≡ ok ctx)
unfolding context_guard admit_session
unnamed state now sessions ctx h = ground arith

-- A request passes the guard exactly with a token that names a session which is known as not revoked,
-- is not revoked in the table, has not expired and agrees with the claims of the token in every column,
-- a missing claim being a missing column; the context of the request is that session's.
pub context_guard_iff :
    (claims : Option Claims) (state : ℕ → Result Bool) (now : ℕ) (sessions : List Session)
    (ctx : AuthContext)
    → (context_guard claims state now sessions ≡ ok ctx)
      ↔ ((c : Claims) × (claims ≡ some c) × (s : Session) × Passes c state now sessions ctx s)
context_guard_iff none state now sessions ctx =
    (λ h. absurd (unnamed state now sessions ctx h), λ h. absurd (ground arith))
context_guard_iff (some c) state now sessions ctx = (
  λ h. let (s, passes) = guard_sound c state now sessions ctx h in (c, refl, s, passes),
  λ h.
      let (d, named, s, passes) = h in
      let e : d ≡ c = cc in
      guard_complete c state now sessions ctx s
        (subst (λ x. Passes x state now sessions ctx s) e passes),
)

-- An operational session has a laundry and exactly one membership: a customer's or one of the staff.
pub require_operational_session_iff :
    (ctx : AuthContext)
    → (require_operational_session ctx ≡ ok ctx) ↔ (
        (ctx.session_type ≡ operational)
        × (ctx.washer_id ≢ none)
        × (((ctx.customer_membership_id ≡ none) × (ctx.staff_membership_id ≢ none))
            ⊎ ((ctx.customer_membership_id ≢ none) × (ctx.staff_membership_id ≡ none))))
unfolding require_operational_session
require_operational_session_iff ctx = (λ h. ground arith, λ h. ground arith)

-- A customer passes exactly with an active membership of the session's identity and laundry.
pub require_customer_session_iff :
    (ctx : AuthContext) (members : List CustomerMembership)
    → (require_customer_session ctx members ≡ ok ctx) ↔ (
        (i : ℕ) × (m : CustomerMembership) × (ctx.customer_membership_id ≡ some i)
        × (ctx.staff_membership_id ≡ none)
        × (find (has_customer_id i) members ≡ some m)
        × (m.status ≡ active)
        × (m.identity_id ≡ ctx.identity_id)
        × (ctx.washer_id ≡ some m.washer_id))
unfolding require_customer_session
require_customer_session_iff ctx members = elim (Option-cases ctx.customer_membership_id) [
  | inl none_there ↦ (λ h. absurd (ground arith), λ h. absurd (ground arith))
  | inr (i, there) ↦ elim (Option-cases (find (has_customer_id i) members)) [
    | inl missing ↦ (λ h. absurd (ground arith), λ h. absurd (ground arith))
    | inr (m, found) ↦ (
      λ h. (i, m, there, ground arith, found, ground arith, ground arith, ground arith),
      λ h. ground arith,
    )
  ]
]

-- A member of the staff passes exactly with an active membership of the session's identity and
-- laundry, for a branch of that laundry, and with access to all of its branches or to this one.
pub require_staff_session_iff :
    (ctx : AuthContext) (tables : StaffTables) (role : Role)
    → (require_staff_session ctx tables ≡ ok role) ↔ (
        (i branch : ℕ) × (m : StaffMember) × (b : Branch) × (ctx.staff_membership_id ≡ some i)
        × (ctx.customer_membership_id ≡ none)
        × (ctx.branch_id ≡ some branch)
        × (find (has_staff_id i) tables.members ≡ some m)
        × (m.status ≡ active)
        × (m.identity_id ≡ ctx.identity_id)
        × (ctx.washer_id ≡ some m.washer_id)
        × (find (has_branch_id branch) tables.branches ≡ some b)
        × (ctx.washer_id ≡ some b.washer_id)
        × ((m.has_full_washer_access ≡ true) ⊎ (any (gives_access i branch) tables.accesses ≡ true))
        × (role ≡ m.role))
unfolding require_staff_session admit_staff
require_staff_session_iff ctx tables role = elim (Option-cases ctx.staff_membership_id) [
  | inl none_there ↦ (λ h. absurd (ground arith), λ h. absurd (ground arith))
  | inr (i, there) ↦ elim (Option-cases ctx.branch_id) [
    | inl none_named ↦ (λ h. absurd (ground arith), λ h. absurd (ground arith))
    | inr (branch, named) ↦ elim (Option-cases (find (has_staff_id i) tables.members)) [
      | inl missing ↦ (λ h. absurd (ground arith), λ h. absurd (ground arith))
      | inr (m, found) ↦ elim (Option-cases (find (has_branch_id branch) tables.branches)) [
        | inl nowhere ↦ (λ h. absurd (ground arith), λ h. absurd (ground arith))
        | inr (b, placed) ↦ (
          λ h. (
            i,
            branch,
            m,
            b,
            there,
            ground arith,
            named,
            found,
            ground arith,
            ground arith,
            ground arith,
            placed,
            ground arith,
            ground arith,
            ground arith,
          ),
          λ h. ground arith,
        )
      ]
    ]
  ]
]
