-- ===== src/Auth/Sessions/Claims.antt =====
-- The payloads that src/modules/auth/services/session.service.js signs, at the guard of
-- src/middlewares/contextGuard.js.
use maghsul_backend.Base.{
  ℕ, or_else, String, ◌≡◌, refl, ◌⊎◌, ◌↔◌, inl, inr, Bool, true, false, ◌||◌, Option, none, some,
  opt_eq, ==_refl, done, ok, arith, Bool-cases, Option-cases, Outcome-cases,
}
use maghsul_backend.Auth.Guard.{
  SessionType, same_type, Claims, Session, AuthContext, context_of, match_session,
}
use maghsul_backend.Auth.Sessions.Tables.{
  SessionRow, Accounts, Settings, Draw, Context, is_customer_app, app_type_of, find_session,
  device_of, application_of,
}
use maghsul_backend.Auth.Sessions.Create.{
  operational_row, provisional_row, AccessClaims, claims_for, Granted, create_operational_session,
  replace_session, replace_writes, check_replaceable,
}

-- What the guard reads of a payload; the payloads of this service name no purpose.
abbrev pub guard_claims : AccessClaims → Claims
guard_claims c = record {
  session_id = c.session_id;
  identity_id = c.identity_id;
  session_type = c.session_type;
  purpose = none;
  washer_id = c.washer_id;
  branch_id = c.branch_id;
  staff_membership_id = c.staff_membership_id;
  customer_membership_id = c.customer_membership_id;
}

-- What the guard reads of a row.
abbrev pub guard_session : SessionRow → Session
guard_session row = record {
  id = row.id;
  identity_id = row.identity_id;
  session_type = row.session_type;
  purpose = row.purpose;
  washer_id = row.washer_id;
  branch_id = row.branch_id;
  staff_membership_id = row.staff_membership_id;
  customer_membership_id = row.customer_membership_id;
  user_device_id = row.user_device_id;
  is_revoked = row.is_revoked;
  expires_at = row.expires_at;
}

-- The row has no laundry, no branch and no membership.
pub record HasNoContext (row : SessionRow) : Type 0 where
  pub washer : row.washer_id ≡ none
  pub branch : row.branch_id ≡ none
  pub staff : row.staff_membership_id ≡ none
  pub customer : row.customer_membership_id ≡ none

opt_eq_refl : (x : Option ℕ) → opt_eq x x ≡ true
opt_eq_refl none = refl
opt_eq_refl (some a) = ground arith

same_type_refl : (t : SessionType) → same_type t t ≡ true
same_type_refl t = ground arith

staff_claims :
    (row : SessionRow) (application : Option ℕ) (app : Option String)
    → row.purpose ≡ none
    → match_session (guard_claims (claims_for false row application app)) (guard_session row)
      ≡ ok (context_of (guard_session row))
unfolding match_session
staff_claims row application app p =
    rw
      (
        p,
        ==_refl row.identity_id,
        same_type_refl row.session_type,
        opt_eq_refl row.washer_id,
        opt_eq_refl row.branch_id,
        opt_eq_refl row.staff_membership_id,
        opt_eq_refl row.customer_membership_id,
      )
      refl

bare_claims :
    (row : SessionRow) (application : Option ℕ) (app : Option String)
    → row.purpose ≡ none
    → HasNoContext row
    → match_session (guard_claims (claims_for true row application app)) (guard_session row)
      ≡ ok (context_of (guard_session row))
unfolding match_session
bare_claims row application app p n =
    rw
      (
        p,
        ==_refl row.identity_id,
        same_type_refl row.session_type,
        n.washer,
        n.branch,
        n.staff,
        n.customer,
      )
      refl

-- What must hold of a row for the payload of its kind to pass.
abbrev pub Agrees : Bool → SessionRow → Type 0
Agrees customer row = (row.purpose ≡ none) × ((customer ≡ false) ⊎ HasNoContext row)

opt_none : (x : Option ℕ) → opt_eq none x ≡ true → x ≡ none
opt_none none e = refl
opt_none (some a) e = absurd (ground arith)

matched_purpose :
    (c : AccessClaims) (row : SessionRow) (ctx : AuthContext)
    → match_session (guard_claims c) (guard_session row) ≡ ok ctx
    → row.purpose ≡ none
unfolding match_session
matched_purpose c row ctx h = opt_none row.purpose (ground arith)

matched_bare :
    (row : SessionRow) (application : Option ℕ) (app : Option String) (ctx : AuthContext)
    → match_session (guard_claims (claims_for true row application app)) (guard_session row)
      ≡ ok ctx
    → HasNoContext row
unfolding match_session
matched_bare row application app ctx h = record {
  washer = opt_none row.washer_id (ground arith);
  branch = opt_none row.branch_id (ground arith);
  staff = opt_none row.staff_membership_id (ground arith);
  customer = opt_none row.customer_membership_id (ground arith);
}

pub claims_iff :
    (customer : Bool) (row : SessionRow) (application : Option ℕ) (app : Option String)
    → (match_session (guard_claims (claims_for customer row application app)) (guard_session row)
        ≡ ok (context_of (guard_session row)))
      ↔ Agrees customer row
claims_iff false row application app = (
  λ h. (matched_purpose (claims_for false row application app) row _ h, inl refl),
  λ a. staff_claims row application app a.0,
)
claims_iff true row application app = (
  λ h. (
    matched_purpose (claims_for true row application app) row _ h,
    inr (matched_bare row application app _ h),
  ),
  λ a. elim (a.1) [ inl e ↦ absurd cc | inr n ↦ bare_claims row application app a.0 n ],
)

-- The access token of a grant passes the comparison of the guard with the session of the grant.
abbrev pub Passes : Granted → Type 0
Passes g =
    match_session (guard_claims g.claims) (guard_session g.session)
    ≡ ok (context_of (guard_session g.session))

pub operational-Agrees :
    (identity : ℕ) (customer : Bool) (context : Context) (device : Option ℕ) (settings : Settings)
    (d : Draw)
    → Agrees customer (operational_row identity customer context device settings d)
operational-Agrees identity true context device settings d = (refl, inr (ground arith))
operational-Agrees identity false context device settings d = (refl, inl refl)

pub provisional-Agrees :
    (identity : ℕ) (context : Context) (device : Option ℕ) (settings : Settings) (d : Draw)
    → Agrees (is_customer_app context.app_type) (provisional_row identity context device settings d)
provisional-Agrees identity context device settings d =
    elim (Bool-cases (is_customer_app context.app_type)) [
      | inl c ↦
          (refl, inr (record { washer = rw c refl; branch = refl; staff = refl; customer = refl }))
      | inr n ↦ (refl, inl n)
    ]

module _ (context : Context) (device : Option ℕ) (settings : Settings) (d : Draw) where
  abbrev pub granted : ℕ → Bool → Option ℕ → Option ℕ → Option String → Granted
  granted identity customer device' application app =
      let row = operational_row identity customer context device' settings d in
      record {
        session = row;
        claims = claims_for customer row application app;
        refresh_token = some d.raw_token;
      }

  pub granted-Passes :
      (identity : ℕ) (customer : Bool) (device' application : Option ℕ) (app : Option String)
      → Passes (granted identity customer device' application app)
  granted-Passes identity customer device' application app =
      (claims_iff customer (operational_row identity customer context device' settings d)
          application app).1
        (operational-Agrees identity customer context device' settings d)

  pub operational_done :
      (hash : ℕ → ℕ) (identity : ℕ) (s : Accounts) (g : Granted) (s' : Accounts)
      → create_operational_session hash identity context device settings d s ≡ done g s'
      → g
        ≡ granted identity
            (is_customer_app context.app_type)
            device
            context.application_id
            context.app_type
  unfolding create_operational_session
  operational_done hash identity s g s' h = ground arith

  -- What a replacement answers, whether it stands in a transaction of the caller or in its own.
  abbrev pub Replaced : Granted → Type 0
  Replaced g =
      (identity : ℕ) × (customer : Bool) × (device' : Option ℕ) × (application : Option ℕ)
      × (app : Option String) × (g ≡ granted identity customer device' application app)

  pub replace_done :
      (hash : ℕ → ℕ) (i : ℕ) (s : Accounts) (g : Granted) (s' : Accounts)
      → replace_session hash i context device settings d s ≡ done g s'
      → Replaced g
  unfolding replace_session
  replace_done hash i s g s' h = elim (Option-cases (find_session i s)) [
    | inl missing ↦ absurd (ground arith)
    | inr (old, found) ↦
        let old_device = device_of old s in
        let customer =
          is_customer_app (app_type_of old_device) || is_customer_app context.app_type in
        let device' = or_else device old.user_device_id in
        elim (Outcome-cases (check_replaceable old context device s)) [
          | inr (e, s1, w) ↦ absurd (ground arith)
          | inl (u, s1, w) ↦
              elim (Outcome-cases (
                replace_writes hash old
                  (operational_row old.identity_id customer context device' settings d) settings d
                  s1)) [
                    | inr (e, s2, v) ↦ absurd (ground arith)
                    | inl (u', s2, v) ↦ (
                      old.identity_id,
                      customer,
                      device',
                      application_of old_device,
                      app_type_of old_device,
                      ground arith,
                    )
                  ]
        ]
  ]
