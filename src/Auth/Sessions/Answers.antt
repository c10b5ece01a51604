-- ===== src/Auth/Sessions/Answers.antt =====
-- What the grants of src/modules/auth/services/session.service.js are worth at the guards.
use maghsul_backend.Base.{
  ℕ, ◌≡◌, refl, ◌⊎◌, ◌↔◌, inl, inr, Bool, true, false, ◌||◌, Option, none, some, done, err,
  api_error, arith, Outcome-cases,
}
use maghsul_backend.Auth.Guard.{context_of, require_operational_session}
use maghsul_backend.Auth.Sessions.Tables.{
  Accounts, Settings, Draw, Context, is_customer_app, app_type_of, application_of,
}
use maghsul_backend.Auth.Sessions.Create.{
  provisional_row, claims_for, Granted, create_provisional_session, create_operational_session,
  create_replacement_session, replace_session,
}
use maghsul_backend.Auth.Sessions.Rotate.{Shown, rotate_writes, has_no_staff}
use maghsul_backend.Auth.Sessions.Claims.{
  guard_session, Passes, Agrees, claims_iff, provisional-Agrees, granted-Passes, operational_done,
  Replaced, replace_done,
}

module _ (hash : ℕ → ℕ) (context : Context) (device : Option ℕ) (settings : Settings) (d : Draw)
    (s : Accounts) (g : Granted) (s' : Accounts) where
  -- The three ways to be granted a session.
  abbrev pub Created : Type 0
  Created =
      ((identity : ℕ) × (create_provisional_session identity context device settings d s
          ≡ done g s'))
      ⊎ ((identity : ℕ) × (create_operational_session hash identity context device settings d s
            ≡ done g s'))
      ⊎ ((external : Bool) × (i : ℕ) × (create_replacement_session hash external i context device
              settings d s
            ≡ done g s'))

  provisional-Passes :
      (identity : ℕ)
      → create_provisional_session identity context device settings d s ≡ done g s'
      → Passes g
  unfolding create_provisional_session
  provisional-Passes identity h =
      let row = provisional_row identity context device settings d in
      let e : g ≡ record {
        session = row;
        claims =
            claims_for (is_customer_app context.app_type) row context.application_id
              context.app_type;
        refresh_token = none;
      } =
        ground arith in
      rw e (
        (claims_iff (is_customer_app context.app_type) row context.application_id
            context.app_type).1
          (provisional-Agrees identity context device settings d))

  provisional_purpose :
      (identity : ℕ)
      → create_provisional_session identity context device settings d s ≡ done g s'
      → g.session.purpose ≡ none
  unfolding create_provisional_session
  provisional_purpose identity h = ground arith

  replacement_done :
      (external : Bool) (i : ℕ)
      → create_replacement_session hash external i context device settings d s ≡ done g s'
      → Replaced context device settings d g
  unfolding create_replacement_session
  replacement_done true i h = replace_done context device settings d hash i s g s' h
  replacement_done false i h =
      elim (Outcome-cases (replace_session hash i context device settings d s)) [
        | inr (e, s1, w) ↦ absurd (ground arith)
        | inl (g', s1, w) ↦
            let g-is : g ≡ g' = ground arith in
            rw g-is (replace_done context device settings d hash i s g' s1 w)
      ]

  -- Whichever way a session is granted, the payload that is signed for it agrees with the session in
  -- all that the guard compares.
  pub created-Passes : Created → Passes g
  created-Passes (inl (identity, h)) = provisional-Passes identity h
  created-Passes (inr (inl (identity, h))) =
      rw (operational_done context device settings d hash identity s g s' h) (
        granted-Passes context device settings d identity (is_customer_app context.app_type) device
          context.application_id context.app_type)
  created-Passes (inr (inr (external, i, h))) =
      let (identity, customer, device', application, app, e) = replacement_done external i h in
      rw e (granted-Passes context device settings d identity customer device' application app)

  pub created_purpose : Created → g.session.purpose ≡ none
  created_purpose (inl (identity, h)) = provisional_purpose identity h
  created_purpose (inr (inl (identity, h))) =
      rw (operational_done context device settings d hash identity s g s' h) refl
  created_purpose (inr (inr (external, i, h))) =
      let (identity, customer, device', application, app, e) = replacement_done external i h in
      rw e refl

-- The payload of a rotation agrees with its session in all that the guard compares exactly when the
-- session has no purpose and, if it counts as a customer's, no context at all.
pub rotated-Passes_iff :
    (hash : ℕ → ℕ) (shown : Shown) (settings : Settings) (d : Draw) (s : Accounts) (g : Granted)
    (s' : Accounts)
    → rotate_writes hash shown settings d s ≡ done g s'
    → Passes g
      ↔ Agrees
          (is_customer_app (app_type_of shown.device) || has_no_staff shown.session)
          shown.session
unfolding rotate_writes
rotated-Passes_iff hash shown settings d s g s' h =
    let customer = is_customer_app (app_type_of shown.device) || has_no_staff shown.session in
    let e : g ≡ record {
      session = shown.session;
      claims =
          claims_for customer shown.session (application_of shown.device)
            (app_type_of shown.device);
      refresh_token = some d.raw_token;
    } =
      ground arith in
    rw e
      (claims_iff customer shown.session (application_of shown.device) (app_type_of shown.device))

-- The session that a customer is granted at login is refused wherever an operational session is
-- required, since it names no membership.
pub customer-refused :
    (hash : ℕ → ℕ) (identity : ℕ) (context : Context) (device : Option ℕ) (settings : Settings)
    (d : Draw) (s : Accounts) (g : Granted) (s' : Accounts)
    → is_customer_app context.app_type ≡ true
    → create_operational_session hash identity context device settings d s ≡ done g s'
    → require_operational_session (context_of (guard_session g.session))
      ≡ err (api_error 403 "INVALID_SESSION_STATE")
unfolding require_operational_session
customer-refused hash identity context device settings d s g s' c h =
    rw (operational_done context device settings d hash identity s g s' h, c) refl
