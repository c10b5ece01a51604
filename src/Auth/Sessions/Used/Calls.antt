-- ===== src/Auth/Sessions/Used/Calls.antt =====
-- Behind every call of src/modules/auth/services/session.service.js a used refresh token stays
-- used, and a revoked session revoked.
use maghsul_backend.Base.{
  ℕ, ◌≢◌, Bool, Option, none, some, String, modify, arith, Keeps, keeps_rules,
}
use maghsul_backend.Auth.Sessions.Tables.{
  add_session, is_open_session, SessionRow, Accounts, Settings, Draw, Context, SessionState,
  add_token,
}
use maghsul_backend.Auth.Sessions.Create.{
  provisional_row, operational_row, create_provisional_session, create_operational_session,
  create_replacement_session, replace_session, replace_writes, check_replaceable, new_token,
}
use maghsul_backend.Auth.Sessions.Revoke.{
  revoke_session, revoke_session_family, revoke_writes, logout_session,
}
use maghsul_backend.Auth.Sessions.Rotate.{
  Shown, is_unused_at, rotate_writes, rotate_shown, rotate_refresh_token, read_token, reuse_token,
  reuse_if_used,
}
use maghsul_backend.Auth.Sessions.State.{
  get_session_state, session_state, told_state, known_or_session_state,
}
use maghsul_backend.Auth.Sessions.Steps.{
  Step, open_provisional, open_operational, replace, rotate, rotate_read, revoke, revoke_family,
  logout, ask_state, take_step,
}
use maghsul_backend.Auth.Sessions.Used.{
  Stays, any-append, Stays-IsPreorder, log-Stays, disconnect-Stays, cache-Stays, close-Stays,
  replace-Stays, revoke-Stays, use-Stays, link-Stays,
}

module _ (i j : ℕ) where
  -- The identifiers of new rows are other ones.
  module _ (d : Draw) (fresh : d.token_id ≢ i) (new : d.session_id ≢ j) where
    add-Stays :
        (hash : ℕ → ℕ) (session family : ℕ) (parent : Option ℕ) (settings : Settings)
        → Keeps (Stays i j) (modify (add_token (new_token hash session family parent settings d)))
    add-Stays hash session family parent settings = record {
      kept = λ s. record {
        used = λ h.
            any-append (is_unused_at i) s.tokens (new_token hash session family parent settings d) h
              (ground arith);
        closed = λ h. h;
      };
    }

    provisional_row-Stays :
        (identity : ℕ) (context : Context) (device : Option ℕ) (settings : Settings)
        → Keeps
            (Stays i j)
            (modify (add_session (provisional_row identity context device settings d)))
    provisional_row-Stays identity context device settings = record {
      kept = λ s. record {
        used = λ h. h;
        closed = λ h.
            any-append (is_open_session j) s.sessions
              (provisional_row identity context device settings d) h (ground arith);
      };
    }

    operational_row-Stays :
        (identity : ℕ) (customer : Bool) (context : Context) (device : Option ℕ)
        (settings : Settings)
        → Keeps
            (Stays i j)
            (modify (add_session (operational_row identity customer context device settings d)))
    operational_row-Stays identity customer context device settings = record {
      kept = λ s. record {
        used = λ h. h;
        closed = λ h.
            any-append (is_open_session j) s.sessions
              (operational_row identity customer context device settings d) h (ground arith);
      };
    }

    ruleset used_rules = (
      keeps_rules, Stays-IsPreorder, provisional_row-Stays, operational_row-Stays, log-Stays,
      disconnect-Stays, cache-Stays, close-Stays, replace-Stays, revoke-Stays, use-Stays,
      link-Stays, add-Stays,
    )

    provisional-Stays :
        (identity : ℕ) (context : Context) (device : Option ℕ) (settings : Settings)
        → Keeps (Stays i j) (create_provisional_session identity context device settings d)
    unfolding create_provisional_session
    provisional-Stays identity context device settings = search used_rules depth 12

    operational-Stays :
        (hash : ℕ → ℕ) (identity : ℕ) (context : Context) (device : Option ℕ) (settings : Settings)
        → Keeps (Stays i j) (create_operational_session hash identity context device settings d)
    unfolding create_operational_session
    operational-Stays hash identity context device settings = search used_rules depth 12

    check-Stays :
        (old : SessionRow) (context : Context) (device : Option ℕ)
        → Keeps (Stays i j) (check_replaceable old context device)
    unfolding check_replaceable
    check-Stays old context device = search used_rules depth 12

    writes-Stays :
        (hash : ℕ → ℕ) (old : SessionRow) (identity : ℕ) (customer : Bool) (context : Context)
        (device : Option ℕ) (settings : Settings)
        → Keeps (Stays i j) (
            replace_writes hash old
              (operational_row identity customer context device settings d)
              settings
              d)
    unfolding replace_writes
    writes-Stays hash old identity customer context device settings = search used_rules depth 20

    replace_session-Stays :
        (hash : ℕ → ℕ) (k : ℕ) (context : Context) (device : Option ℕ) (settings : Settings)
        → Keeps (Stays i j) (replace_session hash k context device settings d)
    unfolding replace_session
    replace_session-Stays hash k context device settings =
        search (used_rules, check-Stays, writes-Stays) depth 12

    replacement-Stays :
        (hash : ℕ → ℕ) (external : Bool) (k : ℕ) (context : Context) (device : Option ℕ)
        (settings : Settings)
        → Keeps (Stays i j) (create_replacement_session hash external k context device settings d)
    unfolding create_replacement_session
    replacement-Stays hash external k context device settings =
        search (used_rules, replace_session-Stays) depth 12

    revoke_writes-Stays :
        (k : ℕ) (reason : String) (now : ℕ) → Keeps (Stays i j) (revoke_writes k reason now)
    unfolding revoke_writes
    revoke_writes-Stays k reason now = search used_rules depth 12

    revoke_session-Stays :
        (k : ℕ) (reason : String) (settings : Settings)
        → Keeps (Stays i j) (revoke_session k reason settings d)
    unfolding revoke_session
    revoke_session-Stays k reason settings = search (used_rules, revoke_writes-Stays) depth 12

    revoke_family-Stays :
        (f : ℕ) (reason : String) (now : ℕ) → Keeps (Stays i j) (revoke_session_family f reason now)
    unfolding revoke_session_family
    revoke_family-Stays f reason now = search used_rules depth 12

    logout-Stays : (k : ℕ) (settings : Settings) → Keeps (Stays i j) (logout_session k settings d)
    unfolding logout_session
    logout-Stays k settings = search (used_rules, revoke_session-Stays) depth 12

    rotate_writes-Stays :
        (hash : ℕ → ℕ) (shown : Shown) (settings : Settings)
        → Keeps (Stays i j) (rotate_writes hash shown settings d)
    unfolding rotate_writes
    rotate_writes-Stays hash shown settings = search used_rules depth 20

    reuse_token-Stays :
        (shown : Shown) (at : ℕ) (settings : Settings)
        → Keeps (Stays i j) (reuse_token shown at settings d)
    unfolding reuse_token
    reuse_token-Stays shown at settings =
        search (used_rules, revoke_session-Stays, revoke_family-Stays) depth 20

    reused-Stays :
        (shown : Shown) (x : Option ℕ) (settings : Settings)
        → Keeps (Stays i j) (reuse_if_used shown x settings d)
    unfolding reuse_if_used
    reused-Stays shown none settings = search used_rules
    reused-Stays shown (some at) settings = reuse_token-Stays shown at settings

    rotate_shown-Stays :
        (hash : ℕ → ℕ) (shown : Shown) (settings : Settings)
        → Keeps (Stays i j) (rotate_shown hash shown settings d)
    unfolding rotate_shown
    rotate_shown-Stays hash shown settings =
        search (used_rules, rotate_writes-Stays, reused-Stays) depth 20

    found_state-Stays :
        (k : ℕ) (x : Option SessionRow) (settings : Settings)
        → Keeps (Stays i j) (told_state k x settings d)
    unfolding told_state
    found_state-Stays k none settings = search used_rules
    found_state-Stays k (some row) settings = search used_rules

    session_state-Stays :
        (k : ℕ) (db_fails : Bool) (settings : Settings)
        → Keeps (Stays i j) (session_state k db_fails settings d)
    unfolding session_state
    session_state-Stays k db_fails settings = search (used_rules, found_state-Stays)

    known_state-Stays :
        (k : ℕ) (x : Option SessionState) (db_fails : Bool) (settings : Settings)
        → Keeps (Stays i j) (known_or_session_state k x db_fails settings d)
    unfolding known_or_session_state
    known_state-Stays k none db_fails settings = session_state-Stays k db_fails settings
    known_state-Stays k (some state) db_fails settings = search used_rules

    state-Stays :
        (k : ℕ) (db_fails : Bool) (settings : Settings)
        → Keeps (Stays i j) (get_session_state k db_fails settings d)
    unfolding get_session_state
    state-Stays k db_fails settings = search (used_rules, known_state-Stays)

    read_token-Stays : (hash : ℕ → ℕ) (raw now : ℕ) → Keeps (Stays i j) (read_token hash raw now)
    unfolding read_token
    read_token-Stays hash raw now = search used_rules depth 20

    rotate-Stays :
        (hash : ℕ → ℕ) (raw : ℕ) (settings : Settings)
        → Keeps (Stays i j) (rotate_refresh_token hash raw settings d)
    unfolding rotate_refresh_token
    rotate-Stays hash raw settings =
        search (used_rules, read_token-Stays, rotate_shown-Stays) depth 12

    pub take_step-Stays :
        (hash : ℕ → ℕ) (settings : Settings) (m : Step) (s : Accounts)
        → Stays i j s (take_step hash settings m d s)
    unfolding take_step
    take_step-Stays hash settings (open_provisional identity context device) s =
        (provisional-Stays identity context device settings).kept s
    take_step-Stays hash settings (open_operational identity context device) s =
        (operational-Stays hash identity context device settings).kept s
    take_step-Stays hash settings (replace external k context device) s =
        (replacement-Stays hash external k context device settings).kept s
    take_step-Stays hash settings (rotate raw) s = (rotate-Stays hash raw settings).kept s
    take_step-Stays hash settings (rotate_read shown) s =
        (rotate_shown-Stays hash shown settings).kept s
    take_step-Stays hash settings (revoke k reason) s =
        (revoke_session-Stays k reason settings).kept s
    take_step-Stays hash settings (revoke_family f reason) s =
        (revoke_family-Stays f reason d.now).kept s
    take_step-Stays hash settings (logout k) s = (logout-Stays k settings).kept s
    take_step-Stays hash settings (ask_state k db_fails) s =
        (state-Stays k db_fails settings).kept s
