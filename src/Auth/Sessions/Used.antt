-- ===== src/Auth/Sessions/Used.antt =====
-- Writes of src/modules/auth/services/session.service.js behind which a used refresh token stays
-- used and a revoked session revoked.
pub mod Calls
use maghsul_backend.Base.{
  ℕ, ◌≡◌, ◌≢◌, refl, inl, inr, Bool, true, false, Option, none, some, List, [], ◌∷◌, ◌++◌, String,
  ◌==◌, ==_iff, any, update_where, All, Outcome, done, thrown, final_state, transaction, require,
  found_or, get, modify, pure, throw, ◌>>=◌, api_error, arith, Bool-cases, Outcome-cases, Keeps,
  IsPreorder, keeps_rules, if◌then◌else◌,
}
use maghsul_backend.Auth.Sessions.Tables.{
  SessionRow, RefreshToken, Accounts, Settings, Draw, SessionState, cache_session_state,
  is_open_session, set_sessions, set_tokens, log_session, disconnect, revoke_row, revoke_token,
}
use maghsul_backend.Auth.Sessions.Create.{
  create_provisional_session, create_operational_session, create_replacement_session,
  replace_session, replace_writes, Granted, check_replaceable, new_token,
}
use maghsul_backend.Auth.Sessions.Revoke.{
  revoke_session, revoke_session_family, revoke_writes, logout_session,
}
use maghsul_backend.Auth.Sessions.Create.{replace_row}
use maghsul_backend.Auth.Sessions.Rotate.{
  Shown, is_unused_at, use_token, rotate_writes, rotate_shown, rotate_refresh_token, read_token,
  reuse_token, reuse_if_used,
}
use maghsul_backend.Auth.Sessions.State.{
  get_session_state, session_state, told_state, known_or_session_state,
}
use maghsul_backend.Auth.Sessions.Steps.{
  Step, open_provisional, open_operational, replace, rotate, rotate_read, revoke, revoke_family,
  logout, ask_state, take_step, take_steps,
}

-- The token `i` has no row that a rotation would take, and stays so; no row of the session `j` is open,
-- and stays so.
pub record Stays (i j : ℕ) (s s' : Accounts) : Type 0 where
  pub used : any (is_unused_at i) s.tokens ≡ false → any (is_unused_at i) s'.tokens ≡ false
  pub closed :
      any (is_open_session j) s.sessions ≡ false → any (is_open_session j) s'.sessions ≡ false

module _ {A : Type 0} where
  pub any-update_where :
      (p q : A → Bool) (f : A → A)
      → ((t : A) → p t ≡ false → p (f t) ≡ false)
      → (ts : List A) → any p ts ≡ false
      → any p (update_where q f ts) ≡ false
  any-update_where p q f k [] h = refl
  any-update_where p q f k (t ∷ ts) h = ground (arith, k t, any-update_where p q f k ts)

  pub any-append :
      (p : A → Bool) (ts : List A) (t : A)
      → any p ts ≡ false
      → p t ≡ false
      → any p (ts ++ t ∷ []) ≡ false
  any-append p [] t h k = ground arith
  any-append p (x ∷ ts) t h k = ground (arith, any-append p ts t)

module _ (i j : ℕ) where
  pub Stays-IsPreorder : IsPreorder (Stays i j)
  Stays-IsPreorder = record {
    same = λ s. record { used = λ h. h; closed = λ h. h };
    after =
        λ a b c p q. record { used = λ h. q.used (p.used h); closed = λ h. q.closed (p.closed h) };
  }

  same_rows : (s s' : Accounts) → s'.tokens ≡ s.tokens → s'.sessions ≡ s.sessions → Stays i j s s'
  same_rows s s' e f = record { used = λ h. rw e h; closed = λ h. rw f h }

  pub log-Stays : (k : ℕ) (a : String) → Keeps (Stays i j) (modify (log_session k a))
  log-Stays k a = record { kept = λ s. same_rows s (log_session k a s) refl refl }

  pub disconnect-Stays : (k : ℕ) → Keeps (Stays i j) (modify (disconnect k))
  disconnect-Stays k = record { kept = λ s. same_rows s (disconnect k s) refl refl }

  cache_rows :
      (k : ℕ) (state : SessionState) (settings : Settings) (d : Draw) (s : Accounts)
      → ((cache_session_state k state settings d s).tokens ≡ s.tokens)
        × ((cache_session_state k state settings d s).sessions ≡ s.sessions)
  unfolding cache_session_state
  cache_rows k state settings d s = ground arith

  pub cache-Stays :
      (k : ℕ) (state : SessionState) (settings : Settings) (d : Draw)
      → Keeps (Stays i j) (modify (cache_session_state k state settings d))
  cache-Stays k state settings d = record {
    kept =
        λ s. same_rows s _ (cache_rows k state settings d s).0 (cache_rows k state settings d s).1;
  }

  -- Writes of the sessions: no write opens one.
  module _ (p : SessionRow → Bool) where
    pub close-Stays :
        (now : ℕ) (reason : String)
        → Keeps (Stays i j) (modify (set_sessions p (revoke_row now reason)))
    close-Stays now reason = record {
      kept = λ s. record {
        used = λ h. h;
        closed =
            any-update_where (is_open_session j) p (revoke_row now reason) (λ t h. ground arith)
              s.sessions;
      };
    }

    pub replace-Stays :
        (old : SessionRow) (by now : ℕ)
        → Keeps (Stays i j) (modify (set_sessions p (replace_row old by now)))
    replace-Stays old by now = record {
      kept = λ s. record {
        used = λ h. h;
        closed =
            any-update_where (is_open_session j) p (replace_row old by now) (λ t h. ground arith)
              s.sessions;
      };
    }

  -- Writes of the tokens: no write makes one unused.
  module _ (p : RefreshToken → Bool) where
    pub revoke-Stays :
        (now : ℕ) (reason : String)
        → Keeps (Stays i j) (modify (set_tokens p (revoke_token now reason)))
    revoke-Stays now reason = record {
      kept = λ s. record {
        used =
            any-update_where (is_unused_at i) p (revoke_token now reason) (λ t h. ground arith)
              s.tokens;
        closed = λ h. h;
      };
    }

    pub use-Stays : (now : ℕ) → Keeps (Stays i j) (modify (set_tokens p (use_token now)))
    use-Stays now = record {
      kept = λ s. record {
        used = any-update_where (is_unused_at i) p (use_token now) (λ t h. ground arith) s.tokens;
        closed = λ h. h;
      };
    }

    pub link-Stays :
        (by : Option ℕ)
        → Keeps (Stays i j) (modify (set_tokens p (λ t. record t { replaced_by_id = by })))
    link-Stays by = record {
      kept = λ s. record {
        used =
            any-update_where (is_unused_at i) p (λ t. record t { replaced_by_id = by }) (λ t h. h)
              s.tokens;
        closed = λ h. h;
      };
    }
