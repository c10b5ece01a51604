-- ===== src/Auth/Sessions/Known.antt =====
-- `getSessionState` of src/modules/auth/services/session.service.js behind a revocation.
use maghsul_backend.Base.{
  ℕ, ◌+◌, ◌*◌, ◌≡◌, refl, ◌⊎◌, inl, inr, Bool, true, false, not, none, some, List, [], ◌∷◌, String,
  ◌==◌, any, find, select, done, arith, Bool-cases, Option-cases,
}
use maghsul_backend.Auth.Sessions.Tables.{
  SessionRow, Accounts, Settings, Draw, SessionState, revoked, CacheLine, is_open_session,
  has_session, find_session, cache_session_state,
}
use maghsul_backend.Auth.Sessions.Revoke.{revoke_session, revoke_writes}
use maghsul_backend.Auth.Sessions.State.{
  is_kept, cached_state, told_state, session_state, known_or_session_state, get_session_state,
}
use maghsul_backend.Auth.Sessions.Revoked.{revoke-Closed}

dropped :
    (i now : ℕ) (cs : List CacheLine)
    → find (is_kept i now) (select (λ c. not (c.session_id == i)) cs) ≡ none
dropped i now [] = refl
dropped i now (c ∷ cs) = ground (arith, dropped i now cs)

closed_state :
    (i : ℕ) (rows : List SessionRow) (row : SessionRow)
    → any (is_open_session i) rows ≡ false
    → find (has_session i) rows ≡ some row
    → row.is_revoked ≡ true
closed_state i [] row c f = absurd (ground arith)
closed_state i (r ∷ rows) row c f = ground (arith, closed_state i rows row)

-- Redis holds no "active" for the session.
abbrev NotActive : ℕ → Accounts → Type 0
NotActive i s = (d : Draw) → (cached_state i d s ≡ none) ⊎ (cached_state i d s ≡ some revoked)

behind_line :
    (i ends : ℕ) (rest : List CacheLine) (s : Accounts) (d : Draw)
    → find (is_kept i d.now) rest ≡ none
    → s.cache ≡ record { session_id = i; state = revoked; expires_at = ends } ∷ rest
    → (cached_state i d s ≡ none) ⊎ (cached_state i d s ≡ some revoked)
behind_line i ends rest s d n e = ground arith

without_line :
    (i : ℕ) (rest : List CacheLine) (s : Accounts) (d : Draw)
    → find (is_kept i d.now) rest ≡ none
    → s.cache ≡ rest
    → cached_state i d s ≡ none
without_line i rest s d n e = ground arith

kept_line :
    (i ends : ℕ) (cs : List CacheLine) (s : Accounts)
    → s.cache
      ≡ record { session_id = i; state = revoked; expires_at = ends }
        ∷ select (λ c. not (c.session_id == i)) cs
    → NotActive i s
kept_line i ends cs s e d = behind_line i ends _ s d (dropped i d.now cs) e

no_line :
    (i : ℕ) (cs : List CacheLine) (s : Accounts)
    → s.cache ≡ select (λ c. not (c.session_id == i)) cs
    → NotActive i s
no_line i cs s e d = inl (without_line i _ s d (dropped i d.now cs) e)

module _ (i : ℕ) (reason : String) (settings : Settings) (d : Draw) (s s1 : Accounts)
    (h : revoke_session i reason settings d s ≡ done tt s1) where
  line_written :
      d.set_fails ≡ false
      → s1.cache
        ≡ record { session_id = i; state = revoked; expires_at = d.now + 86400 * 1000 }
          ∷ select (λ c. not (c.session_id == i)) s.cache
  unfolding revoke_session revoke_writes cache_session_state
  line_written f = ground arith

  line_deleted :
      d.set_fails ≡ true
      → d.del_fails ≡ false
      → s1.cache ≡ select (λ c. not (c.session_id == i)) s.cache
  unfolding revoke_session revoke_writes cache_session_state
  line_deleted t f = ground arith

  revoked-NotActive : (d.set_fails ≡ false) ⊎ (d.del_fails ≡ false) → NotActive i s1
  revoked-NotActive redis = elim (Bool-cases d.set_fails) [
    | inr f ↦ kept_line i (d.now + 86400 * 1000) s.cache s1 (line_written f)
    | inl t ↦ no_line i s.cache s1 (line_deleted t (ground arith))
  ]

known_session :
    (i : ℕ) (db_fails : Bool) (settings : Settings) (d : Draw) (s : Accounts) (x : SessionState)
    (s' : Accounts)
    → any (is_open_session i) s.sessions ≡ false
    → session_state i db_fails settings d s ≡ done x s'
    → x ≡ revoked
unfolding session_state told_state
known_session i db_fails settings d s x s' c h = elim (Option-cases (find_session i s)) [
  | inl missing ↦ ground arith
  | inr (row, found) ↦ let r = closed_state i s.sessions row c found in ground arith
]

-- Behind a revocation the session is known as revoked: whatever Redis and the database do at the
-- time of the question, the state that is answered, if one is, is "revoked". For that Redis must have
-- taken the write of the new state, or else the deletion of the old one, at the time of the
-- revocation.
pub revoked-known :
    (i : ℕ) (reason : String) (settings : Settings) (d d' : Draw) (s s1 : Accounts)
    (db_fails : Bool) (x : SessionState) (s' : Accounts)
    → revoke_session i reason settings d s ≡ done tt s1
    → (d.set_fails ≡ false) ⊎ (d.del_fails ≡ false)
    → get_session_state i db_fails settings d' s1 ≡ done x s'
    → x ≡ revoked
unfolding get_session_state known_or_session_state
revoked-known i reason settings d d' s s1 db_fails x s' h redis k =
    elim (revoked-NotActive i reason settings d s s1 h redis d') [
      | inr hit ↦ ground arith
      | inl miss ↦
          known_session i db_fails settings d' s1 x s'
            (revoke-Closed i reason settings d s s1 h).sessions (ground arith)
    ]
