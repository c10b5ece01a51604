-- ===== src/Auth/Sessions/Revoked.antt =====
-- What a revocation of src/modules/auth/services/session.service.js means for later rotations.
use maghsul_backend.Base.{
  ℕ, ◌<◌, ◌≡◌, ◌≢◌, refl, inl, inr, false, Option, none, some, List, [], ◌∷◌, String, ==_iff, ltb,
  any, find, find_sound, update_where, done, arith, Bool-cases, Option-cases, Outcome-cases,
}
use maghsul_backend.Auth.Sessions.Tables.{
  SessionRow, RefreshToken, Accounts, Settings, Draw, is_open_session, is_live_in, revoke_row,
  revoke_token, find_token, find_session, device_of, has_session, has_hash, cache_session_state,
}
use maghsul_backend.Auth.Sessions.Create.{Granted}
use maghsul_backend.Auth.Sessions.Revoke.{revoke_session, revoke_session_family, revoke_writes}
use maghsul_backend.Auth.Sessions.Rotate.{
  Shown, is_unused, read_token, rotate_writes, rotate_shown, rotate_refresh_token, reuse_token,
  reuse_if_used,
}
use maghsul_backend.Auth.Sessions.Steps.{Step, take_steps}
use maghsul_backend.Auth.Sessions.Once.{AreFresh, take_steps-Stays, rotate_writes_done}

-- What the first query of a rotation has found.
pub record Read (hash : ℕ → ℕ) (raw now : ℕ) (s : Accounts) (shown : Shown) : Type 0 where
  pub token : find (has_hash (hash raw)) s.tokens ≡ some shown.token
  pub session : find_session shown.token.session_id s ≡ some shown.session
  pub open_session : shown.session.is_revoked ≡ false
  pub never_revoked : shown.session.revoked_at ≡ none
  pub alive : ¬ (shown.token.expires_at < now)
  pub device : shown.device ≡ device_of shown.session s

pub read_token_done :
    (hash : ℕ → ℕ) (raw now : ℕ) (s : Accounts) (shown : Shown) (s' : Accounts)
    → read_token hash raw now s ≡ done shown s'
    → Read hash raw now s shown × (s' ≡ s)
unfolding read_token
read_token_done hash raw now s shown s' h =
    elim (Option-cases (find (has_hash (hash raw)) s.tokens)) [
      | inl missing ↦ absurd (ground arith)
      | inr (t, found) ↦ elim (Option-cases (find_session t.session_id s)) [
        | inl missing ↦ absurd (ground arith)
        | inr (row, at) ↦ (
          record {
            token = ground arith;
            session = ground arith;
            open_session = ground arith;
            never_revoked = ground arith;
            alive = ground arith;
            device =
                let e : shown ≡ record { token = t; session = row; device = device_of row s } =
                  ground arith in
                rw e refl;
          },
          ground arith,
        )
      ]
    ]

pub read_token_complete :
    (hash : ℕ → ℕ) (raw now : ℕ) (s : Accounts) (shown : Shown)
    → Read hash raw now s shown
    → read_token hash raw now s ≡ done shown s
unfolding read_token
read_token_complete hash raw now s shown r =
    let alive : ltb shown.token.expires_at now ≡ false = let late = r.alive in ground arith in
    rw (r.token, r.session, r.open_session, r.never_revoked, alive, ← r.device) refl

-- A session without an open row is found by no rotation.
closed_unread :
    (hash : ℕ → ℕ) (raw now : ℕ) (s : Accounts) (shown : Shown) (i : ℕ)
    → any (is_open_session i) s.sessions ≡ false
    → Read hash raw now s shown
    → shown.token.session_id ≢ i
closed_unread hash raw now s shown i closed r e =
    let at : find (has_session i) s.sessions ≡ some shown.session = rw (← e) r.session in
    absurd (closed_row s.sessions closed at)
  where
    closed_row :
        (rows : List SessionRow)
        → any (is_open_session i) rows ≡ false
        → find (has_session i) rows ≢ some shown.session
    closed_row [] c f = ground arith
    closed_row (row ∷ rows) c f = let live = r.open_session in ground (arith, closed_row rows)

reuse_thrown :
    (shown : Shown) (at : ℕ) (settings : Settings) (d : Draw) (s : Accounts) (x : Option Granted)
    (s' : Accounts)
    → reuse_token shown at settings d s ≢ done x s'
unfolding reuse_token revoke_session revoke_session_family
reuse_thrown shown at settings d s x s' h = ground arith

granted_session :
    (hash : ℕ → ℕ) (shown : Shown) (settings : Settings) (d : Draw) (s : Accounts) (g : Granted)
    (s' : Accounts)
    → rotate_shown hash shown settings d s ≡ done (some g) s'
    → g.session ≡ shown.session
unfolding rotate_shown reuse_if_used
granted_session hash shown settings d s g s' h = elim (Bool-cases (is_unused shown.token)) [
  | inl unused ↦ elim (Outcome-cases (rotate_writes hash shown settings d s)) [
    | inl (g', s1, w) ↦
        let (a, b, same) = rotate_writes_done hash shown settings d s g' s1 w in
        let g-is : g ≡ g' = ground arith in rw g-is same
    | inr (e, s1, w) ↦ absurd (ground arith)
  ]
  | inr before ↦ elim (Option-cases (find_token shown.token.id s)) [
    | inl missing ↦ absurd (ground arith)
    | inr (fresh, found) ↦ elim (Option-cases fresh.used_at) [
      | inl never ↦ absurd (ground arith)
      | inr (at, used) ↦ absurd (reuse_thrown shown at settings d s (some g) s' (ground arith))
    ]
  ]
]

rotate_done :
    (hash : ℕ → ℕ) (raw : ℕ) (settings : Settings) (d : Draw) (s : Accounts) (x : Option Granted)
    (s' : Accounts)
    → rotate_refresh_token hash raw settings d s ≡ done x s'
    → (shown : Shown) × Read hash raw d.now s shown
      × (rotate_shown hash shown settings d s ≡ done x s')
unfolding rotate_refresh_token
rotate_done hash raw settings d s x s' h = elim (Outcome-cases (read_token hash raw d.now s)) [
  | inl (shown, s1, w) ↦
      let (r, same) = read_token_done hash raw d.now s shown s1 w in (shown, r, ground arith)
  | inr (e, s1, w) ↦ absurd (ground arith)
]

pub closed_for_good :
    (i t : ℕ) (hash : ℕ → ℕ) (raw : ℕ) (settings : Settings) (d : Draw) (ms : List (Step × Draw))
    (s : Accounts) (g : Granted) (s' : Accounts)
    → any (is_open_session i) s.sessions ≡ false
    → AreFresh t i ms
    → rotate_refresh_token hash raw settings d (take_steps hash settings ms s) ≡ done (some g) s'
    → g.session.id ≢ i
closed_for_good i t hash raw settings d ms s g s' closed fresh h e =
    let after = (take_steps-Stays t i hash settings ms s fresh).closed closed in
    let (shown, r, w) =
      rotate_done hash raw settings d (take_steps hash settings ms s) (some g) s' h in
    let same = granted_session hash shown settings d (take_steps hash settings ms s) g s' w in
    let at = (==_iff shown.session.id shown.token.session_id).0 (
      find_sound (has_session shown.token.session_id) (take_steps hash settings ms s).sessions
        shown.session r.session) in
    closed_unread hash raw d.now (take_steps hash settings ms s) shown i after r cc

pub close_all :
    (i now : ℕ) (reason : String) (rows : List SessionRow)
    → any (is_open_session i) (update_where (is_open_session i) (revoke_row now reason) rows)
      ≡ false
close_all i now reason [] = refl
close_all i now reason (row ∷ rows) = ground (arith, close_all i now reason rows)

pub kill_all :
    (i now : ℕ) (reason : String) (ts : List RefreshToken)
    → any (is_live_in i) (update_where (is_live_in i) (revoke_token now reason) ts) ≡ false
kill_all i now reason [] = refl
kill_all i now reason (t ∷ ts) = ground (arith, kill_all i now reason ts)

-- The rows behind a revocation.
pub record Closed (i : ℕ) (s' : Accounts) : Type 0 where
  pub sessions : any (is_open_session i) s'.sessions ≡ false
  pub tokens : any (is_live_in i) s'.tokens ≡ false

revoke_rows :
    (i : ℕ) (reason : String) (settings : Settings) (d : Draw) (s s' : Accounts)
    → revoke_session i reason settings d s ≡ done tt s'
    → (s'.sessions ≡ update_where (is_open_session i) (revoke_row d.now reason) s.sessions)
      × (s'.tokens ≡ update_where (is_live_in i) (revoke_token d.now "session_revoked") s.tokens)
unfolding revoke_session revoke_writes cache_session_state
revoke_rows i reason settings d s s' h = ground arith

pub revoke-Closed :
    (i : ℕ) (reason : String) (settings : Settings) (d : Draw) (s s' : Accounts)
    → revoke_session i reason settings d s ≡ done tt s'
    → Closed i s'
revoke-Closed i reason settings d s s' h =
    let (rows, tokens) = revoke_rows i reason settings d s s' h in
    record {
      sessions = rw rows (close_all i d.now reason s.sessions);
      tokens = rw tokens (kill_all i d.now "session_revoked" s.tokens);
    }

-- A revoked session is refreshed no more: whatever calls come behind its revocation, in any order, no
-- refresh token at all gives an access token of the session again. The identifiers of later tokens
-- and sessions are other ones.
pub revoked_for_good :
    (i t : ℕ) (reason : String) (hash : ℕ → ℕ) (raw : ℕ) (settings : Settings) (d d' : Draw)
    (ms : List (Step × Draw)) (s s1 : Accounts) (g : Granted) (s' : Accounts)
    → revoke_session i reason settings d s ≡ done tt s1
    → AreFresh t i ms
    → rotate_refresh_token hash raw settings d' (take_steps hash settings ms s1) ≡ done (some g) s'
    → g.session.id ≢ i
revoked_for_good i t reason hash raw settings d d' ms s s1 g s' h fresh k =
    closed_for_good i t hash raw settings d' ms s1 g s'
      (revoke-Closed i reason settings d s s1 h).sessions fresh k
