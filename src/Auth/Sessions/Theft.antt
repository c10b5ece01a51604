-- ===== src/Auth/Sessions/Theft.antt =====
-- The second use of a refresh token: `rotateRefreshToken` of
-- src/modules/auth/services/session.service.js.
use mathlib.Core.Path.{subst}
use maghsul_backend.Base.{
  ℕ, ◌-◌, ◌*◌, ◌<◌, ◌≡◌, ◌≢◌, refl, ◌⊎◌, inl, inr, false, some, List, [], ◌∷◌, String, leb, any,
  find, update_where, done, thrown, api_error, arith, Bool-cases, Option-cases, Outcome-cases,
  ApiError,
}
use maghsul_backend.Auth.Sessions.Tables.{
  RefreshToken, Accounts, Settings, Draw, has_hash, is_live_in, is_live_of_family, revoke_token,
  find_token, set_tokens, log_session,
}
use maghsul_backend.Auth.Sessions.Create.{Granted}
use maghsul_backend.Auth.Sessions.Revoke.{revoke_session, revoke_session_family, revoke_writes}
use maghsul_backend.Auth.Sessions.Rotate.{
  Shown, is_unused, read_token, rotate_writes, rotate_shown, rotate_refresh_token, reuse_token,
  reuse_if_used,
}
use maghsul_backend.Auth.Sessions.Steps.{Step, take_steps}
use maghsul_backend.Auth.Sessions.Once.{AreFresh}
use maghsul_backend.Auth.Sessions.Revoked.{
  Read, read_token_done, read_token_complete, Closed, revoke-Closed, closed_for_good,
}

kill_family :
    (f now : ℕ) (reason : String) (ts : List RefreshToken)
    → any (is_live_of_family f) (update_where (is_live_of_family f) (revoke_token now reason) ts)
      ≡ false
kill_family f now reason [] = refl
kill_family f now reason (t ∷ ts) = ground (arith, kill_family f now reason ts)

kept_dead :
    (i f now : ℕ) (reason : String) (ts : List RefreshToken)
    → any (is_live_in i) ts ≡ false
    → any (is_live_in i) (update_where (is_live_of_family f) (revoke_token now reason) ts) ≡ false
kept_dead i f now reason [] h = refl
kept_dead i f now reason (t ∷ ts) h = ground (arith, kept_dead i f now reason ts)

never_thrown :
    (i : ℕ) (reason : String) (settings : Settings) (d : Draw) (s : Accounts) (e : ApiError)
    (s' : Accounts)
    → revoke_session i reason settings d s ≢ thrown e s'
unfolding revoke_session revoke_writes
never_thrown i reason settings d s e s' h = ground arith

-- The alert that a second use of a token behind the window raises.
pub record Alerted (shown : Shown) (s' : Accounts) : Type 0 where
  pub closed : Closed shown.token.session_id s'
  pub family : any (is_live_of_family shown.token.family_id) s'.tokens ≡ false

reuse_alert :
    (shown : Shown) (at : ℕ) (settings : Settings) (d : Draw) (s s' : Accounts)
    → reuse_token shown at settings d s ≡ thrown (api_error 403 "SECURITY_ALERT") s'
    → (settings.concurrency_window_seconds * 1000 < d.now - at) × Alerted shown s'
unfolding reuse_token revoke_session_family
reuse_alert shown at settings d s s' h =
    elim (Bool-cases (leb (d.now - at) (settings.concurrency_window_seconds * 1000))) [
      | inl soon ↦ absurd (ground arith)
      | inr late ↦
          elim (Outcome-cases
            (revoke_session shown.token.session_id "security_reuse" settings d s)) [
              | inr (e, s1, w) ↦
                  absurd (never_thrown shown.token.session_id "security_reuse" settings d s e s1 w)
              | inl (u, s1, w) ↦
                  let c = revoke-Closed shown.token.session_id "security_reuse" settings d s s1 w in
                  let rows : s'.sessions ≡ s1.sessions = ground arith in
                  let tokens : s'.tokens
                      ≡ update_where (is_live_of_family shown.token.family_id)
                          (revoke_token d.now "security_reuse") s1.tokens =
                    ground arith in
                  (
                    ground arith,
                    record {
                      closed = record {
                        sessions = rw rows c.sessions;
                        tokens = rw tokens (
                            kept_dead shown.token.session_id shown.token.family_id d.now
                              "security_reuse" s1.tokens c.tokens);
                      };
                      family =
                          rw tokens
                            (kill_family shown.token.family_id d.now "security_reuse" s1.tokens);
                    },
                  )
            ]
    ]

writes_error :
    (hash : ℕ → ℕ) (shown : Shown) (settings : Settings) (d : Draw) (s : Accounts) (e : ApiError)
    (s' : Accounts)
    → rotate_writes hash shown settings d s ≡ thrown e s'
    → e ≡ api_error 409 "CONCURRENT_REFRESH"
unfolding rotate_writes
writes_error hash shown settings d s e s' h = ground arith

shown_alert :
    (hash : ℕ → ℕ) (shown : Shown) (settings : Settings) (d : Draw) (s s' : Accounts)
    → rotate_shown hash shown settings d s ≡ thrown (api_error 403 "SECURITY_ALERT") s'
    → (fresh : RefreshToken) × (at : ℕ) × (find_token shown.token.id s ≡ some fresh)
      × (fresh.used_at ≡ some at)
      × (is_unused shown.token ≡ false)
      × (settings.concurrency_window_seconds * 1000 < d.now - at)
      × Alerted shown s'
unfolding rotate_shown reuse_if_used
shown_alert hash shown settings d s s' h = elim (Bool-cases (is_unused shown.token)) [
  | inl unused ↦ elim (Outcome-cases (rotate_writes hash shown settings d s)) [
    | inl (g, s1, w) ↦ absurd (ground arith)
    | inr (e, s1, w) ↦ absurd (ground (arith, writes_error hash shown settings d s e s1 w))
  ]
  | inr before ↦ elim (Option-cases (find_token shown.token.id s)) [
    | inl missing ↦ absurd (ground arith)
    | inr (fresh, found) ↦ elim (Option-cases fresh.used_at) [
      | inl never ↦ absurd (ground arith)
      | inr (at, used) ↦
          let (late, alert) = reuse_alert shown at settings d s s' (ground arith) in
          (fresh, at, found, used, before, late, alert)
    ]
  ]
]

read_error :
    (hash : ℕ → ℕ) (raw now : ℕ) (s : Accounts) (e : ApiError) (s' : Accounts)
    → read_token hash raw now s ≡ thrown e s'
    → e.status ≡ 401
unfolding read_token
read_error hash raw now s e s' h = ground arith

-- The token shows a live session, it was used or revoked before it was shown, and its row was used
-- longer ago than the window of concurrent requests.
pub record Stolen (hash : ℕ → ℕ) (raw : ℕ) (settings : Settings) (d : Draw) (s : Accounts)
    (shown : Shown) : Type 0 where
  pub read : Read hash raw d.now s shown
  pub before : is_unused shown.token ≡ false
  pub fresh : RefreshToken
  pub found : find_token shown.token.id s ≡ some fresh
  pub at : ℕ
  pub used : fresh.used_at ≡ some at
  pub late : settings.concurrency_window_seconds * 1000 < d.now - at

raised_Stolen :
    (hash : ℕ → ℕ) (raw : ℕ) (settings : Settings) (d : Draw) (s s' : Accounts)
    → rotate_refresh_token hash raw settings d s ≡ thrown (api_error 403 "SECURITY_ALERT") s'
    → (shown : Shown) × Stolen hash raw settings d s shown × Alerted shown s'
unfolding rotate_refresh_token
raised_Stolen hash raw settings d s s' h = elim (Outcome-cases (read_token hash raw d.now s)) [
  | inr (e, s1, w) ↦ let code = read_error hash raw d.now s e s1 w in absurd (ground arith)
  | inl (shown, s1, w) ↦
      let (r, same) = read_token_done hash raw d.now s shown s1 w in
      let (fresh, at, found, used, before, late, a) =
        shown_alert hash shown settings d s s' (ground arith) in
      (
        shown,
        record {
          read = r;
          before = before;
          fresh = fresh;
          found = found;
          at = at;
          used = used;
          late = late;
        },
        a,
      )
]

late_raised :
    (shown : Shown) (at : ℕ) (settings : Settings) (d : Draw) (s : Accounts)
    → settings.concurrency_window_seconds * 1000 < d.now - at
    → (s' : Accounts) × (reuse_token shown at settings d s
        ≡ thrown (api_error 403 "SECURITY_ALERT") s')
unfolding reuse_token revoke_session_family
late_raised shown at settings d s late =
    let out : leb (d.now - at) (settings.concurrency_window_seconds * 1000) ≡ false =
      ground arith in
    elim (Outcome-cases (revoke_session shown.token.session_id "security_reuse" settings d s)) [
      | inr (e, s1, w) ↦
          absurd (never_thrown shown.token.session_id "security_reuse" settings d s e s1 w)
      | inl (u, s1, w) ↦
          let s2 =
            set_tokens (is_live_of_family shown.token.family_id)
              (revoke_token d.now "security_reuse") s1 in
          (log_session shown.token.session_id "refresh_token_reuse" s2, ground arith)
    ]

raised_by :
    (hash : ℕ → ℕ) (raw : ℕ) (settings : Settings) (d : Draw) (s : Accounts) (shown : Shown)
    (fresh : RefreshToken) (at : ℕ) (s' : Accounts)
    → read_token hash raw d.now s ≡ done shown s
    → is_unused shown.token ≡ false
    → find_token shown.token.id s ≡ some fresh
    → fresh.used_at ≡ some at
    → reuse_token shown at settings d s ≡ thrown (api_error 403 "SECURITY_ALERT") s'
    → rotate_refresh_token hash raw settings d s ≡ thrown (api_error 403 "SECURITY_ALERT") s'
unfolding rotate_refresh_token rotate_shown reuse_if_used
raised_by hash raw settings d s shown fresh at s' shows before found used raised = ground arith

Stolen-raises :
    (hash : ℕ → ℕ) (raw : ℕ) (settings : Settings) (d : Draw) (s : Accounts) (shown : Shown)
    → Stolen hash raw settings d s shown
    → (s' : Accounts) × (rotate_refresh_token hash raw settings d s
        ≡ thrown (api_error 403 "SECURITY_ALERT") s')
Stolen-raises hash raw settings d s shown k =
    let (s', raised) = late_raised shown k.at settings d s k.late in
    let shows = read_token_complete hash raw d.now s shown k.read in
    (s', raised_by hash raw settings d s shown k.fresh k.at s' shows k.before k.found k.used raised)

-- Whether a token is stolen is decided by what the table holds.
Shown-cases :
    (hash : ℕ → ℕ) (raw : ℕ) (settings : Settings) (d : Draw) (s : Accounts) (shown : Shown)
    → Read hash raw d.now s shown
    → Stolen hash raw settings d s shown ⊎ (¬ Stolen hash raw settings d s shown)
Shown-cases hash raw settings d s shown r = elim (Bool-cases (is_unused shown.token)) [
  | inl unused ↦ inr (λ k. let b = k.before in absurd (ground arith))
  | inr before ↦ elim (Option-cases (find_token shown.token.id s)) [
    | inl missing ↦ inr (λ k. let b = k.found in absurd (ground arith))
    | inr (fresh, found) ↦ elim (Option-cases fresh.used_at) [
      | inl never ↦ inr (λ k. let b = k.found in let c = k.used in absurd (ground arith))
      | inr (at, used) ↦
          elim (Bool-cases (leb (d.now - at) (settings.concurrency_window_seconds * 1000))) [
            | inl soon ↦ inr (λ k.
                let b = k.found in
                let c = k.used in
                let same : k.at ≡ at = ground arith in
                let late = rw same at k.late in absurd (ground arith))
            | inr late ↦ inl (record {
              read = r;
              before = before;
              fresh = fresh;
              found = found;
              at = at;
              used = used;
              late = ground arith;
            })
          ]
    ]
  ]
]

Stolen-cases :
    (hash : ℕ → ℕ) (raw : ℕ) (settings : Settings) (d : Draw) (s : Accounts)
    → ((shown : Shown) × Stolen hash raw settings d s shown)
      ⊎ (¬ ((shown : Shown) × Stolen hash raw settings d s shown))
Stolen-cases hash raw settings d s = elim (Outcome-cases (read_token hash raw d.now s)) [
  | inr (e, s1, w) ↦
      inr (λ k. let r = read_token_complete hash raw d.now s k.0 k.1.read in absurd (ground arith))
  | inl (shown, s1, w) ↦
      elim (Shown-cases hash raw settings d s shown
        (read_token_done hash raw d.now s shown s1 w).0) [
          | inl stolen ↦ inl (shown, stolen)
          | inr fair ↦ inr (λ k.
              let r = read_token_complete hash raw d.now s k.0 k.1.read in
              let same : k.0 ≡ shown = ground arith in
              fair (subst (λ x. Stolen hash raw settings d s x) same k.1))
        ]
]

-- The alert of a rotation is raised exactly when the token is stolen: it shows a live session, it was
-- used or revoked when it was shown, and its row was used longer ago than the window of concurrent
-- requests. Behind the alert the session and all its tokens are revoked, with the whole family of the
-- token. Otherwise no alert is raised.
pub rotate_alert :
    (hash : ℕ → ℕ) (raw : ℕ) (settings : Settings) (d : Draw) (s : Accounts)
    → ((s' : Accounts) × (shown : Shown) × (rotate_refresh_token hash raw settings d s
          ≡ thrown (api_error 403 "SECURITY_ALERT") s')
        × Stolen hash raw settings d s shown
        × Alerted shown s')
      ⊎ ((¬ (
            (s' : Accounts) × (rotate_refresh_token hash raw settings d s
              ≡ thrown (api_error 403 "SECURITY_ALERT") s')))
          × (¬ ((shown : Shown) × Stolen hash raw settings d s shown)))
rotate_alert hash raw settings d s = elim (Stolen-cases hash raw settings d s) [
  | inl (shown, k) ↦
      let (s', h) = Stolen-raises hash raw settings d s shown k in
      let (shown', stolen, alert) = raised_Stolen hash raw settings d s s' h in
      inl (s', shown', h, stolen, alert)
  | inr fair ↦ inr (
    λ k.
        let (shown, stolen, alert) = raised_Stolen hash raw settings d s k.0 k.1 in
        fair (shown, stolen),
    fair,
  )
]

-- Behind an alert, whatever calls come, in any order, no refresh token at all, be it the stolen one or
-- its successors, gives an access token of the session again. The identifiers of later tokens and
-- sessions are other ones.
pub alerted_for_good :
    (hash : ℕ → ℕ) (raw raw' t : ℕ) (settings : Settings) (d d' : Draw) (ms : List (Step × Draw))
    (s s1 : Accounts) (token : RefreshToken) (g : Granted) (s' : Accounts)
    → find (has_hash (hash raw)) s.tokens ≡ some token
    → rotate_refresh_token hash raw settings d s ≡ thrown (api_error 403 "SECURITY_ALERT") s1
    → AreFresh t token.session_id ms
    → rotate_refresh_token hash raw' settings d' (take_steps hash settings ms s1) ≡ done (some g) s'
    → g.session.id ≢ token.session_id
alerted_for_good hash raw raw' t settings d d' ms s s1 token g s' found h new k =
    let (shown, stolen, alert) = raised_Stolen hash raw settings d s s1 h in
    let r = stolen.read in
    let first = r.token in
    let same : shown.token ≡ token = cc in
    closed_for_good token.session_id t hash raw' settings d' ms s1 g s'
      (rw (← same) alert.closed.sessions) new k
