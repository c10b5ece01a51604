-- ===== src/Auth/Sessions/Once.antt =====
-- A refresh token is rotated once: src/modules/auth/services/session.service.js with its calls in any
-- order, also between the first query of a rotation and its transaction.
use maghsul_backend.Base.{
  ℕ, some, ◌≡◌, ◌≢◌, refl, true, false, List, [], ◌∷◌, ◌++◌, any, update_where, All, done, thrown,
  api_error, arith,
}
use maghsul_backend.Auth.Sessions.Tables.{has_token, RefreshToken, Accounts, Settings, Draw}
use maghsul_backend.Auth.Sessions.Create.{Granted, new_token}
use maghsul_backend.Auth.Sessions.Rotate.{Shown, is_unused_at, use_token, rotate_writes}
use maghsul_backend.Auth.Sessions.Steps.{Step, take_step, take_steps}
use maghsul_backend.Auth.Sessions.Used.{Stays, Stays-IsPreorder, any-append, any-update_where}
use maghsul_backend.Auth.Sessions.Used.Calls.{take_step-Stays}

-- The draws of the steps give other identifiers than the token `i` and the session `j` have.
abbrev pub AreFresh : ℕ → ℕ → List (Step × Draw) → Type 0
AreFresh i j = All (λ x. ((x.1).token_id ≢ i) × ((x.1).session_id ≢ j))

pub take_steps-Stays :
    (i j : ℕ) (hash : ℕ → ℕ) (settings : Settings) (ms : List (Step × Draw)) (s : Accounts)
    → AreFresh i j ms
    → Stays i j s (take_steps hash settings ms s)
unfolding take_steps
take_steps-Stays i j hash settings [] s f = (Stays-IsPreorder i j).same s
take_steps-Stays i j hash settings ((m, d) ∷ ms) s ((n, k), f) =
    (Stays-IsPreorder i j).after s (take_step hash settings m d s) _
      (take_step-Stays i j d n k hash settings m s)
      (take_steps-Stays i j hash settings ms (take_step hash settings m d s) f)

use_all :
    (i now : ℕ) (ts : List RefreshToken)
    → any (is_unused_at i) (update_where (is_unused_at i) (use_token now) ts) ≡ false
use_all i now [] = refl
use_all i now (t ∷ ts) = ground (arith, use_all i now ts)

-- The tokens behind a rotation: the old one is used and names its successor, which is the last row.
abbrev pub rotated_tokens :
    (ℕ → ℕ) → Shown → Settings → Draw → List RefreshToken → List RefreshToken
rotated_tokens hash shown settings d ts =
    update_where (has_token shown.token.id) (λ t. record t { replaced_by_id = some d.token_id })
      (update_where (is_unused_at shown.token.id) (use_token d.now) ts
        ++ new_token hash shown.token.session_id shown.token.family_id (some shown.token.id)
            settings d
          ∷ [])

pub rotate_writes_done :
    (hash : ℕ → ℕ) (shown : Shown) (settings : Settings) (d : Draw) (s : Accounts) (g : Granted)
    (s' : Accounts)
    → rotate_writes hash shown settings d s ≡ done g s'
    → (any (is_unused_at shown.token.id) s.tokens ≡ true)
      × (s' ≡ record s { tokens = rotated_tokens hash shown settings d s.tokens })
      × (g.session ≡ shown.session)
unfolding rotate_writes
rotate_writes_done hash shown settings d s g s' h = ground arith

rotated_is_used :
    (hash : ℕ → ℕ) (shown : Shown) (settings : Settings) (d : Draw) (ts : List RefreshToken)
    → d.token_id ≢ shown.token.id
    → any (is_unused_at shown.token.id) (rotated_tokens hash shown settings d ts) ≡ false
rotated_is_used hash shown settings d ts n =
    let i = shown.token.id in
    any-update_where (is_unused_at i) (has_token i)
      (λ t. record t { replaced_by_id = some d.token_id }) (λ t h. h) _
      (any-append (is_unused_at i) (update_where (is_unused_at i) (use_token d.now) ts) _
        (use_all i d.now ts) (ground arith))

-- A second transaction for the token, by the same request or by another that had read it unused, is
-- refused and writes nothing.
refused_when_used :
    (hash : ℕ → ℕ) (shown : Shown) (settings : Settings) (d : Draw) (s : Accounts)
    → any (is_unused_at shown.token.id) s.tokens ≡ false
    → rotate_writes hash shown settings d s ≡ thrown (api_error 409 "CONCURRENT_REFRESH") s
unfolding rotate_writes
refused_when_used hash shown settings d s h = ground arith

-- A token that was rotated is never rotated again: whatever calls come behind, in any order, the
-- transaction of a further rotation of the token, also of a request that had read it unused before,
-- answers 409 and writes nothing. The identifiers of later tokens and
-- sessions are other ones.
pub rotated_once :
    (hash : ℕ → ℕ) (shown again : Shown) (settings : Settings) (d d' : Draw) (s : Accounts)
    (g : Granted) (s' : Accounts) (ms : List (Step × Draw))
    → rotate_writes hash shown settings d s ≡ done g s'
    → again.token.id ≡ shown.token.id
    → d.token_id ≢ shown.token.id
    → AreFresh shown.token.id shown.session.id ms
    → rotate_writes hash again settings d' (take_steps hash settings ms s')
      ≡ thrown (api_error 409 "CONCURRENT_REFRESH") (take_steps hash settings ms s')
rotated_once hash shown again settings d d' s g s' ms h same n fresh =
    let (unused, last, same_session) = rotate_writes_done hash shown settings d s g s' h in
    let used : any (is_unused_at shown.token.id) s'.tokens ≡ false =
      rw last (rotated_is_used hash shown settings d s.tokens n) in
    refused_when_used hash again settings d' (take_steps hash settings ms s') (
      rw same
        ((take_steps-Stays shown.token.id shown.session.id hash settings ms s' fresh).used used))
