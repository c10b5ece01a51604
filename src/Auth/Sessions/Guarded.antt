-- ===== src/Auth/Sessions/Guarded.antt =====
-- The access tokens that src/modules/auth/services/session.service.js grants, at the whole guard of
-- src/middlewares/contextGuard.js, over the table of sessions behind the grant.
use maghsul_backend.Base.{ℕ, ◌≡◌, Bool, false, some, List, map, Result, ok}
use maghsul_backend.Auth.Guard.{Claims, context_of, context_guard}
use maghsul_backend.Auth.Sessions.Tables.{SessionRow, Accounts, Draw, find_session}
use maghsul_backend.Auth.Sessions.Create.{Granted}
use maghsul_backend.Auth.Sessions.Claims.{guard_claims, guard_session}

-- A token at the guard over a table of sessions: it is let in as its session.
module _ (g : Granted) (state : ℕ → Result Bool) (now : ℕ) (rows : List SessionRow) where
  abbrev pub Admitted : Type 0
  Admitted =
      context_guard (some (guard_claims g.claims)) state now (map guard_session rows)
      ≡ ok (context_of (guard_session g.session))

-- What every grant leaves in the table.
pub record Stored (d : Draw) (g : Granted) (s' : Accounts) : Type 0 where
  pub found : find_session d.session_id s' ≡ some g.session
  pub named : g.claims.session_id ≡ d.session_id
  pub id : g.session.id ≡ d.session_id
  pub kept : g.session.is_revoked ≡ false
