-- ===== src/Auth/Sessions/Steps.antt =====
-- The calls of src/modules/auth/services/session.service.js in any order, also between the first query
-- of a rotation and its transaction.
use maghsul_backend.Base.{ℕ, Bool, Option, List, [], ◌∷◌, String, final_state}
use maghsul_backend.Auth.Sessions.Tables.{Accounts, Settings, Draw, Context}
use maghsul_backend.Auth.Sessions.Create.{
  create_provisional_session, create_operational_session, create_replacement_session,
}
use maghsul_backend.Auth.Sessions.Revoke.{revoke_session, revoke_session_family, logout_session}
use maghsul_backend.Auth.Sessions.Rotate.{Shown, rotate_shown, rotate_refresh_token}
use maghsul_backend.Auth.Sessions.State.{get_session_state}

-- The steps of the service; `rotate_read` is a rotation whose first query was answered before.
pub data Step : Type 0 where
  open_provisional : ℕ → Context → Option ℕ → Step
  open_operational : ℕ → Context → Option ℕ → Step
  replace : Bool → ℕ → Context → Option ℕ → Step
  rotate : ℕ → Step
  rotate_read : Shown → Step
  revoke : ℕ → String → Step
  revoke_family : ℕ → String → Step
  logout : ℕ → Step
  ask_state : ℕ → Bool → Step

unfoldable pub take_step : (ℕ → ℕ) → Settings → Step → Draw → Accounts → Accounts
take_step hash settings (open_provisional identity context device) d s =
    final_state (create_provisional_session identity context device settings d s)
take_step hash settings (open_operational identity context device) d s =
    final_state (create_operational_session hash identity context device settings d s)
take_step hash settings (replace external i context device) d s =
    final_state (create_replacement_session hash external i context device settings d s)
take_step hash settings (rotate raw) d s = final_state (rotate_refresh_token hash raw settings d s)
take_step hash settings (rotate_read shown) d s = final_state (rotate_shown hash shown settings d s)
take_step hash settings (revoke i reason) d s = final_state (revoke_session i reason settings d s)
take_step hash settings (revoke_family f reason) d s =
    final_state (revoke_session_family f reason d.now s)
take_step hash settings (logout i) d s = final_state (logout_session i settings d s)
take_step hash settings (ask_state i db_fails) d s =
    final_state (get_session_state i db_fails settings d s)

unfoldable pub take_steps : (ℕ → ℕ) → Settings → List (Step × Draw) → Accounts → Accounts
take_steps hash settings [] s = s
take_steps hash settings ((m, d) ∷ ms) s =
    take_steps hash settings ms (take_step hash settings m d s)
