-- ===== src/Auth/Otp/RoundTrip.antt =====
-- A code that was sent is accepted: src/modules/auth/services/otp.service.js.
use maghsul_backend.Base.{
  ℕ, ◌+◌, ◌≤◌, ◌<◌, ◌≡◌, refl, inl, inr, Bool, true, false, some, List, [], ◌∷◌, ◌++◌, ==_refl, ltb,
  leb, opt_eq_iff, All, All-update_where, done, arith, Bool-cases,
}
use maghsul_backend.Auth.Digits.{Text, is_empty, IsWestern, trim-western, to_western_digits-western}
use maghsul_backend.Auth.Otp.{
  OtpCode, Otps, OtpSettings, Scope, is_unverified_in, set_code, latest, expire_old, new_code,
  send_otp, is_bypass, mark_verified, check_code, normalised, verify_otp,
}

-- The row that was written last, and at the latest time, is the one that the query finds.
latest-append :
    (p : OtpCode → Bool) (xs : List OtpCode) (c : OtpCode)
    → All (λ x. x.created_at ≤ c.created_at) xs
    → p c ≡ true
    → latest p (xs ++ c ∷ []) ≡ some c
unfolding latest
latest-append p [] c h t = ground arith
latest-append p (x ∷ xs) c (k, h) t = ground (arith, latest-append p xs c h t)

module _ (hash : Text → ℕ) (scope : Scope) (settings : OtpSettings) (code : Text)
    (has_provider : Bool) (id now : ℕ) where
  new_is_found : is_unverified_in scope (new_code hash scope settings code id now) ≡ true
  new_is_found = ground (arith, (opt_eq_iff scope.app_client_id scope.app_client_id).1 refl)

  send_otp_codes :
      (s s' : Otps)
      → send_otp hash scope settings code has_provider id now s ≡ done tt s'
      → s'.codes ≡ (expire_old scope now s).codes ++ new_code hash scope settings code id now ∷ []
  unfolding send_otp
  send_otp_codes s s' h = ground arith

  abbrev accepted : Otps → Otps
  accepted s' = set_code id (λ c. record c { verified = true; attempts = c.attempts + 1 }) s'

  fresh_code_passes :
      (now' : ℕ) (s' : Otps)
      → latest (is_unverified_in scope) s'.codes ≡ some (new_code hash scope settings code id now)
      → 0 < settings.max_attempts
      → now' ≤ now + settings.ttl
      → check_code hash scope code now' s' ≡ done tt (accepted s')
  unfolding check_code
  fresh_code_passes now' s' found tries alive =
      let in_time : ltb (now + settings.ttl) now' ≡ false = ground arith in
      let allowed : leb settings.max_attempts 0 ≡ false = ground arith in
      rw (found, in_time, allowed, ==_refl (hash code)) refl

  -- A code of Western digits that was sent is accepted for its phone, purpose and application while
  -- it lives, if the settings allow an attempt and no row of the table is from the future.
  pub send-verify_otp :
      (now' : ℕ) (s s' : Otps)
      → send_otp hash scope settings code has_provider id now s ≡ done tt s'
      → IsWestern code
      → is_empty code ≡ false
      → All (λ c. c.created_at ≤ now) s.codes
      → 0 < settings.max_attempts
      → now' ≤ now + settings.ttl
      → (s'' : Otps) × (verify_otp hash scope settings (some code) now' s' ≡ done tt s'')
  unfolding verify_otp
  send-verify_otp now' s s' h western text past tries alive =
      let rows = send_otp_codes s s' h in
      let found : latest (is_unverified_in scope) s'.codes
          ≡ some (new_code hash scope settings code id now) =
        rw rows (
          latest-append (is_unverified_in scope) (expire_old scope now s).codes
            (new_code hash scope settings code id now)
            (All-update_where (λ c. c.created_at ≤ now) (is_unverified_in scope)
              (λ c. record c { expires_at = now }) (λ c k. k) s.codes past)
            new_is_found) in
      let same : normalised hash code ≡ code =
        rw (trim-western code western) (to_western_digits-western code western) in
      elim (Bool-cases (is_bypass hash settings (normalised hash code))) [
        | inl b ↦
            (mark_verified hash (latest (is_unverified_in scope) s'.codes) s', rw (text, b) refl)
        | inr n ↦ (accepted s', rw (text, n, same) (fresh_code_passes now' s' found tries alive))
      ]
