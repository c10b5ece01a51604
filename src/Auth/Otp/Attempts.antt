-- ===== src/Auth/Otp/Attempts.antt =====
-- The attempts of a code (src/modules/auth/services/otp.service.js).
use maghsul_backend.Base.{
  ℕ, ◌+◌, ◌≤◌, ◌≡◌, sym, ◌∙◌, inl, inr, Bool, true, Option, none, some, List, ◌==◌, ==_iff, leb,
  update_where, find, All, All-zip, All-update_where, All-update_where_on, final_state, arith,
  Bool-cases, Option-cases, ltb,
}
use mathlib.Core.Path.{subst}
use maghsul_backend.Auth.Digits.{Text, is_empty}
use maghsul_backend.Auth.Otp.{
  OtpCode, Otps, OtpSettings, Scope, is_unverified_in, latest, is_bypass, count_attempt,
  reject_code, check_code, normalised, verify_otp,
}
use maghsul_backend.Auth.Otp.Laws.{latest_sound}

abbrev pub IsBounded : OtpCode → Type 0
IsBounded c = c.attempts ≤ c.max_attempts

-- A code is found under its key.
abbrev pub has_code_id : ℕ → OtpCode → Bool
has_code_id i c = c.id == i

abbrev pub IsKeyed : List OtpCode → Type 0
IsKeyed codes = All (λ c. find (has_code_id c.id) codes ≡ some c) codes

-- A write of the row of a code that has attempts left.
module _ (codes : List OtpCode) (otp : OtpCode) (keyed : IsKeyed codes)
    (bounded : All IsBounded codes) (own : find (has_code_id otp.id) codes ≡ some otp) where
  write-IsBounded :
      (f : OtpCode → OtpCode)
      → IsBounded (f otp)
      → All IsBounded (update_where (λ c. c.id == otp.id) f codes)
  write-IsBounded f k =
      All-update_where_on (λ c. IsBounded c × (find (has_code_id c.id) codes ≡ some c)) IsBounded
        (λ c. c.id == otp.id) f
        (λ c both. elim (Bool-cases (c.id == otp.id)) [
          | inr n ↦ rw n (both.0)
          | inl t ↦
              let found : find (has_code_id otp.id) codes ≡ some c =
                subst (λ i. find (has_code_id i) codes ≡ some c) ((==_iff c.id otp.id).0 t)
                  (both.1) in
              let row : some c ≡ some otp = sym found ∙ own in
              let row' : otp ≡ c = cc in rw t (subst (λ x. IsBounded (f x)) row' k)
        ])
        codes (All-zip IsBounded (λ c. find (has_code_id c.id) codes ≡ some c) codes bounded keyed)

module _ (hash : Text → ℕ) (scope : Scope) where
  check_code-IsBounded :
      (raw : Text) (now : ℕ) (s : Otps)
      → IsKeyed s.codes
      → All IsBounded s.codes
      → All IsBounded (final_state (check_code hash scope raw now s)).codes
  unfolding check_code reject_code
  check_code-IsBounded raw now s keyed bounded =
      elim (Option-cases (latest (is_unverified_in scope) s.codes)) [
        | inl missing ↦ rw missing bounded
        | inr (otp, found) ↦
            let (own, unverified) =
              latest_sound (λ c. find (has_code_id c.id) s.codes ≡ some c) (is_unverified_in scope)
                s.codes otp keyed found in
            elim (Bool-cases (ltb otp.expires_at now)) [
              | inl expired ↦ rw (found, expired) bounded
              | inr alive ↦ elim (Bool-cases (leb otp.max_attempts otp.attempts)) [
                | inl over ↦ rw (found, alive, over) bounded
                | inr left ↦
                    let more : otp.attempts + 1 ≤ otp.max_attempts = ground arith in
                    elim (Bool-cases (hash raw == otp.code_hash)) [
                      | inl right ↦
                          rw (found, alive, left, right)
                            (write-IsBounded s.codes otp keyed bounded own
                              (λ c. record c { verified = true; attempts = c.attempts + 1 }) more)
                      | inr wrong ↦
                          let counted =
                            write-IsBounded s.codes otp keyed bounded own (count_attempt hash)
                              more in
                          elim (Bool-cases (leb otp.max_attempts (otp.attempts + 1))) [
                            | inr again ↦ rw (found, alive, left, wrong, again) counted
                            | inl last ↦
                                rw (found, alive, left, wrong, last)
                                  (All-update_where IsBounded (λ c. c.id == otp.id)
                                    (λ c. record c { expires_at = now }) (λ c k. k)
                                    (update_where (λ c. c.id == otp.id) (count_attempt hash)
                                      s.codes)
                                    counted)
                          ]
                    ]
              ]
            ]
      ]

  -- No verification, whatever is entered, counts more attempts for a code than it allows.
  pub verify_otp-IsBounded :
      (settings : OtpSettings) (entered : Option Text) (now : ℕ) (s : Otps)
      → IsKeyed s.codes
      → All IsBounded s.codes
      → All IsBounded (final_state (verify_otp hash scope settings entered now s)).codes
  unfolding verify_otp
  verify_otp-IsBounded settings none now s keyed bounded = bounded
  verify_otp-IsBounded settings (some code) now s keyed bounded =
      elim (Bool-cases (is_empty code)) [
        | inl empty ↦ rw empty bounded
        | inr text ↦ elim (Bool-cases (is_bypass hash settings (normalised hash code))) [
          | inr n ↦ rw (text, n) (check_code-IsBounded (normalised hash code) now s keyed bounded)
          | inl b ↦ elim (Option-cases (latest (is_unverified_in scope) s.codes)) [
            | inl nothing ↦ rw (text, b, nothing) bounded
            | inr (c, found) ↦
                rw (text, b, found)
                  (All-update_where IsBounded (λ x. x.id == c.id)
                    (λ x. record x { verified = true }) (λ x k. k) s.codes bounded)
          ]
        ]
      ]
