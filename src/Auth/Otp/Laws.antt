-- ===== src/Auth/Otp/Laws.antt =====
-- What a verification of src/modules/auth/services/otp.service.js asks for and leaves.
use mathlib.Core.Path.{subst}
use maghsul_backend.Base.{
  ℕ, ◌+◌, ◌≤◌, ◌<◌, ◌≡◌, ◌≢◌, ◌⊎◌, refl, sym, ◌∙◌, inl, inr, Bool, true, Option, none, some, List,
  [], ◌∷◌, ◌==◌, ==_refl_of, ltb, update_where, All, done, arith, Bool-cases, Option-cases,
  true≢false,
}
use maghsul_backend.Auth.Digits.{
  Text, is_empty, trim, trim_start, trim_end, to_western_digits, western_digit, text_eq,
}
use maghsul_backend.Auth.Otp.{
  OtpCode, Otps, OtpSettings, Scope, is_unverified_in, latest, set_code, is_bypass, mark_verified,
  reject_code, check_code, normalised, verify_otp,
}

-- The row that the query finds passes the test, and has what all rows have.
pub latest_sound :
    (P : OtpCode → Type 0) (p : OtpCode → Bool) (xs : List OtpCode) (c : OtpCode)
    → All P xs
    → latest p xs ≡ some c
    → P c × (p c ≡ true)
unfolding latest
latest_sound P p [] c h e = absurd (ground arith)
latest_sound P p (x ∷ xs) c (k, h) e = elim (Bool-cases (p x)) [
  | inr n ↦ latest_sound P p xs c h (rw n at e)
  | inl t ↦ elim (Option-cases (latest p xs)) [
    | inl nothing ↦
        let row : some x ≡ some c = rw (t, nothing) at e in
        let row' : x ≡ c = cc in (subst P row' k, subst (λ y. p y ≡ true) row' t)
    | inr (y, later) ↦ elim (Bool-cases (ltb y.created_at x.created_at)) [
      | inl newer ↦
          let row : some x ≡ some c = rw (t, later, newer) at e in
          let row' : x ≡ c = cc in (subst P row' k, subst (λ y. p y ≡ true) row' t)
      | inr older ↦
          let row : some y ≡ some c = rw (t, later, older) at e in
          let row' : y ≡ c = cc in
          let (py, ty) = latest_sound P p xs y h later in
          (subst P row' py, subst (λ y. p y ≡ true) row' ty)
    ]
  ]
]

-- A code that is used up: no query for an unverified code finds it again.
abbrev pub IsUsed : ℕ → Otps → Type 0
IsUsed i s =
    (scope : Scope) (c : OtpCode) → latest (is_unverified_in scope) s.codes ≡ some c → c.id ≢ i

use_up :
    (i : ℕ) (xs : List OtpCode)
    → All
        (λ c. c.id ≡ i → c.verified ≡ true)
        (update_where
          (λ c. c.id == i)
          (λ c. record c { verified = true; attempts = c.attempts + 1 })
          xs)
use_up i [] = tt
use_up i (x ∷ xs) = elim (Bool-cases (x.id == i)) [
  | inl t ↦ rw t (λ e. refl, use_up i xs)
  | inr n ↦ rw n (λ e. absurd (true≢false (sym (==_refl_of e) ∙ n)), use_up i xs)
]

module _ (hash : Text → ℕ) (scope : Scope) where
  -- What the steps behind the development codes ask for.
  pub check_code_done :
      (raw : Text) (now : ℕ) (s s' : Otps)
      → check_code hash scope raw now s ≡ done tt s'
      → (otp : OtpCode) × (latest (is_unverified_in scope) s.codes ≡ some otp)
        × (now ≤ otp.expires_at)
        × (otp.attempts < otp.max_attempts)
        × (hash raw ≡ otp.code_hash)
        × IsUsed otp.id s'
  unfolding check_code reject_code
  check_code_done raw now s s' h = elim (Option-cases (latest (is_unverified_in scope) s.codes)) [
    | inl missing ↦ absurd (ground arith)
    | inr (otp, found) ↦
        let last : s'
            ≡ set_code otp.id (λ c. record c { verified = true; attempts = c.attempts + 1 }) s =
          ground arith in
        (
          otp,
          found,
          ground arith,
          ground arith,
          ground arith,
          λ scope' c query.
              let (used, unverified) =
                latest_sound (λ c. c.id ≡ otp.id → c.verified ≡ true) (is_unverified_in scope')
                  s'.codes c
                  (subst (λ s. All (λ c. c.id ≡ otp.id → c.verified ≡ true) s.codes) (sym last)
                    (use_up otp.id s.codes))
                  query in
              λ same. let v = used same in absurd (ground arith),
        )
  ]

  -- A verification that returns was given a code. Either the code is one of the development codes,
  -- or it is the code of the latest unverified row for the phone, the purpose and the application:
  -- the row has not expired, has attempts left and has the code's hash, and it is used up: no
  -- further verification finds it.
  pub verify_otp_done :
      (settings : OtpSettings) (entered : Option Text) (now : ℕ) (s s' : Otps)
      → verify_otp hash scope settings entered now s ≡ done tt s'
      → (code : Text) × (entered ≡ some code)
        × ((is_bypass hash settings (normalised hash code) ≡ true)
            ⊎ ((otp : OtpCode) × (latest (is_unverified_in scope) s.codes ≡ some otp)
                × (now ≤ otp.expires_at)
                × (otp.attempts < otp.max_attempts)
                × (hash (normalised hash code) ≡ otp.code_hash)
                × IsUsed otp.id s'))
  unfolding verify_otp
  verify_otp_done settings none now s s' h = absurd (ground arith)
  verify_otp_done settings (some code) now s s' h = elim (Bool-cases (is_empty code)) [
    | inl empty ↦ absurd (ground arith)
    | inr text ↦ elim (Bool-cases (is_bypass hash settings (normalised hash code))) [
      | inl b ↦ (code, refl, inl b)
      | inr n ↦
          (code, refl, inr (check_code_done (normalised hash code) now s s' (rw (text, n) at h)))
    ]
  ]

  -- The development code 4261 is accepted for every phone, whatever the settings and the tables are
  -- and whether a code was sent or not.
  pub verify_otp_open :
      (settings : OtpSettings) (now : ℕ) (s : Otps)
      → (s' : Otps) × (verify_otp hash scope settings (some (52 ∷ 50 ∷ 54 ∷ 49 ∷ [])) now s
          ≡ done tt s')
  unfolding verify_otp is_bypass trim trim_start trim_end to_western_digits western_digit text_eq
  verify_otp_open settings now s =
      (mark_verified hash (latest (is_unverified_in scope) s.codes) s, refl)
