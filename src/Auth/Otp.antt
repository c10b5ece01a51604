-- ===== src/Auth/Otp.antt =====
-- src/modules/auth/services/otp.service.js: one-time codes. Times are milliseconds. The hash of a
-- code is that of a library: a function here. The random code, the settings of the environment and
-- whether a provider of text messages is there are arguments.
pub mod Laws
pub mod Attempts
pub mod RoundTrip
use maghsul_backend.Base.{
  ℕ, ◌+◌, ◌*◌, Bool, true, false, not, ◌||◌, ◌&&◌, Option, none, some, List, [], ◌∷◌, ◌++◌, ◌==◌,
  ltb, leb, if◌then◌else◌, opt_eq, any, update_where, Outcome, throw, found_or, ◌>>=◌, ◌>>◌,
  require, get, modify, pure,
}
use maghsul_backend.Auth.Digits.{Text, is_empty, trim, to_western_digits, text_eq}

pub record OtpCode : Type 0 where
  pub id : ℕ
  pub phone : ℕ
  pub purpose : ℕ
  pub app_client_id : Option ℕ
  pub code_hash : ℕ
  pub expires_at : ℕ
  pub attempts : ℕ
  pub max_attempts : ℕ
  pub verified : Bool
  pub created_at : ℕ

-- The table, the audit log's entries for codes, and the messages that were sent.
pub record Otps : Type 0 where
  pub codes : List OtpCode
  pub audits : List ℕ
  pub messages : List (ℕ × Text)

-- The settings, in milliseconds. `default_otp` is the text of DEFAULT_OTP, if it is set.
pub record OtpSettings : Type 0 where
  pub resend_cooldown : ℕ
  pub send_window : ℕ
  pub ttl : ℕ
  pub max_attempts : ℕ
  pub default_otp : Option Text

-- Whom a code is for.
pub record Scope : Type 0 where
  pub phone : ℕ
  pub purpose : ℕ
  pub app_client_id : Option ℕ

abbrev pub is_in : Scope → OtpCode → Bool
is_in scope c =
    c.phone == scope.phone
    && c.purpose == scope.purpose
    && opt_eq c.app_client_id scope.app_client_id

abbrev pub is_unverified_in : Scope → OtpCode → Bool
is_unverified_in scope c = is_in scope c && not c.verified

-- `orderBy: { createdAt: 'desc' }`, the first; of two of one time the one that was written later.
unfoldable pub latest : (OtpCode → Bool) → List OtpCode → Option OtpCode
latest p [] = none
latest p (x ∷ xs) =
    let rest = latest p xs in
    if p x
    then (elim rest [
      | none ↦ some x
      | some y ↦ if ltb y.created_at x.created_at then some x else some y
    ])
    else rest

abbrev pub is_recent : Scope → ℕ → ℕ → OtpCode → Bool
is_recent scope window now c = is_in scope c && leb now (c.created_at + window)

abbrev pub cools_down : Option OtpCode → ℕ → ℕ → Bool
cools_down none now cooldown = false
cools_down (some c) now cooldown = ltb now (c.created_at + cooldown)

abbrev pub expire_old : Scope → ℕ → Otps → Otps
expire_old scope now s = record s {
  codes = update_where (is_unverified_in scope) (λ c. record c { expires_at = now }) s.codes;
}

abbrev pub set_code : ℕ → (OtpCode → OtpCode) → Otps → Otps
set_code i f s = record s { codes = update_where (λ c. c.id == i) f s.codes }

module _ (hash : Text → ℕ) where
  abbrev pub new_code : Scope → OtpSettings → Text → ℕ → ℕ → OtpCode
  new_code scope settings code id now = record {
    id = id;
    phone = scope.phone;
    purpose = scope.purpose;
    app_client_id = scope.app_client_id;
    code_hash = hash code;
    expires_at = now + settings.ttl;
    attempts = 0;
    max_attempts = settings.max_attempts;
    verified = false;
    created_at = now;
  }

  -- `sendOtp`. The limit of codes for a window stands in a comment of the source: it is not checked.
  unfoldable pub send_otp :
      Scope → OtpSettings → Text → Bool → ℕ → ℕ → Otps → Outcome Otps (Unit {0})
  send_otp scope settings code has_provider id now = do
    s ← get
    require
        (not (
          cools_down (latest (is_recent scope settings.send_window now) s.codes) now
            settings.resend_cooldown))
        429 "OTP_RESEND_COOLDOWN"
    modify (expire_old scope now)
    modify (λ s. record s { codes = s.codes ++ new_code scope settings code id now ∷ [] })
    require has_provider 500 "Real SMS provider not configured."
    modify (λ s. record s { messages = s.messages ++ (scope.phone, code) ∷ [] })

  abbrev pub default_bypass_codes : List Text
  default_bypass_codes = (52 ∷ 50 ∷ 54 ∷ 49 ∷ []) ∷ (52 ∷ 50 ∷ 54 ∷ 50 ∷ []) ∷ []

  abbrev pub is_env_bypass : Option Text → Text → Bool
  is_env_bypass none raw = false
  is_env_bypass (some t) raw = not (is_empty t) && not (is_empty (trim t)) && text_eq raw (trim t)

  unfoldable pub is_bypass : OtpSettings → Text → Bool
  is_bypass settings raw =
      any (λ t. text_eq t raw) default_bypass_codes || is_env_bypass settings.default_otp raw

  abbrev pub mark_verified : Option OtpCode → Otps → Otps
  mark_verified none s = s
  mark_verified (some c) s = set_code c.id (λ c. record c { verified = true }) s

  abbrev pub count_attempt : OtpCode → OtpCode
  count_attempt c = record c { attempts = c.attempts + 1 }

  -- A wrong code: the attempt is counted; the last one ends the code.
  unfoldable pub reject_code : OtpCode → ℕ → Otps → Outcome Otps (Unit {0})
  reject_code otp now s =
      let s1 = set_code otp.id count_attempt s in
      if leb otp.max_attempts (otp.attempts + 1)
      then throw 400 "OTP_MAX_ATTEMPTS"
          (record (set_code otp.id (λ c. record c { expires_at = now }) s1) {
            audits = s1.audits ++ otp.id ∷ [];
          })
      else throw 400 "OTP_INVALID" s1

  -- The steps behind the development codes, for the code as it was normalised.
  unfoldable pub check_code : Scope → Text → ℕ → Otps → Outcome Otps (Unit {0})
  check_code scope raw now = do
    s ← get
    otp ← found_or (latest (is_unverified_in scope) s.codes) 400 "OTP_NOT_FOUND"
    require (not (ltb otp.expires_at now)) 400 "OTP_EXPIRED"
    require (not (leb otp.max_attempts otp.attempts)) 400 "OTP_MAX_ATTEMPTS"
    (if hash raw == otp.code_hash
        then modify (set_code otp.id (λ c. record c { verified = true; attempts = c.attempts + 1 }))
        else reject_code otp now)

  abbrev pub normalised : Text → Text
  normalised code = to_western_digits (trim code)

  abbrev pub is_missing : Option Text → Bool
  is_missing none = true
  is_missing (some code) = is_empty code

  -- `verifyOtp`
  unfoldable pub verify_otp : Scope → OtpSettings → Option Text → ℕ → Otps → Outcome Otps (Unit {0})
  verify_otp scope settings none now s = throw 400 "OTP_REQUIRED" s
  verify_otp scope settings (some code) now s =
      if is_empty code
      then throw 400 "OTP_REQUIRED" s
      else if is_bypass settings (normalised code)
      then pure tt (mark_verified (latest (is_unverified_in scope) s.codes) s)
      else check_code scope (normalised code) now s
