-- ===== src/Tests/Codes.antt =====
-- Runs of the one-time codes, and their theorems at them.
use maghsul_backend.Base.{
  ℕ, ◌+◌, ◌*◌, ◌≤◌, ◌<◌, ◌≡◌, ◌⊎◌, refl, true, false, some, none, [], ◌∷◌, All, arith, length, done,
  thrown, api_error, final_state,
}
use maghsul_backend.Auth.Digits.{
  Text, to_western_digits, to_western_digits_twice, trim, trim_start, trim_end, western_digit,
  text_eq,
}
use maghsul_backend.Auth.Otp.{
  OtpCode, Otps, OtpSettings, Scope, is_unverified_in, latest, send_otp, verify_otp, check_code,
  reject_code, is_bypass, normalised,
}
use maghsul_backend.Auth.Otp.Laws.{IsUsed, verify_otp_done, verify_otp_open}
use maghsul_backend.Auth.Otp.Attempts.{IsBounded, verify_otp-IsBounded}
use maghsul_backend.Auth.Otp.RoundTrip.{send-verify_otp}

-- A hash that tells texts apart by the sum of their code points.
abbrev toy_hash : Text → ℕ
toy_hash [] = 7
toy_hash (c ∷ cs) = toy_hash cs * 31 + c

abbrev scope_one : Scope
scope_one = record { phone = 5; purpose = 1; app_client_id = some 3 }

abbrev settings_one : OtpSettings
settings_one = record {
  resend_cooldown = 60000;
  send_window = 3600000;
  ttl = 300000;
  max_attempts = 3;
  default_otp = none;
}

-- "8035", and the same in Arabic-Indic digits behind a space.
abbrev code_one : Text
code_one = 56 ∷ 48 ∷ 51 ∷ 53 ∷ []

abbrev typed_one : Text
typed_one = 32 ∷ 1640 ∷ 1632 ∷ 1635 ∷ 1637 ∷ []

abbrev nothing_sent : Otps
nothing_sent = record { codes = []; audits = []; messages = [] }

abbrev sent : Otps
sent = final_state (send_otp toy_hash scope_one settings_one code_one true 1 1000 nothing_sent)

sent_runs :
    send_otp toy_hash scope_one settings_one code_one true 1 1000 nothing_sent ≡ done tt sent
unfolding send_otp latest
sent_runs = refl

send-verify_otp_example :
    (s'' : Otps) × (verify_otp toy_hash scope_one settings_one (some code_one) 2000 sent
      ≡ done tt s'')
send-verify_otp_example =
    send-verify_otp toy_hash scope_one settings_one code_one true 1 1000 2000 nothing_sent sent
      sent_runs (refl, (refl, (refl, (refl, tt)))) refl tt (omega arith) (omega arith)

abbrev verified : Otps
verified = final_state (verify_otp toy_hash scope_one settings_one (some typed_one) 2000 sent)

verified_runs :
    verify_otp toy_hash scope_one settings_one (some typed_one) 2000 sent ≡ done tt verified
unfolding send_otp latest verify_otp check_code reject_code is_bypass trim trim_start trim_end
    to_western_digits western_digit text_eq
verified_runs = refl

verify_otp_done_example :
    (code : Text) × (some typed_one ≡ some code)
    × ((is_bypass toy_hash settings_one (normalised toy_hash code) ≡ true)
        ⊎ ((otp : OtpCode) × (latest (is_unverified_in scope_one) sent.codes ≡ some otp)
            × (2000 ≤ otp.expires_at)
            × (otp.attempts < otp.max_attempts)
            × (toy_hash (normalised toy_hash code) ≡ otp.code_hash)
            × IsUsed otp.id verified))
verify_otp_done_example =
    verify_otp_done toy_hash scope_one settings_one (some typed_one) 2000 sent verified
      verified_runs

verify_otp_open_example :
    (s' : Otps) × (verify_otp toy_hash scope_one settings_one
        (some (52 ∷ 50 ∷ 54 ∷ 49 ∷ []))
        2000
        nothing_sent
      ≡ done tt s')
verify_otp_open_example = verify_otp_open toy_hash scope_one settings_one 2000 nothing_sent

abbrev code_row : ℕ → OtpCode
code_row tries = record {
  id = 1;
  phone = 5;
  purpose = 1;
  app_client_id = some 3;
  code_hash = 9;
  expires_at = 301000;
  attempts = tries;
  max_attempts = 3;
  verified = false;
  created_at = 1000;
}

abbrev waiting : Otps
waiting = record { codes = code_row 2 ∷ []; audits = []; messages = [] }

-- The third wrong code is the last one.
third_fails :
    verify_otp toy_hash scope_one settings_one (some code_one) 2000 waiting
    ≡ thrown (api_error 400 "OTP_MAX_ATTEMPTS") (record {
      codes = record (code_row 3) { expires_at = 2000 } ∷ [];
      audits = 1 ∷ [];
      messages = [];
    })
unfolding latest verify_otp check_code reject_code is_bypass trim trim_start trim_end
    to_western_digits western_digit text_eq
third_fails = refl

verify_otp-IsBounded_example :
    All IsBounded
      (final_state (verify_otp toy_hash scope_one settings_one (some code_one) 2000 waiting)).codes
verify_otp-IsBounded_example =
    verify_otp-IsBounded toy_hash scope_one settings_one (some code_one) 2000 waiting (refl, tt)
      (omega arith, tt)

typed_one_once :
    (to_western_digits (to_western_digits typed_one) ≡ to_western_digits typed_one)
    × (length (to_western_digits typed_one) ≡ 5)
typed_one_once = to_western_digits_twice typed_one
