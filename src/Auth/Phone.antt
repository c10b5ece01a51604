-- ===== src/Auth/Phone.antt =====
-- src/utils/phoneNormalizer.js: a phone number as its nine local digits.
use maghsul_backend.Base.{
  ℕ, ◌≡◌, ◌≢◌, refl, ap, Bool, true, false, not, ◌&&◌, ◌||◌, Option, none, some, [], ◌∷◌, ◌++◌,
  ◌==◌, if◌then◌else◌, select, length, All, All-append, arith,
}
use maghsul_backend.Auth.Digits.{Text, within, is_space, is_empty, trim, trim_start, trim_end}

-- `phone.startsWith(prefix)` with `phone.slice(prefix.length)`.
unfoldable pub without_prefix : Text → Text → Option Text
without_prefix [] cs = some cs
without_prefix (x ∷ xs) [] = none
without_prefix (x ∷ xs) (c ∷ cs) = if x == c then without_prefix xs cs else none

abbrev pub is_digit : ℕ → Bool
is_digit c = within 48 57 c

abbrev pub are_digits : Text → Bool
are_digits [] = true
are_digits (c ∷ cs) = is_digit c && are_digits cs

-- "+966" and "00966"
abbrev pub plus_code : Text
plus_code = 43 ∷ 57 ∷ 54 ∷ 54 ∷ []

abbrev pub zero_code : Text
zero_code = 48 ∷ 48 ∷ 57 ∷ 54 ∷ 54 ∷ []

unfoldable pub without_country : Text → Text
without_country cs = elim (without_prefix plus_code cs) [
  | some rest ↦ rest
  | none ↦ elim (without_prefix zero_code cs) [ some rest ↦ rest | none ↦ cs ]
]

unfoldable pub without_zero : Text → Text
without_zero cs = elim (without_prefix (48 ∷ []) cs) [ some rest ↦ rest | none ↦ cs ]

-- `replace(/\s+/g, '').replace(/-/g, '')`
unfoldable pub without_gaps : Text → Text
without_gaps cs = select (λ c. not (c == 45)) (select (λ c. not (is_space c)) cs)

-- `normalizePhone`; a missing number is an empty text.
unfoldable pub normalize_phone : Text → Option Text
normalize_phone raw =
    if is_empty raw
    then none
    else let phone = without_zero (without_country (without_gaps (trim raw))) in
      if are_digits phone && length phone == 9 then some phone else none

-- A local number: nine digits.
pub record IsLocal (cs : Text) : Type 0 where
  pub digits : are_digits cs ≡ true
  pub nine : length cs ≡ 9

-- What is normalized is nine digits.
pub normalize_phone_sound : (raw p : Text) → normalize_phone raw ≡ some p → IsLocal p
unfolding normalize_phone
normalize_phone_sound raw p h = record { digits = ground arith; nine = ground arith }

-- No white space and no dash.
IsPlain : Text → Type 0
IsPlain cs = All (λ c. (is_space c ≡ false) × (c ≢ 45)) cs

digits-IsPlain : (cs : Text) → are_digits cs ≡ true → IsPlain cs
unfolding IsPlain
digits-IsPlain [] h = tt
digits-IsPlain (c ∷ cs) h = ((ground arith, ground arith), digits-IsPlain cs (ground arith))

abbrev are_digits_or_plus : Text → Bool
are_digits_or_plus [] = true
are_digits_or_plus (c ∷ cs) = (is_digit c || c == 43) && are_digits_or_plus cs

digits_or_plus : (cs : Text) → are_digits_or_plus cs ≡ true → IsPlain cs
unfolding IsPlain
digits_or_plus [] h = tt
digits_or_plus (c ∷ cs) h = ((ground arith, ground arith), digits_or_plus cs (ground arith))

trim_start-plain : (cs : Text) → IsPlain cs → trim_start cs ≡ cs
unfolding IsPlain trim_start
trim_start-plain [] h = refl
trim_start-plain (c ∷ cs) ((k, n), h) = rw k refl

trim_end-plain : (cs : Text) → IsPlain cs → trim_end cs ≡ cs
unfolding IsPlain trim_end
trim_end-plain [] h = refl
trim_end-plain (c ∷ cs) ((k, n), h) = rw (k, trim_end-plain cs h) refl

without_gaps-plain : (cs : Text) → IsPlain cs → without_gaps cs ≡ cs
unfolding without_gaps IsPlain
without_gaps-plain [] h = refl
without_gaps-plain (c ∷ cs) ((k, n), h) =
    let dash : (c == 45) ≡ false = ground arith in
    rw (k, dash) (ap (λ t. c ∷ t) (without_gaps-plain cs h))

plain : (cs : Text) → IsPlain cs → without_gaps (trim cs) ≡ cs
unfolding trim
plain cs h = rw (trim_start-plain cs h, trim_end-plain cs h) (without_gaps-plain cs h)

-- A local number that does not begin with a zero, and what people write in front of it.
module _ (c : ℕ) (cs : Text) (local : IsLocal (c ∷ cs)) (nonzero : c ≢ 48) where
  no_zero : without_zero (c ∷ cs) ≡ c ∷ cs
  unfolding without_zero without_prefix
  no_zero = ground arith

  no_country : without_country (c ∷ cs) ≡ c ∷ cs
  unfolding without_country without_prefix
  no_country = let d = local.digits in ground arith

  accepted :
      (raw : Text)
      → is_empty raw ≡ false
      → IsPlain raw
      → without_zero (without_country raw) ≡ c ∷ cs
      → normalize_phone raw ≡ some (c ∷ cs)
  unfolding normalize_phone
  accepted raw full h e =
      let d = local.digits in let n = local.nine in rw (full, plain raw h, e) (ground arith)

  local-IsPlain : IsPlain (c ∷ cs)
  local-IsPlain = digits-IsPlain (c ∷ cs) local.digits

  with_zero : without_zero (without_country (48 ∷ c ∷ cs)) ≡ c ∷ cs
  unfolding without_country without_zero without_prefix
  with_zero = ground arith

  -- The four spellings of a local number that does not begin with a zero are one number: alone, with
  -- a zero in front, and with the two spellings of the country code. In particular a normalized
  -- number of that kind is normalized already.
  pub normalize_phone_spellings :
      (normalize_phone (c ∷ cs) ≡ some (c ∷ cs))
      × (normalize_phone (48 ∷ c ∷ cs) ≡ some (c ∷ cs))
      × (normalize_phone (plus_code ++ c ∷ cs) ≡ some (c ∷ cs))
      × (normalize_phone (zero_code ++ c ∷ cs) ≡ some (c ∷ cs))
  unfolding IsPlain without_country without_prefix
  normalize_phone_spellings = (
    accepted (c ∷ cs) refl local-IsPlain (rw no_country no_zero),
    accepted (48 ∷ c ∷ cs) refl ((refl, λ e. ground arith), local-IsPlain) with_zero,
    accepted (plus_code ++ c ∷ cs) refl
        (All-append _ plus_code (c ∷ cs) (digits_or_plus plus_code refl) local-IsPlain) no_zero,
    accepted (zero_code ++ c ∷ cs) refl
        (All-append _ zero_code (c ∷ cs) (digits_or_plus zero_code refl) local-IsPlain) no_zero,
  )
