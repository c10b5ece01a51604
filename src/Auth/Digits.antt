-- ===== src/Auth/Digits.antt =====
-- src/utils/digits.js and the trimming of an entered code. A text is the list of its code points.
use maghsul_backend.Base.{
  ℕ, ◌+◌, ◌-◌, ◌≡◌, refl, Bool, true, false, ◌&&◌, ◌||◌, List, [], ◌∷◌, leb, ◌==◌, if◌then◌else◌,
  All, length, arith, includes,
}

abbrev pub Text : Type 0
Text = List ℕ

abbrev pub within : ℕ → ℕ → ℕ → Bool
within low high c = leb low c && leb c high

-- The Arabic-Indic digits are 1632 to 1641, the Eastern Arabic ones 1776 to 1785, the Western ones
-- 48 to 57.
unfoldable pub western_digit : ℕ → ℕ
western_digit c =
    if within 1632 1641 c then c - 1632 + 48 else if within 1776 1785 c then c - 1776 + 48 else c

-- `toWesternDigits`
unfoldable pub to_western_digits : Text → Text
to_western_digits [] = []
to_western_digits (c ∷ cs) = western_digit c ∷ to_western_digits cs

-- The white space and the line ends of the language.
abbrev pub is_space : ℕ → Bool
is_space c =
    within 9 13 c
    || within 8192 8202 c
    || includes (32 ∷ 160 ∷ 5760 ∷ 8232 ∷ 8233 ∷ 8239 ∷ 8287 ∷ 12288 ∷ 65279 ∷ []) c

abbrev pub is_empty : Text → Bool
is_empty [] = true
is_empty (_ ∷ _) = false

unfoldable pub trim_start : Text → Text
trim_start [] = []
trim_start (c ∷ cs) = let rest = trim_start cs in if is_space c then rest else c ∷ cs

unfoldable pub trim_end : Text → Text
trim_end [] = []
trim_end (c ∷ cs) = let rest = trim_end cs in if is_space c && is_empty rest then [] else c ∷ rest

-- `String(code).trim()`
unfoldable pub trim : Text → Text
trim cs = trim_end (trim_start cs)

unfoldable pub text_eq : Text → Text → Bool
text_eq [] [] = true
text_eq (x ∷ xs) (y ∷ ys) = x == y && text_eq xs ys
text_eq _ _ = false

abbrev pub IsWestern : Text → Type 0
IsWestern cs = All (λ c. within 48 57 c ≡ true) cs

western_kept : (c : ℕ) → within 48 57 c ≡ true → western_digit c ≡ c
unfolding western_digit
western_kept c h = ground arith

western_not_space : (c : ℕ) → within 48 57 c ≡ true → is_space c ≡ false
western_not_space c h = ground arith

trim_end-western : (cs : Text) → IsWestern cs → trim_end cs ≡ cs
unfolding trim_end
trim_end-western [] h = refl
trim_end-western (c ∷ cs) (k, h) = rw (western_not_space c k, trim_end-western cs h) refl

trim_start-western : (cs : Text) → IsWestern cs → trim_start cs ≡ cs
unfolding trim_start
trim_start-western [] h = refl
trim_start-western (c ∷ cs) (k, h) = rw (western_not_space c k) refl

-- A code of Western digits is entered as it is.
pub trim-western : (cs : Text) → IsWestern cs → trim cs ≡ cs
unfolding trim
trim-western cs h = rw (trim_start-western cs h) (trim_end-western cs h)

pub to_western_digits-western : (cs : Text) → IsWestern cs → to_western_digits cs ≡ cs
unfolding to_western_digits
to_western_digits-western [] h = refl
to_western_digits-western (c ∷ cs) (k, h) =
    rw (western_kept c k, to_western_digits-western cs h) refl

western_once : (c : ℕ) → western_digit (western_digit c) ≡ western_digit c
unfolding western_digit
western_once c = ground arith

-- The conversion of digits is done once: a second one changes nothing, and no conversion changes the
-- length of the text.
pub to_western_digits_twice :
    (cs : Text)
    → (to_western_digits (to_western_digits cs) ≡ to_western_digits cs)
      × (length (to_western_digits cs) ≡ length cs)
unfolding to_western_digits
to_western_digits_twice [] = (refl, refl)
to_western_digits_twice (c ∷ cs) =
    let (same, long) = to_western_digits_twice cs in
    (rw (western_once c, same) refl, omega (arith, long))
