-- ===== src/Base/Lists.antt =====
-- Lists as the tables of the database: queries and updates by a test on the row.
use Prim.Native.Nat.{ℕ, suc}
use mathlib.Core.Path.{◌≡◌, refl, subst, ap}
use mathlib.Core.Logic.{inl, inr}
use mathlib.Core.Bool.{Bool, true, false, ◌||◌}
use mathlib.Core.Option.{Option, none, some}
use mathlib.Core.List.{List, [], ◌∷◌, ◌++◌}
use native.Mathlib.Omega.{arith}
use maghsul_backend.Base.Tests.{◌==◌, if◌then◌else◌, Bool-cases}

module _ {ℓ} {A : Type ℓ} where
  abbrev pub length : List A → ℕ
  length [] = 0
  length (_ ∷ xs) = suc (length xs)

  -- The first row that passes the test.
  abbrev pub find : (A → Bool) → List A → Option A
  find p [] = none
  find p (x ∷ xs) = if p x then some x else find p xs

  abbrev pub select : (A → Bool) → List A → List A
  select p [] = []
  select p (x ∷ xs) = let rest = select p xs in if p x then x ∷ rest else rest

  abbrev pub any : (A → Bool) → List A → Bool
  any p [] = false
  any p (x ∷ xs) = p x || any p xs

  -- Every row that passes the test is replaced by its image.
  abbrev pub update_where : (A → Bool) → (A → A) → List A → List A
  update_where p f [] = []
  update_where p f (x ∷ xs) = (if p x then f x else x) ∷ update_where p f xs

  abbrev pub All {κ} : (A → Type κ) → List A → Type κ
  All P [] = Unit
  All P (x ∷ xs) = P x × All P xs

  pub All-append {κ} : (P : A → Type κ) (xs ys : List A) → All P xs → All P ys → All P (xs ++ ys)
  All-append P [] ys h k = k
  All-append P (x ∷ xs) ys (p, h) k = (p, All-append P xs ys h k)

  pub All-map {κ} : (P Q : A → Type κ) → ((x : A) → P x → Q x) → (xs : List A) → All P xs → All Q xs
  All-map P Q f [] h = tt
  All-map P Q f (x ∷ xs) (p, h) = (f x p, All-map P Q f xs h)

  pub All-update_where {κ} :
      (P : A → Type κ) (p : A → Bool) (f : A → A)
      → ((x : A) → P x → P (f x))
      → (xs : List A) → All P xs
      → All P (update_where p f xs)
  All-update_where P p f k [] h = tt
  All-update_where P p f k (x ∷ xs) (px, h) =
      (ground (arith, k x px), All-update_where P p f k xs h)

  pub All-zip {κ μ} :
      (P : A → Type κ) (Q : A → Type μ) (xs : List A)
      → All P xs
      → All Q xs
      → All (λ x. P x × Q x) xs
  All-zip P Q [] h k = tt
  All-zip P Q (x ∷ xs) (p, h) (q, k) = ((p, q), All-zip P Q xs h k)

  -- A write that no old row passes changes the row that was added, if that row passes.
  pub update_where-append_fresh :
      (p : A → Bool) (f : A → A) (xs : List A) (x : A)
      → any p xs ≡ false
      → update_where p f (xs ++ x ∷ []) ≡ xs ++ (if p x then f x else x) ∷ []
  update_where-append_fresh p f [] x h = refl
  update_where-append_fresh p f (y ∷ ys) x h = elim (Bool-cases (p y)) [
    | inl t ↦ absurd (ground arith)
    | inr n ↦ rw n (ap (λ t. y ∷ t) (update_where-append_fresh p f ys x (rw n at h)))
  ]

  -- A row that is found passes the test and has what all rows have.
  pub find_sound : (p : A → Bool) (xs : List A) (x : A) → find p xs ≡ some x → p x ≡ true
  find_sound p [] x e = ground arith
  find_sound p (y ∷ ys) x e = ground (arith, find_sound p ys x)

  pub find-All {κ} :
      (P : A → Type κ) (p : A → Bool) (xs : List A) (x : A) → All P xs → find p xs ≡ some x → P x
  find-All P p [] x h e = absurd (ground arith)
  find-All P p (y ∷ ys) x (py, h) e = elim (Bool-cases (p y)) [
    | inl q ↦ let same : some y ≡ some x = rw q at e in let same' : y ≡ x = cc in subst P same' py
    | inr q ↦ find-All P p ys x h (rw q at e)
  ]

  -- An update that keeps what a query tests changes the row that the query finds, and no other.
  abbrev pub on : (A → Bool) → (A → A) → A → A
  on p f x = if p x then f x else x

  abbrev pub map_option : (A → A) → Option A → Option A
  map_option f none = none
  map_option f (some x) = some (f x)

  pub find-update_where :
      (q p : A → Bool) (f : A → A)
      → ((x : A) → q (on p f x) ≡ q x)
      → (xs : List A) → find q (update_where p f xs) ≡ map_option (on p f) (find q xs)
  find-update_where q p f k [] = refl
  find-update_where q p f k (x ∷ xs) = elim (Bool-cases (q x)) [
    | inl t ↦ rw (k x, t) refl
    | inr n ↦ rw (k x, n) (find-update_where q p f k xs)
  ]

  pub All-update_where_on {κ} :
      (P Q : A → Type κ) (p : A → Bool) (f : A → A)
      → ((x : A) → P x → Q (on p f x))
      → (xs : List A) → All P xs
      → All Q (update_where p f xs)
  All-update_where_on P Q p f k [] h = tt
  All-update_where_on P Q p f k (x ∷ xs) (px, h) = (k x px, All-update_where_on P Q p f k xs h)

  pub find-append :
      (p : A → Bool) (xs ys : List A) → find p xs ≡ none → find p (xs ++ ys) ≡ find p ys
  find-append p [] ys e = refl
  find-append p (x ∷ xs) ys e = elim (Bool-cases (p x)) [
    | inl t ↦ absurd (ground arith)
    | inr n ↦ rw n (find-append p xs ys (rw n at e))
  ]

  pub any-find_missing : (p : A → Bool) (xs : List A) → any p xs ≡ false → find p xs ≡ none
  any-find_missing p [] e = refl
  any-find_missing p (x ∷ xs) e = ground (arith, any-find_missing p xs)

  pub any-find_present :
      (p : A → Bool) (xs : List A) → any p xs ≡ true → (x : A) × (find p xs ≡ some x)
  any-find_present p [] e = absurd (ground arith)
  any-find_present p (x ∷ xs) e = elim (Bool-cases (p x)) [
    | inl t ↦ (x, rw t refl)
    | inr n ↦ let (y, f) = any-find_present p xs (rw n at e) in (y, rw n f)
  ]

  pub any-find : (p : A → Bool) (xs : List A) (x : A) → find p xs ≡ some x → any p xs ≡ true
  any-find p [] x e = ground arith
  any-find p (y ∷ ys) x e = ground (arith, any-find p ys x)

-- Membership of a number, `Array.includes`.
abbrev pub includes : List ℕ → ℕ → Bool
includes xs n = any (λ x. x == n) xs
