-- ===== src/Base/Outcomes.antt =====
-- What a handler returns: a value or a thrown `ApiError`, each with the state that is left.
use Prim.Native.Nat.{ℕ}
use Prim.Native.String.{String}
use mathlib.Core.Path.{◌≡◌, refl, sym}
use mathlib.Core.Logic.{◌⊎◌, inl, inr}
use mathlib.Core.Bool.{Bool, true, false}
use mathlib.Core.Option.{Option, none, some}

pub record ApiError : Type 0 where
  pub status : ℕ
  pub code : String

abbrev pub api_error : ℕ → String → ApiError
api_error status code = record { status = status; code = code }

pub data Result {ℓ} (A : Type ℓ) : Type ℓ where
  ok : A → Result A
  err : ApiError → Result A

pub data Outcome (S A : Type 0) : Type 0 where
  done : A → S → Outcome S A
  thrown : ApiError → S → Outcome S A

module _ {S A : Type 0} where
  abbrev pub pure : A → S → Outcome S A
  pure a s = done a s

  abbrev pub throw : ℕ → String → S → Outcome S A
  throw status code s = thrown (api_error status code) s

  abbrev pub final_state : Outcome S A → S
  final_state (done _ s) = s
  final_state (thrown _ s) = s

  -- A result of the pure checks, in a handler.
  abbrev pub lift : Result A → S → Outcome S A
  lift (ok a) s = done a s
  lift (err e) s = thrown e s

  -- `prisma.$transaction`: a throw rolls the state back.
  abbrev pub transaction : (S → Outcome S A) → S → Outcome S A
  transaction m s = elim (m s) [ done a s' ↦ done a s' | thrown e _ ↦ thrown e s ]

  -- The value that a query finds, or a throw.
  abbrev pub found_or : Option A → ℕ → String → S → Outcome S A
  found_or none status code s = thrown (api_error status code) s
  found_or (some a) _ _ s = done a s

infixl 5 ◌>>=◌ ◌>>◌
abbrev pub ◌>>=◌ : {S A B : Type 0} → (S → Outcome S A) → (A → S → Outcome S B) → S → Outcome S B
◌>>=◌ m f s = elim (m s) [ done a s' ↦ f a s' | thrown e s' ↦ thrown e s' ]

abbrev pub ◌>>◌ : {S B : Type 0} → (S → Outcome S (Unit {0})) → (S → Outcome S B) → S → Outcome S B
m >> k = m >>= λ _. k

module _ {S : Type 0} where
  -- `if (!test) throw new ApiError(status, code)`.
  abbrev pub require : Bool → ℕ → String → S → Outcome S (Unit {0})
  require true _ _ s = done tt s
  require false status code s = thrown (api_error status code) s

  abbrev pub get : S → Outcome S S
  get s = done s s

  abbrev pub modify : (S → S) → S → Outcome S (Unit {0})
  modify f s = done tt (f s)

-- To split on what a step gives, and to keep the equation.
pub Outcome-cases :
    {S A : Type 0} (o : Outcome S A)
    → ((a : A) × (s : S) × (o ≡ done a s)) ⊎ ((e : ApiError) × (s : S) × (o ≡ thrown e s))
Outcome-cases (done a s) = inl (a, s, refl)
Outcome-cases (thrown e s) = inr (e, s, refl)

pub Result-cases :
    {A : Type 0} (r : Result A) → ((a : A) × (r ≡ ok a)) ⊎ ((e : ApiError) × (r ≡ err e))
Result-cases (ok a) = inl (a, refl)
Result-cases (err e) = inr (e, refl)

pub Verdict-cases :
    (r : Result Bool) → (r ≡ ok true) ⊎ (r ≡ ok false) ⊎ ((e : ApiError) × (r ≡ err e))
Verdict-cases (ok true) = inl refl
Verdict-cases (ok false) = inr (inl refl)
Verdict-cases (err e) = inr (inr (e, refl))

done≢thrown : {S A : Type 0} {a : A} {s s' : S} {e : ApiError} → ¬ (done a s ≡ thrown e s')
done≢thrown h = cc

-- Inversion of a step and the rest behind it.
run-eq-done :
    {S B : Type 0} (o : Outcome S (Unit {0})) (k : S → Outcome S B) (b : B) (s' : S)
    → ◌≡◌ {A = Outcome S B} (elim o [ done a s1 ↦ k s1 | thrown e s1 ↦ thrown e s1 ]) (done b s')
    → (s1 : S) × (o ≡ done tt s1) × (k s1 ≡ done b s')
run-eq-done (done u s1) k b s' h = (s1, refl, h)
run-eq-done (thrown e s1) k b s' h = absurd (done≢thrown (sym h))

pub >>-eq-done :
    {S B : Type 0} (m : S → Outcome S (Unit {0})) (k : S → Outcome S B) (s : S) (b : B) (s' : S)
    → (m >> k) s ≡ done b s'
    → (s1 : S) × (m s ≡ done tt s1) × (k s1 ≡ done b s')
>>-eq-done m k s b s' h = run-eq-done (m s) k b s' h

bound_done :
    {S A B : Type 0} (o : Outcome S A) (f : A → S → Outcome S B) (b : B) (s' : S)
    → ◌≡◌ {A = Outcome S B} (elim o [ done a s1 ↦ f a s1 | thrown e s1 ↦ thrown e s1 ]) (done b s')
    → (a : A) × (s1 : S) × (o ≡ done a s1) × (f a s1 ≡ done b s')
bound_done (done a s1) f b s' h = (a, s1, refl, h)
bound_done (thrown e s1) f b s' h = absurd (done≢thrown (sym h))

pub >>=-eq_done :
    {S A B : Type 0} (m : S → Outcome S A) (f : A → S → Outcome S B) (s : S) (b : B) (s' : S)
    → (m >>= f) s ≡ done b s'
    → (a : A) × (s1 : S) × (m s ≡ done a s1) × (f a s1 ≡ done b s')
>>=-eq_done m f s b s' h = bound_done (m s) f b s' h
