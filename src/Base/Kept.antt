-- ===== src/Base/Kept.antt =====
-- What a handler keeps: a relation between the state before and the state behind, step by step.
use Prim.Native.Nat.{ℕ}
use Prim.Native.String.{String}
use mathlib.Core.Bool.{Bool, true, false}
use mathlib.Core.Option.{Option, none, some}
use maghsul_backend.Base.Tests.{if◌then◌else◌}
use maghsul_backend.Base.Outcomes.{
  Outcome, done, thrown, final_state, transaction, ◌>>=◌, require, found_or, get, pure, throw,
  modify,
}

-- The state behind the handler, whether it returns or throws, is in the relation.
pub record Keeps {S A : Type 0} (R : S → S → Type 0) (m : S → Outcome S A) : Type 0 where
  pub kept : (s : S) → R s (final_state (m s))

-- The relation can be put together step by step.
pub record IsPreorder {S : Type 0} (R : S → S → Type 0) : Type 0 where
  pub same : (s : S) → R s s
  pub after : (a b c : S) → R a b → R b c → R a c

module _ {S : Type 0} {R : S → S → Type 0} where
  outcome-Keeps :
      {A B : Type 0}
      → IsPreorder R
      → (f : A → S → Outcome S B) → ((a : A) → Keeps R (f a))
      → (s : S) (o : Outcome S A) → R s (final_state o)
      → R s
          (final_state {S = S} {A = B} (elim o [ done a s' ↦ f a s' | thrown e s' ↦ thrown e s' ]))
  outcome-Keeps r f k s (done a s') h = r.after s s' (final_state (f a s')) h ((k a).kept s')
  outcome-Keeps r f k s (thrown e s') h = h

  pub bind-Keeps :
      {A B : Type 0}
      → IsPreorder R
      → (m : S → Outcome S A) (f : A → S → Outcome S B) → Keeps R m
      → ((a : A) → Keeps R (f a))
      → Keeps R (m >>= f)
  bind-Keeps r m f h k = record { kept = λ s. outcome-Keeps r f k s (m s) (h.kept s) }

  rolled_back :
      {A : Type 0}
      → IsPreorder R
      → (s : S) (o : Outcome S A) → R s (final_state o)
      → R s
          (final_state {S = S} {A = A} (elim o [ done a s' ↦ done a s' | thrown e _ ↦ thrown e s ]))
  rolled_back r s (done a s') h = h
  rolled_back r s (thrown e s') h = r.same s

  pub transaction-Keeps :
      {A : Type 0} → IsPreorder R → (m : S → Outcome S A) → Keeps R m → Keeps R (transaction m)
  transaction-Keeps r m h = record { kept = λ s. rolled_back r s (m s) (h.kept s) }

  pub require-Keeps :
      IsPreorder R → (t : Bool) (http : ℕ) (code : String) → Keeps R (require t http code)
  require-Keeps r true http code = record { kept = r.same }
  require-Keeps r false http code = record { kept = r.same }

  pub found_or-Keeps :
      {A : Type 0}
      → IsPreorder R
      → (x : Option A) (http : ℕ) (code : String) → Keeps R (found_or x http code)
  found_or-Keeps r none http code = record { kept = r.same }
  found_or-Keeps r (some a) http code = record { kept = r.same }

  pub if-Keeps :
      {A : Type 0} (t : Bool) (m n : S → Outcome S A)
      → Keeps R m
      → Keeps R n
      → Keeps R (if t then m else n)
  if-Keeps true m n h k = h
  if-Keeps false m n h k = k

  pub get-Keeps : IsPreorder R → Keeps R (get {S = S})
  get-Keeps r = record { kept = r.same }

  pub pure-Keeps : {A : Type 0} → IsPreorder R → (a : A) → Keeps R (pure {S = S} a)
  pure-Keeps r a = record { kept = r.same }

  pub throw-Keeps :
      {A : Type 0}
      → IsPreorder R
      → (http : ℕ) (code : String) → Keeps R (throw {S = S} {A = A} http code)
  throw-Keeps r http code = record { kept = r.same }

pub modify-Keeps :
    {S : Type 0} {R : S → S → Type 0} (f : S → S) → ((s : S) → R s (f s)) → Keeps R (modify f)
modify-Keeps f h = record { kept = h }

pub ruleset keeps_rules = (
  if-Keeps, bind-Keeps, transaction-Keeps, require-Keeps, found_or-Keeps, get-Keeps, pure-Keeps,
  throw-Keeps,
)
