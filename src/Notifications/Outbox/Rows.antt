-- ===== src/Notifications/Outbox/Rows.antt =====
-- A write of the outbox seen row by row.
use maghsul_backend.Base.{Bool, List, [], ◌∷◌, All, update_where, on}

module _ {A : Type 0} where
  -- Two tables with the same rows in the same places, up to a relation.
  abbrev pub Rows : (A → A → Type 0) → List A → List A → Type 0
  Rows R [] [] = Unit
  Rows R [] (y ∷ ys) = ⊥
  Rows R (x ∷ xs) [] = ⊥
  Rows R (x ∷ xs) (y ∷ ys) = R x y × Rows R xs ys

  pub Rows-refl : (R : A → A → Type 0) → ((x : A) → R x x) → (xs : List A) → Rows R xs xs
  Rows-refl R r [] = tt
  Rows-refl R r (x ∷ xs) = (r x, Rows-refl R r xs)

  pub Rows-trans :
      (R : A → A → Type 0)
      → ((x y z : A) → R x y → R y z → R x z)
      → (xs ys zs : List A) → Rows R xs ys
      → Rows R ys zs
      → Rows R xs zs
  Rows-trans R t [] [] [] h k = tt
  Rows-trans R t [] [] (z ∷ zs) h k = k
  Rows-trans R t [] (y ∷ ys) zs h k = absurd h
  Rows-trans R t (x ∷ xs) [] zs h k = absurd h
  Rows-trans R t (x ∷ xs) (y ∷ ys) [] h k = k
  Rows-trans R t (x ∷ xs) (y ∷ ys) (z ∷ zs) (a, h) (b, k) =
      (t x y z a b, Rows-trans R t xs ys zs h k)

  pub Rows-map :
      (R S : A → A → Type 0)
      → ((x y : A) → R x y → S x y)
      → (xs ys : List A) → Rows R xs ys
      → Rows S xs ys
  Rows-map R S f [] [] h = tt
  Rows-map R S f [] (y ∷ ys) h = h
  Rows-map R S f (x ∷ xs) [] h = h
  Rows-map R S f (x ∷ xs) (y ∷ ys) (a, h) = (f x y a, Rows-map R S f xs ys h)

  pub Rows-update_where :
      (P : A → Type 0) (R : A → A → Type 0) (p : A → Bool) (f : A → A)
      → ((x : A) → P x → R x (on p f x))
      → (xs : List A) → All P xs
      → Rows R xs (update_where p f xs)
  Rows-update_where P R p f k [] h = tt
  Rows-update_where P R p f k (x ∷ xs) (a, h) = (k x a, Rows-update_where P R p f k xs h)
