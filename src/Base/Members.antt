-- ===== src/Base/Members.antt =====
-- The members of a list, and a property of all of them, by recursion.
use mathlib.Core.Path.{◌≡◌, refl}
use mathlib.Core.Logic.{◌⊎◌, inl, inr}
use mathlib.Core.List.{List, [], ◌∷◌, ◌++◌}

module _ {A : Type 0} where
  abbrev pub In : A → List A → Type 0
  In x [] = ⊥
  In x (y ∷ ys) = (x ≡ y) ⊎ In x ys

  abbrev pub All : (A → Type 0) → List A → Type 0
  All P [] = Unit {0}
  All P (y ∷ ys) = P y × All P ys

  pub In-append : (x : A) (xs ys : List A) → In x xs → In x (xs ++ ys)
  In-append x [] ys h = absurd h
  In-append x (z ∷ xs) ys (inl e) = inl e
  In-append x (z ∷ xs) ys (inr h) = inr (In-append x xs ys h)

  pub In-last : (x : A) (xs : List A) → In x (xs ++ x ∷ [])
  In-last x [] = inl refl
  In-last x (z ∷ xs) = inr (In-last x xs)

  pub All-snoc :
      (P Q : A → Type 0) (y : A) (xs : List A)
      → ((x : A) → P x → Q x)
      → Q y
      → All P xs
      → All Q (xs ++ y ∷ [])
  All-snoc P Q y [] k q h = (q, tt)
  All-snoc P Q y (z ∷ xs) k q h = (k z h.0, All-snoc P Q y xs k q h.1)
