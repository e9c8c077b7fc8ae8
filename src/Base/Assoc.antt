-- ===== src/Base/Assoc.antt =====
-- Go maps with string keys: association lists with one entry for a key.
use mathlib.Core.Path.{◌≡◌, refl, sym, ◌∙◌}
use mathlib.Core.Logic.{◌≢◌, inl, inr}
use mathlib.Core.Bool.{true, false}
use mathlib.Core.Option.{Option, none, some}
use mathlib.Core.List.{List, [], ◌∷◌}
use native.Mathlib.Omega.{arith}
use claude_master_go.Base.Tests.{if◌then◌else◌, Bool-cases}
use claude_master_go.Base.Lists.{Bytes, equal}

unfoldable pub lookup {ℓ} : {A : Type ℓ} → Bytes → List (Bytes × A) → Option A
lookup k [] = none
lookup k ((k', v) ∷ m) = let rest = lookup k m in if equal k k' then some v else rest

-- `delete(m, k)`.
unfoldable pub delete {ℓ} : {A : Type ℓ} → Bytes → List (Bytes × A) → List (Bytes × A)
delete k [] = []
delete k ((k', v) ∷ m) = let rest = delete k m in if equal k k' then rest else (k', v) ∷ rest

-- `m[k] = v`.
abbrev pub put {ℓ} : {A : Type ℓ} → Bytes → A → List (Bytes × A) → List (Bytes × A)
put k v m = (k, v) ∷ delete k m

pub equal_refl : (k : Bytes) → equal k k ≡ true
equal_refl [] = refl
equal_refl (x ∷ k) = ground (arith, equal_refl k)

pub equal→eq : (a b : Bytes) → equal a b ≡ true → a ≡ b
equal→eq [] [] h = refl
equal→eq [] (y ∷ b) h = cc
equal→eq (x ∷ a) [] h = cc
equal→eq (x ∷ a) (y ∷ b) h = ground (arith, equal→eq a b)

pub differ : (k k' x : Bytes) → k' ≢ k → equal k x ≡ true → equal k' x ≡ false
differ k k' x n e = elim (Bool-cases (equal k' x)) [
  | inl t ↦ absurd (n (equal→eq k' x t ∙ sym (equal→eq k x e)))
  | inr f ↦ f
]

module _ {ℓ} {A : Type ℓ} where
  pub lookup-delete_other :
      (k k' : Bytes) (m : List (Bytes × A)) → k' ≢ k → lookup k' (delete k m) ≡ lookup k' m
  unfolding lookup delete
  lookup-delete_other k k' [] n = refl
  lookup-delete_other k k' ((x, v) ∷ m) n = elim (Bool-cases (equal k x)) [
    | inl e ↦ simp (e, differ k k' x n e, lookup-delete_other k k' m n)
    | inr e ↦ simp (e, lookup-delete_other k k' m n)
  ]

  pub lookup-put_other :
      (k k' : Bytes) (v : A) (m : List (Bytes × A)) → k' ≢ k → lookup k' (put k v m) ≡ lookup k' m
  unfolding lookup
  lookup-put_other k k' v m n = simp (differ k k' k n (equal_refl k)) (lookup-delete_other k k' m n)

  pub lookup-put : (k : Bytes) (v : A) (m : List (Bytes × A)) → lookup k (put k v m) ≡ some v
  unfolding lookup
  lookup-put k v m = rw (equal_refl k)
