-- ===== src/Base/Int.antt =====
-- The integers over the native numbers.
use Prim.Native.Nat.{ℕ, zero, suc}
use mathlib.Core.Bool.{Bool, true, false}
use mathlib.Core.Path.{◌≡◌, refl}
use native.Mathlib.Omega.{arith}
use claude_master_go.Base.Tests.{leb}

-- `negsuc n` is -(n + 1).
pub data ℤ : Type 0 where
  pos : ℕ → ℤ
  negsuc : ℕ → ℤ

-- The test `a >= b`.
abbrev pub at_least : ℤ → ℤ → Bool
at_least (pos a) (pos b) = leb b a
at_least (pos a) (negsuc b) = true
at_least (negsuc a) (pos b) = false
at_least (negsuc a) (negsuc b) = leb a b

pub at_least_refl : (a : ℤ) → at_least a a ≡ true
at_least_refl (pos a) = ground arith
at_least_refl (negsuc a) = ground arith

pub at_least_total : (a b : ℤ) → at_least a b ≡ false → at_least b a ≡ true
at_least_total (pos a) (pos b) h = ground arith
at_least_total (pos a) (negsuc b) h = cc
at_least_total (negsuc a) (pos b) h = refl
at_least_total (negsuc a) (negsuc b) h = ground arith

pub at_least_trans : (a b c : ℤ) → at_least a b ≡ true → at_least b c ≡ true → at_least a c ≡ true
at_least_trans (pos a) (pos b) (pos c) h k = ground arith
at_least_trans (pos a) b (negsuc c) h k = refl
at_least_trans (pos a) (negsuc b) (pos c) h k = cc
at_least_trans (negsuc a) (pos b) c h k = cc
at_least_trans (negsuc a) (negsuc b) (pos c) h k = cc
at_least_trans (negsuc a) (negsuc b) (negsuc c) h k = ground arith

-- One more, and one less.
unfoldable pub up : ℤ → ℤ
up (pos n) = pos (suc n)
up (negsuc zero) = pos 0
up (negsuc (suc n)) = negsuc n

unfoldable pub down : ℤ → ℤ
down (pos zero) = negsuc 0
down (pos (suc n)) = pos n
down (negsuc n) = negsuc (suc n)
