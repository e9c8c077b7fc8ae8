-- ===== src/Base/Total.antt =====
-- Total correctness of a computation that may panic: it returns, and what it returns satisfies `P`.
use mathlib.Core.Path.{◌≡◌, refl}
use mathlib.Core.Option.{Option, some}
use mathlib.Core.Bool.{Bool, true, false}
use claude_master_go.Base.Tests.{◌>>=◌, if◌then◌else◌}

pub record Ensures {ℓ} {A : Type ℓ} (P : A → Type 0) (o : Option A) : Type ℓ where
  pub value : A
  pub returns : o ≡ some value
  pub holds : P value

pub Ensures-some {ℓ} : {A : Type ℓ} (P : A → Type 0) (a : A) → P a → Ensures P (some a)
Ensures-some P a h = record { value = a; returns = refl; holds = h }

pub Ensures-bind {ℓ κ} :
    {A : Type ℓ} {B : Type κ} (P : A → Type 0) (Q : B → Type 0) {m : Option A} {f : A → Option B}
    → Ensures P m
    → ((a : A) → P a → Ensures Q (f a))
    → Ensures Q (m >>= f)
Ensures-bind P Q {m} {f} e k =
    let next = k e.value e.holds in
    record { value = next.value; returns = rw e.returns next.returns; holds = next.holds }

-- A conditional returns what holds if each branch does under its test.
pub Ensures-if {ℓ} :
    {A : Type ℓ} (P : A → Type 0) (b : Bool) {x y : Option A}
    → (b ≡ true → Ensures P x)
    → (b ≡ false → Ensures P y)
    → Ensures P (if b then x else y)
Ensures-if P true h k = h refl
Ensures-if P false h k = k refl
