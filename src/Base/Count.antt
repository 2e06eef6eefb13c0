-- ===== src/Base/Count.antt =====
-- How many numbers below a bound pass a test.
use Prim.Native.Nat.{ℕ, zero, suc, ◌+◌, ◌≤◌, ◌<◌}
use mathlib.Core.Path.{◌≡◌, refl}
use mathlib.Core.Bool.{Bool, true, false, ◌&&◌, ◌||◌}
use native.Mathlib.Omega.{arith}
use native.Mathlib.Decide.{dec_lt}
use mpipin.Base.Tests.{if◌then◌else◌, ◌==◌, Bool-cases}
use mathlib.Core.Logic.{inl, inr}

unfoldable pub count_below : ℕ → (ℕ → Bool) → ℕ
count_below zero p = 0
count_below (suc n) p = count_below n p + (if p n then 1 else 0)

pub count_below_ext :
    (n : ℕ) (p q : ℕ → Bool) → ((i : ℕ) → i < n → p i ≡ q i) → count_below n p ≡ count_below n q
unfolding count_below
count_below_ext zero p q h = refl
count_below_ext (suc n) p q h =
    ground (arith, h n, count_below_ext n p q (λ i lt. h i (omega arith)))

pub count_below-le : (n : ℕ) (p : ℕ → Bool) → count_below n p ≤ n
unfolding count_below
count_below-le zero p = omega arith
count_below-le (suc n) p = ground (arith, count_below-le n p)

-- Each number that passes is counted in one of two complementary parts.
pub count_below_split :
    (n : ℕ) (p q r : ℕ → Bool)
    → ((i : ℕ) → i < n → p i ≡ (q i || r i))
    → ((i : ℕ) → i < n → (q i && r i) ≡ false)
    → count_below n p ≡ count_below n q + count_below n r
unfolding count_below
count_below_split zero p q r h d = omega arith
count_below_split (suc n) p q r h d = ground (
  arith,
  h n,
  d n,
  count_below_split n p q r (λ i lt. h i (omega arith)) (λ i lt. d i (omega arith)),
)

pub count_below_none :
    (n : ℕ) (p : ℕ → Bool) → ((i : ℕ) → i < n → p i ≡ false) → count_below n p ≡ 0
unfolding count_below
count_below_none zero p h = refl
count_below_none (suc n) p h = ground (arith, h n, count_below_none n p (λ i lt. h i (omega arith)))

pub count_below_one : (n k : ℕ) → k < n → count_below n (λ i. k == i) ≡ 1
unfolding count_below
count_below_one zero k h = absurd (omega arith)
count_below_one (suc n) k h = elim (dec_lt k n) [
  | yes lt ↦ ground (arith, count_below_one n k lt)
  | no ge ↦ ground (arith, count_below_none n (λ i. k == i) (λ i lt. ground arith))
]

-- A positive count has a witness.
pub count_below_some :
    (n : ℕ) (p : ℕ → Bool) → 0 < count_below n p → (i : ℕ) × (i < n) × (p i ≡ true)
unfolding count_below
count_below_some zero p h = absurd (omega arith)
count_below_some (suc n) p h = elim (Bool-cases (p n)) [
  | inl here ↦ (n, omega arith, here)
  | inr not_here ↦
      let (i, lt, there) = count_below_some n p (ground arith) in (i, omega arith, there)
]
