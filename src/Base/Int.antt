-- ===== src/Base/Int.antt =====
-- C's signed `int` as integers over the native numbers, for the fields that can be negative.

use Prim.Native.Nat.{ℕ, zero, suc}
use mathlib.Core.Bool.{Bool, false}
use mpipin.Base.Tests.{◌==◌}

-- `negsuc n` is -(n + 1).
pub data ℤ : Type 0 where
  pos : ℕ → ℤ
  negsuc : ℕ → ℤ

abbrev pub minus_one : ℤ
minus_one = negsuc 0

unfoldable pub dec : ℤ → ℤ
dec (pos zero) = negsuc 0
dec (pos (suc n)) = pos n
dec (negsuc n) = negsuc (suc n)

infix 4 ◌==ℤ◌
unfoldable pub ◌==ℤ◌ : ℤ → ℤ → Bool
pos m ==ℤ pos n = m == n
negsuc m ==ℤ negsuc n = m == n
_ ==ℤ _ = false
