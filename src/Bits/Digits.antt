-- ===== src/Bits/Digits.antt =====
-- The native bit operations are recursions on binary digits with fuel; here the fuel is dropped.
use Prim.Native.Nat.{
  min, max, digits, bitwise, differ, bit_and-bitwise, bit_or-bitwise, bit_xor-bitwise,
}
use native.Mathlib.Nat.{le_refl}
use mpipin.Base.{
  ℕ, zero, suc, ◌+◌, ◌*◌, ◌/◌, ◌%◌, ◌≤◌, ◌<◌, bit_and, bit_or, bit_xor, ◌≡◌, refl, arith,
}

module _ (z : ℕ → ℕ) (f : ℕ → ℕ → ℕ) where
  digits_enough : (n m x y : ℕ) → x ≤ n → x ≤ m → digits z f n x y ≡ digits z f m x y
  digits_enough n m zero y p q = both n m
    where
      both : (n m : ℕ) → digits z f n 0 y ≡ digits z f m 0 y
      both zero zero = refl
      both zero (suc m) = refl
      both (suc n) zero = refl
      both (suc n) (suc m) = refl
  digits_enough zero m (suc x) y p q = absurd (omega arith)
  digits_enough (suc n) zero (suc x) y p q = absurd (omega arith)
  digits_enough (suc n) (suc m) (suc x) y p q =
      rw (digits_enough n m (suc x / 2) (y / 2) (omega arith) (omega arith))

  bitwise_digit :
      (x y : ℕ)
      → bitwise z f (suc x) y ≡ bitwise z f (suc x / 2) (y / 2) * 2 + f (suc x % 2) (y % 2)
  bitwise_digit x y =
      omega (arith, digits_enough x (suc x / 2) (suc x / 2) (y / 2) (omega arith) (le_refl _))

pub bit_and_digit : (x y : ℕ) → bit_and x y ≡ bit_and (x / 2) (y / 2) * 2 + min (x % 2) (y % 2)
bit_and_digit zero y = simp bit_and-bitwise (omega arith)
bit_and_digit (suc x) y = simp bit_and-bitwise (bitwise_digit (λ _. 0) min x y)

pub bit_or_digit : (x y : ℕ) → bit_or x y ≡ bit_or (x / 2) (y / 2) * 2 + max (x % 2) (y % 2)
bit_or_digit zero y = simp bit_or-bitwise (omega arith)
bit_or_digit (suc x) y = simp bit_or-bitwise (bitwise_digit (λ v. v) max x y)

differ_digits : (x y : ℕ) → x < 2 → y < 2 → differ x y ≡ (x + y) % 2
differ_digits zero y a b = omega arith
differ_digits (suc zero) zero a b = refl
differ_digits (suc zero) (suc zero) a b = refl
differ_digits (suc zero) (suc (suc y)) a b = absurd (omega arith)
differ_digits (suc (suc x)) y a b = absurd (omega arith)

pub bit_xor_digit : (x y : ℕ) → bit_xor x y ≡ bit_xor (x / 2) (y / 2) * 2 + (x % 2 + y % 2) % 2
bit_xor_digit zero y = simp bit_xor-bitwise (omega arith)
bit_xor_digit (suc x) y = simp bit_xor-bitwise (
    omega (
      arith,
      bitwise_digit (λ v. v) differ x y,
      differ_digits (suc x % 2) (y % 2) (omega arith) (omega arith),
    ))
