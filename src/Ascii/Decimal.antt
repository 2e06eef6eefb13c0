-- ===== src/Ascii/Decimal.antt =====
-- The decimal digits of a number.
use mpipin.Base.{
  ◌++◌, refl, ℕ, zero, suc, ◌+◌, ◌*◌, ◌/◌, ◌%◌, ◌≤◌, ◌<◌, ◌≡◌, arith, ◌∷◌, length, dec_lt, ◌^◌,
  lt→ltb, le→ltb,
}
use mpipin.Ascii.{Text, decimal_onto}

pow_succ : (k : ℕ) → 10 ^ suc k ≡ 10 * 10 ^ k
pow_succ k = omega arith

-- Ten digits are enough for a number below 10 ^ 10.
pub length-decimal_onto :
    (k fuel n : ℕ) (rest : Text)
    → n < 10 * 10 ^ k
    → length (decimal_onto fuel n rest) ≤ suc k + length rest
unfolding decimal_onto
length-decimal_onto k zero n rest lt = omega arith
length-decimal_onto zero (suc fuel) n rest lt = rw (lt→ltb n 10 (omega arith)) (omega arith)
length-decimal_onto (suc k) (suc fuel) n rest lt = elim (dec_lt n 10) [
  | yes small ↦ rw (lt→ltb n 10 small) (omega arith)
  | no large ↦ rw (le→ltb n 10 (omega arith)) (
      omega (
        arith,
        length-decimal_onto k fuel (n / 10) ((b'0' + n % 10) ∷ rest) (omega (arith, pow_succ k)),
      ))
]

-- The digits stand in front of the text.
pub decimal_onto-append :
    (fuel n : ℕ) (s t : Text) → decimal_onto fuel n (s ++ t) ≡ decimal_onto fuel n s ++ t
unfolding decimal_onto
decimal_onto-append zero n s t = refl
decimal_onto-append (suc fuel) n s t = elim (dec_lt n 10) [
  | yes small ↦ rw (lt→ltb n 10 small)
  | no large ↦
      rw (le→ltb n 10 (omega arith)) (decimal_onto-append fuel (n / 10) ((b'0' + n % 10) ∷ s) t)
]

-- There is a digit at least.
pub decimal_onto_longer :
    (fuel n : ℕ) (rest : Text) → length rest < length (decimal_onto (suc fuel) n rest)
unfolding decimal_onto
decimal_onto_longer zero n rest = elim (dec_lt n 10) [
  | yes small ↦ rw (lt→ltb n 10 small) (omega arith)
  | no large ↦ rw (le→ltb n 10 (omega arith)) (omega arith)
]
decimal_onto_longer (suc fuel) n rest = elim (dec_lt n 10) [
  | yes small ↦ rw (lt→ltb n 10 small) (omega arith)
  | no large ↦
      rw (le→ltb n 10 (omega arith))
        (omega (arith, decimal_onto_longer fuel (n / 10) ((b'0' + n % 10) ∷ rest)))
]
