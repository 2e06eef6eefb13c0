-- ===== src/Bits.antt =====
-- The bits of a number, the view in which the words of bitmaps are specified: `word_bit w i` is the
-- bit of weight 2 ^ i.
mod Digits
use Digits.{bit_and_digit, bit_or_digit, bit_xor_digit}
use native.Mathlib.Nat.{two-pow-succ, one-le-pow, div-add-mod', mod-lt}
use native.Mathlib.Nat.{mod-eq_of_lt, add-mul-mod_self_right, div-div-eq-div-mul}
use mpipin.Base.{
  ap, sym, subst, lt→ltb, le→ltb, ℕ, zero, suc, ◌+◌, ◌-◌, ◌*◌, ◌/◌, ◌%◌, ◌^◌, ◌≤◌, ◌<◌, bit_and,
  bit_or, bit_xor, ◌≡◌, refl, arith, Bool, true, false, not, ◌&&◌, ◌||◌, ltb, leb, ◌==◌,
  if◌then◌else◌,
}

unfoldable pub word_bit : ℕ → ℕ → Bool
word_bit w zero = w % 2 == 1
word_bit w (suc i) = word_bit (w / 2) i

pub word_bit-zero : (i : ℕ) → word_bit 0 i ≡ false
unfolding word_bit
word_bit-zero zero = refl
word_bit-zero (suc i) = word_bit-zero i

pub word_bit-bit_and : (a b i : ℕ) → word_bit (bit_and a b) i ≡ (word_bit a i && word_bit b i)
unfolding word_bit
word_bit-bit_and a b zero = ground (arith, bit_and_digit a b)
word_bit-bit_and a b (suc i) =
    let half : bit_and a b / 2 ≡ bit_and (a / 2) (b / 2) = omega (arith, bit_and_digit a b) in
    rw half (word_bit-bit_and (a / 2) (b / 2) i)

pub word_bit-bit_or : (a b i : ℕ) → word_bit (bit_or a b) i ≡ (word_bit a i || word_bit b i)
unfolding word_bit
word_bit-bit_or a b zero = ground (arith, bit_or_digit a b)
word_bit-bit_or a b (suc i) =
    let half : bit_or a b / 2 ≡ bit_or (a / 2) (b / 2) = omega (arith, bit_or_digit a b) in
    rw half (word_bit-bit_or (a / 2) (b / 2) i)

pub word_bit-bit_xor :
    (a b i : ℕ)
    → word_bit (bit_xor a b) i ≡ (if word_bit a i then not (word_bit b i) else word_bit b i)
unfolding word_bit
word_bit-bit_xor a b zero = ground (arith, bit_xor_digit a b)
word_bit-bit_xor a b (suc i) =
    let half : bit_xor a b / 2 ≡ bit_xor (a / 2) (b / 2) = omega (arith, bit_xor_digit a b) in
    rw half (word_bit-bit_xor (a / 2) (b / 2) i)

pub word_bit-pow : (k i : ℕ) → word_bit (2 ^ k) i ≡ (k == i)
unfolding word_bit
word_bit-pow zero zero = refl
word_bit-pow zero (suc i) = ground (arith, word_bit-zero i)
word_bit-pow (suc k) zero = ground (arith, two-pow-succ k)
word_bit-pow (suc k) (suc i) =
    let half : 2 ^ suc k / 2 ≡ 2 ^ k = omega (arith, two-pow-succ k) in
    rw half (ground (arith, word_bit-pow k i))

pub word_bit-ones : (k i : ℕ) → word_bit (2 ^ k - 1) i ≡ ltb i k
unfolding word_bit
word_bit-ones zero i = ground (arith, word_bit-zero i)
word_bit-ones (suc k) zero = ground (arith, two-pow-succ k, one-le-pow k 2)
word_bit-ones (suc k) (suc i) =
    let half : (2 ^ suc k - 1) / 2 ≡ 2 ^ k - 1 = omega (arith, two-pow-succ k, one-le-pow k 2) in
    rw half (ground (arith, word_bit-ones k i))

-- The complement within `k` bits.
pub word_bit-compl :
    (k w i : ℕ) → w < 2 ^ k → word_bit (2 ^ k - 1 - w) i ≡ (ltb i k && not (word_bit w i))
unfolding word_bit
word_bit-compl zero w i h = ground (arith, word_bit-zero i)
word_bit-compl (suc k) w zero h = ground (arith, two-pow-succ k)
word_bit-compl (suc k) w (suc i) h =
    let half : (2 ^ suc k - 1 - w) / 2 ≡ 2 ^ k - 1 - w / 2 = omega (arith, two-pow-succ k) in
    rw half (ground (arith, word_bit-compl k (w / 2) i (omega (arith, two-pow-succ k))))

pub word_bit-shr : (k w i : ℕ) → word_bit (w / 2 ^ k) i ≡ word_bit w (k + i)
unfolding word_bit
word_bit-shr zero w i =
    let same : w / 2 ^ 0 ≡ w = omega arith in let from : 0 + i ≡ i = omega arith in rw (same, from)
word_bit-shr (suc k) w i =
    let halved : w / 2 ^ suc k ≡ w / 2 / 2 ^ k =
      rw div-div-eq-div-mul (ap (λ (t : ℕ). w / t) (omega (arith, two-pow-succ k))) in
    let next : suc k + i ≡ suc (k + i) = omega arith in rw (halved, next) (word_bit-shr k (w / 2) i)

pub word_bit-shl :
    (k w i : ℕ) → word_bit (w * 2 ^ k) i ≡ (if ltb i k then false else word_bit w (i - k))
unfolding word_bit
word_bit-shl zero w i =
    let same : w * 1 ≡ w = omega arith in
    let from : i - 0 ≡ i = omega arith in rw (le→ltb i 0 (omega arith), same, from)
word_bit-shl (suc k) w zero =
    let even : w * 2 ^ suc k % 2 ≡ 0 = omega (arith, ap (λ (t : ℕ). w * t) (two-pow-succ k)) in
    rw (lt→ltb 0 (suc k) (omega arith), even)
word_bit-shl (suc k) w (suc i) =
    let half : w * 2 ^ suc k / 2 ≡ w * 2 ^ k =
      omega (arith, ap (λ (t : ℕ). w * t) (two-pow-succ k)) in
    rw half (ground (arith, word_bit-shl k w i))

low_half : (m w : ℕ) → 0 < m → w % (2 * m) / 2 ≡ w / 2 % m
low_half m w h =
    let halves : w / 2 ≡ w % (2 * m) / 2 + w / (2 * m) * m =
      omega (arith, div-add-mod' w (2 * m)) in
    let small : w % (2 * m) / 2 < m = omega (arith, mod-lt w {m = 2 * m} (omega arith)) in
    rw (halves, add-mul-mod_self_right) (sym (mod-eq_of_lt small))

low_parity : (m w : ℕ) → w % (2 * m) % 2 ≡ w % 2
low_parity m w = omega (arith, div-add-mod' w (2 * m))

-- The low `k` bits.
pub word_bit-low : (k w i : ℕ) → word_bit (w % 2 ^ k) i ≡ (ltb i k && word_bit w i)
unfolding word_bit
word_bit-low zero w i =
    let none_left : w % 2 ^ 0 ≡ 0 = omega arith in
    rw (le→ltb i 0 (omega arith), none_left) (word_bit-zero i)
word_bit-low (suc k) w zero =
    let width : 2 ^ suc k ≡ 2 * 2 ^ k = omega (arith, two-pow-succ k) in
    rw (lt→ltb 0 (suc k) (omega arith), width, low_parity (2 ^ k) w)
word_bit-low (suc k) w (suc i) =
    let width : 2 ^ suc k ≡ 2 * 2 ^ k = omega (arith, two-pow-succ k) in
    rw (width, low_half (2 ^ k) w (one-le-pow k 2 (omega arith)))
      (ground (arith, word_bit-low k (w / 2) i))

word_ext_fuel : (n a b : ℕ) → a ≤ n → b ≤ n → ((i : ℕ) → word_bit a i ≡ word_bit b i) → a ≡ b
unfolding word_bit
word_ext_fuel zero a b p q h = omega arith
word_ext_fuel (suc n) a b p q h =
    let halves = word_ext_fuel n (a / 2) (b / 2) (omega arith) (omega arith) (λ i. h (suc i)) in
    ground (arith, h 0, halves)

-- A number is its bits.
pub word_ext : (a b : ℕ) → ((i : ℕ) → word_bit a i ≡ word_bit b i) → a ≡ b
word_ext a b h = word_ext_fuel (a + b) a b (omega arith) (omega arith) h

-- Bits at and above `k` are clear exactly in the numbers below 2 ^ k.
pub word_bit_high : (k w i : ℕ) → w < 2 ^ k → k ≤ i → word_bit w i ≡ false
word_bit_high k w i h le =
    let low : w % 2 ^ k ≡ w = mod-eq_of_lt h in
    subst (λ v. word_bit v i ≡ false) low (rw (word_bit-low k w i, le→ltb i k le))

pub lt_of_bits : (k w : ℕ) → ((i : ℕ) → k ≤ i → word_bit w i ≡ false) → w < 2 ^ k
lt_of_bits k w h =
    let low : w % 2 ^ k ≡ w = word_ext _ _ (λ i. ground (arith, word_bit-low k w i, h i)) in
    subst (λ v. v < 2 ^ k) low (mod-lt w (one-le-pow k 2 (omega arith)))
