-- ===== src/Word.antt =====
-- `unsigned long` of a 64-bit machine: the operators of C that cut a result to the word, and what
-- they do to its bits.
use Prim.Native.Nat.{max}
use mpipin.Base.{
  ◌∙◌, sym, ℕ, zero, suc, ◌+◌, ◌-◌, ◌*◌, ◌/◌, ◌%◌, ◌^◌, ◌≤◌, ◌<◌, bit_and, bit_or, ◌≡◌, ap, arith,
  true, false, not, ◌&&◌, ltb, ◌==◌, if◌then◌else◌, Bool-cases, inl, inr, ◌≢◌,
}
use mpipin.Bits.{
  word_bit, word_bit-zero, word_bit-pow, word_bit-bit_and, word_bit-bit_or, word_bit-ones,
  word_bit-compl, word_bit-shr, word_bit-shl, word_bit-low, word_ext, word_bit_high, lt_of_bits,
}

-- `BITS_PER_LONG`
abbrev pub bits_per_long : ℕ
bits_per_long = 64

abbrev pub IsWord : ℕ → Type 0
IsWord w = w < 2 ^ 64

-- ~w
unfoldable pub bit_not : ℕ → ℕ
bit_not w = 2 ^ 64 - 1 - w

-- ~0UL
abbrev pub all_ones : ℕ
all_ones = 2 ^ 64 - 1

-- w << k and w >> k
unfoldable pub shl : ℕ → ℕ → ℕ
shl w k = w * 2 ^ k % 2 ^ 64

unfoldable pub shr : ℕ → ℕ → ℕ
shr w k = w / 2 ^ k

pub word_bit-bit_not :
    (w i : ℕ) → IsWord w → word_bit (bit_not w) i ≡ (ltb i 64 && not (word_bit w i))
unfolding bit_not
word_bit-bit_not w i h = word_bit-compl 64 w i h

pub word_bit-shl_word :
    (w k i : ℕ)
    → word_bit (shl w k) i ≡ (ltb i 64 && (if ltb i k then false else word_bit w (i - k)))
unfolding shl
word_bit-shl_word w k i = rw (word_bit-low 64 (w * 2 ^ k) i, word_bit-shl k w i)

pub word_bit-shr_word : (w k i : ℕ) → word_bit (shr w k) i ≡ word_bit w (k + i)
unfolding shr
word_bit-shr_word w k i = word_bit-shr k w i

pub word_bit-all_ones : (i : ℕ) → word_bit all_ones i ≡ ltb i 64
word_bit-all_ones i = word_bit-ones 64 i

pub bit_not-IsWord : (w : ℕ) → IsWord (bit_not w)
unfolding bit_not
bit_not-IsWord w = omega arith

pub shl-IsWord : (w k : ℕ) → IsWord (shl w k)
unfolding shl
shl-IsWord w k = omega arith

pub bit_and-IsWord : (a b : ℕ) → IsWord a → IsWord (bit_and a b)
bit_and-IsWord a b h =
    lt_of_bits 64 _ (λ i le. rw (word_bit-bit_and a b i, word_bit_high 64 a i h le))

pub bit_or-IsWord : (a b : ℕ) → IsWord a → IsWord b → IsWord (bit_or a b)
bit_or-IsWord a b h k =
    lt_of_bits 64 _
      (λ i le. rw (word_bit-bit_or a b i, word_bit_high 64 a i h le, word_bit_high 64 b i k le))

-- `x & ~63` is `x` less its remainder by 64.
pub bit_and_not_63 : (x : ℕ) → IsWord x → bit_and x (bit_not 63) ≡ x / 64 * 64
bit_and_not_63 x h = word_ext _ _ λ i. ground (
  arith,
  word_bit-bit_and x (bit_not 63) i,
  word_bit-bit_not 63 i (omega arith),
  word_bit-ones 6 i,
  word_bit-shl 6 (x / 64) i,
  word_bit-shr 6 x (i - 6),
  word_bit_high 64 x i h,
  ap (word_bit x) (six i),
)
  where
    six : (i : ℕ) → 6 + (i - 6) ≡ max i 6
    six i = omega arith

-- A word other than 0 has a bit set.
some_bit_fuel : (n w : ℕ) → w ≤ n → w ≢ 0 → (i : ℕ) × (word_bit w i ≡ true)
unfolding word_bit
some_bit_fuel zero w h ne = absurd (omega arith)
some_bit_fuel (suc n) w h ne = elim (Bool-cases (w % 2 == 1)) [
  | inl odd ↦ (0, odd)
  | inr even ↦
      let (i, there) = some_bit_fuel n (w / 2) (omega arith) (ground arith) in (suc i, there)
]

pub some_bit : (w : ℕ) → w ≢ 0 → (i : ℕ) × (word_bit w i ≡ true)
some_bit w ne = some_bit_fuel w w (omega arith) ne

-- 1UL << k
pub word_bit-shl_one : (k i : ℕ) → word_bit (shl 1 k) i ≡ (ltb i 64 && k == i)
word_bit-shl_one k i = ground (arith, word_bit-shl_word 1 k i, word_bit-pow 0 (i - k))

-- A word is 0 exactly if it has no bit set.
pub eq_zero_of_bits : (w : ℕ) → ((i : ℕ) → word_bit w i ≡ false) → w ≡ 0
eq_zero_of_bits w h = word_ext w 0 (λ i. h i ∙ sym (word_bit-zero i))

-- `(w & 1UL << k) != 0` tests bit `k`.
pub test_bit_of_word : (w k : ℕ) → k < 64 → not (bit_and w (shl 1 k) == 0) ≡ word_bit w k
test_bit_of_word w k h = elim (Bool-cases (word_bit w k)) [
  | inl there ↦
      let bit : word_bit (bit_and w (shl 1 k)) k ≡ true =
        ground (arith, word_bit-bit_and w (shl 1 k) k, word_bit-shl_one k k) in
      rw there (ground (arith, bit, word_bit-zero k, ap (λ (t : ℕ). word_bit t k)))
  | inr clear ↦
      let none_set : bit_and w (shl 1 k) ≡ 0 =
        eq_zero_of_bits _
          (λ i. ground (arith, word_bit-bit_and w (shl 1 k) i, word_bit-shl_one k i)) in
      rw (clear, none_set)
]
