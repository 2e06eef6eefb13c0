-- ===== src/Bitmap/Masks.antt =====
-- The bits of the masks.
use mpipin.Base.{
  ℕ, ◌-◌, ◌%◌, ◌^◌, ◌<◌, ◌≡◌, arith, ◌&&◌, ltb, leb, ◌==◌, if◌then◌else◌, Bool-cases, inl, inr,
}
use mpipin.Bits.{word_bit, word_bit-ones, word_bit-pow, word_ext}
use mpipin.Word.{all_ones, shl, word_bit-shl_word, word_bit-all_ones, word_bit-shl_one}
use mpipin.Bitmap.{first_word_mask, last_word_mask}

-- 1UL << r, less 1.
pub shl_one : (r : ℕ) → r < 64 → shl 1 r ≡ 2 ^ r
shl_one r h = word_ext _ _ (λ i. ground (arith, word_bit-shl_one r i, word_bit-pow r i))

-- The mask of the bits below `r`.
pub ones_below : (r i : ℕ) → r < 64 → word_bit (shl 1 r - 1) i ≡ ltb i r
ones_below r i h = rw (shl_one r h) (word_bit-ones r i)

-- The bits below the last word's share.
pub word_bit-last_word_mask :
    (bits i : ℕ)
    → word_bit (last_word_mask bits) i ≡ ltb i (if bits % 64 == 0 then 64 else bits % 64)
unfolding last_word_mask
word_bit-last_word_mask bits i = elim (Bool-cases (bits % 64 == 0)) [
  | inl whole ↦ rw whole (word_bit-all_ones i)
  | inr part ↦ rw part (ones_below (bits % 64) i (omega arith))
]

pub word_bit-first_word_mask :
    (start i : ℕ) → word_bit (first_word_mask start) i ≡ (ltb i 64 && leb (start % 64) i)
unfolding first_word_mask
word_bit-first_word_mask start i =
    ground (arith, word_bit-shl_word all_ones (start % 64) i, word_bit-all_ones (i - start % 64))
