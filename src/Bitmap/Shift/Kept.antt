-- ===== src/Bitmap/Shift/Kept.antt =====
-- A bitmap shifted left is an array of words.
use mpipin.Base.{ℕ, zero, suc, ◌+◌, ◌-◌, ◌/◌, ◌%◌, arith, Bool, not, ◌&&◌, ltb, ◌==◌, both_branches}
use mpipin.Bits.{lt_of_bits, word_bit_high}
use mpipin.Word.{IsWord, shr, word_bit-shr_word, bit_or-IsWord, bit_and-IsWord, shl-IsWord}
use mpipin.Bitops.{Words}
use mpipin.Bitmap.{bits_to_longs}
use mpipin.Bitmap.Kept.{IsMask, set-IsMask, write_words-IsMask}
use mpipin.Bitmap.Shift.{cut_last, shifted_word, shift_words, bitmap_shift_left}

shr-IsWord : (w k : ℕ) → IsWord w → IsWord (shr w k)
unfolding shr
shr-IsWord w k h =
    lt_of_bits 64 _
      (λ i le. rw (word_bit-shr_word w k i, word_bit_high 64 w (k + i) h (omega arith)))

cut_last-IsWord : (last : Bool) (left w : ℕ) → IsWord w → IsWord (cut_last last left w)
cut_last-IsWord last left w h = both_branches IsWord last (bit_and-IsWord _ _ h) h

shift_words-IsMask :
    {n : ℕ} {src : Words} (lim left off rem rounds : ℕ) {dst : Words}
    → IsMask n src
    → IsMask n dst
    → IsMask n (shift_words src lim left off rem rounds dst)
unfolding shift_words shifted_word
shift_words-IsMask lim left off rem zero s d = d
shift_words-IsMask {src} lim left off rem (suc k) s d = shift_words-IsMask lim left off rem k s (
    set-IsMask (k + off) _ d (
      cut_last-IsWord (not (left == 0) && k + off == lim - 1) left _ (
        bit_or-IsWord _ _
          (shr-IsWord _ _
            (both_branches IsWord (not (rem == 0) && ltb 0 k) (s.words (k - 1)) (omega arith)))
          (shl-IsWord _ rem))))

pub bitmap_shift_left-IsMask :
    {n : ℕ} {dst src : Words} (shift bits : ℕ)
    → IsMask n dst
    → IsMask n src
    → IsMask n (bitmap_shift_left dst src shift bits)
unfolding bitmap_shift_left
bitmap_shift_left-IsMask shift bits d s =
    write_words-IsMask (shift / 64) 0 (λ _. 0)
      (shift_words-IsMask (bits_to_longs bits) (bits % 64) (shift / 64) (shift % 64)
        (bits_to_longs bits - shift / 64) s d)
      (λ j. omega arith)
