-- ===== src/Bitmap/Shift.antt =====
-- bitmap.c: the shifts of a bitmap, __bitmap_shift_right and __bitmap_shift_left. Where the shift is a
-- number of whole words, C shifts a word that is 0 by 64, which it leaves undefined; here that is 0.
pub mod Back
pub mod Bits
pub mod Kept
use mpipin.Base.{
  ℕ, zero, suc, ◌+◌, ◌-◌, ◌/◌, ◌%◌, bit_and, bit_or, Bool, not, ◌&&◌, ◌||◌, leb, ltb, ◌==◌,
  if◌then◌else◌, set,
}
use mpipin.Word.{bits_per_long, shl, shr}
use mpipin.Bitops.{Words, word_at}
use mpipin.Bitmap.{bits_to_longs}
use mpipin.Bitmap.Logic.{write_words}

-- `if (last) w &= (1UL << left) - 1;`
abbrev pub cut_last : (last : Bool) → (left : ℕ) → ℕ → ℕ
cut_last last left w = if last then bit_and w (shl 1 left - 1) else w

-- The loop of __bitmap_shift_left, from `k` down to 0 with k + 1 rounds left. Source and destination
-- may be one: a round reads words k and k - 1 and writes none below k.
module _ (src : Words) (lim left off rem : ℕ) where
  unfoldable pub shifted_word : (k : ℕ) → ℕ
  shifted_word k =
      let lower = if not (rem == 0) && ltb 0 k then word_at src (k - 1) else 0 in
      let upper = cut_last (not (left == 0) && k == lim - 1) left (word_at src k) in
      cut_last (not (left == 0) && k + off == lim - 1) left
        (bit_or (shr lower (bits_per_long - rem)) (shl upper rem))

  unfoldable pub shift_words : (rounds : ℕ) → Words → Words
  shift_words zero dst = dst
  shift_words (suc k) dst = shift_words k (set dst (k + off) (shifted_word k))

unfoldable pub bitmap_shift_left : (dst src : Words) → (shift bits : ℕ) → Words
bitmap_shift_left dst src shift bits =
    let lim = bits_to_longs bits in
    let left = bits % bits_per_long in
    let off = shift / bits_per_long in
    let rem = shift % bits_per_long in
    write_words off 0 (λ _. 0) (shift_words src lim left off rem (lim - off) dst)

-- Word `k` of the result of __bitmap_shift_right. Its loop goes up from 0; source and destination may
-- be one: a round reads words off + k and off + k + 1 and writes none above k.
unfoldable pub right_word : (src : Words) → (lim left off rem k : ℕ) → ℕ
right_word src lim left off rem k =
    let above =
      cut_last (off + k + 1 == lim - 1 && not (left == 0)) left (word_at src (off + k + 1)) in
    let upper = if rem == 0 || leb lim (off + k + 1) then 0 else above in
    let lower = cut_last (not (left == 0) && off + k == lim - 1) left (word_at src (off + k)) in
    cut_last (not (left == 0) && k == lim - 1) left
      (bit_or (shl upper (bits_per_long - rem)) (shr lower rem))

unfoldable pub bitmap_shift_right : (dst src : Words) → (shift bits : ℕ) → Words
bitmap_shift_right dst src shift bits =
    let lim = bits_to_longs bits in
    let left = bits % bits_per_long in
    let off = shift / bits_per_long in
    let rem = shift % bits_per_long in
    write_words off (lim - off) (λ _. 0)
      (write_words (lim - off) 0 (right_word src lim left off rem) dst)
