-- ===== src/Bitmap/Range.antt =====
-- `bitmap_set` and `bitmap_clear`: the bits from `start`, `nr` of them. The sum of the two is below
-- 2^31, as the code needs.
pub mod Bits
use mpipin.Base.{ℕ, zero, suc, ◌+◌, ◌-◌, ◌/◌, ◌%◌, ◌==◌, leb, if◌then◌else◌, bit_and, bit_or, set}
use mpipin.Word.{bits_per_long, all_ones, bit_not}
use mpipin.Bitops.{Words, word_at}
use mpipin.Bitmap.{first_word_mask, last_word_mask}

-- The loop of both and the word behind it; `change` is what they do to a word by a mask, `p` the index
-- of the word that the pointer stands at, `bits` what remains of it. Each round but the first takes 64
-- bits off `nr`.
unfoldable pub change_from : (ℕ → ℕ → ℕ) → ℕ → (size p nr bits mask : ℕ) → Words → Words
change_from change zero size p nr bits mask map = map
change_from change (suc fuel) size p nr bits mask map =
    let rest =
      change_from change fuel size (p + 1) (nr - bits) bits_per_long all_ones
        (set map p (change (word_at map p) mask)) in
    if leb bits nr
    then rest
    else (if nr == 0
        then map
        else set map p (change (word_at map p) (bit_and mask (last_word_mask size))))

unfoldable pub change_bits : (ℕ → ℕ → ℕ) → (start nr : ℕ) → Words → Words
change_bits change start nr map =
    change_from change (nr / bits_per_long + 2) (start + nr) (start / bits_per_long) nr
      (bits_per_long - start % bits_per_long) (first_word_mask start) map

-- *p |= mask;
unfoldable pub set_mask : (word mask : ℕ) → ℕ
set_mask word mask = bit_or word mask

-- *p &= ~mask;
unfoldable pub clear_mask : (word mask : ℕ) → ℕ
clear_mask word mask = bit_and word (bit_not mask)

unfoldable pub bitmap_set : Words → (start nr : ℕ) → Words
bitmap_set map start nr = change_bits set_mask start nr map

unfoldable pub bitmap_clear : Words → (start nr : ℕ) → Words
bitmap_clear map start nr = change_bits clear_mask start nr map
