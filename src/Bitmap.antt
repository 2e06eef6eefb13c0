-- ===== src/Bitmap.antt =====
-- bitmap.c and include/bitmap.h: operations on whole bitmaps. The bits of the last word from the size
-- on are unused. Where an operation writes, `dst` is the destination before it.
pub mod Area
pub mod Fold
pub mod Kept
pub mod Logic
pub mod Masks
pub mod Parse
pub mod Ranges
pub mod Range
pub mod Region
pub mod Shift
use mpipin.Base.{ℕ, ◌+◌, ◌-◌, ◌/◌, ◌%◌, ◌==◌, if◌then◌else◌}
use mpipin.Word.{bits_per_long, all_ones, shl}

-- BITS_TO_LONGS(bits)
unfoldable pub bits_to_longs : ℕ → ℕ
bits_to_longs bits = (bits + bits_per_long - 1) / bits_per_long

-- BITMAP_FIRST_WORD_MASK(start)
unfoldable pub first_word_mask : ℕ → ℕ
first_word_mask start = shl all_ones (start % bits_per_long)

-- BITMAP_LAST_WORD_MASK(nbits)
unfoldable pub last_word_mask : ℕ → ℕ
last_word_mask nbits =
    if nbits % bits_per_long == 0 then all_ones else shl 1 (nbits % bits_per_long) - 1
