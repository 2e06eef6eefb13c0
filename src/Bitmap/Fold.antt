-- ===== src/Bitmap/Fold.antt =====
-- The loop `for_each_set_bit` of include/bitops.h, and `bitmap_fold` of bitmap.c.
pub mod Visit
pub mod Law
use mpipin.Base.{ℕ, zero, suc, ◌+◌, ◌%◌, Bool, ltb, if◌then◌else◌}
use mpipin.Bitops.{Words, find_first_bit, find_next_bit, set_bit}
use mpipin.Bitmap.{bits_to_longs}
use mpipin.Bitmap.Logic.{write_words}

module _ {ℓ} {S : Type ℓ} (addr : Words) (size : ℕ) (body : ℕ → S → S) where
  -- The loop from the value `bit` of its variable on; each round goes on to a greater one.
  unfoldable pub for_bits : ℕ → (bit : ℕ) → S → S
  for_bits zero bit s = s
  for_bits (suc fuel) bit s =
      let rest = for_bits fuel (find_next_bit addr size (bit + 1)) (body bit s) in
      if ltb bit size then rest else s

  unfoldable pub for_each_set_bit : S → S
  for_each_set_bit s = for_bits size (find_first_bit addr size) s

-- bitmap_zero of a size that is not a constant, for an array that holds its words: where it may not,
-- Sysfs.clear_map records the write past the end.
unfoldable pub bitmap_zero : (dst : Words) → (nbits : ℕ) → Words
bitmap_zero dst nbits = write_words (bits_to_longs nbits) 0 (λ _. 0) dst

-- `same` says that the two arrays are one.
unfoldable pub bitmap_fold : (same : Bool) → (dst orig : Words) → (sz bits : ℕ) → Words
bitmap_fold same dst orig sz bits =
    if same
    then dst
    else for_each_set_bit orig bits (λ oldbit dst. set_bit (oldbit % sz) dst) (bitmap_zero dst bits)
