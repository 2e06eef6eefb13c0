-- ===== src/Bitmap/Region.antt =====
-- bitmap.c: regions of 2 ^ order bits at a multiple of their size. `1 << order` is taken for orders
-- that keep it below 2^31.
pub mod Allocate
pub mod Mask
pub mod Spec
use mpipin.Base.{
  ℕ, zero, suc, ◌+◌, ◌-◌, ◌*◌, ◌/◌, ◌%◌, ◌^◌, Bool, true, false, ltb, leb, if◌then◌else◌, bit_and,
  bit_or, set,
}
use mpipin.Base.Errno.{enomem, ebusy, Result, ok, err}
use mpipin.Word.{bits_per_long, bit_not, shl}
use mpipin.Bitops.{Words, word_at}
use mpipin.Bitmap.{bits_to_longs}
use mpipin.Bitmap.Logic.{all_clear}
use mpipin.Bitmap.Range.{set_mask, clear_mask}

-- The operations of `__reg_op`.
pub data RegOp : Type 0 where
  isfree alloc release : RegOp

-- The mask of one word of the region at `offset` in its first word.
unfoldable pub reg_mask : (order offset : ℕ) → ℕ
reg_mask order offset =
    let nbits_reg = 2 ^ order in
    let nbitsinlong = if ltb nbits_reg bits_per_long then nbits_reg else bits_per_long in
    let mask = shl 1 (nbitsinlong - 1) in shl (mask + (mask - 1)) offset

-- The loops `bitmap[index + i] |= mask` and `&= ~mask` from word `k` on, with the rounds left.
unfoldable pub change_words : (ℕ → ℕ → ℕ) → ℕ → (k mask : ℕ) → Words → Words
change_words change zero k mask bitmap = bitmap
change_words change (suc left) k mask bitmap =
    change_words change left (k + 1) mask (set bitmap k (change (word_at bitmap k) mask))

-- The bitmap and the value that is returned. `1 << order` is an int: for an order of 31 or more, which
-- C leaves undefined, the definitions of this file do not speak of the code.
unfoldable pub reg_op : RegOp → Words → (pos order : ℕ) → Words × Bool
reg_op isfree bitmap pos order =
    let index = pos / bits_per_long in
    let mask = reg_mask order (pos - index * bits_per_long) in
    (bitmap, all_clear (bits_to_longs (2 ^ order)) index (λ k. bit_and (word_at bitmap k) mask))
reg_op alloc bitmap pos order =
    let index = pos / bits_per_long in
    let mask = reg_mask order (pos - index * bits_per_long) in
    (change_words set_mask (bits_to_longs (2 ^ order)) index mask bitmap, false)
reg_op release bitmap pos order =
    let index = pos / bits_per_long in
    let mask = reg_mask order (pos - index * bits_per_long) in
    (change_words clear_mask (bits_to_longs (2 ^ order)) index mask bitmap, false)

-- For a size and an order with bits + 2 ^ order below 2^31, in which the sum is an int:
-- for (pos = 0; (end = pos + (1 << order)) <= bits; pos = end): each round moves on by at least one
-- bit.
unfoldable pub find_region_from : ℕ → Words → (bits order pos : ℕ) → Words × Result ℕ
find_region_from zero bitmap bits order pos = (bitmap, err enomem)
find_region_from (suc fuel) bitmap bits order pos =
    let rest = find_region_from fuel bitmap bits order (pos + 2 ^ order) in
    if leb (pos + 2 ^ order) bits
    then (if (reg_op isfree bitmap pos order).1
        then ((reg_op alloc bitmap pos order).0, ok pos)
        else rest)
    else (bitmap, err enomem)

unfoldable pub bitmap_find_free_region : Words → (bits order : ℕ) → Words × Result ℕ
bitmap_find_free_region bitmap bits order = find_region_from (bits + 1) bitmap bits order 0

unfoldable pub bitmap_release_region : Words → (pos order : ℕ) → Words
bitmap_release_region bitmap pos order = (reg_op release bitmap pos order).0

-- `ok 0` is the return value 0.
unfoldable pub bitmap_allocate_region : Words → (pos order : ℕ) → Words × Result ℕ
bitmap_allocate_region bitmap pos order =
    if (reg_op isfree bitmap pos order).1
    then ((reg_op alloc bitmap pos order).0, ok 0)
    else (bitmap, err ebusy)
