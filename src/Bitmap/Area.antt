-- ===== src/Bitmap/Area.antt =====
-- bitmap.c: bitmap_find_next_zero_area, the search for a range of clear bits at an aligned place.
pub mod Search
use mpipin.Base.{ℕ, zero, suc, ◌+◌, ◌%◌, ◌^◌, bit_and, Bool, ltb, if◌then◌else◌}
use mpipin.Word.{bit_not}
use mpipin.Bitops.{Words, find_next_bit}
use mpipin.Bitops.Zero.{find_next_zero_bit}

-- __ALIGN_MASK(x, mask) of include/bitops.h
unfoldable pub align_mask_up : (x mask : ℕ) → ℕ
align_mask_up x mask = bit_and ((x + mask) % 2 ^ 64) (bit_not mask)

-- The rounds from label `again` on, of which the fuel is the number.
unfoldable pub find_area_from : ℕ → Words → (size start nr align_mask : ℕ) → ℕ
find_area_from zero map size start nr align_mask = start
find_area_from (suc fuel) map size start nr align_mask =
    let index = align_mask_up (find_next_zero_bit map size start) align_mask in
    let end = (index + nr) % 2 ^ 64 in
    let i = find_next_bit map end index in
    let again = find_area_from fuel map size (i + 1) nr align_mask in
    if ltb size end then end else (if ltb i end then again else index)

unfoldable pub bitmap_find_next_zero_area : Words → (size start nr align_mask : ℕ) → ℕ
bitmap_find_next_zero_area map size start nr align_mask =
    find_area_from (size + 1) map size start nr align_mask
