-- ===== src/Tests/Areas.antt =====
-- Searches for ranges of clear bits.
use mpipin.Base.{ℕ, zero, suc, ◌≡◌, refl, arith, [], ◌∷◌}
use mpipin.Word.{bit_not, shl, shr}
use mpipin.Bitops.{
  Words, IsWords, get_bit, ffs, skip_zeros, has_word, found_first, find_loop, find_next_bit,
}
use mpipin.Bitops.Zero.{ffz, found_first_zero, zero_loop, find_next_zero_bit}
use mpipin.Bitmap.Area.{align_mask_up, find_area_from, bitmap_find_next_zero_area}
use mpipin.Bitmap.Area.Search.{IsAreaSearch, bitmap_find_next_zero_area-IsAreaSearch}

-- Bits 0, 2, 3 and 9.
abbrev bits : Words
bits = 525 ∷ []

area : (start nr align_mask : ℕ) → ℕ
unfolding bit_not shl shr ffs skip_zeros has_word found_first find_loop find_next_bit ffz
    found_first_zero zero_loop find_next_zero_bit align_mask_up find_area_from
    bitmap_find_next_zero_area
area start nr align_mask = bitmap_find_next_zero_area bits 20 start nr align_mask

first_area : area 0 3 0 ≡ 4
unfolding area
first_area = refl

aligned_area : area 0 2 7 ≡ 16
unfolding area
aligned_area = refl

-- The end of the last place that was looked at.
no_area : area 0 11 0 ≡ 21
unfolding area
no_area = refl

bits-IsWords : IsWords bits
bits-IsWords zero = omega arith
bits-IsWords (suc k) = omega arith

bitmap_find_next_zero_area-IsAreaSearch_example :
    IsAreaSearch (get_bit bits) 20 2 8 0 (bitmap_find_next_zero_area bits 20 0 2 7)
bitmap_find_next_zero_area-IsAreaSearch_example =
    bitmap_find_next_zero_area-IsAreaSearch bits 20 0 2 3 bits-IsWords (omega arith) (omega arith)
      (omega arith) (omega arith)
