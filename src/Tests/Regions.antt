-- ===== src/Tests/Regions.antt =====
-- Searches for clear bits, and the allocation of regions.
use mpipin.Base.{ℕ, zero, suc, ◌≡◌, refl, arith, false, not, [], ◌∷◌}
use mpipin.Base.Errno.{Result, ok, err, enomem, ebusy}
use mpipin.Word.{bit_not, shl, shr}
use mpipin.Bitops.{Words, get_bit, IsWords, ffs, skip_zeros, has_word}
use mpipin.Bitops.Find.{IsFirst}
use mpipin.Bitops.Zero.{ffz, found_first_zero, zero_loop, find_first_zero_bit, find_next_zero_bit}
use mpipin.Bitops.Zero.Flip.{find_first_zero_bit-IsFirst, find_next_zero_bit-IsFirst}
use mpipin.Bitmap.{bits_to_longs}
use mpipin.Bitmap.Logic.{all_clear}
use mpipin.Bitmap.Range.{set_mask, clear_mask}
use mpipin.Bitmap.Region.{
  reg_mask, change_words, reg_op, find_region_from, bitmap_find_free_region, bitmap_release_region,
  bitmap_allocate_region,
}
use mpipin.Bitmap.Region.Allocate.{
  Filled, Allocation, Search, bitmap_allocate_region-Allocation, bitmap_release_region-Filled,
  bitmap_find_free_region-Search,
}

abbrev used : Words
used = 255 ∷ 3 ∷ []

used-IsWords : IsWords used
used-IsWords zero = omega arith
used-IsWords (suc zero) = omega arith
used-IsWords (suc (suc k)) = omega arith

-- The first region of 4 bits that is clear is the third; one of 64 bits is not found.
regions : (Words × Result ℕ) × (Words × Result ℕ) × (Words × Result ℕ)
unfolding shl bit_not bits_to_longs all_clear set_mask clear_mask reg_mask change_words reg_op
    find_region_from bitmap_find_free_region bitmap_release_region bitmap_allocate_region
regions = (
  bitmap_find_free_region used 70 2,
  bitmap_find_free_region used 128 6,
  bitmap_allocate_region used 4 2,
)

regions_found : regions ≡ ((4095 ∷ 3 ∷ [], ok 8), (used, err enomem), (used, err ebusy))
unfolding regions
regions_found = refl

clear_bits : ℕ × ℕ × ℕ
unfolding shl shr bit_not ffs skip_zeros has_word ffz found_first_zero zero_loop find_first_zero_bit
    find_next_zero_bit
clear_bits =
    (find_first_zero_bit used 70, find_next_zero_bit used 70 64, find_next_zero_bit used 66 64)

clear_bits_found : clear_bits ≡ (8, 66, 66)
unfolding clear_bits
clear_bits_found = refl

find_first_zero_bit-IsFirst_example :
    IsFirst (λ i. not (get_bit used i)) 0 70 (find_first_zero_bit used 70)
find_first_zero_bit-IsFirst_example =
    find_first_zero_bit-IsFirst used used-IsWords 70 (omega arith) (omega arith)

find_next_zero_bit-IsFirst_example :
    IsFirst (λ i. not (get_bit used i)) 64 70 (find_next_zero_bit used 70 64)
find_next_zero_bit-IsFirst_example =
    find_next_zero_bit-IsFirst used used-IsWords 70 (omega arith) (omega arith) 64 (omega arith)

bitmap_allocate_region-Allocation_example : Allocation used 8 2 (bitmap_allocate_region used 8 2)
bitmap_allocate_region-Allocation_example =
    bitmap_allocate_region-Allocation used 8 2 refl (omega arith)

bitmap_release_region-Filled_example : Filled false used (bitmap_release_region used 4 2) 4 2
bitmap_release_region-Filled_example = bitmap_release_region-Filled used 4 2 refl (omega arith)

bitmap_find_free_region-Search_example : Search used 70 2 0 (bitmap_find_free_region used 70 2)
bitmap_find_free_region-Search_example =
    bitmap_find_free_region-Search used 70 2 (omega arith) (omega arith)
