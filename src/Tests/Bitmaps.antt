-- ===== src/Tests/Bitmaps.antt =====
-- The operations of bitmap.c on bitmaps of 70 and of 100 bits.
use mpipin.Base.{
  ℕ, zero, suc, ◌+◌, ◌<◌, ◌*◌, ◌-◌, ◌^◌, ◌≡◌, ◌↔◌, refl, arith, true, false, not, ◌&&◌, ltb, leb,
  if◌then◌else◌, [], ◌∷◌,
}
use mpipin.Word.{bit_not, shl}
use mpipin.Bitops.{Words, get_bit, IsWords}
use mpipin.Bitmap.{bits_to_longs, first_word_mask, last_word_mask}
use mpipin.Bitmap.Logic.{
  bitmap_empty, bitmap_full, bitmap_intersects, bitmap_subset, bitmap_equal, same_words, or_words,
  bitmap_complement, bitmap_and,
}
use mpipin.Bitmap.Logic.Tests.{
  bitmap_subset_iff, bitmap_equal_iff, bitmap_empty_iff, bitmap_full_iff, bitmap_intersects_iff,
}
use mpipin.Bitmap.Logic.Writes.{get_bit-bitmap_complement}
use mpipin.Bitmap.Range.{change_from, change_bits, set_mask, clear_mask, bitmap_set, bitmap_clear}
use mpipin.Bitmap.Range.Bits.{get_bit-bitmap_set, get_bit-bitmap_clear}

abbrev low : Words
low = 12 ∷ 0 ∷ []

abbrev high : Words
high = 14 ∷ 255 ∷ []

low-IsWords : IsWords low
low-IsWords zero = omega arith
low-IsWords (suc zero) = omega arith
low-IsWords (suc (suc k)) = omega arith

high-IsWords : IsWords high
high-IsWords zero = omega arith
high-IsWords (suc zero) = omega arith
high-IsWords (suc (suc k)) = omega arith

-- Bits 60 to 69.
ten_bits : Words × Words
unfolding first_word_mask last_word_mask shl bit_not change_from change_bits set_mask clear_mask
    bitmap_set bitmap_clear
ten_bits = (bitmap_set (0 ∷ 0 ∷ []) 60 10, bitmap_clear (all ∷ all ∷ []) 4 124)
  where
    all : ℕ
    all = 2 ^ 64 - 1

ten_bits_set : ten_bits ≡ (15 * 2 ^ 60 ∷ 63 ∷ [], 15 ∷ 0 ∷ [])
unfolding ten_bits
ten_bits_set = refl

-- The unused bits of the second word do not count.
same_six_bits : bitmap_equal (12 ∷ 64 ∷ []) (12 ∷ 128 ∷ []) 70 ≡ true
unfolding bitmap_equal same_words last_word_mask shl
same_six_bits = refl

-- But `bitmap_and` counts them in what it returns.
and_of_unused : (bitmap_and low (0 ∷ 64 ∷ []) (0 ∷ 64 ∷ []) 70).1 ≡ true
unfolding bitmap_and or_words bits_to_longs
and_of_unused = refl

bitmap_subset_iff_example :
    (bitmap_subset low high 70 ≡ true)
    ↔ ((i : ℕ) → i < 70 → get_bit low i ≡ true → get_bit high i ≡ true)
bitmap_subset_iff_example = bitmap_subset_iff low high 70 low-IsWords high-IsWords

bitmap_equal_iff_example :
    (bitmap_equal low high 70 ≡ true) ↔ ((i : ℕ) → i < 70 → get_bit low i ≡ get_bit high i)
bitmap_equal_iff_example = bitmap_equal_iff low high 70 low-IsWords high-IsWords

bitmap_empty_iff_example : (bitmap_empty low 70 ≡ true) ↔ ((i : ℕ) → i < 70 → get_bit low i ≡ false)
bitmap_empty_iff_example = bitmap_empty_iff low 70 low-IsWords

bitmap_full_iff_example : (bitmap_full high 70 ≡ true) ↔ ((i : ℕ) → i < 70 → get_bit high i ≡ true)
bitmap_full_iff_example = bitmap_full_iff high 70 high-IsWords

bitmap_intersects_iff_example :
    (bitmap_intersects low high 70 ≡ false)
    ↔ ((i : ℕ) → i < 70 → (get_bit low i && get_bit high i) ≡ false)
bitmap_intersects_iff_example = bitmap_intersects_iff low high 70 low-IsWords

get_bit-bitmap_complement_example :
    get_bit (bitmap_complement low high 70) 66 ≡ (ltb 66 70 && not (get_bit high 66))
get_bit-bitmap_complement_example =
    get_bit-bitmap_complement low high 70 66 high-IsWords (omega arith)
      (unfold bits_to_longs in omega arith)

get_bit-bitmap_set_example :
    get_bit (bitmap_set low 60 10) 65
    ≡ (if leb 60 65 && ltb 65 (60 + 10) then true else get_bit low 65)
get_bit-bitmap_set_example = get_bit-bitmap_set low 60 10 65 (omega arith)

get_bit-bitmap_clear_example :
    get_bit (bitmap_clear high 2 65) 65
    ≡ (if leb 2 65 && ltb 65 (2 + 65) then false else get_bit high 65)
get_bit-bitmap_clear_example = get_bit-bitmap_clear high 2 65 65 (omega arith)
