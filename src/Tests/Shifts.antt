-- ===== src/Tests/Shifts.antt =====
-- Shifts of bitmaps.
use mpipin.Base.{ℕ, zero, suc, ◌≡◌, refl, arith, ◌&&◌, ltb, [], ◌∷◌}
use mpipin.Word.{shl, shr}
use mpipin.Bitops.{Words, IsWords, get_bit}
use mpipin.Bitmap.{bits_to_longs}
use mpipin.Bitmap.Logic.{write_words}
use mpipin.Bitmap.Kept.{IsMask}
use mpipin.Bitmap.Shift.{
  shifted_word, shift_words, bitmap_shift_left, right_word, bitmap_shift_right,
}
use mpipin.Bitmap.Shift.Back.{shift_right-shift_left}
use mpipin.Bitmap.Shift.Bits.{get_bit-bitmap_shift_left}

-- Bits 0 to 3, 7 and 69.
abbrev bits : Words
bits = 143 ∷ 32 ∷ []

left : (shift : ℕ) → Words
unfolding shl shr bits_to_longs write_words shifted_word shift_words bitmap_shift_left
left shift = bitmap_shift_left (9 ∷ 9 ∷ []) bits shift 100

left_two : left 62 ≡ 0xc000_0000_0000_0000 ∷ 35 ∷ []
unfolding left
left_two = refl

-- A whole word, in which the bit from place 100 on is lost.
left_word : left 64 ≡ 0 ∷ 143 ∷ []
unfolding left
left_word = refl

right : (shift : ℕ) → Words
unfolding shl shr bits_to_longs write_words right_word bitmap_shift_right
right shift = bitmap_shift_right (9 ∷ 9 ∷ []) bits shift 100

right_two : right 2 ≡ 35 ∷ 8 ∷ []
unfolding right
right_two = refl

right_word_off : right 69 ≡ 1 ∷ 0 ∷ []
unfolding right
right_word_off = refl

bits-IsWords : IsWords bits
bits-IsWords zero = omega arith
bits-IsWords (suc zero) = omega arith
bits-IsWords (suc (suc k)) = omega arith

bits-IsMask : IsMask 2 bits
bits-IsMask = record { size = refl; words = bits-IsWords }

get_bit-bitmap_shift_left_example : get_bit (bitmap_shift_left bits bits 62 100) 69 ≡ get_bit bits 7
get_bit-bitmap_shift_left_example =
    get_bit-bitmap_shift_left bits bits-IsMask.words 62 100 bits (omega arith) (omega arith) 69
      (omega arith)

shift_right-shift_left_example :
    get_bit (bitmap_shift_right bits (bitmap_shift_left bits bits 62 100) 62 100) 7
    ≡ (ltb 69 100 && get_bit bits 7)
shift_right-shift_left_example =
    shift_right-shift_left 62 100 7 bits-IsMask bits-IsMask bits-IsMask (omega arith) (omega arith)
      (omega arith)
