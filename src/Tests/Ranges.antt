-- ===== src/Tests/Ranges.antt =====
-- Texts of lists of ranges.
use mpipin.Base.{ℕ, zero, suc, ◌<◌, ◌≡◌, refl, arith, true, false, [], ◌∷◌, Option, none, some}
use mpipin.Base.Errno.{Errno, einval, erange, eoverflow}
use mpipin.Ascii.{Text, codes, decimal_onto, decimal}
use mpipin.Bits.{word_bit}
use mpipin.Word.{bit_not, shl, shr}
use mpipin.Bitops.{
  Words, IsWords, get_bit, ffs, skip_zeros, has_word, found_first, find_loop, find_first_bit,
  find_next_bit, set_bit,
}
use mpipin.Bitmap.{bits_to_longs}
use mpipin.Bitmap.Logic.{write_words}
use mpipin.Bitmap.Fold.{bitmap_zero}
use mpipin.Bitmap.Shift.{shifted_word, shift_words, bitmap_shift_left}
use mpipin.Bitmap.Parse.{
  skip_high, fls, hex_to_bin, chunk_full, add_hex_digit, end_chunk, parse_chars, bitmap_parse,
}
use mpipin.Bitmap.Ranges.{
  Printed, add_digit, set_range, end_range, parse_ranges, parselist, bitmap_parselist, put,
  bscnl_emit, emit_ranges, bitmap_scnlistprintf,
}
use mpipin.Bitmap.Ranges.RoundTrip.{parselist-scnlistprintf, parselist-scnlistprintf_empty}

-- Bits 0 to 3, 7 and 69.
abbrev bits : Words
bits = 143 ∷ 32 ∷ []

print : (buflen : ℕ) → Printed
unfolding bit_not shl shr ffs skip_zeros has_word found_first find_loop find_first_bit find_next_bit
    put bscnl_emit emit_ranges bitmap_scnlistprintf decimal_onto decimal
print buflen = bitmap_scnlistprintf buflen bits 70

printed : print 20 ≡ record { text = codes "0-3,7,69"; len = 8; past_end = false }
unfolding print
printed = refl

-- A buffer of 4 bytes: `len` goes on to the length of the whole text, and past the buffer's end.
cut : print 4 ≡ record { text = codes "0-3"; len = 8; past_end = true }
unfolding print
cut = refl

read : Text → Option Errno × Words
unfolding add_digit set_range end_range parse_ranges parselist bitmap_parselist set_bit shl
    bits_to_longs write_words bitmap_zero
read text = bitmap_parselist 70 text (5 ∷ 5 ∷ [])

ranges_read : read (codes " 0-3,7,69 \nrest") ≡ (none, bits)
unfolding read
ranges_read = refl

-- The errors, and two texts that are accepted though a number is missing.
bad_order : (read (codes "3-1")).0 ≡ some einval
unfolding read
bad_order = refl

bad_space : (read (codes "1 2")).0 ≡ some einval
unfolding read
bad_space = refl

too_large : (read (codes "70")).0 ≡ some erange
unfolding read
too_large = refl

no_number : (read [] ≡ (none, 1 ∷ 0 ∷ [])) × (read (codes "3,,5") ≡ (none, 41 ∷ 0 ∷ []))
unfolding read
no_number = (refl, refl)

read_hex : Text → Option Errno × Words
unfolding skip_high fls hex_to_bin shifted_word shift_words bitmap_shift_left chunk_full
    add_hex_digit end_chunk parse_chars bitmap_parse bit_not shl shr bits_to_longs write_words
    bitmap_zero
read_hex text = bitmap_parse 70 text 4096 (5 ∷ 5 ∷ [])

hex_read : read_hex (codes "20,00000000,0000008F\n") ≡ (none, bits)
unfolding read_hex
hex_read = refl

hex_errors :
    ((read_hex (codes "40,00000000,00000000")).0 ≡ some eoverflow)
    × ((read_hex (codes "123456789")).0 ≡ some eoverflow)
    × ((read_hex (codes "1,,5")).0 ≡ some einval)
unfolding read_hex
hex_errors = (refl, refl, refl)

bits-IsWords : IsWords bits
bits-IsWords zero = omega arith
bits-IsWords (suc zero) = omega arith
bits-IsWords (suc (suc k)) = omega arith

bit_seven : get_bit bits 7 ≡ true
unfolding get_bit word_bit
bit_seven = refl

fits : (bitmap_scnlistprintf 20 bits 70).len < 20
unfolding print
fits = omega arith

parselist-scnlistprintf_example :
    (dst' : Words) × (bitmap_parselist 70 (bitmap_scnlistprintf 20 bits 70).text (5 ∷ 5 ∷ [])
      ≡ (none, dst'))
    × ((i : ℕ) → i < 70 → get_bit dst' i ≡ get_bit bits i)
parselist-scnlistprintf_example =
    parselist-scnlistprintf 20 bits 70 (5 ∷ 5 ∷ []) 7 bits-IsWords (omega arith) (omega arith)
      bit_seven fits (omega arith)

none_set : (i : ℕ) → i < 3 → get_bit (8 ∷ []) i ≡ false
unfolding get_bit word_bit
none_set zero lt = refl
none_set (suc zero) lt = refl
none_set (suc (suc zero)) lt = refl
none_set (suc (suc (suc i))) lt = absurd (omega arith)

one_word : IsWords (8 ∷ [])
one_word zero = omega arith
one_word (suc k) = omega arith

parselist-scnlistprintf_empty_example :
    ((bitmap_scnlistprintf 20 (8 ∷ []) 3).text ≡ [])
    × (bitmap_parselist 3 [] (0 ∷ []) ≡ (none, set_bit 0 (bitmap_zero (0 ∷ []) 3)))
parselist-scnlistprintf_empty_example =
    parselist-scnlistprintf_empty 20 (8 ∷ []) 3 (0 ∷ []) one_word (omega arith) (omega arith)
      (omega arith) none_set
