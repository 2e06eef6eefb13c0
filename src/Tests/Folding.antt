-- ===== src/Tests/Folding.antt =====
-- Bits 1, 6 and 65 folded modulo 5.
use mpipin.Base.{zero, suc, ◌≡◌, ◌↔◌, refl, arith, true, false, [], ◌∷◌}
use mpipin.Word.{bit_not, shl, shr}
use mpipin.Bitops.{
  Words, get_bit, IsWords, ffs, skip_zeros, has_word, found_first, find_loop, find_first_bit,
  find_next_bit, set_bit,
}
use mpipin.Bitmap.{bits_to_longs}
use mpipin.Bitmap.Logic.{write_words}
use mpipin.Bitmap.Fold.{for_bits, for_each_set_bit, bitmap_zero, bitmap_fold}
use mpipin.Bitmap.Fold.Visit.{visit, for_each_set_bit-visit}
use mpipin.Bitmap.Fold.Law.{Folds, bitmap_fold_iff}

abbrev wide : Words
wide = 66 ∷ 2 ∷ []

wide-IsWords : IsWords wide
wide-IsWords zero = omega arith
wide-IsWords (suc zero) = omega arith
wide-IsWords (suc (suc k)) = omega arith

folded : Words
unfolding bit_not shl shr ffs skip_zeros has_word found_first find_loop find_first_bit find_next_bit
    set_bit bits_to_longs write_words for_bits for_each_set_bit bitmap_zero bitmap_fold
folded = bitmap_fold false (7 ∷ 7 ∷ []) wide 5 70

two_bits : folded ≡ 3 ∷ 0 ∷ []
unfolding folded
two_bits = refl

bitmap_fold_iff_example :
    (get_bit (bitmap_fold false (7 ∷ 7 ∷ []) wide 5 70) 1 ≡ true) ↔ Folds wide 5 70 0 1
bitmap_fold_iff_example =
    bitmap_fold_iff (7 ∷ 7 ∷ []) wide 5 70 1 wide-IsWords (omega arith) (omega arith) (omega arith)
      (omega arith) (omega arith)

for_each_set_bit-visit_example :
    for_each_set_bit wide 70 (λ i l. i ∷ l) [] ≡ visit wide 70 (λ i l. i ∷ l) 70 0 []
for_each_set_bit-visit_example =
    for_each_set_bit-visit wide 70 (λ i l. i ∷ l) wide-IsWords (omega arith) []
