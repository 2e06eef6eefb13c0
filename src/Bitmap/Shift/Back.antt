-- ===== src/Bitmap/Shift/Back.antt =====
-- Shifts of a bitmap there and back.
use mpipin.Base.{ℕ, ◌+◌, ◌-◌, ◌*◌, ◌≤◌, ◌<◌, ◌≡◌, ◌∙◌, arith, ◌&&◌, ltb, dec_lt}
use mpipin.Bitops.{Words, get_bit}
use mpipin.Bitmap.Kept.{IsMask}
use mpipin.Bitmap.Shift.{bitmap_shift_left, bitmap_shift_right}
use mpipin.Bitmap.Shift.Bits.{get_bit-bitmap_shift_left, get_bit-bitmap_shift_right}
use mpipin.Bitmap.Shift.Kept.{bitmap_shift_left-IsMask}

-- Bits that are shifted left and, by as many places, right are where they were, and those that the
-- shift to the left moves past the size are lost: for arrays of as many words, with room for the size,
-- and a shift of at most the size.
pub shift_right-shift_left :
    {n : ℕ} {there back src : Words} (shift bits i : ℕ)
    → IsMask n there
    → IsMask n back
    → IsMask n src
    → bits ≤ 64 * n
    → shift ≤ bits
    → i < bits
    → get_bit (bitmap_shift_right back (bitmap_shift_left there src shift bits) shift bits) i
      ≡ (ltb (i + shift) bits && get_bit src i)
shift_right-shift_left {there} {back} {src} shift bits i t b s fits short lt =
    let shifted = bitmap_shift_left-IsMask shift bits t s in
    get_bit-bitmap_shift_right (bitmap_shift_left there src shift bits) shifted.words shift bits
      back (omega (arith, b.size)) short i lt
    ∙ (elim (dec_lt (i + shift) bits) [
      | no lost ↦ ground arith
      | yes kept ↦
          let same : i + shift - shift ≡ i = omega arith in
          let moved =
            get_bit-bitmap_shift_left src s.words shift bits there (omega (arith, t.size)) short
              (i + shift) kept in
          ground (arith, moved, same)
    ])
