-- ===== src/Tests/Bits.antt =====
-- The searches for bits on small bitmaps.
use mpipin.Base.{ℕ, ◌≡◌, refl, arith, Option, none, some, [], ◌∷◌}
use mpipin.Base.{if◌then◌else◌}
use mpipin.Word.{bit_not, shl, shr}
use mpipin.Bitops.{
  Words, IsWords, get_bit, ffs, skip_zeros, has_word, found_first, find_loop, find_first_bit,
  find_next_bit,
}
use mpipin.Bitops.Ffs.{IsLowest, ffs-IsLowest}
use mpipin.Bitops.Find.{IsFirst, find_first_bit-IsFirst, find_next_bit-IsFirst}
use mpipin.CpuSet.{cpu_isset, for_each_cpu}
use mpipin.CpuSet.Each.{Searched, for_each_cpu-Searched}
use mpipin.Tests.Machine.{low_set, low_set-IsCpuSet}

-- Bits 3 and 70.
abbrev two_bits : Words
two_bits = 8 ∷ 64 ∷ []

two_bits-IsWords : IsWords two_bits
two_bits-IsWords = grind arith

found_bits : ℕ × ℕ × ℕ × ℕ
unfolding bit_not shl shr ffs skip_zeros has_word found_first find_loop find_first_bit find_next_bit
found_bits = (
  find_first_bit two_bits 128,
  find_next_bit two_bits 128 4,
  find_next_bit two_bits 128 71,
  find_next_bit two_bits 70 4,
)

found_bits_lem : found_bits ≡ (3, 70, 128, 70)
unfolding found_bits
found_bits_lem = refl

ffs-IsLowest_example : IsLowest 40 (ffs 40)
ffs-IsLowest_example = ffs-IsLowest 40 (omega arith) (omega arith)

find_first_bit-IsFirst_example : IsFirst (get_bit two_bits) 0 128 (find_first_bit two_bits 128)
find_first_bit-IsFirst_example = find_first_bit-IsFirst two_bits two_bits-IsWords 128 (omega arith)

find_next_bit-IsFirst_example : IsFirst (get_bit two_bits) 4 128 (find_next_bit two_bits 128 4)
find_next_bit-IsFirst_example =
    find_next_bit-IsFirst two_bits two_bits-IsWords 128 4 (omega arith) (omega arith)

-- The first CPU of {0, 2} that is also in {2, 3}.
abbrev common : ℕ → Option ℕ
common cpu = if cpu_isset cpu (low_set 12) then some cpu else none

for_each_cpu-Searched_example : Searched 4 0 (low_set 5) common (for_each_cpu 4 (low_set 5) common)
for_each_cpu-Searched_example =
    for_each_cpu-Searched 4 (low_set 5) common (omega arith) (low_set-IsCpuSet 5 (omega arith))
