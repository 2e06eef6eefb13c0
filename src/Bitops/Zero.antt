-- ===== src/Bitops/Zero.antt =====
-- bitops.c: the searches for clear bits.
pub mod Flip
use mpipin.Base.{ℕ, zero, suc, ◌+◌, ◌-◌, ◌/◌, ◌%◌, bit_and, bit_or, leb, ltb, ◌==◌, if◌then◌else◌}
use mpipin.Word.{bits_per_long, bit_not, all_ones, shl, shr}
use mpipin.Bitops.{Words, word_at, ffs, has_word}

-- ffz(x)
unfoldable pub ffz : ℕ → ℕ
ffz x = ffs (bit_not x)

-- From label `found_first` on.
unfoldable pub found_first_zero : (tmp result size : ℕ) → ℕ
found_first_zero tmp result size =
    let tmp' = bit_or tmp (shl all_ones size) in
    if tmp' == all_ones then result + size else result + ffz tmp'

-- The loop over whole words and what follows it, with the fuel of `find_loop`.
unfoldable pub zero_loop : ℕ → Words → (p result size : ℕ) → ℕ
zero_loop zero addr p result size = result
zero_loop (suc fuel) addr p result size =
    let tmp = word_at addr p in
    let rest = zero_loop fuel addr (p + 1) (result + bits_per_long) (size - bits_per_long) in
    if has_word size
    then (if bit_not tmp == 0 then rest else result + ffz tmp)
    else (if size == 0 then result else found_first_zero tmp result size)

unfoldable pub find_first_zero_bit : Words → (size : ℕ) → ℕ
find_first_zero_bit addr size = zero_loop (size / bits_per_long + 1) addr 0 0 size

unfoldable pub find_next_zero_bit : Words → (size offset : ℕ) → ℕ
find_next_zero_bit addr size offset =
    let p = offset / bits_per_long in
    let result = bit_and offset (bit_not (bits_per_long - 1)) in
    let size' = size - result in
    let offset' = offset % bits_per_long in
    let fuel = size / bits_per_long + 1 in
    if leb size offset
    then size
    else (if offset' == 0
        then zero_loop fuel addr p result size'
        else (let tmp = bit_or (word_at addr p) (shr all_ones (bits_per_long - offset')) in
            if ltb size' bits_per_long
            then found_first_zero tmp result size'
            else (if bit_not tmp == 0
                then zero_loop fuel addr (p + 1) (result + bits_per_long) (size' - bits_per_long)
                else result + ffz tmp)))
