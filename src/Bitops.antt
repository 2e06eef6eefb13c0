-- ===== src/Bitops.antt =====
-- bitops.c, include/bitops.h and include/arch/aarch64/arch-bitops.h: searches for set bits in an
-- array of words. A bitmap is the list of its words. A read past the end, which C leaves undefined,
-- gives 0 here; the theorems are about sizes that fit the array.
pub mod Ffs
pub mod Find
pub mod Zero
use mpipin.Base.{
  ℕ, zero, suc, ◌+◌, ◌-◌, ◌*◌, ◌/◌, ◌%◌, ◌^◌, bit_and, bit_or, Bool, not, leb, ltb, ◌==◌,
  if◌then◌else◌, List, get_or, set,
}
use mpipin.Bits.{word_bit}
use mpipin.Word.{IsWord, bits_per_long, bit_not, all_ones, shl, shr}

abbrev pub Words : Type 0
Words = List ℕ

abbrev pub word_at : Words → ℕ → ℕ
word_at ws k = get_or ws k 0

-- Bit `i` of a bitmap, the view in which its operations are specified.
unfoldable pub get_bit : Words → ℕ → Bool
get_bit ws i = word_bit (word_at ws (i / 64)) (i % 64)

abbrev pub IsWords : Words → Type 0
IsWords ws = (k : ℕ) → IsWord (word_at ws k)

-- One round of `__ffs`: if the bits of the mask are clear, skip them.
unfoldable pub skip_zeros : (mask n : ℕ) → ℕ × ℕ → ℕ × ℕ
skip_zeros mask n (num, word) =
    if bit_and word mask == 0 then (num + n, shr word n) else (num, word)

-- `__ffs`: the index of the lowest set bit.
unfoldable pub ffs : ℕ → ℕ
ffs word =
    let s = skip_zeros 0xffff_ffff 32 (0, word) in
    let s = skip_zeros 0xffff 16 s in
    let s = skip_zeros 0xff 8 s in
    let s = skip_zeros 0xf 4 s in
    let s = skip_zeros 0x3 2 s in if bit_and s.1 0x1 == 0 then s.0 + 1 else s.0

-- `size & ~(BITS_PER_LONG-1)`, as the test of a loop.
unfoldable pub has_word : ℕ → Bool
has_word size = not (bit_and size (bit_not (bits_per_long - 1)) == 0)

-- From label `found_first` on: the last word, of which `size` bits count.
unfoldable pub found_first : (tmp result size : ℕ) → ℕ
found_first tmp result size =
    let tmp' = bit_and tmp (shr all_ones (bits_per_long - size)) in
    if tmp' == 0 then result + size else result + ffs tmp'

-- The loop over whole words and what follows it. `p` is the index of the word that the pointer
-- stands at. The fuel bounds the rounds: each takes 64 bits off `size`.
unfoldable pub find_loop : ℕ → Words → (p result size : ℕ) → ℕ
find_loop zero addr p result size = result
find_loop (suc fuel) addr p result size =
    let tmp = word_at addr p in
    let rest = find_loop fuel addr (p + 1) (result + bits_per_long) (size - bits_per_long) in
    if has_word size
    then (if tmp == 0 then rest else result + ffs tmp)
    else (if size == 0 then result else found_first tmp result size)

unfoldable pub find_first_bit : Words → (size : ℕ) → ℕ
find_first_bit addr size = find_loop (size / bits_per_long + 1) addr 0 0 size

unfoldable pub find_next_bit : Words → (size offset : ℕ) → ℕ
find_next_bit addr size offset =
    let p = offset / bits_per_long in
    let result = bit_and offset (bit_not (bits_per_long - 1)) in
    let size' = size - result in
    let offset' = offset % bits_per_long in
    let fuel = size / bits_per_long + 1 in
    if leb size offset
    then size
    else (if offset' == 0
        then find_loop fuel addr p result size'
        else (let tmp = bit_and (word_at addr p) (shl all_ones offset') in
            if ltb size' bits_per_long
            then found_first tmp result size'
            else (if tmp == 0
                then find_loop fuel addr (p + 1) (result + bits_per_long) (size' - bits_per_long)
                else result + ffs tmp)))

-- `test_bit` of include/bitops.h reads the array as 32-bit words: on a little-endian machine word k
-- of 32 bits is a half of word k / 2 of 64 bits.
abbrev half_at : Words → ℕ → ℕ
half_at ws k = shr (word_at ws (k / 2)) (32 * (k % 2)) % 2 ^ 32

unfoldable pub test_bit : ℕ → Words → Bool
test_bit nr addr = not (bit_and (shl 1 (bit_and nr 31)) (half_at addr (shr nr 5)) == 0)

-- `set_bit` and `clear_bit` of include/arch/aarch64/arch-bitops.h.
unfoldable pub set_bit : ℕ → Words → Words
set_bit nr addr =
    let mask = shl 1 (nr % bits_per_long) in
    let p = nr / bits_per_long in set addr p (bit_or (word_at addr p) mask)

unfoldable pub clear_bit : ℕ → Words → Words
clear_bit nr addr =
    let mask = shl 1 (nr % bits_per_long) in
    let p = nr / bits_per_long in set addr p (bit_and (word_at addr p) (bit_not mask))
