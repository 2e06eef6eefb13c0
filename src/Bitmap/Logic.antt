-- ===== src/Bitmap/Logic.antt =====
-- The tests and the logical operations of bitmap.c. A destination may be one of the sources: each word
-- is read before it is written, and not read again.
pub mod Loops
pub mod Tests
pub mod Writes
use mpipin.Base.{
  ℕ, zero, suc, ◌+◌, ◌/◌, ◌%◌, ◌==◌, Bool, true, false, not, if◌then◌else◌, bit_and, bit_or,
  bit_xor, set,
}
use mpipin.Word.{bits_per_long, bit_not}
use mpipin.Bitops.{Words, word_at}
use mpipin.Bitmap.{bits_to_longs, last_word_mask}

-- The loop `for (; k < lim; ++k) if (f(k)) return ...`, with the rounds left: whether it runs through.
unfoldable pub all_clear : ℕ → (k : ℕ) → (ℕ → ℕ) → Bool
all_clear zero k f = true
all_clear (suc left) k f = let rest = all_clear left (k + 1) f in if f k == 0 then rest else false

-- The whole words, and of the last the bits that are in use.
unfoldable pub no_bits : (ℕ → ℕ) → (bits : ℕ) → Bool
no_bits f bits =
    let lim = bits / bits_per_long in
    if all_clear lim 0 f
    then (if bits % bits_per_long == 0 then true else bit_and (f lim) (last_word_mask bits) == 0)
    else false

unfoldable pub bitmap_empty : Words → (bits : ℕ) → Bool
bitmap_empty bitmap bits = no_bits (word_at bitmap) bits

unfoldable pub bitmap_full : Words → (bits : ℕ) → Bool
bitmap_full bitmap bits = no_bits (λ k. bit_not (word_at bitmap k)) bits

unfoldable pub bitmap_intersects : Words → Words → (bits : ℕ) → Bool
bitmap_intersects bitmap1 bitmap2 bits =
    not (no_bits (λ k. bit_and (word_at bitmap1 k) (word_at bitmap2 k)) bits)

unfoldable pub bitmap_subset : Words → Words → (bits : ℕ) → Bool
bitmap_subset bitmap1 bitmap2 bits =
    no_bits (λ k. bit_and (word_at bitmap1 k) (bit_not (word_at bitmap2 k))) bits

unfoldable pub same_words : ℕ → (k : ℕ) → Words → Words → Bool
same_words zero k bitmap1 bitmap2 = true
same_words (suc left) k bitmap1 bitmap2 =
    let rest = same_words left (k + 1) bitmap1 bitmap2 in
    if word_at bitmap1 k == word_at bitmap2 k then rest else false

unfoldable pub bitmap_equal : Words → Words → (bits : ℕ) → Bool
bitmap_equal bitmap1 bitmap2 bits =
    let lim = bits / bits_per_long in
    if same_words lim 0 bitmap1 bitmap2
    then (if bits % bits_per_long == 0
        then true
        else bit_and (bit_xor (word_at bitmap1 lim) (word_at bitmap2 lim)) (last_word_mask bits)
          == 0)
    else false

-- The loop `for (; k < lim; ++k) dst[k] = f(k);`
unfoldable pub write_words : ℕ → (k : ℕ) → (ℕ → ℕ) → Words → Words
write_words zero k f dst = dst
write_words (suc left) k f dst = write_words left (k + 1) f (set dst k (f k))

-- The bits of all words that the loop writes: `result |= ...`
unfoldable pub or_words : ℕ → (k : ℕ) → (ℕ → ℕ) → (result : ℕ) → ℕ
or_words zero k f result = result
or_words (suc left) k f result = or_words left (k + 1) f (bit_or result (f k))

unfoldable pub bitmap_complement : (dst src : Words) → (bits : ℕ) → Words
bitmap_complement dst src bits =
    let lim = bits / bits_per_long in
    let dst' = write_words lim 0 (λ k. bit_not (word_at src k)) dst in
    if bits % bits_per_long == 0
    then dst'
    else set dst' lim (bit_and (bit_not (word_at src lim)) (last_word_mask bits))

-- The destination, and whether a word of it is not 0.
unfoldable pub bitmap_and : (dst bitmap1 bitmap2 : Words) → (bits : ℕ) → Words × Bool
bitmap_and dst bitmap1 bitmap2 bits =
    let f : ℕ → ℕ = λ k. bit_and (word_at bitmap1 k) (word_at bitmap2 k) in
    let nr = bits_to_longs bits in (write_words nr 0 f dst, not (or_words nr 0 f 0 == 0))

unfoldable pub bitmap_or : (dst bitmap1 bitmap2 : Words) → (bits : ℕ) → Words
bitmap_or dst bitmap1 bitmap2 bits =
    write_words (bits_to_longs bits) 0 (λ k. bit_or (word_at bitmap1 k) (word_at bitmap2 k)) dst

unfoldable pub bitmap_xor : (dst bitmap1 bitmap2 : Words) → (bits : ℕ) → Words
bitmap_xor dst bitmap1 bitmap2 bits =
    write_words (bits_to_longs bits) 0 (λ k. bit_xor (word_at bitmap1 k) (word_at bitmap2 k)) dst

unfoldable pub bitmap_andnot : (dst bitmap1 bitmap2 : Words) → (bits : ℕ) → Words × Bool
bitmap_andnot dst bitmap1 bitmap2 bits =
    let f : ℕ → ℕ = λ k. bit_and (word_at bitmap1 k) (bit_not (word_at bitmap2 k)) in
    let nr = bits_to_longs bits in (write_words nr 0 f dst, not (or_words nr 0 f 0 == 0))
