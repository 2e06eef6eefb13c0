-- ===== src/Bitmap/Parse/Kept.antt =====
-- Whatever the text, __bitmap_parse leaves an array of as many words.
use mpipin.Base.{
  ℕ, zero, suc, ◌*◌, ◌%◌, ◌^◌, ◌<◌, arith, bit_or, not, ◌&&◌, ◌||◌, ◌==◌, both_branches,
  both_outcomes, Option, none, some,
}
use mpipin.Base.Int.{ℤ, pos, negsuc}
use mpipin.Base.Errno.{Errno, einval, eoverflow}
use mpipin.Bits.{lt_of_bits, word_bit_high, word_bit-bit_or}
use mpipin.Word.{IsWord, bit_or-IsWord}
use mpipin.Ascii.{Text, is_space, is_hex_digit, char_at, next_char}
use mpipin.Bitops.{Words}
use mpipin.Bitmap.Kept.{Leaves, leave, IsMask, set-IsMask, bitmap_zero-IsMask}
use mpipin.Bitmap.Shift.Kept.{bitmap_shift_left-IsMask}
use mpipin.Bitmap.Parse.{
  to_u32, hex_to_bin, ParseState, chunk_full, add_hex_digit, new_chunk, end_chunk, parse_chars,
  bitmap_parse,
}

to_u32-lt : (z : ℤ) → to_u32 z < 2 ^ 32
to_u32-lt (pos n) = omega arith
to_u32-lt (negsuc n) = omega arith

bit_or_lt : (k a b : ℕ) → a < 2 ^ k → b < 2 ^ k → bit_or a b < 2 ^ k
bit_or_lt k a b h l =
    lt_of_bits k _
      (λ i le. rw (word_bit-bit_or a b i, word_bit_high k a i h le, word_bit_high k b i l le))

add_hex_digit-IsWord : (c : ℕ) (s : ParseState) → IsWord (add_hex_digit c s).chunk
unfolding add_hex_digit
add_hex_digit-IsWord c s = omega (
  arith,
  bit_or_lt 32 (s.chunk * 2 ^ 4 % 2 ^ 32) (to_u32 (hex_to_bin c)) (omega arith)
      (to_u32-lt (hex_to_bin c)),
)

module _ (n bits : ℕ) where
  -- What the end of a chunk leaves.
  abbrev Kept : Option Errno × ParseState × Words → Type 0
  Kept (e, s, m) = IsWord s.chunk × IsMask n m

  end_chunk-Kept :
      {m : Words} (s : ParseState) → IsWord s.chunk → IsMask n m → Kept (end_chunk bits s m)
  unfolding end_chunk
  end_chunk-Kept {m} s word h =
      let shifted = bitmap_shift_left-IsMask 32 bits h h in
      let more = set-IsMask 0 _ shifted (bit_or-IsWord _ _ (shifted.words 0) word) in
      both_branches Kept (s.ndigits == 0) (word, h)
        (both_branches Kept (s.nchunks == 0 && s.chunk == 0) (word, h)
          (both_branches Kept _ (word, more) (word, more)))

  parse_chars-Leaves :
      (buflen : ℕ) (buf : Text) {m : Words} (s : ParseState)
      → IsWord s.chunk
      → IsMask n m
      → Leaves n (parse_chars bits buflen buf s m)
  unfolding parse_chars
  parse_chars-Leaves zero buf s word h = record { mask = (end_chunk-Kept s word h).1 }
  parse_chars-Leaves (suc buflen) buf {m} s word h =
      let c = char_at buf in
      let buf' = next_char buf in
      let (word', ended) = end_chunk-Kept (record s { c = c }) word h in
      let none_yet : IsWord 0 = omega arith in
      both_branches (Leaves n) (is_space c)
        (parse_chars-Leaves buflen buf' (record s { c = c }) word h)
        (both_branches (Leaves n) (not (s.totaldigits == 0) && not (c == 0) && is_space s.c)
          (leave (some einval) h)
          (both_branches (Leaves n) (c == 0 || c == b',')
            (both_outcomes (Leaves n) (end_chunk bits (record s { c = c }) m).0
              {f = λ error. (some error, (end_chunk bits (record s { c = c }) m).2)}
              (λ error. leave (some error) ended)
              (both_branches (Leaves n) (not (buflen == 0) && c == b',')
                (parse_chars-Leaves buflen buf'
                  (new_chunk (end_chunk bits (record s { c = c }) m).1) none_yet ended)
                (leave none ended)))
            (both_branches (Leaves n) (not (is_hex_digit c)) (leave (some einval) h) (
              both_branches (Leaves n) (chunk_full s.chunk) (leave (some eoverflow) h) (
                parse_chars-Leaves buflen buf' (add_hex_digit c s) (add_hex_digit-IsWord c s) h)))))

-- Whatever the text and whether it is accepted, bitmap_parse leaves an array of as many words, each of
-- 64 bits, where it was given one.
pub bitmap_parse-Leaves :
    {n : ℕ} {m : Words} (bits : ℕ) (buf : Text) (buflen : ℕ)
    → IsMask n m
    → Leaves n (bitmap_parse bits buf buflen m)
unfolding bitmap_parse
bitmap_parse-Leaves {n} bits buf buflen h =
    parse_chars-Leaves n bits buflen buf _ (omega arith) (bitmap_zero-IsMask bits h)
