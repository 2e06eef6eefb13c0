-- ===== src/Bitmap/Parse.antt =====
-- bitmap.c and include/bitmap.h: the reading of hexadecimal texts, __bitmap_parse, with the `fls` of
-- include/arch/aarch64/arch-bitops.h that it uses.
pub mod Kept
use mpipin.Base.{
  ℕ, zero, suc, ◌+◌, ◌-◌, ◌*◌, ◌/◌, ◌%◌, ◌^◌, bit_and, bit_or, Bool, not, ◌&&◌, ◌||◌, ltb, leb,
  ◌==◌, if◌then◌else◌, set, Option, none, some,
}
use mpipin.Base.Int.{ℤ, pos, negsuc}
use mpipin.Base.Errno.{Errno, einval, eoverflow}
use mpipin.Ascii.{Text, is_space, is_hex_digit, to_lower, char_at, next_char}
use mpipin.Word.{bits_per_long, bit_not, shl, shr}
use mpipin.Bitops.{Words, word_at}
use mpipin.Bitmap.Shift.{bitmap_shift_left}
use mpipin.Bitmap.Logic.{write_words}
use mpipin.Bitmap.Fold.{bitmap_zero}

-- One round of `fls`: if the high bits under the mask are clear, shift them out of the 32.
unfoldable pub skip_high : (mask n : ℕ) → ℕ × ℕ → ℕ × ℕ
skip_high mask n (x, r) = if bit_and x mask == 0 then (x * 2 ^ n % 2 ^ 32, r - n) else (x, r)

unfoldable pub fls : ℕ → ℕ
fls x =
    let s = skip_high 0xffff_0000 16 (x, 32) in
    let s = skip_high 0xff00_0000 8 s in
    let s = skip_high 0xf000_0000 4 s in
    let s = skip_high 0xc000_0000 2 s in
    let s = skip_high 0x8000_0000 1 s in if x == 0 then 0 else s.1

unfoldable pub hex_to_bin : (ch : ℕ) → ℤ
hex_to_bin ch =
    let low = to_lower ch in
    if leb b'0' ch && leb ch b'9'
    then pos (ch - b'0')
    else if leb b'a' low && leb low b'f'
    then pos (low - b'a' + 10)
    else negsuc 0

-- An `int` as an operand of type u32.
abbrev pub to_u32 : ℤ → ℕ
to_u32 (pos n) = n % 2 ^ 32
to_u32 (negsuc n) = 2 ^ 32 - 1 - n % 2 ^ 32

-- The local variables of __bitmap_parse. `c` is the last character.
pub record ParseState : Type 0 where
  pub c : ℕ
  pub totaldigits : ℕ
  pub ndigits : ℕ
  pub nchunks : ℕ
  pub nbits : ℕ
  pub chunk : ℕ

abbrev chunksz : ℕ
chunksz = 32

-- chunk & ~((1UL << (CHUNKSZ - 4)) - 1)
unfoldable pub chunk_full : ℕ → Bool
chunk_full chunk = not (bit_and chunk (bit_not (shl 1 (chunksz - 4) - 1)) == 0)

unfoldable pub add_hex_digit : (c : ℕ) → ParseState → ParseState
add_hex_digit c s = record s {
  c = c;
  totaldigits = s.totaldigits + 1;
  ndigits = s.ndigits + 1;
  chunk = bit_or (s.chunk * 2 ^ 4 % 2 ^ 32) (to_u32 (hex_to_bin c));
}

-- A new round of the outer loop.
abbrev pub new_chunk : ParseState → ParseState
new_chunk s = record s { ndigits = 0; chunk = 0 }

module _ (nmaskbits : ℕ) where
  -- What follows the inner loop: the error, or none to go on, with the state and the mask.
  unfoldable pub end_chunk : ParseState → Words → Option Errno × ParseState × Words
  end_chunk s maskp =
      let shifted = bitmap_shift_left maskp maskp chunksz nmaskbits in
      let maskp' = set shifted 0 (bit_or (word_at shifted 0) s.chunk) in
      let nbits' = s.nbits + (if s.nchunks + 1 == 1 then fls s.chunk else chunksz) in
      let s' = record s { nchunks = s.nchunks + 1; nbits = nbits' } in
      if s.ndigits == 0
      then (some einval, s, maskp)
      else if s.nchunks == 0 && s.chunk == 0
      then (none, s, maskp)
      else if ltb nmaskbits nbits'
      then (some eoverflow, s', maskp')
      else (none, s', maskp')

  -- The two loops, from a test of the inner one on. The inner loop ends with the buffer or at a
  -- separator, and a comma that is not the last character starts another round of the outer loop.
  unfoldable pub parse_chars : (buflen : ℕ) → Text → ParseState → Words → Option Errno × Words
  parse_chars zero buf s maskp = let (e, s', maskp') = end_chunk s maskp in (e, maskp')
  parse_chars (suc buflen) buf s maskp =
      let c = char_at buf in
      let buf' = next_char buf in
      let skip = parse_chars buflen buf' (record s { c = c }) maskp in
      let digit = parse_chars buflen buf' (add_hex_digit c s) maskp in
      let (e, s', maskp') = end_chunk (record s { c = c }) maskp in
      let next = parse_chars buflen buf' (new_chunk s') maskp' in
      if is_space c
      then skip
      else if not (s.totaldigits == 0) && not (c == 0) && is_space s.c
      then (some einval, maskp)
      else if c == 0 || c == b','
      then elim e [
        | some error ↦ (some error, maskp')
        | none ↦ if not (buflen == 0) && c == b',' then next else (none, maskp')
      ]
      else if not (is_hex_digit c)
      then (some einval, maskp)
      else if chunk_full s.chunk
      then (some eoverflow, maskp)
      else digit

  unfoldable pub bitmap_parse : (buf : Text) → (buflen : ℕ) → Words → Option Errno × Words
  bitmap_parse buf buflen maskp =
      parse_chars buflen buf
        (record { c = 0; totaldigits = 0; ndigits = 0; nchunks = 0; nbits = 0; chunk = 0 })
        (bitmap_zero maskp nmaskbits)
