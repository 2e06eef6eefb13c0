-- ===== src/Bitmap/Ranges.antt =====
-- bitmap.c: bitmaps as lists of ranges in decimal, __bitmap_parselist, bitmap_parselist and
-- bitmap_scnlistprintf.
pub mod Kept
pub mod Runs
pub mod Printing
pub mod Scanning
pub mod RoundTrip
use mpipin.Base.{
  ℕ, zero, suc, ◌+◌, ◌-◌, ◌*◌, ◌/◌, ◌%◌, ◌^◌, Bool, true, false, not, ◌&&◌, ◌||◌, ltb, leb, ◌==◌,
  if◌then◌else◌, List, [], ◌∷◌, ◌++◌, length, Option, none, some,
}
use mpipin.Base.Errno.{Errno, einval, erange}
use mpipin.Ascii.{Text, is_space, is_digit, char_at, next_char, span_to, take, decimal}
use mpipin.Bitops.{Words, set_bit, find_first_bit, find_next_bit}
use mpipin.Bitmap.Fold.{bitmap_zero}

-- The local variables of __bitmap_parselist. `c` is the last character.
pub record ListState : Type 0 where
  pub c : ℕ
  pub totaldigits : ℕ
  pub exp_digit : Bool
  pub in_range : Bool
  pub a : ℕ
  pub b : ℕ

-- A new round of the outer loop.
abbrev pub new_range : ListState → ListState
new_range s = record s { exp_digit = true; in_range = false; a = 0; b = 0 }

unfoldable pub add_digit : (c : ℕ) → ListState → ListState
add_digit c s =
    let b' = (s.b * 10 + (c - b'0')) % 2 ^ 32 in
    record s {
      c = c;
      b = b';
      a = if s.in_range then s.a else b';
      exp_digit = false;
      totaldigits = s.totaldigits + 1;
    }

abbrev pub start_range : ListState → ListState
start_range s = record s { c = b'-'; b = 0; in_range = true; exp_digit = true }

-- The loop `while (a <= b) { set_bit(a, maskp); a++; }` with the rounds left. `b` is below the
-- size, so `a` does not wrap around.
unfoldable pub set_range : (rounds a : ℕ) → Words → Words
set_range zero a maskp = maskp
set_range (suc rounds) a maskp = set_range rounds (a + 1) (set_bit a maskp)

module _ (nmaskbits : ℕ) where
  -- What follows the inner loop: the error, or none to go on, and the mask.
  unfoldable pub end_range : ListState → Words → Option Errno × Words
  end_range s maskp =
      if ltb s.b s.a
      then (some einval, maskp)
      else if leb nmaskbits s.b
      then (some erange, maskp)
      else (none, set_range (s.b + 1 - s.a) s.a maskp)

  -- The two loops, from a test of the inner one on. The inner loop ends with the buffer or at a
  -- separator, and a comma that is not the last character starts another round of the outer loop.
  unfoldable pub parse_ranges : (buflen : ℕ) → Text → ListState → Words → Option Errno × Words
  parse_ranges zero buf s maskp = end_range s maskp
  parse_ranges (suc buflen) buf s maskp =
      let c = char_at buf in
      let buf' = next_char buf in
      let skip = parse_ranges buflen buf' (record s { c = c }) maskp in
      let dash = parse_ranges buflen buf' (start_range s) maskp in
      let digit = parse_ranges buflen buf' (add_digit c s) maskp in
      let (e, maskp') = end_range s maskp in
      let next = parse_ranges buflen buf' (new_range (record s { c = c })) maskp' in
      if is_space c
      then skip
      else if not (s.totaldigits == 0) && not (c == 0) && is_space s.c
      then (some einval, maskp)
      else if c == 0 || c == b','
      then elim e [
        | some error ↦ (some error, maskp')
        | none ↦ if not (buflen == 0) && c == b',' then next else (none, maskp')
      ]
      else if c == b'-'
      then (if s.exp_digit || s.in_range then (some einval, maskp) else dash)
      else if not (is_digit c)
      then (some einval, maskp)
      else digit

  unfoldable pub parselist : (buf : Text) → (buflen : ℕ) → Words → Option Errno × Words
  parselist buf buflen maskp =
      parse_ranges buflen buf
        (record { c = 0; totaldigits = 0; exp_digit = true; in_range = false; a = 0; b = 0 })
        (bitmap_zero maskp nmaskbits)

  -- Up to the first line feed, or the whole text.
  unfoldable pub bitmap_parselist : (bp : Text) → Words → Option Errno × Words
  bitmap_parselist bp maskp = parselist bp (span_to 10 bp) maskp

-- The buffer of bitmap_scnlistprintf: the string in it, the length that the calls of snprintf have
-- added up, and whether one was made with a negative size, which as a size_t is no bound.
pub record Printed : Type 0 where
  pub text : Text
  pub len : ℕ
  pub past_end : Bool

-- len += snprintf(buf + len, buflen - len, ...): the length that the whole text has is added, and what
-- fits before the terminator is written.
unfoldable pub put : (buflen : ℕ) → Text → Printed → Printed
put buflen s p = record {
  text = if ltb p.len buflen then p.text ++ take (buflen - p.len - 1) s else p.text;
  len = p.len + length s;
  past_end = p.past_end || ltb buflen p.len;
}

unfoldable pub bscnl_emit : (buflen rbot rtop : ℕ) → Printed → Printed
bscnl_emit buflen rbot rtop p =
    let p' = if ltb 0 p.len then put buflen (b',' ∷ []) p else p in
    if rbot == rtop
    then put buflen (decimal rbot []) p'
    else put buflen (decimal rbot (b'-' ∷ decimal rtop [])) p'

module _ (buflen : ℕ) (maskp : Words) (nmaskbits : ℕ) where
  -- Each round moves `cur` on.
  unfoldable pub emit_ranges : (fuel : ℕ) → (cur rbot : ℕ) → Printed → Printed
  emit_ranges zero cur rbot p = p
  emit_ranges (suc fuel) cur rbot p =
      let cur' = find_next_bit maskp nmaskbits (cur + 1) in
      let ends = leb nmaskbits cur' || ltb (cur + 1) cur' in
      let emitted = emit_ranges fuel cur' cur' (bscnl_emit buflen rbot cur p) in
      let longer = emit_ranges fuel cur' rbot p in
      if ltb cur nmaskbits then (if ends then emitted else longer) else p

  unfoldable pub bitmap_scnlistprintf : Printed
  bitmap_scnlistprintf =
      let first = find_first_bit maskp nmaskbits in
      let empty : Printed = record { text = []; len = 0; past_end = false } in
      if buflen == 0 then empty else emit_ranges nmaskbits first first empty
