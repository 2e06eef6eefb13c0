-- ===== src/Bitmap/Ranges/Kept.antt =====
-- Whatever the text, the reading of a list of ranges leaves an array of as many words.
use mpipin.Base.{
  ℕ, zero, suc, ◌+◌, ◌-◌, ◌==◌, ◌||◌, ◌&&◌, not, some, none, ltb, leb, both_branches, both_outcomes,
}
use mpipin.Base.Errno.{einval}
use mpipin.Ascii.{Text, is_space, is_digit, char_at, next_char, span_to}
use mpipin.Bitops.{Words}
use mpipin.Bitmap.Kept.{IsMask, Leaves, leave, bitmap_zero-IsMask, set_bit-IsMask}
use mpipin.Bitmap.Ranges.{
  ListState, new_range, set_range, add_digit, start_range, end_range, parse_ranges, parselist,
  bitmap_parselist,
}

set_range-IsMask : {n : ℕ} (rounds a : ℕ) {m : Words} → IsMask n m → IsMask n (set_range rounds a m)
unfolding set_range
set_range-IsMask zero a h = h
set_range-IsMask (suc rounds) a h = set_range-IsMask rounds (a + 1) (set_bit-IsMask a h)

module _ (n bits : ℕ) where
  end_range-Leaves : {m : Words} (s : ListState) → IsMask n m → Leaves n (end_range bits s m)
  unfolding end_range
  end_range-Leaves s h =
      both_branches (Leaves n) (ltb s.b s.a) (record { mask = h })
        (both_branches (Leaves n) (leb bits s.b) (record { mask = h })
          (record { mask = set_range-IsMask (s.b + 1 - s.a) s.a h }))

  parse_ranges-Leaves :
      (buflen : ℕ) (buf : Text) {m : Words} (s : ListState)
      → IsMask n m
      → Leaves n (parse_ranges bits buflen buf s m)
  unfolding parse_ranges
  parse_ranges-Leaves zero buf s h = end_range-Leaves s h
  parse_ranges-Leaves (suc buflen) buf {m} s h =
      let c = char_at buf in
      let ended = (end_range-Leaves s h).mask in
      both_branches (Leaves n) (is_space c)
        (parse_ranges-Leaves buflen (next_char buf) (record s { c = c }) h)
        (both_branches (Leaves n) (not (s.totaldigits == 0) && not (c == 0) && is_space s.c)
          (leave (some einval) h)
          (both_branches (Leaves n) (c == 0 || c == b',')
            (both_outcomes (Leaves n) (end_range bits s m).0
              {f = λ error. (some error, (end_range bits s m).1)}
              (λ error. leave (some error) ended)
              (both_branches (Leaves n) (not (buflen == 0) && c == b',')
                (parse_ranges-Leaves buflen (next_char buf) (new_range (record s { c = c })) ended)
                (leave none ended)))
            (both_branches (Leaves n) (c == b'-')
              (both_branches (Leaves n) (s.exp_digit || s.in_range) (leave (some einval) h)
                (parse_ranges-Leaves buflen (next_char buf) (start_range s) h))
              (both_branches (Leaves n) (not (is_digit c)) (leave (some einval) h)
                (parse_ranges-Leaves buflen (next_char buf) (add_digit c s) h)))))

pub bitmap_parselist-Leaves :
    {n : ℕ} {m : Words} (bits : ℕ) (bp : Text) → IsMask n m → Leaves n (bitmap_parselist bits bp m)
unfolding bitmap_parselist parselist
bitmap_parselist-Leaves {n} bits bp h =
    parse_ranges-Leaves n bits (span_to 10 bp) bp _ (bitmap_zero-IsMask bits h)
