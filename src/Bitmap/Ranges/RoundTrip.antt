-- ===== src/Bitmap/Ranges/RoundTrip.antt =====
-- bitmap_parselist reads what bitmap_scnlistprintf prints.
use mpipin.Base.{
  ℕ, zero, suc, ◌+◌, ◌*◌, ◌/◌, ◌%◌, ◌^◌, ◌≤◌, ◌<◌, ◌≡◌, refl, ◌∙◌, ap, arith, true, false, ◌==◌,
  Bool-cases, dec_lt, inl, inr, [], ◌∷◌, length, none, le→ltb, lt→ltb, lt→leb,
}
use mpipin.Ascii.{Text, span_to, decimal_onto, decimal}
use mpipin.Bitops.{Words, IsWords, get_bit, find_first_bit, set_bit}
use mpipin.Bitmap.Fold.{bitmap_zero}
use mpipin.Bitmap.Fold.Law.{bitmap_zero_bits, length-bitmap_zero}
use mpipin.Bitmap.Ranges.{
  parselist, bitmap_parselist, bitmap_scnlistprintf, set_range, parse_ranges, end_range,
}
use mpipin.Bitmap.Ranges.Runs.{
  Ranges, AreBelow, runs, set_ranges, IsRuns, all_runs-IsRuns, get_bit-set_ranges,
}
use mpipin.Bitmap.Ranges.Printing.{
  range_text, commas_text, list_text, PrintedAs, bitmap_scnlistprintf-PrintedAs,
}
use mpipin.Bitmap.Ranges.Scanning.{scan-list_text}

-- No line feed stands in the text of a list, so that all of it is read.
abbrev OneLine : Text → Type 0
OneLine s = span_to 10 s ≡ length s

decimal_onto-OneLine :
    (fuel m : ℕ) (rest : Text) → OneLine rest → OneLine (decimal_onto fuel m rest)
unfolding decimal_onto
decimal_onto-OneLine zero m rest h = h
decimal_onto-OneLine (suc fuel) m rest h =
    let digit : OneLine ((b'0' + m % 10) ∷ rest) = ground (arith, h) in
    elim (dec_lt m 10) [
      | yes one ↦ rw (lt→ltb m 10 one) digit
      | no more ↦
          rw (le→ltb m 10 (omega arith))
            (decimal_onto-OneLine fuel (m / 10) ((b'0' + m % 10) ∷ rest) digit)
    ]

range_text-OneLine : (r : ℕ × ℕ) (rest : Text) → OneLine rest → OneLine (range_text r rest)
unfolding range_text decimal
range_text-OneLine (lo, hi) rest h = elim (Bool-cases (lo == hi)) [
  | inl one ↦ rw one (decimal_onto-OneLine (suc lo) lo rest h)
  | inr two ↦ rw two (
      decimal_onto-OneLine (suc lo) lo (b'-' ∷ decimal_onto (suc hi) hi rest)
        (ap suc (decimal_onto-OneLine (suc hi) hi rest h)))
]

commas_text-OneLine : (rs : Ranges) → OneLine (commas_text rs)
commas_text-OneLine [] = refl
commas_text-OneLine (r ∷ rs) =
    ap suc (range_text-OneLine r (commas_text rs) (commas_text-OneLine rs))

parselist-list_text :
    (n : ℕ) (r : ℕ × ℕ) (rs : Ranges) (dst : Words)
    → n ≤ 2 ^ 32
    → AreBelow n (r ∷ rs)
    → bitmap_parselist n (list_text (r ∷ rs)) dst ≡ (none, set_ranges (r ∷ rs) (bitmap_zero dst n))
unfolding bitmap_parselist parselist
parselist-list_text n r rs dst small below =
    rw (range_text-OneLine r (commas_text rs) (commas_text-OneLine rs)) (
      scan-list_text n r rs _ (bitmap_zero dst n) small below
        (record { b_zero = refl; a_zero = refl; first = refl; no_space = refl }))

-- What bitmap_scnlistprintf prints of a bitmap with a bit set below the size, bitmap_parselist accepts,
-- and sets below the size the bits of the bitmap and no others: for an array of words, a size of at
-- most 2^32, a buffer that is longer than the text, and a destination that holds the bits.
pub parselist-scnlistprintf :
    (buflen : ℕ) (maskp : Words) (n : ℕ) (dst : Words) (j : ℕ)
    → IsWords maskp
    → n ≤ 2 ^ 32
    → j < n
    → get_bit maskp j ≡ true
    → (bitmap_scnlistprintf buflen maskp n).len < buflen
    → n ≤ 64 * length dst
    → (dst' : Words) × (bitmap_parselist n (bitmap_scnlistprintf buflen maskp n).text dst
        ≡ (none, dst'))
      × ((i : ℕ) → i < n → get_bit dst' i ≡ get_bit maskp i)
parselist-scnlistprintf buflen maskp n dst j words small lt set fits room =
    go (runs maskp n n (find_first_bit maskp n) (find_first_bit maskp n))
      (all_runs-IsRuns maskp words n (omega arith))
      (bitmap_scnlistprintf-PrintedAs buflen maskp n (omega arith))
  where
    go :
        (rs : Ranges)
        → IsRuns maskp n 0 rs
        → PrintedAs buflen (list_text rs) (bitmap_scnlistprintf buflen maskp n)
        → (dst' : Words) × (bitmap_parselist n (bitmap_scnlistprintf buflen maskp n).text dst
            ≡ (none, dst'))
          × ((i : ℕ) → i < n → get_bit dst' i ≡ get_bit maskp i)
    go [] is printed = absurd (ground (arith, is.bits j lt, set))
    go (r ∷ rs) is printed =
        let whole = printed.content (omega (arith, printed.size)) in
        let zero = bitmap_zero dst n in
        (
          set_ranges (r ∷ rs) zero,
          ap (λ s. bitmap_parselist n s dst) whole ∙ parselist-list_text n r rs dst small is.below,
          λ i below. ground (
            arith,
            get_bit-set_ranges (r ∷ rs) n zero i is.below (omega (arith, length-bitmap_zero dst n)),
            bitmap_zero_bits dst n i room below,
            is.bits i below,
          ),
        )

parselist-empty :
    (n : ℕ) (dst : Words)
    → 0 < n
    → bitmap_parselist n [] dst ≡ (none, set_bit 0 (bitmap_zero dst n))
unfolding bitmap_parselist parselist parse_ranges end_range set_range
parselist-empty n dst lt = rw (lt→leb n 0 lt)

-- Of a bitmap without a bit below the size, the text is empty; and of the empty text, bitmap_parselist
-- makes the bitmap with bit 0.
pub parselist-scnlistprintf_empty :
    (buflen : ℕ) (maskp : Words) (n : ℕ) (dst : Words)
    → IsWords maskp
    → n ≤ 2 ^ 32
    → 0 < n
    → 0 < buflen
    → ((i : ℕ) → i < n → get_bit maskp i ≡ false)
    → ((bitmap_scnlistprintf buflen maskp n).text ≡ [])
      × (bitmap_parselist n [] dst ≡ (none, set_bit 0 (bitmap_zero dst n)))
parselist-scnlistprintf_empty buflen maskp n dst words small some_bits room clear = (
  go (runs maskp n n (find_first_bit maskp n) (find_first_bit maskp n))
      (all_runs-IsRuns maskp words n (omega arith))
      (bitmap_scnlistprintf-PrintedAs buflen maskp n room),
  parselist-empty n dst some_bits,
)
  where
    go :
        (rs : Ranges)
        → IsRuns maskp n 0 rs
        → PrintedAs buflen (list_text rs) (bitmap_scnlistprintf buflen maskp n)
        → (bitmap_scnlistprintf buflen maskp n).text ≡ []
    go [] is printed = printed.content room
    go ((lo, hi) ∷ rs) is printed =
        let (le, lt, below) = is.below in
        absurd (ground (arith, is.bits lo (omega arith), clear lo (omega arith)))
