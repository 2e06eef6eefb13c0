-- ===== src/Bitmap/Ranges/Scanning.antt =====
-- __bitmap_parselist reads the text of a list of ranges.
use mpipin.Base.{
  ℕ, zero, suc, ◌+◌, ◌-◌, ◌*◌, ◌/◌, ◌%◌, ◌^◌, ◌≤◌, ◌<◌, ◌≡◌, refl, ◌∙◌, ap₂, arith, true, false,
  ◌==◌, if◌then◌else◌, Bool-cases, dec_lt, inl, inr, [], ◌∷◌, length, Option, none, le→ltb, lt→ltb,
  lt→leb,
}
use mpipin.Base.Errno.{Errno}
use mpipin.Ascii.{Text, is_space, decimal_onto, decimal}
use mpipin.Bitops.{Words}
use mpipin.Bitmap.Ranges.{
  ListState, new_range, add_digit, start_range, set_range, end_range, parse_ranges,
}
use mpipin.Bitmap.Ranges.Runs.{Ranges, AreBelow, set_ranges}
use mpipin.Bitmap.Ranges.Printing.{range_text, commas_text, list_text, range_text_longer}

-- The number is read as the end of the range, and as its start if none was read.
record Reads (m : ℕ) (s t : ListState) : Type 0 where
  number : t.b ≡ m
  start : t.a ≡ (if s.in_range then s.a else m)
  same : t.in_range ≡ s.in_range
  digit : t.exp_digit ≡ false
  last : is_space t.c ≡ false

-- Fresh state in front of a range.
pub record IsFresh (s : ListState) : Type 0 where
  pub b_zero : s.b ≡ 0
  pub a_zero : s.a ≡ 0
  pub first : s.in_range ≡ false
  pub no_space : is_space s.c ≡ false

-- A range has been read.
record Read (lo hi : ℕ) (t : ListState) : Type 0 where
  bottom : t.a ≡ lo
  top : t.b ≡ hi
  no_space : is_space t.c ≡ false

module _ (n : ℕ) (maskp : Words) where
  -- What is left of the text is scanned from the state.
  abbrev scan : Text → ListState → Option Errno × Words
  scan rest s = parse_ranges n (length rest) rest s maskp

  digit_step :
      (d : ℕ) (rest : Text) (s : ListState)
      → d < 10
      → is_space s.c ≡ false
      → scan ((b'0' + d) ∷ rest) s ≡ scan rest (add_digit (b'0' + d) s)
  unfolding parse_ranges
  digit_step d rest s lt last = ground arith

  dash_step :
      (rest : Text) (s : ListState)
      → is_space s.c ≡ false
      → s.exp_digit ≡ false
      → s.in_range ≡ false
      → scan (b'-' ∷ rest) s ≡ scan rest (start_range s)
  unfolding parse_ranges
  dash_step rest s last digit range = ground arith

  comma_step :
      (rest : Text) (s : ListState)
      → 0 < length rest
      → is_space s.c ≡ false
      → s.a ≤ s.b
      → s.b < n
      → scan (b',' ∷ rest) s
        ≡ parse_ranges n
            (length rest)
            rest
            (new_range (record s { c = b',' }))
            (set_range (s.b + 1 - s.a) s.a maskp)
  unfolding parse_ranges end_range
  comma_step rest s more last le lt = ground arith

  end_step :
      (s : ListState)
      → s.a ≤ s.b
      → s.b < n
      → scan [] s ≡ (none, set_range (s.b + 1 - s.a) s.a maskp)
  unfolding parse_ranges end_range
  end_step s le lt = rw (le→ltb s.b s.a le, lt→leb n s.b lt)

  add_digit-Reads :
      (m : ℕ) (s t : ListState)
      → m < 2 ^ 32
      → t.b ≡ m / 10
      → t.in_range ≡ s.in_range
      → (s.in_range ≡ true → t.a ≡ s.a)
      → Reads m s (add_digit (b'0' + m % 10) t)
  unfolding add_digit
  add_digit-Reads m s t small tens same start = record {
    number = omega (arith, tens);
    start = elim (Bool-cases s.in_range) [
      | inl inside ↦ ground (arith, same, start inside, inside)
      | inr outside ↦
          let value : (t.b * 10 + (b'0' + m % 10 - b'0')) % 2 ^ 32 ≡ m = omega (arith, tens) in
          ground (arith, same, outside, value)
    ];
    same = same;
    digit = refl;
    last = ground arith;
  }

  scan-decimal :
      (fuel m : ℕ) (rest : Text) (s : ListState)
      → m < fuel
      → m < 2 ^ 32
      → s.b ≡ 0
      → is_space s.c ≡ false
      → (t : ListState) × Reads m s t × (scan (decimal_onto fuel m rest) s ≡ scan rest t)
  unfolding decimal_onto
  scan-decimal zero m rest s lt small zero_yet last = absurd (omega arith)
  scan-decimal (suc fuel) m rest s lt small zero_yet last = elim (dec_lt m 10) [
    | yes one ↦ rw (lt→ltb m 10 one) (
      add_digit (b'0' + m % 10) s,
      add_digit-Reads m s s small (omega (arith, zero_yet)) refl (λ _. refl),
      digit_step (m % 10) rest s (omega arith) last,
    )
    | no more ↦
        let (t, r, e) =
          scan-decimal fuel (m / 10) ((b'0' + m % 10) ∷ rest) s (omega arith) (omega arith) zero_yet
            last in
        rw (le→ltb m 10 (omega arith)) (
          add_digit (b'0' + m % 10) t,
          add_digit-Reads m s t small r.number r.same (λ i. ground (arith, r.start, i)),
          e ∙ digit_step (m % 10) rest t (omega arith) r.last,
        )
  ]

  scan-range_text :
      (lo hi : ℕ) (rest : Text) (s : ListState)
      → lo ≤ hi
      → hi < 2 ^ 32
      → IsFresh s
      → (t : ListState) × Read lo hi t × (scan (range_text (lo, hi) rest) s ≡ scan rest t)
  unfolding range_text decimal
  scan-range_text lo hi rest s le small f = elim (Bool-cases (lo == hi)) [
    | inl one ↦
        let (t, r, e) =
          scan-decimal (suc lo) lo rest s (omega arith) (omega arith) f.b_zero f.no_space in
        rw one (
          t,
          record {
            bottom = ground (arith, r.start, f.first);
            top = ground (arith, r.number);
            no_space = r.last;
          },
          e,
        )
    | inr two ↦
        let (t, r, e) =
          scan-decimal (suc lo) lo (b'-' ∷ decimal_onto (suc hi) hi rest) s (omega arith)
            (omega arith) f.b_zero f.no_space in
        let (u, q, d) =
          scan-decimal (suc hi) hi rest (start_range t) (omega arith) small refl refl in
        rw two (
          u,
          record {
            bottom = ground (arith, q.start, r.start, f.first);
            top = q.number;
            no_space = q.last;
          },
          e ∙ dash_step (decimal_onto (suc hi) hi rest) t r.last r.digit (r.same ∙ f.first) ∙ d,
        )
  ]

-- The list is read, and its ranges are set.
pub scan-list_text :
    (n : ℕ) (r : ℕ × ℕ) (rs : Ranges) (s : ListState) (maskp : Words)
    → n ≤ 2 ^ 32
    → AreBelow n (r ∷ rs)
    → IsFresh s
    → parse_ranges n (length (list_text (r ∷ rs))) (list_text (r ∷ rs)) s maskp
      ≡ (none, set_ranges (r ∷ rs) maskp)
scan-list_text n (lo, hi) [] s maskp small (le, lt, below) f =
    let (t, r, e) = scan-range_text n maskp lo hi [] s le (omega arith) f in
    e
    ∙ end_step n maskp t (omega (arith, r.bottom, r.top)) (omega (arith, r.top))
    ∙ ap₂ (λ (a b : ℕ). (none, set_range (b + 1 - a) a maskp)) r.bottom r.top
scan-list_text n (lo, hi) (q ∷ rs) s maskp small (le, lt, below) f =
    let (t, r, e) = scan-range_text n maskp lo hi (commas_text (q ∷ rs)) s le (omega arith) f in
    e
    ∙ comma_step n maskp (list_text (q ∷ rs)) t
        (omega (arith, range_text_longer q (commas_text rs))) r.no_space
        (omega (arith, r.bottom, r.top)) (omega (arith, r.top))
    ∙ scan-list_text n q rs (new_range (record t { c = b',' }))
        (set_range (t.b + 1 - t.a) t.a maskp) small below
        (record { b_zero = refl; a_zero = refl; first = refl; no_space = refl })
    ∙ ap₂ (λ (a b : ℕ). (none, set_ranges (q ∷ rs) (set_range (b + 1 - a) a maskp))) r.bottom r.top
