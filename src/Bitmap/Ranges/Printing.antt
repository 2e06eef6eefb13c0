-- ===== src/Bitmap/Ranges/Printing.antt =====
-- What bitmap_scnlistprintf writes is the text of the ranges.
use mathlib.Core.List.{append_assoc, append-nil}
use mpipin.Base.{
  ℕ, zero, suc, ◌+◌, ◌-◌, ◌≤◌, ◌<◌, ◌≡◌, refl, sym, ◌∙◌, ap, subst, arith, false, ◌||◌, ltb, leb,
  ◌==◌, if◌then◌else◌, Bool-cases, dec_lt, inl, inr, [], ◌∷◌, ◌++◌, length, length-append, le→ltb,
  lt→ltb,
}
use mpipin.Ascii.{Text, take, decimal_onto, decimal}
use mpipin.Ascii.Decimal.{decimal_onto-append, decimal_onto_longer}
use mpipin.Bitops.{Words, find_first_bit, find_next_bit}
use mpipin.Bitmap.Ranges.{Printed, put, bscnl_emit, emit_ranges, bitmap_scnlistprintf}
use mpipin.Bitmap.Ranges.Runs.{Ranges, runs}

unfoldable pub range_text : ℕ × ℕ → Text → Text
range_text (lo, hi) rest = if lo == hi then decimal lo rest else decimal lo (b'-' ∷ decimal hi rest)

abbrev pub commas_text : Ranges → Text
commas_text [] = []
commas_text (r ∷ rs) = b',' ∷ range_text r (commas_text rs)

abbrev pub list_text : Ranges → Text
list_text [] = []
list_text (r ∷ rs) = range_text r (commas_text rs)

range_text-append : (r : ℕ × ℕ) (s t : Text) → range_text r (s ++ t) ≡ range_text r s ++ t
unfolding range_text decimal
range_text-append (lo, hi) s t = elim (Bool-cases (lo == hi)) [
  | inl one ↦ rw one (decimal_onto-append (suc lo) lo s t)
  | inr two ↦ rw two (
      ap (λ u. decimal_onto (suc lo) lo (b'-' ∷ u)) (decimal_onto-append (suc hi) hi s t)
      ∙ decimal_onto-append (suc lo) lo (b'-' ∷ decimal_onto (suc hi) hi s) t)
]

pub range_text_longer : (r : ℕ × ℕ) (rest : Text) → length rest < length (range_text r rest)
unfolding range_text decimal
range_text_longer (lo, hi) rest = elim (Bool-cases (lo == hi)) [
  | inl one ↦ rw one (decimal_onto_longer lo lo rest)
  | inr two ↦ rw two (
      omega (
        arith,
        decimal_onto_longer hi hi rest,
        decimal_onto_longer lo lo (b'-' ∷ decimal_onto (suc hi) hi rest),
      ))
]

take_all : (n : ℕ) (s : Text) → length s ≤ n → take n s ≡ s
take_all zero [] le = refl
take_all zero (c ∷ s) le = absurd (omega arith)
take_all (suc n) [] le = refl
take_all (suc n) (c ∷ s) le = ap (λ u. c ∷ u) (take_all n s (omega arith))

-- The lengths add up to that of the text, which is in the buffer if it fits.
pub record PrintedAs (buflen : ℕ) (t : Text) (p : Printed) : Type 0 where
  pub size : p.len ≡ length t
  pub content : length t < buflen → p.text ≡ t
  pub inside : length t < buflen → p.past_end ≡ false

module _ (buflen : ℕ) where
  put-PrintedAs :
      {t : Text} {p : Printed} (s : Text)
      → PrintedAs buflen t p
      → PrintedAs buflen (t ++ s) (put buflen s p)
  unfolding put
  put-PrintedAs {t} {p} s h =
      let more = length-append t s in
      record {
        size = omega (arith, h.size, more);
        content = λ lt. rw (
          lt→ltb p.len buflen (omega (arith, more, h.size)),
          h.content (omega (arith, more)),
          take_all (buflen - p.len - 1) s (omega (arith, more, h.size)),
        );
        inside = λ lt. ground (arith, h.inside (omega (arith, more)), h.size, more);
      }

  emit_range-PrintedAs :
      {t : Text} {p : Printed} (lo hi : ℕ)
      → PrintedAs buflen t p
      → PrintedAs buflen (t ++ range_text (lo, hi) []) (
          if lo == hi
          then put buflen (decimal lo []) p
          else put buflen (decimal lo (b'-' ∷ decimal hi [])) p)
  unfolding range_text
  emit_range-PrintedAs lo hi h = elim (Bool-cases (lo == hi)) [
    | inl one ↦ rw one (put-PrintedAs (decimal lo []) h)
    | inr two ↦ rw two (put-PrintedAs (decimal lo (b'-' ∷ decimal hi [])) h)
  ]

  first-PrintedAs :
      {p : Printed} (lo hi : ℕ)
      → PrintedAs buflen [] p
      → PrintedAs buflen (range_text (lo, hi) []) (bscnl_emit buflen lo hi p)
  unfolding bscnl_emit
  first-PrintedAs {p} lo hi h =
      rw (le→ltb 0 p.len (omega (arith, h.size))) (emit_range-PrintedAs lo hi h)

  next-PrintedAs :
      {t : Text} {p : Printed} (lo hi : ℕ)
      → 0 < length t
      → PrintedAs buflen t p
      → PrintedAs buflen (t ++ (b',' ∷ range_text (lo, hi) [])) (bscnl_emit buflen lo hi p)
  unfolding bscnl_emit
  next-PrintedAs {t} {p} lo hi nonempty h = rw (lt→ltb 0 p.len (omega (arith, h.size))) (
      subst
        (λ u. PrintedAs buflen u (
          if lo == hi
          then put buflen (decimal lo []) (put buflen (b',' ∷ []) p)
          else put buflen (decimal lo (b'-' ∷ decimal hi [])) (put buflen (b',' ∷ []) p)))
        (append_assoc t (b',' ∷ []) (range_text (lo, hi) []))
        (emit_range-PrintedAs lo hi (put-PrintedAs (b',' ∷ []) h)))

  module _ (maskp : Words) (n : ℕ) where
    more-PrintedAs :
        (fuel cur rbot : ℕ) {t : Text} {p : Printed}
        → 0 < length t
        → PrintedAs buflen t p
        → PrintedAs buflen
            (t ++ commas_text (runs maskp n fuel cur rbot))
            (emit_ranges buflen maskp n fuel cur rbot p)
    unfolding emit_ranges runs
    more-PrintedAs zero cur rbot {t} {p} nonempty h =
        subst (λ u. PrintedAs buflen u p) (sym (append-nil t)) h
    more-PrintedAs (suc fuel) cur rbot {t} {p} nonempty h = elim (dec_lt cur n) [
      | no past ↦
          rw (le→ltb cur n (omega arith)) (subst (λ u. PrintedAs buflen u p) (sym (append-nil t)) h)
      | yes lt ↦ elim (Bool-cases (leb n cur' || ltb (cur + 1) cur')) [
        | inl ends ↦
            rw (lt→ltb cur n lt, ends)
              (subst
                (λ u.
                  PrintedAs buflen u
                    (emit_ranges buflen maskp n fuel cur' cur' (bscnl_emit buflen rbot cur p)))
                (append_assoc t (b',' ∷ range_text (rbot, cur) []) rest
                  ∙ ap (λ (u : Text). t ++ (b',' ∷ u))
                      (sym (range_text-append (rbot, cur) [] rest)))
                (more-PrintedAs fuel cur' cur'
                  (omega (arith, length-append t (b',' ∷ range_text (rbot, cur) [])))
                  (next-PrintedAs rbot cur nonempty h)))
        | inr longer ↦ rw (lt→ltb cur n lt, longer) (more-PrintedAs fuel cur' rbot nonempty h)
      ]
    ]
      where
        cur' : ℕ
        cur' = find_next_bit maskp n (cur + 1)

        rest : Text
        rest = commas_text (runs maskp n fuel cur' cur')

    emit_ranges-PrintedAs :
        (fuel cur rbot : ℕ) {p : Printed}
        → PrintedAs buflen [] p
        → PrintedAs buflen
            (list_text (runs maskp n fuel cur rbot))
            (emit_ranges buflen maskp n fuel cur rbot p)
    unfolding emit_ranges runs
    emit_ranges-PrintedAs zero cur rbot h = h
    emit_ranges-PrintedAs (suc fuel) cur rbot {p} h = elim (dec_lt cur n) [
      | no past ↦ rw (le→ltb cur n (omega arith)) h
      | yes lt ↦ elim (Bool-cases (leb n cur' || ltb (cur + 1) cur')) [
        | inl ends ↦
            rw (lt→ltb cur n lt, ends)
              (subst
                (λ u.
                  PrintedAs buflen u
                    (emit_ranges buflen maskp n fuel cur' cur' (bscnl_emit buflen rbot cur p)))
                (sym (range_text-append (rbot, cur) [] rest))
                (more-PrintedAs fuel cur' cur' (omega (arith, range_text_longer (rbot, cur) []))
                  (first-PrintedAs rbot cur h)))
        | inr longer ↦ rw (lt→ltb cur n lt, longer) (emit_ranges-PrintedAs fuel cur' rbot h)
      ]
    ]
      where
        cur' : ℕ
        cur' = find_next_bit maskp n (cur + 1)

        rest : Text
        rest = commas_text (runs maskp n fuel cur' cur')

    pub bitmap_scnlistprintf-PrintedAs :
        0 < buflen
        → PrintedAs buflen
            (list_text (runs maskp n n (find_first_bit maskp n) (find_first_bit maskp n)))
            (bitmap_scnlistprintf buflen maskp n)
    unfolding bitmap_scnlistprintf
    bitmap_scnlistprintf-PrintedAs room =
        let buflen_some : (buflen == 0) ≡ false = ground arith in
        rw buflen_some (
          emit_ranges-PrintedAs n (find_first_bit maskp n) (find_first_bit maskp n)
            (record { size = refl; content = λ _. refl; inside = λ _. refl }))
