-- ===== src/Bitops/Ffs.antt =====
-- `__ffs` finds the lowest set bit by halving.
use mpipin.Base.{
  ◌∙◌, dec_lt, subst, sym, ℕ, ◌+◌, ◌-◌, ◌^◌, ◌≤◌, ◌<◌, bit_and, ◌≡◌, ◌≢◌, ap, arith, true, false,
  ◌==◌, if◌then◌else◌, Bool-cases, inl, inr,
}
use mpipin.Bits.{word_bit, word_bit-zero, word_bit-bit_and, word_bit-ones, word_bit_high}
use mpipin.Word.{IsWord, word_bit-shr_word, some_bit}
use mpipin.Bitops.{skip_zeros, ffs}

pub record IsLowest (w r : ℕ) : Type 0 where
  pub is_set : word_bit w r ≡ true
  pub below : (j : ℕ) → j < r → word_bit w j ≡ false

-- `num` low bits of `w` are known to be clear, and a set bit is among the next `width`.
record Narrowed (w width : ℕ) (s : ℕ × ℕ) : Type 0 where
  moved : (i : ℕ) → word_bit s.1 i ≡ word_bit w (s.0 + i)
  below : (j : ℕ) → j < s.0 → word_bit w j ≡ false
  place : ℕ
  near : place < width
  there : word_bit s.1 place ≡ true

-- A word with no bit of a mask has the low bits clear.
clear_of_mask : (n v i : ℕ) → (bit_and v (2 ^ n - 1) == 0) ≡ true → i < n → word_bit v i ≡ false
clear_of_mask n v i h lt =
    let none_set : bit_and v (2 ^ n - 1) ≡ 0 = ground arith in
    ground (
      arith,
      word_bit-bit_and v (2 ^ n - 1) i,
      word_bit-ones n i,
      word_bit-zero i,
      ap (λ (t : ℕ). word_bit t i) none_set,
    )

skip_zeros-Narrowed :
    (n : ℕ) {w : ℕ} (s : ℕ × ℕ) → Narrowed w (n + n) s → Narrowed w n (skip_zeros (2 ^ n - 1) n s)
unfolding skip_zeros
skip_zeros-Narrowed n {w} (num, v) h = elim (Bool-cases (bit_and v (2 ^ n - 1) == 0)) [
  | inl clear ↦
      let past : n ≤ h.place = ground (arith, clear_of_mask n v h.place clear, h.there) in
      let back : n + (h.place - n) ≡ h.place = omega arith in
      rw clear (record {
        moved = λ i. word_bit-shr_word v n i ∙ h.moved (n + i) ∙ ap (word_bit w) (omega arith);
        below = λ j lt. elim (dec_lt j num) [
          | yes low ↦ h.below j low
          | no high ↦
              let here : num + (j - num) ≡ j = omega arith in
              subst (λ t. word_bit w t ≡ false) here
                (sym (h.moved (j - num)) ∙ clear_of_mask n v (j - num) clear (omega arith))
        ];
        place = h.place - n;
        near = omega (arith, h.near);
        there = word_bit-shr_word v n (h.place - n) ∙ ap (word_bit v) back ∙ h.there;
      })
  | inr some_set ↦
      let (i, there) = some_bit (bit_and v (2 ^ n - 1)) (ground arith) in
      rw some_set (record {
        moved = h.moved;
        below = h.below;
        place = i;
        near = ground (arith, word_bit-bit_and v (2 ^ n - 1) i, word_bit-ones n i);
        there = ground (arith, word_bit-bit_and v (2 ^ n - 1) i);
      })
]

Narrowed-start : {w : ℕ} → IsWord w → w ≢ 0 → Narrowed w 64 (0, w)
Narrowed-start {w} h ne =
    let (i, there) = some_bit w ne in
    record {
      moved = λ i. ap (word_bit w) (omega arith);
      below = λ j lt. absurd (omega arith);
      place = i;
      near = ground (arith, word_bit_high 64 w i h);
      there = there;
    }

-- The last test of `__ffs` is a round that need not shift.
Narrowed-end :
    {w : ℕ} (s : ℕ × ℕ)
    → Narrowed w 2 s
    → IsLowest w (if bit_and s.1 0x1 == 0 then s.0 + 1 else s.0)
unfolding skip_zeros
Narrowed-end {w} (num, v) h = rw same (record { is_set = is_set; below = last.below })
  where
    last : Narrowed w 1 (skip_zeros 1 1 (num, v))
    last = skip_zeros-Narrowed 1 (num, v) h

    same : (if bit_and v 1 == 0 then num + 1 else num) ≡ (skip_zeros 1 1 (num, v)).0
    same = ground arith

    is_set : word_bit w (skip_zeros 1 1 (num, v)).0 ≡ true
    is_set = ap (word_bit w) (omega (arith, last.near)) ∙ sym (last.moved last.place) ∙ last.there

-- `__ffs` returns the index of the lowest set bit, of any word but 0.
pub ffs-IsLowest : (w : ℕ) → IsWord w → w ≢ 0 → IsLowest w (ffs w)
unfolding ffs skip_zeros
ffs-IsLowest w h ne = Narrowed-end _ (
    skip_zeros-Narrowed 2 _ (
      skip_zeros-Narrowed 4 _ (
        skip_zeros-Narrowed 8 _
          (skip_zeros-Narrowed 16 _ (skip_zeros-Narrowed 32 _ (Narrowed-start h ne))))))
