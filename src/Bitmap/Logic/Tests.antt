-- ===== src/Bitmap/Logic/Tests.antt =====
-- The tests of bitmaps, bit by bit: the unused bits of the last word do not matter.
use mpipin.Base.{
  ℕ, zero, suc, ◌+◌, ◌/◌, ◌%◌, ◌<◌, ◌≡◌, ◌↔◌, refl, arith, Bool, true, false, not, ◌&&◌, ◌==◌,
  if◌then◌else◌, bit_and, bit_xor, Bool-cases, inl, inr, sym, ◌∙◌, ap,
}
use mpipin.Bits.{
  word_bit, word_bit-zero, word_bit-bit_and, word_bit-bit_xor, word_ext, word_bit_high, lt_of_bits,
}
use mpipin.Word.{IsWord, bit_not, word_bit-bit_not, bit_not-IsWord, bit_and-IsWord}
use mpipin.Bitops.{Words, word_at, get_bit, IsWords}
use mpipin.Bitmap.Logic.{
  no_bits, bitmap_empty, bitmap_full, bitmap_intersects, bitmap_subset, bitmap_equal, same_words,
  all_clear,
}
use mpipin.Bitmap.Logic.Loops.{no_bits_elim, no_bits_intro}

-- `bitmap_empty` says that no bit is set, of an array of words.
pub bitmap_empty_iff :
    (bitmap : Words) (bits : ℕ)
    → IsWords bitmap
    → (bitmap_empty bitmap bits ≡ true) ↔ ((i : ℕ) → i < bits → get_bit bitmap i ≡ false)
unfolding bitmap_empty get_bit
bitmap_empty_iff bitmap bits w =
    (no_bits_elim (word_at bitmap) bits, no_bits_intro (word_at bitmap) bits w)

-- `bitmap_full` says that every bit is set.
pub bitmap_full_iff :
    (bitmap : Words) (bits : ℕ)
    → IsWords bitmap
    → (bitmap_full bitmap bits ≡ true) ↔ ((i : ℕ) → i < bits → get_bit bitmap i ≡ true)
unfolding bitmap_full get_bit
bitmap_full_iff bitmap bits w = (
  λ h i lt. ground (
    arith,
    no_bits_elim (λ k. bit_not (word_at bitmap k)) bits h i lt,
    word_bit-bit_not (word_at bitmap (i / 64)) (i % 64) (w (i / 64)),
  ),
  λ h.
      no_bits_intro (λ k. bit_not (word_at bitmap k)) bits (λ k. bit_not-IsWord (word_at bitmap k))
        (λ i lt.
          ground (arith, h i lt, word_bit-bit_not (word_at bitmap (i / 64)) (i % 64) (w (i / 64)))),
)

-- `bitmap_subset` says that the bits of the first are bits of the second.
pub bitmap_subset_iff :
    (bitmap1 bitmap2 : Words) (bits : ℕ)
    → IsWords bitmap1
    → IsWords bitmap2
    → (bitmap_subset bitmap1 bitmap2 bits ≡ true)
      ↔ ((i : ℕ) → i < bits → get_bit bitmap1 i ≡ true → get_bit bitmap2 i ≡ true)
unfolding bitmap_subset get_bit
bitmap_subset_iff bitmap1 bitmap2 bits v w = (
  λ h i lt set. ground (arith, no_bits_elim f bits h i lt, bits_of i),
  λ h.
      no_bits_intro f bits (λ k. bit_and-IsWord _ _ (v k))
        (λ i lt. ground (arith, h i lt, bits_of i)),
)
  where
    f : ℕ → ℕ
    f k = bit_and (word_at bitmap1 k) (bit_not (word_at bitmap2 k))

    bits_of :
        (i : ℕ)
        → word_bit (f (i / 64)) (i % 64) ≡ (
            word_bit (word_at bitmap1 (i / 64)) (i % 64)
            && not (word_bit (word_at bitmap2 (i / 64)) (i % 64)))
    bits_of i = ground (
      arith,
      word_bit-bit_and (word_at bitmap1 (i / 64)) (bit_not (word_at bitmap2 (i / 64))) (i % 64),
      word_bit-bit_not (word_at bitmap2 (i / 64)) (i % 64) (w (i / 64)),
    )

-- `bitmap_intersects` says that the two do not have disjoint bits.
pub bitmap_intersects_iff :
    (bitmap1 bitmap2 : Words) (bits : ℕ)
    → IsWords bitmap1
    → (bitmap_intersects bitmap1 bitmap2 bits ≡ false)
      ↔ ((i : ℕ) → i < bits → (get_bit bitmap1 i && get_bit bitmap2 i) ≡ false)
unfolding bitmap_intersects get_bit
bitmap_intersects_iff bitmap1 bitmap2 bits v = (
  λ h i lt.
      sym (word_bit-bit_and (word_at bitmap1 (i / 64)) (word_at bitmap2 (i / 64)) (i % 64))
      ∙ no_bits_elim f bits (negated h) i lt,
  λ h. ap not (
      no_bits_intro f bits (λ k. bit_and-IsWord _ _ (v k))
        (λ i lt.
          word_bit-bit_and (word_at bitmap1 (i / 64)) (word_at bitmap2 (i / 64)) (i % 64)
          ∙ h i lt)),
)
  where
    f : ℕ → ℕ
    f k = bit_and (word_at bitmap1 k) (word_at bitmap2 k)

    negated : {b : Bool} → not b ≡ false → b ≡ true
    negated e = ground arith

-- Two words are the same exactly if no bit differs.
xor_zero : (a b : ℕ) → (a == b) ≡ (bit_xor a b == 0)
xor_zero a b = elim (Bool-cases (a == b)) [
  | inl same ↦
      let e : a ≡ b = ground arith in
      let none_differs : bit_xor a b ≡ 0 =
        word_ext _ _ (λ i.
          ground (arith, word_bit-bit_xor a b i, word_bit-zero i, ap (λ v. word_bit v i) e)) in
      ground arith
  | inr other ↦ elim (Bool-cases (bit_xor a b == 0)) [
    | inl none_differs ↦
        let z : bit_xor a b ≡ 0 = ground arith in
        let e : a ≡ b = word_ext _ _ (λ i.
          ground (arith, word_bit-bit_xor a b i, word_bit-zero i, ap (λ v. word_bit v i) z)) in
        absurd (ground arith)
    | inr differs ↦ rw (other, differs) refl
  ]
]

same_words-all_clear :
    (left k : ℕ) (bitmap1 bitmap2 : Words)
    → same_words left k bitmap1 bitmap2
      ≡ all_clear left k (λ k. bit_xor (word_at bitmap1 k) (word_at bitmap2 k))
unfolding same_words all_clear
same_words-all_clear zero k bitmap1 bitmap2 = refl
same_words-all_clear (suc left) k bitmap1 bitmap2 =
    rw
      (
        xor_zero (word_at bitmap1 k) (word_at bitmap2 k),
        same_words-all_clear left (k + 1) bitmap1 bitmap2,
      )
      refl

-- `bitmap_equal` says that the two have the same bits.
pub bitmap_equal_iff :
    (bitmap1 bitmap2 : Words) (bits : ℕ)
    → IsWords bitmap1
    → IsWords bitmap2
    → (bitmap_equal bitmap1 bitmap2 bits ≡ true)
      ↔ ((i : ℕ) → i < bits → get_bit bitmap1 i ≡ get_bit bitmap2 i)
unfolding bitmap_equal no_bits get_bit
bitmap_equal_iff bitmap1 bitmap2 bits v w = (
  λ h i lt. ground (arith, no_bits_elim f bits (sym as_no_bits ∙ h) i lt, differ i),
  λ h.
      as_no_bits
      ∙ no_bits_intro f bits (λ k. xor_word k) (λ i lt. ground (arith, h i lt, differ i)),
)
  where
    f : ℕ → ℕ
    f k = bit_xor (word_at bitmap1 k) (word_at bitmap2 k)

    as_no_bits : bitmap_equal bitmap1 bitmap2 bits ≡ no_bits f bits
    as_no_bits = rw (same_words-all_clear (bits / 64) 0 bitmap1 bitmap2) refl

    xor_word : (k : ℕ) → IsWord (f k)
    xor_word k = lt_of_bits 64 (f k) (λ r le. ground (
      arith,
      word_bit-bit_xor (word_at bitmap1 k) (word_at bitmap2 k) r,
      word_bit_high 64 (word_at bitmap1 k) r (v k) le,
      word_bit_high 64 (word_at bitmap2 k) r (w k) le,
    ))

    differ :
        (i : ℕ)
        → word_bit (f (i / 64)) (i % 64)
          ≡ (if get_bit bitmap1 i then not (get_bit bitmap2 i) else get_bit bitmap2 i)
    differ i = word_bit-bit_xor (word_at bitmap1 (i / 64)) (word_at bitmap2 (i / 64)) (i % 64)
