-- ===== src/Bitmap/Logic/Writes.antt =====
-- The operations that write a bitmap, bit by bit.
use mpipin.Base.{
  ℕ, ◌+◌, ◌*◌, ◌/◌, ◌%◌, ◌≤◌, ◌<◌, ◌≡◌, arith, not, ◌&&◌, ◌||◌, ◌==◌, ltb, if◌then◌else◌, bit_and,
  bit_or, bit_xor, Bool-cases, inl, inr, ◌∙◌, ap, length, get_or-set,
}
use mpipin.Bits.{word_bit, word_bit-bit_and, word_bit-bit_or, word_bit-bit_xor}
use mpipin.Word.{bit_not, word_bit-bit_not}
use mpipin.Bitops.{Words, word_at, get_bit, IsWords}
use mpipin.Bitmap.{bits_to_longs, last_word_mask}
use mpipin.Bitmap.Masks.{word_bit-last_word_mask}
use mpipin.Bitmap.Logic.{
  write_words, bitmap_complement, bitmap_and, bitmap_or, bitmap_xor, bitmap_andnot,
}
use mpipin.Bitmap.Logic.Loops.{word_at-write_words, length-write_words}

bits_to_longs_fit :
    (bits : ℕ) → (bits ≤ 64 * bits_to_longs bits) × (64 * bits_to_longs bits < bits + 64)
unfolding bits_to_longs
bits_to_longs_fit bits = (omega arith, omega arith)

-- The words of `bits` bits, written.
get_bit-write_words :
    (f : ℕ → ℕ) (dst : Words) (bits i : ℕ)
    → bits ≤ 64 * length dst
    → i < bits
    → get_bit (write_words (bits_to_longs bits) 0 f dst) i ≡ word_bit (f (i / 64)) (i % 64)
unfolding get_bit
get_bit-write_words f dst bits i fits lt =
    let (enough, no_more) = bits_to_longs_fit bits in
    let at : word_at (write_words (bits_to_longs bits) 0 f dst) (i / 64) ≡ f (i / 64) =
      ground (arith, word_at-write_words (bits_to_longs bits) 0 f dst (i / 64) (omega arith)) in
    ap (λ v. word_bit v (i % 64)) at

module _ (dst bitmap1 bitmap2 : Words) (bits : ℕ) (fits : bits ≤ 64 * length dst) where
  -- The four operations on two bitmaps, for a destination that holds the bits.
  pub get_bit-bitmap_and :
      (i : ℕ)
      → i < bits
      → get_bit (bitmap_and dst bitmap1 bitmap2 bits).0 i ≡ (get_bit bitmap1 i && get_bit bitmap2 i)
  unfolding bitmap_and
  get_bit-bitmap_and i lt =
      get_bit-write_words (λ k. bit_and (word_at bitmap1 k) (word_at bitmap2 k)) dst bits i fits lt
      ∙ unfold get_bit in
        word_bit-bit_and (word_at bitmap1 (i / 64)) (word_at bitmap2 (i / 64)) (i % 64)

  pub get_bit-bitmap_or :
      (i : ℕ)
      → i < bits
      → get_bit (bitmap_or dst bitmap1 bitmap2 bits) i ≡ (get_bit bitmap1 i || get_bit bitmap2 i)
  unfolding bitmap_or
  get_bit-bitmap_or i lt =
      get_bit-write_words (λ k. bit_or (word_at bitmap1 k) (word_at bitmap2 k)) dst bits i fits lt
      ∙ unfold get_bit in
        word_bit-bit_or (word_at bitmap1 (i / 64)) (word_at bitmap2 (i / 64)) (i % 64)

  pub get_bit-bitmap_xor :
      (i : ℕ)
      → i < bits
      → get_bit (bitmap_xor dst bitmap1 bitmap2 bits) i
        ≡ (if get_bit bitmap1 i then not (get_bit bitmap2 i) else get_bit bitmap2 i)
  unfolding bitmap_xor
  get_bit-bitmap_xor i lt =
      get_bit-write_words (λ k. bit_xor (word_at bitmap1 k) (word_at bitmap2 k)) dst bits i fits lt
      ∙ unfold get_bit in
        word_bit-bit_xor (word_at bitmap1 (i / 64)) (word_at bitmap2 (i / 64)) (i % 64)

  pub get_bit-bitmap_andnot :
      IsWords bitmap2
      → (i : ℕ) → i < bits
      → get_bit (bitmap_andnot dst bitmap1 bitmap2 bits).0 i
        ≡ (get_bit bitmap1 i && not (get_bit bitmap2 i))
  unfolding bitmap_andnot
  get_bit-bitmap_andnot w i lt =
      get_bit-write_words (λ k. bit_and (word_at bitmap1 k) (bit_not (word_at bitmap2 k))) dst bits
        i fits lt
      ∙ unfold get_bit in
        ground (
          arith,
          word_bit-bit_and (word_at bitmap1 (i / 64)) (bit_not (word_at bitmap2 (i / 64))) (i % 64),
          word_bit-bit_not (word_at bitmap2 (i / 64)) (i % 64) (w (i / 64)),
        )

-- `bitmap_complement` negates the bits, and clears the unused ones of the last word.
pub get_bit-bitmap_complement :
    (dst src : Words) (bits i : ℕ)
    → IsWords src
    → bits ≤ 64 * length dst
    → i < 64 * bits_to_longs bits
    → get_bit (bitmap_complement dst src bits) i ≡ (ltb i bits && not (get_bit src i))
unfolding get_bit bitmap_complement
get_bit-bitmap_complement dst src bits i w fits lt =
    let (enough, no_more) = bits_to_longs_fit bits in
    let written =
      word_at-write_words (bits / 64) 0 (λ k. bit_not (word_at src k)) dst (i / 64) (omega arith) in
    let negated = word_bit-bit_not (word_at src (i / 64)) (i % 64) (w (i / 64)) in
    elim (Bool-cases (bits % 64 == 0)) [
      | inl whole ↦ rw whole (
          let at : word_at (write_words (bits / 64) 0 (λ k. bit_not (word_at src k)) dst) (i / 64)
              ≡ bit_not (word_at src (i / 64)) =
            ground (arith, written) in
          ap (λ v. word_bit v (i % 64)) at ∙ ground (arith, negated))
      | inr part ↦ rw part (
          ground (
            arith,
            get_or-set (write_words (bits / 64) 0 (λ k. bit_not (word_at src k)) dst) (bits / 64)
                (i / 64) (bit_and (bit_not (word_at src (bits / 64))) (last_word_mask bits)) 0,
            length-write_words (bits / 64) 0 (λ k. bit_not (word_at src k)) dst,
            written,
            negated,
            word_bit-bit_and (bit_not (word_at src (bits / 64))) (last_word_mask bits) (i % 64),
            word_bit-last_word_mask bits (i % 64),
          ))
    ]
