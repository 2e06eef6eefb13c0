-- ===== src/Bitmap/Region/Spec.antt =====
-- What the region operations do, bit by bit.
use mpipin.Base.{
  ℕ, zero, suc, ◌+◌, ◌-◌, ◌*◌, ◌/◌, ◌%◌, ◌^◌, ◌≤◌, ◌<◌, ◌≡◌, arith, Bool, true, false, ◌&&◌, ltb,
  leb, if◌then◌else◌, bit_and, dec_lt, ℕ_discrete, ap, subst, length, set, get_or-set, length-set,
}
use native.Mathlib.Nat.{one-le-pow}
use mpipin.Bits.{word_bit, word_bit-zero, word_bit-bit_and, word_bit-bit_or, word_bit_high}
use mpipin.Word.{IsWord, bit_not, word_bit-bit_not, eq_zero_of_bits}
use mpipin.Bitops.{Words, word_at, get_bit}
use mpipin.Bitmap.{bits_to_longs}
use mpipin.Bitmap.Logic.Loops.{all_clear_elim, all_clear_intro}
use mpipin.Bitmap.Range.{set_mask, clear_mask}
use mpipin.Bitmap.Region.{isfree, alloc, release, reg_mask, change_words, reg_op}
use mpipin.Bitmap.Region.Mask.{Placed, in_word, whole, placed, word_bit-reg_mask, reg_mask-IsWord}

-- Bit `i` lies in the region.
abbrev pub inside : (pos order i : ℕ) → Bool
inside pos order i = leb pos i && ltb i (pos + 2 ^ order)

-- The number of words that a region has a part of.
abbrev longs : ℕ → ℕ
longs order = bits_to_longs (2 ^ order)

-- The words and masks of a placed region are its bits.
covers :
    (pos order i : ℕ)
    → Placed pos order
    → (leb (pos / 64) (i / 64)
        && ltb (i / 64) (pos / 64 + longs order)
        && word_bit (reg_mask order (pos - pos / 64 * 64)) (i % 64))
      ≡ inside pos order i
unfolding bits_to_longs
covers pos order i (in_word small fits) =
    let some_bit = one-le-pow order 2 (omega arith) in
    ground (arith, word_bit-reg_mask order (pos - pos / 64 * 64) (i % 64))
covers pos order i (whole n e start) =
    ground (arith, word_bit-reg_mask order (pos - pos / 64 * 64) (i % 64))

word_at-change_words :
    (change : ℕ → ℕ → ℕ) (left k mask : ℕ) (bitmap : Words) (j : ℕ)
    → k + left ≤ length bitmap
    → word_at (change_words change left k mask bitmap) j
      ≡ (if leb k j && ltb j (k + left) then change (word_at bitmap j) mask else word_at bitmap j)
unfolding change_words
word_at-change_words change zero k mask bitmap j h = ground arith
word_at-change_words change (suc left) k mask bitmap j h =
    let value = change (word_at bitmap k) mask in
    let rest =
      word_at-change_words change left (k + 1) mask (set bitmap k value) j
        (omega (arith, length-set bitmap k value)) in
    elim (ℕ_discrete k j) [
      | yes here ↦ ground (
        arith,
        rest,
        get_or-set bitmap k j value 0,
        ap (λ k. change (word_at bitmap k) mask) here,
      )
      | no other ↦
          let same : word_at (set bitmap k value) j ≡ word_at bitmap j =
            ground (arith, get_or-set bitmap k j value 0) in
          ground (arith, rest, same, ap (λ w. change w mask) same)
    ]

fits_words :
    (pos order : ℕ) (bitmap : Words)
    → Placed pos order
    → pos + 2 ^ order ≤ 64 * length bitmap
    → pos / 64 + longs order ≤ length bitmap
unfolding bits_to_longs
fits_words pos order bitmap (in_word small fits) h =
    let some_bit = one-le-pow order 2 (omega arith) in omega arith
fits_words pos order bitmap (whole n e start) h = omega arith

-- A change that makes the bits of the mask `b` and leaves the others.
module _ (change : ℕ → ℕ → ℕ) (b : Bool)
    (changes : (w m r : ℕ)
      → IsWord m
      → r < 64
      → word_bit (change w m) r ≡ (if word_bit m r then b else word_bit w r)) where
  get_bit-change_words :
      (pos order : ℕ) (bitmap : Words) (i : ℕ)
      → Placed pos order
      → pos + 2 ^ order ≤ 64 * length bitmap
      → get_bit
          (change_words change
            (longs order)
            (pos / 64)
            (reg_mask order (pos - pos / 64 * 64))
            bitmap)
          i
        ≡ (if inside pos order i then b else get_bit bitmap i)
  unfolding get_bit
  get_bit-change_words pos order bitmap i place fits = ground (
    arith,
    word_at-change_words change (longs order) (pos / 64) (reg_mask order (pos - pos / 64 * 64))
        bitmap (i / 64) (fits_words pos order bitmap place fits),
    covers pos order i place,
    changes (word_at bitmap (i / 64)) (reg_mask order (pos - pos / 64 * 64)) (i % 64)
        (reg_mask-IsWord order (pos - pos / 64 * 64)),
  )

-- All bits of the region are clear.
abbrev pub Free : Words → (pos order : ℕ) → Type 0
Free bitmap pos order = (i : ℕ) → inside pos order i ≡ true → get_bit bitmap i ≡ false

module _ (bitmap : Words) (pos order : ℕ) (at : pos % 2 ^ order ≡ 0) where
  pub isfree_elim : (reg_op isfree bitmap pos order).1 ≡ true → Free bitmap pos order
  unfolding reg_op get_bit
  isfree_elim h i there =
      let c = covers pos order i (placed pos order at) in
      let clear =
        all_clear_elim (longs order) (pos / 64)
          (λ k. bit_and (word_at bitmap k) (reg_mask order (pos - pos / 64 * 64))) h (i / 64)
          (ground arith) (ground arith) in
      ground (
        arith,
        c,
        word_bit-bit_and (word_at bitmap (i / 64)) (reg_mask order (pos - pos / 64 * 64)) (i % 64),
        ap (λ w. word_bit w (i % 64)) clear,
        word_bit-zero (i % 64),
      )

  pub isfree_intro : Free bitmap pos order → (reg_op isfree bitmap pos order).1 ≡ true
  unfolding reg_op get_bit
  isfree_intro h =
      all_clear_intro (longs order) (pos / 64) (λ k. bit_and (word_at bitmap k) mask)
        (λ j a b. eq_zero_of_bits _ (λ r. elim (dec_lt r 64) [
          | yes low ↦
              let word : (j * 64 + r) / 64 ≡ j = omega arith in
              let bit : (j * 64 + r) % 64 ≡ r = omega arith in
              let c = covers pos order (j * 64 + r) (placed pos order at) in
              ground (
                arith,
                word_bit-bit_and (word_at bitmap j) mask r,
                at_word j r word bit (h (j * 64 + r)),
                subst
                    (λ v.
                      (leb (pos / 64) v && ltb v (pos / 64 + longs order) && word_bit mask r)
                      ≡ inside pos order (j * 64 + r))
                    word
                    (subst
                      (λ v.
                        (leb (pos / 64) ((j * 64 + r) / 64)
                          && ltb ((j * 64 + r) / 64) (pos / 64 + longs order)
                          && word_bit mask v)
                        ≡ inside pos order (j * 64 + r))
                      bit c),
              )
          | no high ↦ ground (
            arith,
            word_bit-bit_and (word_at bitmap j) mask r,
            word_bit_high 64 mask r (reg_mask-IsWord order (pos - pos / 64 * 64)),
          )
        ]))
    where
      mask : ℕ
      mask = reg_mask order (pos - pos / 64 * 64)

      at_word :
          (j r : ℕ)
          → (j * 64 + r) / 64 ≡ j
          → (j * 64 + r) % 64 ≡ r
          → (inside pos order (j * 64 + r) ≡ true → get_bit bitmap (j * 64 + r) ≡ false)
          → inside pos order (j * 64 + r) ≡ true
          → word_bit (word_at bitmap j) r ≡ false
      at_word j r word bit h there =
          subst (λ v. word_bit (word_at bitmap v) r ≡ false) word
            (subst (λ v. word_bit (word_at bitmap ((j * 64 + r) / 64)) v ≡ false) bit (h there))

-- Allocating sets the bits of the region, releasing clears them; no other bit changes.
pub get_bit-reg_op :
    (bitmap : Words) (pos order i : ℕ)
    → pos % 2 ^ order ≡ 0
    → pos + 2 ^ order ≤ 64 * length bitmap
    → (get_bit (reg_op alloc bitmap pos order).0 i
        ≡ (if inside pos order i then true else get_bit bitmap i))
      × (get_bit (reg_op release bitmap pos order).0 i
          ≡ (if inside pos order i then false else get_bit bitmap i))
unfolding reg_op set_mask clear_mask
get_bit-reg_op bitmap pos order i at fits = (
  get_bit-change_words set_mask true (λ w m r word low. ground (arith, word_bit-bit_or w m r)) pos
      order bitmap i (placed pos order at) fits,
  get_bit-change_words clear_mask false
      (λ w m r word low.
        ground (arith, word_bit-bit_and w (bit_not m) r, word_bit-bit_not m r word))
      pos order bitmap i (placed pos order at) fits,
)
