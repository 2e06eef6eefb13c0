-- ===== src/Bitmap/Range/Bits.antt =====
-- `bitmap_set` and `bitmap_clear`, bit by bit.
use mpipin.Base.{
  ℕ, zero, suc, ◌+◌, ◌-◌, ◌*◌, ◌/◌, ◌%◌, ◌≤◌, ◌<◌, ◌≡◌, refl, arith, Bool, true, false, ◌&&◌, ◌==◌,
  ltb, leb, if◌then◌else◌, bit_and, Bool-cases, inl, inr, sym, ◌∙◌, ap, subst, length, set,
  get_or-set, length-set,
}
use mpipin.Bits.{word_bit, word_bit-bit_and, word_bit-bit_or, word_ext}
use mpipin.Word.{
  IsWord, all_ones, bit_not, word_bit-bit_not, word_bit-all_ones, shl-IsWord, bit_and-IsWord,
}
use mpipin.Bitops.{Words, word_at, get_bit}
use mpipin.Bitmap.{first_word_mask, last_word_mask}
use mpipin.Bitmap.Masks.{word_bit-first_word_mask, word_bit-last_word_mask}
use mpipin.Bitmap.Range.{change_from, change_bits, set_mask, clear_mask, bitmap_set, bitmap_clear}

first_word_mask-whole : (pos : ℕ) → pos % 64 ≡ 0 → first_word_mask pos ≡ all_ones
first_word_mask-whole pos e =
    word_ext _ _ (λ i. ground (arith, word_bit-first_word_mask pos i, word_bit-all_ones i))

first_word_mask-IsWord : (pos : ℕ) → IsWord (first_word_mask pos)
unfolding first_word_mask
first_word_mask-IsWord pos = shl-IsWord all_ones (pos % 64)

-- What the loop does, where a change makes the bits of the mask `b` and leaves the others.
module _ (change : ℕ → ℕ → ℕ) (b : Bool)
    (changes : (w m r : ℕ)
      → IsWord m
      → r < 64
      → word_bit (change w m) r ≡ (if word_bit m r then b else word_bit w r)) where
  get_bit-changed :
      (map : Words) (p m i : ℕ)
      → p < length map
      → IsWord m
      → get_bit (set map p (change (word_at map p) m)) i
        ≡ (if p == i / 64 && word_bit m (i % 64) then b else get_bit map i)
  unfolding get_bit
  get_bit-changed map p m i lt w = ground (
    arith,
    get_or-set map p (i / 64) (change (word_at map p) m) 0,
    changes (word_at map p) m (i % 64) w,
  )

  change_from_bits :
      (fuel size p pos nr bits mask : ℕ) (map : Words) (i : ℕ)
      → p ≡ pos / 64
      → bits ≡ 64 - pos % 64
      → mask ≡ first_word_mask pos
      → pos + nr ≡ size
      → size ≤ 64 * length map
      → nr + pos % 64 < 64 * fuel
      → get_bit (change_from change fuel size p nr bits mask map) i
        ≡ (if leb pos i && ltb i size then b else get_bit map i)
  unfolding change_from
  change_from_bits zero size p pos nr bits mask map i at left masks sum fits enough =
      absurd (omega arith)
  change_from_bits (suc fuel) size p pos nr bits mask map i at left masks sum fits enough =
      let mask_bit : word_bit mask (i % 64) ≡ (ltb (i % 64) 64 && leb (pos % 64) (i % 64)) =
        ap (λ m. word_bit m (i % 64)) masks ∙ word_bit-first_word_mask pos (i % 64) in
      let mask_word : IsWord mask = subst IsWord (sym masks) (first_word_mask-IsWord pos) in
      elim (Bool-cases (leb bits nr)) [
        | inl whole ↦
            let rest =
              change_from_bits fuel size (p + 1) ((p + 1) * 64) (nr - bits) 64 all_ones
                (set map p (change (word_at map p) mask)) i (omega arith) (omega arith)
                (sym (first_word_mask-whole ((p + 1) * 64) (omega arith))) (ground arith)
                (omega (arith, length-set map p (change (word_at map p) mask))) (ground arith) in
            rw whole (
              rest
              ∙ ground (arith, get_bit-changed map p mask i (ground arith) mask_word, mask_bit))
        | inr part ↦ rw part (elim (Bool-cases (nr == 0)) [
          | inl none_left ↦ rw none_left (ground arith)
          | inr some_left ↦ rw some_left (
              ground (
                arith,
                get_bit-changed map p (bit_and mask (last_word_mask size)) i (ground arith)
                    (bit_and-IsWord mask (last_word_mask size) mask_word),
                mask_bit,
                word_bit-bit_and mask (last_word_mask size) (i % 64),
                word_bit-last_word_mask size (i % 64),
              ))
        ])
      ]

  change_bits_bits :
      (map : Words) (start nr i : ℕ)
      → start + nr ≤ 64 * length map
      → get_bit (change_bits change start nr map) i
        ≡ (if leb start i && ltb i (start + nr) then b else get_bit map i)
  unfolding change_bits
  change_bits_bits map start nr i fits =
      change_from_bits (nr / 64 + 2) (start + nr) (start / 64) start nr (64 - start % 64)
        (first_word_mask start) map i refl refl refl refl fits (omega arith)

-- `bitmap_set` sets the `nr` bits from `start` on and no other.
pub get_bit-bitmap_set :
    (map : Words) (start nr i : ℕ)
    → start + nr ≤ 64 * length map
    → get_bit (bitmap_set map start nr) i
      ≡ (if leb start i && ltb i (start + nr) then true else get_bit map i)
unfolding bitmap_set set_mask
get_bit-bitmap_set map start nr i fits =
    change_bits_bits set_mask true (λ w m r word low. ground (arith, word_bit-bit_or w m r)) map
      start nr i fits

-- `bitmap_clear` clears them and no other.
pub get_bit-bitmap_clear :
    (map : Words) (start nr i : ℕ)
    → start + nr ≤ 64 * length map
    → get_bit (bitmap_clear map start nr) i
      ≡ (if leb start i && ltb i (start + nr) then false else get_bit map i)
unfolding bitmap_clear clear_mask
get_bit-bitmap_clear map start nr i fits =
    change_bits_bits clear_mask false
      (λ w m r word low.
        ground (arith, word_bit-bit_and w (bit_not m) r, word_bit-bit_not m r word))
      map start nr i fits
