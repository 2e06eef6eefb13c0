-- ===== src/Bitmap/Shift/Bits.antt =====
-- The shifts of a bitmap, bit by bit.
use mpipin.Base.{
  ℕ, zero, suc, ◌+◌, ◌-◌, ◌*◌, ◌/◌, ◌%◌, ◌≤◌, ◌<◌, ◌≡◌, refl, ◌∙◌, ap, arith, Bool, true, false,
  not, ◌&&◌, ◌||◌, ◌==◌, ltb, leb, if◌then◌else◌, bit_or, Bool-cases, dec_lt, inl, inr, length, set,
  length-set, get_or-set,
}
use mpipin.Bits.{word_bit, word_bit-zero, word_bit-bit_and, word_bit-bit_or, word_bit_high}
use mpipin.Word.{IsWord, shl, shr, word_bit-shl_word, word_bit-shr_word}
use mpipin.Bitops.{Words, IsWords, word_at, get_bit}
use mpipin.Bitmap.{bits_to_longs}
use mpipin.Bitmap.Masks.{ones_below}
use mpipin.Bitmap.Logic.{write_words}
use mpipin.Bitmap.Logic.Loops.{word_at-write_words, length-write_words}
use mpipin.Bitmap.Shift.{
  cut_last, shifted_word, shift_words, bitmap_shift_left, right_word, bitmap_shift_right,
}

word_bit-cut_last :
    (last : Bool) (left w r : ℕ)
    → left < 64
    → word_bit (cut_last last left w) r ≡ (word_bit w r && (not last || ltb r left))
word_bit-cut_last true left w r lt =
    ground (arith, word_bit-bit_and w (shl 1 left - 1) r, ones_below left r lt)
word_bit-cut_last false left w r lt = ground arith

-- A bit that is below the cut stays.
kept_below :
    (last : Bool) (left w r : ℕ)
    → left < 64
    → (last ≡ true → r < left)
    → word_bit (cut_last last left w) r ≡ word_bit w r
kept_below true left w r lt below = ground (arith, word_bit-cut_last true left w r lt, below refl)
kept_below false left w r lt below = refl

-- What the neighbouring word gives to the bits below `rem`, and to no others.
bit_from_below :
    (rem k w r : ℕ)
    → rem < 64
    → IsWord w
    → word_bit (shr (if not (rem == 0) && ltb 0 k then w else 0) (64 - rem)) r
      ≡ (ltb r rem && (ltb 0 k && word_bit w (64 - rem + r)))
bit_from_below rem k w r lt word =
    word_bit-shr_word (if not (rem == 0) && ltb 0 k then w else 0) (64 - rem) r
    ∙ elim (dec_lt r rem) [
      | yes low ↦ elim (Bool-cases (ltb 0 k)) [
        | inl some_below ↦ ground (arith)
        | inr none_below ↦ ground (arith, word_bit-zero (64 - rem + r))
      ]
      | no high ↦ ground (
        arith,
        word_bit-zero (64 - rem + r),
        word_bit_high 64 w (64 - rem + r) word (omega arith),
      )
    ]

module _ (src : Words) (words : IsWords src) (shift bits : ℕ) where
  abbrev lim : ℕ
  lim = bits_to_longs bits

  abbrev left : ℕ
  left = bits % 64

  abbrev off : ℕ
  off = shift / 64

  abbrev rem : ℕ
  rem = shift % 64

  -- A word of the result is of two words of the source.
  word_bit-shifted_word :
      (k r : ℕ)
      → r < 64
      → 64 * (k + off) + r < bits
      → word_bit (shifted_word src lim left off rem k) r ≡ (
          if ltb r rem
          then ltb 0 k && word_bit (word_at src (k - 1)) (64 - rem + r)
          else word_bit (word_at src k) (r - rem))
  unfolding shifted_word bits_to_longs
  word_bit-shifted_word k r low lt =
      let lower : ℕ = if not (rem == 0) && ltb 0 k then word_at src (k - 1) else 0 in
      let upper : ℕ = cut_last (not (left == 0) && k == lim - 1) left (word_at src k) in
      kept_below (not (left == 0) && k + off == lim - 1) left
        (bit_or (shr lower (64 - rem)) (shl upper rem)) r (omega arith) (λ last. ground arith)
      ∙ word_bit-bit_or (shr lower (64 - rem)) (shl upper rem) r
      ∙ ground (
        arith,
        bit_from_below rem k (word_at src (k - 1)) r (omega arith) (words (k - 1)),
        word_bit-shl_word upper rem r,
        kept_below (not (left == 0) && k == lim - 1) left (word_at src k) (r - rem) (omega arith)
            (λ last. ground arith),
      )

  word_at-shift_words :
      (rounds : ℕ) (dst : Words) (j : ℕ)
      → rounds + off ≤ length dst
      → word_at (shift_words src lim left off rem rounds dst) j ≡ (
          if leb off j && ltb j (rounds + off)
          then shifted_word src lim left off rem (j - off)
          else word_at dst j)
  unfolding shift_words
  word_at-shift_words zero dst j fits = ground arith
  word_at-shift_words (suc k) dst j fits =
      let w : ℕ = shifted_word src lim left off rem k in
      word_at-shift_words k (set dst (k + off) w) j (omega (arith, length-set dst (k + off) w))
      ∙ (elim (Bool-cases (k + off == j)) [
        | inl here ↦
            let at : j - off ≡ k = ground arith in
            rw at (ground (arith, get_or-set dst (k + off) j w 0))
        | inr other ↦ ground (arith, get_or-set dst (k + off) j w 0)
      ])

  length-shift_words :
      (rounds : ℕ) (dst : Words) → length (shift_words src lim left off rem rounds dst) ≡ length dst
  unfolding shift_words
  length-shift_words zero dst = refl
  length-shift_words (suc k) dst =
      let w : ℕ = shifted_word src lim left off rem k in
      length-shift_words k (set dst (k + off) w) ∙ length-set dst (k + off) w

  -- Where the bit comes from.
  bit_before :
      (i : ℕ)
      → off ≤ i / 64
      → (if ltb (i % 64) rem
          then ltb 0 (i / 64 - off) && word_bit (word_at src (i / 64 - off - 1)) (64 - rem + i % 64)
          else word_bit (word_at src (i / 64 - off)) (i % 64 - rem))
        ≡ (if ltb i shift then false else get_bit src (i - shift))
  unfolding get_bit
  bit_before i le = elim (dec_lt (i % 64) rem) [
    | yes low ↦ elim (dec_lt off (i / 64)) [
      | yes later ↦
          let word : (i - shift) / 64 ≡ i / 64 - off - 1 = omega arith in
          let bit : (i - shift) % 64 ≡ 64 - rem + i % 64 = omega arith in
          rw (word, bit) (ground arith)
      | no first ↦ ground arith
    ]
    | no high ↦
        let word : (i - shift) / 64 ≡ i / 64 - off = omega arith in
        let bit : (i - shift) % 64 ≡ i % 64 - rem = omega arith in rw (word, bit) (ground arith)
  ]

  -- The last word of the source counts up to the size.
  bit_in_size :
      (last : Bool) (j w s : ℕ)
      → last ≡ (not (left == 0) && j == lim - 1)
      → j < lim
      → s < 64
      → word_bit (cut_last last left w) s ≡ (word_bit w s && ltb (64 * j + s) bits)
  unfolding bits_to_longs
  bit_in_size last j w s e lt low =
      word_bit-cut_last last left w s (omega arith) ∙ ground (arith, e)

  word_bit-right_word :
      (k r : ℕ)
      → r < 64
      → off + k < lim
      → 64 * k + r < bits
      → word_bit (right_word src lim left off rem k) r ≡ (
          ltb (64 * k + r + shift) bits
          && (if ltb (rem + r) 64
              then word_bit (word_at src (off + k)) (rem + r)
              else word_bit (word_at src (off + k + 1)) (rem + r - 64)))
  unfolding right_word bits_to_longs
  word_bit-right_word k r low here lt =
      let at_above : Bool = off + k + 1 == lim - 1 && not (left == 0) in
      let above : ℕ = cut_last at_above left (word_at src (off + k + 1)) in
      let upper : ℕ = if rem == 0 || leb lim (off + k + 1) then 0 else above in
      let at_lower : Bool = not (left == 0) && off + k == lim - 1 in
      let lower : ℕ = cut_last at_lower left (word_at src (off + k)) in
      kept_below (not (left == 0) && k == lim - 1) left
        (bit_or (shl upper (64 - rem)) (shr lower rem)) r (omega arith) (λ last. ground arith)
      ∙ word_bit-bit_or (shl upper (64 - rem)) (shr lower rem) r
      ∙ (elim (dec_lt (rem + r) 64) [
        | yes one ↦ ground (
          arith,
          word_bit-shl_word upper (64 - rem) r,
          word_bit-shr_word lower rem r,
          bit_in_size at_lower (off + k) (word_at src (off + k)) (rem + r) refl here one,
        )
        | no two ↦
            let none_low : word_bit lower (rem + r) ≡ false = ground (
              arith,
              word_bit-cut_last at_lower left (word_at src (off + k)) (rem + r) (omega arith),
              word_bit_high 64 (word_at src (off + k)) (rem + r) (words (off + k)) (omega arith),
            ) in
            elim (dec_lt (off + k + 1) lim) [
              | yes inside ↦ ground (
                arith,
                word_bit-shl_word upper (64 - rem) r,
                word_bit-shr_word lower rem r,
                none_low,
                bit_in_size at_above (off + k + 1) (word_at src (off + k + 1)) (rem + r - 64)
                    (ground arith) inside (omega arith),
              )
              | no outside ↦ ground (
                arith,
                word_bit-shl_word upper (64 - rem) r,
                word_bit-shr_word lower rem r,
                none_low,
                word_bit-zero (r - (64 - rem)),
              )
            ]
      ])

  bit_after :
      (i : ℕ)
      → (ltb (64 * (i / 64) + i % 64 + shift) bits
          && (if ltb (rem + i % 64) 64
              then word_bit (word_at src (off + i / 64)) (rem + i % 64)
              else word_bit (word_at src (off + i / 64 + 1)) (rem + i % 64 - 64)))
        ≡ (ltb (i + shift) bits && get_bit src (i + shift))
  unfolding get_bit
  bit_after i =
      let whole : 64 * (i / 64) + i % 64 ≡ i = omega arith in
      elim (dec_lt (rem + i % 64) 64) [
        | yes one ↦
            let word : (i + shift) / 64 ≡ off + i / 64 = omega arith in
            let bit : (i + shift) % 64 ≡ rem + i % 64 = omega arith in
            rw (whole, word, bit) (ground arith)
        | no two ↦
            let word : (i + shift) / 64 ≡ off + i / 64 + 1 = omega arith in
            let bit : (i + shift) % 64 ≡ rem + i % 64 - 64 = omega arith in
            rw (whole, word, bit) (ground arith)
      ]

  module _ (dst : Words) (fits : bits ≤ 64 * length dst) (short : shift ≤ bits) where
    -- Bit `i` of the bitmap shifted left is bit `i - shift` of the bitmap, and clear below the shift.
    pub get_bit-bitmap_shift_left :
        (i : ℕ)
        → i < bits
        → get_bit (bitmap_shift_left dst src shift bits) i
          ≡ (if ltb i shift then false else get_bit src (i - shift))
    unfolding get_bit bitmap_shift_left bits_to_longs
    get_bit-bitmap_shift_left i lt =
        let shifted : Words = shift_words src lim left off rem (lim - off) dst in
        let written =
          word_at-write_words off 0 (λ _. 0) shifted (i / 64)
            (omega (arith, length-shift_words (lim - off) dst)) in
        elim (dec_lt (i / 64) off) [
          | yes zeros ↦
              let at : word_at (write_words off 0 (λ _. 0) shifted) (i / 64) ≡ 0 =
                ground (arith, written) in
              ap (λ w. word_bit w (i % 64)) at ∙ ground (arith, word_bit-zero (i % 64))
          | no kept ↦
              let at : word_at (write_words off 0 (λ _. 0) shifted) (i / 64)
                  ≡ shifted_word src lim left off rem (i / 64 - off) =
                ground
                  (arith, written, word_at-shift_words (lim - off) dst (i / 64) (omega arith)) in
              ap (λ w. word_bit w (i % 64)) at
              ∙ word_bit-shifted_word (i / 64 - off) (i % 64) (omega arith) (omega arith)
              ∙ bit_before i (omega arith)
        ]

    -- Bit `i` of the bitmap shifted right is bit `i + shift` of the bitmap, and clear where that is past
    -- the size.
    pub get_bit-bitmap_shift_right :
        (i : ℕ)
        → i < bits
        → get_bit (bitmap_shift_right dst src shift bits) i
          ≡ (ltb (i + shift) bits && get_bit src (i + shift))
    unfolding get_bit bitmap_shift_right bits_to_longs
    get_bit-bitmap_shift_right i lt =
        let f : ℕ → ℕ = right_word src lim left off rem in
        let low : Words = write_words (lim - off) 0 f dst in
        let zeroed =
          word_at-write_words off (lim - off) (λ _. 0) low (i / 64)
            (omega (arith, length-write_words (lim - off) 0 f dst)) in
        let written = word_at-write_words (lim - off) 0 f dst (i / 64) (omega arith) in
        elim (dec_lt (i / 64) (lim - off)) [
          | no zeros ↦
              let at : word_at (write_words off (lim - off) (λ _. 0) low) (i / 64) ≡ 0 =
                ground (arith, zeroed) in
              ap (λ w. word_bit w (i % 64)) at ∙ ground (arith, word_bit-zero (i % 64))
          | yes kept ↦
              let at : word_at (write_words off (lim - off) (λ _. 0) low) (i / 64) ≡ f (i / 64) =
                ground (arith, zeroed, written) in
              ap (λ w. word_bit w (i % 64)) at
              ∙ word_bit-right_word (i / 64) (i % 64) (omega arith) (omega arith) (omega arith)
              ∙ bit_after i
        ]
