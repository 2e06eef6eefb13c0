-- ===== src/Bitops/Zero/Flip.antt =====
-- The searches for clear bits are those for set bits in the negated words.
use mpipin.Base.{
  ℕ, zero, suc, ◌+◌, ◌-◌, ◌*◌, ◌/◌, ◌%◌, ◌≤◌, ◌<◌, ◌≡◌, refl, arith, not, ltb, ◌==◌, if◌then◌else◌,
  [], ◌∷◌, map, length, bit_and, bit_or, Bool-cases, inl, inr, dec_lt, sym, ◌∙◌, lt→leb, le→leb,
  lt→ltb, le→ltb,
}
use mpipin.Bits.{word_bit-bit_and, word_bit-bit_or, word_ext, lt_of_bits}
use mpipin.Word.{
  IsWord, bit_not, all_ones, shl, shr, word_bit-bit_not, word_bit-shl_word, word_bit-shr_word,
  word_bit-all_ones, bit_not-IsWord, bit_or-IsWord, shl-IsWord, bit_and_not_63,
}
use mpipin.Bitops.{
  Words, word_at, get_bit, IsWords, ffs, found_first, find_loop, find_first_bit, find_next_bit,
}
use mpipin.Bitops.Find.{IsFirst, has_word_lem, find_first_bit-IsFirst, find_next_bit-IsFirst}
use mpipin.Bitops.Zero.{ffz, found_first_zero, zero_loop, find_first_zero_bit, find_next_zero_bit}

-- The negated words.
abbrev pub flip : Words → Words
flip ws = map bit_not ws

word_at-flip : (ws : Words) (k : ℕ) → k < length ws → word_at (flip ws) k ≡ bit_not (word_at ws k)
word_at-flip [] k h = absurd (omega arith)
word_at-flip (w ∷ ws) zero h = refl
word_at-flip (w ∷ ws) (suc k) h = word_at-flip ws k (omega arith)

all_ones_of : (w : ℕ) → IsWord w → (w == all_ones) ≡ (bit_not w == 0)
unfolding bit_not
all_ones_of w h = ground arith

-- The bits above the size, and those below the offset.
cut_high :
    (w size : ℕ)
    → IsWord w
    → size < 64
    → bit_and (bit_not w) (shr all_ones (64 - size)) ≡ bit_not (bit_or w (shl all_ones size))
cut_high w size h lt = word_ext _ _ λ i. ground (
  arith,
  word_bit-bit_and (bit_not w) (shr all_ones (64 - size)) i,
  word_bit-bit_not w i h,
  word_bit-shr_word all_ones (64 - size) i,
  word_bit-all_ones (64 - size + i),
  word_bit-bit_not (bit_or w (shl all_ones size)) i
      (bit_or-IsWord w _ h (shl-IsWord all_ones size)),
  word_bit-bit_or w (shl all_ones size) i,
  word_bit-shl_word all_ones size i,
  word_bit-all_ones (i - size),
)

shr_ones-IsWord : (k : ℕ) → IsWord (shr all_ones k)
shr_ones-IsWord k =
    lt_of_bits 64 _
      (λ i le. ground (arith, word_bit-shr_word all_ones k i, word_bit-all_ones (k + i)))

cut_low :
    (w off : ℕ)
    → IsWord w
    → off < 64
    → bit_and (bit_not w) (shl all_ones off) ≡ bit_not (bit_or w (shr all_ones (64 - off)))
cut_low w off h lt = word_ext _ _ λ i. ground (
  arith,
  word_bit-bit_and (bit_not w) (shl all_ones off) i,
  word_bit-bit_not w i h,
  word_bit-shl_word all_ones off i,
  word_bit-all_ones (i - off),
  word_bit-bit_not (bit_or w (shr all_ones (64 - off))) i
      (bit_or-IsWord w _ h (shr_ones-IsWord (64 - off))),
  word_bit-bit_or w (shr all_ones (64 - off)) i,
  word_bit-shr_word all_ones (64 - off) i,
  word_bit-all_ones (64 - off + i),
)

found_first_zero-flip :
    (w result size : ℕ)
    → IsWord w
    → size < 64
    → found_first_zero w result size ≡ found_first (bit_not w) result size
unfolding found_first_zero found_first ffz
found_first_zero-flip w result size h lt =
    rw
      (
        cut_high w size h lt,
        all_ones_of (bit_or w (shl all_ones size)) (bit_or-IsWord w _ h (shl-IsWord all_ones size)),
      )
      refl

zero_loop-flip :
    (fuel : ℕ) (ws : Words) (p result size : ℕ)
    → IsWords ws
    → IsWord size
    → 64 * p + size ≤ 64 * length ws
    → zero_loop fuel ws p result size ≡ find_loop fuel (flip ws) p result size
unfolding zero_loop find_loop ffz
zero_loop-flip zero ws p result size h word fits = refl
zero_loop-flip (suc fuel) ws p result size h word fits = elim (dec_lt size 64) [
  | yes small ↦ elim (Bool-cases (size == 0)) [
    | inl empty ↦ rw (has_word_lem size word, lt→leb 64 size small, empty) refl
    | inr some_left ↦
        rw
          (
            has_word_lem size word,
            lt→leb 64 size small,
            some_left,
            word_at-flip ws p (ground arith),
          )
          (found_first_zero-flip (word_at ws p) result size (h p) small)
  ]
  | no large ↦
      rw
        (
          has_word_lem size word,
          le→leb 64 size (omega arith),
          word_at-flip ws p (omega arith),
          zero_loop-flip fuel ws (p + 1) (result + 64) (size - 64) h (omega arith) (omega arith),
        )
        refl
]

-- The searches for clear bits.
module _ (ws : Words) (words : IsWords ws) (size : ℕ) (word : IsWord size)
    (fits : size ≤ 64 * length ws) where
  find_first_zero_bit-flip : find_first_zero_bit ws size ≡ find_first_bit (flip ws) size
  unfolding find_first_zero_bit find_first_bit
  find_first_zero_bit-flip = zero_loop-flip (size / 64 + 1) ws 0 0 size words word (omega arith)

  find_next_zero_bit-flip :
      (offset : ℕ) → find_next_zero_bit ws size offset ≡ find_next_bit (flip ws) size offset
  unfolding find_next_zero_bit find_next_bit ffz
  find_next_zero_bit-flip offset = elim (dec_lt offset size) [
    | no past ↦ rw (le→leb size offset (omega arith)) refl
    | yes lt ↦
        rw (lt→leb size offset lt, bit_and_not_63 offset (omega arith))
          (elim (Bool-cases (offset % 64 == 0)) [
            | inl aligned ↦ rw aligned (
                zero_loop-flip (size / 64 + 1) ws (offset / 64) (offset / 64 * 64)
                  (size - offset / 64 * 64) words (omega arith) (omega arith))
            | inr inside ↦
                rw
                  (
                    inside,
                    word_at-flip ws (offset / 64) (omega arith),
                    cut_low (word_at ws (offset / 64)) (offset % 64) (words (offset / 64))
                        (omega arith),
                  )
                  (in_word (offset / 64) (size - offset / 64 * 64)
                    (bit_or (word_at ws (offset / 64)) (shr all_ones (64 - offset % 64)))
                    (bit_or-IsWord _ _ (words (offset / 64)) (shr_ones-IsWord (64 - offset % 64)))
                    (omega arith) (omega arith))
          ])
  ]
    where
      in_word :
          (p left tmp : ℕ)
          → IsWord tmp
          → IsWord left
          → 64 * p + left ≤ 64 * length ws
          → (if ltb left 64
              then found_first_zero tmp (p * 64) left
              else (if bit_not tmp == 0
                  then zero_loop (size / 64 + 1) ws (p + 1) (p * 64 + 64) (left - 64)
                  else p * 64 + ffs (bit_not tmp)))
            ≡ (if ltb left 64
                then found_first (bit_not tmp) (p * 64) left
                else (if bit_not tmp == 0
                    then find_loop (size / 64 + 1) (flip ws) (p + 1) (p * 64 + 64) (left - 64)
                    else p * 64 + ffs (bit_not tmp)))
      in_word p left tmp h k room = elim (dec_lt left 64) [
        | yes small ↦ rw (lt→ltb left 64 small) (found_first_zero-flip tmp (p * 64) left h small)
        | no large ↦
            rw
              (
                le→ltb left 64 (omega arith),
                zero_loop-flip (size / 64 + 1) ws (p + 1) (p * 64 + 64) (left - 64) words
                    (omega arith) (omega arith),
              )
              refl
      ]

  get_bit-flip : (i : ℕ) → i < size → get_bit (flip ws) i ≡ not (get_bit ws i)
  unfolding get_bit
  get_bit-flip i lt =
      rw (word_at-flip ws (i / 64) (omega arith))
        (ground (arith, word_bit-bit_not (word_at ws (i / 64)) (i % 64) (words (i / 64))))

  flip-IsWords : IsWords (flip ws)
  flip-IsWords k = elim (dec_lt k (length ws)) [
    | yes lt ↦ rw (word_at-flip ws k lt) (bit_not-IsWord (word_at ws k))
    | no past ↦ rw (flip_past ws k (omega arith)) (omega arith)
  ]
    where
      flip_past : (ws : Words) (k : ℕ) → length ws ≤ k → word_at (flip ws) k ≡ 0
      flip_past [] k h = refl
      flip_past (w ∷ ws) zero h = absurd (omega arith)
      flip_past (w ∷ ws) (suc k) h = flip_past ws k (omega arith)

  clear-IsFirst :
      (from r : ℕ)
      → IsFirst (get_bit (flip ws)) from size r
      → IsFirst (λ i. not (get_bit ws i)) from size r
  clear-IsFirst from r h = record {
    start = h.start;
    within = h.within;
    before = λ j a b. sym (get_bit-flip j (let w = h.within in omega arith)) ∙ h.before j a b;
    found = λ lt. sym (get_bit-flip r lt) ∙ h.found lt;
  }

  -- `find_first_zero_bit` returns the index of the first clear bit below `size`, or `size` where none
  -- is clear, for an array of words that holds `size` bits, below 2^64.
  pub find_first_zero_bit-IsFirst :
      IsFirst (λ i. not (get_bit ws i)) 0 size (find_first_zero_bit ws size)
  find_first_zero_bit-IsFirst =
      clear-IsFirst 0 _
        (rw find_first_zero_bit-flip (find_first_bit-IsFirst (flip ws) flip-IsWords size word))

  -- `find_next_zero_bit` returns the index of the first clear bit in [offset, size), or `size` where
  -- none is clear there, for such an array and an `offset` of at most `size`.
  pub find_next_zero_bit-IsFirst :
      (offset : ℕ)
      → offset ≤ size
      → IsFirst (λ i. not (get_bit ws i)) offset size (find_next_zero_bit ws size offset)
  find_next_zero_bit-IsFirst offset le = clear-IsFirst offset _ (
      rw (find_next_zero_bit-flip offset)
        (find_next_bit-IsFirst (flip ws) flip-IsWords size offset word le))
