-- ===== src/Bitops/Find.antt =====
-- `find_first_bit` and `find_next_bit` return the first set bit from a place on, or the size.
use mpipin.Base.{
  ℕ, zero, suc, ◌+◌, ◌-◌, ◌*◌, ◌/◌, ◌%◌, ◌≤◌, ◌<◌, bit_and, ◌≡◌, ◌≢◌, refl, ap, subst, arith, Bool,
  true, false, ◌&&◌, ltb, leb, ◌==◌, if◌then◌else◌, Bool-cases, inl, inr, dec_lt, lt→leb, le→leb,
  lt→ltb, le→ltb,
}
use mathlib.Core.Path.{subst₂}
use mpipin.Bits.{word_bit, word_bit-zero, word_bit-bit_and, word_bit_high}
use mpipin.Word.{
  IsWord, shr, shl, all_ones, bit_and_not_63, word_bit-shr_word, word_bit-shl_word,
  word_bit-all_ones, bit_and-IsWord,
}
use mpipin.Bitops.{
  Words, word_at, get_bit, IsWords, ffs, has_word, found_first, find_loop, find_first_bit,
  find_next_bit,
}
use mpipin.Bitops.Ffs.{ffs-IsLowest}

-- `r` is the first place in [from, size) where `p` holds, or `size` where there is none.
pub record IsFirst (p : ℕ → Bool) (from size r : ℕ) : Type 0 where
  pub start : from ≤ r
  pub within : r ≤ size
  pub before : (j : ℕ) → from ≤ j → j < r → p j ≡ false
  pub found : r < size → p r ≡ true

pub IsFirst-unique :
    {p : ℕ → Bool} {from size r s : ℕ} → IsFirst p from size r → IsFirst p from size s → r ≡ s
IsFirst-unique {r} {s} a b = elim (dec_lt r s) [
  | yes lt ↦ ground (arith, a.found, b.before r, a.start, b.within)
  | no ge ↦ elim (dec_lt s r) [
    | yes lt ↦ ground (arith, b.found, a.before s, b.start, a.within)
    | no ge' ↦ omega arith
  ]
]

IsFirst-range :
    {p : ℕ → Bool} {a a' b b' r : ℕ} → a ≡ a' → b ≡ b' → IsFirst p a b r → IsFirst p a' b' r
IsFirst-range {p} {r} e e' h = subst₂ (λ a b. IsFirst p a b r) e e' h

IsFirst-extend :
    {p : ℕ → Bool} (from from' : ℕ) {size r : ℕ}
    → from ≤ from'
    → ((j : ℕ) → from ≤ j → j < from' → p j ≡ false)
    → IsFirst p from' size r
    → IsFirst p from size r
IsFirst-extend from from' le clear h = record {
  start = omega (arith, h.start);
  within = h.within;
  before = λ j a b. elim (dec_lt j from') [
    | yes low ↦ clear j a low
    | no high ↦ h.before j (omega arith) b
  ];
  found = h.found;
}

pub has_word_lem : (size : ℕ) → IsWord size → has_word size ≡ leb 64 size
unfolding has_word
has_word_lem size h = ground (arith, bit_and_not_63 size h)

module _ (ws : Words) (all_words : IsWords ws) (p : ℕ) where
  get_bit_in_word : (i : ℕ) → i < 64 → get_bit ws (64 * p + i) ≡ word_bit (word_at ws p) i
  unfolding get_bit
  get_bit_in_word i h =
      let q : (64 * p + i) / 64 ≡ p = omega arith in
      let r : (64 * p + i) % 64 ≡ i = omega arith in rw (q, r)

  -- `t` holds the bits from `lo` up to `hi` of the word at `p`, the others clear.
  record IsPart (lo hi t : ℕ) : Type 0 where
    le : hi ≤ 64
    bits : (i : ℕ) → word_bit t i ≡ (leb lo i && ltb i hi && get_bit ws (64 * p + i))

  part_zero :
      {lo hi t : ℕ}
      → IsPart lo hi t
      → t ≡ 0
      → (j : ℕ) → 64 * p + lo ≤ j
      → j < 64 * p + hi
      → get_bit ws j ≡ false
  part_zero {t} h e j a b =
      let i = j - 64 * p in
      let here : 64 * p + i ≡ j = omega arith in
      ground
        (arith, h.bits i, ap (λ (t : ℕ). word_bit t i) e, word_bit-zero i, ap (get_bit ws) here)

  part_found :
      {lo hi t : ℕ} (size : ℕ)
      → IsPart lo hi t
      → IsWord t
      → t ≢ 0
      → hi ≤ size
      → IsFirst (get_bit ws) (64 * p + lo) (64 * p + size) (64 * p + ffs t)
  part_found {lo} {hi} {t} size h word ne le =
      let low = ffs-IsLowest t word ne in
      let at : (lo ≤ ffs t) × (ffs t < hi) × (get_bit ws (64 * p + ffs t) ≡ true) =
        ground (arith, h.bits (ffs t), low.is_set) in
      record {
        start = omega arith;
        within = omega arith;
        before = λ j a b.
            let i = j - 64 * p in
            let here : 64 * p + i ≡ j = omega arith in
            ground (arith, h.bits i, low.below i, ap (get_bit ws) here);
        found = λ _. at.2;
      }

  -- The part that is left when a word is cut at `size`, as `found_first` does.
  found_first-IsFirst :
      {lo t size : ℕ}
      → 0 < size
      → size < 64
      → IsWord t
      → ((i : ℕ) → word_bit t i ≡ (leb lo i && ltb i 64 && get_bit ws (64 * p + i)))
      → lo ≤ size
      → IsFirst (get_bit ws) (64 * p + lo) (64 * p + size) (found_first t (64 * p) size)
  unfolding found_first
  found_first-IsFirst {lo} {t} {size} pos small word bits le = elim (Bool-cases (cut == 0)) [
    | inl empty ↦ rw empty (record {
      start = omega arith;
      within = omega arith;
      before = λ j a b. part_zero part (ground arith) j a b;
      found = λ lt. absurd (omega arith);
    })
    | inr some_set ↦
        rw some_set (part_found size part (bit_and-IsWord t _ word) (ground arith) (omega arith))
  ]
    where
      cut : ℕ
      cut = bit_and t (shr all_ones (64 - size))

      part : IsPart lo size cut
      part = record {
        le = omega arith;
        bits = λ i. ground (
          arith,
          bits i,
          word_bit-bit_and t (shr all_ones (64 - size)) i,
          word_bit-shr_word all_ones (64 - size) i,
          word_bit-all_ones (64 - size + i),
        );
      }

  whole_word :
      (i : ℕ) → word_bit (word_at ws p) i ≡ (leb 0 i && ltb i 64 && get_bit ws (64 * p + i))
  whole_word i = ground (arith, word_bit_high 64 (word_at ws p) i (all_words p), get_bit_in_word i)

  whole-IsPart : IsPart 0 64 (word_at ws p)
  whole-IsPart = record { le = omega arith; bits = whole_word }

-- Between `64 * p + 0` and `64 * p`.
from_word :
    (p : ℕ) {b : ℕ → Bool} {size r : ℕ} → IsFirst b (64 * p + 0) size r → IsFirst b (64 * p) size r
from_word p h = IsFirst-extend _ _ (omega arith) (λ j a b. absurd (omega arith)) h

module _ (ws : Words) (all_words : IsWords ws) where
  -- The word at `p` is clear, and the search goes on with the next one.
  next_word :
      (p size : ℕ) {lo t r : ℕ}
      → 64 ≤ size
      → lo ≤ 64
      → IsPart ws all_words p lo 64 t
      → t ≡ 0
      → IsFirst (get_bit ws) (64 * (p + 1)) (64 * (p + 1) + (size - 64)) r
      → IsFirst (get_bit ws) (64 * p + lo) (64 * p + size) r
  next_word p size {lo} {r} ge le part empty h =
      let end : 64 * (p + 1) + (size - 64) ≡ 64 * p + size = omega arith in
      IsFirst-extend (64 * p + lo) (64 * (p + 1)) (omega arith)
        (λ j a b. part_zero ws all_words p part empty j a (omega arith))
        (subst (λ e. IsFirst (get_bit ws) (64 * (p + 1)) e r) end h)

  find_loop-IsFirst :
      (fuel p size result : ℕ)
      → result ≡ 64 * p
      → IsWord size
      → size < 64 * fuel
      → IsFirst (get_bit ws) (64 * p) (64 * p + size) (find_loop fuel ws p result size)
  unfolding find_loop
  find_loop-IsFirst zero p size result e word h = absurd (omega arith)
  find_loop-IsFirst (suc fuel) p size result e word h =
      rw (has_word_lem size word, e)
        (elim (dec_lt size 64) [
          | yes small ↦ rw (lt→leb 64 size small) (elim (Bool-cases (size == 0)) [
            | inl empty ↦ rw empty (record {
              start = omega arith;
              within = omega arith;
              before = λ j a b. absurd (omega arith);
              found = λ lt. absurd (ground arith);
            })
            | inr some_left ↦ rw some_left (
                from_word p (
                  found_first-IsFirst ws all_words p (ground arith) small (all_words p)
                    (whole_word ws all_words p) (omega arith)))
          ])
          | no large ↦ rw (le→leb 64 size (omega arith)) (elim (Bool-cases (word_at ws p == 0)) [
            | inl empty ↦ rw empty (
                from_word p (
                  next_word p size (omega arith) (omega arith) (whole-IsPart ws all_words p)
                    (ground arith)
                    (find_loop-IsFirst fuel (p + 1) (size - 64) (64 * p + 64) (omega arith)
                      (omega arith) (omega arith))))
            | inr some_set ↦ rw some_set (
                from_word p (
                  part_found ws all_words p size (whole-IsPart ws all_words p) (all_words p)
                    (ground arith) (omega arith)))
          ])
        ])

  -- `find_first_bit` returns the index of the first set bit below `size`, or `size` where none is
  -- set, for an array of words and a `size` below 2^64.
  pub find_first_bit-IsFirst :
      (size : ℕ) → IsWord size → IsFirst (get_bit ws) 0 size (find_first_bit ws size)
  unfolding find_first_bit
  find_first_bit-IsFirst size word =
      let end : 64 * 0 + size ≡ size = omega arith in
      subst (λ e. IsFirst (get_bit ws) 0 e (find_first_bit ws size)) end
        (find_loop-IsFirst (size / 64 + 1) 0 size 0 refl word (omega arith))

  -- The bits of the first word that count are those from `offset` on.
  masked_bits :
      (p lo i : ℕ)
      → word_bit (bit_and (word_at ws p) (shl all_ones lo)) i
        ≡ (leb lo i && ltb i 64 && get_bit ws (64 * p + i))
  masked_bits p lo i = ground (
    arith,
    word_bit-bit_and (word_at ws p) (shl all_ones lo) i,
    word_bit-shl_word all_ones lo i,
    word_bit-all_ones (i - lo),
    whole_word ws all_words p i,
  )

  -- The same for a place that is given as word and offset.
  find_in_word :
      (fuel p lo size : ℕ)
      → 0 < lo
      → lo < 64
      → lo < size
      → IsWord size
      → size < 64 * fuel
      → let t = bit_and (word_at ws p) (shl all_ones lo) in
        IsFirst (get_bit ws) (64 * p + lo) (64 * p + size) (
          if ltb size 64
          then found_first t (64 * p) size
          else (if t == 0
              then find_loop fuel ws (p + 1) (64 * p + 64) (size - 64)
              else 64 * p + ffs t))
  find_in_word fuel p lo size pos in_word lt word enough = elim (dec_lt size 64) [
    | yes small ↦ rw (lt→ltb size 64 small) (
        found_first-IsFirst ws all_words p (omega arith) small masked (masked_bits p lo)
          (omega arith))
    | no large ↦ rw (le→ltb size 64 (omega arith)) (elim (Bool-cases (tmp == 0)) [
      | inl empty ↦ rw empty (
          next_word p size (omega arith) (omega arith) part (ground arith) (
            find_loop-IsFirst fuel (p + 1) (size - 64) (64 * p + 64) (omega arith) (omega arith)
              (omega arith)))
      | inr some_set ↦
          rw some_set (part_found ws all_words p size part masked (ground arith) (omega arith))
    ])
  ]
    where
      tmp : ℕ
      tmp = bit_and (word_at ws p) (shl all_ones lo)

      masked : IsWord (bit_and (word_at ws p) (shl all_ones lo))
      masked = bit_and-IsWord _ _ (all_words p)

      part : IsPart ws all_words p lo 64 (bit_and (word_at ws p) (shl all_ones lo))
      part = record { le = omega arith; bits = masked_bits p lo }

  -- `find_next_bit` returns the index of the first set bit in [offset, size), or `size` where none
  -- is set there, for an array of words, an `offset` of at most `size`, and a `size` below 2^64.
  pub find_next_bit-IsFirst :
      (size offset : ℕ)
      → IsWord size
      → offset ≤ size
      → IsFirst (get_bit ws) offset size (find_next_bit ws size offset)
  unfolding find_next_bit
  find_next_bit-IsFirst size offset word le = elim (dec_lt offset size) [
    | no past ↦ rw (le→leb size offset (omega arith)) (record {
      start = le;
      within = omega arith;
      before = λ j a b. absurd (omega arith);
      found = λ lt. absurd (omega arith);
    })
    | yes lt ↦
        let here : 64 * (offset / 64) + offset % 64 ≡ offset = omega arith in
        let end : 64 * (offset / 64) + (size - 64 * (offset / 64)) ≡ size = omega arith in
        let base : offset / 64 * 64 ≡ 64 * (offset / 64) = omega arith in
        rw (lt→leb size offset lt, bit_and_not_63 offset (omega arith), base)
          (elim (Bool-cases (offset % 64 == 0)) [
            | inl aligned ↦
                let there : 64 * (offset / 64) ≡ offset = ground arith in
                rw aligned (
                  IsFirst-range there end (
                    find_loop-IsFirst (size / 64 + 1) (offset / 64) (size - 64 * (offset / 64)) _
                      refl (omega arith) (omega arith)))
            | inr inside ↦ rw inside (
                IsFirst-range here end (
                  find_in_word (size / 64 + 1) (offset / 64) (offset % 64)
                    (size - 64 * (offset / 64)) (ground arith) (omega arith) (omega arith)
                    (omega arith) (omega arith)))
          ])
  ]
