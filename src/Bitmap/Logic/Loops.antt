-- ===== src/Bitmap/Logic/Loops.antt =====
-- What the loops over the words do.
use mpipin.Base.{
  ℕ, zero, suc, ◌+◌, ◌*◌, ◌/◌, ◌%◌, ◌≤◌, ◌<◌, ◌≡◌, ◌≢◌, refl, arith, true, false, ◌&&◌, ◌==◌, ltb,
  leb, if◌then◌else◌, bit_and, Bool-cases, inl, inr, dec_lt, ℕ_discrete, ◌∙◌, ap, subst, length,
  set, length-set, get_or-set,
}
use mpipin.Bits.{word_bit, word_bit-zero, word_bit-bit_and, word_bit_high}
use mpipin.Word.{IsWord, eq_zero_of_bits}
use mpipin.Bitops.{Words, word_at}
use mpipin.Bitmap.{last_word_mask}
use mpipin.Bitmap.Masks.{word_bit-last_word_mask}
use mpipin.Bitmap.Logic.{all_clear, no_bits, write_words}

is_zero : (w : ℕ) → (w == 0) ≡ true → w ≡ 0
is_zero w e = ground arith

pub all_clear_elim :
    (left k : ℕ) (f : ℕ → ℕ) → all_clear left k f ≡ true → (j : ℕ) → k ≤ j → j < k + left → f j ≡ 0
unfolding all_clear
all_clear_elim zero k f h j a b = absurd (omega arith)
all_clear_elim (suc left) k f h j a b = elim (dec_lt k j) [
  | yes later ↦ all_clear_elim left (k + 1) f (ground arith) j (omega arith) (omega arith)
  | no here ↦ let same : j ≡ k = omega arith in rw same (is_zero (f k) (ground arith))
]

pub all_clear_intro :
    (left k : ℕ) (f : ℕ → ℕ)
    → ((j : ℕ) → k ≤ j → j < k + left → f j ≡ 0)
    → all_clear left k f ≡ true
unfolding all_clear
all_clear_intro zero k f h = refl
all_clear_intro (suc left) k f h =
    let rest = all_clear_intro left (k + 1) f (λ j a b. h j (omega arith) (omega arith)) in
    rw (h k (omega arith) (omega arith)) rest

-- The bits of the last word that are in use.
masked_elim :
    (w bits i : ℕ) → bit_and w (last_word_mask bits) ≡ 0 → i < bits % 64 → word_bit w i ≡ false
masked_elim w bits i e lt = ground (
  arith,
  word_bit-bit_and w (last_word_mask bits) i,
  word_bit-last_word_mask bits i,
  ap (λ (v : ℕ). word_bit v i) e,
  word_bit-zero i,
)

masked_intro :
    (w bits : ℕ)
    → bits % 64 ≢ 0
    → ((i : ℕ) → i < bits % 64 → word_bit w i ≡ false)
    → bit_and w (last_word_mask bits) ≡ 0
masked_intro w bits ne h = eq_zero_of_bits _ (λ i.
    ground (arith, word_bit-bit_and w (last_word_mask bits) i, word_bit-last_word_mask bits i, h i))

-- What `no_bits` asks for.
no_bits_parts :
    (f : ℕ → ℕ) (bits : ℕ)
    → no_bits f bits ≡ true
    → (all_clear (bits / 64) 0 f ≡ true)
      × (bits % 64 ≢ 0 → bit_and (f (bits / 64)) (last_word_mask bits) ≡ 0)
unfolding no_bits
no_bits_parts f bits h = (ground arith, λ ne. is_zero _ (ground arith))

no_bits_of_parts :
    (f : ℕ → ℕ) (bits : ℕ)
    → all_clear (bits / 64) 0 f ≡ true
    → (bits % 64 ≢ 0 → bit_and (f (bits / 64)) (last_word_mask bits) ≡ 0)
    → no_bits f bits ≡ true
unfolding no_bits
no_bits_of_parts f bits h k = elim (Bool-cases (bits % 64 == 0)) [
  | inl whole ↦ rw (h, whole) refl
  | inr part ↦ rw (h, part, k (λ z. ground arith)) refl
]

-- `no_bits` says that the words have no bit below the size.
pub no_bits_elim :
    (f : ℕ → ℕ) (bits : ℕ)
    → no_bits f bits ≡ true
    → (i : ℕ) → i < bits
    → word_bit (f (i / 64)) (i % 64) ≡ false
no_bits_elim f bits h i lt =
    let (clear, masked) = no_bits_parts f bits h in
    elim (dec_lt (i / 64) (bits / 64)) [
      | yes before ↦
          rw (all_clear_elim (bits / 64) 0 f clear (i / 64) (omega arith) (omega arith))
            (word_bit-zero (i % 64))
      | no last ↦
          let at : i / 64 ≡ bits / 64 = omega arith in
          rw at
            (masked_elim (f (bits / 64)) bits (i % 64) (masked (λ z. omega arith)) (omega arith))
    ]

pub no_bits_intro :
    (f : ℕ → ℕ) (bits : ℕ)
    → ((k : ℕ) → IsWord (f k))
    → ((i : ℕ) → i < bits → word_bit (f (i / 64)) (i % 64) ≡ false)
    → no_bits f bits ≡ true
no_bits_intro f bits w h =
    no_bits_of_parts f bits
      (all_clear_intro (bits / 64) 0 f (λ j a b. eq_zero_of_bits (f j) (λ r. elim (dec_lt r 64) [
        | yes low ↦
            let word : (j * 64 + r) / 64 ≡ j = omega arith in
            let bit : (j * 64 + r) % 64 ≡ r = omega arith in
            subst (λ r. word_bit (f j) r ≡ false) bit
              (subst (λ k. word_bit (f k) ((j * 64 + r) % 64) ≡ false) word
                (h (j * 64 + r) (omega arith)))
        | no high ↦ word_bit_high 64 (f j) r (w j) (omega arith)
      ])))
      (λ ne. masked_intro (f (bits / 64)) bits ne (λ r low.
        let word : (bits / 64 * 64 + r) / 64 ≡ bits / 64 = omega arith in
        let bit : (bits / 64 * 64 + r) % 64 ≡ r = omega arith in
        subst (λ r. word_bit (f (bits / 64)) r ≡ false) bit
          (subst (λ k. word_bit (f k) ((bits / 64 * 64 + r) % 64) ≡ false) word
            (h (bits / 64 * 64 + r) (omega arith)))))

pub word_at-write_words :
    (left k : ℕ) (f : ℕ → ℕ) (dst : Words) (j : ℕ)
    → k + left ≤ length dst
    → word_at (write_words left k f dst) j
      ≡ (if leb k j && ltb j (k + left) then f j else word_at dst j)
unfolding write_words
word_at-write_words zero k f dst j h = ground arith
word_at-write_words (suc left) k f dst j h =
    let rest =
      word_at-write_words left (k + 1) f (set dst k (f k)) j
        (omega (arith, length-set dst k (f k))) in
    elim (ℕ_discrete k j) [
      | yes here ↦ ground (arith, rest, get_or-set dst k j (f k) 0, ap f here)
      | no other ↦ ground (arith, rest, get_or-set dst k j (f k) 0)
    ]

pub length-write_words :
    (left k : ℕ) (f : ℕ → ℕ) (dst : Words) → length (write_words left k f dst) ≡ length dst
unfolding write_words
length-write_words zero k f dst = refl
length-write_words (suc left) k f dst =
    length-write_words left (k + 1) f (set dst k (f k)) ∙ length-set dst k (f k)
