-- ===== src/Bitmap/Fold/Law.antt =====
-- `bitmap_fold`, bit by bit.
use mpipin.Base.{
  ℕ, zero, suc, ◌+◌, ◌*◌, ◌/◌, ◌%◌, ◌≤◌, ◌<◌, ◌≡◌, ◌↔◌, arith, true, false, ◌==◌, if◌then◌else◌,
  ℕ_discrete, Bool-cases, inl, inr, ◌⊎◌, sym, ◌∙◌, ap, length, get_or-set, length-set, bit_or,
}
use native.Mathlib.Nat.{mod-lt}
use mpipin.Bits.{word_bit, word_bit-zero, word_bit-bit_or}
use mpipin.Word.{IsWord, shl, word_bit-shl_one}
use mpipin.Bitops.{Words, word_at, get_bit, IsWords, set_bit}
use mpipin.Bitmap.{bits_to_longs}
use mpipin.Bitmap.Logic.{write_words}
use mpipin.Bitmap.Logic.Loops.{word_at-write_words, length-write_words}
use mpipin.Bitmap.Fold.{bitmap_zero, bitmap_fold}
use mpipin.Bitmap.Fold.Visit.{visit, for_each_set_bit-visit}

pub get_bit-set_bit :
    (nr : ℕ) (addr : Words) (i : ℕ)
    → nr < 64 * length addr
    → get_bit (set_bit nr addr) i ≡ (if nr == i then true else get_bit addr i)
unfolding set_bit get_bit
get_bit-set_bit nr addr i lt = ground (
  arith,
  get_or-set addr (nr / 64) (i / 64) (bit_or (word_at addr (nr / 64)) (shl 1 (nr % 64))) 0,
  word_bit-bit_or (word_at addr (nr / 64)) (shl 1 (nr % 64)) (i % 64),
  word_bit-shl_one (nr % 64) (i % 64),
)

pub length-set_bit : (nr : ℕ) (addr : Words) → length (set_bit nr addr) ≡ length addr
unfolding set_bit
length-set_bit nr addr = length-set addr (nr / 64) _

-- A bit of the original among the places from `i` on that comes down to `r`.
abbrev pub Folds : Words → (sz left i r : ℕ) → Type 0
Folds orig sz left i r = (k : ℕ) × (i ≤ k) × (k < i + left) × (get_bit orig k ≡ true) × (k % sz ≡ r)

module _ (orig : Words) (sz bits : ℕ) (some_size : 0 < sz) where
  abbrev step : ℕ → Words → Words
  step oldbit dst = set_bit (oldbit % sz) dst

  visit-Folds :
      (left i r : ℕ) (dst : Words)
      → sz ≤ 64 * length dst
      → (get_bit (visit orig bits step left i dst) r ≡ true)
        ↔ ((get_bit dst r ≡ true) ⊎ Folds orig sz left i r)
  unfolding visit
  visit-Folds zero i r dst fits =
      (λ h. inl h, elim [ inl h ↦ h | inr (k, a, b, m, e) ↦ absurd (omega arith) ])
  visit-Folds (suc left) i r dst fits = elim (Bool-cases (get_bit orig i)) [
    | inl member ↦
        let below : i % sz < sz = mod-lt i some_size in
        let law = get_bit-set_bit (i % sz) dst r (omega arith) in
        let (there, back) =
          visit-Folds left (i + 1) r (set_bit (i % sz) dst)
            (omega (arith, length-set_bit (i % sz) dst)) in
        rw member (
          λ h. elim (there h) [
            | inl set ↦ elim (ℕ_discrete (i % sz) r) [
              | yes here ↦ inr (i, omega arith, omega arith, member, here)
              | no other ↦ inl (ground (arith, law))
            ]
            | inr (k, a, b, m, e) ↦ inr (k, omega arith, omega arith, m, e)
          ],
          elim [
            | inl h ↦ back (inl (ground (arith, law)))
            | inr (k, a, b, m, e) ↦ elim (ℕ_discrete i k) [
              | yes here ↦
                  let mine : i % sz ≡ r = ap (λ k. k % sz) here ∙ e in
                  back (inl (ground (arith, law)))
              | no other ↦ back (inr (k, omega arith, omega arith, m, e))
            ]
          ],
        )
    | inr clear ↦
        let (there, back) = visit-Folds left (i + 1) r dst fits in
        rw clear (
          λ h. elim (there h) [
            | inl set ↦ inl set
            | inr (k, a, b, m, e) ↦ inr (k, omega arith, omega arith, m, e)
          ],
          elim [
            | inl h ↦ back (inl h)
            | inr (k, a, b, m, e) ↦ elim (ℕ_discrete i k) [
              | yes here ↦ absurd (ground (arith, m, clear, ap (get_bit orig) here))
              | no other ↦ back (inr (k, omega arith, omega arith, m, e))
            ]
          ],
        )
  ]

pub bitmap_zero_bits :
    (dst : Words) (bits i : ℕ)
    → bits ≤ 64 * length dst
    → i < bits
    → get_bit (bitmap_zero dst bits) i ≡ false
unfolding bitmap_zero get_bit bits_to_longs
bitmap_zero_bits dst bits i fits lt =
    let at = word_at-write_words (bits_to_longs bits) 0 (λ _. 0) dst (i / 64) (omega arith) in
    let none_set : word_at (write_words (bits_to_longs bits) 0 (λ _. 0) dst) (i / 64) ≡ 0 =
      ground (arith, at) in
    ap (λ w. word_bit w (i % 64)) none_set ∙ word_bit-zero (i % 64)

pub length-bitmap_zero : (dst : Words) (bits : ℕ) → length (bitmap_zero dst bits) ≡ length dst
unfolding bitmap_zero
length-bitmap_zero dst bits = length-write_words (bits_to_longs bits) 0 (λ _. 0) dst

-- Below the size, `bitmap_fold` sets the bits that are a bit of the original modulo `sz` and clears the
-- others: for two arrays, the original of words, a destination that holds the bits, a size below 2^64
-- and `sz` from 1 up to the size.
pub bitmap_fold_iff :
    (dst orig : Words) (sz bits r : ℕ)
    → IsWords orig
    → IsWord bits
    → bits ≤ 64 * length dst
    → 0 < sz
    → sz ≤ bits
    → r < bits
    → (get_bit (bitmap_fold false dst orig sz bits) r ≡ true) ↔ Folds orig sz bits 0 r
unfolding bitmap_fold
bitmap_fold_iff dst orig sz bits r words word fits some_size le lt =
    let (there, back) =
      visit-Folds orig sz bits some_size bits 0 r (bitmap_zero dst bits)
        (omega (arith, length-bitmap_zero dst bits)) in
    let same =
      ap (λ ws. get_bit ws r)
        (for_each_set_bit-visit orig bits (λ oldbit dst. set_bit (oldbit % sz) dst) words word
          (bitmap_zero dst bits)) in
    (
      λ h. elim (there (sym same ∙ h)) [
        | inl set ↦ absurd (ground (arith, bitmap_zero_bits dst bits r fits lt))
        | inr f ↦ f
      ],
      λ f. same ∙ back (inr f),
    )
