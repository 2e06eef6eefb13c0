-- ===== src/Bitmap/Region/Mask.antt =====
-- The words and bits of a region.
use mpipin.Base.{
  ℕ, zero, suc, ◌+◌, ◌-◌, ◌*◌, ◌%◌, ◌^◌, ◌≤◌, ◌<◌, ◌≡◌, arith, ◌&&◌, ltb, leb, if◌then◌else◌,
  Bool-cases, inl, inr, ap, sym, ◌∙◌,
}
use native.Mathlib.Nat.{two-pow-succ, one-le-pow, mod-mod_of_dvd, dvd-mul_right}
use mpipin.Bits.{word_bit, word_bit-ones}
use mpipin.Word.{IsWord, shl, word_bit-shl_word, shl-IsWord}
use mpipin.Bitmap.Masks.{shl_one}
use mpipin.Bitmap.Region.{reg_mask}

-- A region lies in a word, or consists of whole words.
pub data Placed (pos order : ℕ) : Type 0 where
  in_word : 2 ^ order < 64 → pos % 64 + 2 ^ order ≤ 64 → Placed pos order
  whole : (n : ℕ) → 2 ^ order ≡ 64 * n → pos % 64 ≡ 0 → Placed pos order

six_more : (order : ℕ) → 2 ^ suc (suc (suc (suc (suc (suc order))))) ≡ 64 * 2 ^ order
six_more order = omega (
  arith,
  two-pow-succ order,
  two-pow-succ (suc order),
  two-pow-succ (suc (suc order)),
  two-pow-succ (suc (suc (suc order))),
  two-pow-succ (suc (suc (suc (suc order)))),
  two-pow-succ (suc (suc (suc (suc (suc order))))),
)

aligned : (pos m : ℕ) → pos % (64 * m) ≡ 0 → pos % 64 ≡ 0
aligned pos m e = sym (mod-mod_of_dvd 64 {b = 64 * m} pos (dvd-mul_right 64 m)) ∙ ap (λ z. z % 64) e

-- A multiple of the size of a region is a place for it.
pub placed : (pos order : ℕ) → pos % 2 ^ order ≡ 0 → Placed pos order
placed pos zero e = in_word (omega arith) (omega arith)
placed pos (suc zero) e = in_word (omega arith) (omega arith)
placed pos (suc (suc zero)) e = in_word (omega arith) (omega arith)
placed pos (suc (suc (suc zero))) e = in_word (omega arith) (omega arith)
placed pos (suc (suc (suc (suc zero)))) e = in_word (omega arith) (omega arith)
placed pos (suc (suc (suc (suc (suc zero))))) e = in_word (omega arith) (omega arith)
placed pos (suc (suc (suc (suc (suc (suc order)))))) e =
    whole (2 ^ order) (six_more order)
      (aligned pos (2 ^ order) (ap (λ z. pos % z) (sym (six_more order)) ∙ e))

-- n ones, for 0 < n <= 64, as the code makes them.
all_but_top : (n : ℕ) → n < 64 → shl 1 n + (shl 1 n - 1) ≡ 2 ^ suc n - 1
all_but_top n h = rw (shl_one n h) (omega (arith, two-pow-succ n, one-le-pow n 2))

shifted_ones :
    (n offset r : ℕ)
    → n < 64
    → r < 64
    → word_bit (shl (shl 1 n + (shl 1 n - 1)) offset) r ≡ (leb offset r && ltb r (offset + suc n))
shifted_ones n offset r h low =
    rw (all_but_top n h) (
      ground
        (arith, word_bit-shl_word (2 ^ suc n - 1) offset r, word_bit-ones (suc n) (r - offset)))

-- The bits of the mask.
pub word_bit-reg_mask :
    (order offset r : ℕ)
    → r < 64
    → word_bit (reg_mask order offset) r
      ≡ (leb offset r && ltb r (offset + (if ltb (2 ^ order) 64 then 2 ^ order else 64)))
unfolding reg_mask
word_bit-reg_mask order offset r low =
    let some_bit = one-le-pow order 2 in
    elim (Bool-cases (ltb (2 ^ order) 64)) [
      | inl small ↦ rw small (
          shifted_ones (2 ^ order - 1) offset r (ground arith) low
          ∙ ap (λ n. leb offset r && ltb r (offset + n)) (omega arith))
      | inr large ↦ rw large (shifted_ones 63 offset r (omega arith) low)
    ]

pub reg_mask-IsWord : (order offset : ℕ) → IsWord (reg_mask order offset)
unfolding reg_mask
reg_mask-IsWord order offset = shl-IsWord _ offset
