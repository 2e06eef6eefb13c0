-- ===== src/Bitmap/Fold/Visit.antt =====
-- `for_each_set_bit` visits the set bits below the size, in ascending order.
use mpipin.Base.{
  ℕ, zero, suc, ◌+◌, ◌≤◌, ◌<◌, ◌≡◌, refl, arith, true, if◌then◌else◌, ℕ_discrete, lt→ltb, le→ltb,
  sym, subst,
}
use mpipin.Word.{IsWord}
use mpipin.Bitops.{Words, get_bit, IsWords, find_first_bit, find_next_bit}
use mpipin.Bitops.Find.{IsFirst, find_first_bit-IsFirst, find_next_bit-IsFirst}
use mpipin.Bitmap.Fold.{for_bits, for_each_set_bit}

module _ {ℓ} {S : Type ℓ} (addr : Words) (size : ℕ) (body : ℕ → S → S) where
  -- The places from `i` on, `left` of them, with the body run at the set bits.
  unfoldable pub visit : (left i : ℕ) → S → S
  visit zero i s = s
  visit (suc left) i s = visit left (i + 1) (if get_bit addr i then body i s else s)

  module _ (words : IsWords addr) (word : IsWord size) where
    for_bits-visit :
        (left fuel from bit : ℕ) (s : S)
        → IsFirst (get_bit addr) from size bit
        → from + left ≡ size
        → left ≤ fuel
        → for_bits addr size body fuel bit s ≡ visit left from s
    unfolding for_bits visit
    for_bits-visit zero zero from bit s first end enough = refl
    for_bits-visit zero (suc fuel) from bit s first end enough =
        rw (le→ltb bit size (let a = first.start in omega arith)) refl
    for_bits-visit (suc left) zero from bit s first end enough = absurd (omega arith)
    for_bits-visit (suc left) (suc fuel) from bit s first end enough = elim (ℕ_discrete from bit) [
      | yes here ↦
          let inside : bit < size = omega arith in
          let member : get_bit addr from ≡ true =
            subst (λ b. get_bit addr b ≡ true) (sym here) (first.found inside) in
          rw (lt→ltb bit size inside, member, here)
            (for_bits-visit left fuel (bit + 1) (find_next_bit addr size (bit + 1)) (body bit s)
              (find_next_bit-IsFirst addr words size (bit + 1) word (omega arith)) (omega arith)
              (omega arith))
      | no later ↦
          let a = first.start in
          rw (first.before from (omega arith) (omega arith)) (
            for_bits-visit left (suc fuel) (from + 1) bit s
              (record {
                start = omega arith;
                within = first.within;
                before = λ j p q. first.before j (omega arith) q;
                found = first.found;
              })
              (omega arith) (omega arith))
    ]

    -- `for_each_set_bit` runs its body at the set bits below the size, in ascending order, for an array
    -- of words and a size below 2^64.
    pub for_each_set_bit-visit : (s : S) → for_each_set_bit addr size body s ≡ visit size 0 s
    unfolding for_each_set_bit
    for_each_set_bit-visit s =
        for_bits-visit size size 0 (find_first_bit addr size) s
          (find_first_bit-IsFirst addr words size word) (omega arith) (omega arith)
