-- ===== src/Bitmap/Area/Search.antt =====
-- What bitmap_find_next_zero_area finds.
use Prim.Native.Nat.{max}
use native.Mathlib.Nat.{
  div-add-mod', mod-lt, one-le-pow, mod-eq_of_lt, mul-mod_left, mul-le-mul_right,
}
use mpipin.Base.{
  ℕ, zero, suc, ◌+◌, ◌-◌, ◌*◌, ◌/◌, ◌%◌, ◌^◌, ◌≤◌, ◌<◌, ◌≡◌, ap, subst, arith, length, bit_and,
  Bool, true, false, not, dec_lt, lt→ltb, le→ltb,
}
use mpipin.Bits.{
  word_bit, word_bit-bit_and, word_bit-ones, word_bit-shl, word_bit-shr, word_bit_high, word_ext,
}
use mpipin.Word.{IsWord, bit_not, word_bit-bit_not}
use mpipin.Bitops.{Words, IsWords, get_bit, find_next_bit}
use mpipin.Bitops.Find.{IsFirst, find_next_bit-IsFirst}
use mpipin.Bitops.Zero.{find_next_zero_bit}
use mpipin.Bitops.Zero.Flip.{find_next_zero_bit-IsFirst}
use mpipin.Bitmap.Area.{align_mask_up, find_area_from, bitmap_find_next_zero_area}

-- `x & ~mask` is `x` less its remainder by the power of 2.
bit_and_not_ones :
    (k x : ℕ) → IsWord (2 ^ k - 1) → IsWord x → bit_and x (bit_not (2 ^ k - 1)) ≡ x / 2 ^ k * 2 ^ k
bit_and_not_ones k x mask h = word_ext _ _ λ i. ground (
  arith,
  word_bit-bit_and x (bit_not (2 ^ k - 1)) i,
  word_bit-bit_not (2 ^ k - 1) i mask,
  word_bit-ones k i,
  word_bit-shl k (x / 2 ^ k) i,
  word_bit-shr k x (i - k),
  word_bit_high 64 x i h,
  ap (word_bit x) (above i),
)
  where
    above : (i : ℕ) → k + (i - k) ≡ max i k
    above i = omega arith

multiple_le : (v u d : ℕ) → u * d < v * d + d → u * d ≤ v * d
multiple_le v u d lt = elim (dec_lt v u) [
  | no le ↦ mul-le-mul_right d (omega arith)
  | yes more ↦ absurd (omega (arith, lt, mul-le-mul_right d more))
]

-- The least multiple from `x` on.
record IsAligned (d x a : ℕ) : Type 0 where
  pub multiple : a % d ≡ 0
  pub from : x ≤ a
  pub near : a < x + d
  pub least : (j : ℕ) → j % d ≡ 0 → x ≤ j → a ≤ j

aligned : (d x : ℕ) → 0 < d → IsAligned d x ((x + (d - 1)) / d * d)
aligned d x pos =
    let split = div-add-mod' (x + (d - 1)) d in
    let small = mod-lt (x + (d - 1)) pos in
    record {
      multiple = mul-mod_left ((x + (d - 1)) / d) d;
      from = omega (arith, split, small);
      near = omega (arith, split, small);
      least = λ j even le.
          let whole : j / d * d ≡ j = omega (arith, div-add-mod' j d, even) in
          subst (λ m. (x + (d - 1)) / d * d ≤ m) whole
            (multiple_le (j / d) ((x + (d - 1)) / d) d
              (omega (arith, split, div-add-mod' j d, even)));
    }

-- An aligned range of `nr` places below the size in which `p` holds nowhere.
pub record IsArea (p : ℕ → Bool) (size nr d j : ℕ) : Type 0 where
  pub multiple : j % d ≡ 0
  pub inside : j + nr ≤ size
  pub clear : (i : ℕ) → j ≤ i → i < j + nr → p i ≡ false

-- The first such range from a place on, or a number past the size where there is none.
pub record IsAreaSearch (p : ℕ → Bool) (size nr d from r : ℕ) : Type 0 where
  pub found : r ≤ size → (from ≤ r) × IsArea p size nr d r
  pub first : (j : ℕ) → from ≤ j → j < r → ¬ IsArea p size nr d j
  pub failed : size < r → (j : ℕ) → from ≤ j → ¬ IsArea p size nr d j

module _ (map : Words) (size nr k : ℕ) (words : IsWords map) (fits : size ≤ 64 * length map)
    (some : 0 < nr) (room : size + nr + 2 ^ k < 2 ^ 64) where
  abbrev p : ℕ → Bool
  p = get_bit map

  abbrev d : ℕ
  d = 2 ^ k

  -- The place that a round looks at.
  align_mask_up-IsAligned : (x : ℕ) → x ≤ size → IsAligned d x (align_mask_up x (d - 1))
  unfolding align_mask_up
  align_mask_up-IsAligned x le =
      let no_wrap : (x + (d - 1)) % 2 ^ 64 ≡ x + (d - 1) = mod-eq_of_lt (omega arith) in
      rw (no_wrap, bit_and_not_ones k (x + (d - 1)) (omega arith) (omega arith))
        (aligned d x (one-le-pow k 2 (omega arith)))

  -- No range starts before the first clear bit, and so none before the next aligned place.
  none_before :
      {start z a : ℕ}
      → IsFirst (λ i. not (p i)) start size z
      → IsAligned d z a
      → (j : ℕ) → start ≤ j
      → j < a
      → ¬ IsArea p size nr d j
  none_before {start} {z} {a} zero_bit at j le lt area = elim (dec_lt j z) [
    | yes before ↦ ground (arith, zero_bit.before j le before, area.clear j)
    | no later ↦ omega (arith, at.least j area.multiple (omega arith))
  ]

  -- The search goes on behind a set bit in the range.
  search_behind :
      {start start' r : ℕ}
      → start ≤ start'
      → ((j : ℕ) → start ≤ j → j < start' → ¬ IsArea p size nr d j)
      → IsAreaSearch p size nr d start' r
      → IsAreaSearch p size nr d start r
  search_behind {start} {start'} le none_here h = record {
    found = λ within. let (from, area) = h.found within in (omega arith, area);
    first = λ j from lt area. elim (dec_lt j start') [
      | yes early ↦ none_here j from early area
      | no late ↦ h.first j (omega arith) lt area
    ];
    failed = λ past j from area. elim (dec_lt j start') [
      | yes early ↦ none_here j from early area
      | no late ↦ h.failed past j (omega arith) area
    ];
  }

  -- Nor where a range at that place would pass the size, or has a set bit.
  none_past :
      {start a j : ℕ}
      → ((j : ℕ) → start ≤ j → j < a → ¬ IsArea p size nr d j)
      → size < a + nr
      → start ≤ j
      → ¬ IsArea p size nr d j
  none_past {a} {j} none_here past from area = elim (dec_lt j a) [
    | yes early ↦ none_here j from early area
    | no late ↦ omega (arith, area.inside)
  ]

  none_around :
      {start a i : ℕ}
      → ((j : ℕ) → start ≤ j → j < a → ¬ IsArea p size nr d j)
      → p i ≡ true
      → i < a + nr
      → (j : ℕ) → start ≤ j
      → j < i + 1
      → ¬ IsArea p size nr d j
  none_around {a} {i} none_here set lt j from upto area = elim (dec_lt j a) [
    | yes early ↦ none_here j from early area
    | no late ↦ ground (arith, area.clear i, set)
  ]

  find_area_from-IsAreaSearch :
      (fuel start : ℕ)
      → start ≤ size
      → size < start + fuel
      → IsAreaSearch p size nr d start (find_area_from fuel map size start nr (d - 1))
  unfolding find_area_from
  find_area_from-IsAreaSearch zero start le enough = absurd (omega arith)
  find_area_from-IsAreaSearch (suc fuel) start le enough =
      let z : ℕ = find_next_zero_bit map size start in
      let zero_bit : IsFirst (λ i. not (p i)) start size z =
        find_next_zero_bit-IsFirst map words size (omega arith) fits start le in
      let a : ℕ = align_mask_up z (d - 1) in
      let at = align_mask_up-IsAligned z zero_bit.within in
      let none_here = none_before zero_bit at in
      let no_wrap : (a + nr) % 2 ^ 64 ≡ a + nr =
        mod-eq_of_lt (omega (arith, at.near, zero_bit.within)) in
      rw no_wrap (elim (dec_lt size (a + nr)) [
        | yes past ↦ rw (lt→ltb size (a + nr) past) (record {
          found = λ within. absurd (omega arith);
          first = λ j from _. none_past none_here past from;
          failed = λ _ j from. none_past none_here past from;
        })
        | no inside ↦
            let i : ℕ = find_next_bit map (a + nr) a in
            let bit : IsFirst p a (a + nr) i =
              find_next_bit-IsFirst map words (a + nr) a (omega arith) (omega arith) in
            rw (le→ltb size (a + nr) (omega arith)) (elim (dec_lt i (a + nr)) [
              | yes set ↦ rw (lt→ltb i (a + nr) set) (
                  search_behind (omega (arith, bit.start, at.from, zero_bit.start))
                    (none_around none_here (bit.found set) set)
                    (find_area_from-IsAreaSearch fuel (i + 1) (omega arith)
                      (omega (arith, bit.start, at.from, zero_bit.start))))
              | no clear ↦ rw (le→ltb i (a + nr) (omega arith)) (record {
                found = λ within. (
                  omega (arith, at.from, zero_bit.start),
                  record {
                    multiple = at.multiple;
                    inside = omega arith;
                    clear = λ j from lt. bit.before j from (omega arith);
                  },
                );
                first = none_here;
                failed = λ past. absurd (omega (arith));
              })
            ])
      ])

-- If what bitmap_find_next_zero_area returns is at most the size, it is the first aligned place from
-- `start` on where `nr` clear bits follow, all below the size; otherwise there is no such place. The
-- alignment is a power of 2 and `nr` at least 1, the array holds the bits, `start` is at most the size,
-- and the sums stay below 2^64.
pub bitmap_find_next_zero_area-IsAreaSearch :
    (map : Words) (size start nr k : ℕ)
    → IsWords map
    → size ≤ 64 * length map
    → 0 < nr
    → size + nr + 2 ^ k < 2 ^ 64
    → start ≤ size
    → IsAreaSearch
        (get_bit map)
        size
        nr
        (2 ^ k)
        start
        (bitmap_find_next_zero_area map size start nr (2 ^ k - 1))
unfolding bitmap_find_next_zero_area
bitmap_find_next_zero_area-IsAreaSearch map size start nr k words fits some room le =
    find_area_from-IsAreaSearch map size nr k words fits some room (size + 1) start le (omega arith)
