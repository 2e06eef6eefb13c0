-- ===== src/Bitmap/Region/Allocate.antt =====
-- The allocation of regions: the operations that the users of bitmap.c call.
use mpipin.Base.{
  ℕ, zero, suc, ◌+◌, ◌*◌, ◌%◌, ◌^◌, ◌≤◌, ◌<◌, ◌≡◌, ◌≢◌, arith, Bool, true, false, leb,
  if◌then◌else◌, Bool-cases, inl, inr, ℕ_discrete, sym, ◌∙◌, subst, length,
}
use native.Mathlib.Nat.{one-le-pow, mul-mod_left, mul-le-mul_right}
use mpipin.Base.Errno.{enomem, ebusy, Result, ok, err}
use mpipin.Bitops.{Words, get_bit}
use mpipin.Bitmap.Region.{
  isfree, alloc, reg_op, find_region_from, bitmap_find_free_region, bitmap_release_region,
  bitmap_allocate_region,
}
use mpipin.Bitmap.Region.Spec.{inside, Free, isfree_elim, isfree_intro, get_bit-reg_op}

-- The bits of the region are `b`, and the others as before.
abbrev pub Filled : Bool → (before after : Words) → (pos order : ℕ) → Type 0
Filled b before after pos order =
    (i : ℕ) → get_bit after i ≡ (if inside pos order i then b else get_bit before i)

-- The outcome of an allocation at a place.
pub data Allocation (bitmap : Words) (pos order : ℕ) : Words × Result ℕ → Type 0 where
  taken :
      (after : Words)
      → Free bitmap pos order
      → Filled true bitmap after pos order
      → Allocation bitmap pos order (after, ok 0)
  busy : ¬ Free bitmap pos order → Allocation bitmap pos order (bitmap, err ebusy)

differ : true ≢ false
differ e = ground arith

-- `bitmap_allocate_region` returns 0 and sets the bits of the region where they were clear, and else
-- returns -EBUSY and changes nothing: for a multiple of the region's size, in the array.
pub bitmap_allocate_region-Allocation :
    (bitmap : Words) (pos order : ℕ)
    → pos % 2 ^ order ≡ 0
    → pos + 2 ^ order ≤ 64 * length bitmap
    → Allocation bitmap pos order (bitmap_allocate_region bitmap pos order)
unfolding bitmap_allocate_region
bitmap_allocate_region-Allocation bitmap pos order at fits =
    elim (Bool-cases (reg_op isfree bitmap pos order).1) [
      | inl free ↦ rw free (
          taken _ (isfree_elim bitmap pos order at free)
            (λ i. (get_bit-reg_op bitmap pos order i at fits).0))
      | inr used ↦
          rw used (busy (λ free. differ (sym (isfree_intro bitmap pos order at free) ∙ used)))
    ]

-- `bitmap_release_region` clears the bits of the region and no other.
pub bitmap_release_region-Filled :
    (bitmap : Words) (pos order : ℕ)
    → pos % 2 ^ order ≡ 0
    → pos + 2 ^ order ≤ 64 * length bitmap
    → Filled false bitmap (bitmap_release_region bitmap pos order) pos order
unfolding bitmap_release_region
bitmap_release_region-Filled bitmap pos order at fits i =
    (get_bit-reg_op bitmap pos order i at fits).1

-- The outcome of a search among the regions number `first` and above, in the first `bits` bits.
pub data Search (bitmap : Words) (bits order first : ℕ) : Words × Result ℕ → Type 0 where
  found :
      (n : ℕ) (after : Words)
      → first ≤ n
      → n * 2 ^ order + 2 ^ order ≤ bits
      → ((j : ℕ) → first ≤ j → j < n → ¬ Free bitmap (j * 2 ^ order) order)
      → Free bitmap (n * 2 ^ order) order
      → Filled true bitmap after (n * 2 ^ order) order
      → Search bitmap bits order first (after, ok (n * 2 ^ order))
  no_region :
      ((j : ℕ) → first ≤ j → j * 2 ^ order + 2 ^ order ≤ bits → ¬ Free bitmap (j * 2 ^ order) order)
      → Search bitmap bits order first (bitmap, err enomem)

module _ (bitmap : Words) (bits order : ℕ) where
  from_here : (P : ℕ → Type 0) (n j : ℕ) → P n → (n + 1 ≤ j → P j) → n ≤ j → P j
  from_here P n j here above le = elim (ℕ_discrete n j) [
    | yes same ↦ subst P same here
    | no other ↦ above (omega arith)
  ]

  Search-next :
      (n : ℕ) (r : Words × Result ℕ)
      → ¬ Free bitmap (n * 2 ^ order) order
      → Search bitmap bits order (n + 1) r
      → Search bitmap bits order n r
  Search-next n _ used (found k after le fits before free filled) =
      found k after (omega arith) fits
        (λ j a b.
          from_here (λ j. ¬ Free bitmap (j * 2 ^ order) order) n j used (λ a'. before j a' b) a)
        free filled
  Search-next n _ used (no_region all) =
      no_region (λ j a b.
        from_here (λ j. ¬ Free bitmap (j * 2 ^ order) order) n j used (λ a'. all j a' b) a)

  find_region_from-Search :
      (fuel n : ℕ)
      → bits ≤ 64 * length bitmap
      → bits < n * 2 ^ order + fuel
      → Search bitmap bits order n (find_region_from fuel bitmap bits order (n * 2 ^ order))
  unfolding find_region_from
  find_region_from-Search zero n fits enough =
      no_region (λ j a b _. let up = mul-le-mul_right (2 ^ order) a in absurd (omega arith))
  find_region_from-Search (suc fuel) n fits enough =
      let some_bit = one-le-pow order 2 (omega arith) in
      let next : n * 2 ^ order + 2 ^ order ≡ (n + 1) * 2 ^ order = omega arith in
      let at = mul-mod_left n (2 ^ order) in
      elim (Bool-cases (leb (n * 2 ^ order + 2 ^ order) bits)) [
        | inl room ↦ elim (Bool-cases (reg_op isfree bitmap (n * 2 ^ order) order).1) [
          | inl free ↦
              rw (room, free)
                (found n (reg_op alloc bitmap (n * 2 ^ order) order).0 (omega arith) (ground arith)
                  (λ j a b. absurd (omega arith)) (isfree_elim bitmap (n * 2 ^ order) order at free)
                  (λ i. (get_bit-reg_op bitmap (n * 2 ^ order) order i at (ground arith)).0))
          | inr used ↦
              rw (room, used, next)
                (Search-next n (find_region_from fuel bitmap bits order ((n + 1) * 2 ^ order))
                  (λ free. differ (sym (isfree_intro bitmap (n * 2 ^ order) order at free) ∙ used))
                  (find_region_from-Search fuel (n + 1) fits (omega arith)))
        ]
        | inr full ↦ rw full (
            no_region (λ j a b _. let up = mul-le-mul_right (2 ^ order) a in absurd (ground arith)))
      ]

  -- `bitmap_find_free_region` allocates the first of the regions whose bits are clear and returns its
  -- place, or returns -ENOMEM and changes nothing where there is none: for an array that holds `bits`
  -- bits, and a size and an order for which `pos + (1 << order)` is an int in every round.
  pub bitmap_find_free_region-Search :
      bits ≤ 64 * length bitmap
      → bits + 2 ^ order < 2 ^ 31
      → Search bitmap bits order 0 (bitmap_find_free_region bitmap bits order)
  unfolding bitmap_find_free_region
  bitmap_find_free_region-Search fits int =
      let start : 0 * 2 ^ order ≡ 0 = omega arith in
      subst (λ pos. Search bitmap bits order 0 (find_region_from (bits + 1) bitmap bits order pos))
        start (find_region_from-Search (bits + 1) 0 fits (omega arith))
