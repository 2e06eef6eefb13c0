-- ===== src/CpuSet/Each.antt =====
-- `cpuset_first`, `cpuset_next` and the loops over the CPUs of a set.
use mpipin.Base.{
  ℕ, zero, suc, ◌+◌, ◌≤◌, ◌<◌, ◌≡◌, arith, true, dec_lt, lt→ltb, le→ltb, Option, none, some,
  Option-cases, inl, inr,
}
use mpipin.Base.Int.{ℤ, pos, minus_one}
use mpipin.Bitops.{get_bit}
use mpipin.Bitops.Find.{IsFirst, find_first_bit-IsFirst, find_next_bit-IsFirst}
use mpipin.CpuSet.{
  CpuSet, cpu_bits, IsCpuSet, cpuset_first, cpuset_next, next_offset, each_cpu, for_each_cpu,
}

-- `cpuset_first` returns the lowest CPU of the set, or 1024 of the empty set.
pub cpuset_first-IsFirst :
    (s : CpuSet) → IsCpuSet s → IsFirst (get_bit s) 0 cpu_bits (cpuset_first s)
unfolding cpuset_first
cpuset_first-IsFirst s h = find_first_bit-IsFirst s h.words cpu_bits (omega arith)

-- `cpuset_next` returns the lowest CPU of the set above `n`, or 1024 where there is none.
pub cpuset_next-IsFirst :
    (s : CpuSet) (n : ℤ)
    → IsCpuSet s
    → next_offset n ≤ cpu_bits
    → IsFirst (get_bit s) (next_offset n) cpu_bits (cpuset_next n s)
unfolding cpuset_next
cpuset_next-IsFirst s n h le =
    find_next_bit-IsFirst s h.words cpu_bits (next_offset n) (omega arith) le

-- How a search over the CPUs of a set below `nprocs` ends: at the first member for which the body
-- leaves the loop, or after all of them.
pub data Searched {R : Type 0} (nprocs from : ℕ) (s : CpuSet) (body : ℕ → Option R)
    : Option R → Type 0 where
  hit :
      {r : R} (cpu : ℕ)
      → from ≤ cpu
      → cpu < nprocs
      → get_bit s cpu ≡ true
      → body cpu ≡ some r
      → ((j : ℕ) → from ≤ j → j < cpu → get_bit s j ≡ true → body j ≡ none)
      → Searched nprocs from s body (some r)
  miss :
      ((j : ℕ) → from ≤ j → j < nprocs → get_bit s j ≡ true → body j ≡ none)
      → Searched nprocs from s body none

module _ {R : Type 0} (nprocs : ℕ) (s : CpuSet) (body : ℕ → Option R) where
  -- A member at which the body goes on is passed.
  Searched-pass :
      {r : Option R} (from cpu : ℕ)
      → IsFirst (get_bit s) from cpu_bits cpu
      → body cpu ≡ none
      → Searched nprocs (cpu + 1) s body r
      → Searched nprocs from s body r
  Searched-pass from cpu first on (hit c a b m e before) =
      hit c (omega (arith, first.start)) b m e λ j p q t. elim (dec_lt cpu j) [
        | yes above ↦ before j (omega arith) q t
        | no below ↦ ground (arith, first.before j, on)
      ]
  Searched-pass from cpu first on (miss none_left) = miss λ j p q t. elim (dec_lt cpu j) [
    | yes above ↦ none_left j (omega arith) q t
    | no below ↦ ground (arith, first.before j, on)
  ]

  module _ (few : nprocs ≤ cpu_bits) (is_set : IsCpuSet s) where
    each_cpu-Searched :
        (fuel : ℕ) (n : ℤ)
        → next_offset n ≤ cpu_bits
        → cpu_bits < next_offset n + fuel
        → Searched nprocs (next_offset n) s body (each_cpu fuel nprocs s body n)
    unfolding each_cpu
    each_cpu-Searched zero n le enough = absurd (omega arith)
    each_cpu-Searched (suc fuel) n le enough = elim (dec_lt cpu nprocs) [
      | no past ↦
          rw (le→ltb cpu nprocs (omega arith))
            (miss λ j a b t. absurd (ground (arith, first.before j)))
      | yes inside ↦ rw (lt→ltb cpu nprocs inside) (elim (Option-cases (body cpu)) [
        | inl on ↦ rw on (
            Searched-pass (next_offset n) cpu first on
              (each_cpu-Searched fuel (pos cpu) (omega arith) (omega (arith, first.start))))
        | inr (r, out) ↦ rw out (
            hit cpu first.start inside (first.found (omega arith)) out
              (λ j a b t. absurd (ground (arith, first.before j))))
      ])
    ]
      where
        cpu : ℕ
        cpu = cpuset_next n s

        first : IsFirst (get_bit s) (next_offset n) cpu_bits (cpuset_next n s)
        first = cpuset_next-IsFirst s n is_set le

    -- A `for_each_cpu` loop visits the members of the set below `nprocs` in ascending order, up to
    -- the first at which its body leaves the loop, where `nprocs` is at most 1024.
    pub for_each_cpu-Searched : Searched nprocs 0 s body (for_each_cpu nprocs s body)
    unfolding for_each_cpu
    for_each_cpu-Searched = each_cpu-Searched 1025 minus_one (omega arith) (omega arith)
