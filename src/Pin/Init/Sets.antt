-- ===== src/Pin/Init/Sets.antt =====
-- The loops over CPU sets, bit by bit.
use mpipin.Base.{
  ℕ, zero, suc, ◌+◌, ◌≤◌, ◌<◌, ◌≡◌, arith, Bool, true, false, ◌&&◌, ltb, leb, ◌==◌, if◌then◌else◌,
  dec_lt, lt→ltb, le→ltb, ℕ_discrete, subst,
}
use mpipin.Base.Int.{ℤ, pos, minus_one}
use mpipin.Bitops.{get_bit}
use mpipin.CpuSet.{CpuSet, cpu_bits, IsCpuSet, cpu_set, cpu_clr, cpuset_next, next_offset}
use mpipin.CpuSet.Laws.{cpu_set-IsCpuSet, cpu_clr-IsCpuSet, get_bit-cpu_set, get_bit-cpu_clr}
use mpipin.CpuSet.Each.{cpuset_next-IsFirst}
use mpipin.Pin.Init.{for_cpus_from, for_cpus}

-- A change that makes the bit of a CPU `b` and leaves the others.
module _ (change : ℕ → CpuSet → CpuSet) (b : Bool)
    (keeps : (cpu : ℕ) (s : CpuSet) → IsCpuSet s → IsCpuSet (change cpu s))
    (changes : (cpu i : ℕ) (s : CpuSet)
      → IsCpuSet s
      → cpu < cpu_bits
      → get_bit (change cpu s) i ≡ (if cpu == i then b else get_bit s i))
    (nprocs : ℕ) (few : nprocs ≤ cpu_bits) (src : CpuSet) (is_set : IsCpuSet src) where
  for_cpus_from_bits :
      (fuel : ℕ) (prev : ℤ) (dst : CpuSet) (i : ℕ)
      → IsCpuSet dst
      → next_offset prev ≤ cpu_bits
      → cpu_bits < next_offset prev + fuel
      → (get_bit (for_cpus_from fuel nprocs change src prev dst) i ≡ (
          if leb (next_offset prev) i && ltb i nprocs && get_bit src i then b else get_bit dst i))
        × IsCpuSet (for_cpus_from fuel nprocs change src prev dst)
  unfolding for_cpus_from
  for_cpus_from_bits zero prev dst i h le enough = absurd (omega arith)
  for_cpus_from_bits (suc fuel) prev dst i h le enough =
      let first = cpuset_next-IsFirst src prev is_set le in
      elim (dec_lt (cpuset_next prev src) nprocs) [
        | no past ↦
            rw (le→ltb (cpuset_next prev src) nprocs (omega arith))
              (ground (arith, first.before i), h)
        | yes inside ↦
            let (rest, is) =
              for_cpus_from_bits fuel (pos (cpuset_next prev src))
                (change (cpuset_next prev src) dst) i (keeps (cpuset_next prev src) dst h)
                (omega arith) (omega (arith, first.start)) in
            let member : get_bit src (cpuset_next prev src) ≡ true = first.found (omega arith) in
            rw (lt→ltb (cpuset_next prev src) nprocs inside) (
              elim (ℕ_discrete (cpuset_next prev src) i) [
                | yes here ↦
                    let mine : get_bit src i ≡ true =
                      subst (λ c. get_bit src c ≡ true) here member in
                    ground (arith, rest, changes (cpuset_next prev src) i dst h, first.start)
                | no other ↦ ground (
                  arith,
                  rest,
                  changes (cpuset_next prev src) i dst h,
                  first.before i,
                  first.start,
                )
              ],
              is,
            )
      ]

  pub for_cpus_bits :
      (dst : CpuSet) (i : ℕ)
      → IsCpuSet dst
      → (get_bit (for_cpus nprocs change src dst) i
          ≡ (if ltb i nprocs && get_bit src i then b else get_bit dst i))
        × IsCpuSet (for_cpus nprocs change src dst)
  unfolding for_cpus
  for_cpus_bits dst i h =
      let (bits, is) = for_cpus_from_bits 1025 minus_one dst i h (omega arith) (omega arith) in
      (ground (arith, bits), is)

-- The two loops of `main`: the union with a set, and the difference, for the CPUs below `nprocs`.
module _ (nprocs : ℕ) (few : nprocs ≤ cpu_bits) (src : CpuSet) (is_set : IsCpuSet src) where
  pub get_bit-for_cpus :
      (dst : CpuSet) (i : ℕ)
      → IsCpuSet dst
      → (get_bit (for_cpus nprocs cpu_set src dst) i
          ≡ (if ltb i nprocs && get_bit src i then true else get_bit dst i))
        × IsCpuSet (for_cpus nprocs cpu_set src dst)
  get_bit-for_cpus dst i h =
      for_cpus_bits cpu_set true (λ cpu s k. cpu_set-IsCpuSet {s = s} cpu k)
        (λ cpu i s k lt. ground (arith, get_bit-cpu_set {s = s} cpu i k)) nprocs few src is_set dst
        i h

  pub get_bit-for_cpus_clr :
      (dst : CpuSet) (i : ℕ)
      → IsCpuSet dst
      → (get_bit (for_cpus nprocs cpu_clr src dst) i
          ≡ (if ltb i nprocs && get_bit src i then false else get_bit dst i))
        × IsCpuSet (for_cpus nprocs cpu_clr src dst)
  get_bit-for_cpus_clr dst i h =
      for_cpus_bits cpu_clr false (λ cpu s k. cpu_clr-IsCpuSet {s = s} cpu k)
        (λ cpu i s k lt. get_bit-cpu_clr {s = s} cpu i k) nprocs few src is_set dst i h
