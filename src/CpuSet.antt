-- ===== src/CpuSet.antt =====
-- `cpu_set_t`, the macros of <sched.h> on it, and the iterators of mpipin.c. A set is a bitmap of
-- 1024 bits; as the C library defines them, the macros leave CPUs from 1024 on alone.
pub mod Laws
pub mod Each
use mpipin.Base.{
  ℕ, zero, suc, ◌+◌, ◌-◌, ◌*◌, ◌/◌, ◌%◌, ◌^◌, ◌≡◌, bit_and, bit_or, Bool, false, not, ltb, ◌==◌,
  if◌then◌else◌, List, length, replicate, set, Option, none, some,
}
use mpipin.Base.Int.{ℤ, pos, negsuc, minus_one}
use mpipin.Base.Count.{count_below}
use mpipin.Word.{bits_per_long, bit_not, shl}
use mpipin.Bitops.{Words, IsWords, word_at, get_bit, find_first_bit, find_next_bit}

abbrev pub CpuSet : Type 0
CpuSet = Words

-- sizeof(cpu_set_t) * BITS_PER_BYTE
abbrev pub cpu_bits : ℕ
cpu_bits = 1024

pub record IsCpuSet (s : CpuSet) : Type 0 where
  pub size : length s ≡ 16
  pub words : IsWords s

-- memset(s, 0, sizeof(cpu_set_t))
abbrev pub empty_set : CpuSet
empty_set = replicate 16 0

unfoldable pub cpu_isset : ℕ → CpuSet → Bool
cpu_isset cpu s =
    if ltb cpu cpu_bits
    then not (bit_and (word_at s (cpu / bits_per_long)) (shl 1 (cpu % bits_per_long)) == 0)
    else false

unfoldable pub cpu_set : ℕ → CpuSet → CpuSet
cpu_set cpu s =
    let p = cpu / bits_per_long in
    if ltb cpu cpu_bits then set s p (bit_or (word_at s p) (shl 1 (cpu % bits_per_long))) else s

unfoldable pub cpu_clr : ℕ → CpuSet → CpuSet
cpu_clr cpu s =
    let p = cpu / bits_per_long in
    if ltb cpu cpu_bits
    then set s p (bit_and (word_at s p) (bit_not (shl 1 (cpu % bits_per_long))))
    else s

unfoldable pub cpu_count : CpuSet → ℕ
cpu_count s = count_below cpu_bits (get_bit s)

unfoldable pub cpuset_first : CpuSet → ℕ
cpuset_first srcp = find_first_bit srcp cpu_bits

-- (unsigned long)(n + 1) for an `int` n.
abbrev pub next_offset : ℤ → ℕ
next_offset (pos n) = n + 1
next_offset (negsuc n) = (2 ^ 64 - n) % 2 ^ 64

unfoldable pub cpuset_next : ℤ → CpuSet → ℕ
cpuset_next n srcp = find_next_bit srcp cpu_bits (next_offset n)

-- A `for_each_cpu` loop whose body leaves it (by `goto`, `break` or an error) with a value, or goes
-- on. `nprocs` is what `get_nprocs_conf` returns. Each round moves on, so 1025 rounds are enough.
module _ {ℓ} {R : Type ℓ} where
  unfoldable pub each_cpu : ℕ → (nprocs : ℕ) → CpuSet → (ℕ → Option R) → ℤ → Option R
  each_cpu zero nprocs set body cpu = none
  each_cpu (suc fuel) nprocs set body cpu =
      let cpu' = cpuset_next cpu set in
      let rest = each_cpu fuel nprocs set body (pos cpu') in
      if ltb cpu' nprocs then elim (body cpu') [ some r ↦ some r | none ↦ rest ] else none

  unfoldable pub for_each_cpu : (nprocs : ℕ) → CpuSet → (ℕ → Option R) → Option R
  for_each_cpu nprocs set body = each_cpu (cpu_bits + 1) nprocs set body minus_one
