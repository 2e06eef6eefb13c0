-- ===== src/Tests/Machine.antt =====
-- A machine with four CPUs on two NUMA nodes: CPUs 0 and 2 share a cache, and so do 1 and 3.
use mpipin.Base.{
  ℕ, zero, suc, ◌-◌, ◌/◌, ◌%◌, ◌<◌, ◌≡◌, refl, arith, false, ◌==◌, List, [], ◌∷◌, none, some,
  replicate, get_or-replicate, dec_lt, Bool-cases, inl, inr, subst,
}
use mpipin.Base.Int.{pos}
use mpipin.Bits.{word_bit, word_bit-zero, word_bit_high, word_bit-ones}
use mpipin.Word.{IsWord}
use mpipin.Bitops.{word_at, get_bit}
use mpipin.CpuSet.{CpuSet, IsCpuSet, empty_set}
use mpipin.Topology.{CacheTopology, CpuTopology}
use mpipin.Pin.{PartExec}
use mpipin.Pin.Assign.{find_cpu_topology}
use mpipin.Pin.Assign.Choice.{Covers, AllMaps}
use mpipin.Pin.Assign.Share.{IsDescribed}

-- A set of CPUs below 64.
abbrev pub low_set : ℕ → CpuSet
low_set w = w ∷ replicate 15 0

word_at-low_set : (w k : ℕ) → word_at (low_set w) (suc k) ≡ 0
word_at-low_set w k = get_or-replicate 15 k 0

pub low_set-IsCpuSet : (w : ℕ) → IsWord w → IsCpuSet (low_set w)
low_set-IsCpuSet w h = record {
  size = refl;
  words = elim [ zero ↦ h | suc k ↦ rw (word_at-low_set w k) (omega arith) ];
}

pub get_bit-low_set : (w i : ℕ) → IsWord w → get_bit (low_set w) i ≡ word_bit w i
unfolding get_bit
get_bit-low_set w i h = elim (dec_lt i 64) [
  | yes lt ↦
      let word : i / 64 ≡ 0 = omega arith in let bit : i % 64 ≡ i = omega arith in rw (word, bit)
  | no ge ↦
      let word : i / 64 ≡ suc (i / 64 - 1) = omega arith in
      rw (word, word_at-low_set w (i / 64 - 1), word_bit-zero (i % 64))
        (ground (arith, word_bit_high 64 w i h))
]

abbrev cache : ℕ → CacheTopology
cache cpus = record {
  index = 0;
  level = pos 1;
  type = none;
  size = pos 32768;
  size_str = none;
  coherency_line_size = pos 64;
  number_of_sets = pos 64;
  physical_line_partition = pos 1;
  ways_of_associativity = pos 8;
  shared_cpu_map = low_set cpus;
}

abbrev pub cpu_on : (cpu node cpus : ℕ) → CpuTopology
cpu_on cpu node cpus = record {
  cpu_id = cpu;
  node_id = node;
  hw_id = 0;
  physical_package_id = pos node;
  core_id = pos cpu;
  core_siblings = low_set cpus;
  thread_siblings = low_set cpus;
  cache_topology_list = cache cpus ∷ [];
}

abbrev pub tops : List CpuTopology
tops = cpu_on 0 0 5 ∷ cpu_on 1 1 10 ∷ cpu_on 2 0 5 ∷ cpu_on 3 1 10 ∷ []

abbrev pub all_cpus : CpuSet
all_cpus = low_set 15

tops_cover : Covers tops all_cpus
unfolding find_cpu_topology
tops_cover cpu there = go cpu (ground (arith, get_bit-low_set 15 cpu, word_bit-ones 4 cpu))
  where
    go : (cpu : ℕ) → cpu < 4 → (top : CpuTopology) × (find_cpu_topology tops cpu ≡ some top)
    go zero h = (_, refl)
    go (suc zero) h = (_, refl)
    go (suc (suc zero)) h = (_, refl)
    go (suc (suc (suc zero))) h = (_, refl)
    go (suc (suc (suc (suc n)))) h = absurd (omega arith)

-- Every entry of the list has one cache whose map is a set.
abbrev EachMaps : List CpuTopology → Type 0
EachMaps [] = Unit {0}
EachMaps (top ∷ rest) = AllMaps top.cache_topology_list × EachMaps rest

EachMaps-find :
    (l : List CpuTopology) (cpu : ℕ) (top : CpuTopology)
    → EachMaps l
    → find_cpu_topology l cpu ≡ some top
    → AllMaps top.cache_topology_list
unfolding find_cpu_topology
EachMaps-find [] cpu top h e = absurd (ground arith)
EachMaps-find (t ∷ l) cpu top h e = elim (Bool-cases (t.cpu_id == cpu)) [
  | inl here ↦
      let same : t ≡ top = ground arith in subst (λ t. AllMaps t.cache_topology_list) same h.0
  | inr further ↦ EachMaps-find l cpu top h.1 (ground arith)
]

pub machine : IsDescribed 4 tops all_cpus
machine = record {
  few = omega arith;
  is_set = low_set-IsCpuSet 15 (omega arith);
  covers = tops_cover;
  maps = λ cpu top found.
      EachMaps-find tops cpu top ((near, tt), ((far, tt), ((near, tt), ((far, tt), tt)))) found;
}
  where
    near : IsCpuSet (low_set 5)
    near = low_set-IsCpuSet 5 (omega arith)

    far : IsCpuSet (low_set 10)
    far = low_set-IsCpuSet 10 (omega arith)

-- The shared memory of two processes that are to have two CPUs each.
abbrev pub shared : PartExec
shared = record {
  nr_processes = pos 2;
  nr_processes_left = pos 2;
  nr_processes_left_in_init = pos 0;
  process_rank = 0;
  cpus_available = all_cpus;
  cpus_to_assign = 2;
  first_process_ind = none;
  processes = λ _. record { ready = false; timeout = false; pid = 0; next_process_ind = none };
  affinities = λ _. empty_set;
}
