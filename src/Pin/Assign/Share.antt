-- ===== src/Pin/Assign/Share.antt =====
-- What one process is given: its CPUs come out of the available ones, as many as it is to have.
use mpipin.Base.{
  ℕ, zero, suc, ◌+◌, ◌-◌, ◌≤◌, ◌<◌, ◌≡◌, refl, arith, false, ◌&&◌, ◌||◌, List, some, ap, ◌∙◌,
}
use mpipin.Base.Count.{count_below_split, count_below_some, count_below_none}
use mpipin.Base.Errno.{ok}
use mpipin.Bitops.{get_bit}
use mpipin.CpuSet.{CpuSet, cpu_bits, IsCpuSet, empty_set, cpu_clr, cpu_count, cpuset_first}
use mpipin.CpuSet.Laws.{
  get_bit_past, get_bit-empty, empty_set-IsCpuSet, cpu_set-IsCpuSet, cpu_clr-IsCpuSet,
  get_bit-cpu_set, get_bit-cpu_clr, cpu_count-cpu_clr, cpu_count-cpu_set,
}
use mpipin.CpuSet.Each.{cpuset_first-IsFirst}
use mpipin.Topology.{CpuTopology}
use mpipin.Pin.Assign.{Masks, take_cpu, find_cpu_topology, assign_more, assign_process}
use mpipin.Pin.Assign.Choice.{Members, Covers, AllMaps, choose_cpu-Chosen, first-available}

-- `before` is split into what is left and the `n` CPUs that are used.
pub record IsShare (before left used : CpuSet) (n : ℕ) : Type 0 where
  pub left_set : IsCpuSet left
  pub used_set : IsCpuSet used
  pub union : (i : ℕ) → get_bit before i ≡ (get_bit left i || get_bit used i)
  pub apart : (i : ℕ) → (get_bit left i && get_bit used i) ≡ false
  pub size : cpu_count used ≡ n

IsShare-start : (before : CpuSet) → IsCpuSet before → IsShare before before empty_set 0
unfolding cpu_count
IsShare-start before h = record {
  left_set = h;
  used_set = empty_set-IsCpuSet;
  union = λ i. ground (arith, get_bit-empty i);
  apart = λ i. ground (arith, get_bit-empty i);
  size = count_below_none 1024 (get_bit empty_set) (λ i _. get_bit-empty i);
}

-- The available CPUs are those that are left and those in use.
pub IsShare-count :
    {before left used : CpuSet} {n : ℕ}
    → IsShare before left used n
    → cpu_count before ≡ cpu_count left + n
unfolding cpu_count
IsShare-count {before} {left} {used} h =
    count_below_split 1024 (get_bit before) (get_bit left) (get_bit used) (λ i _. h.union i)
      (λ i _. h.apart i)
    ∙ ap (λ (t : ℕ). cpu_count left + t) h.size

pub some_member : (s : CpuSet) → 0 < cpu_count s → (i : ℕ) × Members s i
unfolding cpu_count
some_member s h = let (i, lt, there) = count_below_some 1024 (get_bit s) h in (i, there)

-- Taking an available CPU moves it from the ones left to the ones in use.
take_cpu-IsShare :
    {before : CpuSet} {n : ℕ} (m : Masks) (cpu : ℕ)
    → IsShare before m.cpus_available m.cpus_to_use n
    → Members m.cpus_available cpu
    → IsShare before (take_cpu cpu m).cpus_available (take_cpu cpu m).cpus_to_use (suc n)
unfolding take_cpu
take_cpu-IsShare m cpu h there = record {
  left_set = cpu_clr-IsCpuSet cpu h.left_set;
  used_set = cpu_set-IsCpuSet cpu h.used_set;
  union = λ i. ground (
    arith,
    h.union i,
    get_bit-cpu_clr cpu i h.left_set,
    get_bit-cpu_set cpu i h.used_set,
    get_bit_past h.left_set cpu,
  );
  apart = λ i.
      ground (arith, h.apart i, get_bit-cpu_clr cpu i h.left_set, get_bit-cpu_set cpu i h.used_set);
  size = omega (
    arith,
    h.size,
    cpu_count-cpu_set cpu h.used_set (ground (arith, get_bit_past h.left_set cpu))
        (ground (arith, h.apart cpu)),
  );
}

-- What the code relies on: at most 1024 CPUs, a topology object for every available one, and caches
-- whose maps are sets of CPUs.
pub record IsDescribed (nprocs : ℕ) (tops : List CpuTopology) (available : CpuSet) : Type 0 where
  pub few : nprocs ≤ cpu_bits
  pub is_set : IsCpuSet available
  pub covers : Covers tops available
  pub maps :
      (cpu : ℕ) (top : CpuTopology)
      → find_cpu_topology tops cpu ≡ some top
      → AllMaps top.cache_topology_list

module _ {nprocs : ℕ} {tops : List CpuTopology} where
  pub IsDescribed-left :
      {available left used : CpuSet} {n : ℕ}
      → IsDescribed nprocs tops available
      → IsShare available left used n
      → IsDescribed nprocs tops left
  IsDescribed-left d h = record {
    few = d.few;
    is_set = h.left_set;
    covers = λ cpu there. d.covers cpu (ground (arith, h.union cpu));
    maps = d.maps;
  }

  assign_more-IsShare :
      {available : CpuSet} {n : ℕ} (rounds : ℕ) (m : Masks)
      → IsDescribed nprocs tops available
      → IsShare available m.cpus_available m.cpus_to_use n
      → Members available m.cpu_prev
      → rounds ≤ cpu_count m.cpus_available
      → (m' : Masks) × (assign_more nprocs tops rounds m ≡ ok m')
        × IsShare available m'.cpus_available m'.cpus_to_use (n + rounds)
  unfolding assign_more take_cpu
  assign_more-IsShare {n} zero m d h there enough =
      let same : n + 0 ≡ n = omega arith in (m, refl, rw same h)
  assign_more-IsShare {n} (suc rounds) m d h there enough =
      let (top, found) = d.covers m.cpu_prev there in
      let (i, left_over) = some_member m.cpus_available (omega arith) in
      let left = IsDescribed-left d h in
      let (cpu, chosen, policy, stays) =
        choose_cpu-Chosen nprocs tops m top d.few left.is_set left.covers (d.maps _ top found)
          found in
      let there' = stays i left_over in
      let h' = take_cpu-IsShare m cpu h there' in
      let fewer : cpu_count m.cpus_available ≡ cpu_count (cpu_clr cpu m.cpus_available) + 1 =
        cpu_count-cpu_clr cpu h.left_set there' in
      let (m', runs, share) =
        assign_more-IsShare rounds (take_cpu cpu m) d h' (ground (arith, h.union cpu))
          (omega arith) in
      let same : suc n + rounds ≡ n + suc rounds = omega arith in
      (m', rw chosen runs, rw same at share)

  -- With enough CPUs available and all of them described by the topology, a process gets
  -- `cpus_to_assign` CPUs, and at least one; they are no longer available.
  pub assign_process-IsShare :
      (available : CpuSet) (cpus_to_assign : ℕ)
      → IsDescribed nprocs tops available
      → suc (cpus_to_assign - 1) ≤ cpu_count available
      → (m : Masks) × (assign_process nprocs tops cpus_to_assign available ≡ ok m)
        × IsShare available m.cpus_available m.cpus_to_use (suc (cpus_to_assign - 1))
  unfolding assign_process take_cpu
  assign_process-IsShare available cpus_to_assign d enough =
      let (i, there) = some_member available (omega arith) in
      let there' = first-available i (cpuset_first-IsFirst available d.is_set) d.is_set there in
      let start : Masks = record {
        cpus_available = available;
        cpus_to_use = empty_set;
        cpu_prev = 0;
      } in
      let first = cpuset_first available in
      let (m, runs, share) =
        assign_more-IsShare (cpus_to_assign - 1) (take_cpu first start) d
          (take_cpu-IsShare start first (IsShare-start available d.is_set) there') there'
          (omega (arith, cpu_count-cpu_clr first d.is_set there')) in
      let same : 1 + (cpus_to_assign - 1) ≡ suc (cpus_to_assign - 1) = omega arith in
      (m, runs, rw same at share)
