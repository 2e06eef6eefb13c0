-- ===== src/Pin/Assign.antt =====
-- The partitioning loop of `pin_process`: the first process of the list gives each rank its CPUs.
pub mod Choice
pub mod Share
use mpipin.Base.{
  ℕ, zero, suc, ◌+◌, ◌-◌, Bool, ◌==◌, if◌then◌else◌, List, [], ◌∷◌, Option, none, some,
}
use mpipin.Base.Errno.{Errno, einval, Result, ok, err, ◌>>=◌}
use mpipin.CpuSet.{CpuSet, empty_set, cpu_isset, cpu_set, cpu_clr, cpuset_first, for_each_cpu}
use mpipin.Topology.{CacheTopology, CpuTopology}

-- The topology object of a CPU.
unfoldable pub find_cpu_topology : List CpuTopology → ℕ → Option CpuTopology
find_cpu_topology [] cpu = none
find_cpu_topology (top ∷ tops) cpu =
    if top.cpu_id == cpu then some top else find_cpu_topology tops cpu

-- The variables of the loop over the CPUs of one process.
pub record Masks : Type 0 where
  pub cpus_available : CpuSet
  pub cpus_to_use : CpuSet
  pub cpu_prev : ℕ

-- CPU_CLR(cpu, cpus_available); CPU_SET(cpu, cpus_to_use); cpu_prev = cpu;
unfoldable pub take_cpu : ℕ → Masks → Masks
take_cpu cpu m = record {
  cpus_available = cpu_clr cpu m.cpus_available;
  cpus_to_use = cpu_set cpu m.cpus_to_use;
  cpu_prev = cpu;
}

-- The values that the code on <numa.h> and the C library gives: `nprocs` is `get_nprocs_conf()`,
-- `tops` is `cpu_topology_list`.
module _ (nprocs : ℕ) where
  -- An available CPU that shares a cache, the caches in the order of the list.
  unfoldable pub same_cache : (available : CpuSet) → List CacheTopology → Option ℕ
  same_cache available [] = none
  same_cache available (cache_top ∷ rest) =
      let hit =
        for_each_cpu nprocs cache_top.shared_cpu_map
          (λ cpu. if cpu_isset cpu available then some cpu else none) in
      elim hit [ some cpu ↦ some cpu | none ↦ same_cache available rest ]

  module _ (tops : List CpuTopology) where
    -- An available CPU of the NUMA node, or an error where a CPU has no topology object.
    unfoldable pub same_node : (available : CpuSet) (node : ℕ) → Option (Result ℕ)
    same_node available node = for_each_cpu nprocs available λ cpu.
        elim (find_cpu_topology tops cpu) [
          | none ↦ some (err einval)
          | some cpu_top ↦ if node == cpu_top.node_id then some (ok cpu) else none
        ]

    -- The CPU to take after `cpu_prev`.
    unfoldable pub choose_cpu : Masks → Result ℕ
    choose_cpu m = elim (find_cpu_topology tops m.cpu_prev) [
      | none ↦ err einval
      | some cpu_top ↦ elim (same_cache m.cpus_available cpu_top.cache_topology_list) [
        | some cpu ↦ ok cpu
        | none ↦ elim (same_node m.cpus_available cpu_top.node_id) [
          | some r ↦ r
          | none ↦ ok (cpuset_first m.cpus_available)
        ]
      ]
    ]

    -- for (cpus_assigned = 1; cpus_assigned < cpus_to_assign; ++cpus_assigned), with the rounds
    -- that are left.
    unfoldable pub assign_more : ℕ → Masks → Result Masks
    assign_more zero m = ok m
    assign_more (suc rounds) m = do cpu ← choose_cpu m; assign_more rounds (take_cpu cpu m)

    -- The masks of one process: the first unused CPU, then those near to the last one.
    unfoldable pub assign_process : (cpus_to_assign : ℕ) → CpuSet → Result Masks
    assign_process cpus_to_assign available =
        let start : Masks = record {
          cpus_available = available;
          cpus_to_use = empty_set;
          cpu_prev = 0;
        } in
        assign_more (cpus_to_assign - 1) (take_cpu (cpuset_first available) start)
