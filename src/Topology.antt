-- ===== src/Topology.antt =====
-- The topology that mpipin.c reads from sysfs: the records of CPUs, caches and NUMA nodes. A
-- `list_head` of records is the list of its entries in order; a `char *` that is NULL is `none`.
use mpipin.Base.{ℕ, List, Option}
use mpipin.Base.Int.{ℤ}
use mpipin.CpuSet.{CpuSet}
use mpipin.Ascii.{Text}

-- `struct cache_topology`, less its list links and padding.
pub record CacheTopology : Type 0 where
  pub index : ℕ
  pub level : ℤ
  pub type : Option Text
  pub size : ℤ
  pub size_str : Option Text
  pub coherency_line_size : ℤ
  pub number_of_sets : ℤ
  pub physical_line_partition : ℤ
  pub ways_of_associativity : ℤ
  pub shared_cpu_map : CpuSet

-- `struct cpu_topology`, less its list links.
pub record CpuTopology : Type 0 where
  pub cpu_id : ℕ
  pub node_id : ℕ
  pub hw_id : ℕ
  pub physical_package_id : ℤ
  pub core_id : ℤ
  pub core_siblings : CpuSet
  pub thread_siblings : CpuSet
  pub cache_topology_list : List CacheTopology

-- `struct node_topology`, less its list links and padding.
pub record NodeTopology : Type 0 where
  pub node_number : ℕ
  pub cpumap : CpuSet
