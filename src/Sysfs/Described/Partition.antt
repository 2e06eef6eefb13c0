-- ===== src/Sysfs/Described/Partition.antt =====
-- The topology that collect_topology reads is one that pin_process can partition the CPUs by.
use mpipin.Base.{ℕ, ◌*◌, ◌≤◌, ◌<◌, ◌^◌, ◌≡◌, sym, subst, true, [], none}
use mpipin.Base.Int.{pos}
use mpipin.Base.Errno.{ok}
use mpipin.CpuSet.{CpuSet, IsCpuSet, cpu_bits, cpu_isset, cpu_count}
use mpipin.Pin.{PartExec}
use mpipin.Pin.Assign.Choice.{Members}
use mpipin.Pin.Assign.Share.{IsDescribed}
use mpipin.Pin.Partition.{partition}
use mpipin.Pin.Partition.Disjoint.{IsPartition, partition-IsPartition}
use mpipin.Pin.Partition.Disjoint.{share_size}
use mpipin.Sysfs.{Host, Store}
use mpipin.Sysfs.Collect.{collect_topology}
use mpipin.Sysfs.Accounts.{IsHost}
use mpipin.Sysfs.Described.{AllCaches, AllCaches-found}
use mpipin.Sysfs.Described.Loops.{online_cpus, collect_topology-Collected}

-- The CPUs that are online as the collection reads them, below nprocs.
abbrev pub AllOnline : Host → (cpus : CpuSet) → Store → (available : CpuSet) → Type 0
AllOnline host cpus s available =
    (online : CpuSet)
    → (online_cpus host cpus s).0 ≡ ok online
    → (cpu : ℕ) → Members available cpu
    → (cpu < host.nprocs) × (cpu_isset cpu online ≡ true)

module _ (host : Host) (is_host : IsHost host) (cpus : CpuSet) (s : Store) where
  pub collect_topology-IsDescribed :
      (available : CpuSet)
      → host.nodes ≤ 2 ^ 31
      → host.nprocs ≤ cpu_bits
      → IsCpuSet cpus
      → s.cpu_topology_list ≡ []
      → (collect_topology host cpus s).0 ≡ ok tt
      → IsCpuSet available
      → AllOnline host cpus s available
      → IsDescribed host.nprocs (collect_topology host cpus s).1.cpu_topology_list available
  collect_topology-IsDescribed available few_nodes few set empty e is on =
      let all = collect_topology-Collected host is_host few_nodes cpus s set in
      let (online, read, online_set, found) = all.found e in
      record {
        few = few;
        is_set = is;
        covers = λ cpu member. let (lt, up) = on online read cpu member in found cpu lt up;
        maps = λ cpu top at.
            AllCaches-found _ cpu top (all.collects.caches (subst AllCaches (sym empty) tt)) at;
      }

  -- If the topology is collected into an empty list, the partitioning by it succeeds, and each rank
  -- below nr_processes gets a mask of cpus_to_assign CPUs, or of one where that is 0, such that the
  -- masks are disjoint and, with what stays available, are the available CPUs: for a system as
  -- `IsHost` states, at most 2^31 nodes and 1024 CPUs, and available CPUs that are online, below
  -- nprocs, and enough for these masks.
  pub collect_topology-IsPartition :
      (n : ℕ) (pe : PartExec)
      → host.nodes ≤ 2 ^ 31
      → host.nprocs ≤ cpu_bits
      → IsCpuSet cpus
      → s.cpu_topology_list ≡ []
      → (collect_topology host cpus s).0 ≡ ok tt
      → IsCpuSet pe.cpus_available
      → AllOnline host cpus s pe.cpus_available
      → pe.nr_processes ≡ pos n
      → n * share_size pe ≤ cpu_count pe.cpus_available
      → (pe' : PartExec) × (partition host.nprocs
            (collect_topology host cpus s).1.cpu_topology_list
            pe
          ≡ (pe', none))
        × IsPartition 0 n pe pe'
  collect_topology-IsPartition n pe few_nodes few set empty e is on count enough =
      partition-IsPartition host.nprocs _ n pe count
        (collect_topology-IsDescribed pe.cpus_available few_nodes few set empty e is on) enough
