-- ===== src/Main/Program.antt =====
-- From `main` to the end of `pin_process` for all processes of a node: the shared memory is entered,
-- the topology collected, and the CPUs are given out.
use mpipin.Base.{
  ℕ, suc, ◌*◌, ◌≤◌, ap, ◌<◌, ◌^◌, ◌≡◌, ◌≢◌, refl, sym, ◌⊎◌, subst, arith, true, false, List, [],
  ◌∷◌, length, some,
}
use mpipin.Base.Errno.{ok}
use mpipin.CpuSet.{CpuSet, IsCpuSet, cpu_count}
use mpipin.Pin.{PartExec, max_processes}
use mpipin.Pin.Assign.Share.{IsDescribed}
use mpipin.Pin.Barrier.{Services}
use mpipin.Pin.Job.Ranks.{Ranked}
use mpipin.Pin.Barrier.Arrive.{SameCpus}
use mpipin.Pin.Job.Good.{NonZero, Masked}
use mpipin.Sysfs.{Host, Store}
use mpipin.Sysfs.Collect.{collect_topology}
use mpipin.Sysfs.Accounts.{IsHost}
use mpipin.Sysfs.Described.Partition.{AllOnline, collect_topology-IsDescribed}
use mpipin.Main.Enter.{Calls}
use mpipin.Main.Meeting.Pinned.{
  Moves-moves_left, Moves-Fits, Fits-Masked, Fits-SameCpus, Fits-goes_on,
}
use mpipin.Main.Meeting.{Node, calls_of, before_entry, Move, Moves, count_moves}
use mpipin.Main.Meeting.Runs.{pids_of}
use mpipin.Main.Enter.Node.{enter_all, IsCalls, Later, enter_all-IsReady}

-- What the processes have come to: the results so far are the ranks in the order of the PIDs, no entry
-- with index -1 was used, the CPUs are those of `memory` once all have entered and until one has
-- returned, the masks are there from then on, there were at most three moves for each process, and until
-- all have returned there is another.
pub record IsPinned (services : Services) (ppn : ℕ) (excluded : CpuSet) (memory : PartExec)
    (node : Node) (count : ℕ) : Type 0 where
  pub ranked : Ranked node.job.results
  pub intact : node.job.corrupted ≡ false
  pub supplied : node.entering ≡ [] → length node.job.results ≡ 0 → SameCpus memory node.job.memory
  pub masked : length node.job.results ≢ 0 → Masked ppn memory node.job.memory
  pub soon : count ≤ 3 * ppn
  pub goes_on :
      (length node.job.results ≡ ppn) ⊎ ((node' : Node) × Move services ppn excluded node node')

length-calls_of : (l : List (ℕ × Calls)) → length (calls_of l) ≡ length l
length-calls_of [] = refl
length-calls_of (x ∷ l) = ap suc (length-calls_of l)

-- The processes of a node, from 2 to 1024 and with PIDs that are not 0, enter the shared memory in the
-- order of the lock and call pin_process in any order, while others enter or behind them, without
-- time-outs. `memory` is what the entries alone would make of the shared memory: all of them succeed,
-- the first finds the file empty and the others do not, none has more than 1024 CPUs or an affinity of
-- another size, and there is an available CPU for each process at least. On a system as `IsHost`
-- states with at most 2^31 nodes, collect_topology has read into an empty list what pin_process partitions by, the available CPUs are
-- online and below nprocs, masks can be had and affinities be set. Then after every run, those that
-- have returned have the ranks from 0 on in ascending order of PID and none failed; no entry with index
-- -1 was used; once all have entered and until one has returned, the available CPUs and cpus_to_assign
-- are those of `memory`; once one has returned, the masks of the ranks have cpus_to_assign CPUs each,
-- or one where that is 0, all from the available ones of `memory`, and no two share a CPU; there were
-- three moves for each process at most, and until all have returned there is another.
pub program-IsPinned :
    (host : Host) (cpus : CpuSet) (s : Store) (services : Services) (ppn : ℕ) (excluded : CpuSet)
    (first_pid : ℕ) (first : Calls) (others : List (ℕ × Calls)) (pe memory : PartExec) (node : Node)
    (run : Moves services ppn excluded (before_entry ((first_pid, first) ∷ others) pe) node)
    → IsHost host
    → host.nodes ≤ 2 ^ 31
    → IsCpuSet cpus
    → s.cpu_topology_list ≡ []
    → (collect_topology host cpus s).0 ≡ ok tt
    → services.nprocs ≡ host.nprocs
    → services.topology ≡ some (collect_topology host cpus s).1.cpu_topology_list
    → services.allocated ≡ true
    → ((set : CpuSet) → services.set_affinity set ≡ true)
    → IsCpuSet excluded
    → ppn ≡ suc (length others)
    → 0 < length others
    → ppn ≤ max_processes
    → IsCalls first
    → first.size ≡ some 0
    → Later (calls_of others)
    → enter_all ppn excluded (first ∷ calls_of others) pe ≡ some memory
    → ppn ≤ cpu_count memory.cpus_available
    → AllOnline host cpus s memory.cpus_available
    → NonZero (pids_of ((first_pid, first) ∷ others))
    → IsPinned services ppn excluded memory node (count_moves run)
program-IsPinned host cpus s services ppn excluded first_pid first others pe memory node run is_host
      nodes set empty collected nprocs topology room sets excluded_set count more few is first_size
      later all_enter enough online nonzero =
    let ready =
      enter_all-IsReady ppn excluded excluded_set first (calls_of others) pe memory
        (omega (arith, count, length-calls_of others)) (omega (arith, more, length-calls_of others))
        is first_size later all_enter in
    let tops = (collect_topology host cpus s).1.cpu_topology_list in
    let described : IsDescribed services.nprocs tops memory.cpus_available =
      subst (λ n. IsDescribed n tops memory.cpus_available) (sym nprocs)
        (collect_topology-IsDescribed host is_host cpus s memory.cpus_available nodes
          is_host.few_cpus set empty collected ready.is_set online) in
    let shares = ready.enough (omega arith) enough in
    let fits =
      Moves-Fits services ppn excluded excluded_set memory first_pid first others pe few tops sets
        topology room described shares all_enter is first_size later count nonzero node run in
    let (ranked, intact, masked) =
      Fits-Masked services ppn excluded excluded_set memory first_pid first others pe few tops sets
        topology room described shares all_enter is first_size later count nonzero node fits in
    record {
      ranked = ranked;
      intact = intact;
      supplied =
          Fits-SameCpus services ppn excluded excluded_set memory first_pid first others pe few tops
            sets topology room described shares all_enter is first_size later count nonzero node
            fits;
      masked = masked;
      soon = omega (arith, Moves-moves_left services ppn excluded _ node run, count);
      goes_on =
          Fits-goes_on services ppn excluded excluded_set memory first_pid first others pe few tops
            sets topology room described shares all_enter is first_size later count nonzero node
            fits;
    }
