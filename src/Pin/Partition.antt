-- ===== src/Pin/Partition.antt =====
-- The loop over the ranks in `pin_process`: the first process of the list partitions the CPUs.
pub mod Disjoint
pub mod Kept
use mpipin.Base.{ℕ, zero, suc, ◌+◌, List, Option, none, some}
use mpipin.Base.Int.{ℤ, pos, negsuc}
use mpipin.Base.Errno.{Errno, Result, ok, err}
use mpipin.Topology.{CpuTopology}
use mpipin.Pin.{PartExec, update}
use mpipin.Pin.Assign.{assign_process}

-- The rounds of `for (...; pe->process_rank < pe->nr_processes; ++pe->process_rank)` from rank 0.
abbrev pub rounds_of : ℤ → ℕ
rounds_of (pos n) = n
rounds_of (negsuc n) = 0

-- `pe->process_rank = 0` behind the loop, which an error jumps over.
abbrev pub back_to_first : PartExec × Option Errno → PartExec × Option Errno
back_to_first (pe, none) = (record pe { process_rank = 0 }, none)
back_to_first (pe, some e) = (pe, some e)

module _ (nprocs : ℕ) (tops : List CpuTopology) where
  -- The loop with the ranks that are left. An error leaves it (`goto unlock_out`) with the masks of
  -- the earlier ranks committed.
  unfoldable pub partition_ranks : ℕ → PartExec → PartExec × Option Errno
  partition_ranks zero pe = (pe, none)
  partition_ranks (suc left) pe =
      elim (assign_process nprocs tops pe.cpus_to_assign pe.cpus_available) [
        | err e ↦ (pe, some e)
        | ok m ↦ partition_ranks left (record pe {
          process_rank = pe.process_rank + 1;
          cpus_available = m.cpus_available;
          affinities = update pe.affinities pe.process_rank m.cpus_to_use;
        })
      ]

  -- From rank 0 to the last, and back to rank 0 if all went well.
  unfoldable pub partition : PartExec → PartExec × Option Errno
  partition pe =
      back_to_first (partition_ranks (rounds_of pe.nr_processes) (record pe { process_rank = 0 }))
