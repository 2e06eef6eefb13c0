-- ===== src/Pin/Partition/Kept.antt =====
-- The partitioning leaves the list of processes and the counters alone.
use mpipin.Base.{ℕ, zero, suc, ◌+◌, ◌≡◌, refl, List, Option, none, some, ◌∙◌, ap, sym, ◌≢◌, arith}
use mpipin.Base.Errno.{Errno, Result, ok, err}
use mpipin.Topology.{CpuTopology}
use mpipin.Pin.{PartExec, update}
use mpipin.Pin.Assign.{Masks, assign_process}
use mpipin.Pin.Partition.{partition_ranks, partition, rounds_of, back_to_first}

pub record Kept (before after : PartExec) : Type 0 where
  pub same_total : after.nr_processes ≡ before.nr_processes
  pub same_left : after.nr_processes_left ≡ before.nr_processes_left
  pub same_first : after.first_process_ind ≡ before.first_process_ind
  pub same_processes : after.processes ≡ before.processes

pub Kept-refl : (pe : PartExec) → Kept pe pe
Kept-refl pe = record {
  same_total = refl;
  same_left = refl;
  same_first = refl;
  same_processes = refl;
}

-- Other fields do not matter.
Kept-later : (a b c : PartExec) → Kept a b → Kept b c → Kept a c
Kept-later a b c h k = record {
  same_total = k.same_total ∙ h.same_total;
  same_left = k.same_left ∙ h.same_left;
  same_first = k.same_first ∙ h.same_first;
  same_processes = k.same_processes ∙ h.same_processes;
}

module _ (nprocs : ℕ) (tops : List CpuTopology) where
  -- A round, where the rounds behind it keep these fields.
  round-Kept :
      (left : ℕ) (pe : PartExec) (r : Result Masks)
      → assign_process nprocs tops pe.cpus_to_assign pe.cpus_available ≡ r
      → ((pe' : PartExec) → Kept pe' (partition_ranks nprocs tops left pe').0)
      → Kept pe (partition_ranks nprocs tops (suc left) pe).0
  unfolding partition_ranks
  round-Kept left pe (err e) runs behind = rw (runs, partition_ranks) (Kept-refl pe)
  round-Kept left pe (ok m) runs behind =
      rw (runs, partition_ranks) (Kept-later pe _ _ committed (behind _))
    where
      committed : Kept pe (record pe {
        process_rank = pe.process_rank + 1;
        cpus_available = m.cpus_available;
        affinities = update pe.affinities pe.process_rank m.cpus_to_use;
      })
      committed = record {
        same_total = refl;
        same_left = refl;
        same_first = refl;
        same_processes = refl;
      }

  partition_ranks-Kept :
      (left : ℕ) (pe : PartExec) → Kept pe (partition_ranks nprocs tops left pe).0
  partition_ranks-Kept zero pe = unfold partition_ranks in Kept-refl pe
  partition_ranks-Kept (suc left) pe =
      round-Kept left pe (assign_process nprocs tops pe.cpus_to_assign pe.cpus_available) refl
        (partition_ranks-Kept left)

  back_to_first-Kept :
      (pe : PartExec) (r : PartExec × Option Errno) → Kept pe r.0 → Kept pe (back_to_first r).0
  back_to_first-Kept pe (pe', none) h = record {
    same_total = h.same_total;
    same_left = h.same_left;
    same_first = h.same_first;
    same_processes = h.same_processes;
  }
  back_to_first-Kept pe (pe', some e) h = h

  pub partition-Kept : (pe : PartExec) → Kept pe (partition nprocs tops pe).0
  unfolding partition
  partition-Kept pe =
      back_to_first-Kept pe (partition_ranks nprocs tops (rounds_of pe.nr_processes) first) (
        Kept-later pe first _
          (record { same_total = refl; same_left = refl; same_first = refl; same_processes = refl })
          (partition_ranks-Kept (rounds_of pe.nr_processes) first))
    where
      first : PartExec
      first = record pe { process_rank = 0 }

  first_again :
      (r : PartExec × Option Errno) (pe' : PartExec)
      → back_to_first r ≡ (pe', none)
      → pe'.process_rank ≡ 0
  first_again (p, none) pe' e = ap (λ (r : PartExec × Option Errno). r.0.process_rank) (sym e)
  first_again (p, some x) pe' e =
      absurd (no_error x (sym (ap (λ (r : PartExec × Option Errno). r.1) e)))
    where
      no_error : (x : Errno) → none ≢ some x
      no_error x e = ground arith

  -- A partitioning that succeeds leaves the rank counter at 0.
  pub partition_first_rank :
      (pe pe' : PartExec) → partition nprocs tops pe ≡ (pe', none) → pe'.process_rank ≡ 0
  unfolding partition
  partition_first_rank pe pe' e =
      first_again
        (partition_ranks nprocs tops (rounds_of pe.nr_processes) (record pe { process_rank = 0 }))
        pe' e
