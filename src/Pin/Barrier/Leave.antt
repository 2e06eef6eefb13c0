-- ===== src/Pin/Barrier/Leave.antt =====
-- The second half of `pin_process`: the process that was woken takes its rank and wakes the next.
use mpipin.Base.{
  ℕ, suc, ◌*◌, ◌≤◌, ◌≡◌, refl, arith, true, false, Bool, ◌==◌, if◌then◌else◌, Option, none, some,
  List, length, ◌∙◌, ap, subst,
}
use mpipin.Base.Errno.{Errno, ok}
use mpipin.CpuSet.{CpuSet, cpu_count}
use mpipin.Topology.{CpuTopology}
use mpipin.Pin.{PartExec}
use mpipin.Pin.Queue.Chain.{Entry}
use mpipin.Pin.Partition.{partition}
use mpipin.Pin.Partition.Kept.{Kept, Kept-refl, partition-Kept, partition_first_rank}
use mpipin.Pin.Assign.Share.{IsDescribed}
use mpipin.Pin.Partition.Disjoint.{IsPartition, share_size, partition-IsPartition}
use mpipin.Pin.Barrier.{
  returns, Services, hand_over, partition_first, take_rank, leave, partitioned, proceed, resume,
}
use mpipin.Pin.Barrier.Wake.{Releasing}
use mpipin.Pin.Barrier.Handed.{
  Left, counted, gone, handed, hand_over-handed, handed_rank, handed_masks, Kept-still, Kept-Chain,
  handed-Left,
}

unranked : (r k : ℕ) → r ≡ suc k → (r == 0) ≡ false
unranked r k e = ground arith

ranked : (r : ℕ) → r ≡ 0 → (r == 0) ≡ true
ranked r e = ground arith

-- A partition does not depend on the counter of the processes.
counted-IsPartition :
    (n : ℕ) (pe p : PartExec) → IsPartition 0 n (counted pe) p → IsPartition 0 n pe p
counted-IsPartition n pe p h = record {
  size = h.size;
  within = h.within;
  apart = h.apart;
  unused = h.unused;
  covered = h.covered;
  left_within = h.left_within;
  earlier = h.earlier;
}

module _ (services : Services) (sets : (s : CpuSet) → services.set_affinity s ≡ true) where
  take_rank_ok :
      (pe : PartExec) (rank : ℕ)
      → pe.process_rank ≡ rank
      → take_rank services pe ≡ returns (ok rank) (gone pe)
  unfolding take_rank
  take_rank_ok pe rank at =
      ◌∙◌ {b = returns (ok pe.process_rank) (gone pe)}
        (rw (sets (pe.affinities pe.process_rank)) refl) (ap (λ r. returns (ok r) (gone pe)) at)

  partitioned_step :
      (pe p : PartExec)
      → hand_over pe ≡ some p
      → partitioned services (pe, none) ≡ take_rank services p
  unfolding partitioned leave
  partitioned_step pe p e = rw e refl

  -- Once the partitioning is done, if it was to do, the process leaves with its rank.
  partitioned-Left :
      (n rank : ℕ) (pe p : PartExec) (e : Entry) (es : List Entry)
      → Releasing n rank pe e es
      → Kept (counted pe) p
      → p.process_rank ≡ rank
      → (partitioned services (p, none) ≡ returns (ok rank) (gone (handed es p)))
        × Left n rank (gone (handed es p)) es
  partitioned-Left n rank pe p e es h k at = (
    partitioned_step p (handed es p) (
          hand_over-handed p es (Kept-still pe p (length es) h.still k)
            (Kept-Chain pe p es h.chain k))
        ∙ take_rank_ok (handed es p) rank (handed_rank p es ∙ at),
    handed-Left n rank pe p e es h k at,
  )

  pub resume_step :
      (pid my_i : ℕ) (pe : PartExec)
      → (pe.processes my_i).timeout ≡ false
      → (pe.processes my_i).ready ≡ true
      → resume services pid my_i false pe ≡ proceed services pid pe
  unfolding resume
  resume_step pid my_i pe e f = rw (e, f) refl

  proceed_by :
      (pid : ℕ) (pe : PartExec) (first : Bool)
      → (pe.process_rank == 0) ≡ first
      → proceed services pid pe
        ≡ partitioned services (
            if first
            then partition_first services services.topology pid (counted pe)
            else (counted pe, none))
  unfolding proceed
  proceed_by pid pe first e =
      ap
        (λ b. partitioned services (
          if b
          then partition_first services services.topology pid (counted pe)
          else (counted pe, none)))
        e

  first_step :
      (pid : ℕ) (pe : PartExec) (tops : List CpuTopology)
      → services.topology ≡ some tops
      → services.allocated ≡ true
      → partition_first services services.topology pid pe ≡ partition services.nprocs tops pe
  unfolding partition_first
  first_step pid pe tops e f = rw (e, f) refl

  -- A process that goes on with a rank above 0 returns the rank, changes no mask, and wakes the next of
  -- the list, or as the last resets the memory.
  pub proceed-Left :
      (n rank : ℕ) (pe : PartExec) (e : Entry) (es : List Entry)
      → Releasing n (suc rank) pe e es
      → (pe' : PartExec) × (proceed services e.pid pe ≡ returns (ok (suc rank)) pe')
        × Left n (suc rank) pe' es
        × (pe'.affinities ≡ pe.affinities)
  proceed-Left n rank pe e es h =
      let (runs, left) =
        partitioned-Left n (suc rank) pe (counted pe) e es h (Kept-refl (counted pe)) h.at_rank in
      (
        gone (handed es (counted pe)),
        proceed_by e.pid pe false (unranked pe.process_rank rank h.at_rank) ∙ runs,
        left,
        handed_masks (counted pe) es,
      )

  -- The process of rank 0 partitions the CPUs: where the topology can be read and the masks allocated,
  -- and the CPUs are enough, it returns 0, with the masks a partition, and wakes the next of the list,
  -- or as the last resets the memory.
  pub proceed-IsPartition :
      (n : ℕ) (pe : PartExec) (e : Entry) (es : List Entry) (tops : List CpuTopology)
      → Releasing n 0 pe e es
      → services.topology ≡ some tops
      → services.allocated ≡ true
      → IsDescribed services.nprocs tops pe.cpus_available
      → n * share_size pe ≤ cpu_count pe.cpus_available
      → (pe' p : PartExec) × (proceed services e.pid pe ≡ returns (ok 0) pe')
        × Left n 0 pe' es
        × (pe'.affinities ≡ p.affinities)
        × IsPartition 0 n pe p
  proceed-IsPartition n pe e es tops h there room described enough =
      let (p, runs, parts) =
        partition-IsPartition services.nprocs tops n (counted pe) h.total described enough in
      let kept : Kept (counted pe) p =
        subst (λ (r : PartExec × Option Errno). Kept (counted pe) r.0) runs
          (partition-Kept services.nprocs tops (counted pe)) in
      let (leaves, left) =
        partitioned-Left n 0 pe p e es h kept
          (partition_first_rank services.nprocs tops (counted pe) p runs) in
      (
        gone (handed es p),
        p,
        proceed_by e.pid pe true (ranked pe.process_rank h.at_rank)
            ∙ ap (partitioned services) (first_step e.pid (counted pe) tops there room ∙ runs)
            ∙ leaves,
        left,
        handed_masks p es,
        counted-IsPartition n pe p parts,
      )
