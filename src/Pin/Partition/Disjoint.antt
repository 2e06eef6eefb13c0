-- ===== src/Pin/Partition/Disjoint.antt =====
-- The ranks get disjoint sets of CPUs of the size that each is to have.
use mpipin.Base.{
  ℕ, zero, suc, ◌+◌, ◌-◌, ◌*◌, ◌≤◌, ◌<◌, ◌≡◌, ◌≢◌, refl, arith, false, List, none, ℕ_discrete, ap,
  sym, ◌∙◌, ◌⊎◌, inl, inr, subst, Bool-cases,
}
use native.Mathlib.Nat.{le_refl}
use mpipin.Base.Int.{pos}
use mpipin.Base.Errno.{ok}
use mpipin.Bitops.{get_bit}
use mpipin.CpuSet.{CpuSet, cpu_count}
use mpipin.Topology.{CpuTopology}
use mpipin.Pin.{PartExec, update}
use mpipin.Pin.Assign.{Masks, assign_process}
use mpipin.Pin.Assign.Choice.{Members}
use mpipin.Pin.Assign.Share.{
  IsShare, IsDescribed, IsDescribed-left, IsShare-count, assign_process-IsShare,
}
use mpipin.Pin.Partition.{partition_ranks, partition, rounds_of, back_to_first}

-- The CPUs that each process is to get: `cpus_to_assign`, and at least one.
abbrev pub share_size : PartExec → ℕ
share_size pe = suc (pe.cpus_to_assign - 1)

-- Between `before` and `after` the ranks from `lo` up to `hi` have been given their CPUs.
pub record IsPartition (lo hi : ℕ) (before after : PartExec) : Type 0 where
  pub size : (r : ℕ) → lo ≤ r → r < hi → cpu_count (after.affinities r) ≡ share_size before
  pub within :
      (r i : ℕ) → lo ≤ r → r < hi → Members (after.affinities r) i → Members before.cpus_available i
  pub apart :
      (r q i : ℕ)
      → lo ≤ r
      → r < hi
      → lo ≤ q
      → q < hi
      → r ≢ q
      → Members (after.affinities r) i
      → ¬ Members (after.affinities q) i
  pub unused :
      (r i : ℕ)
      → lo ≤ r
      → r < hi
      → Members (after.affinities r) i
      → ¬ Members after.cpus_available i
  pub covered :
      (i : ℕ)
      → Members before.cpus_available i
      → Members after.cpus_available i
        ⊎ ((r : ℕ) × (lo ≤ r) × (r < hi) × Members (after.affinities r) i)
  pub left_within : (i : ℕ) → Members after.cpus_available i → Members before.cpus_available i
  pub earlier : (r : ℕ) → r < lo → after.affinities r ≡ before.affinities r

module _ (before after : PartExec) (left used : CpuSet) (lo hi n : ℕ) (lt : lo < hi)
    (share : IsShare before.cpus_available left used n)
    (rest : IsPartition
      (lo + 1)
      hi
      (record before {
        process_rank = lo + 1;
        cpus_available = left;
        affinities = update before.affinities lo used;
      })
      after) where
  mine : after.affinities lo ≡ used
  unfolding update
  mine = ground (arith, rest.earlier lo)

  -- A CPU of rank `lo` was available and no longer is.
  mine_used :
      (i : ℕ)
      → Members (after.affinities lo) i
      → Members before.cpus_available i × (get_bit left i ≡ false)
  mine_used i there =
      let used_there : Members used i = subst (λ s. Members s i) mine there in
      (ground (arith, share.union i), ground (arith, share.apart i))

  -- A CPU of another rank was left over by rank `lo`.
  other_left :
      (r i : ℕ) → lo ≤ r → r < hi → lo ≢ r → Members (after.affinities r) i → Members left i
  other_left r i a b ne there = rest.within r i (omega arith) b there

  left_before : (i : ℕ) → Members left i → Members before.cpus_available i
  left_before i there = ground (arith, share.union i)

  -- The share of rank `lo` and the partition for the ranks above it make one.
  IsPartition-cons : n ≡ share_size before → IsPartition lo hi before after
  unfolding update
  IsPartition-cons e = record {
    size = λ r a b. elim (ℕ_discrete lo r) [
      | yes here ↦
          subst (λ r. cpu_count (after.affinities r) ≡ share_size before) here
            (ap cpu_count mine ∙ share.size ∙ e)
      | no above ↦ rest.size r (omega arith) b
    ];
    within = λ r i a b there. elim (ℕ_discrete lo r) [
      | yes here ↦ (mine_used i (subst (λ r. Members (after.affinities r) i) (sym here) there)).0
      | no above ↦ left_before i (other_left r i a b above there)
    ];
    apart = λ r q i a b c d ne there there'. elim (ℕ_discrete lo r) [
      | yes here ↦ ground (
        arith,
        mine_used i (subst (λ r. Members (after.affinities r) i) (sym here) there),
        other_left q i c d (λ e. ne (sym here ∙ e)) there',
      )
      | no above ↦ elim (ℕ_discrete lo q) [
        | yes here ↦ ground (
          arith,
          mine_used i (subst (λ r. Members (after.affinities r) i) (sym here) there'),
          other_left r i a b above there,
        )
        | no above' ↦ rest.apart r q i (omega arith) b (omega arith) d ne there there'
      ]
    ];
    unused = λ r i a b there there'. elim (ℕ_discrete lo r) [
      | yes here ↦ ground (
        arith,
        mine_used i (subst (λ r. Members (after.affinities r) i) (sym here) there),
        rest.left_within i there',
      )
      | no above ↦ rest.unused r i (omega arith) b there there'
    ];
    covered = λ i there. elim (Bool-cases (get_bit left i)) [
      | inl still ↦ elim (rest.covered i still) [
        | inl free ↦ inl free
        | inr (r, a, b, held) ↦ inr (r, omega arith, b, held)
      ]
      | inr taken ↦
          inr (
            lo,
            le_refl lo,
            lt,
            subst (λ s. Members s i) (sym mine) (ground (arith, share.union i)),
          )
    ];
    left_within = λ i there. left_before i (rest.left_within i there);
    earlier = λ r below. ground (arith, rest.earlier r);
  }

IsPartition-none : (lo : ℕ) (pe : PartExec) → IsPartition lo lo pe pe
IsPartition-none lo pe = record {
  size = λ r a b. absurd (omega arith);
  within = λ r i a b. absurd (omega arith);
  apart = λ r q i a b. absurd (omega arith);
  unused = λ r i a b. absurd (omega arith);
  covered = λ i there. inl there;
  left_within = λ i there. there;
  earlier = λ r below. refl;
}

-- The partition does not depend on the rank counter.
IsPartition-first :
    {n : ℕ} (pe pe' : PartExec)
    → IsPartition 0 n (record pe { process_rank = 0 }) pe'
    → IsPartition 0 n pe (record pe' { process_rank = 0 })
IsPartition-first pe pe' h = record {
  size = h.size;
  within = h.within;
  apart = h.apart;
  unused = h.unused;
  covered = h.covered;
  left_within = h.left_within;
  earlier = h.earlier;
}

-- The masks of rank `pe.process_rank` committed.
abbrev commit : PartExec → Masks → PartExec
commit pe m = record pe {
  process_rank = pe.process_rank + 1;
  cpus_available = m.cpus_available;
  affinities = update pe.affinities pe.process_rank m.cpus_to_use;
}

module _ (nprocs : ℕ) (tops : List CpuTopology) where
  partition_ranks_step :
      (left : ℕ) (pe : PartExec) (m : Masks)
      → assign_process nprocs tops pe.cpus_to_assign pe.cpus_available ≡ ok m
      → partition_ranks nprocs tops (suc left) pe ≡ partition_ranks nprocs tops left (commit pe m)
  unfolding partition_ranks
  partition_ranks_step left pe m e = rw (e, partition_ranks)

  partition_ranks-IsPartition :
      (left : ℕ) (pe : PartExec)
      → IsDescribed nprocs tops pe.cpus_available
      → left * share_size pe ≤ cpu_count pe.cpus_available
      → (pe' : PartExec) × (partition_ranks nprocs tops left pe ≡ (pe', none))
        × IsPartition pe.process_rank (pe.process_rank + left) pe pe'
  partition_ranks-IsPartition zero pe d enough =
      let same : pe.process_rank ≡ pe.process_rank + 0 = omega arith in
      (
        pe,
        unfold partition_ranks in refl,
        subst (λ hi. IsPartition pe.process_rank hi pe pe) same
            (IsPartition-none pe.process_rank pe),
      )
  partition_ranks-IsPartition (suc left) pe d enough =
      let (m, runs, share) =
        assign_process-IsShare pe.cpus_available pe.cpus_to_assign d (omega arith) in
      let (pe', rest_runs, rest) =
        partition_ranks-IsPartition left (commit pe m) (IsDescribed-left d share)
          (omega (arith, IsShare-count share)) in
      let hi : pe.process_rank + 1 + left ≡ pe.process_rank + suc left = omega arith in
      (
        pe',
        partition_ranks_step left pe m runs ∙ rest_runs,
        IsPartition-cons pe pe' m.cpus_available m.cpus_to_use pe.process_rank _ _ (omega arith)
            share (subst (λ hi. IsPartition (pe.process_rank + 1) hi (commit pe m) pe') hi rest)
            refl,
      )

  -- If the topology describes the available CPUs and they are enough for every rank to have
  -- `cpus_to_assign` of them, and at least one, the partitioning succeeds: every rank below
  -- `nr_processes` has an affinity mask of that size, no CPU is in the masks of two ranks, the masks
  -- hold CPUs that were available and no other, and each such CPU is in a mask or stays available.
  pub partition-IsPartition :
      (n : ℕ) (pe : PartExec)
      → pe.nr_processes ≡ pos n
      → IsDescribed nprocs tops pe.cpus_available
      → n * share_size pe ≤ cpu_count pe.cpus_available
      → (pe' : PartExec) × (partition nprocs tops pe ≡ (pe', none)) × IsPartition 0 n pe pe'
  unfolding partition
  partition-IsPartition n pe e d enough =
      let (pe', runs, h) =
        partition_ranks-IsPartition n (record pe { process_rank = 0 }) d enough in
      let rounds : rounds_of pe.nr_processes ≡ n = ap rounds_of e in
      let hi : 0 + n ≡ n = omega arith in
      (
        record pe' { process_rank = 0 },
        ap (λ k. back_to_first (partition_ranks nprocs tops k (record pe { process_rank = 0 })))
              rounds
            ∙ ap back_to_first runs,
        IsPartition-first pe pe'
            (subst (λ hi. IsPartition 0 hi (record pe { process_rank = 0 }) pe') hi h),
      )
