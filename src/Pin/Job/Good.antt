-- ===== src/Pin/Job/Good.antt =====
-- What holds of a job as its processes come in and leave.
use mpipin.Base.{
  ℕ, zero, suc, ◌+◌, ◌*◌, ◌≤◌, ◌<◌, ◌≡◌, ◌≢◌, refl, arith, true, false, List, [], ◌∷◌, length, sym,
  subst, some,
}
use mpipin.Base.Int.{minus_one}
use mpipin.Base.Errno.{ok}
use mpipin.CpuSet.{CpuSet, cpu_count}
use mpipin.Topology.{CpuTopology}
use mpipin.Pin.{PartExec}
use mpipin.Pin.Queue.Chain.{Entry}
use mpipin.Pin.Queue.Order.{Ascending}
use mpipin.Pin.Assign.Choice.{Members}
use mpipin.Pin.Assign.Share.{IsDescribed}
use mpipin.Pin.Partition.Disjoint.{IsPartition, share_size}
use mpipin.Pin.Barrier.{returns, Services, proceed}
use mpipin.Pin.Barrier.Gather.{Gathering}
use mpipin.Pin.Barrier.Wake.{Releasing}
use mpipin.Pin.Barrier.Handed.{Left}
use mpipin.Pin.Barrier.Arrive.{SameCpus}
use mpipin.Pin.Barrier.Leave.{proceed-Left, proceed-IsPartition}
use mpipin.Pin.Job.{Job}
use mpipin.Pin.Job.Ranks.{Behind, Ranked}

abbrev pub NonZero : List ℕ → Type 0
NonZero [] = Unit {0}
NonZero (pid ∷ pids) = (pid ≢ 0) × NonZero pids

-- The masks of the ranks below `n`: each has as many CPUs as a process is to get, all of them available
-- in `first`, and no two of them share a CPU.
pub record Masked (n : ℕ) (first pe : PartExec) : Type 0 where
  pub size : (r : ℕ) → r < n → cpu_count (pe.affinities r) ≡ share_size first
  pub within : (r i : ℕ) → r < n → Members (pe.affinities r) i → Members first.cpus_available i
  pub apart :
      (r q i : ℕ)
      → r < n
      → q < n
      → r ≢ q
      → Members (pe.affinities r) i
      → ¬ Members (pe.affinities q) i

Masked-same :
    (n : ℕ) (first pe pe' : PartExec)
    → pe'.affinities ≡ pe.affinities
    → Masked n first pe
    → Masked n first pe'
Masked-same n first pe pe' same h =
    subst (λ (a : ℕ → CpuSet). Masked n first (record pe' { affinities = a })) (sym same)
      (record { size = h.size; within = h.within; apart = h.apart })

IsPartition-Masked : (n : ℕ) (first p : PartExec) → IsPartition 0 n first p → Masked n first p
IsPartition-Masked n first p h = record {
  size = λ r lt. h.size r (omega arith) lt;
  within = λ r i lt. h.within r i (omega arith) lt;
  apart = λ r q i lt lq. h.apart r q i (omega arith) lt (omega arith) lq;
}

-- Processes are missing, and those that came wait.
pub record Collecting (n : ℕ) (first : PartExec) (job : Job) : Type 0 where
  pub gathering : Gathering n job.memory job.waiting
  pub everyone : length job.outside + length job.waiting ≡ n
  pub missing : length job.waiting < n
  pub nonzero : NonZero job.outside
  pub no_results : job.results ≡ []
  pub intact : job.corrupted ≡ false
  pub cpus : SameCpus first job.memory

-- All processes have come, and `e` is the next to leave.
pub record Pinning (n : ℕ) (first : PartExec) (job : Job) (e : Entry) (es : List Entry)
    : Type 0 where
  pub releasing : Releasing n (length job.results) job.memory e es
  pub waits_for : job.waiting ≡ e ∷ es
  pub nobody : job.outside ≡ []
  pub everyone : length job.results + suc (length es) ≡ n
  pub ranked : Ranked job.results
  pub behind : Behind e.pid job.results
  pub intact : job.corrupted ≡ false
  pub cpus : length job.results ≡ 0 → SameCpus first job.memory
  pub masked : length job.results ≢ 0 → Masked n first job.memory

-- All processes have left.
pub record Finished (n : ℕ) (first : PartExec) (job : Job) : Type 0 where
  pub none_waits : job.waiting ≡ []
  pub nobody : job.outside ≡ []
  pub everyone : length job.results ≡ n
  pub ranked : Ranked job.results
  pub reset : job.memory.nr_processes ≡ minus_one
  pub intact : job.corrupted ≡ false
  pub masked : Masked n first job.memory

pub data Good (n : ℕ) (first : PartExec) (job : Job) : Type 0 where
  collecting : Collecting n first job → Good n first job
  pinning : (e : Entry) (es : List Entry) → Pinning n first job e es → Good n first job
  finished : Finished n first job → Good n first job

-- A partition for the CPUs of one memory is one for those of another with the same CPUs.
IsPartition-cpus :
    (n : ℕ) (first pe p : PartExec)
    → SameCpus first pe
    → IsPartition 0 n pe p
    → IsPartition 0 n first p
IsPartition-cpus n first pe p c h = back (
    subst
      (λ a.
        IsPartition 0 n (record first { cpus_available = a; cpus_to_assign = first.cpus_to_assign })
          p)
      c.same_available
      (subst
        (λ k.
          IsPartition 0 n (record first { cpus_available = pe.cpus_available; cpus_to_assign = k })
            p)
        c.same_to_assign (forth h)))
  where
    forth :
        IsPartition 0 n pe p
        → IsPartition 0 n
            (record first {
              cpus_available = pe.cpus_available;
              cpus_to_assign = pe.cpus_to_assign;
            })
            p
    forth h = record {
      size = h.size;
      within = h.within;
      apart = h.apart;
      unused = h.unused;
      covered = h.covered;
      left_within = h.left_within;
      earlier = λ r below. absurd (omega arith);
    }

    back :
        IsPartition 0 n
          (record first {
            cpus_available = first.cpus_available;
            cpus_to_assign = first.cpus_to_assign;
          })
          p
        → IsPartition 0 n first p
    back h = h

-- The rank of the process that leaves goes on top of the results.
pub leaves-Good :
    (n : ℕ) (first pe : PartExec) (job : Job) (e : Entry) (es : List Entry)
    → job.waiting ≡ es
    → job.outside ≡ []
    → job.corrupted ≡ false
    → length job.results + suc (length es) ≡ n
    → Ranked job.results
    → Behind e.pid job.results
    → Ascending (e ∷ es)
    → Left n (length job.results) pe es
    → Masked n first pe
    → Good n first
        (record job { memory = pe; results = (e.pid, ok (length job.results)) ∷ job.results })
leaves-Good n first pe job e [] waits nobody intact everyone ranked behind asc left masked =
    finished (record {
      none_waits = waits;
      nobody = nobody;
      everyone = omega arith;
      ranked = (refl, behind, ranked);
      reset = left;
      intact = intact;
      masked = masked;
    })
leaves-Good n first pe job e (x ∷ xs) waits nobody intact everyone ranked behind asc left masked =
    pinning x xs (record {
      releasing = left;
      waits_for = waits;
      nobody = nobody;
      everyone = omega arith;
      ranked = (refl, behind, ranked);
      behind = asc.0;
      intact = intact;
      cpus = λ z. absurd (ground arith);
      masked = λ _. masked;
    })

module _ (services : Services) (n : ℕ) (first : PartExec) (tops : List CpuTopology)
    (sets : (s : CpuSet) → services.set_affinity s ≡ true) (there : services.topology ≡ some tops)
    (room : services.allocated ≡ true)
    (described : IsDescribed services.nprocs tops first.cpus_available)
    (enough : n * share_size first ≤ cpu_count first.cpus_available) where
  -- The process that goes on returns its rank, and the masks are there from then on.
  pub proceed-Masked :
      (rank : ℕ) (pe : PartExec) (e : Entry) (es : List Entry)
      → Releasing n rank pe e es
      → (rank ≡ 0 → SameCpus first pe)
      → (rank ≢ 0 → Masked n first pe)
      → (pe' : PartExec) × (proceed services e.pid pe ≡ returns (ok rank) pe')
        × Left n rank pe' es
        × Masked n first pe'
  proceed-Masked zero pe e es h cpus masked =
      let c = cpus refl in
      let (pe', p, runs, left, same, parts) =
        proceed-IsPartition services sets n pe e es tops h there room
          (subst (IsDescribed services.nprocs tops) (sym c.same_available) described)
          (rw (c.same_available, c.same_to_assign) enough) in
      (
        pe',
        runs,
        left,
        Masked-same n first p pe' same
            (IsPartition-Masked n first p (IsPartition-cpus n first pe p c parts)),
      )
  proceed-Masked (suc rank) pe e es h cpus masked =
      let (pe', runs, left, same) = proceed-Left services sets n rank pe e es h in
      (pe', runs, left, Masked-same n first pe pe' same (masked (λ z. ground arith)))
