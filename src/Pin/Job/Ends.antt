-- ===== src/Pin/Job/Ends.antt =====
-- A job comes to its end: every step takes a process further, and there are two for each at most.
use mpipin.Base.{
  ℕ, zero, suc, ◌+◌, ◌*◌, ◌≤◌, ◌<◌, ◌≡◌, refl, ap, arith, true, false, List, [], ◌∷◌, ◌++◌, length,
  some, inl, inr,
}
use mpipin.Base.Errno.{err}
use mpipin.CpuSet.{CpuSet, cpu_count}
use mpipin.Topology.{CpuTopology}
use mpipin.Pin.{PartExec, max_processes}
use mpipin.Pin.Queue.Chain.{Entry, entry}
use mpipin.Pin.Queue.Order.{length-insert}
use mpipin.Pin.Assign.Share.{IsDescribed}
use mpipin.Pin.Partition.Disjoint.{share_size}
use mpipin.Pin.Barrier.{
  Arrival, refused, waits, goes_on, out_of_range, Departure, returns, lost, Services, arrive,
  proceed, resume,
}
use mpipin.Pin.Job.{Job, leaves, comes_in, Step, calls, comes_back, Run, still, further}
use mpipin.Pin.Job.Good.{NonZero}
use mpipin.Pin.Job.Runs.{Fresh, before_all, Run-goes_on}

-- The steps that are left at most: two for a process outside, one for a process that waits.
abbrev pub steps_left : Job → ℕ
steps_left job = 2 * length job.outside + length job.waiting

abbrev pub steps : {services : Services} {ppn : ℕ} {job job' : Job} → Run services ppn job job' → ℕ
steps still = 0
steps (further mid after run step) = suc (steps run)

length-split :
    {A : Type 0} (before after : List A) (x : A)
    → length (before ++ x ∷ after) ≡ suc (length (before ++ after))
length-split [] after x = refl
length-split (y ∷ before) after x = ap suc (length-split before after x)

leaves-steps_left :
    (pid : ℕ) (d : Departure) (job : Job) → steps_left (leaves pid d job) ≡ steps_left job
unfolding leaves
leaves-steps_left pid (returns r pe) job = refl
leaves-steps_left pid lost job = refl

comes_in-steps_left :
    (services : Services) (ppn pid : ℕ) (a : Arrival) (job : Job)
    → steps_left (comes_in services ppn pid a job) ≤ suc (steps_left job)
unfolding comes_in
comes_in-steps_left services ppn pid (refused e pe) job =
    omega (arith, leaves-steps_left pid (returns (err e) pe) job)
comes_in-steps_left services ppn pid (waits my_i pe) job =
    omega (arith, length-insert (entry my_i pid) job.waiting)
comes_in-steps_left services ppn pid (goes_on my_i pe) job =
    omega (arith, leaves-steps_left pid (proceed services pid pe) job)
comes_in-steps_left services ppn pid out_of_range job = omega arith

pub Step-steps_left :
    (services : Services) (ppn : ℕ) (job job' : Job)
    → Step services ppn job job'
    → steps_left job' < steps_left job
Step-steps_left services ppn job job' (calls before after pid split) = omega (
  arith,
  comes_in-steps_left services ppn pid (arrive ppn pid job.memory)
      (record job { outside = before ++ after }),
  ap (λ (l : List ℕ). length l) split,
  length-split before after pid,
)
Step-steps_left services ppn job job' (comes_back before after e split on) = omega (
  arith,
  leaves-steps_left e.pid (resume services e.pid e.slot false job.memory)
      (record job { waiting = before ++ after }),
  ap (λ (l : List Entry). length l) split,
  length-split before after e,
)

Run-steps_left :
    (services : Services) (ppn : ℕ) (job job' : Job) (run : Run services ppn job job')
    → steps run + steps_left job' ≤ steps_left job
Run-steps_left services ppn job job' still = omega arith
Run-steps_left services ppn job job' (further mid after run step) =
    omega
      (arith, Run-steps_left services ppn job mid run, Step-steps_left services ppn mid job' step)

module _ (services : Services) (n : ℕ) (first : PartExec) (tops : List CpuTopology)
    (sets : (s : CpuSet) → services.set_affinity s ≡ true) (there : services.topology ≡ some tops)
    (room : services.allocated ≡ true)
    (described : IsDescribed services.nprocs tops first.cpus_available)
    (enough : n * share_size first ≤ cpu_count first.cpus_available) (few : n ≤ max_processes) where
  -- From a job of a run, the steps that follow until all have returned.
  finishes :
      (left : ℕ) (pids : List ℕ) (job : Job)
      → steps_left job < left
      → length pids ≡ n
      → 0 < n
      → Fresh first
      → NonZero pids
      → Run services n (before_all first pids) job
      → (end : Job) × Run services n (before_all first pids) end × (length end.results ≡ n)
  finishes zero pids job lt size some_pid fresh nz run = absurd (omega arith)
  finishes (suc left) pids job lt size some_pid fresh nz run =
      elim (Run-goes_on services n first tops sets there room described enough few pids job size
        some_pid fresh nz run) [
          | inl all ↦ (job, run, all)
          | inr (job', step) ↦
              finishes left pids job' (omega (arith, Step-steps_left services n job job' step)) size
                some_pid fresh nz (further job job' run step)
        ]

  -- In a job whose memory is just initialised, whose PIDs are not 0, at most 1024 and at least one, and
  -- for which the system supplies the topology of enough CPUs, room for the masks and each affinity
  -- that is asked for: a run has two steps for each process at most; where no step can follow it, all
  -- processes have returned; and there is a run to an end where all have.
  pub Run-ends :
      (pids : List ℕ)
      → length pids ≡ n
      → 0 < n
      → Fresh first
      → NonZero pids
      → ((job : Job) (run : Run services n (before_all first pids) job)
          → (steps run ≤ 2 * n)
            × (((job' : Job) → ¬ Step services n job job') → length job.results ≡ n))
        × ((end : Job) × Run services n (before_all first pids) end × (length end.results ≡ n))
  Run-ends pids size some_pid fresh nz = (
    λ job run. (
      omega (arith, Run-steps_left services n (before_all first pids) job run),
      λ stuck.
          elim (Run-goes_on services n first tops sets there room described enough few pids job size
            some_pid fresh nz run) [ inl all ↦ all | inr (job', step) ↦ absurd (stuck job' step) ],
    ),
    finishes (suc (steps_left (before_all first pids))) pids (before_all first pids) (omega arith)
        size some_pid fresh nz still,
  )
