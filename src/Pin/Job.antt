-- ===== src/Pin/Job.antt =====
-- The processes of a job that call `pin_process` on one shared memory, in any order. The mutex makes
-- what a process does up to its wait one step, and what it does behind the wait another.
pub mod Ranks
pub mod Runs
pub mod Good
pub mod Steps
pub mod Ends
use mpipin.Base.{ℕ, Bool, true, false, ◌≡◌, List, [], ◌∷◌, ◌++◌}
use mpipin.Base.Errno.{Result, err}
use mpipin.Pin.{PartExec}
use mpipin.Pin.Queue.Chain.{Entry, entry}
use mpipin.Pin.Queue.Insert.{insert}
use mpipin.Pin.Barrier.{
  Arrival, refused, waits, goes_on, out_of_range, Departure, returns, lost, Services, arrive,
  proceed, resume,
}

-- The PIDs that have not called `pin_process`, those that wait in it (in the order of their PIDs), and
-- what it has returned to the others, the latest first. `corrupted` is set by an access with index -1.
pub record Job : Type 0 where
  pub memory : PartExec
  pub outside : List ℕ
  pub waiting : List Entry
  pub results : List (ℕ × Result ℕ)
  pub corrupted : Bool

unfoldable pub leaves : (pid : ℕ) → Departure → Job → Job
leaves pid (returns r pe) job = record job { memory = pe; results = (pid, r) ∷ job.results }
leaves pid lost job = record job { corrupted = true }

module _ (services : Services) (ppn : ℕ) where
  -- The process goes on with what its arrival came to.
  unfoldable pub comes_in : (pid : ℕ) → Arrival → Job → Job
  comes_in pid (refused e pe) job = leaves pid (returns (err e) pe) job
  comes_in pid (waits my_i pe) job = record job {
    memory = pe;
    waiting = insert (entry my_i pid) job.waiting;
  }
  comes_in pid (goes_on my_i pe) job = leaves pid (proceed services pid pe) job
  comes_in pid out_of_range job = record job { corrupted = true }

  -- A step of the job: a process calls `pin_process`, or one that was signalled comes back from its
  -- wait. Time-outs and wake-ups without a signal are no steps here.
  pub data Step (job : Job) : Job → Type 0 where
    calls :
        (before after : List ℕ) (pid : ℕ)
        → job.outside ≡ before ++ pid ∷ after
        → Step job
            (comes_in pid (arrive ppn pid job.memory) (record job { outside = before ++ after }))
    comes_back :
        (before after : List Entry) (e : Entry)
        → job.waiting ≡ before ++ e ∷ after
        → (job.memory.processes e.slot).ready ≡ true
        → Step job (
            leaves e.pid
              (resume services e.pid e.slot false job.memory)
              (record job { waiting = before ++ after }))

  -- Any number of steps.
  pub data Run (job : Job) : Job → Type 0 where
    still : Run job job
    further : (mid after : Job) → Run job mid → Step mid after → Run job after
