-- ===== src/Main/Meeting.antt =====
-- The processes of a node from sched_getaffinity to the end of pin_process: each enters the shared
-- memory under the lock of its file, and may call pin_process while others still enter. What a process
-- does under the lock, or under the mutex of pin_process, is one step: the first changes the CPUs and
-- `nr_processes_left_in_init`, the second the other fields as long as a process is missing.
pub mod Arriving
pub mod Runs
pub mod Pinned
use mpipin.Base.{ℕ, suc, ◌≡◌, List, [], ◌∷◌}
use mpipin.CpuSet.{CpuSet}
use mpipin.Pin.{PartExec}
use mpipin.Pin.Barrier.{Services}
use mpipin.Pin.Job.{Job, Step}
use mpipin.Pin.Job.Runs.{before_all}
use mpipin.Main.Enter.{Calls, Session, passed, enter}
use mpipin.Main.Enter.Node.{new_session}

-- The PIDs that have not entered, in the order in which they get the lock, with what the system gives
-- them; and the job of those that have.
pub record Node : Type 0 where
  pub entering : List (ℕ × Calls)
  pub job : Job

abbrev pub calls_of : List (ℕ × Calls) → List Calls
calls_of [] = []
calls_of ((pid, calls) ∷ rest) = calls ∷ calls_of rest

-- Nobody has entered.
abbrev pub before_entry : List (ℕ × Calls) → PartExec → Node
before_entry processes pe = record { entering = processes; job = before_all pe [] }

-- The process goes on to pin_process.
abbrev pub comes_to_pin : (pid : ℕ) → List (ℕ × Calls) → Session → Job → Node
comes_to_pin pid rest s job = record {
  entering = rest;
  job = record job { memory = s.shm; outside = pid ∷ job.outside };
}

module _ (services : Services) (ppn : ℕ) (excluded : CpuSet) where
  pub data Move (node : Node) : Node → Type 0 where
    enters :
        (pid : ℕ) (calls : Calls) (rest : List (ℕ × Calls)) (s : Session)
        → node.entering ≡ (pid, calls) ∷ rest
        → enter calls ppn excluded (new_session node.job.memory) ≡ (passed, s)
        → Move node (comes_to_pin pid rest s node.job)
    pins : (job : Job) → Step services ppn node.job job → Move node (record node { job = job })

  -- Any number of moves.
  pub data Moves (node : Node) : Node → Type 0 where
    rests : Moves node node
    moves : (mid after : Node) → Moves node mid → Move mid after → Moves node after

abbrev pub count_moves :
    {services : Services} {ppn : ℕ} {excluded : CpuSet} {node node' : Node}
    → Moves services ppn excluded node node'
    → ℕ
count_moves rests = 0
count_moves (moves mid after run move) = suc (count_moves run)
