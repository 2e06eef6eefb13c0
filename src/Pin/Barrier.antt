-- ===== src/Pin/Barrier.antt =====
-- `pin_process` of mpipin.c as the steps of its process on the shared memory: the process that
-- arrives, up to its wait; and the process that is woken, up to its return. The mutex makes each of
-- them one step, and the wait releases it in between.
pub mod Abort
pub mod Arrive
pub mod Gather
pub mod Handed
pub mod Leave
pub mod Wake
use mpipin.Base.{
  ℕ, zero, suc, ◌+◌, Bool, true, false, ◌==◌, if◌then◌else◌, Option, none, some, List,
}
use mpipin.Base.Int.{ℤ, pos, dec, ◌==ℤ◌, minus_one}
use mpipin.Base.Errno.{Errno, einval, enomem, etimedout, Result, ok, err}
use mpipin.CpuSet.{CpuSet, empty_set}
use mpipin.Topology.{CpuTopology}
use mpipin.Pin.{PartExec, ProcessItem, update, max_processes}
use mpipin.Pin.Queue.{Slots, find_slot, fill_slot, link}
use mpipin.Pin.Partition.{partition}

-- How a process that arrives goes on: it returns an error, it waits in slot `my_i`, or it is the first
-- of the list itself and does not wait. In the last case the code reads an entry with index -1.
pub data Arrival : Type 0 where
  refused : Errno → PartExec → Arrival
  waits : (my_i : ℕ) → PartExec → Arrival
  goes_on : (my_i : ℕ) → PartExec → Arrival
  out_of_range : Arrival

-- The return value of `pin_process`, or the same case of an index -1.
pub data Departure : Type 0 where
  returns : Result ℕ → PartExec → Departure
  lost : Departure

-- The first process to enter sets the counters.
unfoldable pub start : (ppn : ℕ) → PartExec → PartExec
start ppn pe =
    if pe.nr_processes ==ℤ minus_one
    then record pe { nr_processes = pos ppn; nr_processes_left = pos ppn }
    else pe

-- A process takes slot `my_i` and its place in the list.
unfoldable pub join : (my_i pid : ℕ) → PartExec → PartExec
join my_i pid pe =
    let (processes, first) = link my_i pid pe.first_process_ind (fill_slot my_i pid pe.processes) in
    record pe { processes = processes; first_process_ind = first }

-- The first process of the list leaves it and is signalled; `none` where the list is empty.
unfoldable pub wake_at : Option ℕ → PartExec → Option (ℕ × PartExec)
wake_at none pe = none
wake_at (some next_i) pe = some (
  next_i,
  record pe {
    first_process_ind = (pe.processes next_i).next_process_ind;
    processes = update pe.processes next_i (record (pe.processes next_i) { ready = true });
  },
)

unfoldable pub wake_next : PartExec → Option (ℕ × PartExec)
wake_next pe = wake_at pe.first_process_ind pe

-- The last process to arrive resets the counters and waits unless it woke itself.
unfoldable pub woke : (my_i : ℕ) → Option (ℕ × PartExec) → Arrival
woke my_i none = out_of_range
woke my_i (some (next_i, pe)) =
    let reset = record pe { nr_processes_left = pe.nr_processes; process_rank = 0 } in
    if next_i == my_i then goes_on my_i reset else waits my_i reset

unfoldable pub gather : (my_i : ℕ) → PartExec → Arrival
gather my_i pe = if pe.nr_processes_left ==ℤ pos 0 then woke my_i (wake_next pe) else waits my_i pe

-- With the slot found, if any.
unfoldable pub arrive_at : Option ℕ → (pid : ℕ) → PartExec → Arrival
arrive_at none pid pe = out_of_range
arrive_at (some my_i) pid pe = gather my_i (join my_i pid pe)

-- `pin_process` up to its wait.
unfoldable pub arrive : (ppn pid : ℕ) → PartExec → Arrival
arrive ppn pid pe =
    let started = start ppn pe in
    if started.nr_processes ==ℤ pos ppn
    then arrive_at (find_slot started.processes) pid
        (record started { nr_processes_left = dec started.nr_processes_left })
    else refused einval started

-- The loop that wakes the processes of the list with a time-out, all but `pid`: the slots and the
-- head that is left.
unfoldable pub wake_all : ℕ → (pid : ℕ) → Option ℕ → Slots → Slots × Option ℕ
wake_all zero pid first processes = (processes, first)
wake_all (suc fuel) pid none processes = (processes, none)
wake_all (suc fuel) pid (some i) processes = wake_all fuel pid (processes i).next_process_ind (
    if (processes i).pid == pid
    then processes
    else update processes i (record (processes i) { ready = true; timeout = true }))

-- From `abort_all`. The list has at most one entry for each slot.
unfoldable pub abort_all : (pid : ℕ) → PartExec → PartExec
abort_all pid pe =
    let (processes, first) = wake_all (max_processes + 1) pid pe.first_process_ind pe.processes in
    record pe { processes = processes; first_process_ind = first; nr_processes = minus_one }

-- What a process gets from the system: the topology, unless reading it fails; whether the masks can
-- be allocated; the number of CPUs; and whether the affinity can be set.
pub record Services : Type 0 where
  pub topology : Option (List CpuTopology)
  pub allocated : Bool
  pub nprocs : ℕ
  pub set_affinity : CpuSet → Bool

-- Only the shared memory, where the index is not used again.
unfoldable pub memory_of : Option (ℕ × PartExec) → Option PartExec
memory_of none = none
memory_of (some (next_i, pe)) = some pe

-- The last process resets the shared memory, another wakes the next.
unfoldable pub hand_over : PartExec → Option PartExec
hand_over pe =
    if pe.nr_processes_left ==ℤ pos 0
    then some (record pe { nr_processes = minus_one; cpus_available = empty_set })
    else memory_of (wake_next pe)

module _ (services : Services) where
  -- The first process does the partitioning.
  unfoldable pub partition_first :
      Option (List CpuTopology) → (pid : ℕ) → PartExec → PartExec × Option Errno
  partition_first none pid pe = (abort_all pid pe, some etimedout)
  partition_first (some tops) pid pe =
      if services.allocated then partition services.nprocs tops pe else (pe, some enomem)

  unfoldable pub take_rank : PartExec → Departure
  take_rank pe =
      if services.set_affinity (pe.affinities pe.process_rank)
      then returns (ok pe.process_rank) (record pe { process_rank = pe.process_rank + 1 })
      else returns (err einval) pe

  -- Behind the partitioning.
  unfoldable pub leave : Option PartExec → Departure
  leave none = lost
  leave (some pe) = take_rank pe

  unfoldable pub partitioned : PartExec × Option Errno → Departure
  partitioned (pe, some e) = returns (err e) pe
  partitioned (pe, none) = leave (hand_over pe)

  -- `pin_process` behind its wait.
  unfoldable pub proceed : (pid : ℕ) → PartExec → Departure
  proceed pid pe =
      let counted = record pe { nr_processes_left = dec pe.nr_processes_left } in
      partitioned (
        if pe.process_rank == 0
        then partition_first services.topology pid counted
        else (counted, none))

  -- The process in slot `my_i` comes back from its wait.
  unfoldable pub resume : (pid my_i : ℕ) → (timed_out : Bool) → PartExec → Departure
  resume pid my_i timed_out pe =
      if timed_out
      then returns (err etimedout) (abort_all pid pe)
      else if (pe.processes my_i).timeout
      then returns (err etimedout) pe
      else if (pe.processes my_i).ready
      then proceed pid pe
      else returns (err einval) pe
