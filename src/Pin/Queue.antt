-- ===== src/Pin/Queue.antt =====
-- The list of processes in `struct part_exec`, linked through the slots of an array in ascending
-- order of PID.
pub mod Chain
pub mod Insert
pub mod Order
pub mod Slot
use mpipin.Base.{ℕ, zero, suc, ◌+◌, Bool, true, false, ltb, ◌==◌, if◌then◌else◌, Option, none, some}
use mpipin.Pin.{ProcessItem, PartExec, update, max_processes}

abbrev pub Slots : Type 0
Slots = ℕ → ProcessItem

-- for (i = 0; i < MAX_PROCESSES; ++i) if (pe->processes[i].pid == 0), with the rounds left.
unfoldable pub find_slot_from : ℕ → (i : ℕ) → Slots → Option ℕ
find_slot_from zero i processes = none
find_slot_from (suc left) i processes =
    if (processes i).pid == 0 then some i else find_slot_from left (i + 1) processes

-- The first empty slot; `none` is the initial `my_i` -1.
unfoldable pub find_slot : Slots → Option ℕ
find_slot processes = find_slot_from max_processes 0 processes

-- The fields of slot `my_i` for a process that arrives.
unfoldable pub fill_slot : (my_i pid : ℕ) → Slots → Slots
fill_slot my_i pid processes =
    update processes my_i
      (record { ready = false; timeout = false; pid = pid; next_process_ind = none })

-- pe->processes[i].next_process_ind = next;
unfoldable pub set_next : (i : ℕ) → Option ℕ → Slots → Slots
set_next i next processes = update processes i (record (processes i) { next_process_ind = next })

-- The walk to the last entry whose PID is not above `pid`, from entry `i` with predecessor `prev_i`.
-- A list has at most one entry for each slot, so `max_processes + 1` rounds are enough.
unfoldable pub walk : ℕ → Slots → (pid : ℕ) → (i prev_i : Option ℕ) → Option ℕ
walk zero processes pid i prev_i = prev_i
walk (suc fuel) processes pid none prev_i = prev_i
walk (suc fuel) processes pid (some i) prev_i =
    let further = walk fuel processes pid (processes i).next_process_ind (some i) in
    if ltb pid (processes i).pid then prev_i else further

-- Slot `my_i` linked in before the first entry, or behind entry `prev_i`.
unfoldable pub link_at : (my_i first : ℕ) → (prev_i : Option ℕ) → Slots → Slots × Option ℕ
link_at my_i first none processes = (set_next my_i (some first) processes, some my_i)
link_at my_i first (some prev_i) processes = (
  set_next prev_i (some my_i) (set_next my_i (processes prev_i).next_process_ind processes),
  some first,
)

-- The array and the head of the list with slot `my_i` added.
unfoldable pub link : (my_i pid : ℕ) → Option ℕ → Slots → Slots × Option ℕ
link my_i pid none processes = (processes, some my_i)
link my_i pid (some first) processes =
    link_at my_i first (walk (max_processes + 1) processes pid (some first) none) processes
