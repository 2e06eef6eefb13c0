-- ===== src/Tests/Program.antt =====
-- Two processes, one with CPUs 0 and 2 and one with 1 and 3: the first enters the shared memory and
-- calls pin_process, then the second does.
use mpipin.Base.{◌≡◌, ◌≤◌, ℕ, List, refl, sym, ap, subst, arith, true, [], ◌∷◌, some}
use mpipin.Base.Int.{dec, ◌==ℤ◌}
use mpipin.Word.{bit_not, shl, shr}
use mpipin.Bitops.{ffs, skip_zeros, has_word, found_first, find_loop, find_first_bit, find_next_bit}
use mpipin.CpuSet.{cpu_isset, cpu_set, cpu_clr, cpu_count, cpuset_first, cpuset_next}
use mpipin.Pin.{PartExec, update}
use mpipin.Pin.Init.{initialise, for_cpus_from, for_cpus, discover, attach}
use mpipin.Pin.Queue.{find_slot_from, find_slot, fill_slot, link}
use mpipin.Pin.Barrier.{Services, start, join, gather, arrive_at, arrive}
use mpipin.Pin.Job.{leaves, comes_in, calls}
use mpipin.Sysfs.Collect.{collect_topology}
use mpipin.Sysfs.Described.Partition.{AllOnline}
use mpipin.Main.Enter.{Calls, Session, passed, unlock, share, enter_locked, enter}
use mpipin.Main.Enter.Node.{new_session, enter_all}
use mpipin.Main.Meeting.{
  Node, before_entry, comes_to_pin, Moves, enters, pins, rests, moves, count_moves,
}
use mpipin.Main.Program.{IsPinned, program-IsPinned}
use mpipin.Tests.Machine.{low_set, low_set-IsCpuSet, all_cpus}
use mpipin.Tests.Pinning.{four_cpus}
use mpipin.Tests.Setup.{four, first_memory}
use mpipin.Tests.Start.{process, process-IsCalls}
use mpipin.Tests.Sysfs.{host, start_store, host-IsHost, collected, online_all}

abbrev services : Services
services = record {
  topology = some (collect_topology host (low_set 0) start_store).1.cpu_topology_list;
  allocated = true;
  nprocs = 4;
  set_affinity = λ _. true;
}

abbrev memory : PartExec
memory = attach four (low_set 0) 2 (low_set 10) (initialise 2 (low_set 5))

both_enter : enter_all 2 (low_set 0) (process 0 5 ∷ process 8192 10 ∷ []) first_memory ≡ some memory
unfolding enter_all enter enter_locked share unlock
both_enter = refl

all_available : memory.cpus_available ≡ all_cpus
unfolding bit_not shl shr ffs skip_zeros has_word found_first find_loop find_first_bit find_next_bit
    cpu_isset cpu_set cpu_clr cpuset_first cpuset_next initialise for_cpus_from for_cpus discover
    attach dec ◌==ℤ◌
all_available = refl

abbrev processes : List (ℕ × Calls)
processes = (7, process 0 5) ∷ (5, process 8192 10) ∷ []

-- The first process enters and calls pin_process before the second enters.
abbrev at_first : Node
at_first = before_entry processes first_memory

abbrev first_session : Session
first_session = (enter (process 0 5) 2 (low_set 0) (new_session first_memory)).1

abbrev one_in : Node
one_in = comes_to_pin 7 ((5, process 8192 10) ∷ []) first_session at_first.job

abbrev one_waits : Node
one_waits = record one_in {
  job = comes_in services 2 7 (arrive 2 7 first_session.shm) (record one_in.job { outside = [] });
}

abbrev second_session : Session
second_session = (enter (process 8192 10) 2 (low_set 0) (new_session one_waits.job.memory)).1

abbrev both_in : Node
both_in = comes_to_pin 5 [] second_session one_waits.job

abbrev one_left : Node
one_left = record both_in {
  job = comes_in services 2 5 (arrive 2 5 second_session.shm) (record both_in.job { outside = [] });
}

first_passes :
    enter (process 0 5) 2 (low_set 0) (new_session first_memory) ≡ (passed, first_session)
unfolding enter enter_locked share unlock
first_passes = refl

second_passes :
    enter (process 8192 10) 2 (low_set 0) (new_session one_waits.job.memory)
    ≡ (passed, second_session)
unfolding enter enter_locked share unlock
second_passes = refl

none_outside : one_waits.job.outside ≡ []
unfolding find_slot_from find_slot fill_slot link update start join gather arrive_at arrive leaves
    comes_in dec ◌==ℤ◌ initialise enter enter_locked share unlock
none_outside = refl

all_moves : Moves services 2 (low_set 0) at_first one_left
all_moves =
    moves both_in one_left
      (moves one_waits both_in
        (moves one_in one_waits
          (moves at_first one_in rests
            (enters 7 (process 0 5) ((5, process 8192 10) ∷ []) first_session refl first_passes))
          (pins _ (calls [] [] 7 refl)))
        (enters 5 (process 8192 10) [] second_session refl second_passes))
      (pins _ (calls [] [] 5 (ap (λ l. 5 ∷ l) none_outside)))

program-IsPinned_example : IsPinned services 2 (low_set 0) memory one_left (count_moves all_moves)
program-IsPinned_example =
    program-IsPinned host (low_set 0) start_store services 2 (low_set 0) 7 (process 0 5)
      ((5, process 8192 10) ∷ []) first_memory memory one_left all_moves host-IsHost (omega arith)
      (low_set-IsCpuSet 0 (omega arith)) refl collected refl refl refl (λ _. refl)
      (low_set-IsCpuSet 0 (omega arith)) refl (omega arith) (omega arith)
      (process-IsCalls 0 5 (omega arith)) refl
      (process-IsCalls 8192 10 (omega arith), (λ e. absurd (ground (arith, e))), tt) both_enter
      (subst (λ s. 2 ≤ cpu_count s) (sym all_available) (omega (arith, four_cpus)))
      (subst (AllOnline host (low_set 0) start_store) (sym all_available) online_all)
      ((λ z. ground arith), ((λ z. ground arith), tt))
