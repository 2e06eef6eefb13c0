-- ===== src/Tests/Job.antt =====
-- A job of two processes, PIDs 7 and 5, on the machine of four CPUs.
use mpipin.Base.{
  ℕ, zero, suc, ◌≡◌, ◌≢◌, refl, arith, true, false, List, [], ◌∷◌, some, none, length, ◌⊎◌, ◌≤◌,
}
use mpipin.Base.Int.{minus_one, dec, ◌==ℤ◌}
use mpipin.Base.Count.{count_below}
use mpipin.Bits.{word_bit}
use mpipin.Base.Errno.{Result, ok, err, etimedout}
use mpipin.Word.{bit_not, shl, shr}
use mpipin.Bitops.{
  get_bit, ffs, skip_zeros, has_word, found_first, find_loop, find_first_bit, find_next_bit,
}
use mpipin.CpuSet.{
  CpuSet, cpu_isset, cpu_set, cpu_clr, cpu_count, cpuset_first, cpuset_next, each_cpu, for_each_cpu,
}
use mpipin.Pin.{PartExec, update, max_processes}
use mpipin.Pin.Queue.{Slots, find_slot_from, find_slot, fill_slot, set_next, walk, link, link_at}
use mpipin.Pin.Queue.Chain.{entry, Chain}
use mpipin.Pin.Queue.Insert.{insert, link-Chain}
use mpipin.Pin.Queue.Slot.{Found, find_slot-Found}
use mpipin.Pin.Assign.{
  find_cpu_topology, take_cpu, same_cache, same_node, choose_cpu, assign_more, assign_process,
}
use mpipin.Pin.Partition.{partition_ranks, partition}
use mpipin.Pin.Barrier.{
  returns, Services, start, join, wake_at, wake_next, woke, gather, arrive_at, arrive, memory_of,
  hand_over, partition_first, take_rank, leave, partitioned, proceed, resume,
}
use mpipin.Pin.Barrier.Abort.{Aborted, resume-Aborted}
use mpipin.Pin.Job.{Job, leaves, comes_in, Step, calls, comes_back, Run, still, further}
use mpipin.Pin.Job.Ranks.{Ranked}
use mpipin.Pin.Job.Good.{Masked}
use mpipin.Pin.Job.Ends.{steps, Run-ends}
use mpipin.Pin.Job.Runs.{Fresh, before_all, Run-Ranked, Run-goes_on}
use mpipin.Tests.Machine.{low_set, tops, all_cpus, machine, shared}

abbrev linux : Services
linux = record { topology = some tops; allocated = true; nprocs = 4; set_affinity = λ _. true }

abbrev fresh : PartExec
fresh = record shared { nr_processes = minus_one; nr_processes_left = minus_one }

fresh-Fresh : Fresh fresh
fresh-Fresh = record {
  unset = refl;
  no_list = refl;
  no_pids = λ i. refl;
  not_ready = λ i. refl;
  not_late = λ i. refl;
}

abbrev at_first : Job
at_first = before_all fresh (7 ∷ 5 ∷ [])

abbrev one_waits : Job
one_waits = comes_in linux 2 7 (arrive 2 7 fresh) (record at_first { outside = 5 ∷ [] })

-- The later process has the lower PID, and goes first.
abbrev one_left : Job
one_left = comes_in linux 2 5 (arrive 2 5 one_waits.memory) (record one_waits { outside = [] })

abbrev both_left : Job
both_left = leaves 7 (resume linux 7 0 false one_left.memory) (record one_left { waiting = [] })

outcome : List (ℕ × Result ℕ) × CpuSet × CpuSet
unfolding bit_not shl shr ffs skip_zeros has_word found_first find_loop find_first_bit find_next_bit
    cpu_isset cpu_set cpu_clr cpuset_first cpuset_next each_cpu for_each_cpu find_cpu_topology
    take_cpu same_cache same_node choose_cpu assign_more assign_process partition_ranks partition
    update find_slot_from find_slot fill_slot set_next walk link link_at start join wake_at
    wake_next woke gather arrive_at arrive memory_of hand_over partition_first take_rank leave
    partitioned proceed resume leaves comes_in insert dec ◌==ℤ◌
outcome = (both_left.results, both_left.memory.affinities 0, both_left.memory.affinities 1)

outcome_ranks : outcome ≡ ((7, ok 1) ∷ (5, ok 0) ∷ [], low_set 5, low_set 10)
unfolding outcome
outcome_ranks = refl

-- The entry of the process that waits.
waits_seven : (one_left.waiting ≡ entry 0 7 ∷ []) × ((one_left.memory.processes 0).ready ≡ true)
unfolding bit_not shl shr ffs skip_zeros has_word found_first find_loop find_first_bit find_next_bit
    cpu_isset cpu_set cpu_clr cpuset_first cpuset_next each_cpu for_each_cpu find_cpu_topology
    take_cpu same_cache same_node choose_cpu assign_more assign_process partition_ranks partition
    update find_slot_from find_slot fill_slot set_next walk link link_at start join wake_at
    wake_next woke gather arrive_at arrive memory_of hand_over partition_first take_rank leave
    partitioned proceed resume leaves comes_in insert dec ◌==ℤ◌
waits_seven = (refl, refl)

one_outside : one_waits.outside ≡ 5 ∷ []
unfolding find_slot_from find_slot fill_slot link update start join gather arrive_at arrive leaves
    comes_in dec ◌==ℤ◌
one_outside = refl

two_calls : Run linux 2 at_first one_left
two_calls =
    further one_waits one_left (further at_first one_waits still (calls [] (5 ∷ []) 7 refl))
      (calls [] [] 5 one_outside)

whole-Run : Run linux 2 at_first both_left
whole-Run =
    further one_left both_left two_calls (comes_back [] [] (entry 0 7) waits_seven.0 waits_seven.1)

four_cpus : cpu_count all_cpus ≡ 4
unfolding cpu_count count_below get_bit word_bit
four_cpus = refl

Run-Ranked_example :
    Ranked both_left.results
    × (both_left.corrupted ≡ false)
    × (length both_left.results ≢ 0 → Masked 2 fresh both_left.memory)
Run-Ranked_example =
    Run-Ranked linux 2 fresh tops (λ _. refl) refl refl machine (omega (arith, four_cpus))
      (omega arith) (7 ∷ 5 ∷ []) both_left refl (omega arith) fresh-Fresh
      ((λ z. ground arith), ((λ z. ground arith), tt)) whole-Run

Run-goes_on_example : (length one_left.results ≡ 2) ⊎ ((job' : Job) × Step linux 2 one_left job')
Run-goes_on_example =
    Run-goes_on linux 2 fresh tops (λ _. refl) refl refl machine (omega (arith, four_cpus))
      (omega arith) (7 ∷ 5 ∷ []) one_left refl (omega arith) fresh-Fresh
      ((λ z. ground arith), ((λ z. ground arith), tt)) two_calls

-- Slots 1 and 0 hold the processes 5 and 9, in this order in the list.
abbrev two_slots : Slots
two_slots zero = record { ready = false; timeout = false; pid = 9; next_process_ind = none }
two_slots (suc zero) = record { ready = false; timeout = false; pid = 5; next_process_ind = some 0 }
two_slots (suc (suc zero)) = record {
  ready = false;
  timeout = false;
  pid = 7;
  next_process_ind = none;
}
two_slots (suc (suc (suc i))) = record {
  ready = false;
  timeout = false;
  pid = 0;
  next_process_ind = none;
}

link-Chain_example :
    Chain
      (link 2 7 (some 1) two_slots).0
      (link 2 7 (some 1) two_slots).1
      (insert (entry 2 7) (entry 1 5 ∷ entry 0 9 ∷ []))
link-Chain_example =
    link-Chain two_slots 2 7 refl (some 1) (entry 1 5 ∷ entry 0 9 ∷ []) refl
      (refl, refl, (refl, refl, refl)) (((λ z. ground arith), tt), (tt, tt))
      ((λ z. ground arith), ((λ z. ground arith), tt)) (omega arith)

find_slot-Found_example : Found two_slots 0 max_processes (find_slot two_slots)
find_slot-Found_example = find_slot-Found two_slots

abbrev waiting_memory : PartExec
waiting_memory = record shared { first_process_ind = some 1; processes = two_slots }

resume-Aborted_example :
    (pe' : PartExec) × (resume linux 9 0 true waiting_memory ≡ returns (err etimedout) pe')
    × Aborted 9 waiting_memory pe' (entry 1 5 ∷ entry 0 9 ∷ [])
resume-Aborted_example =
    resume-Aborted linux 9 0 waiting_memory (entry 1 5 ∷ entry 0 9 ∷ [])
      (refl, refl, (refl, refl, refl)) (((λ z. ground arith), tt), (tt, tt)) (omega arith)

Run-ends_example :
    ((job : Job) (run : Run linux 2 at_first job)
      → (steps run ≤ 4) × (((job' : Job) → ¬ Step linux 2 job job') → length job.results ≡ 2))
    × ((end : Job) × Run linux 2 at_first end × (length end.results ≡ 2))
Run-ends_example =
    Run-ends linux 2 fresh tops (λ _. refl) refl refl machine (omega (arith, four_cpus))
      (omega arith) (7 ∷ 5 ∷ []) refl (omega arith) fresh-Fresh
      ((λ z. ground arith), ((λ z. ground arith), tt))
