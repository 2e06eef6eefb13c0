-- ===== src/Tests/Pinning.antt =====
-- The partitioning on the machine of four CPUs.
use mpipin.Base.{ℕ, ◌≡◌, refl, arith, none}
use mpipin.Base.Count.{count_below}
use mpipin.Base.Errno.{ok}
use mpipin.Bits.{word_bit, word_bit-bit_and}
use mpipin.Word.{bit_not, shl, shr}
use mpipin.Bitops.{
  get_bit, ffs, skip_zeros, has_word, found_first, find_loop, find_first_bit, find_next_bit,
}
use mpipin.CpuSet.{
  CpuSet, cpu_isset, cpu_set, cpu_clr, cpu_count, cpuset_first, cpuset_next, each_cpu, for_each_cpu,
}
use mpipin.Pin.{PartExec, update}
use mpipin.Pin.Assign.{
  Masks, find_cpu_topology, take_cpu, same_cache, same_node, choose_cpu, assign_more,
  assign_process,
}
use mpipin.Pin.Assign.Choice.{Members, Chosen, Covers, choose_cpu-Chosen}
use mpipin.Pin.Partition.{partition_ranks, partition}
use mpipin.Pin.Partition.Disjoint.{IsPartition, partition-IsPartition}
use mpipin.Tests.Machine.{
  low_set, low_set-IsCpuSet, get_bit-low_set, cpu_on, tops, all_cpus, machine, shared,
}

-- The masks of the two ranks, and what stays available.
two_ranks : CpuSet × CpuSet × CpuSet
unfolding bit_not shl shr ffs skip_zeros has_word found_first find_loop find_first_bit find_next_bit
    cpu_isset cpu_set cpu_clr cpuset_first cpuset_next each_cpu for_each_cpu find_cpu_topology
    take_cpu same_cache same_node choose_cpu assign_more assign_process partition_ranks partition
    update
two_ranks =
    let (pe, status) = partition 4 tops shared in
    (pe.affinities 0, pe.affinities 1, pe.cpus_available)

-- CPU 2 shares the cache of CPU 0, and CPU 3 that of CPU 1.
two_ranks_masks : two_ranks ≡ (low_set 5, low_set 10, low_set 0)
unfolding two_ranks
two_ranks_masks = refl

pub four_cpus : cpu_count all_cpus ≡ 4
unfolding cpu_count count_below get_bit word_bit
four_cpus = refl

partition-IsPartition_example :
    (pe' : PartExec) × (partition 4 tops shared ≡ (pe', none)) × IsPartition 0 2 shared pe'
partition-IsPartition_example =
    partition-IsPartition 4 tops 2 shared refl machine (omega (arith, four_cpus))

abbrev after_first : Masks
after_first = record { cpus_available = low_set 14; cpus_to_use = low_set 1; cpu_prev = 0 }

after_first-Covers : Covers tops (low_set 14)
after_first-Covers cpu there =
    machine.covers cpu
      (ground (arith, get_bit-low_set 14 cpu, get_bit-low_set 15 cpu, word_bit-bit_and 14 15 cpu))

choose_cpu-Chosen_example :
    (cpu : ℕ) × (choose_cpu 4 tops after_first ≡ ok cpu)
    × Chosen 4 tops (low_set 14) (cpu_on 0 0 5) cpu
    × ((i : ℕ) → Members (low_set 14) i → Members (low_set 14) cpu)
unfolding find_cpu_topology
choose_cpu-Chosen_example =
    choose_cpu-Chosen 4 tops after_first (cpu_on 0 0 5) (omega arith)
      (low_set-IsCpuSet 14 (omega arith)) after_first-Covers (low_set-IsCpuSet 5 (omega arith), tt)
      refl
