-- ===== src/Tests/Setup.antt =====
-- Two processes attach the memory: one may use CPU 0, the other CPU 1; CPU 3 is excluded, and the
-- second finds CPU 2.
use mpipin.Base.{ℕ, ◌≡◌, refl, arith, true}
use mpipin.Base.Int.{dec, ◌==ℤ◌}
use mpipin.Base.Count.{count_below}
use mpipin.Bits.{word_bit}
use mpipin.Word.{bit_not, shl, shr}
use mpipin.Bitops.{
  get_bit, ffs, skip_zeros, has_word, found_first, find_loop, find_first_bit, find_next_bit,
}
use mpipin.CpuSet.{CpuSet, cpu_isset, cpu_set, cpu_clr, cpu_count, cpuset_first, cpuset_next}
use mpipin.Pin.{PartExec}
use mpipin.Pin.Init.{initialise, for_cpus_from, for_cpus, System, discover, attach}
use mpipin.Pin.Init.Share.{IsSetUp, attach-IsSetUp}
use mpipin.Tests.Machine.{low_set, low_set-IsCpuSet}

abbrev pub four : System
four = record { nprocs = 4; set_affinity = λ _. true; getcpu = cpuset_first }

abbrev pub first_memory : PartExec
first_memory = initialise 2 (low_set 1)

set_up : CpuSet × ℕ
unfolding bit_not shl shr ffs skip_zeros has_word found_first find_loop find_first_bit find_next_bit
    cpu_isset cpu_set cpu_clr cpuset_first cpuset_next cpu_count count_below get_bit word_bit
    initialise for_cpus_from for_cpus discover attach dec ◌==ℤ◌
set_up =
    let pe = attach four (low_set 8) 2 (low_set 2) first_memory in
    (pe.cpus_available, pe.cpus_to_assign)

three_cpus : set_up ≡ (low_set 7, 1)
unfolding set_up
three_cpus = refl

attach-IsSetUp_example :
    IsSetUp four
      (low_set 8)
      (low_set 2)
      2
      first_memory
      (attach four (low_set 8) 2 (low_set 2) first_memory)
attach-IsSetUp_example =
    attach-IsSetUp four (low_set 8) (low_set 2) 2 first_memory (omega arith)
      (low_set-IsCpuSet 8 (omega arith)) (low_set-IsCpuSet 2 (omega arith))
      (unfold initialise in low_set-IsCpuSet 1 (omega arith)) (unfold initialise in refl)
