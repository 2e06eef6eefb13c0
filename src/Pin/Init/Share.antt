-- ===== src/Pin/Init/Share.antt =====
-- What the processes find in the shared memory when the last of them has attached it.
use mpipin.Base.{
  ℕ, suc, ◌-◌, ◌*◌, ◌/◌, ◌≤◌, ◌<◌, ◌≡◌, refl, arith, not, ◌&&◌, ◌||◌, if◌then◌else◌, ap, sym, subst,
}
use native.Mathlib.Nat.{div-mul-le_self, le-div_iff_mul-le}
use mpipin.Base.Int.{ℤ, pos, dec, ◌==ℤ◌}
use mpipin.Bitops.{get_bit}
use mpipin.CpuSet.{CpuSet, cpu_bits, IsCpuSet, cpu_set, cpu_clr, cpu_count}
use mpipin.Pin.{PartExec}
use mpipin.Pin.Partition.Disjoint.{share_size}
use mpipin.Pin.Job.Runs.{Fresh}
use mpipin.Pin.Init.{initialise, for_cpus, System, discover, attach}
use mpipin.Pin.Init.Sets.{get_bit-for_cpus, get_bit-for_cpus_clr}
use mpipin.Pin.Init.Discovery.{moves, discover_bits}

-- The memory that the first process leaves is one that no process has entered.
pub initialise-Fresh : (ppn : ℕ) (mine : CpuSet) → Fresh (initialise ppn mine)
unfolding initialise
initialise-Fresh ppn mine = record {
  unset = refl;
  no_list = refl;
  no_pids = λ i. refl;
  not_ready = λ i. refl;
  not_late = λ i. refl;
}

-- What the last process to attach makes of the memory.
pub record IsSetUp (system : System) (excluded mine : CpuSet) (ppn : ℕ) (before after : PartExec)
    : Type 0 where
  pub available :
      (i : ℕ)
      → i < system.nprocs
      → get_bit after.cpus_available i ≡ (
          not (get_bit excluded i)
          && (get_bit mine i || get_bit before.cpus_available i || moves system i))
  pub is_set : IsCpuSet after.cpus_available
  pub enough :
      0 < ppn
      → ppn ≤ cpu_count after.cpus_available
      → ppn * share_size after ≤ cpu_count after.cpus_available
  pub fresh : Fresh before → Fresh after

share_enough : (c ppn k : ℕ) → k ≡ c / ppn → 0 < ppn → ppn ≤ c → ppn * suc (k - 1) ≤ c
share_enough c ppn k e some_process few =
    let one_each : 1 ≤ c / ppn = (le-div_iff_mul-le some_process).1 (omega arith) in
    let share : suc (k - 1) ≡ c / ppn = omega arith in
    rw share (omega (arith, div-mul-le_self c ppn))

module _ (system : System) (excluded mine : CpuSet) (ppn : ℕ) (pe : PartExec)
    (nr_cpus : system.nprocs ≤ cpu_bits) (excluded_set : IsCpuSet excluded)
    (mine_set : IsCpuSet mine) (set : IsCpuSet pe.cpus_available) where
  abbrev united : CpuSet
  united = for_cpus system.nprocs cpu_set mine pe.cpus_available

  abbrev usable : CpuSet
  usable = for_cpus system.nprocs cpu_clr excluded (discover system excluded system.nprocs 0 united)

  usable_bits :
      (i : ℕ)
      → (i < system.nprocs
          → get_bit usable i ≡ (
              not (get_bit excluded i)
              && (get_bit mine i || get_bit pe.cpus_available i || moves system i)))
        × IsCpuSet usable
  usable_bits i =
      let (unite, is) =
        get_bit-for_cpus system.nprocs nr_cpus mine mine_set pe.cpus_available i set in
      let (more, is') =
        discover_bits system excluded excluded_set system.nprocs 0 united i is (omega arith) in
      let (cleared, is'') =
        get_bit-for_cpus_clr system.nprocs nr_cpus excluded excluded_set
          (discover system excluded system.nprocs 0 united) i is' in
      (λ lt. ground (arith, unite, more, cleared), is'')

  attach_last :
      pe.nr_processes_left_in_init ≡ pos 1
      → attach system excluded ppn mine pe ≡ record pe {
        nr_processes_left_in_init = pos 0;
        cpus_available = usable;
        cpus_to_assign = cpu_count usable / ppn;
      }
  unfolding attach dec ◌==ℤ◌
  attach_last e =
      ap
        (λ (left : ℤ).
          if left ==ℤ pos 0
          then record pe {
            nr_processes_left_in_init = left;
            cpus_available = usable;
            cpus_to_assign = cpu_count usable / ppn;
          }
          else record pe { nr_processes_left_in_init = left; cpus_available = united })
        (ap dec e)

  -- When the last process has attached the memory, its CPUs below `nprocs` are those that some process
  -- may use or the last one can be moved to, less the excluded ones; the CPUs that each process is to
  -- get are there if there is a CPU for each; and the list and the slots are as before. `nprocs` is at
  -- most 1024.
  pub attach-IsSetUp :
      pe.nr_processes_left_in_init ≡ pos 1
      → IsSetUp system excluded mine ppn pe (attach system excluded ppn mine pe)
  attach-IsSetUp e = subst (IsSetUp system excluded mine ppn pe) (sym (attach_last e)) (record {
    available = λ i lt. (usable_bits i).0 lt;
    is_set = (usable_bits 0).1;
    enough = share_enough (cpu_count usable) ppn (cpu_count usable / ppn) refl;
    fresh = λ f. record {
      unset = f.unset;
      no_list = f.no_list;
      no_pids = f.no_pids;
      not_ready = f.not_ready;
      not_late = f.not_late;
    };
  })
