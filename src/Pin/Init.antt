-- ===== src/Pin/Init.antt =====
-- What `main` of mpipin.c does with the shared memory, under the lock of its file: the first process
-- initialises it, the others add the CPUs they may use, and the last of them looks for more.
pub mod Discovery
pub mod Sets
pub mod Share
use mpipin.Base.{ℕ, zero, suc, ◌+◌, ◌-◌, ◌/◌, Bool, true, false, ltb, ◌==◌, if◌then◌else◌, none}
use mpipin.Base.Int.{ℤ, pos, negsuc, dec, ◌==ℤ◌, minus_one}
use mpipin.CpuSet.{CpuSet, cpu_bits, empty_set, cpu_isset, cpu_set, cpu_clr, cpu_count, cpuset_next}
use mpipin.Pin.{PartExec}

-- The memory behind the initialisation; `memset` clears what is not assigned. `ppn` is at least 2.
unfoldable pub initialise : (ppn : ℕ) → (cpus_available : CpuSet) → PartExec
initialise ppn cpus_available = record {
  nr_processes = minus_one;
  nr_processes_left = minus_one;
  nr_processes_left_in_init = pos (ppn - 1);
  process_rank = 0;
  cpus_available = cpus_available;
  cpus_to_assign = 0;
  first_process_ind = none;
  processes = λ _. record { ready = false; timeout = false; pid = 0; next_process_ind = none };
  affinities = λ _. empty_set;
}

-- The loops `for_each_cpu(cpu, src) CPU_SET(cpu, dst)` and `CPU_CLR(cpu, dst)`, from behind CPU `prev`;
-- each round goes on to a greater CPU.
unfoldable pub for_cpus_from :
    ℕ → (nprocs : ℕ) → (ℕ → CpuSet → CpuSet) → (src : CpuSet) → (prev : ℤ) → CpuSet → CpuSet
for_cpus_from zero nprocs change src prev dst = dst
for_cpus_from (suc fuel) nprocs change src prev dst =
    let cpu = cpuset_next prev src in
    let rest = for_cpus_from fuel nprocs change src (pos cpu) (change cpu dst) in
    if ltb cpu nprocs then rest else dst

unfoldable pub for_cpus : (nprocs : ℕ) → (ℕ → CpuSet → CpuSet) → (src : CpuSet) → CpuSet → CpuSet
for_cpus nprocs change src dst = for_cpus_from (cpu_bits + 1) nprocs change src minus_one dst

-- What the process gets from the system: the number of CPUs, whether its affinity can be set to a set
-- of CPUs, and the CPU on which it is then.
pub record System : Type 0 where
  pub nprocs : ℕ
  pub set_affinity : CpuSet → Bool
  pub getcpu : CpuSet → ℕ

module _ (system : System) (excluded : CpuSet) where
  -- The loop that tries to move to each CPU that is not known, with the rounds left.
  unfoldable pub discover : ℕ → (cpu : ℕ) → CpuSet → CpuSet
  discover zero cpu available = available
  discover (suc left) cpu available =
      let target = cpu_set cpu empty_set in
      let moved = if system.set_affinity target then system.getcpu target == cpu else false in
      discover left (cpu + 1) (
        if cpu_isset cpu excluded
        then available
        else if cpu_isset cpu available
        then available
        else if moved
        then cpu_set cpu available
        else available)

  -- A process that is not the first.
  unfoldable pub attach : (ppn : ℕ) → (cpus_available : CpuSet) → PartExec → PartExec
  attach ppn cpus_available pe =
      let all = for_cpus system.nprocs cpu_set cpus_available pe.cpus_available in
      let left = dec pe.nr_processes_left_in_init in
      let found = for_cpus system.nprocs cpu_clr excluded (discover system.nprocs 0 all) in
      if left ==ℤ pos 0
      then record pe {
        nr_processes_left_in_init = left;
        cpus_available = found;
        cpus_to_assign = cpu_count found / ppn;
      }
      else record pe { nr_processes_left_in_init = left; cpus_available = all }
