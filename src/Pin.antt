-- ===== src/Pin.antt =====
-- `struct part_exec` and `struct process_list_item` of mpipin.c: the shared memory in which the
-- processes of a node meet. The locks and condition variables are left out: see Pin/Barrier.
pub mod Assign
pub mod Barrier
pub mod Init
pub mod Job
pub mod Partition
pub mod Queue
use mpipin.Base.{ℕ, Option, Bool, ◌==◌, if◌then◌else◌}
use mpipin.Base.Int.{ℤ}
use mpipin.CpuSet.{CpuSet}

-- An array: a function of the index.
unfoldable pub update {ℓ} : {A : Type ℓ} → (ℕ → A) → ℕ → A → ℕ → A
update f i a j = if i == j then a else f j

abbrev pub max_processes : ℕ
max_processes = 1024

-- `next_process_ind` is `none` for the index -1.
pub record ProcessItem : Type 0 where
  pub ready : Bool
  pub timeout : Bool
  pub pid : ℕ
  pub next_process_ind : Option ℕ

-- `first_process_ind` is `none` for the index -1.
pub record PartExec : Type 0 where
  pub nr_processes : ℤ
  pub nr_processes_left : ℤ
  pub nr_processes_left_in_init : ℤ
  pub process_rank : ℕ
  pub cpus_available : CpuSet
  pub cpus_to_assign : ℕ
  pub first_process_ind : Option ℕ
  pub processes : ℕ → ProcessItem
  pub affinities : ℕ → CpuSet
