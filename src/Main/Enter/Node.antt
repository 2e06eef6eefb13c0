-- ===== src/Main/Enter/Node.antt =====
-- The processes of a node enter the shared memory one after the other, as the lock of its file has it.
-- Here none calls pin_process before all have entered; Main/Meeting.antt has the two interleaved.
use mpipin.Base.{
  ℕ, zero, suc, ◌-◌, ◌*◌, ◌≤◌, ◌<◌, ◌≡◌, refl, sym, ◌∙◌, ap, subst, arith, false, ◌==◌, List, [],
  ◌∷◌, length, Option, none, some, both_branches, each_branch, ◌≢◌, ℕ_discrete,
}
use mpipin.Base.Int.{pos, dec, ◌==ℤ◌}
use mpipin.CpuSet.{CpuSet, IsCpuSet, cpu_bits, cpu_count}
use mpipin.Pin.{PartExec}
use mpipin.Pin.Init.{System, initialise, attach}
use mpipin.Pin.Init.Sets.{get_bit-for_cpus}
use mpipin.Pin.Init.Share.{attach-IsSetUp}
use mpipin.Pin.Job.Runs.{Fresh}
use mpipin.Pin.Partition.Disjoint.{share_size}
use mpipin.Main.Enter.{
  Calls, Session, Outcome, failed, passed, share, enter, IsEntry, enter-IsEntry,
}

abbrev pub new_session : PartExec → Session
new_session pe = record { shm_path = none; locked = false; shm = pe; unlinked = [] }

-- The memory when all have gone on, by the entries alone; `none` if one fails.
unfoldable pub enter_all :
    (ppn : ℕ) → (cpus_excluded : CpuSet) → List Calls → PartExec → Option PartExec
enter_all ppn cpus_excluded [] pe = some pe
enter_all ppn cpus_excluded (calls ∷ rest) pe =
    let (outcome, s) = enter calls ppn cpus_excluded (new_session pe) in
    elim outcome [ failed ↦ none | passed ↦ enter_all ppn cpus_excluded rest s.shm ]

-- What the process gets from the system: at most 1024 CPUs, and an affinity of 1024 bits.
pub record IsCalls (calls : Calls) : Type 0 where
  pub few : calls.system.nprocs ≤ cpu_bits
  pub own_set : (own : CpuSet) → calls.affinity ≡ some own → IsCpuSet own

-- Those that enter behind the first find a file that is not empty.
abbrev pub Later : List Calls → Type 0
Later [] = Unit {0}
Later (calls ∷ rest) = IsCalls calls × (calls.size ≢ some 0) × Later rest

-- `left` processes have not entered.
record Waits (left : ℕ) (pe : PartExec) : Type 0 where
  count : pe.nr_processes_left_in_init ≡ pos left
  fresh : Fresh pe
  is_set : IsCpuSet pe.cpus_available

-- What pin_process relies on.
pub record IsReady (ppn : ℕ) (pe : PartExec) : Type 0 where
  pub all_in : pe.nr_processes_left_in_init ≡ pos 0
  pub fresh : Fresh pe
  pub is_set : IsCpuSet pe.cpus_available
  pub enough :
      0 < ppn
      → ppn ≤ cpu_count pe.cpus_available
      → ppn * share_size pe ≤ cpu_count pe.cpus_available

pub initialise-Fresh : (ppn : ℕ) (own : CpuSet) → Fresh (initialise ppn own)
unfolding initialise
initialise-Fresh ppn own = record {
  unset = refl;
  no_list = refl;
  no_pids = λ i. refl;
  not_ready = λ i. refl;
  not_late = λ i. refl;
}

module _ (ppn : ℕ) (excluded : CpuSet) (excluded_set : IsCpuSet excluded) where
  initialise-Waits :
      (own : CpuSet) (left : ℕ) → IsCpuSet own → ppn ≡ suc left → Waits left (initialise ppn own)
  unfolding initialise
  initialise-Waits own left is e = record {
    count = ap pos (omega arith);
    fresh = initialise-Fresh ppn own;
    is_set = is;
  }

  module _ (system : System) (few : system.nprocs ≤ cpu_bits) (own : CpuSet)
      (own_set : IsCpuSet own) where
    -- One that is not the last.
    attach-Waits :
        (left : ℕ) (pe : PartExec)
        → Waits (suc (suc left)) pe
        → Waits (suc left) (attach system excluded ppn own pe)
    unfolding attach dec ◌==ℤ◌
    attach-Waits left pe w =
        let united = get_bit-for_cpus system.nprocs few own own_set pe.cpus_available 0 w.is_set in
        let later : (dec pe.nr_processes_left_in_init ==ℤ pos 0) ≡ false =
          ap (λ z. dec z ==ℤ pos 0) w.count ∙ ground arith in
        each_branch (Waits (suc left)) (dec pe.nr_processes_left_in_init ==ℤ pos 0)
          (λ last. absurd (ground (arith, last, later)))
          (λ _. record {
            count = ap dec w.count;
            fresh = record {
              unset = w.fresh.unset;
              no_list = w.fresh.no_list;
              no_pids = w.fresh.no_pids;
              not_ready = w.fresh.not_ready;
              not_late = w.fresh.not_late;
            };
            is_set = united.1;
          })

    left-attach :
        (pe : PartExec)
        → (attach system excluded ppn own pe).nr_processes_left_in_init
          ≡ dec pe.nr_processes_left_in_init
    unfolding attach
    left-attach pe =
        both_branches
          (λ (pe' : PartExec). pe'.nr_processes_left_in_init ≡ dec pe.nr_processes_left_in_init)
          (dec pe.nr_processes_left_in_init ==ℤ pos 0) refl refl

    attach_last-IsReady :
        (pe : PartExec) → Waits 1 pe → IsReady ppn (attach system excluded ppn own pe)
    unfolding dec
    attach_last-IsReady pe w =
        let up =
          attach-IsSetUp system excluded own ppn pe few excluded_set own_set w.is_set w.count in
        record {
          all_in = left-attach pe ∙ ap dec w.count;
          fresh = up.fresh w.fresh;
          is_set = up.is_set;
          enough = up.enough;
        }

  -- How a process that went on found the memory and left it.
  pub entered :
      (calls : Calls) (pe : PartExec) (r : Outcome × Session)
      → IsCalls calls
      → IsEntry calls ppn excluded (new_session pe) r
      → r.0 ≡ passed
      → (size : ℕ) × (own : CpuSet) × (calls.size ≡ some size)
        × IsCpuSet own
        × (r.1.shm ≡ share calls ppn excluded size own pe)
  entered calls pe r is entry passes =
      let (size, own, e, mine, memory, _, _) = entry.passes passes in
      (size, own, e, is.own_set own mine, memory)

  pub share-attach :
      (calls : Calls) (size : ℕ) (own : CpuSet) (pe : PartExec)
      → calls.size ≡ some size
      → calls.size ≢ some 0
      → share calls ppn excluded size own pe ≡ attach calls.system excluded ppn own pe
  unfolding share
  share-attach calls size own pe e behind =
      let not_empty : (size == 0) ≡ false = elim (ℕ_discrete size 0) [
        | yes empty ↦ absurd (behind (e ∙ ap some empty))
        | no some_bytes ↦ ground arith
      ] in
      rw not_empty

  -- The result of the processes behind the first.
  Ready : Option PartExec → Type 0
  Ready none = Unit {0}
  Ready (some pe) = IsReady ppn pe

  Later-Ready :
      (left : ℕ) (rest : List Calls) (pe : PartExec)
      → length rest ≡ suc left
      → Later rest
      → Waits (suc left) pe
      → Ready (enter_all ppn excluded rest pe)
  unfolding enter_all Ready
  Later-Ready left [] pe size later w = absurd (omega arith)
  Later-Ready zero (calls ∷ c ∷ rest) pe size later w = absurd (omega arith)
  Later-Ready zero (calls ∷ []) pe size (is, behind, later) w =
      go (enter calls ppn excluded (new_session pe))
        (enter-IsEntry calls ppn excluded (new_session pe) refl)
    where
      go :
          (r : Outcome × Session)
          → IsEntry calls ppn excluded (new_session pe) r
          → Ready (elim r.0 [ failed ↦ none | passed ↦ some r.1.shm ])
      go (failed, s) entry = tt
      go (passed, s) entry =
          let (size, own, e, own_set, memory) = entered calls pe (passed, s) is entry refl in
          subst (IsReady ppn) (sym (memory ∙ share-attach calls size own pe e behind))
            (attach_last-IsReady calls.system is.few own own_set pe w)
  Later-Ready (suc left) (calls ∷ rest) pe size (is, behind, later) w =
      go (enter calls ppn excluded (new_session pe))
        (enter-IsEntry calls ppn excluded (new_session pe) refl)
        (λ pe w. Later-Ready left rest pe (omega arith) later w)
    where
      go :
          (r : Outcome × Session)
          → IsEntry calls ppn excluded (new_session pe) r
          → ((pe : PartExec) → Waits (suc left) pe → Ready (enter_all ppn excluded rest pe))
          → Ready (elim r.0 [ failed ↦ none | passed ↦ enter_all ppn excluded rest r.1.shm ])
      go (failed, s) entry ready = tt
      go (passed, s) entry ready =
          let (size, own, e, own_set, memory) = entered calls pe (passed, s) is entry refl in
          ready s.shm (
            subst (Waits (suc left)) (sym (memory ∙ share-attach calls size own pe e behind))
              (attach-Waits calls.system is.few own own_set left pe w))

  all-Ready :
      (first : Calls) (rest : List Calls) (pe : PartExec)
      → ppn ≡ suc (length rest)
      → 0 < length rest
      → IsCalls first
      → first.size ≡ some 0
      → Later rest
      → Ready (enter_all ppn excluded (first ∷ rest) pe)
  unfolding enter_all Ready share
  all-Ready first rest pe count more is empty later =
      go (enter first ppn excluded (new_session pe))
        (enter-IsEntry first ppn excluded (new_session pe) refl)
    where
      go :
          (r : Outcome × Session)
          → IsEntry first ppn excluded (new_session pe) r
          → Ready (elim r.0 [ failed ↦ none | passed ↦ enter_all ppn excluded rest r.1.shm ])
      go (failed, s) entry = tt
      go (passed, s) entry =
          let (size, own, e, own_set, memory) = entered first pe (passed, s) is entry refl in
          let no_bytes : size ≡ 0 = ground (arith, e, empty) in
          let made : s.shm ≡ initialise ppn own =
            memory ∙ ap (λ n. share first ppn excluded n own pe) no_bytes in
          Later-Ready (length rest - 1) rest s.shm (omega arith) later (
            subst (Waits (suc (length rest - 1))) (sym made)
              (initialise-Waits own (suc (length rest - 1)) own_set (omega arith)))

  -- If all processes of a node, as many as main was told and at least two, enter one after the other
  -- with no call of pin_process in between, and all of them go on, the shared memory is then what
  -- pin_process relies on: none is still to come, no process is in the list or a slot, the available CPUs
  -- are a CPU set, and the CPUs that each process is to get, and at least one, are there if there is a
  -- CPU for each. The first finds the file empty and the others do not; none has more than 1024 CPUs or
  -- an affinity of another size.
  pub enter_all-IsReady :
      (first : Calls) (rest : List Calls) (pe pe' : PartExec)
      → ppn ≡ suc (length rest)
      → 0 < length rest
      → IsCalls first
      → first.size ≡ some 0
      → Later rest
      → enter_all ppn excluded (first ∷ rest) pe ≡ some pe'
      → IsReady ppn pe'
  unfolding Ready
  enter_all-IsReady first rest pe pe' count more is empty later e =
      subst Ready e (all-Ready first rest pe count more is empty later)
