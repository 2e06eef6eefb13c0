-- ===== src/Main/Meeting/Runs.antt =====
-- What holds of the processes of a node in every run: those that have entered wait until all have, and
-- then the job is one whose processes have all entered before.
use mpipin.Base.{
  ℕ, suc, ◌+◌, ◌≤◌, ◌<◌, ◌≡◌, ◌≢◌, refl, sym, ◌∙◌, ap, subst, arith, true, false, List, [], ◌∷◌,
  ◌++◌, length, some, none,
}
use mpipin.CpuSet.{CpuSet, IsCpuSet}
use mpipin.Pin.{PartExec, max_processes}
use mpipin.Pin.Init.{initialise, attach}
use mpipin.Pin.Queue.{Slots}
use mpipin.Pin.Queue.Chain.{entry}
use mpipin.Pin.Queue.Order.{length-insert}
use mpipin.Pin.Barrier.{Services, arrive}
use mpipin.Pin.Barrier.Gather.{Gathering}
use mpipin.Pin.Barrier.Arrive.{SameCpus, arrive-Gathering}
use mpipin.Pin.Job.{Job, comes_in, Step, calls, comes_back}
use mpipin.Pin.Job.Good.{NonZero, Good, collecting}
use mpipin.Pin.Job.Steps.{SameCpus-trans, NonZero-split, outside_less}
use mpipin.Pin.Job.Runs.{start_processes, started, Fresh}
use mpipin.Main.Enter.{
  Calls, Session, Outcome, failed, passed, share, enter, IsEntry, enter-IsEntry,
}
use mpipin.Main.Enter.Node.{new_session, enter_all, IsCalls, Later, share-attach, initialise-Fresh}
use mpipin.Main.Meeting.{Node, calls_of, before_entry, comes_to_pin}
use mpipin.Main.Meeting.Arriving.{attach-Gathering, attach-SameCpus}

abbrev pub pids_of : List (ℕ × Calls) → List ℕ
pids_of [] = []
pids_of ((pid, sys) ∷ rest) = pid ∷ pids_of rest

-- Some have entered and some not. The CPUs are those that the entries alone would have made of the
-- memory, which is then `shadow`, and end with those of `memory`.
pub record Entering (n : ℕ) (excluded : CpuSet) (memory shadow : PartExec) (node : Node)
    : Type 0 where
  pub spec : enter_all n excluded (calls_of node.entering) shadow ≡ some memory
  pub some_left : 0 < length node.entering
  pub later : Later (calls_of node.entering)
  pub cpus : SameCpus shadow node.job.memory
  pub gathering : Gathering n node.job.memory node.job.waiting
  pub everyone : length node.entering + (length node.job.outside + length node.job.waiting) ≡ n
  pub outside_nonzero : NonZero node.job.outside
  pub nonzero : NonZero (pids_of node.entering)
  pub no_results : node.job.results ≡ []
  pub intact : node.job.corrupted ≡ false

-- Nobody has entered, some have, or all.
pub data Meets (n : ℕ) (excluded : CpuSet) (memory : PartExec) (processes : List (ℕ × Calls))
    (pe : PartExec) (node : Node) : Type 0 where
  nobody : node ≡ before_entry processes pe → Meets n excluded memory processes pe node
  arriving :
      (shadow : PartExec)
      → Entering n excluded memory shadow node
      → Meets n excluded memory processes pe node
  met : node.entering ≡ [] → Good n memory node.job → Meets n excluded memory processes pe node

module _ (services : Services) (n : ℕ) (excluded : CpuSet) (excluded_set : IsCpuSet excluded)
    (memory : PartExec) (first_pid : ℕ) (first : Calls) (others : List (ℕ × Calls)) (pe : PartExec)
    (few : n ≤ max_processes) where
  abbrev pub processes : List (ℕ × Calls)
  processes = (first_pid, first) ∷ others

  abbrev pub Fits : Node → Type 0
  Fits node = Meets n excluded memory processes pe node

  -- Behind an entry, by what it makes of the memory.
  behind_entry :
      (pid : ℕ) (rest : List (ℕ × Calls)) (s : Session) (shadow : PartExec) (job : Job)
      → enter_all n excluded (calls_of rest) shadow ≡ some memory
      → Later (calls_of rest)
      → SameCpus shadow s.shm
      → Gathering n s.shm job.waiting
      → length rest + (suc (length job.outside) + length job.waiting) ≡ n
      → pid ≢ 0
      → NonZero job.outside
      → NonZero (pids_of rest)
      → job.results ≡ []
      → job.corrupted ≡ false
      → Fits (comes_to_pin pid rest s job)
  unfolding enter_all
  behind_entry pid [] s shadow job spec later same g all nz outside others none_yet intact =
      let same_memory : shadow ≡ memory = ground (arith, spec) in
      met refl (
        collecting (record {
          gathering = g;
          everyone = omega (arith, all);
          missing = omega arith;
          nonzero = (nz, outside);
          no_results = none_yet;
          intact = intact;
          cpus = subst (λ m. SameCpus m s.shm) same_memory same;
        }))
  behind_entry pid (x ∷ rest) s shadow job spec later same g all nz outside others none_yet intact =
      arriving shadow (record {
        spec = spec;
        some_left = omega arith;
        later = later;
        cpus = same;
        gathering = g;
        everyone = omega (arith, all);
        outside_nonzero = (nz, outside);
        nonzero = others;
        no_results = none_yet;
        intact = intact;
      })

  -- What the entry makes of the shadow, which passes as the whole does.
  shadow_entered :
      (sys : Calls) (rest : List Calls) (shadow : PartExec)
      → IsCalls sys
      → enter_all n excluded (sys ∷ rest) shadow ≡ some memory
      → (shadow' : PartExec) × (enter_all n excluded rest shadow' ≡ some memory)
        × ((size : ℕ) × (own : CpuSet) × (sys.size ≡ some size)
            × (sys.affinity ≡ some own)
            × (shadow' ≡ share sys n excluded size own shadow))
  unfolding enter_all
  shadow_entered sys rest shadow is spec =
      go (enter sys n excluded (new_session shadow))
        (enter-IsEntry sys n excluded (new_session shadow) refl) spec
    where
      go :
          (r : Outcome × Session)
          → IsEntry sys n excluded (new_session shadow) r
          → (elim r.0 [ failed ↦ none | passed ↦ enter_all n excluded rest r.1.shm ]) ≡ some memory
          → (shadow' : PartExec) × (enter_all n excluded rest shadow' ≡ some memory)
            × ((size : ℕ) × (own : CpuSet) × (sys.size ≡ some size)
                × (sys.affinity ≡ some own)
                × (shadow' ≡ share sys n excluded size own shadow))
      go (failed, s) entry e = absurd (ground (arith, e))
      go (passed, s) entry e =
          let (size, own, sized, mine, made, _, _) = entry.passes refl in
          (s.shm, e, (size, own, sized, mine, made))

  pub entry-Fits :
      (shadow : PartExec) (node : Node) (pid : ℕ) (sys : Calls) (rest : List (ℕ × Calls))
      (s : Session)
      → Entering n excluded memory shadow node
      → node.entering ≡ (pid, sys) ∷ rest
      → enter sys n excluded (new_session node.job.memory) ≡ (passed, s)
      → Fits (comes_to_pin pid rest s node.job)
  entry-Fits shadow node pid sys rest s h split runs =
      let (is, behind, later) = subst (λ l. Later (calls_of l)) split h.later in
      let (nz, others) = subst (λ l. NonZero (pids_of l)) split h.nonzero in
      let (shadow', spec, (size, own, sized, mine, made)) =
        shadow_entered sys (calls_of rest) shadow is
          (subst (λ l. enter_all n excluded (calls_of l) shadow ≡ some memory) split h.spec) in
      let (size', own', sized', mine', made', _, _) =
        (subst (IsEntry sys n excluded (new_session node.job.memory)) runs
            (enter-IsEntry sys n excluded (new_session node.job.memory) refl)).passes
          refl in
      let same_own : own ≡ own' = ground (arith, mine, mine') in
      let attached : shadow' ≡ attach sys.system excluded n own' shadow =
        made
        ∙ share-attach n excluded excluded_set sys size own shadow sized behind
        ∙ ap (λ o. attach sys.system excluded n o shadow) same_own in
      let attached' : s.shm ≡ attach sys.system excluded n own' node.job.memory =
        made' ∙ share-attach n excluded excluded_set sys size' own' node.job.memory sized' behind in
      behind_entry pid rest s shadow' node.job spec later
        (subst (λ m. SameCpus m s.shm) (sym attached)
          (subst (SameCpus (attach sys.system excluded n own' shadow)) (sym attached')
            (attach-SameCpus sys.system excluded n own' shadow node.job.memory h.cpus)))
        (subst (λ m. Gathering n m node.job.waiting) (sym attached')
          (attach-Gathering sys.system excluded n own' n node.job.memory node.job.waiting
            h.gathering))
        (omega (arith, h.everyone, ap length split)) nz h.outside_nonzero others h.no_results
        h.intact

  -- The first entry initialises the memory.
  pub first-Fits :
      (s : Session)
      → enter first n excluded (new_session pe) ≡ (passed, s)
      → enter_all n excluded (first ∷ calls_of others) pe ≡ some memory
      → IsCalls first
      → first.size ≡ some 0
      → Later (calls_of others)
      → n ≡ suc (length others)
      → NonZero (pids_of processes)
      → Fits (comes_to_pin first_pid others s (before_entry processes pe).job)
  unfolding share enter_all
  first-Fits s runs spec is empty later count (nz, others_nz) =
      let (size, own, sized, mine, made, _, _) =
        (subst (IsEntry first n excluded (new_session pe)) runs
            (enter-IsEntry first n excluded (new_session pe) refl)).passes
          refl in
      let no_bytes : size ≡ 0 = ground (arith, sized, empty) in
      let made' : s.shm ≡ initialise n own =
        made ∙ ap (λ k. share first n excluded k own pe) no_bytes in
      behind_entry first_pid others s s.shm (before_entry processes pe).job
        (subst
          (λ (r : Outcome × Session).
            (elim r.0 [ failed ↦ none | passed ↦ enter_all n excluded (calls_of others) r.1.shm ])
            ≡ some memory)
          runs spec)
        later (record { same_available = refl; same_to_assign = refl; same_to_enter = refl })
        (started n s.shm (subst Fresh (sym made') (initialise-Fresh n own))) (omega arith) nz tt
        others_nz refl refl

  -- A process calls pin_process while others are still to enter.
  call-Fits :
      (shadow : PartExec) (node : Node) (before after : List ℕ) (pid : ℕ)
      → Entering n excluded memory shadow node
      → node.job.outside ≡ before ++ pid ∷ after
      → Fits (record node {
        job =
            comes_in services n pid
              (arrive n pid node.job.memory)
              (record node.job { outside = before ++ after });
      })
  call-Fits shadow node before after pid h split =
      let (nz, rest) = NonZero-split before after pid (subst NonZero split h.outside_nonzero) in
      let o = outside_less node.job before after pid split in
      let (my_i, pe', runs, g, same) =
        arrive-Gathering n pid node.job.memory node.job.waiting h.gathering nz
          (omega (arith, o, h.everyone, h.some_left)) few in
      subst
        (λ a. Fits (record node {
          job = comes_in services n pid a (record node.job { outside = before ++ after });
        }))
        (sym runs)
        (unfold comes_in in
          arriving shadow (record {
            spec = h.spec;
            some_left = h.some_left;
            later = h.later;
            cpus = SameCpus-trans shadow node.job.memory pe' h.cpus same;
            gathering = g;
            everyone =
                omega (arith, h.everyone, o, length-insert (entry my_i pid) node.job.waiting);
            outside_nonzero = rest;
            nonzero = h.nonzero;
            no_results = h.no_results;
            intact = h.intact;
          }))

  pub pins-Fits :
      (shadow : PartExec) (node : Node) (job : Job)
      → Entering n excluded memory shadow node
      → Step services n node.job job
      → Fits (record node { job = job })
  pins-Fits shadow node _ h (calls before after pid split) =
      call-Fits shadow node before after pid h split
  pins-Fits shadow node _ h (comes_back before after x split ready) =
      let both : true ≡ false =
        sym ready
        ∙ ap (λ (ps : Slots). (ps x.slot).ready) (sym (start_processes n node.job.memory))
        ∙ h.gathering.asleep x.slot in
      absurd (ground arith)
