-- ===== src/Main/Meeting/Pinned.antt =====
-- The processes of a node have their ranks and masks, in whatever order they enter and call.
use mpipin.Base.{
  ℕ, suc, ◌+◌, ◌*◌, ◌≤◌, ap, ◌<◌, ◌≡◌, ◌≢◌, refl, sym, ◌∙◌, ◌⊎◌, inl, inr, subst, arith, true,
  false, List, [], ◌∷◌, length, some,
}
use mpipin.CpuSet.{CpuSet, IsCpuSet, cpu_count}
use mpipin.Pin.{PartExec, max_processes}
use mpipin.Pin.Assign.Share.{IsDescribed}
use mpipin.Pin.Barrier.{Services}
use mpipin.Pin.Job.{Job, calls, comes_back}
use mpipin.Pin.Job.Ranks.{Ranked}
use mpipin.Pin.Barrier.Arrive.{SameCpus}
use mpipin.Pin.Job.Good.{collecting, pinning, finished, NonZero, Masked}
use mpipin.Pin.Job.Runs.{
  before_all, cons_nonempty, Step-Good, Good-Ranked, Good-Masked, Good-goes_on,
}
use mpipin.Pin.Job.Ends.{steps_left, Step-steps_left}
use mpipin.Main.Enter.{Calls, Session, passed, enter}
use mpipin.Main.Enter.Outcomes.{enter_all-passed}
use mpipin.Main.Meeting.{
  Node, calls_of, before_entry, comes_to_pin, Move, enters, pins, Moves, rests, moves, count_moves,
}
use mpipin.Main.Meeting.Runs.{
  pids_of, Meets, nobody, arriving, met, first-Fits, entry-Fits, pins-Fits,
}
use mpipin.Topology.{CpuTopology}
use mpipin.Pin.Partition.Disjoint.{share_size}
use mpipin.Main.Enter.Node.{new_session, enter_all, IsCalls, Later}

-- The moves that are left at most: an entry, a call and a return for each process.
abbrev pub moves_left : Node → ℕ
moves_left node = 3 * length node.entering + steps_left node.job

module _ (services : Services) (n : ℕ) (excluded : CpuSet) where
  Move-moves_left :
      (node node' : Node) → Move services n excluded node node' → moves_left node' < moves_left node
  Move-moves_left node _ (enters pid sys rest s split runs) = omega (arith, ap length split)
  Move-moves_left node _ (pins job step) =
      omega (arith, Step-steps_left services n node.job job step)

  pub Moves-moves_left :
      (node node' : Node) (run : Moves services n excluded node node')
      → count_moves run + moves_left node' ≤ moves_left node
  Moves-moves_left node _ rests = omega arith
  Moves-moves_left node _ (moves mid after run move) =
      omega (arith, Moves-moves_left node mid run, Move-moves_left mid after move)

  module _ (excluded_set : IsCpuSet excluded) (memory : PartExec) (first_pid : ℕ) (first : Calls)
      (others : List (ℕ × Calls)) (pe : PartExec) (few : n ≤ max_processes)
      (tops : List CpuTopology) (sets : (s : CpuSet) → services.set_affinity s ≡ true)
      (there : services.topology ≡ some tops) (room : services.allocated ≡ true)
      (described : IsDescribed services.nprocs tops memory.cpus_available)
      (enough : n * share_size memory ≤ cpu_count memory.cpus_available)
      (spec : enter_all n excluded (first ∷ calls_of others) pe ≡ some memory) (is : IsCalls first)
      (empty : first.size ≡ some 0) (later : Later (calls_of others))
      (count : n ≡ suc (length others))
      (nonzero : NonZero (pids_of ((first_pid, first) ∷ others))) where
    abbrev pub AllFit : Node → Type 0
    AllFit node = Meets n excluded memory ((first_pid, first) ∷ others) pe node

    first_entry :
        (job : Job) (pid : ℕ) (sys : Calls) (rest : List (ℕ × Calls)) (s : Session)
        → job ≡ before_all pe []
        → (first_pid, first) ∷ others ≡ (pid, sys) ∷ rest
        → enter sys n excluded (new_session job.memory) ≡ (passed, s)
        → AllFit (comes_to_pin pid rest s job)
    first_entry job pid sys rest s at split runs =
        let same_pid : first_pid ≡ pid =
          ap (λ (l : List (ℕ × Calls)). elim l [ [] ↦ 0 | x ∷ _ ↦ x.0 ]) split in
        let same_sys : first ≡ sys =
          ap (λ (l : List (ℕ × Calls)). elim l [ [] ↦ first | x ∷ _ ↦ x.1 ]) split in
        let same_rest : others ≡ rest =
          ap (λ (l : List (ℕ × Calls)). elim l [ [] ↦ [] | _ ∷ xs ↦ xs ]) split in
        let runs' : enter first n excluded (new_session pe) ≡ (passed, s) =
          subst (λ c. enter c n excluded (new_session pe) ≡ (passed, s)) (sym same_sys)
            (subst (λ (j : Job). enter sys n excluded (new_session j.memory) ≡ (passed, s)) at
              runs) in
        subst (λ l. AllFit (comes_to_pin pid l s job)) same_rest
          (subst (λ i. AllFit (comes_to_pin i others s job)) same_pid
            (subst (λ j. AllFit (comes_to_pin first_pid others s j)) (sym at)
              (first-Fits services n excluded excluded_set memory first_pid first others pe few s
                runs' spec is empty later count nonzero)))

    Move-Fits :
        (node node' : Node) → AllFit node → Move services n excluded node node' → AllFit node'
    Move-Fits node _ (nobody at) (enters pid sys rest s split runs) =
        first_entry node.job pid sys rest s (ap (λ (n : Node). n.job) at)
          (sym (ap (λ (n : Node). n.entering) at) ∙ split) runs
    Move-Fits node _ (nobody at) (pins _ (calls before after pid split)) =
        absurd (cons_nonempty before after pid (sym (ap (λ (n : Node). n.job.outside) at) ∙ split))
    Move-Fits node _ (nobody at) (pins _ (comes_back before after x split ready)) =
        absurd (cons_nonempty before after x (sym (ap (λ (n : Node). n.job.waiting) at) ∙ split))
    Move-Fits node _ (arriving shadow h) (enters pid sys rest s split runs) =
        entry-Fits services n excluded excluded_set memory first_pid first others pe few shadow node
          pid sys rest s h split runs
    Move-Fits node _ (arriving shadow h) (pins job step) =
        pins-Fits services n excluded excluded_set memory first_pid first others pe few shadow node
          job h step
    Move-Fits node _ (met none_left h) (enters pid sys rest s split runs) =
        absurd (ground (arith, ap length none_left, ap length split))
    Move-Fits node _ (met none_left h) (pins job step) =
        met none_left (
          Step-Good services n memory tops sets there room described enough few node.job job h step)

    pub Moves-Fits :
        (node : Node)
        → Moves services n excluded (before_entry ((first_pid, first) ∷ others) pe) node
        → AllFit node
    Moves-Fits _ rests = nobody refl
    Moves-Fits _ (moves mid after run move) = Move-Fits mid after (Moves-Fits mid run) move

    pub Fits-Masked :
        (node : Node)
        → AllFit node
        → Ranked node.job.results
          × (node.job.corrupted ≡ false)
          × (length node.job.results ≢ 0 → Masked n memory node.job.memory)
    Fits-Masked node (nobody at) = (
      subst Ranked (sym (ap (λ (n : Node). n.job.results) at)) tt,
      ap (λ (n : Node). n.job.corrupted) at,
      λ ne. absurd (ne (ap (λ (n : Node). length n.job.results) at)),
    )
    Fits-Masked node (arriving shadow h) =
        (subst Ranked (sym h.no_results) tt, h.intact, λ ne. absurd (ne (ap length h.no_results)))
    Fits-Masked node (met none_left h) =
        let (ranked, intact) =
          Good-Ranked services n memory tops sets there room described enough few node.job h in
        (
          ranked,
          intact,
          Good-Masked services n memory tops sets there room described enough few node.job h,
        )

    -- Once all have entered, the CPUs are those that the entries alone would have come to.
    pub Fits-SameCpus :
        (node : Node)
        → AllFit node
        → node.entering ≡ []
        → length node.job.results ≡ 0
        → SameCpus memory node.job.memory
    Fits-SameCpus node (nobody at) all_in none_yet =
        absurd (ground (arith, ap length all_in, ap (λ (n : Node). length n.entering) at))
    Fits-SameCpus node (arriving shadow h) all_in none_yet =
        absurd (ground (arith, h.some_left, ap length all_in))
    Fits-SameCpus node (met none_left (collecting h)) all_in none_yet = h.cpus
    Fits-SameCpus node (met none_left (pinning e es h)) all_in none_yet = h.cpus none_yet
    Fits-SameCpus node (met none_left (finished h)) all_in none_yet =
        absurd (omega (arith, h.everyone, count))

    -- Until all have returned, a process can go on.
    pub Fits-goes_on :
        (node : Node)
        → AllFit node
        → (length node.job.results ≡ n) ⊎ ((node' : Node) × Move services n excluded node node')
    Fits-goes_on node (nobody at) =
        let (s, runs) =
          enter_all-passed first n excluded (calls_of others) pe node.job.memory memory spec in
        inr (_, enters first_pid first others s (ap (λ (n : Node). n.entering) at) runs)
    Fits-goes_on node (arriving shadow h) = go node.entering refl
      where
        go :
            (l : List (ℕ × Calls))
            → node.entering ≡ l
            → (length node.job.results ≡ n) ⊎ ((node' : Node) × Move services n excluded node node')
        go [] e = absurd (ground (arith, h.some_left, ap length e))
        go ((pid, sys) ∷ rest) e =
            let (s, runs) =
              enter_all-passed sys n excluded (calls_of rest) shadow node.job.memory memory
                (subst (λ l. enter_all n excluded (calls_of l) shadow ≡ some memory) e h.spec) in
            inr (_, enters pid sys rest s e runs)
    Fits-goes_on node (met none_left h) =
        elim (Good-goes_on services n memory tops sets there room described enough few node.job h) [
          | inl all ↦ inl all
          | inr (job, step) ↦ inr (_, pins job step)
        ]
