-- ===== src/Pin/Job/Runs.antt =====
-- A good job stays good with every run, and ends with a rank for each process.
use mpipin.Base.{
  ℕ, ◌*◌, ◌≤◌, ◌<◌, ◌≡◌, ◌≢◌, refl, arith, true, false, List, [], ◌∷◌, ◌++◌, length, sym, ◌∙◌, ap,
  subst, some, none, ◌⊎◌, Bool-cases, inl, inr,
}
use mpipin.Base.Int.{pos, minus_one, ◌==ℤ◌}
use mpipin.CpuSet.{CpuSet, cpu_count}
use mpipin.Topology.{CpuTopology}
use mpipin.Pin.{PartExec, max_processes}
use mpipin.Pin.Queue.{Slots}
use mpipin.Pin.Queue.Chain.{Entry}
use mpipin.Pin.Assign.Share.{IsDescribed}
use mpipin.Pin.Partition.Disjoint.{share_size}
use mpipin.Pin.Barrier.{Services, start, proceed, resume}
use mpipin.Pin.Barrier.Gather.{Gathering}
use mpipin.Pin.Barrier.Wake.{Asleep}
use mpipin.Pin.Barrier.Leave.{resume_step}
use mpipin.Pin.Job.{Job, leaves, Step, calls, comes_back, Run, still, further}
use mpipin.Pin.Job.Ranks.{Ranked}
use mpipin.Pin.Job.Good.{NonZero, Masked, Pinning, Good, collecting, pinning, finished}
use mpipin.Pin.Job.Steps.{calls-Good, next_leaves}

pub cons_nonempty : {A : Type 0} (before after : List A) (x : A) → ¬ ([] ≡ before ++ x ∷ after)
cons_nonempty [] after x e = ground arith
cons_nonempty (y ∷ before) after x e = ground arith

-- The entry that is ready is the one that was woken, and no other.
Asleep-below :
    (ps : Slots) (before after es : List Entry) (x : Entry)
    → es ≡ before ++ x ∷ after
    → Asleep ps es
    → (ps x.slot).ready ≡ false
Asleep-below ps before after es x e h = go before (subst (Asleep ps) e h)
  where
    go : (before : List Entry) → Asleep ps (before ++ x ∷ after) → (ps x.slot).ready ≡ false
    go [] h = h.0
    go (y ∷ before) h = go before h.1

only_awake :
    (ps : Slots) (before after es : List Entry) (e x : Entry)
    → e ∷ es ≡ before ++ x ∷ after
    → Asleep ps es
    → (ps x.slot).ready ≡ true
    → (x ≡ e) × (before ++ after ≡ es)
only_awake ps [] after es e x split h on = (ground arith, ground arith)
only_awake ps (y ∷ before) after es e x split h on =
    let rest : es ≡ before ++ x ∷ after = ground arith in
    absurd (ground (arith, Asleep-below ps before after es x rest h))

pub start_processes : (n : ℕ) (pe : PartExec) → (start n pe).processes ≡ pe.processes
unfolding start
start_processes n pe = elim (Bool-cases (pe.nr_processes ==ℤ minus_one)) [
  | inl new ↦ rw new refl
  | inr old ↦ rw old refl
]

-- A memory that the first process of a job has just initialised.
pub record Fresh (pe : PartExec) : Type 0 where
  pub unset : pe.nr_processes ≡ minus_one
  pub no_list : pe.first_process_ind ≡ none
  pub no_pids : (i : ℕ) → (pe.processes i).pid ≡ 0
  pub not_ready : (i : ℕ) → (pe.processes i).ready ≡ false
  pub not_late : (i : ℕ) → (pe.processes i).timeout ≡ false

-- The job before any process has called `pin_process`.
abbrev pub before_all : PartExec → List ℕ → Job
before_all pe pids = record {
  memory = pe;
  outside = pids;
  waiting = [];
  results = [];
  corrupted = false;
}

pub started : (n : ℕ) (pe : PartExec) → Fresh pe → Gathering n pe []
unfolding start ◌==ℤ◌
started n pe h = rw h.unset (record {
  total = refl;
  still = ap pos (omega arith);
  chain = h.no_list;
  ascending = tt;
  distinct = tt;
  positive = tt;
  free = λ i _. h.no_pids i;
  asleep = h.not_ready;
  in_time = h.not_late;
})

pub before_all-Good :
    (pe : PartExec) (pids : List ℕ)
    → Fresh pe
    → NonZero pids
    → 0 < length pids
    → Good (length pids) pe (before_all pe pids)
before_all-Good pe pids h nz some_pid = collecting (record {
  gathering = started (length pids) pe h;
  everyone = omega arith;
  missing = some_pid;
  nonzero = nz;
  no_results = refl;
  intact = refl;
  cpus = record { same_available = refl; same_to_assign = refl; same_to_enter = refl };
})

module _ (services : Services) (n : ℕ) (first : PartExec) (tops : List CpuTopology)
    (sets : (s : CpuSet) → services.set_affinity s ≡ true) (there : services.topology ≡ some tops)
    (room : services.allocated ≡ true)
    (described : IsDescribed services.nprocs tops first.cpus_available)
    (enough : n * share_size first ≤ cpu_count first.cpus_available) (few : n ≤ max_processes) where
  comes_back-Good :
      (job : Job) (e : Entry) (es before after : List Entry) (x : Entry)
      → Pinning n first job e es
      → job.waiting ≡ before ++ x ∷ after
      → (job.memory.processes x.slot).ready ≡ true
      → Good n first (
          leaves x.pid
            (resume services x.pid x.slot false job.memory)
            (record job { waiting = before ++ after }))
  comes_back-Good job e es before after x h split ready =
      let (same, others) =
        only_awake job.memory.processes before after es e x (sym h.waits_for ∙ split)
          h.releasing.asleep ready in
      let goes =
        resume_step services sets x.pid x.slot job.memory (h.releasing.in_time x.slot) ready in
      subst (λ d. Good n first (leaves x.pid d (record job { waiting = before ++ after })))
        (sym goes)
        (subst
          (λ (y : Entry). Good n first (
            leaves y.pid (proceed services y.pid job.memory)
              (record job { waiting = before ++ after })))
          (sym same)
          (next_leaves services n first tops sets there room described enough
            (record job { waiting = before ++ after }) job.memory e es others h.nobody h.intact
            h.everyone h.ranked h.behind h.releasing h.cpus h.masked))

  pub Step-Good : (job job' : Job) → Good n first job → Step services n job job' → Good n first job'
  Step-Good job _ (collecting h) (calls before after pid split) =
      calls-Good services n first tops sets there room described enough job before after pid few h
        split
  Step-Good job _ (collecting h) (comes_back before after x split ready) =
      let both : true ≡ false =
        sym ready
        ∙ ap (λ (ps : Slots). (ps x.slot).ready) (sym (start_processes n job.memory))
        ∙ h.gathering.asleep x.slot in
      absurd (ground arith)
  Step-Good job _ (pinning e es h) (calls before after pid split) =
      absurd (cons_nonempty before after pid (sym h.nobody ∙ split))
  Step-Good job _ (pinning e es h) (comes_back before after x split ready) =
      comes_back-Good job e es before after x h split ready
  Step-Good job _ (finished h) (calls before after pid split) =
      absurd (cons_nonempty before after pid (sym h.nobody ∙ split))
  Step-Good job _ (finished h) (comes_back before after x split ready) =
      absurd (cons_nonempty before after x (sym h.none_waits ∙ split))

  Run-Good : (job job' : Job) → Good n first job → Run services n job job' → Good n first job'
  Run-Good job _ h still = h
  Run-Good job _ h (further mid after run step) = Step-Good mid after (Run-Good job mid h run) step

  Good-start :
      (pids : List ℕ)
      → length pids ≡ n
      → 0 < n
      → Fresh first
      → NonZero pids
      → Good n first (before_all first pids)
  Good-start pids size some_pid fresh nz =
      subst (λ k. Good k first (before_all first pids)) size
        (before_all-Good first pids fresh nz (omega arith))

  -- A job that is not finished goes on.
  pub Good-goes_on :
      (job : Job)
      → Good n first job
      → (length job.results ≡ n) ⊎ ((job' : Job) × Step services n job job')
  Good-goes_on job (collecting h) = goes job.outside refl
    where
      goes :
          (pids : List ℕ)
          → job.outside ≡ pids
          → (length job.results ≡ n) ⊎ ((job' : Job) × Step services n job job')
      goes [] e =
          absurd (let l = ap length e in let m = h.missing in let a = h.everyone in omega arith)
      goes (pid ∷ rest) e = inr (_, calls [] rest pid e)
  Good-goes_on job (pinning e es h) = inr (_, comes_back [] es e h.waits_for h.releasing.woken)
  Good-goes_on job (finished h) = inl h.everyone

  pub Good-Ranked : (job : Job) → Good n first job → Ranked job.results × (job.corrupted ≡ false)
  Good-Ranked job (collecting h) = (subst Ranked (sym h.no_results) tt, h.intact)
  Good-Ranked job (pinning e es h) = (h.ranked, h.intact)
  Good-Ranked job (finished h) = (h.ranked, h.intact)

  pub Good-Masked :
      (job : Job) → Good n first job → length job.results ≢ 0 → Masked n first job.memory
  Good-Masked job (collecting h) ne = absurd (ne (ap length h.no_results))
  Good-Masked job (pinning e es h) ne = h.masked ne
  Good-Masked job (finished h) ne = h.masked

  -- Among the runs of a job, with no time-outs and no wake-ups without a signal, whose shared memory is
  -- just initialised, whose PIDs are not 0, at most 1024 and at least one, and for which the system supplies the topology of enough CPUs: whatever the order
  -- in which the processes call and are woken, none fails, and no entry with index -1 is used; those
  -- that return have the ranks from 0 on in ascending order of PID; and once one has returned, the
  -- affinity masks of the ranks have cpus_to_assign CPUs each, or one where that is 0, all of them from
  -- the available ones, and no two share a CPU.
  pub Run-Ranked :
      (pids : List ℕ) (job : Job)
      → length pids ≡ n
      → 0 < n
      → Fresh first
      → NonZero pids
      → Run services n (before_all first pids) job
      → Ranked job.results
        × (job.corrupted ≡ false)
        × (length job.results ≢ 0 → Masked n first job.memory)
  Run-Ranked pids job size some_pid fresh nz run =
      let good = Run-Good _ job (Good-start pids size some_pid fresh nz) run in
      let (ranked, intact) = Good-Ranked job good in (ranked, intact, Good-Masked job good)

  -- Such a job never deadlocks: as long as a process has not returned, a process can go on.
  pub Run-goes_on :
      (pids : List ℕ) (job : Job)
      → length pids ≡ n
      → 0 < n
      → Fresh first
      → NonZero pids
      → Run services n (before_all first pids) job
      → (length job.results ≡ n) ⊎ ((job' : Job) × Step services n job job')
  Run-goes_on pids job size some_pid fresh nz run =
      Good-goes_on job (Run-Good _ job (Good-start pids size some_pid fresh nz) run)
