-- ===== src/Pin/Job/Steps.antt =====
-- A good job stays good with each step.
use mpipin.Base.{
  ℕ, suc, ◌+◌, ◌*◌, ◌≤◌, ◌<◌, ◌≡◌, ◌≢◌, refl, arith, true, false, ◌==◌, List, [], ◌∷◌, ◌++◌, length,
  sym, ◌∙◌, ap, subst, some, Bool-cases, inl, inr, dec_lt,
}
use mpipin.Base.Errno.{Result}
use mpipin.CpuSet.{CpuSet, cpu_count}
use mpipin.Topology.{CpuTopology}
use mpipin.Pin.{PartExec, max_processes}
use mpipin.Pin.Queue.Chain.{Entry, entry}
use mpipin.Pin.Queue.Insert.{insert}
use mpipin.Pin.Queue.Order.{length-insert}
use mpipin.Pin.Assign.Share.{IsDescribed}
use mpipin.Pin.Partition.Disjoint.{share_size}
use mpipin.Pin.Barrier.{waits, goes_on, Services, arrive, proceed}
use mpipin.Pin.Barrier.Wake.{Releasing}
use mpipin.Pin.Barrier.Arrive.{SameCpus, arrive-Gathering, arrive-Releasing}
use mpipin.Pin.Job.{Job, leaves, comes_in}
use mpipin.Pin.Job.Ranks.{Behind, Ranked}
use mpipin.Pin.Job.Good.{
  NonZero, Masked, Collecting, Good, collecting, pinning, leaves-Good, proceed-Masked,
}

pub SameCpus-trans : (a b c : PartExec) → SameCpus a b → SameCpus b c → SameCpus a c
SameCpus-trans a b c h k = record {
  same_available = k.same_available ∙ h.same_available;
  same_to_assign = k.same_to_assign ∙ h.same_to_assign;
  same_to_enter = k.same_to_enter ∙ h.same_to_enter;
}

pub NonZero-split :
    (before after : List ℕ) (pid : ℕ)
    → NonZero (before ++ pid ∷ after)
    → (pid ≢ 0) × NonZero (before ++ after)
NonZero-split [] after pid h = (h.0, h.1)
NonZero-split (p ∷ before) after pid h =
    let (a, b) = NonZero-split before after pid h.1 in (a, (h.0, b))

no_length : (l : List ℕ) → length l ≡ 0 → l ≡ []
no_length [] e = refl
no_length (x ∷ l) e = absurd (ground arith)

pub outside_less :
    (job : Job) (before after : List ℕ) (pid : ℕ)
    → job.outside ≡ before ++ pid ∷ after
    → length job.outside ≡ suc (length (before ++ after))
outside_less job before after pid e = ap length e ∙ go before
  where
    go : (before : List ℕ) → length (before ++ pid ∷ after) ≡ suc (length (before ++ after))
    go [] = refl
    go (x ∷ before) = ap suc (go before)

-- A process that is not the last comes in.
calls_early :
    (services : Services) (n : ℕ) (first : PartExec) (job : Job) (before after : List ℕ) (pid : ℕ)
    → n ≤ max_processes
    → Collecting n first job
    → job.outside ≡ before ++ pid ∷ after
    → suc (length job.waiting) < n
    → Good n first (
        comes_in services n pid
          (arrive n pid job.memory)
          (record job { outside = before ++ after }))
calls_early services n first job before after pid few h split more =
    let (nz, rest) = NonZero-split before after pid (subst NonZero split h.nonzero) in
    let (my_i, pe', runs, g, same) =
      arrive-Gathering n pid job.memory job.waiting h.gathering nz more few in
    subst (λ a. Good n first (comes_in services n pid a (record job { outside = before ++ after })))
      (sym runs)
      (unfold comes_in in
        collecting (record {
          gathering = g;
          everyone =
              (let l = length-insert (entry my_i pid) job.waiting in
                let o = outside_less job before after pid split in omega arith);
          missing = (let l = length-insert (entry my_i pid) job.waiting in omega arith);
          nonzero = rest;
          no_results = h.no_results;
          intact = h.intact;
          cpus = SameCpus-trans first job.memory pe' h.cpus same;
        }))

equal_slots : (a b : ℕ) → (a == b) ≡ true → a ≡ b
equal_slots a b h = ground arith

module _ (services : Services) (n : ℕ) (first : PartExec) (tops : List CpuTopology)
    (sets : (s : CpuSet) → services.set_affinity s ≡ true) (there : services.topology ≡ some tops)
    (room : services.allocated ≡ true)
    (described : IsDescribed services.nprocs tops first.cpus_available)
    (enough : n * share_size first ≤ cpu_count first.cpus_available) where
  -- The last process wakes the first of the list.
  last_waits :
      (job : Job) (pid my_i : ℕ) (pe : PartExec) (e : Entry) (es : List Entry)
      → Collecting n first job
      → (out : List ℕ) → out ≡ []
      → Releasing n 0 pe e es
      → insert (entry my_i pid) job.waiting ≡ e ∷ es
      → n ≡ suc (length es)
      → SameCpus job.memory pe
      → Good n first (comes_in services n pid (waits my_i pe) (record job { outside = out }))
  unfolding comes_in
  last_waits job pid my_i pe e es h out nobody rel split size same = pinning e es (record {
    releasing =
        subst (λ (r : List (ℕ × Result ℕ)). Releasing n (length r) pe e es) (sym h.no_results) rel;
    waits_for = split;
    nobody = nobody;
    everyone = (let l = ap length h.no_results in omega arith);
    ranked = subst Ranked (sym h.no_results) tt;
    behind = subst (Behind e.pid) (sym h.no_results) tt;
    intact = h.intact;
    cpus = λ _. SameCpus-trans first job.memory pe h.cpus same;
    masked = λ ne. absurd (ne (ap length h.no_results));
  })

  -- Whatever process leaves next, the job is good.
  pub next_leaves :
      (job : Job) (pe : PartExec) (e : Entry) (es : List Entry)
      → job.waiting ≡ es
      → job.outside ≡ []
      → job.corrupted ≡ false
      → length job.results + suc (length es) ≡ n
      → Ranked job.results
      → Behind e.pid job.results
      → Releasing n (length job.results) pe e es
      → (length job.results ≡ 0 → SameCpus first pe)
      → (length job.results ≢ 0 → Masked n first pe)
      → Good n first (leaves e.pid (proceed services e.pid pe) job)
  next_leaves job pe e es wait nobody intact everyone ranked behind rel cpus masked =
      let (pe', runs, left, masks) =
        proceed-Masked services n first tops sets there room described enough (length job.results)
          pe e es rel cpus masked in
      subst (λ d. Good n first (leaves e.pid d job)) (sym runs)
        (unfold leaves in
          leaves-Good n first pe' job e es wait nobody intact everyone ranked behind rel.ascending
            left masks)

  last_goes_on :
      (job : Job) (pid my_i : ℕ) (pe : PartExec) (e : Entry) (es : List Entry)
      → Collecting n first job
      → (out : List ℕ) → out ≡ []
      → Releasing n 0 pe e es
      → e ≡ entry my_i pid
      → es ≡ job.waiting
      → n ≡ suc (length es)
      → SameCpus job.memory pe
      → Good n first (comes_in services n pid (goes_on my_i pe) (record job { outside = out }))
  unfolding comes_in
  last_goes_on job pid my_i pe e es h out nobody rel mine others size same =
      let same_pid : e.pid ≡ pid = ap (λ (x : Entry). x.pid) mine in
      subst (λ k. Good n first (leaves k (proceed services k pe) (record job { outside = out })))
        same_pid
        (next_leaves (record job { outside = out }) pe e es (sym others) nobody h.intact
          (let l = ap length h.no_results in omega arith) (subst Ranked (sym h.no_results) tt)
          (subst (Behind e.pid) (sym h.no_results) tt)
          (subst (λ (r : List (ℕ × Result ℕ)). Releasing n (length r) pe e es) (sym h.no_results)
            rel)
          (λ _. SameCpus-trans first job.memory pe h.cpus same)
          (λ ne. absurd (ne (ap length h.no_results))))

  calls_last :
      (job : Job) (before after : List ℕ) (pid : ℕ)
      → n ≤ max_processes
      → Collecting n first job
      → job.outside ≡ before ++ pid ∷ after
      → suc (length job.waiting) ≡ n
      → Good n first (
          comes_in services n pid
            (arrive n pid job.memory)
            (record job { outside = before ++ after }))
  calls_last job before after pid few h split last =
      let (nz, rest) = NonZero-split before after pid (subst NonZero split h.nonzero) in
      let (my_i, e, es, pe', list, runs, rel, same, own) =
        arrive-Releasing n pid job.memory job.waiting h.gathering nz last few in
      let nobody : before ++ after ≡ [] =
        no_length (before ++ after) (
          let o = outside_less job before after pid split in let all = h.everyone in omega arith) in
      let size : n ≡ suc (length es) =
        sym last ∙ sym (length-insert (entry my_i pid) job.waiting) ∙ ap length list in
      subst
        (λ a. Good n first (comes_in services n pid a (record job { outside = before ++ after })))
        (sym runs)
        (elim (Bool-cases (e.slot == my_i)) [
          | inl mine ↦
              let (x, others) = own (equal_slots e.slot my_i mine) in
              rw mine (
                last_goes_on job pid my_i pe' e es h (before ++ after) nobody rel x others size
                  same)
          | inr other ↦
              rw other
                (last_waits job pid my_i pe' e es h (before ++ after) nobody rel list size same)
        ])

  -- A process that calls `pin_process` while processes are missing.
  pub calls-Good :
      (job : Job) (before after : List ℕ) (pid : ℕ)
      → n ≤ max_processes
      → Collecting n first job
      → job.outside ≡ before ++ pid ∷ after
      → Good n first (
          comes_in services n pid
            (arrive n pid job.memory)
            (record job { outside = before ++ after }))
  calls-Good job before after pid few h split = elim (dec_lt (suc (length job.waiting)) n) [
    | yes more ↦ calls_early services n first job before after pid few h split more
    | no last ↦ calls_last job before after pid few h split (let m = h.missing in omega arith)
  ]
