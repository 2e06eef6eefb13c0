-- ===== src/Pin/Barrier/Abort.antt =====
-- A process that times out empties the list and wakes all others with a time-out.
use mpipin.Base.{
  ℕ, zero, suc, ◌+◌, ◌≤◌, ◌<◌, ◌≡◌, ◌≢◌, refl, arith, true, ◌==◌, if◌then◌else◌, Option, none, some,
  List, [], ◌∷◌, length, ◌∙◌, ap, Bool-cases, inl, inr,
}
use mpipin.Base.Int.{minus_one}
use mpipin.Base.Errno.{err, etimedout}
use mpipin.Pin.{PartExec, ProcessItem, update, max_processes}
use mpipin.Pin.Queue.{Slots}
use mpipin.Pin.Queue.Chain.{Entry, Unused, Distinct, Chain, Chain-same, SameAt-update}
use mpipin.Pin.Barrier.{Services, returns, wake_all, abort_all, resume}

-- The entries other than that of `pid` are ready and have a time-out.
abbrev pub TimedOut : ℕ → Slots → List Entry → Type 0
TimedOut pid qs [] = Unit {0}
TimedOut pid qs (e ∷ es) =
    (e.pid ≢ pid → ((qs e.slot).ready ≡ true) × ((qs e.slot).timeout ≡ true)) × TimedOut pid qs es

-- The memory after an entry has been looked at.
abbrev told : (pid : ℕ) → Entry → Slots → Slots
told pid e ps =
    if (ps e.slot).pid == pid
    then ps
    else update ps e.slot (record (ps e.slot) { ready = true; timeout = true })

told-Chain :
    (pid : ℕ) (e : Entry) (ps : Slots) (first : Option ℕ) (es : List Entry)
    → Unused e.slot es
    → Chain ps first es
    → Chain (told pid e ps) first es
told-Chain pid e ps first es u c = elim (Bool-cases ((ps e.slot).pid == pid)) [
  | inl mine ↦ rw mine c
  | inr other ↦ rw other (Chain-same ps _ first es (SameAt-update ps e.slot _ es u) c)
]

told_at :
    (pid : ℕ) (e : Entry) (ps : Slots)
    → (ps e.slot).pid ≡ e.pid
    → e.pid ≢ pid
    → ((told pid e ps e.slot).ready ≡ true) × ((told pid e ps e.slot).timeout ≡ true)
unfolding update
told_at pid e ps same ne = (ground arith, ground arith)

told_elsewhere : (pid : ℕ) (e : Entry) (ps : Slots) (j : ℕ) → e.slot ≢ j → told pid e ps j ≡ ps j
unfolding update
told_elsewhere pid e ps j ne = ground arith

record Woken (pid : ℕ) (ps qs : Slots) (es : List Entry) : Type 0 where
  timed_out : TimedOut pid qs es
  others : (j : ℕ) → Unused j es → qs j ≡ ps j

wake_step :
    (fuel pid i : ℕ) (first : Option ℕ) (ps : Slots)
    → first ≡ some i
    → wake_all (suc fuel) pid first ps
      ≡ wake_all fuel pid (ps i).next_process_ind (
          if (ps i).pid == pid
          then ps
          else update ps i (record (ps i) { ready = true; timeout = true }))
unfolding wake_all
wake_step fuel pid i first ps e = rw e refl

wake_all-Woken :
    (fuel pid : ℕ) (first : Option ℕ) (ps : Slots) (es : List Entry)
    → Chain ps first es
    → Distinct es
    → length es < fuel
    → (qs : Slots) × (wake_all fuel pid first ps ≡ (qs, none)) × Woken pid ps qs es
wake_all-Woken zero pid first ps es c d enough = absurd (omega arith)
wake_all-Woken (suc fuel) pid first ps [] c d enough =
    (ps, rw c (unfold wake_all in refl), record { timed_out = tt; others = λ j _. refl })
wake_all-Woken (suc fuel) pid first ps (e ∷ es) c d enough =
    let (qs, runs, w) =
      wake_all-Woken fuel pid (ps e.slot).next_process_ind (told pid e ps) es
        (told-Chain pid e ps _ es d.0 c.2) d.1 (omega arith) in
    (
      qs,
      wake_step fuel pid e.slot first ps c.0 ∙ runs,
      record {
        timed_out = (
          λ ne.
              let (a, b) = told_at pid e ps c.1 ne in
              let at = w.others e.slot d.0 in
              (
                ap (λ (p : ProcessItem). p.ready) at ∙ a,
                ap (λ (p : ProcessItem). p.timeout) at ∙ b,
              ),
          w.timed_out,
        );
        others = λ j u. w.others j u.1 ∙ told_elsewhere pid e ps j u.0;
      },
    )

-- What a time-out leaves: no list, the state of a memory that no job uses, every other process of the
-- list woken with a time-out, and the slots outside the list as they were.
pub record Aborted (pid : ℕ) (before after : PartExec) (es : List Entry) : Type 0 where
  pub no_list : after.first_process_ind ≡ none
  pub unset : after.nr_processes ≡ minus_one
  pub timed_out : TimedOut pid after.processes es
  pub others : (j : ℕ) → Unused j es → after.processes j ≡ before.processes j

abort_step :
    (pid : ℕ) (pe : PartExec) (qs : Slots)
    → wake_all (max_processes + 1) pid pe.first_process_ind pe.processes ≡ (qs, none)
    → abort_all pid pe
      ≡ record pe { processes = qs; first_process_ind = none; nr_processes = minus_one }
unfolding abort_all
abort_step pid pe qs e = rw e refl

-- A process that times out in its wait returns -ETIMEDOUT, and leaves no list and the state of a memory
-- that no job uses; every other process of the list is woken with a time-out: for a list of at most
-- 1024 processes in different slots.
pub resume-Aborted :
    (services : Services) (pid my_i : ℕ) (pe : PartExec) (es : List Entry)
    → Chain pe.processes pe.first_process_ind es
    → Distinct es
    → length es ≤ max_processes
    → (pe' : PartExec) × (resume services pid my_i true pe ≡ returns (err etimedout) pe')
      × Aborted pid pe pe' es
unfolding resume
resume-Aborted services pid my_i pe es c d few =
    let (qs, runs, w) =
      wake_all-Woken (max_processes + 1) pid pe.first_process_ind pe.processes es c d
        (omega arith) in
    (
      record pe { processes = qs; first_process_ind = none; nr_processes = minus_one },
      ap (returns (err etimedout)) (abort_step pid pe qs runs),
      record { no_list = refl; unset = refl; timed_out = w.timed_out; others = w.others },
    )
