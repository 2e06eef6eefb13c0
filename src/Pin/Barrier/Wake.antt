-- ===== src/Pin/Barrier/Wake.antt =====
-- The first process of the list is taken out of it and woken.
use mpipin.Base.{ℕ, suc, ◌≡◌, refl, arith, true, false, some, List, [], ◌∷◌, length, ◌∙◌, ap}
use mpipin.Base.Int.{pos}
use mpipin.Pin.{PartExec, ProcessItem, update}
use mpipin.Pin.Queue.{Slots}
use mpipin.Pin.Queue.Chain.{Entry, Unused, Distinct, Chain, Chain-same, SameAt-update}
use mpipin.Pin.Queue.Order.{Ascending}
use mpipin.Pin.Barrier.{wake_at, wake_next}

abbrev pub Asleep : Slots → List Entry → Type 0
Asleep ps [] = Unit {0}
Asleep ps (e ∷ es) = ((ps e.slot).ready ≡ false) × Asleep ps es

-- All `n` have arrived; those before `rank` have left, `awake` has been woken, and `queue` waits.
pub record Releasing (n rank : ℕ) (pe : PartExec) (awake : Entry) (queue : List Entry)
    : Type 0 where
  pub total : pe.nr_processes ≡ pos n
  pub still : pe.nr_processes_left ≡ pos (suc (length queue))
  pub at_rank : pe.process_rank ≡ rank
  pub chain : Chain pe.processes pe.first_process_ind queue
  pub ascending : Ascending (awake ∷ queue)
  pub distinct : Distinct (awake ∷ queue)
  pub woken_pid : (pe.processes awake.slot).pid ≡ awake.pid
  pub woken : (pe.processes awake.slot).ready ≡ true
  pub asleep : Asleep pe.processes queue
  pub in_time : (i : ℕ) → (pe.processes i).timeout ≡ false

-- The memory once the process in slot `i` has been woken.
abbrev pub woken_at : ℕ → PartExec → PartExec
woken_at i pe = record pe {
  first_process_ind = (pe.processes i).next_process_ind;
  processes = update pe.processes i (record (pe.processes i) { ready = true });
}

pub wake_next_first :
    (pe : PartExec) (i : ℕ) → pe.first_process_ind ≡ some i → wake_next pe ≡ some (i, woken_at i pe)
unfolding wake_next wake_at
wake_next_first pe i e = rw e refl

pub update_at : (ps : Slots) (i : ℕ) (x : ProcessItem) → update ps i x i ≡ x
unfolding update
update_at ps i x = ground arith

pub update_in_time :
    (ps : Slots) (i j : ℕ)
    → ((j : ℕ) → (ps j).timeout ≡ false)
    → (update ps i (record (ps i) { ready = true }) j).timeout ≡ false
unfolding update
update_in_time ps i j h = let a = h i in let b = h j in ground arith

Asleep-update :
    (ps : Slots) (i : ℕ) (x : ProcessItem) (es : List Entry)
    → Unused i es
    → Asleep ps es
    → Asleep (update ps i x) es
unfolding update
Asleep-update ps i x [] u h = tt
Asleep-update ps i x (e ∷ es) u h = (ground (arith, u.0, h.0), Asleep-update ps i x es u.1 h.1)

-- All wait, `e` and then `es`, and the counters are set: once `e` is woken, it may leave.
pub woken_at-Releasing :
    (n rank : ℕ) (pe : PartExec) (e : Entry) (es : List Entry)
    → pe.nr_processes ≡ pos n
    → pe.nr_processes_left ≡ pos (suc (length es))
    → pe.process_rank ≡ rank
    → Chain pe.processes pe.first_process_ind (e ∷ es)
    → Ascending (e ∷ es)
    → Distinct (e ∷ es)
    → Asleep pe.processes (e ∷ es)
    → ((j : ℕ) → (pe.processes j).timeout ≡ false)
    → Releasing n rank (woken_at e.slot pe) e es
woken_at-Releasing n rank pe e es total still rank_at c asc d asleep in_time =
    let ps = pe.processes in
    let x : ProcessItem = record (ps e.slot) { ready = true } in
    record {
      total = total;
      still = still;
      at_rank = rank_at;
      chain = Chain-same ps _ _ es (SameAt-update ps e.slot x es d.0) c.2;
      ascending = asc;
      distinct = d;
      woken_pid = ap (λ (p : ProcessItem). p.pid) (update_at ps e.slot x) ∙ c.1;
      woken = ap (λ (p : ProcessItem). p.ready) (update_at ps e.slot x);
      asleep = Asleep-update ps e.slot x es d.0 asleep.1;
      in_time = λ j. update_in_time ps e.slot j in_time;
    }
