-- ===== src/Pin/Barrier/Gather.antt =====
-- The first half of `pin_process`: the processes gather in the list, and the last one to arrive wakes
-- the first of the list.
use mpipin.Base.{
  ℕ, suc, ◌-◌, ◌≤◌, ◌<◌, ◌≡◌, ◌≢◌, refl, arith, true, false, Option, some, List, [], ◌∷◌, length,
  sym, ◌∙◌, ap, subst, Bool-cases, inl, inr, ltb,
}
use mpipin.Base.Int.{pos, dec, ◌==ℤ◌}
use mpipin.Pin.{PartExec, update, max_processes}
use mpipin.Pin.Queue.{Slots, find_slot, fill_slot}
use mpipin.Pin.Queue.Chain.{Entry, entry, Unused, Distinct, Chain, Chain-same, SameAt-update}
use mpipin.Pin.Queue.Insert.{insert, link-Chain}
use mpipin.Pin.Queue.Order.{Ascending, insert-Ascending, Distinct-insert, length-insert}
use mpipin.Pin.Queue.Slot.{SameFields, link-SameFields}
use mpipin.Pin.Barrier.{start, join, gather, arrive_at, arrive}

-- No process of the list has PID 0.
abbrev pub Positive : List Entry → Type 0
Positive [] = Unit {0}
Positive (e ∷ es) = (e.pid ≢ 0) × Positive es

-- Of `n` processes those in `queue` have arrived, the first of them having set the counters.
pub record Queued (n : ℕ) (pe : PartExec) (queue : List Entry) : Type 0 where
  pub total : pe.nr_processes ≡ pos n
  pub still : pe.nr_processes_left ≡ pos (n - length queue)
  pub chain : Chain pe.processes pe.first_process_ind queue
  pub ascending : Ascending queue
  pub distinct : Distinct queue
  pub positive : Positive queue
  pub free : (i : ℕ) → length queue ≤ i → (pe.processes i).pid ≡ 0
  pub asleep : (i : ℕ) → (pe.processes i).ready ≡ false
  pub in_time : (i : ℕ) → (pe.processes i).timeout ≡ false

-- The same, with the counters as the next process would set them: of a memory just initialised, too.
abbrev pub Gathering : ℕ → PartExec → List Entry → Type 0
Gathering n pe queue = Queued n (start n pe) queue

pub Unused-empty :
    (ps : Slots) (first : Option ℕ) (i : ℕ) (es : List Entry)
    → Chain ps first es
    → Positive es
    → (ps i).pid ≡ 0
    → Unused i es
Unused-empty ps first i [] c h e = tt
Unused-empty ps first i (x ∷ es) c h e =
    (λ same. h.0 (sym c.1 ∙ ap (λ j. (ps j).pid) same ∙ e), Unused-empty ps _ i es c.2 h.1 e)

-- Filling an empty slot leaves the chain.
fill_slot-Chain :
    (ps : Slots) (first : Option ℕ) (i pid : ℕ) (es : List Entry)
    → Unused i es
    → Chain ps first es
    → Chain (fill_slot i pid ps) first es
unfolding fill_slot
fill_slot-Chain ps first i pid es h c = Chain-same ps _ first es (SameAt-update ps i _ es h) c

-- The queue after a process has joined in slot `my_i`.
join-Chain :
    (pe : PartExec) (my_i pid : ℕ) (es : List Entry)
    → Chain pe.processes pe.first_process_ind es
    → Distinct es
    → Unused my_i es
    → length es ≤ max_processes
    → Chain
        (join my_i pid pe).processes
        (join my_i pid pe).first_process_ind
        (insert (entry my_i pid) es)
unfolding join fill_slot update
join-Chain pe my_i pid es c d u few =
    link-Chain (fill_slot my_i pid pe.processes) my_i pid (ground arith) pe.first_process_ind es
      (ground arith) (fill_slot-Chain pe.processes pe.first_process_ind my_i pid es u c) d u few

-- The processes of the list are those that were there and the new one, in a slot that was empty.
Positive-insert : (x : Entry) (es : List Entry) → x.pid ≢ 0 → Positive es → Positive (insert x es)
unfolding insert
Positive-insert x [] h p = (h, tt)
Positive-insert x (e ∷ es) h p = elim (Bool-cases (ltb x.pid e.pid)) [
  | inl before ↦ rw before (h, p)
  | inr behind ↦ rw behind (p.0, Positive-insert x es h p.1)
]

-- A slot after the joining: the new process's, or as it was but for its successor.
join-slot :
    (pe : PartExec) (my_i pid j : ℕ)
    → SameFields (fill_slot my_i pid pe.processes j) ((join my_i pid pe).processes j)
unfolding join
join-slot pe my_i pid j = link-SameFields my_i pid pe.first_process_ind _ j

-- `join` with the counter that the arriving process takes.
abbrev pub joined : (my_i pid : ℕ) → PartExec → PartExec
joined my_i pid pe = join my_i pid (record pe { nr_processes_left = dec pe.nr_processes_left })

pub pos_equal : (n : ℕ) → (pos n ==ℤ pos n) ≡ true
unfolding ◌==ℤ◌
pos_equal n = ground arith

pub pos_differ : (m n : ℕ) → m ≢ n → (pos m ==ℤ pos n) ≡ false
unfolding ◌==ℤ◌
pos_differ m n ne = ground arith

pub arrive_step :
    (n pid my_i : ℕ) (pe : PartExec)
    → (start n pe).nr_processes ≡ pos n
    → find_slot (start n pe).processes ≡ some my_i
    → arrive n pid pe ≡ gather my_i (joined my_i pid (start n pe))
unfolding arrive arrive_at
arrive_step n pid my_i pe e f = rw (e, f, pos_equal n) refl

pub start_old : (n k : ℕ) (pe : PartExec) → pe.nr_processes ≡ pos k → start n pe ≡ pe
unfolding start ◌==ℤ◌
start_old n k pe e = rw e refl

pub Queued-Gathering : (n : ℕ) (pe : PartExec) (q : List Entry) → Queued n pe q → Gathering n pe q
Queued-Gathering n pe q h = subst (λ p. Queued n p q) (sym (start_old n n pe h.total)) h

pub dec_pos : (k : ℕ) → dec (pos (suc k)) ≡ pos k
unfolding dec
dec_pos k = refl

fill_slot-asleep :
    (ps : Slots) (my_i pid i : ℕ) → (ps i).ready ≡ false → (fill_slot my_i pid ps i).ready ≡ false
unfolding fill_slot update
fill_slot-asleep ps my_i pid i h = ground arith

fill_slot-in_time :
    (ps : Slots) (my_i pid i : ℕ)
    → (ps i).timeout ≡ false
    → (fill_slot my_i pid ps i).timeout ≡ false
unfolding fill_slot update
fill_slot-in_time ps my_i pid i h = ground arith

fill_slot-free :
    (ps : Slots) (my_i pid i : ℕ) → my_i < i → (ps i).pid ≡ 0 → (fill_slot my_i pid ps i).pid ≡ 0
unfolding fill_slot update
fill_slot-free ps my_i pid i lt h = ground arith

join-left :
    (pe : PartExec) (my_i pid n k : ℕ)
    → pe.nr_processes_left ≡ pos (n - k)
    → k < n
    → (joined my_i pid pe).nr_processes_left ≡ pos (n - suc k)
unfolding join
join-left pe my_i pid n k h lt =
    let one_more : n - k ≡ suc (n - suc k) = omega arith in rw (h, one_more) (dec_pos (n - suc k))

pub join-Queued :
    (n my_i pid : ℕ) (pe : PartExec) (q : List Entry)
    → Queued n pe q
    → pid ≢ 0
    → (pe.processes my_i).pid ≡ 0
    → my_i ≤ length q
    → length q < n
    → n ≤ max_processes
    → Queued n (joined my_i pid pe) (insert (entry my_i pid) q)
join-Queued n my_i pid pe q h nz empty low lt few =
    let unused = Unused-empty pe.processes pe.first_process_ind my_i q h.chain h.positive empty in
    record {
      total = unfold join in h.total;
      still =
          subst (λ k. (joined my_i pid pe).nr_processes_left ≡ pos (n - k))
            (sym (length-insert (entry my_i pid) q))
            (join-left pe my_i pid n (length q) h.still lt);
      chain = join-Chain _ my_i pid q h.chain h.distinct unused (omega arith);
      ascending = insert-Ascending (entry my_i pid) q h.ascending;
      distinct = Distinct-insert (entry my_i pid) q unused h.distinct;
      positive = Positive-insert (entry my_i pid) q nz h.positive;
      free = λ i far.
          (join-slot _ my_i pid i).same_pid
          ∙ fill_slot-free pe.processes my_i pid i
              (let l = length-insert (entry my_i pid) q in omega arith)
              (h.free i (let l = length-insert (entry my_i pid) q in omega arith));
      asleep = λ i.
          (join-slot _ my_i pid i).same_ready
          ∙ fill_slot-asleep pe.processes my_i pid i (h.asleep i);
      in_time = λ i.
          (join-slot _ my_i pid i).same_timeout
          ∙ fill_slot-in_time pe.processes my_i pid i (h.in_time i);
    }
