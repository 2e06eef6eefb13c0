-- ===== src/Pin/Barrier/Arrive.antt =====
-- What becomes of a process that arrives.
use mpipin.Base.{
  ℕ, suc, ◌-◌, ◌≤◌, ◌<◌, ◌≡◌, ◌≢◌, refl, arith, false, ◌==◌, if◌then◌else◌, some, List, [], ◌∷◌,
  length, sym, ◌∙◌, ap, subst, ltb, Bool-cases, inl, inr,
}
use mpipin.Base.Int.{pos, minus_one, ◌==ℤ◌}
use mpipin.Base.Errno.{einval}
use mpipin.Pin.{PartExec, max_processes}
use mpipin.Pin.Queue.{Slots}
use mpipin.Pin.Queue.Chain.{Entry, entry, Unused}
use mpipin.Pin.Queue.Insert.{insert, insert_before, insert_behind}
use mpipin.Pin.Queue.Order.{length-insert}
use mpipin.Pin.Queue.Slot.{find_slot-at_most}
use mpipin.Pin.Barrier.{refused, waits, goes_on, start, join, wake_next, woke, gather, arrive}
use mpipin.Pin.Barrier.Gather.{
  Queued, Gathering, Queued-Gathering, joined, pos_equal, pos_differ, start_old, Unused-empty,
  arrive_step, join-Queued,
}
use mpipin.Pin.Barrier.Wake.{Asleep, Releasing, woken_at, wake_next_first, woken_at-Releasing}

gather_early :
    (my_i n k : ℕ) (pe : PartExec)
    → pe.nr_processes_left ≡ pos (n - k)
    → k < n
    → gather my_i pe ≡ waits my_i pe
unfolding gather
gather_early my_i n k pe e lt = rw (e, pos_differ (n - k) 0 (λ z. omega arith)) refl

gather_last :
    (my_i n : ℕ) (pe : PartExec)
    → pe.nr_processes_left ≡ pos n
    → n ≡ 0
    → gather my_i pe ≡ woke my_i (wake_next pe)
unfolding gather
gather_last my_i n pe e z = rw (e, z, pos_equal 0) refl

-- The CPUs that are there, how many each process is to get, and how many are still to enter.
pub record SameCpus (pe pe' : PartExec) : Type 0 where
  pub same_available : pe'.cpus_available ≡ pe.cpus_available
  pub same_to_assign : pe'.cpus_to_assign ≡ pe.cpus_to_assign
  pub same_to_enter : pe'.nr_processes_left_in_init ≡ pe.nr_processes_left_in_init

joined-SameCpus : (n my_i pid : ℕ) (pe : PartExec) → SameCpus pe (joined my_i pid (start n pe))
unfolding join start
joined-SameCpus n my_i pid pe = elim (Bool-cases (pe.nr_processes ==ℤ minus_one)) [
  | inl new ↦ rw new (record { same_available = refl; same_to_assign = refl; same_to_enter = refl })
  | inr old ↦ rw old (record { same_available = refl; same_to_assign = refl; same_to_enter = refl })
]

-- While others are missing, a process that arrives waits in the list, at its place by PID: for a PID
-- that is not 0 and at most 1024 processes.
pub arrive-Gathering :
    (n pid : ℕ) (pe : PartExec) (q : List Entry)
    → Gathering n pe q
    → pid ≢ 0
    → suc (length q) < n
    → n ≤ max_processes
    → (my_i : ℕ) × (pe' : PartExec) × (arrive n pid pe ≡ waits my_i pe')
      × Gathering n pe' (insert (entry my_i pid) q)
      × SameCpus pe pe'
arrive-Gathering n pid pe q h nz more few =
    let (my_i, finds, low, empty) =
      find_slot-at_most (start n pe).processes (length q) (omega arith)
        (h.free (length q) (omega arith)) in
    let queued = join-Queued n my_i pid (start n pe) q h nz empty low (omega arith) few in
    (
      my_i,
      joined my_i pid (start n pe),
      arrive_step n pid my_i pe h.total finds
          ∙ gather_early my_i n (length (insert (entry my_i pid) q)) _ queued.still
              (let l = length-insert (entry my_i pid) q in omega arith),
      Queued-Gathering n _ _ queued,
      joined-SameCpus n my_i pid pe,
    )

-- The list once a process has joined it is not empty.
insert_cons : (x : Entry) (q : List Entry) → (e : Entry) × (es : List Entry) × (insert x q ≡ e ∷ es)
unfolding insert
insert_cons x [] = (x, [], refl)
insert_cons x (e ∷ es) = elim (Bool-cases (ltb x.pid e.pid)) [
  | inl before ↦ (x, e ∷ es, rw before refl)
  | inr behind ↦ (e, insert x es, rw behind refl)
]

uncons : (x y : Entry) (xs ys : List Entry) → x ∷ xs ≡ y ∷ ys → (x ≡ y) × (xs ≡ ys)
uncons x y xs ys e = (ground arith, ground arith)

-- Where the slot at the head of the list is the new one, the rest is what was there.
insert_first :
    (x : Entry) (q : List Entry) (e : Entry) (es : List Entry)
    → Unused x.slot q
    → insert x q ≡ e ∷ es
    → e.slot ≡ x.slot
    → (e ≡ x) × (es ≡ q)
unfolding insert
insert_first x [] e es u split same = let (a, b) = uncons _ _ _ _ split in (sym a, sym b)
insert_first x (y ∷ ys) e es u split same = elim (Bool-cases (ltb x.pid y.pid)) [
  | inl before ↦
      let (a, b) = uncons x e (y ∷ ys) es (sym (insert_before x y ys before) ∙ split) in
      (sym a, sym b)
  | inr behind ↦ absurd (
      u.0 (
        ap (λ (z : Entry). z.slot)
          (uncons y e (insert x ys) es (sym (insert_behind x y ys behind) ∙ split)).0
        ∙ same))
]

Queued-Asleep : (ps : Slots) (q : List Entry) → ((i : ℕ) → (ps i).ready ≡ false) → Asleep ps q
Queued-Asleep ps [] h = tt
Queued-Asleep ps (e ∷ es) h = (h e.slot, Queued-Asleep ps es h)

-- The memory once the last process has woken the one in slot `i`.
abbrev reset_at : ℕ → PartExec → PartExec
reset_at i pe = woken_at i (record pe { nr_processes_left = pe.nr_processes; process_rank = 0 })

woke_first :
    (my_i i : ℕ) (pe : PartExec)
    → pe.first_process_ind ≡ some i
    → woke my_i (wake_next pe)
      ≡ (if i == my_i then goes_on my_i (reset_at i pe) else waits my_i (reset_at i pe))
unfolding woke
woke_first my_i i pe e = rw (wake_next_first pe i e) refl

-- All of the list wait, and the first is woken.
reset_at-Releasing :
    (n : ℕ) (pe : PartExec) (e : Entry) (es : List Entry)
    → Queued n pe (e ∷ es)
    → n ≡ suc (length es)
    → Releasing n 0 (reset_at e.slot pe) e es
reset_at-Releasing n pe e es h size =
    woken_at-Releasing n 0 (record pe { nr_processes_left = pe.nr_processes; process_rank = 0 }) e
      es h.total (h.total ∙ ap pos size) refl h.chain h.ascending h.distinct
      (Queued-Asleep pe.processes (e ∷ es) h.asleep) h.in_time

-- The last of the processes to arrive joins the list and wakes its first, with the rank counter at 0:
-- it goes on itself where it is the first, and else waits. For a PID that is not 0 and at most 1024
-- processes.
pub arrive-Releasing :
    (n pid : ℕ) (pe : PartExec) (q : List Entry)
    → Gathering n pe q
    → pid ≢ 0
    → suc (length q) ≡ n
    → n ≤ max_processes
    → (my_i : ℕ) × (e : Entry) × (es : List Entry) × (pe' : PartExec) × (insert (entry my_i pid) q
        ≡ e ∷ es)
      × (arrive n pid pe ≡ (if e.slot == my_i then goes_on my_i pe' else waits my_i pe'))
      × Releasing n 0 pe' e es
      × SameCpus pe pe'
      × (e.slot ≡ my_i → (e ≡ entry my_i pid) × (es ≡ q))
arrive-Releasing n pid pe q h nz last few =
    let (my_i, finds, low, empty) =
      find_slot-at_most (start n pe).processes (length q) (omega arith)
        (h.free (length q) (omega arith)) in
    let (e, es, splits) = insert_cons (entry my_i pid) q in
    let all_in : PartExec = joined my_i pid (start n pe) in
    let queued : Queued n all_in (e ∷ es) =
      subst (Queued n all_in) splits
        (join-Queued n my_i pid (start n pe) q h nz empty low (omega arith) few) in
    let size : n ≡ suc (length es) =
      sym last ∙ sym (length-insert (entry my_i pid) q) ∙ ap length splits in
    (
      my_i,
      e,
      es,
      reset_at e.slot all_in,
      splits,
      arrive_step n pid my_i pe h.total finds
          ∙ gather_last my_i (n - length (e ∷ es)) all_in queued.still (omega arith)
          ∙ woke_first my_i e.slot all_in queued.chain.0,
      reset_at-Releasing n all_in e es queued size,
      (let c = joined-SameCpus n my_i pid pe in
          record {
            same_available = c.same_available;
            same_to_assign = c.same_to_assign;
            same_to_enter = c.same_to_enter;
          }),
      λ same.
          insert_first (entry my_i pid) q e es
            (Unused-empty (start n pe).processes (start n pe).first_process_ind my_i q h.chain
              h.positive empty)
            splits same,
    )

-- A process that asks for another number of processes than the first is refused, and changes nothing.
pub arrive_other :
    (n m pid : ℕ) (pe : PartExec)
    → pe.nr_processes ≡ pos n
    → m ≢ n
    → arrive m pid pe ≡ refused einval pe
unfolding arrive
arrive_other n m pid pe e ne =
    rw (start_old m n pe e, e, pos_differ n m (λ same. ne (sym same))) refl
