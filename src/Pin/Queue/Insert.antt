-- ===== src/Pin/Queue/Insert.antt =====
-- Adding a process keeps the list a chain, and puts the process at its place by PID.
use mpipin.Base.{
  ℕ, zero, suc, ◌+◌, ◌≤◌, ◌<◌, ◌≡◌, ◌≢◌, refl, arith, true, false, ltb, if◌then◌else◌, Option, none,
  some, List, [], ◌∷◌, length, subst, sym, ◌∙◌, Bool-cases, inl, inr,
}
use mpipin.Pin.{ProcessItem, update, max_processes}
use mpipin.Pin.Queue.{Slots, set_next, walk, link, link_at}
use mpipin.Pin.Queue.Chain.{
  Entry, entry, Unused, Distinct, Chain, SameAt, Chain-same, SameAt-set_next,
}

-- Before the first entry with a greater PID.
unfoldable pub insert : Entry → List Entry → List Entry
insert x [] = x ∷ []
insert x (e ∷ es) = if ltb x.pid e.pid then x ∷ e ∷ es else e ∷ insert x es

-- Slot `my_i` linked in behind slot `q`.
abbrev put_after : (my_i q : ℕ) → Slots → Slots
put_after my_i q ps = set_next q (some my_i) (set_next my_i (ps q).next_process_ind ps)

put_after_other : (my_i q j : ℕ) (ps : Slots) → j ≢ q → j ≢ my_i → put_after my_i q ps j ≡ ps j
unfolding set_next update
put_after_other my_i q j ps a b = ground arith

put_after_at :
    (my_i q : ℕ) (ps : Slots)
    → q ≢ my_i
    → (put_after my_i q ps q ≡ record (ps q) { next_process_ind = some my_i })
      × (put_after my_i q ps my_i ≡ record (ps my_i) { next_process_ind = (ps q).next_process_ind })
unfolding set_next update
put_after_at my_i q ps ne = (ground arith, ground arith)

SameAt-put_after :
    (my_i q : ℕ) (ps : Slots) (es : List Entry)
    → Unused my_i es
    → Unused q es
    → SameAt es ps (put_after my_i q ps)
SameAt-put_after my_i q ps [] h k = tt
SameAt-put_after my_i q ps (e ∷ es) h k =
    (put_after_other my_i q e.slot ps k.0 h.0, SameAt-put_after my_i q ps es h.1 k.1)

-- What linking in behind `q` makes of the list that starts behind slot `p`.
record Linked (ps : Slots) (my_i pid p q : ℕ) (es : List Entry) : Type 0 where
  chain :
      Chain
        (put_after my_i q ps)
        (put_after my_i q ps p).next_process_ind
        (insert (entry my_i pid) es)
  same_pid : (put_after my_i q ps p).pid ≡ (ps p).pid
  others : (j : ℕ) → j ≢ p → j ≢ my_i → Unused j es → put_after my_i q ps j ≡ ps j

walk_at :
    (fuel : ℕ) (ps : Slots) (pid i k : ℕ) (here prev : Option ℕ)
    → here ≡ some i
    → (ps i).pid ≡ k
    → walk (suc fuel) ps pid here prev
      ≡ (if ltb pid k then prev else walk fuel ps pid (ps i).next_process_ind (some i))
unfolding walk
walk_at fuel ps pid i k here prev e f = rw (e, f)

pub insert_before :
    (x e : Entry) (es : List Entry) → ltb x.pid e.pid ≡ true → insert x (e ∷ es) ≡ x ∷ e ∷ es
unfolding insert
insert_before x e es h = rw h

pub insert_behind :
    (x e : Entry) (es : List Entry) → ltb x.pid e.pid ≡ false → insert x (e ∷ es) ≡ e ∷ insert x es
unfolding insert
insert_behind x e es h = rw h

module _ (ps : Slots) (my_i pid : ℕ) (mine : (ps my_i).pid ≡ pid) where
  -- Behind `p` itself: the entry that was next, if any, has a greater PID.
  Linked-here :
      (p : ℕ) (es : List Entry)
      → p ≢ my_i
      → Unused p es
      → Unused my_i es
      → Chain ps (ps p).next_process_ind es
      → insert (entry my_i pid) es ≡ entry my_i pid ∷ es
      → Linked ps my_i pid p p es
  Linked-here p es ne unused unused' c e =
      let (at, at') = put_after_at my_i p ps ne in
      let pid_at : (put_after my_i p ps my_i).pid ≡ pid = ground (arith, at') in
      let rest : Chain (put_after my_i p ps) (ps p).next_process_ind es =
        Chain-same ps _ _ es (SameAt-put_after my_i p ps es unused' unused) c in
      record {
        chain = rw e (
          ground (arith, at),
          pid_at,
          subst (λ (s : ProcessItem). Chain (put_after my_i p ps) s.next_process_ind es) (sym at')
              rest,
        );
        same_pid = ground (arith, at);
        others = λ j a b _. put_after_other my_i p j ps a b;
      }

  -- Behind a later entry: the links up to it stay.
  Linked-further :
      (p q : ℕ) (e : Entry) (es : List Entry)
      → p ≢ my_i
      → Unused p (e ∷ es)
      → Chain ps (ps p).next_process_ind (e ∷ es)
      → ltb pid e.pid ≡ false
      → Linked ps my_i pid e.slot q es
      → Linked ps my_i pid p q (e ∷ es)
  Linked-further p q e es ne unused c behind h =
      let same : put_after my_i q ps p ≡ ps p = h.others p (λ e. unused.0 (sym e)) ne unused.1 in
      record {
        chain =
            rw (insert_behind (entry my_i pid) e es behind)
              (ground (arith, same, c.0), h.same_pid ∙ c.1, h.chain);
        same_pid = ground (arith, same);
        others = λ j a b u. h.others j (λ e. u.0 (sym e)) b u.1;
      }

  walk-Linked :
      (fuel p : ℕ) (es : List Entry)
      → p ≢ my_i
      → Unused p es
      → Distinct es
      → Unused my_i es
      → Chain ps (ps p).next_process_ind es
      → length es < fuel
      → (q : ℕ) × (walk fuel ps pid (ps p).next_process_ind (some p) ≡ some q)
        × Linked ps my_i pid p q es
  walk-Linked zero p es ne unused distinct unused' c enough = absurd (omega arith)
  walk-Linked (suc fuel) p [] ne unused distinct unused' c enough =
      (p, unfold walk in rw c, Linked-here p [] ne unused unused' c (unfold insert in refl))
  walk-Linked (suc fuel) p (e ∷ es) ne unused distinct unused' c enough =
      let step = walk_at fuel ps pid e.slot e.pid (ps p).next_process_ind (some p) c.0 c.1 in
      elim (Bool-cases (ltb pid e.pid)) [
        | inl before ↦ (
          p,
          rw (step, before),
          Linked-here p (e ∷ es) ne unused unused' c (insert_before (entry my_i pid) e es before),
        )
        | inr behind ↦
            let (q, runs, h) =
              walk-Linked fuel e.slot es unused'.0 distinct.0 distinct.1 unused'.1 c.2
                (omega arith) in
            (q, rw (step, behind) runs, Linked-further p q e es ne unused c behind h)
      ]

  Chain-before :
      (first : Option ℕ) (es : List Entry)
      → Unused my_i es
      → Chain ps first es
      → Chain (set_next my_i first ps) (some my_i) (entry my_i pid ∷ es)
  Chain-before first es unused c =
      let at : set_next my_i first ps my_i ≡ record (ps my_i) { next_process_ind = first } =
        unfold set_next update in ground arith in
      (
        refl,
        ground (arith, at),
        subst (λ (s : ProcessItem). Chain (set_next my_i first ps) s.next_process_ind es) (sym at)
            (Chain-same ps _ _ es (SameAt-set_next ps my_i first es unused) c),
      )

  link_result :
      (first : Option ℕ) (f : ℕ) (prev : Option ℕ)
      → first ≡ some f
      → walk (max_processes + 1) ps pid (some f) none ≡ prev
      → (es : List Entry) → Chain (link_at my_i f prev ps).0 (link_at my_i f prev ps).1 es
      → Chain (link my_i pid first ps).0 (link my_i pid first ps).1 es
  unfolding link
  link_result first f prev e runs es c = rw (e, link, runs) c

  -- A process that is added to the list stands in it at its place by PID, and the other entries keep
  -- theirs: for a slot that the list does not use, that holds the PID and no successor, and a list of
  -- at most 1024 entries in different slots.
  pub link-Chain :
      (first : Option ℕ) (es : List Entry)
      → (ps my_i).next_process_ind ≡ none
      → Chain ps first es
      → Distinct es
      → Unused my_i es
      → length es ≤ max_processes
      → Chain (link my_i pid first ps).0 (link my_i pid first ps).1 (insert (entry my_i pid) es)
  link-Chain first [] fresh c distinct unused few = rw c (unfold link insert in (refl, mine, fresh))
  link-Chain first (e ∷ es) fresh c distinct unused few =
      let step = walk_at max_processes ps pid e.slot e.pid (some e.slot) none refl c.1 in
      elim (Bool-cases (ltb pid e.pid)) [
        | inl before ↦
            link_result first e.slot none c.0 (step ∙ rw before refl)
              (insert (entry my_i pid) (e ∷ es))
              (rw (insert_before (entry my_i pid) e es before)
                (unfold link_at in Chain-before (some e.slot) (e ∷ es) unused (refl, c.1, c.2)))
        | inr behind ↦
            let (q, runs, h) =
              walk-Linked max_processes e.slot es unused.0 distinct.0 distinct.1 unused.1 c.2
                (omega arith) in
            link_result first e.slot (some q) c.0 (step ∙ rw behind runs)
              (insert (entry my_i pid) (e ∷ es))
              (rw (insert_behind (entry my_i pid) e es behind)
                (unfold link_at in (refl, h.same_pid ∙ c.1, h.chain)))
      ]
