-- ===== src/Pin/Queue/Chain.antt =====
-- What the list of processes stands for: the entries in order, as slot and PID.
use mpipin.Base.{ℕ, ◌≡◌, ◌≢◌, arith, Option, none, some, List, [], ◌∷◌, subst, sym}
use mpipin.Pin.{ProcessItem, update}
use mpipin.Pin.Queue.{Slots, set_next}

pub record Entry : Type 0 where
  pub slot : ℕ
  pub pid : ℕ

abbrev pub entry : ℕ → ℕ → Entry
entry slot pid = record { slot = slot; pid = pid }

-- No entry uses the slot.
abbrev pub Unused : ℕ → List Entry → Type 0
Unused i [] = Unit {0}
Unused i (e ∷ es) = (e.slot ≢ i) × Unused i es

-- No two entries use one slot.
abbrev pub Distinct : List Entry → Type 0
Distinct [] = Unit {0}
Distinct (e ∷ es) = Unused e.slot es × Distinct es

-- From `first` the links lead through the slots of the entries, which hold their PIDs.
abbrev pub Chain : Slots → Option ℕ → List Entry → Type 0
Chain ps first [] = first ≡ none
Chain ps first (e ∷ es) =
    (first ≡ some e.slot) × ((ps e.slot).pid ≡ e.pid) × Chain ps (ps e.slot).next_process_ind es

-- Every slot of the entries holds what it held.
abbrev pub SameAt : List Entry → Slots → Slots → Type 0
SameAt [] ps qs = Unit {0}
SameAt (e ∷ es) ps qs = (qs e.slot ≡ ps e.slot) × SameAt es ps qs

pub Chain-same :
    (ps qs : Slots) (first : Option ℕ) (es : List Entry)
    → SameAt es ps qs
    → Chain ps first es
    → Chain qs first es
Chain-same ps qs first [] same c = c
Chain-same ps qs first (e ∷ es) same c = (
  c.0,
  ground (arith, same.0, c.1),
  Chain-same ps qs (qs e.slot).next_process_ind es same.1
      (subst (λ (p : ProcessItem). Chain ps p.next_process_ind es) (sym same.0) c.2),
)

pub SameAt-update :
    (ps : Slots) (i : ℕ) (x : ProcessItem) (es : List Entry)
    → Unused i es
    → SameAt es ps (update ps i x)
unfolding update
SameAt-update ps i x [] h = tt
SameAt-update ps i x (e ∷ es) h = (ground arith, SameAt-update ps i x es h.1)

pub SameAt-set_next :
    (ps : Slots) (i : ℕ) (next : Option ℕ) (es : List Entry)
    → Unused i es
    → SameAt es ps (set_next i next ps)
unfolding set_next
SameAt-set_next ps i next es h = SameAt-update ps i _ es h
