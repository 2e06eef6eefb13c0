-- ===== src/Pin/Queue/Slot.antt =====
-- The search for an empty slot, and what linking in a slot leaves alone.
use mpipin.Base.{
  ℕ, zero, suc, ◌+◌, ◌≤◌, ◌<◌, ◌≡◌, ◌≢◌, refl, arith, ◌==◌, Option, none, some, Bool-cases, inl,
  inr, ◌∙◌, dec_lt, subst, true, false,
}
use mpipin.Pin.{ProcessItem, update, max_processes}
use mpipin.Pin.Queue.{Slots, find_slot_from, find_slot, set_next, link, link_at}

==→≡ : (a b : ℕ) → (a == b) ≡ true → a ≡ b
==→≡ a b h = ground arith

==-false : (a b : ℕ) → (a == b) ≡ false → a ≢ b
==-false a b h = ground arith

-- What `find_slot` returns: the first slot without a PID, or nothing where each has one.
pub data Found (ps : Slots) (lo hi : ℕ) : Option ℕ → Type 0 where
  found_at :
      (i : ℕ)
      → lo ≤ i
      → i < hi
      → (ps i).pid ≡ 0
      → ((j : ℕ) → lo ≤ j → j < i → (ps j).pid ≢ 0)
      → Found ps lo hi (some i)
  all_used : ((j : ℕ) → lo ≤ j → j < hi → (ps j).pid ≢ 0) → Found ps lo hi none

-- A property of `lo` and of all above it.
from_here : (P : ℕ → Type 0) (lo j : ℕ) → P lo → (lo + 1 ≤ j → P j) → lo ≤ j → P j
from_here P lo j here above h = elim (dec_lt lo j) [
  | yes lt ↦ above (omega arith)
  | no ge ↦ let same : lo ≡ j = omega arith in subst P same here
]

Found-later :
    (ps : Slots) (lo hi : ℕ) (r : Option ℕ)
    → (ps lo).pid ≢ 0
    → Found ps (lo + 1) hi r
    → Found ps lo hi r
Found-later ps lo hi _ ne (found_at i a b e f) =
    found_at i (omega arith) b e
      (λ j c d. from_here (λ j. (ps j).pid ≢ 0) lo j ne (λ c'. f j c' d) c)
Found-later ps lo hi _ ne (all_used f) =
    all_used (λ j c d. from_here (λ j. (ps j).pid ≢ 0) lo j ne (λ c'. f j c' d) c)

find_slot_from-Found :
    (left i hi : ℕ) (ps : Slots) → i + left ≡ hi → Found ps i hi (find_slot_from left i ps)
unfolding find_slot_from
find_slot_from-Found zero i hi ps e = all_used (λ j c d. absurd (omega arith))
find_slot_from-Found (suc left) i hi ps e = elim (Bool-cases ((ps i).pid == 0)) [
  | inl here ↦ rw here (
      found_at i (omega arith) (omega arith) (==→≡ (ps i).pid 0 here)
        (λ j c d. absurd (omega arith)))
  | inr further ↦ rw further (
      Found-later ps i hi _ (==-false (ps i).pid 0 further)
        (find_slot_from-Found left (i + 1) hi ps (omega arith)))
]

-- `find_slot` returns the first of the 1024 slots without a PID, or none where each has one.
pub find_slot-Found : (ps : Slots) → Found ps 0 max_processes (find_slot ps)
unfolding find_slot
find_slot-Found ps = find_slot_from-Found max_processes 0 max_processes ps refl

find_slot_le :
    (ps : Slots) (k : ℕ) (r : Option ℕ)
    → k < max_processes
    → (ps k).pid ≡ 0
    → Found ps 0 max_processes r
    → (i : ℕ) × (r ≡ some i) × (i ≤ k) × ((ps i).pid ≡ 0)
find_slot_le ps k _ h e (found_at i a b e' f) = (
  i,
  refl,
  elim (dec_lt k i) [ yes lt ↦ absurd (f k (omega arith) lt e) | no ge ↦ omega arith ],
  e',
)
find_slot_le ps k _ h e (all_used f) = absurd (f k (omega arith) h e)

-- Where slot `k` is empty, one at or below it is found.
pub find_slot-at_most :
    (ps : Slots) (k : ℕ)
    → k < max_processes
    → (ps k).pid ≡ 0
    → (i : ℕ) × (find_slot ps ≡ some i) × (i ≤ k) × ((ps i).pid ≡ 0)
find_slot-at_most ps k h e = find_slot_le ps k _ h e (find_slot-Found ps)

-- The fields that linking leaves alone.
pub record SameFields (p q : ProcessItem) : Type 0 where
  pub same_pid : q.pid ≡ p.pid
  pub same_ready : q.ready ≡ p.ready
  pub same_timeout : q.timeout ≡ p.timeout

set_next-SameFields :
    (i : ℕ) (next : Option ℕ) (ps : Slots) (j : ℕ) → SameFields (ps j) (set_next i next ps j)
unfolding set_next update
set_next-SameFields i next ps j = record {
  same_pid = ground arith;
  same_ready = ground arith;
  same_timeout = ground arith;
}

SameFields-trans : (p q r : ProcessItem) → SameFields p q → SameFields q r → SameFields p r
SameFields-trans p q r h k = record {
  same_pid = k.same_pid ∙ h.same_pid;
  same_ready = k.same_ready ∙ h.same_ready;
  same_timeout = k.same_timeout ∙ h.same_timeout;
}

link_at-SameFields :
    (my_i first : ℕ) (prev : Option ℕ) (ps : Slots) (j : ℕ)
    → SameFields (ps j) ((link_at my_i first prev ps).0 j)
unfolding link_at
link_at-SameFields my_i first none ps j = set_next-SameFields my_i (some first) ps j
link_at-SameFields my_i first (some q) ps j =
    SameFields-trans _ _ _ (set_next-SameFields my_i (ps q).next_process_ind ps j)
      (set_next-SameFields q (some my_i) _ j)

pub link-SameFields :
    (my_i pid : ℕ) (first : Option ℕ) (ps : Slots) (j : ℕ)
    → SameFields (ps j) ((link my_i pid first ps).0 j)
unfolding link
link-SameFields my_i pid none ps j = record {
  same_pid = refl;
  same_ready = refl;
  same_timeout = refl;
}
link-SameFields my_i pid (some first) ps j = link_at-SameFields my_i first _ ps j
