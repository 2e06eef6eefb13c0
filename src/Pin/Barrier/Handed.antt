-- ===== src/Pin/Barrier/Handed.antt =====
-- What the process that leaves hands over to the next one, or resets.
use mpipin.Base.{
  ℕ, suc, ◌+◌, ◌≡◌, refl, arith, if◌then◌else◌, some, List, [], ◌∷◌, length, sym, ◌∙◌, ap, subst,
}
use mpipin.Base.Int.{pos, ◌==ℤ◌, dec, minus_one}
use mpipin.CpuSet.{empty_set}
use mpipin.Pin.{PartExec}
use mpipin.Pin.Queue.{Slots}
use mpipin.Pin.Queue.Chain.{Entry, Chain}
use mpipin.Pin.Partition.Kept.{Kept}
use mpipin.Pin.Barrier.{wake_next, memory_of, hand_over}
use mpipin.Pin.Barrier.Gather.{pos_equal, pos_differ, dec_pos}
use mpipin.Pin.Barrier.Wake.{Asleep, Releasing, woken_at, wake_next_first, woken_at-Releasing}

-- What the process of rank `rank` leaves behind: the next one woken, or the memory reset.
abbrev pub Left : (n rank : ℕ) → PartExec → List Entry → Type 0
Left n rank pe [] = pe.nr_processes ≡ minus_one
Left n rank pe (e ∷ es) = Releasing n (suc rank) pe e es

abbrev pub counted : PartExec → PartExec
counted pe = record pe { nr_processes_left = dec pe.nr_processes_left }

abbrev pub gone : PartExec → PartExec
gone pe = record pe { process_rank = pe.process_rank + 1 }

abbrev reset : PartExec → PartExec
reset pe = record pe { nr_processes = minus_one; cpus_available = empty_set }

hand_over_last : (pe : PartExec) → pe.nr_processes_left ≡ pos 0 → hand_over pe ≡ some (reset pe)
unfolding hand_over
hand_over_last pe e = rw (e, pos_equal 0) refl

hand_over_next :
    (pe : PartExec) (k i : ℕ)
    → pe.nr_processes_left ≡ pos (suc k)
    → pe.first_process_ind ≡ some i
    → hand_over pe ≡ some (woken_at i pe)
unfolding hand_over memory_of
hand_over_next pe k i e f =
    ap (λ b. if b then some (reset pe) else memory_of (wake_next pe))
      (ap (λ z. z ==ℤ pos 0) e ∙ pos_differ (suc k) 0 (λ z. omega arith))
    ∙ ap memory_of (wake_next_first pe i f)

-- What `hand_over` makes of the memory, by the processes that still wait.
abbrev pub handed : List Entry → PartExec → PartExec
handed [] pe = reset pe
handed (e ∷ es) pe = woken_at e.slot pe

pub hand_over-handed :
    (pe : PartExec) (es : List Entry)
    → pe.nr_processes_left ≡ pos (length es)
    → Chain pe.processes pe.first_process_ind es
    → hand_over pe ≡ some (handed es pe)
hand_over-handed pe [] still c = hand_over_last pe still
hand_over-handed pe (e ∷ es) still c = hand_over_next pe (length es) e.slot still c.0

pub handed_rank : (pe : PartExec) (es : List Entry) → (handed es pe).process_rank ≡ pe.process_rank
handed_rank pe [] = refl
handed_rank pe (e ∷ es) = refl

pub handed_masks : (pe : PartExec) (es : List Entry) → (handed es pe).affinities ≡ pe.affinities
handed_masks pe [] = refl
handed_masks pe (e ∷ es) = refl

pub Kept-still :
    (pe p : PartExec) (k : ℕ)
    → pe.nr_processes_left ≡ pos (suc k)
    → Kept (counted pe) p
    → p.nr_processes_left ≡ pos k
Kept-still pe p k e h = h.same_left ∙ ap dec e ∙ dec_pos k

pub Kept-Chain :
    (pe p : PartExec) (es : List Entry)
    → Chain pe.processes pe.first_process_ind es
    → Kept (counted pe) p
    → Chain p.processes p.first_process_ind es
Kept-Chain pe p es c k =
    subst (λ ps. Chain ps p.first_process_ind es) (sym k.same_processes)
      (subst (λ first. Chain pe.processes first es) (sym k.same_first) c)

-- After the first half of the leaving, those who wait are as before.
pub handed-Left :
    (n rank : ℕ) (pe p : PartExec) (e : Entry) (es : List Entry)
    → Releasing n rank pe e es
    → Kept (counted pe) p
    → p.process_rank ≡ rank
    → Left n rank (gone (handed es p)) es
handed-Left n rank pe p e [] h k at = refl
handed-Left n rank pe p e (x ∷ xs) h k at =
    woken_at-Releasing n (suc rank) (gone p) x xs (k.same_total ∙ h.total)
      (Kept-still pe p (suc (length xs)) h.still k) (omega arith)
      (Kept-Chain pe p (x ∷ xs) h.chain k) h.ascending.1 h.distinct.1
      (subst (λ ps. Asleep ps (x ∷ xs)) (sym k.same_processes) h.asleep)
      (λ j. ap (λ (ps : Slots). (ps j).timeout) k.same_processes ∙ h.in_time j)
