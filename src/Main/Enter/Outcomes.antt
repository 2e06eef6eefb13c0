-- ===== src/Main/Enter/Outcomes.antt =====
-- Whether a process goes on to pin_process does not depend on what is in the shared memory.
use mpipin.Base.{
  ℕ, ◌≡◌, refl, arith, ◌∙◌, List, ◌∷◌, some, none, Bool-cases, Option-cases, inl, inr,
}
use mpipin.CpuSet.{CpuSet}
use mpipin.Pin.{PartExec}
use mpipin.Main.Enter.{
  Calls, Session, Outcome, failed, passed, enter, enter_locked, unlock_cleanup_shm, cleanup_shm,
}
use mpipin.Main.Enter.Node.{new_session, enter_all}

module _ (sys : Calls) (n : ℕ) (excluded : CpuSet) where
  locked-same :
      (own : CpuSet) (s t : Session)
      → (enter_locked sys n excluded own s).0 ≡ (enter_locked sys n excluded own t).0
  unfolding enter_locked unlock_cleanup_shm cleanup_shm
  locked-same own s t = elim (Option-cases sys.size) [
    | inl none_known ↦ rw none_known refl
    | inr (size, e) ↦ rw e (elim (Bool-cases sys.maps) [
      | inr no_map ↦ rw no_map refl
      | inl maps ↦
          rw maps
            (elim (Bool-cases sys.unlocks) [ inl free ↦ rw free refl | inr held ↦ rw held refl ])
    ])
  ]

module _ (sys : Calls) (n : ℕ) (excluded : CpuSet) where
  outcome-same :
      (a b : PartExec)
      → (enter sys n excluded (new_session a)).0 ≡ (enter sys n excluded (new_session b)).0
  unfolding enter cleanup_shm
  outcome-same a b = elim (Option-cases sys.affinity) [
    | inl unknown ↦ rw unknown refl
    | inr (own, e) ↦ rw e (elim (Bool-cases sys.opens) [
      | inr closed ↦ rw closed refl
      | inl opens ↦ rw opens (elim (Bool-cases sys.locks) [
        | inr free ↦ rw free refl
        | inl locks ↦ rw locks (locked-same _ n excluded own _ _)
      ])
    ])
  ]

  -- If all enter with success, the first of them does, whatever others do to the memory meanwhile.
  pub enter_all-passed :
      (rest : List Calls) (a b memory : PartExec)
      → enter_all n excluded (sys ∷ rest) a ≡ some memory
      → (s : Session) × (enter sys n excluded (new_session b) ≡ (passed, s))
  unfolding enter_all
  enter_all-passed rest a b memory all =
      go (enter sys n excluded (new_session b))
        (outcome-same b a ∙ passes (enter sys n excluded (new_session a)) all)
    where
      passes :
          (r : Outcome × Session)
          → (elim r.0 [ failed ↦ none | passed ↦ enter_all n excluded rest r.1.shm ]) ≡ some memory
          → r.0 ≡ passed
      passes (failed, s) e = absurd (ground (arith, e))
      passes (passed, s) e = refl

      go : (r : Outcome × Session) → r.0 ≡ passed → (s : Session) × (r ≡ (passed, s))
      go (failed, s) e = absurd (ground (arith, e))
      go (passed, s) e = (s, refl)
