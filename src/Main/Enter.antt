-- ===== src/Main/Enter.antt =====
-- The paths of `main` of mpipin.c through the shared memory: from sched_getaffinity to the call of
-- pin_process, and behind it. What the calls of the system give is a parameter.
pub mod Node
pub mod Outcomes
use mpipin.Base.{
  ℕ, zero, suc, ◌+◌, ◌≡◌, refl, arith, Bool, true, false, not, ◌==◌, if◌then◌else◌, List, [], ◌∷◌,
  ◌++◌, length, Option, none, some, both_branches, each_branch, each_outcome, sym, ◌∙◌, ap,
  Bool-cases, inl, inr,
}
use mpipin.Ascii.{Text, codes, decimal}
use mpipin.CpuSet.{CpuSet}
use mpipin.Pin.{PartExec}
use mpipin.Pin.Init.{System, initialise, attach}

-- For the process: its parent's PID; its affinity, or that it cannot be had; whether shm_open, the
-- lock, mmap and the unlock succeed; the size that fstat gives; and for the discovery of CPUs, a System.
pub record Calls : Type 0 where
  pub ppid : ℕ
  pub affinity : Option CpuSet
  pub opens : Bool
  pub locks : Bool
  pub size : Option ℕ
  pub maps : Bool
  pub unlocks : Bool
  pub system : System

-- `shm_path`, once it is written; whether the process holds the lock; what is in the shared memory; and
-- the paths that shm_unlink was called with, where `none` is the buffer that is not initialised.
pub record Session : Type 0 where
  pub shm_path : Option Text
  pub locked : Bool
  pub shm : PartExec
  pub unlinked : List (Option Text)

-- Whether main returns EXIT_FAILURE or goes on.
pub data Outcome : Type 0 where
  failed passed : Outcome

-- Label cleanup_shm.
unfoldable pub cleanup_shm : Session → Outcome × Session
cleanup_shm s = (failed, record s { unlinked = s.unlinked ++ (s.shm_path ∷ []) })

module _ (calls : Calls) (ppn : ℕ) (cpus_excluded : CpuSet) where
  -- flock(shm_fd, LOCK_UN)
  unfoldable pub unlock : Session → Session
  unlock s = if calls.unlocks then record s { locked = false } else s

  -- Label unlock_cleanup_shm.
  unfoldable pub unlock_cleanup_shm : Session → Outcome × Session
  unlock_cleanup_shm s = cleanup_shm (unlock s)

  -- The first process finds an empty file, makes it long enough and initialises the memory.
  unfoldable pub share : (size : ℕ) → (cpus_available : CpuSet) → PartExec → PartExec
  share size cpus_available pe =
      if size == 0
      then initialise ppn cpus_available
      else attach calls.system cpus_excluded ppn cpus_available pe

  -- With the lock.
  unfoldable pub enter_locked : (cpus_available : CpuSet) → Session → Outcome × Session
  enter_locked cpus_available s = elim calls.size [
    | none ↦ unlock_cleanup_shm s
    | some size ↦
        let s' = unlock (record s { shm = share size cpus_available s.shm }) in
        if not calls.maps
        then unlock_cleanup_shm s
        else if calls.unlocks
        then (passed, s')
        else cleanup_shm s'
  ]

  unfoldable pub enter : Session → Outcome × Session
  enter s =
      let named = record s {
        shm_path = some (codes "/mpipin." ++ decimal calls.ppid (codes ".shm"));
      } in
      elim calls.affinity [
        | none ↦ cleanup_shm s
        | some cpus_available ↦
            if not calls.opens
            then cleanup_shm named
            else if not calls.locks
            then cleanup_shm named
            else enter_locked cpus_available (record named { locked = true })
      ]

-- Behind pin_process: whether it gave a rank, whether the mask is to be printed and cannot be had.
-- Without `failed`, the process is the program that execvp runs.
unfoldable pub leave : (pinned no_mask runs : Bool) → Session → Outcome × Session
leave pinned no_mask runs s =
    let (_, s') = cleanup_shm s in
    if not pinned
    then cleanup_shm s
    else if no_mask
    then cleanup_shm s'
    else if runs
    then (passed, s')
    else cleanup_shm s'

-- What `enter` makes of a session: the lock is given back if it can be; a process that goes on has
-- written the memory, a name and no unlink; one that fails has unlinked once, by the name if it was
-- written, and it was written unless the affinity could not be had.
pub record IsEntry (calls : Calls) (ppn : ℕ) (excluded : CpuSet) (s : Session)
    (r : Outcome × Session) : Type 0 where
  pub unlocked : calls.unlocks ≡ true → r.1.locked ≡ false
  pub passes :
      r.0 ≡ passed
      → (size : ℕ) × (own : CpuSet) × (calls.size ≡ some size)
        × (calls.affinity ≡ some own)
        × (r.1.shm ≡ share calls ppn excluded size own s.shm)
        × (r.1.unlinked ≡ s.unlinked)
        × (r.1.locked ≡ false)
  pub fails : r.0 ≡ failed → r.1.unlinked ≡ s.unlinked ++ (r.1.shm_path ∷ [])
  pub named : (r.1.shm_path ≡ none) → calls.affinity ≡ none

-- A path that was written is not `none`.
written : {t : Text} {A : Type 0} → some t ≡ none → A
written e = absurd (ground (arith, e))

module _ (calls : Calls) (ppn : ℕ) (excluded : CpuSet) (s : Session) where
  cleanup-IsEntry :
      (t : Session)
      → (calls.unlocks ≡ true → t.locked ≡ false)
      → t.unlinked ≡ s.unlinked
      → (t.shm_path ≡ none → calls.affinity ≡ none)
      → IsEntry calls ppn excluded s (cleanup_shm t)
  unfolding cleanup_shm
  cleanup-IsEntry t free same path = record {
    unlocked = free;
    passes = λ e. absurd (ground (arith, e));
    fails = λ _. ap (λ l. l ++ (t.shm_path ∷ [])) same;
    named = path;
  }

  unlock_cleanup-IsEntry :
      (t : Session)
      → t.unlinked ≡ s.unlinked
      → (t.shm_path ≡ none → calls.affinity ≡ none)
      → IsEntry calls ppn excluded s (unlock_cleanup_shm calls ppn excluded t)
  unfolding unlock_cleanup_shm unlock
  unlock_cleanup-IsEntry t same path =
      each_branch (λ t. IsEntry calls ppn excluded s (cleanup_shm t)) calls.unlocks
        (λ given. cleanup-IsEntry (record t { locked = false }) (λ _. refl) same path)
        (λ held. cleanup-IsEntry t (λ e. absurd (ground (arith, e, held))) same path)

  abbrev Entry : Outcome × Session → Type 0
  Entry r = IsEntry calls ppn excluded s r

  -- An unlock changes the lock only.
  record Unlocks (t u : Session) : Type 0 where
    memory : u.shm ≡ t.shm
    same : u.unlinked ≡ t.unlinked
    path : u.shm_path ≡ t.shm_path
    free : calls.unlocks ≡ true → u.locked ≡ false

  unlock-Unlocks : (t : Session) → Unlocks t (unlock calls ppn excluded t)
  unfolding unlock
  unlock-Unlocks t =
      each_branch (Unlocks t) calls.unlocks
        (λ _. record { memory = refl; same = refl; path = refl; free = λ _. refl })
        (λ held. record {
          memory = refl;
          same = refl;
          path = refl;
          free = λ e. absurd (ground (arith, e, held));
        })

  enter_locked-IsEntry :
      (name : Text) (own : CpuSet) (t : Session)
      → calls.affinity ≡ some own
      → t.shm_path ≡ some name
      → t.unlinked ≡ s.unlinked
      → t.shm ≡ s.shm
      → IsEntry calls ppn excluded s (enter_locked calls ppn excluded own t)
  unfolding enter_locked
  enter_locked-IsEntry name own t mine path same memory =
      let kept : t.shm_path ≡ none → calls.affinity ≡ none = λ e. written (sym path ∙ e) in
      let next = share calls ppn excluded in
      each_outcome Entry calls.size
        {f = λ size.
          let s' = unlock calls ppn excluded (record t { shm = next size own t.shm }) in
          if not calls.maps
          then unlock_cleanup_shm calls ppn excluded t
          else if calls.unlocks
          then (passed, s')
          else cleanup_shm s'}
        (λ size e.
          let written_to : Session = record t { shm = next size own t.shm } in
          let after = unlock-Unlocks written_to in
          let kept' : (unlock calls ppn excluded written_to).shm_path ≡ none
              → calls.affinity ≡ none =
            λ e. kept (sym after.path ∙ e) in
          both_branches Entry (not calls.maps) (unlock_cleanup-IsEntry t same kept) (
            each_branch Entry calls.unlocks
              (λ given. record {
                unlocked = after.free;
                passes = λ _. (
                  size,
                  own,
                  e,
                  mine,
                  after.memory ∙ ap (next size own) memory,
                  after.same ∙ same,
                  after.free given,
                );
                fails = λ e. absurd (ground (arith, e));
                named = kept';
              })
              (λ held. cleanup-IsEntry _ after.free (after.same ∙ same) kept')))
        (λ no_size. unlock_cleanup-IsEntry t same kept)

  -- Where the process holds no lock when it enters: it holds none when main goes on or fails, if flock
  -- unlocks; main goes on only with the memory initialised or attached and nothing unlinked; and it
  -- fails with one call of shm_unlink, by a name that is written unless the affinity could not be had.
  pub enter-IsEntry : s.locked ≡ false → IsEntry calls ppn excluded s (enter calls ppn excluded s)
  unfolding enter
  enter-IsEntry unheld =
      let name = codes "/mpipin." ++ decimal calls.ppid (codes ".shm") in
      let named : Session = record s { shm_path = some name } in
      let stops = cleanup-IsEntry named (λ _. unheld) refl (λ e. written e) in
      each_outcome Entry calls.affinity
        {f = λ own.
          if not calls.opens
          then cleanup_shm named
          else if not calls.locks
          then cleanup_shm named
          else enter_locked calls ppn excluded own (record named { locked = true })}
        (λ own e. both_branches Entry (not calls.opens) stops (
          both_branches Entry (not calls.locks) stops
            (enter_locked-IsEntry name own (record named { locked = true }) e refl refl refl)))
        (λ nothing. cleanup-IsEntry s (λ _. unheld) refl (λ _. nothing))
