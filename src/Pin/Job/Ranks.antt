-- ===== src/Pin/Job/Ranks.antt =====
-- The ranks of the processes follow the order of their PIDs.
use mpipin.Base.{ℕ, ◌≤◌, ◌≡◌, List, [], ◌∷◌, length}
use mpipin.Base.Errno.{Result, ok}

-- No process with a greater PID has a result.
abbrev pub Behind : ℕ → List (ℕ × Result ℕ) → Type 0
Behind pid [] = Unit {0}
Behind pid (r ∷ rs) = r.0 ≤ pid

-- The results, latest first, are the ranks from 0 on, in ascending order of PID.
abbrev pub Ranked : List (ℕ × Result ℕ) → Type 0
Ranked [] = Unit {0}
Ranked (r ∷ rs) = (r.1 ≡ ok (length rs)) × Behind r.0 rs × Ranked rs
