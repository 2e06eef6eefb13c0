-- ===== src/Tests/Start.antt =====
-- `main` with options, and two processes that enter the shared memory.
use mpipin.Base.{
  ℕ, ◌^◌, subst, ◌≡◌, ◌<◌, refl, arith, Bool, true, false, List, [], ◌∷◌, Option, none, some,
}
use mpipin.Base.Int.{pos, ◌==ℤ◌}
use mpipin.Ascii.{Text, codes, to_long}
use mpipin.Ascii.Strtol.{base_digits, unsigned_digits, signed_digits, skip_sign, strtol, to_int}
use mpipin.Word.{shl}
use mpipin.Bitops.{set_bit}
use mpipin.CpuSet.{IsCpuSet}
use mpipin.Bitmap.{bits_to_longs}
use mpipin.Bitmap.Logic.{write_words}
use mpipin.Bitmap.Fold.{bitmap_zero}
use mpipin.Bitmap.Ranges.{
  add_digit, set_range, end_range, parse_ranges, parselist, bitmap_parselist,
}
use mpipin.Pin.{PartExec}
use mpipin.Pin.Init.{initialise, attach}
use mpipin.Main.Options.{
  Settings, positive_int, parse_excluded, set_option, parse_options, check_settings, settings,
  IsChecked, settings-IsChecked,
}
use mpipin.Main.Enter.{
  Calls, failed, cleanup_shm, unlock, share, enter_locked, enter, leave, IsEntry, enter-IsEntry,
}
use mpipin.Main.Enter.Node.{new_session, enter_all, IsCalls, IsReady, enter_all-IsReady}
use mpipin.Tests.Machine.{low_set, low_set-IsCpuSet}
use mpipin.Tests.Setup.{four, first_memory}

read_settings : List (ℕ × Text) → Bool → Option Settings
unfolding base_digits unsigned_digits signed_digits skip_sign strtol to_int to_long ◌==ℤ◌
    positive_int parse_excluded set_option parse_options check_settings settings add_digit set_range
    end_range parse_ranges parselist bitmap_parselist set_bit shl bits_to_longs write_words
    bitmap_zero
read_settings opts has_program = settings opts has_program

abbrev given : List (ℕ × Text)
given = (b'p', codes "0x10") ∷ (b'e', codes "0-1,5") ∷ (b't', codes " +010") ∷ (b'v', []) ∷ []

abbrev chosen : Settings
chosen = record { ppn = pos 16; tpp = pos 8; cpus_excluded = low_set 35; verbose = true }

accepted : settings given true ≡ some chosen
unfolding read_settings
accepted = refl

refused :
    (settings given false ≡ none)
    × (settings ((b'p', codes "1") ∷ []) true ≡ none)
    × (settings ((b'p', codes "1025") ∷ []) true ≡ none)
    × (settings ((b'p', codes "4x") ∷ []) true ≡ none)
    × (settings ((0, []) ∷ given) true ≡ none)
unfolding read_settings
refused = (refl, refl, refl, refl, refl)

-- A number of 33 bits is cut to an `int`.
cut_to_int :
    settings ((b'p', codes "4294967298") ∷ []) true
    ≡ some (record chosen { ppn = pos 2; tpp = pos 0; cpus_excluded = low_set 0; verbose = false })
unfolding read_settings
cut_to_int = refl

settings-IsChecked_example : IsChecked chosen
settings-IsChecked_example = settings-IsChecked given true chosen accepted

abbrev pub process : (size own : ℕ) → Calls
process size own = record {
  ppid = 77;
  affinity = some (low_set own);
  opens = true;
  locks = true;
  size = some size;
  maps = true;
  unlocks = true;
  system = four;
}

enter-IsEntry_example :
    IsEntry
      (process 0 1)
      2
      (low_set 8)
      (new_session first_memory)
      (enter (process 0 1) 2 (low_set 8) (new_session first_memory))
enter-IsEntry_example = enter-IsEntry (process 0 1) 2 (low_set 8) (new_session first_memory) refl

-- Without an affinity, shm_unlink is called with the buffer that is not written yet.
no_affinity :
    enter (record (process 0 1) { affinity = none }) 2 (low_set 8) (new_session first_memory)
    ≡ (failed, record (new_session first_memory) { unlinked = none ∷ [] })
unfolding enter cleanup_shm
no_affinity = refl

-- When execvp fails, the name is unlinked twice.
exec_fails : (leave true false false (new_session first_memory)).1.unlinked ≡ none ∷ none ∷ []
unfolding leave cleanup_shm
exec_fails = refl

abbrev both : List Calls
both = process 0 1 ∷ process 8192 2 ∷ []

abbrev entered_memory : PartExec
entered_memory = attach four (low_set 8) 2 (low_set 2) (initialise 2 (low_set 1))

all_enter : enter_all 2 (low_set 8) both first_memory ≡ some entered_memory
unfolding enter_all enter enter_locked share unlock
all_enter = refl

pub process-IsCalls : (size own : ℕ) → own < 2 ^ 64 → IsCalls (process size own)
process-IsCalls size own lt = record {
  few = omega arith;
  own_set = λ s e.
      let same : low_set own ≡ s = ground (arith, e) in
      subst IsCpuSet same (low_set-IsCpuSet own lt);
}

enter_all-IsReady_example : IsReady 2 entered_memory
enter_all-IsReady_example =
    enter_all-IsReady 2 (low_set 8) (low_set-IsCpuSet 8 (omega arith)) (process 0 1)
      (process 8192 2 ∷ []) first_memory entered_memory refl (omega arith)
      (process-IsCalls 0 1 (omega arith)) refl
      (process-IsCalls 8192 2 (omega arith), (λ e. absurd (ground (arith, e))), tt) all_enter
