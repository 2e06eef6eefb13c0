-- ===== src/Main/Options.antt =====
-- The options of `main` of mpipin.c and the checks behind them. What getopt_long returns is a
-- parameter: the list of the option characters with their arguments, and whether a program follows.
use mpipin.Base.{
  ℕ, ◌≤◌, ◌≡◌, refl, arith, Bool, true, false, not, ◌||◌, ltb, ◌==◌, if◌then◌else◌, List, [], ◌∷◌,
  Option, none, some, Bool-cases, both_branches, subst, inl, inr,
}
use mpipin.Base.Int.{ℤ, pos, negsuc, ◌==ℤ◌}
use mpipin.Base.Errno.{Errno}
use mpipin.Ascii.{Text}
use mpipin.Ascii.Strtol.{strtol, to_int}
use mpipin.Bitops.{Words}
use mpipin.Bitmap.Kept.{Leaves}
use mpipin.Bitmap.Ranges.{bitmap_parselist}
use mpipin.Bitmap.Ranges.Kept.{bitmap_parselist-Leaves}
use mpipin.CpuSet.{CpuSet, IsCpuSet, cpu_bits, empty_set}
use mpipin.CpuSet.Laws.{empty_set-IsCpuSet}
use mpipin.Pin.{max_processes}

-- The variables that the options set.
pub record Settings : Type 0 where
  pub ppn : ℤ
  pub tpp : ℤ
  pub cpus_excluded : CpuSet
  pub verbose : Bool

-- ppn <= 0
abbrev not_positive : ℤ → Bool
not_positive (pos n) = n == 0
not_positive (negsuc n) = true

-- `*tmp != '\0'`
abbrev more_text : Text → Bool
more_text [] = false
more_text (c ∷ s) = true

-- `n = strtol(optarg, &tmp, 0); if (*tmp != '\0' || n <= 0) exit(EXIT_FAILURE);`
unfoldable pub positive_int : Text → Option ℤ
positive_int optarg =
    let (value, tmp) = strtol optarg in
    let n = to_int value in if more_text tmp || not_positive n then none else some n

unfoldable pub parse_excluded : Text → Settings → Option Settings
parse_excluded optarg s =
    let (error, mask) = bitmap_parselist cpu_bits optarg s.cpus_excluded in
    elim error [ some e ↦ none | none ↦ some (record s { cpus_excluded = mask }) ]

-- One option; `none` is an exit with a failure.
unfoldable pub set_option : (opt : ℕ) → (optarg : Text) → Settings → Option Settings
set_option opt optarg s =
    if opt == b'p' || opt == b'n'
    then elim (positive_int optarg) [ some n ↦ some (record s { ppn = n }) | none ↦ none ]
    else if opt == b't'
    then elim (positive_int optarg) [ some n ↦ some (record s { tpp = n }) | none ↦ none ]
    else if opt == b'e'
    then parse_excluded optarg s
    else if opt == b'v'
    then some (record s { verbose = true })
    else none

unfoldable pub parse_options : List (ℕ × Text) → Settings → Option Settings
parse_options [] s = some s
parse_options ((opt, optarg) ∷ opts) s = elim (set_option opt optarg s) [
  | some s' ↦ parse_options opts s'
  | none ↦ none
]

-- ppn > MAX_PROCESSES
abbrev too_many : ℤ → Bool
too_many (pos n) = ltb max_processes n
too_many (negsuc n) = false

-- The sanity checks.
unfoldable pub check_settings : (has_program : Bool) → Settings → Option Settings
check_settings has_program s =
    if not has_program
    then none
    else if s.ppn ==ℤ pos 0
    then none
    else if s.ppn ==ℤ pos 1
    then none
    else if too_many s.ppn
    then none
    else some s

abbrev pub no_settings : Settings
no_settings = record { ppn = pos 0; tpp = pos 0; cpus_excluded = empty_set; verbose = false }

unfoldable pub settings : List (ℕ × Text) → (has_program : Bool) → Option Settings
settings opts has_program = elim (parse_options opts no_settings) [
  | some s ↦ check_settings has_program s
  | none ↦ none
]

-- While the options are read: `ppn` is not negative, and the excluded CPUs are a CPU set.
record IsRead (s : Settings) : Type 0 where
  count : ℕ
  ppn_is : s.ppn ≡ pos count
  excluded : IsCpuSet s.cpus_excluded

OkRead : Option Settings → Type 0
OkRead none = Unit {0}
OkRead (some s) = IsRead s

-- What main goes on with.
pub record IsChecked (s : Settings) : Type 0 where
  pub count : ℕ
  pub ppn_is : s.ppn ≡ pos count
  pub at_least : 2 ≤ count
  pub at_most : count ≤ max_processes
  pub excluded : IsCpuSet s.cpus_excluded

IsNumber : Option ℤ → Type 0
IsNumber none = Unit {0}
IsNumber (some z) = (n : ℕ) × (z ≡ pos n)

IsNumber-cases : (z : ℤ) → IsNumber (if not_positive z then none else some z)
unfolding IsNumber
IsNumber-cases (pos n) = both_branches IsNumber (n == 0) tt (n, refl)
IsNumber-cases (negsuc n) = tt

positive_int-IsNumber : (optarg : Text) → IsNumber (positive_int optarg)
unfolding IsNumber positive_int
positive_int-IsNumber optarg =
    either (more_text (strtol optarg).1) (not_positive (to_int (strtol optarg).0))
      (IsNumber-cases (to_int (strtol optarg).0))
  where
    either :
        (a b : Bool)
        → IsNumber (if b then none else some (to_int (strtol optarg).0))
        → IsNumber (if a || b then none else some (to_int (strtol optarg).0))
    either true b h = tt
    either false b h = h

parse_excluded-OkRead : (optarg : Text) (s : Settings) → IsRead s → OkRead (parse_excluded optarg s)
unfolding OkRead parse_excluded
parse_excluded-OkRead optarg s h = go (bitmap_parselist cpu_bits optarg s.cpus_excluded) (
    bitmap_parselist-Leaves cpu_bits optarg
      (record { size = h.excluded.size; words = h.excluded.words }))
  where
    go :
        (r : Option Errno × Words)
        → Leaves 16 r
        → OkRead (elim r.0 [ some e ↦ none | none ↦ some (record s { cpus_excluded = r.1 }) ])
    go (some e, mask) l = tt
    go (none, mask) l = record {
      count = h.count;
      ppn_is = h.ppn_is;
      excluded = record { size = l.mask.size; words = l.mask.words };
    }

set_option-OkRead :
    (opt : ℕ) (optarg : Text) (s : Settings) → IsRead s → OkRead (set_option opt optarg s)
unfolding OkRead set_option IsNumber
set_option-OkRead opt optarg s h =
    both_branches OkRead (opt == b'p' || opt == b'n')
      (processes (positive_int optarg) (positive_int-IsNumber optarg))
      (both_branches OkRead (opt == b't') (threads (positive_int optarg)) (
        both_branches OkRead (opt == b'e') (parse_excluded-OkRead optarg s h) (
          both_branches OkRead (opt == b'v')
            (record { count = h.count; ppn_is = h.ppn_is; excluded = h.excluded }) tt)))
  where
    processes :
        (o : Option ℤ)
        → IsNumber o
        → OkRead (elim o [ some n ↦ some (record s { ppn = n }) | none ↦ none ])
    processes none is = tt
    processes (some z) (n, e) = record { count = n; ppn_is = e; excluded = h.excluded }

    threads :
        (o : Option ℤ) → OkRead (elim o [ some n ↦ some (record s { tpp = n }) | none ↦ none ])
    threads none = tt
    threads (some z) = record { count = h.count; ppn_is = h.ppn_is; excluded = h.excluded }

parse_options-OkRead :
    (opts : List (ℕ × Text)) (s : Settings) → IsRead s → OkRead (parse_options opts s)
unfolding OkRead parse_options
parse_options-OkRead [] s h = h
parse_options-OkRead ((opt, optarg) ∷ opts) s h =
    go (set_option opt optarg s) (set_option-OkRead opt optarg s h) (parse_options-OkRead opts)
  where
    go :
        (o : Option Settings)
        → OkRead o
        → ((s : Settings) → IsRead s → OkRead (parse_options opts s))
        → OkRead (elim o [ some s' ↦ parse_options opts s' | none ↦ none ])
    go none r rest = tt
    go (some s') r rest = rest s' r

OkChecked : Option Settings → Type 0
OkChecked none = Unit {0}
OkChecked (some s) = IsChecked s

check_settings-OkChecked :
    (has_program : Bool) (s : Settings) → IsRead s → OkChecked (check_settings has_program s)
unfolding OkChecked check_settings ◌==ℤ◌
check_settings-OkChecked has_program s h =
    both_branches OkChecked (not has_program) tt (elim (Bool-cases (s.ppn ==ℤ pos 0)) [
      | inl zero_ppn ↦ rw zero_ppn tt
      | inr some_ppn ↦ elim (Bool-cases (s.ppn ==ℤ pos 1)) [
        | inl one ↦ rw (some_ppn, one) tt
        | inr more ↦ elim (Bool-cases (too_many s.ppn)) [
          | inl above ↦ rw (some_ppn, more, above) tt
          | inr inside ↦
              rw (some_ppn, more, inside)
                (record {
                  count = h.count;
                  ppn_is = h.ppn_is;
                  at_least = ground (arith, h.ppn_is, some_ppn, more);
                  at_most = ground (arith, h.ppn_is, inside);
                  excluded = h.excluded;
                })
        ]
      ]
    ])

-- Whatever the options, if main goes on behind its checks, the number of processes per node is from 2
-- to 1024 and the excluded CPUs are a CPU set.
pub settings-IsChecked :
    (opts : List (ℕ × Text)) (has_program : Bool) (s : Settings)
    → settings opts has_program ≡ some s
    → IsChecked s
unfolding settings OkRead OkChecked
settings-IsChecked opts has_program s e = subst OkChecked e (
    go (parse_options opts no_settings) (
      parse_options-OkRead opts no_settings
        (record { count = 0; ppn_is = refl; excluded = empty_set-IsCpuSet })))
  where
    go :
        (o : Option Settings)
        → OkRead o
        → OkChecked (elim o [ some s ↦ check_settings has_program s | none ↦ none ])
    go none r = tt
    go (some s) r = check_settings-OkChecked has_program s r
