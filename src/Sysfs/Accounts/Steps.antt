-- ===== src/Sysfs/Accounts/Steps.antt =====
-- Chains of reads into an object: the blocks of the object are accounted for after each.
use mpipin.Base.{ℕ, ◌+◌, ◌≡◌, refl, ap, arith, List, [], ◌∷◌, Option, none, some, both_branches}
use mpipin.Base.Errno.{Errno, einval, Result, ok, err}
use mpipin.Base.Int.{ℤ}
use mpipin.Ascii.{Text}
use mpipin.Bitmap.Kept.{IsMask}
use mpipin.Topology.{CacheTopology, CpuTopology}
use mpipin.Pin.Assign.Choice.{AllMaps}
use mpipin.Sysfs.{Host, Store, Action, read_long, read_string, read_bitmap}
use mpipin.Sysfs.Collect.{Step, read_field, run_steps, or_einval, cache_steps, cpu_steps}
use mpipin.Sysfs.Accounts.{
  IsHost, Takes, Ends, OkFact, ok_blocks, no_blocks, one_block, move, cache_blocks, text_blocks,
}
use mpipin.Sysfs.Accounts.Reads.{read_long-Even, read_string-Ends, read_bitmap-Even}

-- The error and the object after a step.
abbrev pub object_blocks : {T : Type 0} → (T → ℕ) → Option Errno × T → ℕ
object_blocks g (e, p) = g p

abbrev pub ObjectFact : {T : Type 0} → (T → Type 0) → Option Errno × T → Type 0
ObjectFact Q (none, p) = Q p
ObjectFact Q (some e, p) = Unit {0}

-- The object of a CPU: its number, and its sets of CPUs.
abbrev pub IsCpu : (cpu : ℕ) → CpuTopology → Type 0
IsCpu cpu p =
    (p.cpu_id ≡ cpu)
    × IsMask 16 p.core_siblings
    × IsMask 16 p.thread_siblings
    × AllMaps p.cache_topology_list

-- Before its caches are read, the object is one block.
abbrev pub NewCpu : (cpu : ℕ) → CpuTopology → Type 0
NewCpu cpu p =
    (p.cpu_id ≡ cpu)
    × IsMask 16 p.core_siblings
    × IsMask 16 p.thread_siblings
    × (p.cache_topology_list ≡ [])

module _ (host : Host) (is_host : IsHost host) (before : Store) where
  module _ {T : Type 0} (g : T → ℕ) where
    -- From an object of which `P` holds, the step leaves one of which `Q` holds, or an error.
    abbrev pub Does : (T → Type 0) → (T → Type 0) → Step T → Type 0
    Does P Q step =
        (p : T) (k : ℕ) (s : Store)
        → P p
        → Takes before (g p + k) s
        → Ends before (object_blocks g) (ObjectFact Q) k (step p s)

    nil-Does : (P : T → Type 0) → Does P P (run_steps [])
    unfolding run_steps
    nil-Does P p k s x h = record { accounted = h; fact = x }

    cons-Does :
        {P Q R : T → Type 0} {step : Step T} (steps : List (Step T))
        → Does P Q step
        → Does Q R (run_steps steps)
        → Does P R (run_steps (step ∷ steps))
    unfolding run_steps
    cons-Does {Q} {R} {step} steps first rest p k s x h = after (step p s) (first p k s x h)
      where
        after :
            (r : (Option Errno × T) × Store)
            → Ends before (object_blocks g) (ObjectFact Q) k r
            → Ends before (object_blocks g) (ObjectFact R) k (elim r.0.0 [
              | some error ↦ ((some error, r.0.1), r.1)
              | none ↦ run_steps steps r.0.1 r.1
            ])
        after ((some e, p), s) h = record { accounted = h.accounted; fact = tt }
        after ((none, p), s) h = rest p k s h.fact h.accounted

    read_field-Does :
        {A : Type 0} {F : A → Type 0} (gain : A → ℕ) (Q : T → Type 0) (action : Action A)
        (put : A → T → T) (p : T) (k : ℕ) (s : Store)
        → Ends before (ok_blocks gain) (OkFact F) (g p + k) (action s)
        → ((a : A) → g (put a p) ≡ gain a + g p)
        → ((a : A) → F a → Q (put a p))
        → Ends before (object_blocks g) (ObjectFact Q) k (read_field action put p s)
    unfolding read_field
    read_field-Does {A} {F} gain Q action put p k s h same q = after (action s) h
      where
        after :
            (r : Result A × Store)
            → Ends before (ok_blocks gain) (OkFact F) (g p + k) r
            → Ends before
                (object_blocks g)
                (ObjectFact Q)
                k
                (elim r.0 [ ok a ↦ ((none, put a p), r.1) | err e ↦ ((some e, p), r.1) ])
        after (ok a, s) h = record {
          accounted = move host is_host before (omega (arith, same a)) h.accounted;
          fact = q a h.fact;
        }
        after (err e, s) h = record {
          accounted = move host is_host before (omega arith) h.accounted;
          fact = tt;
        }

    -- A number is read into a field that owns no block.
    long-Does :
        (P : T → Type 0) (path : Text) (put : ℤ → T → T)
        → ((n : ℤ) (p : T) → g (put n p) ≡ g p)
        → ((n : ℤ) (p : T) → P p → P (put n p))
        → Does P P (read_field (read_long host path) put)
    long-Does P path put same keeps p k s x h =
        read_field-Does no_blocks P (read_long host path) put p k s
          (read_long-Even host is_host before path (g p + k) s h) (λ n. omega (arith, same n p))
          (λ n _. keeps n p x)

    or_einval-Does : (P Q : T → Type 0) (step : Step T) → Does P Q step → Does P Q (or_einval step)
    unfolding or_einval
    or_einval-Does P Q step does p k s x h = after (step p s) (does p k s x h)
      where
        after :
            (r : (Option Errno × T) × Store)
            → Ends before (object_blocks g) (ObjectFact Q) k r
            → Ends before
                (object_blocks g)
                (ObjectFact Q)
                k
                (elim r.0.0 [ some error ↦ (some einval, r.0.1) | none ↦ (none, r.0.1) ], r.1)
        after ((some e, p), s) h = record { accounted = h.accounted; fact = tt }
        after ((none, p), s) h = record { accounted = h.accounted; fact = h.fact }

  -- The strings of a cache that are not read yet, and that its CPUs are a CPU set.
  abbrev NoStrings : CacheTopology → Type 0
  NoStrings p = (p.type ≡ none) × (p.size_str ≡ none) × IsMask 16 p.shared_cpu_map

  abbrev NoSize : CacheTopology → Type 0
  NoSize p = (p.size_str ≡ none) × IsMask 16 p.shared_cpu_map

  abbrev pub IsCache : CacheTopology → Type 0
  IsCache p = IsMask 16 p.shared_cpu_map

  abbrev CacheDoes : (P Q : CacheTopology → Type 0) → Step CacheTopology → Type 0
  CacheDoes P Q step = Does cache_blocks P Q step

  type-Does :
      (path : Text)
      → CacheDoes NoStrings NoSize
          (read_field (read_string host path) (λ t p. record p { type = some t }))
  type-Does path p k s (no_type, no_size, map) h =
      read_field-Does cache_blocks one_block NoSize (read_string host path)
        (λ t p. record p { type = some t }) p k s
        (read_string-Ends host is_host before path (cache_blocks p + k) s h)
        (λ t. omega (arith, ap text_blocks no_type)) (λ t _. (no_size, map))

  size_str-Does :
      (path : Text)
      → CacheDoes NoSize IsCache
          (read_field (read_string host path) (λ t p. record p { size_str = some t }))
  size_str-Does path p k s (no_size, map) h =
      read_field-Does cache_blocks one_block IsCache (read_string host path)
        (λ t p. record p { size_str = some t }) p k s
        (read_string-Ends host is_host before path (cache_blocks p + k) s h)
        (λ t. omega (arith, ap text_blocks no_size)) (λ t _. map)

  map-Does :
      (path : Text)
      → CacheDoes IsCache IsCache (λ p.
        read_field
          (read_bitmap host p.shared_cpu_map host.nprocs path)
          (λ map p. record p { shared_cpu_map = map })
          p)
  map-Does path p k s map h =
      read_field-Does cache_blocks no_blocks IsCache
        (read_bitmap host p.shared_cpu_map host.nprocs path)
        (λ map p. record p { shared_cpu_map = map }) p k s
        (read_bitmap-Even host is_host before p.shared_cpu_map host.nprocs path (cache_blocks p + k)
          s is_host.few_cpus map h)
        (λ m. omega arith) (λ m is. is)

  pub cache_steps-Does :
      (cpu index : ℕ) → CacheDoes NoStrings IsCache (run_steps (cache_steps host cpu index))
  unfolding cache_steps
  cache_steps-Does cpu index =
      let long = long-Does cache_blocks in
      cons-Does cache_blocks _ (long NoStrings _ _ (λ n p. refl) (λ n p x. x)) (
        cons-Does cache_blocks _ (type-Does _) (
          cons-Does cache_blocks _ (long NoSize _ _ (λ n p. refl) (λ n p x. x)) (
            cons-Does cache_blocks _ (size_str-Does _) (
              cons-Does cache_blocks _ (long IsCache _ _ (λ n p. refl) (λ n p x. x)) (
                cons-Does cache_blocks _ (long IsCache _ _ (λ n p. refl) (λ n p x. x)) (
                  cons-Does cache_blocks _
                    (both_branches (CacheDoes IsCache IsCache) host.is_aarch64
                      (λ p k s x h. record { accounted = h; fact = x })
                      (long IsCache _ _ (λ n p. refl) (λ n p x. x)))
                    (cons-Does cache_blocks _ (long IsCache _ _ (λ n p. refl) (λ n p x. x))
                      (cons-Does cache_blocks _ (map-Does _) (nil-Does cache_blocks IsCache)))))))))

  core_siblings-Does :
      (cpu : ℕ) (path : Text)
      → Does one_block (NewCpu cpu) (NewCpu cpu) (λ p.
        read_field
          (read_bitmap host p.core_siblings host.nprocs path)
          (λ map p. record p { core_siblings = map })
          p)
  core_siblings-Does cpu path p k s (id, core, thread, none_yet) h =
      read_field-Does one_block no_blocks (NewCpu cpu)
        (read_bitmap host p.core_siblings host.nprocs path)
        (λ map p. record p { core_siblings = map }) p k s
        (read_bitmap-Even host is_host before p.core_siblings host.nprocs path (1 + k) s
          is_host.few_cpus core h)
        (λ m. omega arith) (λ m is. (id, is, thread, none_yet))

  thread_siblings-Does :
      (cpu : ℕ) (path : Text)
      → Does one_block (NewCpu cpu) (NewCpu cpu) (λ p.
        read_field
          (read_bitmap host p.thread_siblings host.nprocs path)
          (λ map p. record p { thread_siblings = map })
          p)
  thread_siblings-Does cpu path p k s (id, core, thread, none_yet) h =
      read_field-Does one_block no_blocks (NewCpu cpu)
        (read_bitmap host p.thread_siblings host.nprocs path)
        (λ map p. record p { thread_siblings = map }) p k s
        (read_bitmap-Even host is_host before p.thread_siblings host.nprocs path (1 + k) s
          is_host.few_cpus thread h)
        (λ m. omega arith) (λ m is. (id, core, is, none_yet))

  pub cpu_steps-Does :
      (cpu : ℕ) → Does one_block (NewCpu cpu) (NewCpu cpu) (run_steps (cpu_steps host cpu))
  unfolding cpu_steps
  cpu_steps-Does cpu =
      let to_einval = or_einval-Does one_block (NewCpu cpu) (NewCpu cpu) in
      let long = long-Does one_block (NewCpu cpu) in
      cons-Does one_block _ (to_einval _ (long _ _ (λ n p. refl) (λ n p x. x))) (
        cons-Does one_block _ (to_einval _ (core_siblings-Does cpu _)) (
          cons-Does one_block _ (to_einval _ (long _ _ (λ n p. refl) (λ n p x. x))) (
            cons-Does one_block _ (to_einval _ (thread_siblings-Does cpu _))
              (nil-Does one_block (NewCpu cpu)))))
