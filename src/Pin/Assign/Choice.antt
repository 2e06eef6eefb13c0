-- ===== src/Pin/Assign/Choice.antt =====
-- Which CPU `pin_process` takes next: the specification that the loops of `choose_cpu` meet.
use mpipin.Base.{
  ℕ, ◌≤◌, ◌<◌, ◌≡◌, refl, arith, true, ◌==◌, if◌then◌else◌, List, [], ◌∷◌, Option, none, some,
  subst, dec_lt,
}
use mpipin.Base.Errno.{einval, Result, ok, err}
use mpipin.Bitops.{get_bit}
use mpipin.Bitops.Find.{IsFirst}
use mpipin.CpuSet.{CpuSet, cpu_bits, IsCpuSet, cpu_isset, cpuset_first}
use mpipin.CpuSet.Laws.{cpu_isset-get_bit, get_bit_past}
use mpipin.CpuSet.Each.{Searched, hit, miss, for_each_cpu-Searched, cpuset_first-IsFirst}
use mpipin.Topology.{CacheTopology, CpuTopology}
use mpipin.Pin.Assign.{Masks, find_cpu_topology, same_cache, same_node, choose_cpu}

abbrev pub Members : CpuSet → ℕ → Type 0
Members s cpu = get_bit s cpu ≡ true

-- `cpu` is the lowest CPU below `nprocs` that passes the test.
pub record IsLeast (nprocs : ℕ) (P : ℕ → Type 0) (cpu : ℕ) : Type 0 where
  pub inside : cpu < nprocs
  pub holds : P cpu
  pub least : (j : ℕ) → j < cpu → ¬ P j

-- Both in the cache's CPUs and available.
abbrev pub Shares : CpuSet → CacheTopology → ℕ → Type 0
Shares available cache cpu = Members cache.shared_cpu_map cpu × Members available cpu

-- No available CPU below `nprocs` shares the cache.
abbrev pub NoneShares : ℕ → CpuSet → CacheTopology → Type 0
NoneShares nprocs available cache = (j : ℕ) → j < nprocs → ¬ Shares available cache j

-- The first cache of the list that an available CPU shares, and the lowest such CPU.
pub data NearCache (nprocs : ℕ) (available : CpuSet) (cpu : ℕ) : List CacheTopology → Type 0 where
  this :
      {cache : CacheTopology} {rest : List CacheTopology}
      → IsLeast nprocs (Shares available cache) cpu
      → NearCache nprocs available cpu (cache ∷ rest)
  further :
      {cache : CacheTopology} {rest : List CacheTopology}
      → NoneShares nprocs available cache
      → NearCache nprocs available cpu rest
      → NearCache nprocs available cpu (cache ∷ rest)

pub data NoCache (nprocs : ℕ) (available : CpuSet) : List CacheTopology → Type 0 where
  done : NoCache nprocs available []
  also :
      {cache : CacheTopology} {rest : List CacheTopology}
      → NoneShares nprocs available cache
      → NoCache nprocs available rest
      → NoCache nprocs available (cache ∷ rest)

-- An available CPU whose topology object names the node.
abbrev pub OnNode : List CpuTopology → CpuSet → ℕ → ℕ → Type 0
OnNode tops available node cpu =
    Members available cpu
    × ((top : CpuTopology) × (find_cpu_topology tops cpu ≡ some top) × (node ≡ top.node_id))

-- The CPU to take after one with topology object `top`: one that shares a cache with it, the caches
-- in the order of the list; else one of its NUMA node; else any. The lowest number decides.
pub data Chosen (nprocs : ℕ) (tops : List CpuTopology) (available : CpuSet) (top : CpuTopology)
    : ℕ → Type 0 where
  by_cache :
      {cpu : ℕ}
      → NearCache nprocs available cpu top.cache_topology_list
      → Chosen nprocs tops available top cpu
  by_node :
      {cpu : ℕ}
      → NoCache nprocs available top.cache_topology_list
      → IsLeast nprocs (OnNode tops available top.node_id) cpu
      → Chosen nprocs tops available top cpu
  by_number :
      {cpu : ℕ}
      → NoCache nprocs available top.cache_topology_list
      → ((j : ℕ) → j < nprocs → ¬ OnNode tops available top.node_id j)
      → IsFirst (get_bit available) 0 cpu_bits cpu
      → Chosen nprocs tops available top cpu

-- Every available CPU has a topology object.
abbrev pub Covers : List CpuTopology → CpuSet → Type 0
Covers tops available =
    (cpu : ℕ)
    → Members available cpu
    → (top : CpuTopology) × (find_cpu_topology tops cpu ≡ some top)

-- The maps of the caches are sets of 1024 bits.
abbrev pub AllMaps : List CacheTopology → Type 0
AllMaps [] = Unit {0}
AllMaps (cache ∷ rest) = IsCpuSet cache.shared_cpu_map × AllMaps rest

-- What the searches return, as specified.
abbrev OneCache : ℕ → CpuSet → CacheTopology → Option ℕ → Type 0
OneCache nprocs available cache none = NoneShares nprocs available cache
OneCache nprocs available cache (some cpu) = IsLeast nprocs (Shares available cache) cpu

abbrev CacheResult : ℕ → CpuSet → List CacheTopology → Option ℕ → Type 0
CacheResult nprocs available caches none = NoCache nprocs available caches
CacheResult nprocs available caches (some cpu) = NearCache nprocs available cpu caches

abbrev NodeResult : ℕ → List CpuTopology → CpuSet → ℕ → Option (Result ℕ) → Type 0
NodeResult nprocs tops available node none = (j : ℕ) → j < nprocs → ¬ OnNode tops available node j
NodeResult nprocs tops available node (some (ok cpu)) =
    IsLeast nprocs (OnNode tops available node) cpu
NodeResult nprocs tops available node (some (err e)) = ⊥

module _ (nprocs : ℕ) (few : nprocs ≤ cpu_bits) (available : CpuSet)
    (is_set : IsCpuSet available) where
  one_cache :
      (cache : CacheTopology) {r : Option ℕ}
      → Searched nprocs 0 cache.shared_cpu_map
          (λ cpu. if cpu_isset cpu available then some cpu else none)
          r
      → OneCache nprocs available cache r
  one_cache cache (hit {r} cpu a lt there body before) =
      let same : cpu ≡ r = ground arith in
      subst (λ c. IsLeast nprocs (Shares available cache) c) same
        (record {
          inside = lt;
          holds = (there, ground (arith, cpu_isset-get_bit cpu is_set));
          least = λ j below (t, u). ground (arith, before j, cpu_isset-get_bit j is_set);
        })
  one_cache cache (miss none_left) =
      λ j lt (t, u). ground (arith, none_left j, cpu_isset-get_bit j is_set)

  same_cache-CacheResult :
      (caches : List CacheTopology)
      → AllMaps caches
      → CacheResult nprocs available caches (same_cache nprocs available caches)
  unfolding same_cache
  same_cache-CacheResult [] maps = done
  same_cache-CacheResult (cache ∷ rest) maps =
      go _ (one_cache cache (for_each_cpu-Searched nprocs cache.shared_cpu_map _ few maps.0)) _
        (same_cache-CacheResult rest maps.1)
    where
      go :
          (r : Option ℕ)
          → OneCache nprocs available cache r
          → (q : Option ℕ) → CacheResult nprocs available rest q
          → CacheResult nprocs available (cache ∷ rest) (elim r [ some cpu ↦ some cpu | none ↦ q ])
      go (some cpu) h q k = this h
      go none h none k = also h k
      go none h (some cpu) k = further h k

  module _ (tops : List CpuTopology) (covers : Covers tops available) where
    abbrev node_body : ℕ → ℕ → Option (Result ℕ)
    node_body node cpu = elim (find_cpu_topology tops cpu) [
      | none ↦ some (err einval)
      | some cpu_top ↦ if node == cpu_top.node_id then some (ok cpu) else none
    ]

    -- The body of the loop at a CPU whose topology object is known.
    node_body_at :
        (node cpu : ℕ) (top : CpuTopology)
        → find_cpu_topology tops cpu ≡ some top
        → node_body node cpu ≡ (if node == top.node_id then some (ok cpu) else none)
    node_body_at node cpu top found = rw (found, node_body)

    node_body-none : (node j : ℕ) → node_body node j ≡ none → ¬ OnNode tops available node j
    node_body-none node j e (m, (top, found, here)) = ground (arith, node_body_at node j top found)

    one_node :
        (node : ℕ) {r : Option (Result ℕ)}
        → Searched nprocs 0 available (node_body node) r
        → NodeResult nprocs tops available node r
    one_node node (hit {r = ok c} cpu a lt there body before) =
        let (top, found) = covers cpu there in
        let same : cpu ≡ c = ground (arith, node_body_at node cpu top found) in
        let here : node ≡ top.node_id = ground (arith, node_body_at node cpu top found) in
        subst (λ c. IsLeast nprocs (OnNode tops available node) c) same
          (record {
            inside = lt;
            holds = (there, (top, found, here));
            least = λ j below on. node_body-none node j (before j (omega arith) below on.0) on;
          })
    one_node node (hit {r = err e} cpu a lt there body before) =
        let (top, found) = covers cpu there in ground (arith, node_body_at node cpu top found)
    one_node node (miss none_left) =
        λ j lt on. node_body-none node j (none_left j (omega arith) lt on.0) on

    same_node-NodeResult :
        (node : ℕ) → NodeResult nprocs tops available node (same_node nprocs tops available node)
    unfolding same_node
    same_node-NodeResult node = one_node node (for_each_cpu-Searched nprocs available _ few is_set)

-- A CPU that is chosen while some CPU is available is available.
NearCache-available :
    {nprocs : ℕ} {available : CpuSet} {cpu : ℕ} {caches : List CacheTopology}
    → NearCache nprocs available cpu caches
    → Members available cpu
NearCache-available (this h) = h.holds.1
NearCache-available (further _ h) = NearCache-available h

pub first-available :
    {s : CpuSet} {cpu : ℕ} (i : ℕ)
    → IsFirst (get_bit s) 0 cpu_bits cpu
    → IsCpuSet s
    → Members s i
    → Members s cpu
first-available {s} {cpu} i first is_set there = elim (dec_lt cpu cpu_bits) [
  | yes lt ↦ first.found lt
  | no ge ↦ absurd (ground (arith, first.before i, get_bit_past is_set i))
]

pub Chosen-available :
    {nprocs : ℕ} {tops : List CpuTopology} {available : CpuSet} {top : CpuTopology} {cpu : ℕ}
    (i : ℕ)
    → Chosen nprocs tops available top cpu
    → IsCpuSet available
    → Members available i
    → Members available cpu
Chosen-available i (by_cache h) is_set there = NearCache-available h
Chosen-available i (by_node _ h) is_set there = h.holds.0
Chosen-available i (by_number _ _ first) is_set there = first-available i first is_set there

-- The search succeeds with the CPU that is chosen, which is available if any is.
abbrev ChosenResult : (nprocs : ℕ) → List CpuTopology → CpuSet → CpuTopology → Result ℕ → Type 0
ChosenResult nprocs tops available top r =
    (cpu : ℕ) × (r ≡ ok cpu)
    × Chosen nprocs tops available top cpu
    × ((i : ℕ) → Members available i → Members available cpu)

-- Where the last CPU and every available one have a topology object and there are at most 1024 CPUs,
-- the search of `pin_process` for the next CPU succeeds. It takes the lowest available CPU that shares
-- the first cache of the last CPU's list that any shares, else the lowest of its NUMA node, else what
-- cpuset_first gives, which is 1024 where no CPU is available; so that the CPU is available if any is.
-- The CPUs of the caches and the available ones are CPU sets.
pub choose_cpu-Chosen :
    (nprocs : ℕ) (tops : List CpuTopology) (m : Masks) (top : CpuTopology)
    → nprocs ≤ cpu_bits
    → IsCpuSet m.cpus_available
    → Covers tops m.cpus_available
    → AllMaps top.cache_topology_list
    → find_cpu_topology tops m.cpu_prev ≡ some top
    → (cpu : ℕ) × (choose_cpu nprocs tops m ≡ ok cpu)
      × Chosen nprocs tops m.cpus_available top cpu
      × ((i : ℕ) → Members m.cpus_available i → Members m.cpus_available cpu)
unfolding choose_cpu
choose_cpu-Chosen nprocs tops m top few is_set covers maps found =
    rw (found, choose_cpu)
      (go _ (same_cache-CacheResult nprocs few available is_set caches maps) _
        (same_node-NodeResult nprocs few available is_set tops covers top.node_id))
  where
    available : CpuSet
    available = m.cpus_available

    caches : List CacheTopology
    caches = top.cache_topology_list

    taken :
        (cpu : ℕ)
        → Chosen nprocs tops available top cpu
        → ChosenResult nprocs tops available top (ok cpu)
    taken cpu chosen = (cpu, refl, chosen, λ i there. Chosen-available i chosen is_set there)

    go :
        (r : Option ℕ)
        → CacheResult nprocs available caches r
        → (q : Option (Result ℕ)) → NodeResult nprocs tops available top.node_id q
        → ChosenResult nprocs tops available top (elim r [
          | some cpu ↦ ok cpu
          | none ↦ elim q [ some r ↦ r | none ↦ ok (cpuset_first available) ]
        ])
    go (some cpu) h q k = taken cpu (by_cache h)
    go none h (some (ok cpu)) k = taken cpu (by_node h k)
    go none h (some (err e)) k = absurd k
    go none h none k =
        taken (cpuset_first available) (by_number h k (cpuset_first-IsFirst available is_set))
