-- ===== src/Sysfs/Collect.antt =====
-- mpipin.c: the collection of the topology, collect_cache_topology to collect_topology.
use Prim.Native.String.{String}
use mpipin.Base.{
  ℕ, zero, suc, ◌+◌, ◌-◌, ◌*◌, not, leb, if◌then◌else◌, List, [], ◌∷◌, ◌++◌, length, Option, none,
  some,
}
use mpipin.Base.Int.{ℤ, pos, negsuc}
use mpipin.Base.Errno.{Errno, einval, enomem, enametoolong, ok, err}
use mpipin.Ascii.{Text, codes, decimal}
use mpipin.CpuSet.{CpuSet, empty_set, cpu_isset}
use mpipin.Topology.{CacheTopology, CpuTopology}
use mpipin.Sysfs.{
  Host, Store, path_max, Action, free, terminate, malloc, with_block, file_readable, read_long,
  read_bitmap, read_bitmap_parselist, read_string,
}

-- A statement that reads into an object: the error, or none, and the object after it.
abbrev pub Step : Type 0 → Type 0
Step T = T → Store → (Option Errno × T) × Store

-- `error = <read>(&p-><field>, ...)`
unfoldable pub read_field : {A T : Type 0} → Action A → (A → T → T) → Step T
read_field action put p s =
    let (r, s') = action s in elim r [ ok a ↦ ((none, put a p), s') | err e ↦ ((some e, p), s') ]

-- Each followed by `if (error) goto out;`
unfoldable pub run_steps : {T : Type 0} → List (Step T) → Step T
run_steps [] p s = ((none, p), s)
run_steps (step ∷ steps) p s =
    let ((e, p'), s') = step p s in
    let rest = run_steps steps p' s' in elim e [ some error ↦ ((some error, p'), s') | none ↦ rest ]

-- `error = -EINVAL` for whatever error.
unfoldable pub or_einval : {T : Type 0} → Step T → Step T
or_einval step p s =
    let ((e, p'), s') = step p s in
    (elim e [ some error ↦ (some einval, p') | none ↦ (none, p') ], s')

-- `p->size *= 1024`, for products that a `long` holds.
abbrev times_1024 : ℤ → ℤ
times_1024 (pos n) = pos (n * 1024)
times_1024 (negsuc n) = negsuc ((n + 1) * 1024 - 1)

-- The objects as memset and the assignments behind it leave them.
abbrev pub new_cache : (index : ℕ) → CacheTopology
new_cache index = record {
  index = index;
  level = pos 0;
  type = none;
  size = pos 0;
  size_str = none;
  coherency_line_size = pos 0;
  number_of_sets = pos 0;
  physical_line_partition = pos 0;
  ways_of_associativity = pos 0;
  shared_cpu_map = empty_set;
}

abbrev pub new_cpu : (cpu : ℕ) → CpuTopology
new_cpu cpu = record {
  cpu_id = cpu;
  node_id = 0;
  hw_id = 0;
  physical_package_id = pos 0;
  core_id = pos 0;
  core_siblings = empty_set;
  thread_siblings = empty_set;
  cache_topology_list = [];
}

unfoldable pub cpu_path : (cpu : ℕ) → Text → Text
cpu_path cpu rest = codes "/sys/devices/system/cpu/cpu" ++ decimal cpu rest

unfoldable pub cache_path : (cpu index : ℕ) → Text → Text
cache_path cpu index rest = cpu_path cpu (codes "/cache/index" ++ decimal index rest)

unfoldable pub node_dname : (cpu node : ℕ) → Text
node_dname cpu node = cpu_path cpu (codes "/node" ++ decimal node [])

unfoldable pub cpumap_path : (node : ℕ) → Text
cpumap_path node = codes "/sys/devices/system/node/node" ++ decimal node (codes "/cpumap")

-- free(p->type), where a NULL pointer is no block.
unfoldable pub free_text : Option Text → Store → Store
free_text none s = s
free_text (some text) s = free s

module _ (host : Host) where
  unfoldable pub cache_steps : (cpu index : ℕ) → List (Step CacheTopology)
  cache_steps cpu index =
      let long : String → Action ℤ = λ name. read_long host (cache_path cpu index (codes name)) in
      let string : String → Action Text =
        λ name. read_string host (cache_path cpu index (codes name)) in
      let shared = cache_path cpu index (codes "/shared_cpu_map") in
      let skip : Step CacheTopology = λ p s. ((none, p), s) in
      let partition : Step CacheTopology =
        read_field (long "/physical_line_partition")
          (λ n p. record p { physical_line_partition = n }) in
      read_field (long "/level") (λ n p. record p { level = n })
      ∷ read_field (string "/type") (λ t p. record p { type = some t })
      ∷ read_field (long "/size") (λ n p. record p { size = times_1024 n })
      ∷ read_field (string "/size") (λ t p. record p { size_str = some t })
      ∷ read_field (long "/coherency_line_size") (λ n p. record p { coherency_line_size = n })
      ∷ read_field (long "/number_of_sets") (λ n p. record p { number_of_sets = n })
      ∷ (if host.is_aarch64 then skip else partition)
      ∷ read_field (long "/ways_of_associativity") (λ n p. record p { ways_of_associativity = n })
      ∷ (λ p.
          read_field (read_bitmap host p.shared_cpu_map host.nprocs shared)
            (λ map p. record p { shared_cpu_map = map }) p)
      ∷ []

  -- From the allocation of `p` on.
  unfoldable pub collect_cache : (index : ℕ) → Step CpuTopology
  collect_cache index cpu_topo s =
      let (got, s') = malloc host s in
      let ((e, p), s'') = run_steps (cache_steps cpu_topo.cpu_id index) (new_cache index) s' in
      if got
      then elim e [
        | some error ↦ ((some error, cpu_topo), free (free_text p.size_str (free_text p.type s'')))
        | none ↦ (
          (
            none,
            record cpu_topo { cache_topology_list = cpu_topo.cache_topology_list ++ (p ∷ []) },
          ),
          s'',
        )
      ]
      else ((some enomem, cpu_topo), s')

  -- A cache that has no file `level` is left out.
  unfoldable pub collect_cache_topology : (index : ℕ) → Step CpuTopology
  collect_cache_topology index cpu_topo =
      with_block host (some enomem, cpu_topo)
        λ s.
          let (r, s') = file_readable host (cache_path cpu_topo.cpu_id index (codes "/level")) s in
          if leb path_max (length (cache_path cpu_topo.cpu_id index []))
          then ((some enametoolong, cpu_topo), s)
          else elim r [
            | err error ↦ ((none, cpu_topo), s')
            | ok _ ↦ collect_cache index cpu_topo s'
          ]

  -- The loop over the caches, with the rounds left. An error ends it, and is ignored.
  unfoldable pub collect_caches : (rounds index : ℕ) → CpuTopology → Store → CpuTopology × Store
  collect_caches zero index p s = (p, s)
  collect_caches (suc rounds) index p s =
      let ((e, p'), s') = collect_cache_topology index p s in
      let rest = collect_caches rounds (index + 1) p' s' in
      elim e [ some error ↦ (p', s') | none ↦ rest ]

  -- The loop over the NUMA nodes, with the rounds left.
  unfoldable pub find_node : (rounds node : ℕ) → CpuTopology → Store → CpuTopology × Store
  find_node zero node p s = (p, s)
  find_node (suc rounds) node p s =
      let dname = node_dname p.cpu_id node in
      let s' = terminate path_max (length dname) s in
      let rest = find_node rounds (node + 1) p s' in
      if host.stat dname then (record p { node_id = node }, s') else rest

  unfoldable pub cpu_steps : (cpu : ℕ) → List (Step CpuTopology)
  cpu_steps cpu =
      let path : String → Text = λ name. cpu_path cpu (codes name) in
      or_einval
        (read_field (read_long host (path "/topology/core_id")) (λ n p. record p { core_id = n }))
      ∷ or_einval (λ p.
        read_field (read_bitmap host p.core_siblings host.nprocs (path "/topology/core_siblings"))
          (λ map p. record p { core_siblings = map }) p)
      ∷ or_einval (
          read_field (read_long host (path "/topology/physical_package_id"))
            (λ n p. record p { physical_package_id = n }))
      ∷ or_einval (λ p.
        read_field
          (read_bitmap host p.thread_siblings host.nprocs (path "/topology/thread_siblings"))
          (λ map p. record p { thread_siblings = map }) p)
      ∷ []

  -- From the end of the reads on: the node, the caches and the list.
  unfoldable pub add_cpu : CpuTopology → Store → Store
  add_cpu p s =
      let (p', s') = find_node host.nodes 0 p s in
      let (p'', s'') = collect_caches 10 0 p' s' in
      record s'' { cpu_topology_list = s''.cpu_topology_list ++ (p'' ∷ []) }

  -- From the allocation of `p` on.
  unfoldable pub collect_cpu : (cpu : ℕ) → Action (Unit {0})
  collect_cpu cpu s =
      let (got, s') = malloc host s in
      let ((e, p), s'') = run_steps (cpu_steps cpu) (new_cpu cpu) s' in
      if got
      then elim e [ some error ↦ (err error, free s'') | none ↦ (ok tt, add_cpu p s'') ]
      else (err enomem, s')

  unfoldable pub collect_cpu_topology : (cpu : ℕ) → Action (Unit {0})
  collect_cpu_topology cpu = with_block host (err enomem) λ s.
      if leb path_max (length (cpu_path cpu [])) then (err enametoolong, s) else collect_cpu cpu s

  unfoldable pub collect_node_topology : (node : ℕ) → Action (Unit {0})
  collect_node_topology node s =
      let (got, s') = malloc host s in
      let (r, s'') = read_bitmap host empty_set host.nprocs (cpumap_path node) s' in
      if got
      then elim r [
        | err error ↦ (err enomem, free s'')
        | ok map ↦ (
          ok tt,
          record s'' {
            node_topology_list =
                s''.node_topology_list ++ (record { node_number = node; cpumap = map } ∷ []);
          },
        )
      ]
      else (err enomem, s')

  -- The loops of collect_topology, with the rounds left.
  unfoldable pub collect_cpus : (rounds cpu : ℕ) → (cpus : CpuSet) → Action (Unit {0})
  collect_cpus zero cpu cpus s = (ok tt, s)
  collect_cpus (suc rounds) cpu cpus s =
      let skipped = collect_cpus rounds (cpu + 1) cpus s in
      let (r, s') = collect_cpu_topology cpu s in
      let rest = collect_cpus rounds (cpu + 1) cpus s' in
      if cpu_isset cpu cpus then elim r [ err error ↦ (err einval, s') | ok _ ↦ rest ] else skipped

  unfoldable pub collect_nodes : (rounds node : ℕ) → Action (Unit {0})
  collect_nodes zero node s = (ok tt, s)
  collect_nodes (suc rounds) node s =
      let (r, s') = collect_node_topology node s in
      let rest = collect_nodes rounds (node + 1) s' in
      elim r [ err error ↦ (err einval, s') | ok _ ↦ rest ]

  -- Both loops.
  unfoldable pub collect_objects : (cpus : CpuSet) → Action (Unit {0})
  collect_objects cpus s =
      let (r, s') = collect_cpus host.nprocs 0 cpus s in
      elim r [ err error ↦ (err error, s') | ok _ ↦ collect_nodes host.nodes 0 s' ]

  -- `cpus` is the local variable, not initialised.
  unfoldable pub collect_topology : (cpus : CpuSet) → Action (Unit {0})
  collect_topology cpus s =
      let (r, s') =
        read_bitmap_parselist host cpus host.nprocs (codes "/sys/devices/system/cpu/online") s in
      if not host.has_numa
      then (err einval, s)
      else elim r [ err error ↦ (err einval, s') | ok online ↦ collect_objects online s' ]
