-- ===== src/Sysfs/Accounts/Topology.antt =====
-- The collection of the topology: what it allocates belongs to the objects of the two lists or is freed.
use mpipin.Base.{
  ℕ, zero, suc, ◌+◌, ◌≤◌, ◌<◌, ◌^◌, ◌≡◌, refl, sym, subst, arith, leb, inl, inr, List, [], ◌∷◌,
  ◌++◌, length, Option, none, some, both_branches,
}
use mpipin.Base.Errno.{Errno, enomem, Result, ok, err}
use mpipin.Ascii.{Text, codes, decimal}
use mpipin.Ascii.Decimal.{length-decimal_onto}
use mpipin.Bitmap.Kept.{IsMask}
use mpipin.CpuSet.{IsCpuSet}
use mpipin.CpuSet.Laws.{empty_set-IsCpuSet}
use mpipin.Topology.{CacheTopology, CpuTopology}
use mpipin.Pin.Assign.Choice.{AllMaps}
use mpipin.Sysfs.{Host, Store, path_max, free, malloc, file_readable}
use mpipin.Sysfs.Collect.{
  run_steps, cache_steps, cache_path, cpu_path, node_dname, new_cache, free_text, collect_cache,
  collect_cache_topology, collect_caches, find_node,
}
use mpipin.Sysfs.Accounts.{
  IsHost, Takes, Ends, OkFact, ok_blocks, no_blocks, Always, move, cache_blocks, caches_blocks,
  cpu_blocks, text_blocks, free-Takes, terminate-Takes, malloc-cases, with_block-Ends,
}
use mpipin.Sysfs.Accounts.Reads.{file_readable-Even}
use mpipin.Sysfs.Accounts.Steps.{object_blocks, ObjectFact, IsCpu, cache_steps-Does}

caches_blocks-append :
    (ps : List CacheTopology) (p : CacheTopology)
    → caches_blocks (ps ++ (p ∷ [])) ≡ caches_blocks ps + cache_blocks p
caches_blocks-append [] p = omega arith
caches_blocks-append (q ∷ qs) p = omega (arith, caches_blocks-append qs p)

AllMaps-append :
    (ps : List CacheTopology) (p : CacheTopology)
    → AllMaps ps
    → IsCpuSet p.shared_cpu_map
    → AllMaps (ps ++ (p ∷ []))
AllMaps-append [] p maps map = (map, tt)
AllMaps-append (q ∷ qs) p (here, maps) map = (here, AllMaps-append qs p maps map)

-- The name of a node's directory fits the buffer that `sprintf` writes it to, for numbers of CPUs and
-- nodes below 2^31: its length and the terminator are at most PATH_MAX.
pub length-node_dname :
    (cpu node : ℕ) → cpu < 2 ^ 31 → node < 2 ^ 31 → length (node_dname cpu node) < path_max
unfolding node_dname cpu_path decimal
length-node_dname cpu node lt lt' = omega (
  arith,
  length-decimal_onto 9 (suc cpu) cpu (codes "/node" ++ decimal node []) (omega arith),
  length-decimal_onto 9 (suc node) node [] (omega arith),
)

module _ (host : Host) (is_host : IsHost host) (before : Store) where
  free_text-Takes :
      (o : Option Text) (k : ℕ) (s : Store)
      → Takes before (text_blocks o + k) s
      → Takes before k (free_text o s)
  unfolding free_text
  free_text-Takes none k s h = move host is_host before (omega arith) h
  free_text-Takes (some text) k s h =
      free-Takes host is_host before k s (move host is_host before (omega arith) h)

  module _ (cpu : ℕ) where
    -- A step on the object of the CPU leaves it one, with an error or without.
    abbrev CpuEnds : ℕ → (Option Errno × CpuTopology) × Store → Type 0
    CpuEnds k r = Ends before (object_blocks cpu_blocks) (λ r. IsCpu cpu r.1) k r

    collect_cache-CpuEnds :
        (index : ℕ) (p : CpuTopology) (k : ℕ) (s : Store)
        → IsCpu cpu p
        → Takes before (cpu_blocks p + k) s
        → CpuEnds k (collect_cache host index p s)
    unfolding collect_cache
    collect_cache-CpuEnds index p k s is h =
        elim (malloc-cases host is_host before (cpu_blocks p + k) s h) [
          | inl (got, h') ↦ rw got (
              after
                (run_steps (cache_steps host p.cpu_id index) (new_cache index) (malloc host s).1)
                (cache_steps-Does host is_host before p.cpu_id index (new_cache index)
                  (cpu_blocks p + k) (malloc host s).1
                  (
                    refl,
                    refl,
                    record { size = empty_set-IsCpuSet.size; words = empty_set-IsCpuSet.words },
                  )
                  (move host is_host before (omega arith) h')))
          | inr (lack, h') ↦ rw lack (record { accounted = h'; fact = is })
        ]
      where
        after :
            (r : (Option Errno × CacheTopology) × Store)
            → Ends before
                (object_blocks cache_blocks)
                (ObjectFact (λ c. IsMask 16 c.shared_cpu_map))
                (cpu_blocks p + k)
                r
            → CpuEnds k (elim r.0.0 [
              | some error ↦
                  ((some error, p), free (free_text r.0.1.size_str (free_text r.0.1.type r.1)))
              | none ↦ (
                (none, record p { cache_topology_list = p.cache_topology_list ++ (r.0.1 ∷ []) }),
                r.1,
              )
            ])
        after ((some e, c), s) h = record {
          accounted = free-Takes host is_host before (cpu_blocks p + k) _ (
              free_text-Takes c.size_str (suc (cpu_blocks p + k)) _ (
                free_text-Takes c.type (text_blocks c.size_str + suc (cpu_blocks p + k)) s
                  (move host is_host before (omega arith) h.accounted)));
          fact = is;
        }
        after ((none, c), s) h = record {
          accounted =
              move host is_host before (omega (arith, caches_blocks-append p.cache_topology_list c))
                h.accounted;
          fact = (
            is.0,
            is.1,
            is.2,
            AllMaps-append p.cache_topology_list c is.3
                (record { size = h.fact.size; words = h.fact.words }),
          );
        }

    collect_cache_topology-CpuEnds :
        (index : ℕ) (p : CpuTopology) (k : ℕ) (s : Store)
        → IsCpu cpu p
        → Takes before (cpu_blocks p + k) s
        → CpuEnds k (collect_cache_topology host index p s)
    unfolding collect_cache_topology
    collect_cache_topology-CpuEnds index p k s is h =
        with_block-Ends host is_host before (object_blocks cpu_blocks) (λ r. IsCpu cpu r.1)
          (some enomem, p) _ k (cpu_blocks p + k) refl is
          (λ s h.
            both_branches (CpuEnds (suc k)) (leb path_max (length (cache_path p.cpu_id index [])))
              (record { accounted = move host is_host before (omega arith) h; fact = is })
              (after (file_readable host (cache_path p.cpu_id index (codes "/level")) s)
                (file_readable-Even host is_host before _ (suc (cpu_blocks p + k)) s h)))
          s h
      where
        after :
            (r : Result (Unit {0}) × Store)
            → Ends before (ok_blocks no_blocks) (OkFact Always) (suc (cpu_blocks p + k)) r
            → CpuEnds
                (suc k)
                (elim r.0 [ err error ↦ ((none, p), r.1) | ok _ ↦ collect_cache host index p r.1 ])
        after (err e, s) h = record {
          accounted = move host is_host before (omega arith) h.accounted;
          fact = is;
        }
        after (ok x, s) h =
            collect_cache-CpuEnds index p (suc k) s is
              (move host is_host before (omega arith) h.accounted)

    -- The loops over the caches and over the nodes.
    abbrev CpuKept : ℕ → CpuTopology × Store → Type 0
    CpuKept k r = Ends before cpu_blocks (IsCpu cpu) k r

    pub collect_caches-CpuKept :
        (rounds index : ℕ) (p : CpuTopology) (k : ℕ) (s : Store)
        → IsCpu cpu p
        → Takes before (cpu_blocks p + k) s
        → CpuKept k (collect_caches host rounds index p s)
    unfolding collect_caches
    collect_caches-CpuKept zero index p k s is h = record { accounted = h; fact = is }
    collect_caches-CpuKept (suc rounds) index p k s is h =
        after (collect_cache_topology host index p s)
          (collect_cache_topology-CpuEnds index p k s is h)
          (λ p s. collect_caches-CpuKept rounds (index + 1) p k s)
      where
        after :
            (r : (Option Errno × CpuTopology) × Store)
            → CpuEnds k r
            → ((p : CpuTopology) (s : Store)
                → IsCpu cpu p
                → Takes before (cpu_blocks p + k) s
                → CpuKept k (collect_caches host rounds (index + 1) p s))
            → CpuKept k (elim r.0.0 [
              | some error ↦ (r.0.1, r.1)
              | none ↦ collect_caches host rounds (index + 1) r.0.1 r.1
            ])
        after ((some e, p), s) h rest = record { accounted = h.accounted; fact = h.fact }
        after ((none, p), s) h rest = rest p s h.fact h.accounted

    pub find_node-CpuKept :
        (rounds node : ℕ) (p : CpuTopology) (k : ℕ) (s : Store)
        → cpu < 2 ^ 31
        → node + rounds ≤ 2 ^ 31
        → IsCpu cpu p
        → Takes before (cpu_blocks p + k) s
        → CpuKept k (find_node host rounds node p s)
    unfolding find_node
    find_node-CpuKept zero node p k s lt le is h = record { accounted = h; fact = is }
    find_node-CpuKept (suc rounds) node p k s lt le is h =
        let here : length (node_dname p.cpu_id node) < path_max =
          subst (λ c. length (node_dname c node) < path_max) (sym is.0)
            (length-node_dname cpu node lt (omega arith)) in
        let h' =
          terminate-Takes host is_host before path_max (length (node_dname p.cpu_id node))
            (cpu_blocks p + k) s here h in
        both_branches (CpuKept k) (host.stat (node_dname p.cpu_id node))
          (record { accounted = h'; fact = is })
          (find_node-CpuKept rounds (node + 1) p k _ lt (omega arith) is h')
