-- ===== src/Sysfs/Described/Loops.antt =====
-- The loops of collect_topology over the CPUs and over the NUMA nodes, and the whole of it.
use mpipin.Base.{
  ℕ, zero, suc, ◌+◌, ◌≤◌, ◌<◌, ◌^◌, ◌≡◌, refl, ap, subst, arith, true, not, Bool-cases, inl, inr,
  both_branches, [], ◌∷◌, ◌++◌, length-append, ℕ_discrete,
}
use mpipin.Base.Errno.{Errno, einval, enomem, Result, ok, err}
use mpipin.Ascii.{codes}
use mpipin.Bitops.{Words}
use mpipin.Bitmap.Kept.{IsMask}
use mpipin.CpuSet.{CpuSet, IsCpuSet, empty_set, cpu_isset}
use mpipin.CpuSet.Laws.{empty_set-IsCpuSet}
use mpipin.Sysfs.{Host, Store, Action, free, malloc, read_bitmap, read_bitmap_parselist}
use mpipin.Sysfs.Collect.{
  collect_cpu_topology, collect_node_topology, collect_cpus, collect_nodes, collect_objects,
  collect_topology, cpumap_path,
}
use mpipin.Sysfs.Accounts.{
  IsHost, Takes, Ends, OkFact, ok_blocks, no_blocks, move, free-Takes, malloc-cases,
}
use mpipin.Sysfs.Accounts.Reads.{read_bitmap-Even, read_bitmap_parselist-Even}
use mpipin.Sysfs.Described.{
  Found, Collects, Collects-self, Collects-trans, Takes-Collects, Adds, collect_cpu_topology-Adds,
}

Takes-self : (s : Store) → Takes s 0 s
Takes-self s = record {
  taken = omega arith;
  closed = refl;
  inside = refl;
  cpus = refl;
  nodes = refl;
}

-- A failed action does not succeed.
not_ok : {e : Errno} {r : Result (Unit {0})} → r ≡ err e → ¬ (r ≡ ok tt)
not_ok e x = absurd (ground (arith, x, e))

-- Whatever the result of the action.
abbrev Grows : Store → Result (Unit {0}) × Store → Type 0
Grows s r = Collects 0 s r.1

Found-Collects :
    {k : ℕ} {s t : Store} (cpu : ℕ)
    → Collects k s t
    → Found s.cpu_topology_list cpu
    → Found t.cpu_topology_list cpu
Found-Collects cpu c (top, e) = (top, c.kept cpu top e)

-- The outcome of the loop over the CPUs from `from` up to `to`: if it succeeds, each online CPU among
-- them is found.
pub record AddsAll (cpus : CpuSet) (from to : ℕ) (before : Store) (r : Result (Unit {0}) × Store)
    : Type 0 where
  pub collects : Collects 0 before r.1
  pub found :
      r.0 ≡ ok tt
      → (cpu : ℕ) → from ≤ cpu
      → cpu < to
      → cpu_isset cpu cpus ≡ true
      → Found r.1.cpu_topology_list cpu

-- The set of online CPUs as collect_topology reads it.
abbrev pub online_cpus : Host → CpuSet → Action Words
online_cpus host cpus =
    read_bitmap_parselist host cpus host.nprocs (codes "/sys/devices/system/cpu/online")

-- The outcome of collect_topology, where `read` is the set of online CPUs or an error.
pub record Collected (read : Result Words) (nprocs : ℕ) (before : Store)
    (r : Result (Unit {0}) × Store) : Type 0 where
  pub collects : Collects 0 before r.1
  pub found :
      r.0 ≡ ok tt
      → (online : CpuSet) × (read ≡ ok online)
        × IsCpuSet online
        × ((cpu : ℕ) → cpu < nprocs → cpu_isset cpu online ≡ true → Found r.1.cpu_topology_list cpu)

module _ (host : Host) (is_host : IsHost host) (few : host.nodes ≤ 2 ^ 31) where
  collect_cpus-AddsAll :
      (rounds cpu : ℕ) (cpus : CpuSet) (s : Store)
      → cpu + rounds ≤ 2 ^ 31
      → AddsAll cpus cpu (cpu + rounds) s (collect_cpus host rounds cpu cpus s)
  unfolding collect_cpus
  collect_cpus-AddsAll zero cpu cpus s int = record {
    collects = Collects-self s;
    found = λ _ c ge lt _. absurd (omega arith);
  }
  collect_cpus-AddsAll (suc rounds) cpu cpus s int = elim (Bool-cases (cpu_isset cpu cpus)) [
    | inl online ↦ rw online (
        after (collect_cpu_topology host cpu s)
          (collect_cpu_topology-Adds host is_host few s cpu (omega arith) s (Takes-self s))
          (λ s. collect_cpus-AddsAll rounds (cpu + 1) cpus s (omega arith)))
    | inr offline ↦
        let rest = collect_cpus-AddsAll rounds (cpu + 1) cpus s (omega arith) in
        rw offline (record {
          collects = rest.collects;
          found = λ e c ge lt on. elim (ℕ_discrete cpu c) [
            | yes here ↦ absurd (ground (arith, on, offline, ap (λ c. cpu_isset c cpus) here))
            | no other ↦ rest.found e c (omega arith) (omega arith) on
          ];
        })
  ]
    where
      after :
          (r : Result (Unit {0}) × Store)
          → Adds cpu 0 s r
          → ((t : Store)
              → AddsAll cpus
                  (cpu + 1)
                  (cpu + 1 + rounds)
                  t
                  (collect_cpus host rounds (cpu + 1) cpus t))
          → AddsAll cpus cpu (cpu + suc rounds) s (elim r.0 [
            | err error ↦ (err einval, r.1)
            | ok _ ↦ collect_cpus host rounds (cpu + 1) cpus r.1
          ])
      after (err e, t) h rest = record {
        collects = h.collects;
        found = λ x. absurd (not_ok refl x);
      }
      after (ok x, t) h rest = record {
        collects = Collects-trans h.collects (rest t).collects;
        found = λ e c ge lt on. elim (ℕ_discrete cpu c) [
          | yes here ↦ subst (Found _) here (Found-Collects cpu (rest t).collects (h.found refl))
          | no other ↦ (rest t).found e c (omega arith) (omega arith) on
        ];
      }

  -- A node is one block more and one object more.
  collect_node_topology-Collects :
      (node : ℕ) (s : Store) → Collects 0 s (collect_node_topology host node s).1
  unfolding collect_node_topology
  collect_node_topology-Collects node s = elim (malloc-cases host is_host s 0 s (Takes-self s)) [
    | inl (got, h) ↦ rw got (
        after (read_bitmap host empty_set host.nprocs (cpumap_path node) (malloc host s).1) (
          read_bitmap-Even host is_host s empty_set host.nprocs (cpumap_path node) 1 _
            is_host.few_cpus
            (record { size = empty_set-IsCpuSet.size; words = empty_set-IsCpuSet.words }) h))
    | inr (lack, h) ↦ rw lack (Takes-Collects h)
  ]
    where
      after :
          (r : Result Words × Store)
          → Ends s (ok_blocks no_blocks) (OkFact (λ map. IsMask 16 map)) 1 r
          → Grows s (elim r.0 [
            | err error ↦ (err enomem, free r.1)
            | ok map ↦ (
              ok tt,
              record (r.1) {
                node_topology_list =
                    (r.1).node_topology_list ++ (record { node_number = node; cpumap = map } ∷ []);
              },
            )
          ])
      after (err e, t) h =
          Takes-Collects
            (free-Takes host is_host s 0 t (move host is_host s (omega arith) h.accounted))
      after (ok map, t) h =
          let c = Takes-Collects h.accounted in
          let more =
            length-append t.node_topology_list (record { node_number = node; cpumap = map } ∷ []) in
          record {
            grows = omega (arith, c.grows, more);
            balance = omega (arith, c.balance, more);
            closed = c.closed;
            inside = c.inside;
            kept = c.kept;
            caches = c.caches;
          }

  collect_nodes-Collects :
      (rounds node : ℕ) (s : Store) → Collects 0 s (collect_nodes host rounds node s).1
  unfolding collect_nodes
  collect_nodes-Collects zero node s = Collects-self s
  collect_nodes-Collects (suc rounds) node s =
      after (collect_node_topology host node s) (collect_node_topology-Collects node s)
        (λ t. collect_nodes-Collects rounds (node + 1) t)
    where
      after :
          (r : Result (Unit {0}) × Store)
          → Collects 0 s r.1
          → ((t : Store) → Collects 0 t (collect_nodes host rounds (node + 1) t).1)
          → Grows s (elim r.0 [
            | err error ↦ (err einval, r.1)
            | ok _ ↦ collect_nodes host rounds (node + 1) r.1
          ])
      after (err e, t) h rest = h
      after (ok x, t) h rest = Collects-trans h (rest t)

  collect_objects-AddsAll :
      (cpus : CpuSet) (s : Store)
      → host.nprocs ≤ 2 ^ 31
      → AddsAll cpus 0 host.nprocs s (collect_objects host cpus s)
  unfolding collect_objects
  collect_objects-AddsAll cpus s int =
      let from_zero : 0 + host.nprocs ≡ host.nprocs = omega arith in
      after (collect_cpus host host.nprocs 0 cpus s) (
        subst (λ to. AddsAll cpus 0 to s (collect_cpus host host.nprocs 0 cpus s)) from_zero
          (collect_cpus-AddsAll host.nprocs 0 cpus s (omega arith)))
    where
      after :
          (r : Result (Unit {0}) × Store)
          → AddsAll cpus 0 host.nprocs s r
          → AddsAll cpus 0 host.nprocs s (elim r.0 [
            | err error ↦ (err error, r.1)
            | ok _ ↦ collect_nodes host host.nodes 0 r.1
          ])
      after (err e, t) h = h
      after (ok x, t) h =
          let rest = collect_nodes-Collects host.nodes 0 t in
          record {
            collects = Collects-trans h.collects rest;
            found = λ _ c ge lt on. Found-Collects c rest (h.found refl c ge lt on);
          }

  -- Whatever fails, collect_topology leaves no block allocated but those of the objects in the two
  -- lists, no descriptor open and no write past the end of a buffer or a CPU set; and if it succeeds, the
  -- text of the online CPUs is a CPU set, and each of them below nprocs has an object: for a system as `IsHost`
  -- states, with at most 1024 CPUs, at most 2^31 nodes, and a local variable of 16 words.
  pub collect_topology-Collected :
      (cpus : CpuSet) (s : Store)
      → IsCpuSet cpus
      → Collected (online_cpus host cpus s).0 host.nprocs s (collect_topology host cpus s)
  unfolding collect_topology
  collect_topology-Collected cpus s is =
      both_branches (Collected _ host.nprocs s) (not host.has_numa)
        (record { collects = Collects-self s; found = λ x. absurd (not_ok refl x) })
        (after (online_cpus host cpus s) (
          read_bitmap_parselist-Even host is_host s cpus host.nprocs _ 0 s is_host.few_cpus
            (record { size = is.size; words = is.words }) (Takes-self s)))
    where
      after :
          (r : Result Words × Store)
          → Ends s (ok_blocks no_blocks) (OkFact (λ map. IsMask 16 map)) 0 r
          → Collected r.0 host.nprocs s (elim r.0 [
            | err error ↦ (err einval, r.1)
            | ok online ↦ collect_objects host online r.1
          ])
      after (err e, t) h = record {
        collects = Takes-Collects (move host is_host s (omega arith) h.accounted);
        found = λ x. absurd (not_ok refl x);
      }
      after (ok online, t) h =
          let rest = collect_objects-AddsAll online t (omega (arith, is_host.few_cpus)) in
          record {
            collects =
                Collects-trans (Takes-Collects (move host is_host s (omega arith) h.accounted))
                  rest.collects;
            found = λ e. (
              online,
              refl,
              record { size = h.fact.size; words = h.fact.words },
              λ c lt on. rest.found e c (omega arith) lt on,
            );
          }
