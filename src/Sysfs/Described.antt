-- ===== src/Sysfs/Described.antt =====
-- What the collection of the topology leaves in the two lists.
pub mod Loops
pub mod Partition
use mpipin.Base.{
  ℕ, zero, suc, ◌+◌, ◌-◌, ◌≤◌, ◌<◌, ◌^◌, ◌≡◌, refl, sym, ◌∙◌, ap, subst, arith, Bool, true, false,
  leb, ◌==◌, if◌then◌else◌, Bool-cases, inl, inr, both_branches, List, [], ◌∷◌, ◌++◌, length,
  Option, none, some,
}
use mpipin.Base.Errno.{Errno, einval, enomem, enametoolong, Result, ok, err}
use mpipin.Bitmap.Kept.{IsMask}
use mpipin.CpuSet.{empty_set}
use mpipin.CpuSet.Laws.{empty_set-IsCpuSet}
use mpipin.Topology.{CacheTopology, CpuTopology, NodeTopology}
use mpipin.Pin.Assign.{find_cpu_topology}
use mpipin.Pin.Assign.Choice.{AllMaps}
use mpipin.Sysfs.{Host, Store, Action, path_max, free, malloc, with_block}
use mpipin.Sysfs.Collect.{
  Step, run_steps, cpu_steps, cpu_path, new_cpu, collect_caches, find_node, add_cpu, collect_cpu,
  collect_cpu_topology,
}
use mpipin.Sysfs.Accounts.{
  IsHost, Takes, Ends, move, caches_blocks, cpu_blocks, cpus_blocks, owned, one_block, free-Takes,
  malloc-cases,
}
use mpipin.Sysfs.Accounts.Steps.{object_blocks, ObjectFact, IsCpu, NewCpu, cpu_steps-Does}
use mpipin.Sysfs.Accounts.Topology.{find_node-CpuKept, collect_caches-CpuKept}

-- The caches of the objects have sets of CPUs.
abbrev pub AllCaches : List CpuTopology → Type 0
AllCaches [] = Unit {0}
AllCaches (p ∷ ps) = AllMaps p.cache_topology_list × AllCaches ps

abbrev pub Found : List CpuTopology → ℕ → Type 0
Found tops cpu = (top : CpuTopology) × (find_cpu_topology tops cpu ≡ some top)

cpus_blocks-append :
    (ps : List CpuTopology) (p : CpuTopology)
    → cpus_blocks (ps ++ (p ∷ [])) ≡ cpus_blocks ps + cpu_blocks p
cpus_blocks-append [] p = omega arith
cpus_blocks-append (q ∷ qs) p = omega (arith, cpus_blocks-append qs p)

-- An object that is appended is found behind the others.
find-append_old :
    (ps : List CpuTopology) (p : CpuTopology) (cpu : ℕ) (top : CpuTopology)
    → find_cpu_topology ps cpu ≡ some top
    → find_cpu_topology (ps ++ (p ∷ [])) cpu ≡ some top
unfolding find_cpu_topology
find-append_old [] p cpu top e = ground (arith, e)
find-append_old (q ∷ qs) p cpu top e = elim (Bool-cases (q.cpu_id == cpu)) [
  | inl here ↦ rw here (ground (arith, e, here))
  | inr other ↦ rw other (find-append_old qs p cpu top (ground (arith, e, other)))
]

find-append_new : (ps : List CpuTopology) (p : CpuTopology) → Found (ps ++ (p ∷ [])) p.cpu_id
unfolding find_cpu_topology
find-append_new [] p = (p, ground arith)
find-append_new (q ∷ qs) p = elim (Bool-cases (q.cpu_id == p.cpu_id)) [
  | inl here ↦ rw here (q, refl)
  | inr other ↦ rw other (find-append_new qs p)
]

AllCaches-append :
    (ps : List CpuTopology) (p : CpuTopology)
    → AllCaches ps
    → AllMaps p.cache_topology_list
    → AllCaches (ps ++ (p ∷ []))
AllCaches-append [] p maps mine = (mine, tt)
AllCaches-append (q ∷ qs) p (here, maps) mine = (here, AllCaches-append qs p maps mine)

abbrev FoundMaps : Option CpuTopology → Type 0
FoundMaps none = Unit {0}
FoundMaps (some top) = AllMaps top.cache_topology_list

find-FoundMaps :
    (tops : List CpuTopology) (cpu : ℕ) → AllCaches tops → FoundMaps (find_cpu_topology tops cpu)
unfolding find_cpu_topology
find-FoundMaps [] cpu maps = tt
find-FoundMaps (top ∷ tops) cpu (here, maps) =
    both_branches FoundMaps (top.cpu_id == cpu) here (find-FoundMaps tops cpu maps)

pub AllCaches-found :
    (tops : List CpuTopology) (cpu : ℕ) (top : CpuTopology)
    → AllCaches tops
    → find_cpu_topology tops cpu ≡ some top
    → AllMaps top.cache_topology_list
AllCaches-found tops cpu top maps e = subst FoundMaps e (find-FoundMaps tops cpu maps)

-- From the store before to the one after, the blocks have grown by those of the new objects and `k`;
-- no descriptor more is open, and no write went past the end of a buffer. Objects that were found
-- before are found after.
pub record Collects (k : ℕ) (before after : Store) : Type 0 where
  pub grows : owned before ≤ owned after
  pub balance : after.blocks + owned before ≡ before.blocks + owned after + k
  pub closed : after.descriptors ≡ before.descriptors
  pub inside : after.past_end ≡ before.past_end
  pub kept :
      (cpu : ℕ) (top : CpuTopology)
      → find_cpu_topology before.cpu_topology_list cpu ≡ some top
      → find_cpu_topology after.cpu_topology_list cpu ≡ some top
  pub caches : AllCaches before.cpu_topology_list → AllCaches after.cpu_topology_list

pub Collects-self : (s : Store) → Collects 0 s s
Collects-self s = record {
  grows = omega arith;
  balance = omega arith;
  closed = refl;
  inside = refl;
  kept = λ cpu top e. e;
  caches = λ c. c;
}

pub Collects-trans : {s t u : Store} → Collects 0 s t → Collects 0 t u → Collects 0 s u
Collects-trans a b = record {
  grows = omega (arith, a.grows, b.grows);
  balance = omega (arith, a.balance, b.balance);
  closed = b.closed ∙ a.closed;
  inside = b.inside ∙ a.inside;
  kept = λ cpu top e. b.kept cpu top (a.kept cpu top e);
  caches = λ c. b.caches (a.caches c);
}

Takes-Collects : {k : ℕ} {before s : Store} → Takes before k s → Collects k before s
Takes-Collects {before} {s} h = record {
  grows = omega (arith, ap cpus_blocks h.cpus, ap (λ (l : List NodeTopology). length l) h.nodes);
  balance =
      omega
        (arith, h.taken, ap cpus_blocks h.cpus, ap (λ (l : List NodeTopology). length l) h.nodes);
  closed = h.closed;
  inside = h.inside;
  kept = λ cpu top e. subst (λ tops. find_cpu_topology tops cpu ≡ some top) (sym h.cpus) e;
  caches = subst AllCaches (sym h.cpus);
}

-- The outcome of the collection for a CPU: if it succeeds, the CPU's object is found.
pub record Adds (cpu k : ℕ) (before : Store) (r : Result (Unit {0}) × Store) : Type 0 where
  pub collects : Collects k before r.1
  pub found : r.0 ≡ ok tt → Found r.1.cpu_topology_list cpu

append-Adds :
    {before : Store} {cpu k : ℕ} (p : CpuTopology) (s : Store)
    → IsCpu cpu p
    → Takes before (cpu_blocks p + k) s
    → Adds cpu k before (ok tt, record s { cpu_topology_list = s.cpu_topology_list ++ (p ∷ []) })
append-Adds {before} {cpu} p s is h =
    let old = Takes-Collects h in
    record {
      collects = record {
        grows = omega (arith, old.grows, cpus_blocks-append s.cpu_topology_list p);
        balance = omega (arith, old.balance, cpus_blocks-append s.cpu_topology_list p);
        closed = h.closed;
        inside = h.inside;
        kept = λ c top e. find-append_old s.cpu_topology_list p c top (old.kept c top e);
        caches = λ c. AllCaches-append s.cpu_topology_list p (old.caches c) is.3;
      };
      found = λ _.
          subst (Found (s.cpu_topology_list ++ (p ∷ []))) is.0
            (find-append_new s.cpu_topology_list p);
    }

-- A failure finds nothing.
fails : {before s : Store} {cpu k : ℕ} (e : Errno) → Takes before k s → Adds cpu k before (err e, s)
fails e h = record {
  collects = Takes-Collects h;
  found = λ (x : err e ≡ ok tt). absurd (ground (arith, x));
}

free-Adds :
    {before : Store} {cpu : ℕ} (r : Result (Unit {0}) × Store)
    → Adds cpu 1 before r
    → Adds cpu 0 before (r.0, free r.1)
unfolding free
free-Adds r h =
    let c = h.collects in
    record {
      collects = record {
        grows = c.grows;
        balance = omega (arith, c.balance, c.grows);
        closed = c.closed;
        inside = c.inside;
        kept = c.kept;
        caches = c.caches;
      };
      found = h.found;
    }

module _ (host : Host) (is_host : IsHost host) (few : host.nodes ≤ 2 ^ 31) (before : Store)
    (cpu : ℕ) (int : cpu < 2 ^ 31) where
  add_cpu-Adds :
      (p : CpuTopology) (k : ℕ) (s : Store)
      → IsCpu cpu p
      → Takes before (cpu_blocks p + k) s
      → Adds cpu k before (ok tt, add_cpu host p s)
  unfolding add_cpu
  add_cpu-Adds p k s is h =
      let noded =
        find_node-CpuKept host is_host before cpu host.nodes 0 p k s int (omega (arith, few)) is
          h in
      let at = find_node host host.nodes 0 p s in
      let cached =
        collect_caches-CpuKept host is_host before cpu 10 0 at.0 k at.1 noded.fact
          noded.accounted in
      append-Adds _ _ cached.fact cached.accounted

  collect_cpu-Adds :
      (k : ℕ) (s : Store) → Takes before k s → Adds cpu k before (collect_cpu host cpu s)
  unfolding collect_cpu
  collect_cpu-Adds k s h = elim (malloc-cases host is_host before k s h) [
    | inl (got, h') ↦ rw got (
        after (run_steps (cpu_steps host cpu) (new_cpu cpu) (malloc host s).1) (
          cpu_steps-Does host is_host before cpu (new_cpu cpu) k (malloc host s).1
            (refl, no_cpus, no_cpus, refl) (move host is_host before (omega arith) h')))
    | inr (lack, h') ↦ rw lack (fails enomem h')
  ]
    where
      no_cpus : IsMask 16 empty_set
      no_cpus = record { size = empty_set-IsCpuSet.size; words = empty_set-IsCpuSet.words }

      after :
          (r : (Option Errno × CpuTopology) × Store)
          → Ends before (object_blocks one_block) (ObjectFact (NewCpu cpu)) k r
          → Adds cpu k before (elim r.0.0 [
            | some error ↦ (err error, free r.1)
            | none ↦ (ok tt, add_cpu host r.0.1 r.1)
          ])
      after ((some e, p), s) h =
          fails e (
            free-Takes host is_host before k s (move host is_host before (omega arith) h.accounted))
      after ((none, p), s) h =
          let is = h.fact in
          add_cpu-Adds p k s (is.0, is.1, is.2, subst AllMaps (sym is.3) tt)
            (move host is_host before (omega (arith, ap caches_blocks is.3)) h.accounted)

  pub collect_cpu_topology-Adds :
      (s : Store) → Takes before 0 s → Adds cpu 0 before (collect_cpu_topology host cpu s)
  unfolding collect_cpu_topology with_block
  collect_cpu_topology-Adds s h = elim (malloc-cases host is_host before 0 s h) [
    | inl (got, h') ↦ rw got (
        free-Adds _ (
          both_branches (Adds cpu 1 before) (leb path_max (length (cpu_path cpu [])))
            (fails enametoolong h') (collect_cpu-Adds 1 (malloc host s).1 h')))
    | inr (lack, h') ↦ rw lack (fails enomem h')
  ]
