-- ===== src/Sysfs/Accounts.antt =====
-- What an action of the readers of sysfs in mpipin.c takes and gives back: blocks, descriptors, and the
-- room of buffers.
pub mod Reads
pub mod Steps
pub mod Topology
use mpipin.Base.{
  ℕ, zero, suc, ◌+◌, ◌-◌, ◌≤◌, ◌<◌, ◌≡◌, ◌⊎◌, refl, sym, ◌∙◌, ap, subst, arith, Bool, true, false,
  ◌||◌, ltb, leb, ◌==◌, if◌then◌else◌, lt→ltb, lt→leb, Bool-cases, Option-cases, inl, inr, List, [],
  ◌∷◌, length, Option, none, some, both_branches,
}
use mpipin.CpuSet.{cpu_bits}
use mpipin.Bitmap.{bits_to_longs}
use mpipin.Base.Int.{ℤ}
use mpipin.Base.Errno.{Errno, einval, enomem, eio, enametoolong, Result, ok, err}
use mpipin.Ascii.{Text, c_string, scan_long}
use mpipin.Bitops.{Words}
use mpipin.Bitmap.Kept.{IsMask, Leaves}
use mpipin.Bitmap.Parse.{bitmap_parse}
use mpipin.Bitmap.Parse.Kept.{bitmap_parse-Leaves}
use mpipin.Bitmap.Ranges.{bitmap_parselist}
use mpipin.Bitmap.Ranges.Kept.{bitmap_parselist-Leaves}
use mpipin.Topology.{CacheTopology, CpuTopology}
use mpipin.Sysfs.{
  Host, Store, Action, page_size, path_max, clear_map, free, terminate, malloc, with_block,
  read_opened, read_file, file_readable, read_page, read_long, parsed, read_bitmap,
  read_bitmap_parselist, chomp, read_string,
}

-- What the readers rely on: descriptor 0 is in use, so that open never gives it, a read gives no more
-- bytes than it is asked for, and there are no more CPUs than a cpu_set_t has bits.
pub record IsHost (host : Host) : Type 0 where
  pub stdin_open : (path : Text) (fd : ℕ) → host.open_file path ≡ some fd → 0 < fd
  pub read_fits :
      (path : Text) (size : ℕ) (bytes : List ℕ)
      → host.read_bytes path size ≡ some bytes
      → length bytes ≤ size
  pub few_cpus : host.nprocs ≤ cpu_bits

-- The blocks of an object with all that it points to.
abbrev pub text_blocks : Option Text → ℕ
text_blocks none = 0
text_blocks (some text) = 1

abbrev pub cache_blocks : CacheTopology → ℕ
cache_blocks p = 1 + text_blocks p.type + text_blocks p.size_str

abbrev pub caches_blocks : List CacheTopology → ℕ
caches_blocks [] = 0
caches_blocks (p ∷ ps) = cache_blocks p + caches_blocks ps

abbrev pub cpu_blocks : CpuTopology → ℕ
cpu_blocks p = 1 + caches_blocks p.cache_topology_list

abbrev pub cpus_blocks : List CpuTopology → ℕ
cpus_blocks [] = 0
cpus_blocks (p ∷ ps) = cpu_blocks p + cpus_blocks ps

abbrev pub owned : Store → ℕ
owned s = cpus_blocks s.cpu_topology_list + length s.node_topology_list

-- The store is as before but for `k` blocks more, and the number of allocations that were asked for.
pub record Takes (before : Store) (k : ℕ) (s : Store) : Type 0 where
  pub taken : s.blocks ≡ before.blocks + k
  pub closed : s.descriptors ≡ before.descriptors
  pub inside : s.past_end ≡ before.past_end
  pub cpus : s.cpu_topology_list ≡ before.cpu_topology_list
  pub nodes : s.node_topology_list ≡ before.node_topology_list

-- The outcome of an action: `gain r` blocks belong to its result, of which `Fact` holds.
pub record Ends {R : Type 0} (before : Store) (gain : R → ℕ) (Fact : R → Type 0) (k : ℕ)
    (r : R × Store) : Type 0 where
  pub accounted : Takes before (gain r.0 + k) r.1
  pub fact : Fact r.0

abbrev pub ok_blocks : {A : Type 0} → (A → ℕ) → Result A → ℕ
ok_blocks g (ok a) = g a
ok_blocks g (err e) = 0

abbrev pub OkFact : {A : Type 0} → (A → Type 0) → Result A → Type 0
OkFact F (ok a) = F a
OkFact F (err e) = Unit {0}

abbrev pub no_blocks : {A : Type 0} → A → ℕ
no_blocks a = 0

abbrev pub one_block : {A : Type 0} → A → ℕ
one_block a = 1

abbrev pub Always : {A : Type 0} → A → Type 0
Always a = Unit {0}

module _ (host : Host) (is_host : IsHost host) (before : Store) where
  abbrev Acc : ℕ → Store → Type 0
  Acc k s = Takes before k s

  pub free-Takes : (k : ℕ) (s : Store) → Acc (suc k) s → Acc k (free s)
  unfolding free
  free-Takes k s h = record {
    taken = omega (arith, h.taken);
    closed = h.closed;
    inside = h.inside;
    cpus = h.cpus;
    nodes = h.nodes;
  }

  pub terminate-Takes :
      (room len k : ℕ) (s : Store) → len < room → Acc k s → Acc k (terminate room len s)
  unfolding terminate
  terminate-Takes room len k s lt h = record {
    taken = h.taken;
    closed = h.closed;
    inside = ground (arith, h.inside);
    cpus = h.cpus;
    nodes = h.nodes;
  }

  pub clear_map-Takes :
      (map : Words) (nbits k : ℕ) (s : Store)
      → IsMask 16 map
      → nbits ≤ cpu_bits
      → Acc k s
      → Acc k (clear_map map nbits s)
  unfolding clear_map bits_to_longs
  clear_map-Takes map nbits k s m few h = record {
    taken = h.taken;
    closed = h.closed;
    inside = ground (arith, h.inside, m.size);
    cpus = h.cpus;
    nodes = h.nodes;
  }

  pub move : {k k' : ℕ} {s : Store} → k ≡ k' → Acc k s → Acc k' s
  move e h = record {
    taken = omega (arith, h.taken, e);
    closed = h.closed;
    inside = h.inside;
    cpus = h.cpus;
    nodes = h.nodes;
  }

  -- The two outcomes of an allocation.
  pub malloc-cases :
      (k : ℕ) (s : Store)
      → Acc k s
      → (((malloc host s).0 ≡ true) × Acc (suc k) (malloc host s).1)
        ⊎ (((malloc host s).0 ≡ false) × Acc k (malloc host s).1)
  unfolding malloc
  malloc-cases k s h = elim (Bool-cases (host.memory s.calls)) [
    | inl got ↦ rw got (
        inl (
          refl,
          record {
            taken = omega (arith, h.taken);
            closed = h.closed;
            inside = h.inside;
            cpus = h.cpus;
            nodes = h.nodes;
          },
        ))
    | inr lack ↦ rw lack (
        inr (
          refl,
          record {
            taken = h.taken;
            closed = h.closed;
            inside = h.inside;
            cpus = h.cpus;
            nodes = h.nodes;
          },
        ))
  ]

  module _ {R : Type 0} (gain : R → ℕ) (Fact : R → Type 0) where
    pub with_block-Ends :
        (failed : R) (body : Store → R × Store) (j k : ℕ)
        → gain failed + j ≡ k
        → Fact failed
        → ((s : Store) → Acc (suc k) s → Ends before gain Fact (suc j) (body s))
        → (s : Store) → Acc k s
        → Ends before gain Fact j (with_block host failed body s)
    unfolding with_block
    with_block-Ends failed body j k e fact runs s h = elim (malloc-cases k s h) [
      | inl (got, h') ↦
          let run = runs (malloc host s).1 h' in
          rw got (record {
            accounted =
                free-Takes (gain (body (malloc host s).1).0 + j) (body (malloc host s).1).1
                  (move (omega arith) run.accounted);
            fact = run.fact;
          })
      | inr (lack, h') ↦ rw lack (record { accounted = move (sym e) h'; fact = fact })
    ]
