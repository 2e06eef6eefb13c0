-- ===== src/Tests/Sysfs.antt =====
-- The topology of a machine with four CPUs that share a cache, read from its files.
use mpipin.Base.{
  ℕ, zero, suc, ◌≤◌, ◌<◌, ◌≡◌, refl, sym, ◌∙◌, subst, not, arith, Bool, true, false, ◌||◌, ◌==◌,
  if◌then◌else◌, List, [], ◌∷◌, length, map, Option, none, some,
}
use mpipin.Base.Int.{ℤ, pos}
use mpipin.Base.Errno.{Result, ok, err, einval}
use mpipin.Ascii.{Text, codes, take}
use mpipin.CpuSet.{CpuSet}
use mpipin.Topology.{CpuTopology, CacheTopology}
use mpipin.Word.{bit_not, shl, shr}
use mpipin.Bitops.{set_bit}
use mpipin.CpuSet.{cpu_isset}
use mpipin.Bitmap.{bits_to_longs}
use mpipin.Bitmap.Logic.{write_words}
use mpipin.Bitmap.Fold.{bitmap_zero}
use mpipin.Ascii.{decimal_onto, decimal, scan_digits, to_long, scan_unsigned, scan_long}
use mpipin.Bitmap.Shift.{shifted_word, shift_words, bitmap_shift_left}
use mpipin.Bitmap.Parse.{
  skip_high, fls, hex_to_bin, chunk_full, add_hex_digit, end_chunk, parse_chars, bitmap_parse,
}
use mpipin.Bitmap.Ranges.{
  add_digit, set_range, end_range, parse_ranges, parselist, bitmap_parselist,
}
use mpipin.Sysfs.{
  Host, Store, free, terminate, chomp, malloc, with_block, read_opened, read_file, file_readable,
  read_page, read_long, clear_map, read_bitmap, read_bitmap_parselist, read_string,
}
use mpipin.Sysfs.Collect.{
  read_field, run_steps, or_einval, cpu_path, cache_path, node_dname, cpumap_path, free_text,
  cache_steps, collect_cache, collect_cache_topology, collect_caches, find_node, cpu_steps, add_cpu,
  collect_cpu, collect_cpu_topology, collect_node_topology, collect_cpus, collect_nodes,
  collect_objects, collect_topology,
}
use mpipin.Sysfs.Accounts.{IsHost}
use mpipin.Sysfs.Described.Loops.{online_cpus, Collected, collect_topology-Collected}
use mpipin.Sysfs.Described.Partition.{AllOnline, collect_topology-IsPartition}
use mpipin.Bits.{word_bit-ones}
use mpipin.Pin.{PartExec}
use mpipin.Pin.Partition.{partition}
use mpipin.Pin.Partition.Disjoint.{IsPartition}
use mpipin.Tests.Machine.{low_set, low_set-IsCpuSet, get_bit-low_set, all_cpus, shared}
use mpipin.Tests.Pinning.{four_cpus}

abbrev same_text : Text → Text → Bool
same_text [] [] = true
same_text [] (d ∷ t) = false
same_text (c ∷ s) [] = false
same_text (c ∷ s) (d ∷ t) = let rest = same_text s t in if c == d then rest else false

abbrev ends_with : (suffix s : Text) → Bool
ends_with suffix [] = same_text suffix []
ends_with suffix (c ∷ s) = same_text suffix (c ∷ s) || ends_with suffix s

abbrev files : List (Text × Text)
files =
    (codes "/online", codes "0-3\n")
    ∷ (codes "/core_id", codes "7\n")
    ∷ (codes "/core_siblings", codes "f\n")
    ∷ (codes "/physical_package_id", codes "0\n")
    ∷ (codes "/thread_siblings", codes "00000000,0000000f\n")
    ∷ (codes "/index0/level", codes "1\n")
    ∷ (codes "/index0/type", codes "Data\n")
    ∷ (codes "/index0/size", codes "32K\n")
    ∷ (codes "/index0/coherency_line_size", codes "64\n")
    ∷ (codes "/index0/number_of_sets", codes "64\n")
    ∷ (codes "/index0/ways_of_associativity", codes "8\n")
    ∷ (codes "/index0/shared_cpu_map", codes "f\n")
    ∷ (codes "/cpumap", codes "f\n")
    ∷ []

abbrev find_file : List (Text × Text) → Text → Option Text
find_file [] path = none
find_file ((suffix, text) ∷ rest) path =
    let further = find_file rest path in if ends_with suffix path then some text else further

abbrev pub host : Host
host = record {
  memory = λ n. true;
  open_file = λ path. elim (find_file files path) [ none ↦ none | some text ↦ some 3 ];
  read_bytes =
      λ path size. elim (find_file files path) [ none ↦ none | some text ↦ some (take size text) ];
  stat = λ path. ends_with (codes "/node0") path;
  nprocs = 4;
  has_numa = true;
  nodes = 1;
  is_aarch64 = true;
}

abbrev pub start_store : Store
start_store = record {
  calls = 0;
  blocks = 0;
  descriptors = 3;
  past_end = false;
  cpu_topology_list = [];
  node_topology_list = [];
}

run : Host → Result (Unit {0}) × Store
unfolding free terminate chomp malloc with_block read_opened read_file file_readable read_page
    read_long read_bitmap clear_map read_bitmap_parselist read_string read_field run_steps or_einval
    cpu_path cache_path node_dname cpumap_path free_text cache_steps collect_cache
    collect_cache_topology collect_caches find_node cpu_steps add_cpu collect_cpu
    collect_cpu_topology collect_node_topology collect_cpus collect_nodes collect_objects skip_high
    fls hex_to_bin shifted_word shift_words bitmap_shift_left chunk_full add_hex_digit end_chunk
    parse_chars bitmap_parse add_digit set_range end_range parse_ranges parselist bitmap_parselist
    decimal_onto decimal scan_digits to_long scan_unsigned scan_long bit_not shl shr set_bit
    bits_to_longs write_words bitmap_zero cpu_isset collect_topology
run host = collect_topology host (low_set 0) start_store

abbrev topology : Result (Unit {0}) × Store
topology = collect_topology host (low_set 0) start_store

-- 4 CPUs of 4 blocks each and a node.
pub collected : topology.0 ≡ ok tt
unfolding run
collected = refl

blocks_taken : topology.1.blocks ≡ 17
unfolding run
blocks_taken = refl

-- The cache of CPU 0 as its files describe it.
abbrev cache_of : List CpuTopology → List CacheTopology
cache_of [] = []
cache_of (top ∷ tops) = top.cache_topology_list

abbrev view : CacheTopology → ℤ × Option Text × CpuSet
view c = (c.size, c.type, c.shared_cpu_map)

cache_read :
    map view (cache_of topology.1.cpu_topology_list)
    ≡ (pos 32768, some (codes "Data"), low_set 15) ∷ []
unfolding run
cache_read = refl

-- If the tenth allocation fails there is no topology, and no block is kept.
abbrev starved : Host
starved = record host { memory = λ n. not (n == 9) }

no_memory :
    ((collect_topology starved (low_set 0) start_store).0 ≡ err einval)
    × ((collect_topology starved (low_set 0) start_store).1.blocks ≡ 0)
unfolding run
no_memory = (refl, refl)

length-take : (n : ℕ) (s : Text) → length (take n s) ≤ n
length-take zero s = omega arith
length-take (suc n) [] = omega arith
length-take (suc n) (c ∷ s) = omega (arith, length-take n s)

pub host-IsHost : IsHost host
host-IsHost = record {
  stdin_open = λ path fd e. opened (find_file files path) fd e;
  read_fits = λ path size bytes e. fits (find_file files path) size bytes e;
  few_cpus = omega arith;
}
  where
    opened :
        (o : Option Text) (fd : ℕ)
        → (elim o [ none ↦ none | some text ↦ some 3 ]) ≡ some fd
        → 0 < fd
    opened none fd e = absurd (ground (arith, e))
    opened (some text) fd e = let same : 3 ≡ fd = ground (arith, e) in omega arith

    fits :
        (o : Option Text) (size : ℕ) (bytes : List ℕ)
        → (elim o [ none ↦ none | some text ↦ some (take size text) ]) ≡ some bytes
        → length bytes ≤ size
    fits none size bytes e = absurd (ground (arith, e))
    fits (some text) size bytes e =
        let same : take size text ≡ bytes = ground (arith, e) in
        subst (λ (b : List ℕ). length b ≤ size) same (length-take size text)

online_read : (online_cpus host (low_set 0) start_store).0 ≡ ok (low_set 15)
unfolding run
online_read = refl

pub online_all : AllOnline host (low_set 0) start_store all_cpus
unfolding cpu_isset shl
online_all online read cpu member =
    let below : cpu < 4 = ground (arith, get_bit-low_set 15 cpu, word_bit-ones 4 cpu) in
    let same : low_set 15 ≡ online = ground (arith, sym online_read ∙ read) in
    (below, subst (λ s. cpu_isset cpu s ≡ true) same (go cpu below))
  where
    go : (cpu : ℕ) → cpu < 4 → cpu_isset cpu (low_set 15) ≡ true
    go zero h = refl
    go (suc zero) h = refl
    go (suc (suc zero)) h = refl
    go (suc (suc (suc zero))) h = refl
    go (suc (suc (suc (suc n)))) h = absurd (omega arith)

collect_topology-Collected_example :
    Collected
      (online_cpus host (low_set 0) start_store).0
      4
      start_store
      (collect_topology host (low_set 0) start_store)
collect_topology-Collected_example =
    collect_topology-Collected host host-IsHost (omega arith) (low_set 0) start_store
      (low_set-IsCpuSet 0 (omega arith))

collect_topology-IsPartition_example :
    (pe' : PartExec) × (partition 4
        (collect_topology host (low_set 0) start_store).1.cpu_topology_list
        shared
      ≡ (pe', none))
    × IsPartition 0 2 shared pe'
collect_topology-IsPartition_example =
    collect_topology-IsPartition host host-IsHost (low_set 0) start_store 2 shared (omega arith)
      (omega arith) (low_set-IsCpuSet 0 (omega arith)) refl collected
      (low_set-IsCpuSet 15 (omega arith)) online_all refl (omega (arith, four_cpus))
