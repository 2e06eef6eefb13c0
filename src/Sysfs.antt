-- ===== src/Sysfs.antt =====
-- mpipin.c: the readers of files of sysfs, from read_file to read_string. `goto out` with a block to
-- free is `with_block`; messages are left out. The records `Host` and `Store` are what the code sees of
-- the system and what it keeps.
pub mod Collect
pub mod Accounts
pub mod Described
use mpipin.Base.{
  ℕ, zero, suc, ◌+◌, ◌-◌, Bool, true, false, not, ◌||◌, ltb, leb, ◌==◌, if◌then◌else◌, List, [],
  ◌∷◌, length, Option, none, some,
}
use mpipin.Base.Int.{ℤ}
use mpipin.Base.Errno.{Errno, einval, enomem, eio, enametoolong, Result, ok, err}
use mpipin.Ascii.{Text, c_string, scan_long}
use mpipin.Bitops.{Words}
use mpipin.Bitmap.{bits_to_longs}
use mpipin.Bitmap.Parse.{bitmap_parse}
use mpipin.Bitmap.Ranges.{bitmap_parselist}
use mpipin.Topology.{CpuTopology, NodeTopology}

-- The system: whether the n-th allocation succeeds; the descriptor that open(path) gives; the bytes
-- that a read of the opened file into a buffer of some size gives; whether stat(path) succeeds; and
-- what get_nprocs_conf, numa_available and numa_num_configured_nodes tell. Files of sysfs stay as they
-- are while they are read. `is_aarch64` is the macro __aarch64__.
pub record Host : Type 0 where
  pub memory : ℕ → Bool
  pub open_file : Text → Option ℕ
  pub read_bytes : Text → (size : ℕ) → Option (List ℕ)
  pub stat : Text → Bool
  pub nprocs : ℕ
  pub has_numa : Bool
  pub nodes : ℕ
  pub is_aarch64 : Bool

-- How many allocations were asked for, how many blocks are not freed and descriptors not closed,
-- whether a write went past the end of a buffer, and the two global lists.
pub record Store : Type 0 where
  pub calls : ℕ
  pub blocks : ℕ
  pub descriptors : ℕ
  pub past_end : Bool
  pub cpu_topology_list : List CpuTopology
  pub node_topology_list : List NodeTopology

abbrev pub path_max : ℕ
path_max = 4096

abbrev pub page_size : ℕ
page_size = 4096

abbrev pub Action : Type 0 → Type 0
Action A = Store → Result A × Store

unfoldable pub free : Store → Store
free s = record s { blocks = s.blocks - 1 }

-- A write of a terminator behind `len` characters.
unfoldable pub terminate : (room len : ℕ) → Store → Store
terminate room len s = record s { past_end = s.past_end || leb room len }

-- bitmap_zero, with which both parsers begin, writes BITS_TO_LONGS(nbits) words from `map` on.
unfoldable pub clear_map : (map : Words) → (nbits : ℕ) → Store → Store
clear_map map nbits s = record s { past_end = s.past_end || ltb (length map) (bits_to_longs nbits) }

-- What the bitmap readers make of an error.
abbrev pub parsed : Option Errno × Words → Action Words
parsed (e, map) s = elim e [ some error ↦ (err einval, s) | none ↦ (ok map, s) ]

-- A line feed at the end is cut off.
unfoldable pub chomp : Text → Text
chomp [] = []
chomp (c ∷ []) = if c == 10 then [] else c ∷ []
chomp (c ∷ d ∷ s) = c ∷ chomp (d ∷ s)

module _ (host : Host) where
  unfoldable pub malloc : Store → Bool × Store
  malloc s =
      if host.memory s.calls
      then (true, record s { calls = s.calls + 1; blocks = s.blocks + 1 })
      else (false, record s { calls = s.calls + 1 })

  -- `b = malloc(n); if (!b) return <failed>; <body>; free(b);`
  unfoldable pub with_block : {R : Type 0} → (failed : R) → (Store → R × Store) → Store → R × Store
  with_block failed body s =
      let (got, s') = malloc s in
      let (r, s'') = body s' in if got then (r, free s'') else (failed, s')

  -- After open: read, terminate, and close unless the descriptor is 0.
  unfoldable pub read_opened : (room size : ℕ) → (path : Text) → (fd : ℕ) → Action (List ℕ)
  read_opened room size path fd s =
      let s' = if ltb 0 fd then s else record s { descriptors = s.descriptors + 1 } in
      elim (host.read_bytes path size) [
        | none ↦ (err einval, s')
        | some bytes ↦ (ok bytes, terminate room (length bytes) s')
      ]

  -- `room` is the size of the buffer behind `buf`, which the code does not pass.
  unfoldable pub read_file : (room size : ℕ) → (path : Text) → Action (List ℕ)
  read_file room size path = with_block (err enomem) λ s.
      if leb path_max (length path) then (err enametoolong, s) else elim (host.open_file path) [
        | none ↦ (err einval, s)
        | some fd ↦ read_opened room size path fd s
      ]

  unfoldable pub file_readable : (path : Text) → Action (Unit {0})
  file_readable path = with_block (err enomem) λ s.
      if leb path_max (length path)
      then (err enametoolong, s)
      else elim (host.open_file path) [ none ↦ (err einval, s) | some fd ↦ (ok tt, s) ]

  -- What the next four readers begin and end with: a page for the file, and its text for `use_text`.
  unfoldable pub read_page : {A : Type 0} → (path : Text) → (use_text : Text → Action A) → Action A
  read_page path use_text = with_block (err enomem) λ s.
      let (r, s') = read_file page_size (page_size - 1) path s in
      elim r [ err error ↦ (err einval, s') | ok bytes ↦ use_text (c_string bytes) s' ]

  unfoldable pub read_long : (path : Text) → Action ℤ
  read_long path =
      read_page path λ text s. elim (scan_long text) [ none ↦ (err eio, s) | some n ↦ (ok n, s) ]

  unfoldable pub read_bitmap : (map : Words) → (nbits : ℕ) → (path : Text) → Action Words
  read_bitmap map nbits path =
      read_page path
        λ text s. parsed (bitmap_parse nbits text page_size map) (clear_map map nbits s)

  unfoldable pub read_bitmap_parselist : (map : Words) → (nbits : ℕ) → (path : Text) → Action Words
  read_bitmap_parselist map nbits path =
      read_page path λ text s. parsed (bitmap_parselist nbits text map) (clear_map map nbits s)

  -- The block of `strdup` is the caller's.
  unfoldable pub read_string : (path : Text) → Action Text
  read_string path =
      read_page path λ text s.
        let (got, s') = malloc s in if got then (ok (chomp text), s') else (err enomem, s')
