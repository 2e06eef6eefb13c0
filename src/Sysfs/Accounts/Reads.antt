-- ===== src/Sysfs/Accounts/Reads.antt =====
-- The readers of a file, read_file to read_string: what they take and give back.
use mpipin.Base.{
  ℕ, suc, ◌+◌, ◌-◌, ◌≤◌, ◌<◌, ◌≡◌, refl, sym, subst, arith, Bool, true, leb, if◌then◌else◌, lt→ltb,
  Option-cases, inl, inr, List, length, Option, none, some, both_branches,
}
use mpipin.Base.Errno.{Errno, einval, enomem, eio, enametoolong, Result, ok, err}
use mpipin.Ascii.{Text, c_string, scan_long}
use mpipin.Bitops.{Words}
use mpipin.CpuSet.{cpu_bits}
use mpipin.Bitmap.Kept.{IsMask, Leaves}
use mpipin.Bitmap.Parse.{bitmap_parse}
use mpipin.Bitmap.Parse.Kept.{bitmap_parse-Leaves}
use mpipin.Bitmap.Ranges.{bitmap_parselist}
use mpipin.Bitmap.Ranges.Kept.{bitmap_parselist-Leaves}
use mpipin.Sysfs.{
  Host, Store, Action, page_size, path_max, terminate, with_block, read_opened, read_file,
  file_readable, read_page, read_long, parsed, clear_map, read_bitmap, read_bitmap_parselist,
  read_string,
}
use mpipin.Sysfs.Accounts.{
  IsHost, clear_map-Takes, Takes, Ends, ok_blocks, OkFact, no_blocks, one_block, Always,
  terminate-Takes, move, malloc-cases, with_block-Ends,
}

module _ (host : Host) (is_host : IsHost host) (before : Store) where
  -- An action that fails, or succeeds with a result that owns no block.
  abbrev Even : {A : Type 0} → (A → Type 0) → ℕ → Result A × Store → Type 0
  Even F k r = Ends before (ok_blocks no_blocks) (OkFact F) k r

  abbrev fails :
      {A : Type 0} {F : A → Type 0} {k : ℕ} {s : Store} (e : Errno)
      → Takes before k s
      → Even F k (err e, s)
  fails e h = record { accounted = move host is_host before (omega arith) h; fact = tt }

  read_opened-Even :
      (path : Text) (fd k : ℕ) (s : Store)
      → 0 < fd
      → Takes before k s
      → Even Always k (read_opened host page_size (page_size - 1) path fd s)
  unfolding read_opened
  read_opened-Even path fd k s lt h =
      subst (λ (b : Bool). Even Always k (after b (host.read_bytes path (page_size - 1))))
        (sym (lt→ltb 0 fd lt))
        (whole (host.read_bytes path (page_size - 1)) (is_host.read_fits path (page_size - 1)))
    where
      after : Bool → Option (List ℕ) → Result (List ℕ) × Store
      after b o =
          let s' = if b then s else record s { descriptors = s.descriptors + 1 } in
          elim o [
            | none ↦ (err einval, s')
            | some bytes ↦ (ok bytes, terminate page_size (length bytes) s')
          ]

      whole :
          (o : Option (List ℕ))
          → ((bytes : List ℕ) → o ≡ some bytes → length bytes ≤ page_size - 1)
          → Even Always k (after true o)
      whole none fits = fails einval h
      whole (some bytes) fits = record {
        accounted = move host is_host before (omega arith) (
            terminate-Takes host is_host before page_size (length bytes) k s
              (omega (arith, fits bytes refl)) h);
        fact = tt;
      }

  -- A block around an action whose result owns none.
  with_block-Even :
      {A : Type 0} (F : A → Type 0) (body : Action A)
      → ((k : ℕ) (s : Store) → Takes before k s → Even F k (body s))
      → (k : ℕ) (s : Store) → Takes before k s
      → Even F k (with_block host (err enomem) body s)
  with_block-Even F body runs k s h =
      with_block-Ends host is_host before (ok_blocks no_blocks) (OkFact F) (err enomem) body k k
        (omega arith) tt (λ s. runs (suc k) s) s h

  read_file-Even :
      (path : Text) (k : ℕ) (s : Store)
      → Takes before k s
      → Even Always k (read_file host page_size (page_size - 1) path s)
  unfolding read_file
  read_file-Even path = with_block-Even Always _ λ k s h.
      both_branches (Even Always k) (leb path_max (length path)) (fails enametoolong h)
        (elim (Option-cases (host.open_file path)) [
          | inl e ↦ rw e (fails einval h)
          | inr (fd, e) ↦ rw e (read_opened-Even path fd k s (is_host.stdin_open path fd e) h)
        ])

  pub file_readable-Even :
      (path : Text) (k : ℕ) (s : Store)
      → Takes before k s
      → Even Always k (file_readable host path s)
  unfolding file_readable
  file_readable-Even path = with_block-Even Always _ λ k s h.
      both_branches (Even Always k) (leb path_max (length path)) (fails enametoolong h)
        (elim (Option-cases (host.open_file path)) [
          | inl e ↦ rw e (fails einval h)
          | inr (fd, e) ↦
              rw e (record { accounted = move host is_host before (omega arith) h; fact = tt })
        ])

  -- A page around the use of a text.
  read_page-Ends :
      {A : Type 0} (g : A → ℕ) (F : A → Type 0) (path : Text) (use_text : Text → Action A)
      → ((text : Text) (k : ℕ) (s : Store)
          → Takes before k s
          → Ends before (ok_blocks g) (OkFact F) k (use_text text s))
      → (k : ℕ) (s : Store) → Takes before k s
      → Ends before (ok_blocks g) (OkFact F) k (read_page host path use_text s)
  unfolding read_page
  read_page-Ends g F path use_text runs k s h =
      with_block-Ends host is_host before (ok_blocks g) (OkFact F) (err enomem) _ k k (omega arith)
        tt
        (λ s h.
          after (read_file host page_size (page_size - 1) path s) (read_file-Even path (suc k) s h))
        s h
    where
      after :
          (r : Result (List ℕ) × Store)
          → Even Always (suc k) r
          → Ends before (ok_blocks g) (OkFact F) (suc k) (elim r.0 [
            | err error ↦ (err einval, r.1)
            | ok bytes ↦ use_text (c_string bytes) r.1
          ])
      after (err e, s) h = record { accounted = h.accounted; fact = tt }
      after (ok bytes, s) h =
          runs (c_string bytes) (suc k) s (move host is_host before (omega arith) h.accounted)

  pub read_long-Even :
      (path : Text) (k : ℕ) (s : Store) → Takes before k s → Even Always k (read_long host path s)
  unfolding read_long
  read_long-Even path = read_page-Ends no_blocks Always path _ λ text k s h.
      elim (Option-cases (scan_long text)) [
        | inl e ↦ rw e (fails eio h)
        | inr (n, e) ↦
            rw e (record { accounted = move host is_host before (omega arith) h; fact = tt })
      ]

  abbrev IsMap : Words → Type 0
  IsMap map = IsMask 16 map

  parsed-Even :
      (p : Option Errno × Words) (k : ℕ) (s : Store)
      → Leaves 16 p
      → Takes before k s
      → Even IsMap k (parsed p s)
  parsed-Even (some e, map) k s l h = fails einval h
  parsed-Even (none, map) k s l h = record {
    accounted = move host is_host before (omega arith) h;
    fact = l.mask;
  }

  pub read_bitmap-Even :
      (map : Words) (nbits : ℕ) (path : Text) (k : ℕ) (s : Store)
      → nbits ≤ cpu_bits
      → IsMap map
      → Takes before k s
      → Even IsMap k (read_bitmap host map nbits path s)
  unfolding read_bitmap
  read_bitmap-Even map nbits path k s few m h =
      read_page-Ends no_blocks IsMap path _
        (λ text k s h.
          parsed-Even (bitmap_parse nbits text page_size map) k (clear_map map nbits s)
            (bitmap_parse-Leaves nbits text page_size m)
            (clear_map-Takes host is_host before map nbits k s m few h))
        k s h

  pub read_bitmap_parselist-Even :
      (map : Words) (nbits : ℕ) (path : Text) (k : ℕ) (s : Store)
      → nbits ≤ cpu_bits
      → IsMap map
      → Takes before k s
      → Even IsMap k (read_bitmap_parselist host map nbits path s)
  unfolding read_bitmap_parselist
  read_bitmap_parselist-Even map nbits path k s few m h =
      read_page-Ends no_blocks IsMap path _
        (λ text k s h.
          parsed-Even (bitmap_parselist nbits text map) k (clear_map map nbits s)
            (bitmap_parselist-Leaves nbits text m)
            (clear_map-Takes host is_host before map nbits k s m few h))
        k s h

  pub read_string-Ends :
      (path : Text) (k : ℕ) (s : Store)
      → Takes before k s
      → Ends before (ok_blocks one_block) (OkFact Always) k (read_string host path s)
  unfolding read_string
  read_string-Ends path = read_page-Ends one_block Always path _ λ text k s h.
      elim (malloc-cases host is_host before k s h) [
        | inl (got, h') ↦
            rw got (record { accounted = move host is_host before (omega arith) h'; fact = tt })
        | inr (lack, h') ↦
            rw lack (record { accounted = move host is_host before (omega arith) h'; fact = tt })
      ]
