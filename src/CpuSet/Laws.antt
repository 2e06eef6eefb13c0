-- ===== src/CpuSet/Laws.antt =====
-- The macros, bit by bit.
use mpipin.Base.{
  ℕ, ◌+◌, ◌/◌, ◌%◌, ◌≤◌, ◌<◌, ◌≡◌, refl, ap, sym, ◌∙◌, arith, true, false, ◌&&◌, ltb, ◌==◌,
  if◌then◌else◌, dec_lt, lt→ltb, le→ltb, set, length-set, get_or-set, get_or_past, get_or-replicate,
}
use mpipin.Base.Count.{count_below_split, count_below_one}
use mpipin.Bits.{word_bit, word_bit-zero, word_bit-bit_and, word_bit-bit_or}
use mpipin.Word.{
  IsWord, bit_not, shl, word_bit-bit_not, shl-IsWord, bit_and-IsWord, bit_or-IsWord,
  word_bit-shl_one, test_bit_of_word,
}
use mpipin.Bitops.{word_at, get_bit}
use mpipin.CpuSet.{CpuSet, cpu_bits, IsCpuSet, empty_set, cpu_isset, cpu_set, cpu_clr, cpu_count}

pub get_bit_past : {s : CpuSet} → IsCpuSet s → (i : ℕ) → cpu_bits ≤ i → get_bit s i ≡ false
unfolding get_bit
get_bit_past {s} h i le =
    let past : word_at s (i / 64) ≡ 0 = get_or_past s (i / 64) 0 (omega (arith, h.size)) in
    rw past (word_bit-zero (i % 64))

pub get_bit-empty : (i : ℕ) → get_bit empty_set i ≡ false
unfolding get_bit
get_bit-empty i =
    let none_set : word_at empty_set (i / 64) ≡ 0 = get_or-replicate 16 (i / 64) 0 in
    rw none_set (word_bit-zero (i % 64))

pub empty_set-IsCpuSet : IsCpuSet empty_set
empty_set-IsCpuSet = record {
  size = refl;
  words = λ k. let e : word_at empty_set k ≡ 0 = get_or-replicate 16 k 0 in rw e (omega arith);
}

-- A write of a word.
set-IsCpuSet : {s : CpuSet} (p v : ℕ) → IsCpuSet s → p < 16 → IsWord v → IsCpuSet (set s p v)
set-IsCpuSet {s} p v h lt word = record {
  size = length-set s p v ∙ h.size;
  words = λ k. ground (arith, get_or-set s p k v 0, h.size, h.words k);
}

get_bit-set :
    {s : CpuSet} (p v i : ℕ)
    → IsCpuSet s
    → p < 16
    → get_bit (set s p v) i ≡ (if p == i / 64 then word_bit v (i % 64) else get_bit s i)
unfolding get_bit
get_bit-set {s} p v i h lt = ground (arith, get_or-set s p (i / 64) v 0, h.size)

pub cpu_set-IsCpuSet : {s : CpuSet} (cpu : ℕ) → IsCpuSet s → IsCpuSet (cpu_set cpu s)
unfolding cpu_set
cpu_set-IsCpuSet {s} cpu h = elim (dec_lt cpu cpu_bits) [
  | yes lt ↦
      rw (lt→ltb _ _ lt)
        (set-IsCpuSet _ _ h (omega arith) (bit_or-IsWord _ _ (h.words _) (shl-IsWord 1 (cpu % 64))))
  | no ge ↦ rw (le→ltb cpu cpu_bits (omega arith)) h
]

pub cpu_clr-IsCpuSet : {s : CpuSet} (cpu : ℕ) → IsCpuSet s → IsCpuSet (cpu_clr cpu s)
unfolding cpu_clr
cpu_clr-IsCpuSet {s} cpu h = elim (dec_lt cpu cpu_bits) [
  | yes lt ↦ rw (lt→ltb _ _ lt) (set-IsCpuSet _ _ h (omega arith) (bit_and-IsWord _ _ (h.words _)))
  | no ge ↦ rw (le→ltb cpu cpu_bits (omega arith)) h
]

-- `CPU_SET` sets the bit of the CPU and no other; a CPU from 1024 on is left alone.
pub get_bit-cpu_set :
    {s : CpuSet} (cpu i : ℕ)
    → IsCpuSet s
    → get_bit (cpu_set cpu s) i ≡ (if ltb cpu cpu_bits && cpu == i then true else get_bit s i)
unfolding cpu_set
get_bit-cpu_set {s} cpu i h = elim (dec_lt cpu cpu_bits) [
  | yes lt ↦
      rw (lt→ltb _ _ lt, get_bit-set {s = s} (cpu / 64) _ i h (omega arith))
        (unfold get_bit in
          ground (
            arith,
            word_bit-bit_or (word_at s (cpu / 64)) (shl 1 (cpu % 64)) (i % 64),
            word_bit-shl_one (cpu % 64) (i % 64),
          ))
  | no ge ↦ rw (le→ltb cpu cpu_bits (omega arith))
]

-- `CPU_CLR` clears the bit of the CPU and no other.
pub get_bit-cpu_clr :
    {s : CpuSet} (cpu i : ℕ)
    → IsCpuSet s
    → get_bit (cpu_clr cpu s) i ≡ (if cpu == i then false else get_bit s i)
unfolding cpu_clr
get_bit-cpu_clr {s} cpu i h = elim (dec_lt cpu cpu_bits) [
  | yes lt ↦
      rw (lt→ltb _ _ lt, get_bit-set {s = s} (cpu / 64) _ i h (omega arith))
        (unfold get_bit in
          ground (
            arith,
            word_bit-bit_and (word_at s (cpu / 64)) (bit_not (shl 1 (cpu % 64))) (i % 64),
            word_bit-bit_not (shl 1 (cpu % 64)) (i % 64) (shl-IsWord 1 (cpu % 64)),
            word_bit-shl_one (cpu % 64) (i % 64),
          ))
  | no ge ↦ rw (le→ltb cpu cpu_bits (omega arith)) (ground (arith, get_bit_past h i))
]

-- `CPU_ISSET` tests the bit of the CPU.
pub cpu_isset-get_bit : {s : CpuSet} (cpu : ℕ) → IsCpuSet s → cpu_isset cpu s ≡ get_bit s cpu
unfolding cpu_isset
cpu_isset-get_bit {s} cpu h = elim (dec_lt cpu cpu_bits) [
  | yes lt ↦
      rw (lt→ltb _ _ lt)
        (unfold get_bit in test_bit_of_word (word_at s (cpu / 64)) (cpu % 64) (omega arith))
  | no ge ↦ rw (le→ltb cpu cpu_bits (omega arith)) (sym (get_bit_past h cpu (omega arith)))
]

-- A set that loses a member counts one less.
pub cpu_count-cpu_clr :
    {s : CpuSet} (cpu : ℕ)
    → IsCpuSet s
    → get_bit s cpu ≡ true
    → cpu_count s ≡ cpu_count (cpu_clr cpu s) + 1
unfolding cpu_count
cpu_count-cpu_clr {s} cpu h there =
    let lt : cpu < 1024 = ground (arith, get_bit_past h cpu) in
    let split =
      count_below_split 1024 (get_bit s) (get_bit (cpu_clr cpu s)) (λ i. cpu == i)
        (λ i _. ground (arith, get_bit-cpu_clr cpu i h, ap (get_bit s) {x = i} {y = cpu}))
        (λ i _. ground (arith, get_bit-cpu_clr cpu i h)) in
    omega (arith, split, count_below_one 1024 cpu lt)

-- A set that gains a member counts one more.
pub cpu_count-cpu_set :
    {s : CpuSet} (cpu : ℕ)
    → IsCpuSet s
    → cpu < cpu_bits
    → get_bit s cpu ≡ false
    → cpu_count (cpu_set cpu s) ≡ cpu_count s + 1
unfolding cpu_count
cpu_count-cpu_set {s} cpu h lt clear =
    let split =
      count_below_split 1024 (get_bit (cpu_set cpu s)) (get_bit s) (λ i. cpu == i)
        (λ i _. ground (arith, get_bit-cpu_set cpu i h)) (λ i _. ground arith) in
    omega (arith, split, count_below_one 1024 cpu lt)
