-- ===== src/Bitmap/Ranges/Runs.antt =====
-- The ranges of consecutive set bits that bitmap_scnlistprintf prints, as a list.
use mpipin.Base.{
  ℕ, zero, suc, ◌+◌, ◌-◌, ◌*◌, ◌≤◌, ◌<◌, ◌≡◌, refl, ◌∙◌, subst, arith, Bool, true, false, ◌&&◌,
  ◌||◌, ltb, leb, if◌then◌else◌, Bool-cases, dec_lt, inl, inr, List, [], ◌∷◌, length, le→ltb,
  lt→ltb,
}
use mpipin.Word.{IsWord}
use mpipin.Bitops.{Words, IsWords, get_bit, find_first_bit, find_next_bit, set_bit}
use mpipin.Bitops.Find.{find_first_bit-IsFirst, find_next_bit-IsFirst}
use mpipin.Bitmap.Fold.Law.{get_bit-set_bit, length-set_bit}
use mpipin.Bitmap.Ranges.{set_range}

abbrev pub Ranges : Type 0
Ranges = List (ℕ × ℕ)

-- The ranges that are printed from the bit `cur` on, in a range that began at `rbot`.
unfoldable pub runs : Words → (nmaskbits fuel cur rbot : ℕ) → Ranges
runs maskp nmaskbits zero cur rbot = []
runs maskp nmaskbits (suc fuel) cur rbot =
    let cur' = find_next_bit maskp nmaskbits (cur + 1) in
    let emitted = (rbot, cur) ∷ runs maskp nmaskbits fuel cur' cur' in
    let longer = runs maskp nmaskbits fuel cur' rbot in
    if ltb cur nmaskbits
    then (if leb nmaskbits cur' || ltb (cur + 1) cur' then emitted else longer)
    else []

abbrev pub in_ranges : Ranges → ℕ → Bool
in_ranges [] i = false
in_ranges ((lo, hi) ∷ rs) i = leb lo i && leb i hi || in_ranges rs i

-- The ranges lie below the size.
abbrev pub AreBelow : ℕ → Ranges → Type 0
AreBelow n [] = Unit {0}
AreBelow n ((lo, hi) ∷ rs) = (lo ≤ hi) × (hi < n) × AreBelow n rs

-- What the list says of the bits.
pub record IsRuns (maskp : Words) (nmaskbits from : ℕ) (rs : Ranges) : Type 0 where
  pub below : AreBelow nmaskbits rs
  pub bits : (i : ℕ) → i < nmaskbits → in_ranges rs i ≡ (leb from i && get_bit maskp i)

module _ (maskp : Words) (words : IsWords maskp) (n : ℕ) (word : IsWord n) where
  runs-IsRuns :
      (fuel cur rbot : ℕ)
      → n ≤ cur + fuel
      → rbot ≤ cur
      → cur ≤ n
      → (n ≤ cur → rbot ≡ cur)
      → ((j : ℕ) → rbot ≤ j → j ≤ cur → j < n → get_bit maskp j ≡ true)
      → IsRuns maskp n rbot (runs maskp n fuel cur rbot)
  unfolding runs
  runs-IsRuns zero cur rbot enough le inside last solid = record {
    below = tt;
    bits = λ i lt. ground (arith, last);
  }
  runs-IsRuns (suc fuel) cur rbot enough le inside last solid = elim (dec_lt cur n) [
    | no past ↦
        rw (le→ltb cur n (omega arith)) (record { below = tt; bits = λ i lt. ground (arith, last) })
    | yes lt ↦
        let next = find_next_bit-IsFirst maskp words n (cur + 1) word (omega arith) in
        let cur' = find_next_bit maskp n (cur + 1) in
        elim (Bool-cases (leb n cur' || ltb (cur + 1) cur')) [
          | inl ends ↦
              let rest =
                runs-IsRuns fuel cur' cur' (omega (arith, next.start)) (omega arith) next.within
                  (λ _. refl)
                  (λ j ge le lt.
                    subst (λ j. get_bit maskp j ≡ true) (omega arith) (next.found (omega arith))) in
              rw (lt→ltb cur n lt, ends)
                (record {
                  below = (le, lt, rest.below);
                  bits = λ i below.
                      ground (arith, rest.bits i below, solid i, next.before i, next.start);
                })
          | inr longer ↦
              let near : cur' ≡ cur + 1 = ground (arith, next.start) in
              let rest =
                runs-IsRuns fuel cur' rbot (omega (arith, next.start)) (omega (arith, next.start))
                  next.within (λ ge. absurd (ground arith))
                  (λ j ge le lt. elim (dec_lt cur j) [
                    | yes new ↦
                        subst (λ j. get_bit maskp j ≡ true) (omega arith) (next.found (omega arith))
                    | no old ↦ solid j ge (omega arith) lt
                  ]) in
              rw (lt→ltb cur n lt, longer) rest
        ]
  ]

  -- The ranges of the whole bitmap are its bits.
  pub all_runs-IsRuns :
      IsRuns maskp n 0 (runs maskp n n (find_first_bit maskp n) (find_first_bit maskp n))
  all_runs-IsRuns =
      let first = find_first_bit-IsFirst maskp words n word in
      let f = find_first_bit maskp n in
      let rs =
        runs-IsRuns n f f (omega arith) (omega arith) first.within (λ _. refl)
          (λ j ge le lt.
            subst (λ j. get_bit maskp j ≡ true) (omega arith) (first.found (omega arith))) in
      record { below = rs.below; bits = λ i lt. ground (arith, rs.bits i lt, first.before i) }

-- __bitmap_parselist's effect on the bits.
abbrev pub set_ranges : Ranges → Words → Words
set_ranges [] maskp = maskp
set_ranges ((lo, hi) ∷ rs) maskp = set_ranges rs (set_range (hi + 1 - lo) lo maskp)

pub length-set_range :
    (rounds a : ℕ) (maskp : Words) → length (set_range rounds a maskp) ≡ length maskp
unfolding set_range
length-set_range zero a maskp = refl
length-set_range (suc rounds) a maskp =
    length-set_range rounds (a + 1) (set_bit a maskp) ∙ length-set_bit a maskp

get_bit-set_range :
    (rounds a : ℕ) (maskp : Words) (i : ℕ)
    → a + rounds ≤ 64 * length maskp
    → get_bit (set_range rounds a maskp) i ≡ (leb a i && ltb i (a + rounds) || get_bit maskp i)
unfolding set_range
get_bit-set_range zero a maskp i fits = ground arith
get_bit-set_range (suc rounds) a maskp i fits = ground (
  arith,
  get_bit-set_range rounds (a + 1) (set_bit a maskp) i (omega (arith, length-set_bit a maskp)),
  get_bit-set_bit a maskp i (omega arith),
)

pub get_bit-set_ranges :
    (rs : Ranges) (n : ℕ) (maskp : Words) (i : ℕ)
    → AreBelow n rs
    → n ≤ 64 * length maskp
    → get_bit (set_ranges rs maskp) i ≡ (in_ranges rs i || get_bit maskp i)
get_bit-set_ranges [] n maskp i below fits = refl
get_bit-set_ranges ((lo, hi) ∷ rs) n maskp i (le, lt, below) fits =
    let set = set_range (hi + 1 - lo) lo maskp in
    ground (
      arith,
      get_bit-set_ranges rs n set i below (omega (arith, length-set_range (hi + 1 - lo) lo maskp)),
      get_bit-set_range (hi + 1 - lo) lo maskp i (omega arith),
    )
