-- ===== src/Pin/Init/Discovery.antt =====
-- The search for CPUs that the process can be moved to, bit by bit.
use mpipin.Base.{
  ℕ, zero, suc, ◌+◌, ◌≤◌, ◌<◌, ◌≡◌, arith, Bool, true, false, not, ◌&&◌, ltb, leb, ◌==◌,
  if◌then◌else◌, ℕ_discrete, ap, sym, ◌∙◌, subst, Bool-cases, inl, inr,
}
use mpipin.Bitops.{get_bit}
use mpipin.CpuSet.{CpuSet, cpu_bits, IsCpuSet, empty_set, cpu_isset, cpu_set}
use mpipin.CpuSet.Laws.{cpu_set-IsCpuSet, get_bit-cpu_set, cpu_isset-get_bit}
use mpipin.Pin.Init.{System, discover}

-- The process can be moved to the CPU.
abbrev pub moves : System → ℕ → Bool
moves system cpu =
    let target = cpu_set cpu empty_set in
    if system.set_affinity target then system.getcpu target == cpu else false

-- The CPUs after a round of the discovery.
abbrev found_more : System → (excluded : CpuSet) → (cpu : ℕ) → CpuSet → CpuSet
found_more system excluded cpu available =
    if cpu_isset cpu excluded
    then available
    else if cpu_isset cpu available
    then available
    else if moves system cpu
    then cpu_set cpu available
    else available

module _ (system : System) (excluded : CpuSet) (ex_set : IsCpuSet excluded) where
  found_more-IsCpuSet :
      (cpu : ℕ) (available : CpuSet)
      → IsCpuSet available
      → IsCpuSet (found_more system excluded cpu available)
  found_more-IsCpuSet cpu available h = elim (Bool-cases (cpu_isset cpu excluded)) [
    | inl out ↦ rw out h
    | inr usable ↦ elim (Bool-cases (cpu_isset cpu available)) [
      | inl known ↦ rw (usable, known) h
      | inr new ↦ elim (Bool-cases (moves system cpu)) [
        | inl there ↦ rw (usable, new, there) (cpu_set-IsCpuSet {s = available} cpu h)
        | inr away ↦ rw (usable, new, away) h
      ]
    ]
  ]

  get_bit-found_more :
      (cpu i : ℕ) (available : CpuSet)
      → IsCpuSet available
      → cpu < cpu_bits
      → get_bit (found_more system excluded cpu available) i ≡ (
          if cpu == i && not (get_bit excluded cpu) && moves system cpu
          then true
          else get_bit available i)
  get_bit-found_more cpu i available h lt =
      let ex = cpu_isset-get_bit {s = excluded} cpu ex_set in
      let known_bit = cpu_isset-get_bit {s = available} cpu h in
      elim (Bool-cases (cpu_isset cpu excluded)) [
        | inl out ↦ rw out (ground (arith, ex))
        | inr usable ↦ elim (Bool-cases (cpu_isset cpu available)) [
          | inl known ↦
              rw (usable, known)
                (elim (ℕ_discrete cpu i) [
                  | yes here ↦
                      let there : get_bit available i ≡ true =
                        subst (λ c. get_bit available c ≡ true) here (sym known_bit ∙ known) in
                      ground (arith, there)
                  | no other ↦ ground arith
                ])
          | inr new ↦ elim (Bool-cases (moves system cpu)) [
            | inl there ↦
                rw (usable, new, there)
                  (ground (arith, ex, get_bit-cpu_set {s = available} cpu i h))
            | inr away ↦ rw (usable, new, away) (ground arith)
          ]
        ]
      ]

  pub discover_bits :
      (left cpu : ℕ) (available : CpuSet) (i : ℕ)
      → IsCpuSet available
      → cpu + left ≤ cpu_bits
      → (get_bit (discover system excluded left cpu available) i ≡ (
          if leb cpu i && ltb i (cpu + left) && not (get_bit excluded i) && moves system i
          then true
          else get_bit available i))
        × IsCpuSet (discover system excluded left cpu available)
  unfolding discover
  discover_bits zero cpu available i h room = (ground arith, h)
  discover_bits (suc left) cpu available i h room =
      let (rest, is) =
        discover_bits left (cpu + 1) (found_more system excluded cpu available) i
          (found_more-IsCpuSet cpu available h) (omega arith) in
      let more = get_bit-found_more cpu i available h (omega arith) in
      (
        elim (ℕ_discrete cpu i) [
          | yes here ↦
              ground (arith, rest, more, ap (get_bit excluded) here, ap (moves system) here)
          | no other ↦ ground (arith, rest, more)
        ],
        is,
      )
