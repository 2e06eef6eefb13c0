-- ===== src/Main/Meeting/Arriving.antt =====
-- While processes enter, others wait in pin_process: what they do to the shared memory does not
-- interfere.
use mpipin.Base.{ℕ, refl, subst, if◌then◌else◌, List, Bool-cases, inl, inr, each_branch}
use mpipin.Base.Int.{ℤ, pos, dec, minus_one, ◌==ℤ◌}
use mpipin.CpuSet.{CpuSet}
use mpipin.Pin.{PartExec}
use mpipin.Pin.Init.{System, attach}
use mpipin.Pin.Queue.Chain.{Entry}
use mpipin.Pin.Barrier.{start}
use mpipin.Pin.Barrier.Gather.{Queued, Gathering}
use mpipin.Pin.Barrier.Arrive.{SameCpus}

-- An entry does not touch what pin_process works on.
Gathering-entry :
    (n : ℕ) (pe : PartExec) (q : List Entry) (left : ℤ) (cpus : CpuSet) (share : ℕ)
    → Gathering n pe q
    → Gathering n
        (record pe {
          nr_processes_left_in_init = left;
          cpus_available = cpus;
          cpus_to_assign = share;
        })
        q
unfolding start
Gathering-entry n pe q left cpus share h = elim (Bool-cases (pe.nr_processes ==ℤ minus_one)) [
  | inl new ↦
      let h' =
        subst
          (λ b.
            Queued n
              (if b then record pe { nr_processes = pos n; nr_processes_left = pos n } else pe) q)
          new h in
      rw new (again (record pe { nr_processes = pos n; nr_processes_left = pos n }) h')
  | inr old ↦
      let h' =
        subst
          (λ b.
            Queued n
              (if b then record pe { nr_processes = pos n; nr_processes_left = pos n } else pe) q)
          old h in
      rw old (again pe h')
]
  where
    again :
        (pe : PartExec)
        → Queued n pe q
        → Queued n
            (record pe {
              nr_processes_left_in_init = left;
              cpus_available = cpus;
              cpus_to_assign = share;
            })
            q
    again pe h = record {
      total = h.total;
      still = h.still;
      chain = h.chain;
      ascending = h.ascending;
      distinct = h.distinct;
      positive = h.positive;
      free = h.free;
      asleep = h.asleep;
      in_time = h.in_time;
    }

module _ (system : System) (excluded : CpuSet) (ppn : ℕ) (own : CpuSet) where
  pub attach-Gathering :
      (n : ℕ) (pe : PartExec) (q : List Entry)
      → Gathering n pe q
      → Gathering n (attach system excluded ppn own pe) q
  unfolding attach
  attach-Gathering n pe q h =
      each_branch (λ (pe : PartExec). Gathering n pe q) (dec pe.nr_processes_left_in_init ==ℤ pos 0)
        (λ _. Gathering-entry n pe q _ _ _ h) (λ _. Gathering-entry n pe q _ _ _ h)

  -- It does the same to the CPUs of two memories with the same CPUs.
  pub attach-SameCpus :
      (a b : PartExec)
      → SameCpus a b
      → SameCpus (attach system excluded ppn own a) (attach system excluded ppn own b)
  unfolding attach
  attach-SameCpus a b h =
      rw (h.same_to_enter, h.same_available)
        (elim (Bool-cases (dec a.nr_processes_left_in_init ==ℤ pos 0)) [
          | inl last ↦
              rw last
                (record { same_available = refl; same_to_assign = refl; same_to_enter = refl })
          | inr more ↦ rw more (record {
            same_available = refl;
            same_to_assign = h.same_to_assign;
            same_to_enter = refl;
          })
        ])
