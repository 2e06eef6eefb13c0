-- ===== src/Pin/Queue/Order.antt =====
-- The list of processes stays in ascending order of PID, and its slots stay distinct.
use mpipin.Base.{
  ℕ, suc, ◌≤◌, ◌≡◌, ◌≢◌, refl, arith, ltb, List, [], ◌∷◌, length, sym, ap, Bool-cases, inl, inr,
  false, ltb→lt,
}
use mpipin.Pin.Queue.Chain.{Entry, Unused, Distinct}
use mpipin.Pin.Queue.Insert.{insert}

ltb-false : (a b : ℕ) → ltb a b ≡ false → b ≤ a
ltb-false a b h = ground arith

abbrev pub Below : ℕ → List Entry → Type 0
Below n [] = Unit {0}
Below n (e ∷ es) = n ≤ e.pid

-- In ascending order of PID.
abbrev pub Ascending : List Entry → Type 0
Ascending [] = Unit {0}
Ascending (e ∷ es) = Below e.pid es × Ascending es

insert-Below :
    (n : ℕ) (x : Entry) (es : List Entry) → n ≤ x.pid → Below n es → Below n (insert x es)
unfolding insert
insert-Below n x [] h b = h
insert-Below n x (e ∷ es) h b = elim (Bool-cases (ltb x.pid e.pid)) [
  | inl before ↦ rw before h
  | inr behind ↦ rw behind b
]

-- Adding a process keeps the order by PID.
pub insert-Ascending : (x : Entry) (es : List Entry) → Ascending es → Ascending (insert x es)
unfolding insert
insert-Ascending x [] h = (tt, tt)
insert-Ascending x (e ∷ es) h = elim (Bool-cases (ltb x.pid e.pid)) [
  | inl before ↦ rw before ((let h = ltb→lt x.pid e.pid before in omega arith), h)
  | inr behind ↦
      rw behind
        (insert-Below e.pid x es (ltb-false x.pid e.pid behind) h.0, insert-Ascending x es h.1)
]

pub Unused-insert :
    (i : ℕ) (x : Entry) (es : List Entry) → x.slot ≢ i → Unused i es → Unused i (insert x es)
unfolding insert
Unused-insert i x [] ne h = (ne, tt)
Unused-insert i x (e ∷ es) ne h = elim (Bool-cases (ltb x.pid e.pid)) [
  | inl before ↦ rw before (ne, h)
  | inr behind ↦ rw behind (h.0, Unused-insert i x es ne h.1)
]

pub Distinct-insert :
    (x : Entry) (es : List Entry) → Unused x.slot es → Distinct es → Distinct (insert x es)
unfolding insert
Distinct-insert x [] h d = (tt, tt)
Distinct-insert x (e ∷ es) h d = elim (Bool-cases (ltb x.pid e.pid)) [
  | inl before ↦ rw before (h, d)
  | inr behind ↦
      rw behind (Unused-insert e.slot x es (λ k. h.0 (sym k)) d.0, Distinct-insert x es h.1 d.1)
]

pub length-insert : (x : Entry) (es : List Entry) → length (insert x es) ≡ suc (length es)
unfolding insert
length-insert x [] = refl
length-insert x (e ∷ es) = elim (Bool-cases (ltb x.pid e.pid)) [
  | inl before ↦ rw before refl
  | inr behind ↦ rw behind (ap suc (length-insert x es))
]
