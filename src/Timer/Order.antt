-- ===== src/Timer/Order.antt =====
-- The order of the timer queue. timer_add compares in whole milliseconds, so TQ is sorted up to one
-- millisecond; that this holds of any two timers, not only of neighbours, makes removal keep it.
use embedded_systems_wireles.Base.{
  ℕ, ◌+◌, ◌≤◌, ◌<◌, ◌≡◌, refl, inl, inr, Bool, true, false, List, [], ◌∷◌, arith, ite, All, All-map,
  ltb_ℤ, pos, Bool-cases,
}
use embedded_systems_wireles.Time.{Timeval, usecs, timeval_diff}
use embedded_systems_wireles.Timer.{
  TimerId, TimerId_discrete, Timer, elem, detach, insert, set_cell,
}

abbrev pub due : (TimerId → Timer) → TimerId → ℕ
due cell t = usecs (cell t).timeout

-- Each timer expires less than a millisecond after any timer behind it.
abbrev pub IsSorted : (TimerId → Timer) → List TimerId → Type 0
IsSorted cell [] = Unit {0}
IsSorted cell (x ∷ xs) = All (λ y. due cell x < due cell y + 1000) xs × IsSorted cell xs

pub diff_neg : (s t : Timeval) → ltb_ℤ (timeval_diff s t) (pos 0) ≡ true → usecs s + 1000 ≤ usecs t
unfolding timeval_diff
diff_neg s t h = ground arith

pub diff_nonneg :
    (s t : Timeval) → ltb_ℤ (timeval_diff s t) (pos 0) ≡ false → usecs t < usecs s + 1000
unfolding timeval_diff
diff_nonneg s t h = ground arith

pub diff_pos : (s t : Timeval) → ltb_ℤ (pos 0) (timeval_diff s t) ≡ true → usecs t + 1000 ≤ usecs s
unfolding timeval_diff
diff_pos s t h = ground arith

pub diff_nonpos :
    (s t : Timeval) → ltb_ℤ (pos 0) (timeval_diff s t) ≡ false → usecs s < usecs t + 1000
unfolding timeval_diff
diff_nonpos s t h = ground arith

All-insert :
    (P : TimerId → Type 0) (cell : TimerId → Timer) (t : TimerId) (xs : List TimerId)
    → P t
    → All P xs
    → All P (insert cell t xs)
unfolding insert
All-insert P cell t [] p ps = (p, tt)
All-insert P cell t (x ∷ xs) p ps = ground (arith, All-insert P cell t xs p ps.1)

pub All-detach :
    (P : TimerId → Type 0) (t : TimerId) (xs : List TimerId) → All P xs → All P (detach t xs)
unfolding detach
All-detach P t [] ps = tt
All-detach P t (x ∷ xs) ps = ground (arith, All-detach P t xs ps.1)

-- Inserting a timer keeps the order.
pub insert-IsSorted :
    (cell : TimerId → Timer) (t : TimerId) (xs : List TimerId)
    → IsSorted cell xs
    → IsSorted cell (insert cell t xs)
unfolding insert
insert-IsSorted cell t [] s = (tt, tt)
insert-IsSorted cell t (x ∷ xs) s =
    elim (Bool-cases (ltb_ℤ (timeval_diff (cell t).timeout (cell x).timeout) (pos 0))) [
      | inl e ↦
          let sooner : due cell t + 1000 ≤ due cell x = diff_neg _ _ e in
          rw e (
            (
              omega arith,
              All-map (λ y. due cell x < due cell y + 1000) (λ y. due cell t < due cell y + 1000)
                  (λ y h. omega arith) xs s.0,
            ),
            s,
          )
      | inr e ↦ rw e (
        All-insert (λ y. due cell x < due cell y + 1000) cell t xs (diff_nonneg _ _ e) s.0,
        insert-IsSorted cell t xs s.1,
      )
    ]

pub detach-IsSorted :
    (cell : TimerId → Timer) (t : TimerId) (xs : List TimerId)
    → IsSorted cell xs
    → IsSorted cell (detach t xs)
unfolding detach
detach-IsSorted cell t [] s = tt
detach-IsSorted cell t (x ∷ xs) s = ground (
  arith,
  All-detach (λ y. due cell x < due cell y + 1000) t xs s.0,
  detach-IsSorted cell t xs s.1,
)

-- The order looks only at the expiry times.
IsSorted-eq :
    (c d : TimerId → Timer) (xs : List TimerId)
    → All (λ y. due c y ≡ due d y) xs
    → IsSorted c xs
    → IsSorted d xs
IsSorted-eq c d [] e s = tt
IsSorted-eq c d (x ∷ xs) e s = (All-zip xs e.1 s.0, IsSorted-eq c d xs e.1 s.1)
  where
    All-zip :
        (ys : List TimerId)
        → All (λ y. due c y ≡ due d y) ys
        → All (λ y. due c x < due c y + 1000) ys
        → All (λ y. due d x < due d y + 1000) ys
    All-zip [] _ _ = tt
    All-zip (y ∷ ys) f r = (omega arith, All-zip ys f.1 r.1)

-- A timer that is in no list can be given any time.
set_cell-unlinked :
    (cell : TimerId → Timer) (t : TimerId) (v : Timer) (xs : List TimerId)
    → elem t xs ≡ false
    → All (λ y. due cell y ≡ due (set_cell cell t v) y) xs
unfolding elem set_cell
set_cell-unlinked cell t v [] h = tt
set_cell-unlinked cell t v (x ∷ xs) h = elim (TimerId_discrete x t) [
  | yes e ↦ absurd (ground arith)
  | no e ↦ (ground arith, set_cell-unlinked cell t v xs (ground arith))
]

-- A cell keeps its time: only the mark changes.
set_cell-used :
    (cell : TimerId → Timer) (t : TimerId) (b : Bool) (xs : List TimerId)
    → All (λ y. due cell y ≡ due (set_cell cell t (record (cell t) { used = b })) y) xs
unfolding set_cell
set_cell-used cell t b [] = tt
set_cell-used cell t b (x ∷ xs) = (
  elim (TimerId_discrete x t) [ yes e ↦ ground arith | no e ↦ ground arith ],
  set_cell-used cell t b xs,
)

pub unlinked-IsSorted :
    (cell : TimerId → Timer) (t : TimerId) (v : Timer) (xs : List TimerId)
    → elem t xs ≡ false
    → IsSorted cell xs
    → IsSorted (set_cell cell t v) xs
unlinked-IsSorted cell t v xs h =
    IsSorted-eq cell (set_cell cell t v) xs (set_cell-unlinked cell t v xs h)

pub used-IsSorted :
    (cell : TimerId → Timer) (t : TimerId) (b : Bool) (xs : List TimerId)
    → IsSorted cell xs
    → IsSorted (set_cell cell t (record (cell t) { used = b })) xs
used-IsSorted cell t b xs =
    IsSorted-eq cell (set_cell cell t (record (cell t) { used = b })) xs (set_cell-used cell t b xs)

pub elem-detach :
    (s t : TimerId) (xs : List TimerId)
    → elem s (detach t xs) ≡ ite (TimerId_discrete t s) false (elem s xs)
unfolding elem detach
elem-detach s t [] = ground arith
elem-detach s t (x ∷ xs) = ground (arith, elem-detach s t xs)

pub elem-insert :
    (cell : TimerId → Timer) (s t : TimerId) (xs : List TimerId)
    → elem s (insert cell t xs) ≡ ite (TimerId_discrete t s) true (elem s xs)
unfolding elem insert
elem-insert cell s t [] = ground arith
elem-insert cell s t (x ∷ xs) = ground (arith, elem-insert cell s t xs)

abbrev pub Distinct : List TimerId → Type 0
Distinct [] = Unit {0}
Distinct (x ∷ xs) = (elem x xs ≡ false) × Distinct xs

pub insert-Distinct :
    (cell : TimerId → Timer) (t : TimerId) (xs : List TimerId)
    → elem t xs ≡ false
    → Distinct xs
    → Distinct (insert cell t xs)
unfolding elem insert
insert-Distinct cell t [] h d = (refl, tt)
insert-Distinct cell t (x ∷ xs) h d = elim (TimerId_discrete x t) [
  | yes e ↦ absurd (ground arith)
  | no e ↦ ground (arith, insert-Distinct cell t xs, elem-insert cell x t xs)
]

pub detach-Distinct : (t : TimerId) (xs : List TimerId) → Distinct xs → Distinct (detach t xs)
unfolding detach
detach-Distinct t [] d = tt
detach-Distinct t (x ∷ xs) d = ground (arith, detach-Distinct t xs d.1, elem-detach x t xs)
