-- ===== src/Timer/Expiry.antt =====
-- What timer_set_timeout arms and what timer_timeout collects.
use embedded_systems_wireles.Base.{
  ℕ, ◌+◌, ◌*◌, ◌≤◌, ◌<◌, ◌≡◌, ◌≢◌, refl, ap, ◌∙◌, inl, inr, true, false, List, [], ◌∷◌, ◌++◌, arith,
  All, All-map, ltb_ℤ, pos, Bool-cases,
}
use embedded_systems_wireles.Time.{Timeval, usecs, timeval_diff}
use embedded_systems_wireles.Timer.{
  TimerId, Timer, Timers, elem, set_cell, attached, timer_remove, vacate, timer_add,
  timer_set_timeout, after_msec, set_time, take_expired, drop_expired, collect,
}
use embedded_systems_wireles.Timer.Order.{
  due, IsSorted, diff_pos, diff_nonpos, elem-insert, elem-detach,
}
use embedded_systems_wireles.Timer.Invariant.{TimersOk}

pub take-append-drop_expired :
    (cell : TimerId → Timer) (now : Timeval) (xs : List TimerId)
    → take_expired cell now xs ++ drop_expired cell now xs ≡ xs
unfolding take_expired drop_expired
take-append-drop_expired cell now [] = refl
take-append-drop_expired cell now (x ∷ xs) =
    ground (arith, ap (◌∷◌ x) (take-append-drop_expired cell now xs))

take_expired-due :
    (cell : TimerId → Timer) (now : Timeval) (xs : List TimerId)
    → All (λ t. due cell t < usecs now + 1000) (take_expired cell now xs)
unfolding take_expired
take_expired-due cell now [] = tt
take_expired-due cell now (x ∷ xs) =
    ground (arith, diff_nonpos (cell x).timeout now, take_expired-due cell now xs)

drop_expired-due :
    (cell : TimerId → Timer) (now : Timeval) (xs : List TimerId)
    → IsSorted cell xs
    → All (λ t. usecs now < due cell t) (drop_expired cell now xs)
unfolding drop_expired
drop_expired-due cell now [] s = tt
drop_expired-due cell now (x ∷ xs) s =
    elim (Bool-cases (ltb_ℤ (pos 0) (timeval_diff (cell x).timeout now))) [
      | inl e ↦
          let later : usecs now + 1000 ≤ due cell x = diff_pos _ _ e in
          rw e (
            omega arith,
            All-map (λ y. due cell x < due cell y + 1000) (λ y. usecs now < due cell y)
                (λ y h. omega arith) xs s.0,
          )
      | inr e ↦ rw e (drop_expired-due cell now xs s.1)
    ]

-- The timers that timer_timeout takes off the queue and the rest of it make up the queue; each taken
-- one is due before `now` plus one millisecond, and every timer that stays is due after `now`.
pub collect_splits :
    (now : Timeval) (ts : Timers)
    → TimersOk ts
    → ((collect now ts).exp ++ (collect now ts).tq ≡ ts.tq)
      × All (λ t. due ts.cell t < usecs now + 1000) (collect now ts).exp
      × All (λ t. usecs now < due ts.cell t) (collect now ts).tq
unfolding collect
collect_splits now ts v = (
  take-append-drop_expired ts.cell now ts.tq,
  take_expired-due ts.cell now ts.tq,
  drop_expired-due ts.cell now ts.tq v.sorted,
)

-- What a step does to the timer `t` and to another one.
abbrev Spares : TimerId → TimerId → Timers → Timers → Type 0
Spares t s ts us = s ≢ t → (us.cell s ≡ ts.cell s) × (attached s us ≡ attached s ts)

vacate_lem :
    (t s : TimerId) (ts : Timers)
    → Spares t s ts (vacate t ts)
      × (((vacate t ts).cell t).used ≡ false)
      × (((vacate t ts).cell t).handler ≡ (ts.cell t).handler)
unfolding vacate timer_remove attached set_cell
vacate_lem t s ts = (
  λ ne. (ground arith, ground (arith, elem-detach s t ts.tq, elem-detach s t ts.exp)),
  ground arith,
  ground arith,
)

set_time_lem :
    (t s : TimerId) (at : Timeval) (ts : Timers)
    → Spares t s ts (set_time t at ts)
      × (((set_time t at ts).cell t).used ≡ (ts.cell t).used)
      × (((set_time t at ts).cell t).handler ≡ (ts.cell t).handler)
      × (((set_time t at ts).cell t).timeout ≡ at)
unfolding set_time attached set_cell
set_time_lem t s at ts = (λ ne. (ground arith, refl), ground arith, ground arith, ground arith)

-- timer_add of a timer that is not used.
timer_add_lem :
    (t s : TimerId) (ts : Timers)
    → (ts.cell t).used ≡ false
    → Spares t s ts (timer_add t ts)
      × (elem t (timer_add t ts).tq ≡ true)
      × (((timer_add t ts).cell t).used ≡ true)
      × (((timer_add t ts).cell t).timeout ≡ (ts.cell t).timeout)
      × (((timer_add t ts).cell t).handler ≡ (ts.cell t).handler)
unfolding timer_add vacate attached set_cell
timer_add_lem t s ts h = (
  λ ne. (ground arith, ground (arith, elem-insert ts.cell s t ts.tq)),
  ground (arith, elem-insert ts.cell t t ts.tq),
  ground arith,
  ground arith,
  ground arith,
)

-- After timer_set_timeout the timer is in the queue, marked as used, due exactly `msec`
-- milliseconds from now, with its handler unchanged; another timer `s` is as it was, attached or not
-- as before.
pub timer_set_timeout_arms :
    (t s : TimerId) (now : Timeval) (msec : ℕ) (ts : Timers)
    → s ≢ t
    → let us = timer_set_timeout t now msec ts in
      (elem t us.tq ≡ true)
      × ((us.cell t).used ≡ true)
      × (due us.cell t ≡ usecs now + msec * 1000)
      × ((us.cell t).handler ≡ (ts.cell t).handler)
      × (us.cell s ≡ ts.cell s)
      × (attached s us ≡ attached s ts)
unfolding timer_set_timeout
timer_set_timeout_arms t s now msec ts ne =
    let (other, free, keep) = vacate_lem t s ts in
    let (other', free', keep', time') = set_time_lem t s (after_msec now msec) (vacate t ts) in
    let (other'', linked, used, time, keep'') =
      timer_add_lem t s (set_time t (after_msec now msec) (vacate t ts)) (free' ∙ free) in
    (
      linked,
      used,
      ap usecs (time ∙ time') ∙ usecs-after_msec now msec,
      keep'' ∙ keep' ∙ keep,
      (other'' ne).0 ∙ (other' ne).0 ∙ (other ne).0,
      (other'' ne).1 ∙ (other' ne).1 ∙ (other ne).1,
    )
  where
    usecs-after_msec :
        (now : Timeval) (msec : ℕ) → usecs (after_msec now msec) ≡ usecs now + msec * 1000
    usecs-after_msec now msec = unfold after_msec in omega arith
