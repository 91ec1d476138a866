-- ===== src/Timer/Invariant.antt =====
-- The invariant of the timer queue, kept by every operation, and what timer_timeout collects.
use embedded_systems_wireles.Base.{ℕ, ◌≡◌, ◌≢◌, inl, inr, true, false, arith, Bool-cases}
use embedded_systems_wireles.Time.{Timeval}
use embedded_systems_wireles.Timer.{
  TimerId, Timers, Handler, elem, detach, insert, set_cell, attached, timer_init, timer_remove,
  vacate, timer_add, timer_set_timeout, link, set_time,
}
use embedded_systems_wireles.Timer.Order.{
  IsSorted, insert-IsSorted, detach-IsSorted, unlinked-IsSorted, used-IsSorted, elem-detach,
  elem-insert, Distinct, insert-Distinct, detach-Distinct,
}

-- The queue is sorted, no timer is in both lists, and the field `used` says which are in one.
pub record TimersOk (ts : Timers) : Type 0 where
  pub sorted : IsSorted ts.cell ts.tq
  pub marked : (t : TimerId) → (ts.cell t).used ≡ attached t ts
  pub apart : (t : TimerId) → elem t ts.tq ≡ true → elem t ts.exp ≡ false
  pub once : Distinct ts.tq × Distinct ts.exp

pub timer_init-TimersOk :
    (t : TimerId) (f : Handler) (ts : Timers)
    → TimersOk ts
    → attached t ts ≡ false
    → TimersOk (timer_init t f ts)
unfolding timer_init attached
timer_init-TimersOk t f ts v h = record {
  sorted = unlinked-IsSorted ts.cell t _ ts.tq (ground arith) v.sorted;
  marked = λ s. unfold set_cell in ground (arith, v.marked s);
  apart = v.apart;
  once = v.once;
}

-- timer_remove keeps the queue sorted to the millisecond, the timers in one list each and at one place,
-- and the field `used` in step with the lists.
pub timer_remove-TimersOk :
    (t : TimerId) (ts : Timers) → TimersOk ts → TimersOk (timer_remove t ts).0
unfolding timer_remove attached
timer_remove-TimersOk t ts v = record {
  sorted =
      used-IsSorted ts.cell t false (detach t ts.tq) (detach-IsSorted ts.cell t ts.tq v.sorted);
  marked = λ s.
      unfold set_cell in ground (arith, v.marked s, elem-detach s t ts.tq, elem-detach s t ts.exp);
  apart = λ s h. ground (arith, v.apart s, elem-detach s t ts.tq, elem-detach s t ts.exp);
  once = (detach-Distinct t ts.tq v.once.0, detach-Distinct t ts.exp v.once.1);
}

pub timer_remove_detaches : (t : TimerId) (ts : Timers) → attached t (timer_remove t ts).0 ≡ false
unfolding timer_remove attached
timer_remove_detaches t ts = ground (arith, elem-detach t t ts.tq, elem-detach t t ts.exp)

-- timer_remove leaves every other timer as it is and where it is.
pub timer_remove_others :
    (s t : TimerId) (ts : Timers)
    → s ≢ t
    → ((timer_remove t ts).0.cell s ≡ ts.cell s)
      × (attached s (timer_remove t ts).0 ≡ attached s ts)
unfolding timer_remove attached set_cell
timer_remove_others s t ts ne =
    (ground arith, ground (arith, elem-detach s t ts.tq, elem-detach s t ts.exp))

vacate-TimersOk : (t : TimerId) (ts : Timers) → TimersOk ts → TimersOk (vacate t ts)
unfolding vacate
vacate-TimersOk t ts v = elim (Bool-cases (ts.cell t).used) [
  | inl e ↦ rw e (timer_remove-TimersOk t ts v)
  | inr e ↦ rw e v
]

vacate_detaches : (t : TimerId) (ts : Timers) → TimersOk ts → attached t (vacate t ts) ≡ false
unfolding vacate
vacate_detaches t ts v = elim (Bool-cases (ts.cell t).used) [
  | inl e ↦ rw e (timer_remove_detaches t ts)
  | inr e ↦ rw e (ground (arith, v.marked t))
]

set_time-TimersOk :
    (t : TimerId) (at : Timeval) (ts : Timers)
    → TimersOk ts
    → attached t ts ≡ false
    → TimersOk (set_time t at ts)
unfolding set_time attached
set_time-TimersOk t at ts v h = record {
  sorted = unlinked-IsSorted ts.cell t _ ts.tq (ground arith) v.sorted;
  marked = λ s. unfold set_cell in ground (arith, v.marked s, v.marked t);
  apart = v.apart;
  once = v.once;
}

link-TimersOk :
    (t : TimerId) (ts : Timers) → TimersOk ts → attached t ts ≡ false → TimersOk (link t ts)
unfolding link attached
link-TimersOk t ts v h = record {
  sorted =
      used-IsSorted ts.cell t true (insert ts.cell t ts.tq)
        (insert-IsSorted ts.cell t ts.tq v.sorted);
  marked = λ s. unfold set_cell in ground (arith, v.marked s, elem-insert ts.cell s t ts.tq);
  apart = λ s e. ground (arith, v.apart s, elem-insert ts.cell s t ts.tq);
  once = (insert-Distinct ts.cell t ts.tq (ground arith) v.once.0, v.once.1);
}

-- timer_add keeps the invariant.
pub timer_add-TimersOk : (t : TimerId) (ts : Timers) → TimersOk ts → TimersOk (timer_add t ts)
unfolding timer_add
timer_add-TimersOk t ts v =
    link-TimersOk t (vacate t ts) (vacate-TimersOk t ts v) (vacate_detaches t ts v)

-- timer_set_timeout keeps the queue sorted to the millisecond, the timers in one list each and at one
-- place, and the field `used` in step with the lists.
pub timer_set_timeout-TimersOk :
    (t : TimerId) (now : Timeval) (msec : ℕ) (ts : Timers)
    → TimersOk ts
    → TimersOk (timer_set_timeout t now msec ts)
unfolding timer_set_timeout
timer_set_timeout-TimersOk t now msec ts v =
    timer_add-TimersOk t _
      (set_time-TimersOk t _ (vacate t ts) (vacate-TimersOk t ts v) (vacate_detaches t ts v))
