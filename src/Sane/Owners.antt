-- ===== src/Sane/Owners.antt =====
-- The owners of timers: what the operations on timers and on the table leave of them.
use embedded_systems_wireles.Base.{
  ℕ, ◌≡◌, ◌≢◌, inl, inr, true, ◌||◌, List, [], ◌∷◌, some, arith, Bool-cases,
}
use embedded_systems_wireles.Time.{Timeval}
use embedded_systems_wireles.Timer.{
  TimerId, Timer, TimerId_discrete, Timers, elem, owner, of_route, timer_remove, timer_set_timeout,
  timer_add, vacate, set_time, link, collect, take_expired, drop_expired,
}
use embedded_systems_wireles.Timer.Order.{elem-detach, elem-insert}
use embedded_systems_wireles.Table.{Table, Rt, rt_table_find, find_in, has_dest, hashing}
use embedded_systems_wireles.Table.Invariant.{Present}
use embedded_systems_wireles.Sane.{Owned}

-- A table with an entry wherever there was one.
pub grown-Owned :
    (x y : Table) (ts : Timers) → ((a : ℕ) → Present x a → Present y a) → Owned x ts → Owned y ts
grown-Owned x y ts g o = λ t h e. g (owner t) (o t h e)

-- Timers of which none is in a list that was in none.
pub fewer-Owned :
    (x : Table) (ts us : Timers)
    → ((t : TimerId) → elem t us.tq || elem t us.exp ≡ true → elem t ts.tq || elem t ts.exp ≡ true)
    → Owned x ts
    → Owned x us
fewer-Owned x ts us g o = λ t h e. o t h (g t e)

pub timer_remove-Owned :
    (x : Table) (t : TimerId) (ts : Timers) → Owned x ts → Owned x (timer_remove t ts).0
unfolding timer_remove
timer_remove-Owned x t ts o =
    fewer-Owned x ts (timer_remove t ts).0
      (λ s e. ground (arith, elem-detach s t ts.tq, elem-detach s t ts.exp)) o

vacate-Owned : (x : Table) (t : TimerId) (ts : Timers) → Owned x ts → Owned x (vacate t ts)
unfolding vacate
vacate-Owned x t ts o = elim (Bool-cases (ts.cell t).used) [
  | inl e ↦ rw e (timer_remove-Owned x t ts o)
  | inr e ↦ rw e o
]

link-Owned :
    (x : Table) (t : TimerId) (ts : Timers)
    → (of_route t ≡ true → Present x (owner t))
    → Owned x ts
    → Owned x (link t ts)
unfolding link
link-Owned x t ts p o = λ s h e. elim (TimerId_discrete t s) [
  | yes q ↦ rw (← q) (p (rw q h))
  | no q ↦ o s h (ground (arith, elem-insert ts.cell s t ts.tq))
]

-- A timer that is started, with an entry if it is one of a route.
pub timer_set_timeout-Owned :
    (x : Table) (t : TimerId) (now : Timeval) (msec : ℕ) (ts : Timers)
    → (of_route t ≡ true → Present x (owner t))
    → Owned x ts
    → Owned x (timer_set_timeout t now msec ts)
unfolding timer_set_timeout timer_add set_time
timer_set_timeout-Owned x t now msec ts p o =
    link-Owned x t _ p (vacate-Owned x t _ (vacate-Owned x t ts o))

elem-take_expired :
    (t : TimerId) (cell : TimerId → Timer) (now : Timeval) (xs : List TimerId)
    → elem t (take_expired cell now xs) ≡ true
    → elem t xs ≡ true
unfolding elem take_expired
elem-take_expired t cell now [] e = e
elem-take_expired t cell now (y ∷ ys) e = ground (arith, elem-take_expired t cell now ys)

elem-drop_expired :
    (t : TimerId) (cell : TimerId → Timer) (now : Timeval) (xs : List TimerId)
    → elem t (drop_expired cell now xs) ≡ true
    → elem t xs ≡ true
unfolding elem drop_expired
elem-drop_expired t cell now [] e = e
elem-drop_expired t cell now (y ∷ ys) e = ground (arith, elem-drop_expired t cell now ys)

-- The timers that are collected were in the queue.
pub collect-Owned :
    (x : Table) (now : Timeval) (ts : Timers) → Owned x ts → Owned x (collect now ts)
unfolding collect
collect-Owned x now ts o =
    fewer-Owned x ts (collect now ts)
      (λ t e.
        ground
          (arith, elem-take_expired t ts.cell now ts.tq, elem-drop_expired t ts.cell now ts.tq))
      o

find_in-found :
    (a : ℕ) (rts : List Rt) (r : Rt)
    → find_in a rts ≡ some r
    → (r.dest_addr ≡ a) × (has_dest a rts ≡ true)
unfolding find_in has_dest
find_in-found a [] r e = cc
find_in-found a (q ∷ qs) r e = ground (arith, find_in-found a qs r)

-- The entry that a look-up finds is there, under the destination that was looked up.
pub rt_table_find-found :
    (a : ℕ) (t : Table) (r : Rt) → rt_table_find a t ≡ some r → (r.dest_addr ≡ a) × Present t a
unfolding rt_table_find
rt_table_find-found a t r e = ground (arith, find_in-found a (t.tbl (hashing a)) r)

pub found-Present :
    (a : ℕ) (t : Table) (r : Rt) → rt_table_find a t ≡ some r → Present t r.dest_addr
found-Present a t r e = let (q, p) = rt_table_find-found a t r e in rw q p

-- A timer that is still in a list when another has been removed.
pub timer_remove_left :
    (s t : TimerId) (ts : Timers)
    → let us = (timer_remove t ts).0 in
      elem s us.tq || elem s us.exp ≡ true → (s ≢ t) × (elem s ts.tq || elem s ts.exp ≡ true)
unfolding timer_remove
timer_remove_left s t ts e = (
  ground (arith, elem-detach s t ts.tq, elem-detach s t ts.exp),
  ground (arith, elem-detach s t ts.tq, elem-detach s t ts.exp),
)
