-- ===== src/Timer.antt =====
-- src/utils/timer_queue.c: the timers of the daemon and the queue TQ. A struct timer is embedded in
-- the object that it serves; here the structs stand in a store, each under an id that names the
-- object and the field. `exp` is the list expTQ of expired timers that timer_timeout is working off;
-- a timer is attached (its list links are not NULL) if it is in one of the two lists.
pub mod Order
pub mod Invariant
pub mod Expiry
use embedded_systems_wireles.Base.{
  ℕ, ◌+◌, ◌*◌, ◌/◌, ◌%◌, Bool, true, false, not, ◌||◌, List, [], ◌∷◌, ◌++◌, ite, ltb_ℤ, leb_ℤ, pos,
  if◌then◌else◌, ℕ_discrete,
}
use embedded_systems_wireles.Time.{Timeval, timeval_diff, zero_time}

-- The embedded timers: those of a route (by destination), of a sought destination, of a blacklisted
-- neighbour, of a buffered RREQ (by originator and id), and the static ones.
pub data TimerId : Type 0 where
  rt_timer ack_timer hello_timer seek_timer bl_timer : ℕ → TimerId
  rec_timer : ℕ → ℕ → TimerId
  hello_beacon garbage_collect_timer worb_timer : TimerId

-- The address in a timer's `data`.
abbrev pub owner : TimerId → ℕ
owner (rt_timer a) = a
owner (ack_timer a) = a
owner (hello_timer a) = a
owner (seek_timer a) = a
owner (bl_timer a) = a
owner (rec_timer a i) = a
owner _ = 0

-- The timers that are embedded in an entry of the routing table.
abbrev pub of_route : TimerId → Bool
of_route (rt_timer a) = true
of_route (ack_timer a) = true
of_route (hello_timer a) = true
of_route _ = false

unfoldable pub TimerId_discrete : Discrete TimerId
unfolding ℕ_discrete
TimerId_discrete = hlevel ℕ_discrete

-- The functions that are installed as handlers.
pub data Handler : Type 0 where
  route_expire_timeout route_delete_timeout local_repair_timeout rrep_ack_timeout hello_timeout
        route_discovery_timeout rreq_record_timeout rreq_blacklist_timeout hello_send
        packet_queue_timeout wait_on_reboot_timeout :
      Handler

-- Those that take an entry of the routing table, and where they may be installed.
abbrev pub takes_route : Handler → Bool
takes_route route_expire_timeout = true
takes_route route_delete_timeout = true
takes_route local_repair_timeout = true
takes_route rrep_ack_timeout = true
takes_route hello_timeout = true
takes_route _ = false

abbrev pub fits : TimerId → Handler → Bool
fits t f = not (takes_route f) || of_route t

pub record Timer : Type 0 where
  pub used : Bool
  pub timeout : Timeval
  pub handler : Handler

pub record Timers : Type 0 where
  pub cell : TimerId → Timer
  pub tq : List TimerId
  pub exp : List TimerId

unfoldable pub set_cell : (TimerId → Timer) → TimerId → Timer → TimerId → Timer
set_cell c t v s = ite (TimerId_discrete s t) v (c s)

unfoldable pub elem : TimerId → List TimerId → Bool
elem t [] = false
elem t (x ∷ xs) = ite (TimerId_discrete x t) true (elem t xs)

-- list_detach: a node is linked at one place.
unfoldable pub detach : TimerId → List TimerId → List TimerId
detach t [] = []
detach t (x ∷ xs) = let rest = detach t xs in ite (TimerId_discrete x t) rest (x ∷ rest)

unfoldable pub timer_init : TimerId → Handler → Timers → Timers
timer_init t f ts = record ts {
  cell = set_cell ts.cell t (record { used = false; timeout = zero_time; handler = f });
}

unfoldable pub attached : TimerId → Timers → Bool
attached t ts = elem t ts.tq || elem t ts.exp

-- The result says whether the timer was attached.
unfoldable pub timer_remove : TimerId → Timers → Timers × Bool
timer_remove t ts = (
  record ts {
    cell = set_cell ts.cell t (record (ts.cell t) { used = false });
    tq = detach t ts.tq;
    exp = detach t ts.exp;
  },
  attached t ts,
)

-- The statement `if (t->used) timer_remove(t);` of timer_add and timer_set_timeout.
unfoldable pub vacate : TimerId → Timers → Timers
vacate t ts = if (ts.cell t).used then (timer_remove t ts).0 else ts

-- The loop of timer_add with the list_add after it: behind every timer that does not expire later,
-- to the millisecond.
unfoldable pub insert : (TimerId → Timer) → TimerId → List TimerId → List TimerId
insert cell t [] = t ∷ []
insert cell t (x ∷ xs) =
    let rest = insert cell t xs in
    if ltb_ℤ (timeval_diff (cell t).timeout (cell x).timeout) (pos 0) then t ∷ x ∷ xs else x ∷ rest

unfoldable pub link : TimerId → Timers → Timers
link t ts = record ts {
  cell = set_cell ts.cell t (record (ts.cell t) { used = true });
  tq = insert ts.cell t ts.tq;
}

unfoldable pub timer_add : TimerId → Timers → Timers
unfolding link
timer_add t ts = link t (vacate t ts)

unfoldable pub set_time : TimerId → Timeval → Timers → Timers
set_time t at ts = record ts { cell = set_cell ts.cell t (record (ts.cell t) { timeout = at }) }

-- The fields as the source computes them, for msec ≥ 0.
unfoldable pub after_msec : Timeval → ℕ → Timeval
after_msec now msec = record {
  sec = now.sec + (now.usec + msec * 1000) / 1000000;
  usec = (now.usec + msec * 1000) % 1000000;
}

-- `now` is what gettimeofday gives.
unfoldable pub timer_set_timeout : TimerId → Timeval → ℕ → Timers → Timers
unfolding set_time
timer_set_timeout t now msec ts = timer_add t (set_time t (after_msec now msec) (vacate t ts))

-- The first loop of timer_timeout: the expired prefix of TQ and what stays, from the break on.
unfoldable pub take_expired : (TimerId → Timer) → Timeval → List TimerId → List TimerId
take_expired cell now [] = []
take_expired cell now (x ∷ xs) =
    let rest = take_expired cell now xs in
    if ltb_ℤ (pos 0) (timeval_diff (cell x).timeout now) then [] else x ∷ rest

unfoldable pub drop_expired : (TimerId → Timer) → Timeval → List TimerId → List TimerId
drop_expired cell now [] = []
drop_expired cell now (x ∷ xs) =
    let rest = drop_expired cell now xs in
    if ltb_ℤ (pos 0) (timeval_diff (cell x).timeout now) then x ∷ xs else rest

unfoldable pub collect : Timeval → Timers → Timers
collect now ts = record ts {
  tq = drop_expired ts.cell now ts.tq;
  exp = take_expired ts.cell now ts.tq;
}

-- The head of expTQ, detached and no longer used, as the second loop of timer_timeout takes it.
unfoldable pub pop_expired : TimerId → List TimerId → Timers → Timers
pop_expired t rest ts = record ts {
  cell = set_cell ts.cell t (record (ts.cell t) { used = false });
  exp = rest;
}
