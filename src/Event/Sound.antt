-- ===== src/Event/Sound.antt =====
-- The select loop keeps the whole daemon well-formed: no timer is left of an entry that is freed.
use embedded_systems_wireles.Base.{
  ℕ, ℤ, Option, none, some, zero, suc, ◌≡◌, refl, true, List, [], ◌∷◌, length, arith,
}
use embedded_systems_wireles.Time.{Timeval}
use embedded_systems_wireles.Timer
use embedded_systems_wireles.Timer.{
  TimerId, TimerId_discrete, Handler, Timers, elem, owner, of_route, takes_route, fits, set_cell,
  timer_init, timer_remove, timer_set_timeout, timer_add, vacate, set_time, link, collect,
  pop_expired, garbage_collect_timer,
}
use embedded_systems_wireles.Table.Invariant.{Present}
use embedded_systems_wireles.Daemon.{Daemon}
use embedded_systems_wireles.Sane.{Owned}
use embedded_systems_wireles.Sane.Owners.{fewer-Owned, collect-Owned}
use embedded_systems_wireles.Tame.{Tame, On}
use embedded_systems_wireles.Event.{
  run_handler, run_first, run_expired, timer_timeout, age, timer_age_queue,
}
use embedded_systems_wireles.Event.Packets.{
  Healthy, weaken, track, aodv_socket_read-Healthy, nfqueue_packet_cb-Healthy,
}
use embedded_systems_wireles.Event.Handlers.{Live, kept_by, run_handler-Healthy}
use embedded_systems_wireles.Event.Loop.{run_handler-Tame}
use embedded_systems_wireles.Event.Rounds.{
  Ready, received, handed, reported, llf_print_events-Tame, call_back, Call, call_backs, at_clock,
  Round, at_round, main_loop, aodv_socket_read-Tame,
}
use embedded_systems_wireles.Tame.Inputs.{nfqueue-Tame}
use embedded_systems_wireles.Table.{Rt, rt_table_find}
use embedded_systems_wireles.Neighbor.{neighbor_link_break}
use embedded_systems_wireles.Llf.{IwEvent, tx_drop, other_event, llf_print_event, llf_print_events}
use embedded_systems_wireles.Sane.Routes.{link_break-Sane}

-- A function that takes an entry is installed in no timer but an entry's.
unfoldable pub Fitting : Timers → Type 0
Fitting ts = (t : TimerId) → fits t (ts.cell t).handler ≡ true

set_timeout-handler :
    (s t : TimerId) (now : Timeval) (msec : ℕ) (ts : Timers)
    → ((timer_set_timeout t now msec ts).cell s).handler ≡ (ts.cell s).handler
unfolding timer_set_timeout timer_add vacate timer_remove set_time link set_cell
set_timeout-handler s t now msec ts = ground arith

timeout-Fitting :
    (t : TimerId) (now : Timeval) (msec : ℕ) (ts : Timers)
    → Fitting ts
    → Fitting (timer_set_timeout t now msec ts)
unfolding Fitting
timeout-Fitting t now msec ts v = λ s. rw (set_timeout-handler s t now msec ts) (v s)

Fitting-Tame : Tame Fitting
unfolding Fitting timer_init timer_remove set_cell
Fitting-Tame = record {
  init = λ t f ts o v s. ground (arith, v s);
  timeout = λ t now msec ts o v. timeout-Fitting t now msec ts v;
  remove = λ t ts o v s. ground (arith, v s);
  handler = λ t f ts o v s. ground (arith, v s);
}

-- The daemon between two steps.
pub record Sound (d : Daemon) : Type 0 where
  pub healthy : Healthy [] d
  pub fitting : Fitting d.timers

-- A timer at the head of the expired ones: the entry that its function takes has not been freed.
head-Present :
    (t : TimerId) (xs : List TimerId) (d : Daemon)
    → Sound d
    → d.timers.exp ≡ t ∷ xs
    → takes_route (d.timers.cell t).handler ≡ true
    → Present d.table (owner t)
unfolding Fitting elem
head-Present t xs d v e h = v.healthy.5 t (ground (arith, v.fitting t)) (rw e (ground arith))

live : (f : Handler) (a : ℕ) (d : Daemon) → (takes_route f ≡ true → Present d.table a) → Live f a d
live Timer.route_delete_timeout a d p = p refl
live Timer.local_repair_timeout a d p = p refl
live _ a d p = tt

none_kept : (f : Handler) (d : Daemon) → Healthy (kept_by f []) d → Healthy [] d
none_kept Timer.route_delete_timeout d v = v
none_kept _ d v = v

popped-Owned :
    (t : TimerId) (xs : List TimerId) (d : Daemon)
    → d.timers.exp ≡ t ∷ xs
    → Owned d.table d.timers
    → Owned d.table (pop_expired t xs d.timers)
unfolding pop_expired
popped-Owned t xs d e o =
    fewer-Owned d.table d.timers (pop_expired t xs d.timers)
      (λ s h. rw e (unfold elem in ground (arith, h))) o

run_first-Sound :
    (xs : List TimerId) (d : Daemon) → d.timers.exp ≡ xs → Sound d → Sound (run_first xs d)
unfolding run_first
run_first-Sound [] d e v = v
run_first-Sound (t ∷ xs) d e v =
    let f = (d.timers.cell t).handler in
    let d1 = record d { timers = pop_expired t xs d.timers } in
    let h = v.healthy in
    let h1 : Healthy [] d1 = (h.0, refl, h.2, h.3, tt, popped-Owned t xs d e h.5, h.6) in
    let fit : Fitting d1.timers =
      unfold Fitting in unfold pop_expired in unfold set_cell in λ s. ground (arith, v.fitting s) in
    record {
      healthy =
          none_kept f (run_handler f t d1)
            (run_handler-Healthy f t [] d1 h1 (live f (owner t) d1 (head-Present t xs d v e)));
      fitting =
          unfold On in
          run_handler-Tame Fitting Fitting-Tame
            (λ now ts w. timeout-Fitting garbage_collect_timer now 1000 ts w) f t d1 fit;
    }

run_expired-Sound : (n : ℕ) (d : Daemon) → Sound d → Sound (run_expired n d)
unfolding run_expired
run_expired-Sound zero d v = v
run_expired-Sound (suc n) d v =
    run_expired-Sound n (run_first d.timers.exp d) (run_first-Sound d.timers.exp d refl v)

timer_timeout-Sound : (d : Daemon) → Sound d → Sound (timer_timeout d)
unfolding timer_timeout
timer_timeout-Sound d v =
    let d1 = record d { timers = collect d.now d.timers } in
    let h = v.healthy in
    run_expired-Sound (length d1.timers.exp) d1 (record {
      healthy = (h.0, refl, h.2, h.3, tt, collect-Owned d.table d.now d.timers h.5, h.6);
      fitting = unfold Fitting in unfold collect in v.fitting;
    })

timer_age_queue-Sound : (d : Daemon) → Sound d → Sound (timer_age_queue d).0
unfolding timer_age_queue
timer_age_queue-Sound d v = aged d.timers.tq
  where
    aged : (xs : List TimerId) → Sound (age xs d).0
    aged [] = unfold age in v
    aged (x ∷ xs) = unfold age in timer_timeout-Sound d v

print_event-Healthy : (e : IwEvent) (d : Daemon) → Healthy [] d → Healthy [] (llf_print_event e d)
unfolding llf_print_event
print_event-Healthy (tx_drop none) d v = v
print_event-Healthy (tx_drop (some ip)) d v = broken (rt_table_find ip d.table)
  where
    broken :
        (o : Option Rt)
        → Healthy [] (elim o [ none ↦ d | some r ↦ neighbor_link_break r.dest_addr d ])
    broken none = v
    broken (some r) =
        weaken (track [] d) (neighbor_link_break r.dest_addr d)
          (link_break-Sane (track [] d) r.dest_addr d v)
print_event-Healthy other_event d v = v

llf_print_events-Healthy :
    (es : List IwEvent) (d : Daemon) → Healthy [] d → Healthy [] (llf_print_events es d)
unfolding llf_print_events
llf_print_events-Healthy [] d v = v
llf_print_events-Healthy (e ∷ es) d v =
    llf_print_events-Healthy es (llf_print_event e d) (print_event-Healthy e d v)

call_back-Sound : (r : Ready) (d : Daemon) → Sound d → Sound (call_back r d)
unfolding call_back
call_back-Sound (received m len src dst ttl ifindex) d v = record {
  healthy = aodv_socket_read-Healthy m len src dst ttl ifindex [] d v.healthy;
  fitting =
      unfold On in aodv_socket_read-Tame Fitting Fitting-Tame m len src dst ttl ifindex d v.fitting;
}
call_back-Sound (handed packet_id p hook indev outdev) d v = record {
  healthy = nfqueue_packet_cb-Healthy packet_id p hook indev outdev [] d v.healthy;
  fitting =
      unfold On in nfqueue-Tame Fitting Fitting-Tame packet_id p hook indev outdev d v.fitting;
}
call_back-Sound (reported es) d v = record {
  healthy = llf_print_events-Healthy es d v.healthy;
  fitting = unfold On in llf_print_events-Tame Fitting Fitting-Tame es d v.fitting;
}

-- The clock is no part of it.
at_clock-Sound : (t : Timeval) (j : ℤ) (d : Daemon) → Sound d → Sound (at_clock t j d)
at_clock-Sound t j d v = record { healthy = v.healthy; fitting = v.fitting }

call_backs-Sound : (cs : List Call) (d : Daemon) → Sound d → Sound (call_backs cs d)
unfolding call_backs
call_backs-Sound [] d v = v
call_backs-Sound (c ∷ cs) d v =
    call_backs-Sound cs (call_back c.ready (at_clock c.clock c.jitter d))
      (call_back-Sound c.ready (at_clock c.clock c.jitter d) (at_clock-Sound c.clock c.jitter d v))

-- After any rounds of the select loop, whatever messages, packets and events of wireless devices
-- arrive in them and whatever timers expire: the table is well-formed, the arrays of the rate
-- limits are not overrun, each timer of an entry that is in a list has its entry still in the
-- table, no other timer runs a function that takes an entry, and every packet that waits is for a
-- destination that is sought; if it was so before them.
pub main_loop-Sound : (rs : List Round) (d : Daemon) → Sound d → Sound (main_loop rs d)
unfolding main_loop
main_loop-Sound [] d v = v
main_loop-Sound (r ∷ rs) d v =
    let d1 = (timer_age_queue (at_round r d)).0 in
    main_loop-Sound rs (call_backs r.calls d1) (
      call_backs-Sound r.calls d1
        (timer_age_queue-Sound (at_round r d) (at_clock-Sound r.start r.jitter d v)))
