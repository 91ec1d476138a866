-- ===== src/Examples/Timers.antt =====
-- The theorems about src/utils/timer_queue.c at concrete timers.
use embedded_systems_wireles.Base.{◌≡◌, ◌≢◌, ◌+◌, ◌*◌, ◌<◌, ◌++◌, All, refl, true, false, [], ◌∷◌}
use embedded_systems_wireles.Time.{Timeval, zero_time, usecs, timeval_diff}
use embedded_systems_wireles.Timer
use embedded_systems_wireles.Timer.{
  TimerId, rt_timer, hello_timer, hello_beacon, Timers, Handler, elem, attached, timer_init,
  timer_set_timeout, timer_remove, collect,
}
use embedded_systems_wireles.Timer.Order.{due}
use embedded_systems_wireles.Timer.Invariant.{TimersOk, timer_set_timeout-TimersOk}
use embedded_systems_wireles.Timer.Expiry.{collect_splits, timer_set_timeout_arms}

abbrev t0 : Timeval
t0 = record { sec = 100; usec = 900000 }

abbrev t2 : Timeval
t2 = record { sec = 102; usec = 100 }

abbrev no_timers : Timers
no_timers = record {
  cell = λ t. record { used = false; timeout = zero_time; handler = Timer.route_expire_timeout };
  tq = [];
  exp = [];
}

no_timers-TimersOk : TimersOk no_timers
unfolding attached elem
no_timers-TimersOk = record {
  sorted = tt;
  marked = λ t. refl;
  apart = λ t h. refl;
  once = (tt, tt);
}

-- The beacon in one second, then the route to 7 in three.
abbrev beacon : Timers
beacon = timer_set_timeout hello_beacon t0 1000 no_timers

abbrev two_timers : Timers
two_timers = timer_set_timeout (rt_timer 7) t0 3000 beacon

beacon-TimersOk : TimersOk beacon
beacon-TimersOk = timer_set_timeout-TimersOk hello_beacon t0 1000 no_timers no_timers-TimersOk

two_timers-TimersOk : TimersOk two_timers
two_timers-TimersOk = timer_set_timeout-TimersOk (rt_timer 7) t0 3000 beacon beacon-TimersOk

-- After two seconds the beacon has expired.
two_timers_after : (collect t2 two_timers).exp ≡ hello_beacon ∷ []
unfolding collect timer_set_timeout Timer.take_expired Timer.timer_add Timer.insert Timer.vacate
    Timer.set_cell Timer.TimerId_discrete timeval_diff Timer.after_msec
two_timers_after = refl

beacon_apart : hello_beacon ≢ rt_timer 7
beacon_apart e = cc

timer_set_timeout_arms_example :
    (elem (rt_timer 7) two_timers.tq ≡ true)
    × ((two_timers.cell (rt_timer 7)).used ≡ true)
    × (due two_timers.cell (rt_timer 7) ≡ usecs t0 + 3000 * 1000)
    × ((two_timers.cell (rt_timer 7)).handler ≡ (beacon.cell (rt_timer 7)).handler)
    × (two_timers.cell hello_beacon ≡ beacon.cell hello_beacon)
    × (attached hello_beacon two_timers ≡ attached hello_beacon beacon)
timer_set_timeout_arms_example =
    timer_set_timeout_arms (rt_timer 7) hello_beacon t0 3000 beacon beacon_apart

timer_set_timeout-TimersOk_example : TimersOk two_timers
timer_set_timeout-TimersOk_example =
    timer_set_timeout-TimersOk (rt_timer 7) t0 3000 beacon beacon-TimersOk

collect_splits_example :
    ((collect t2 two_timers).exp ++ (collect t2 two_timers).tq ≡ two_timers.tq)
    × All (λ t. due two_timers.cell t < usecs t2 + 1000) (collect t2 two_timers).exp
    × All (λ t. usecs t2 < due two_timers.cell t) (collect t2 two_timers).tq
collect_splits_example = collect_splits t2 two_timers two_timers-TimersOk
