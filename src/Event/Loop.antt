-- ===== src/Event/Loop.antt =====
-- The loop over expired timers: it comes to an end, and leaves the daemon with a timer to wait for.

use embedded_systems_wireles.Base.{
  ℕ, zero, suc, ◌≤◌, ◌≡◌, ◌∙◌, ap, refl, List, [], ◌∷◌, arith, length,
}
use embedded_systems_wireles.Time.{Timeval}
use embedded_systems_wireles.Timer
use embedded_systems_wireles.Timer.{
  TimerId, TimerId_discrete, Handler, Timers, garbage_collect_timer, worb_timer, set_cell, elem,
  detach, attached, timer_init, timer_remove, timer_set_timeout, after_msec, vacate, set_time,
  timer_add, link, owner, collect, take_expired, drop_expired, pop_expired,
}
use embedded_systems_wireles.Daemon.{Daemon}
use embedded_systems_wireles.PacketQueue.{packet_queue_timeout, packet_queue_garbage_collect}
use embedded_systems_wireles.Rreq.{rreq_record_timeout}
use embedded_systems_wireles.Timeout.{
  rreq_blacklist_timeout, route_delete_timeout, wait_on_reboot_timeout,
}
use embedded_systems_wireles.Event.{run_handler, run_first, run_expired, timer_timeout}
use embedded_systems_wireles.Tame.{Tame, On}
use embedded_systems_wireles.Tame.Hellos.{hello_send-Tame}
use embedded_systems_wireles.Tame.Timeouts.{
  route_expire-Tame, delete-Tame, local_repair-Tame, ack_timeout-Tame, hello_timeout-Tame,
  route_discovery-Tame, garbage_collect-Tame,
}

-- A property that the operations on ordinary timers keep, and that of the queue's own timer too, is
-- kept by every handler.
pub run_handler-Tame :
    (P : Timers → Type 0)
    → Tame P
    → ((now : Timeval) (ts : Timers)
        → P ts
        → P (timer_set_timeout garbage_collect_timer now 1000 ts))
    → (f : Handler) (t : TimerId) (d : Daemon) → On P d
    → On P (run_handler f t d)
unfolding On run_handler packet_queue_timeout route_delete_timeout rreq_record_timeout
    rreq_blacklist_timeout wait_on_reboot_timeout
run_handler-Tame P K C Timer.route_expire_timeout t d v = route_expire-Tame P K (owner t) d v
run_handler-Tame P K C Timer.route_delete_timeout t d v = delete-Tame P K (owner t) d v
run_handler-Tame P K C Timer.local_repair_timeout t d v = local_repair-Tame P K (owner t) d v
run_handler-Tame P K C Timer.rrep_ack_timeout t d v = ack_timeout-Tame P K (owner t) d v
run_handler-Tame P K C Timer.hello_timeout t d v = hello_timeout-Tame P K (owner t) d v
run_handler-Tame P K C Timer.route_discovery_timeout t d v = route_discovery-Tame P K (owner t) d v
run_handler-Tame P K C Timer.rreq_record_timeout t d v = v
run_handler-Tame P K C Timer.rreq_blacklist_timeout t d v = v
run_handler-Tame P K C Timer.hello_send t d v = hello_send-Tame P K d v
run_handler-Tame P K C Timer.packet_queue_timeout t d v =
    let d1 = packet_queue_garbage_collect d in C d1.now d1.timers (garbage_collect-Tame P K d v)
run_handler-Tame P K C Timer.wait_on_reboot_timeout t d v = v

-- At most `n` timers have expired and are still to run.
unfoldable pub Few : ℕ → Timers → Type 0
Few n ts = length ts.exp ≤ n

length-detach : (t : TimerId) (xs : List TimerId) → length (detach t xs) ≤ length xs
unfolding detach
length-detach t [] = omega arith
length-detach t (x ∷ xs) = ground (arith, length-detach t xs)

pub remove-Few : (n : ℕ) (t : TimerId) (ts : Timers) → Few n ts → Few n (timer_remove t ts).0
unfolding Few timer_remove
remove-Few n t ts v = omega (arith, length-detach t ts.exp)

vacate-Few : (n : ℕ) (t : TimerId) (ts : Timers) → Few n ts → Few n (vacate t ts)
unfolding vacate
vacate-Few n t ts v = ground (arith, remove-Few n t ts v)

pub timeout-Few :
    (n : ℕ) (t : TimerId) (now : Timeval) (msec : ℕ) (ts : Timers)
    → Few n ts
    → Few n (timer_set_timeout t now msec ts)
unfolding Few timer_set_timeout timer_add
timeout-Few n t now msec ts v =
    vacate-Few n t (set_time t (after_msec now msec) (vacate t ts)) (vacate-Few n t ts v)

pub Few-Tame : (n : ℕ) → Tame (Few n)
unfolding Few timer_init
Few-Tame n = record {
  init = λ t f ts o v. v;
  timeout = λ t now msec ts o v. timeout-Few n t now msec ts v;
  remove = λ t ts o v. remove-Few n t ts v;
  handler = λ t f ts o v. v;
}

run_first-Few :
    (n : ℕ) (xs : List TimerId) (d : Daemon)
    → d.timers.exp ≡ xs
    → length xs ≤ suc n
    → length (run_first xs d).timers.exp ≤ n
unfolding run_first
run_first-Few n [] d e h = rw e (omega arith)
run_first-Few n (t ∷ xs) d e h =
    let d1 = record d { timers = pop_expired t xs d.timers } in
    unfold On Few pop_expired in
    run_handler-Tame (Few n) (Few-Tame n)
      (λ now ts v. timeout-Few n garbage_collect_timer now 1000 ts v) (d.timers.cell t).handler t d1
      (omega arith)

run_first_none : (xs : List TimerId) (d : Daemon) → xs ≡ [] → run_first xs d ≡ d
unfolding run_first
run_first_none [] d e = refl
run_first_none (x ∷ xs) d e = ground arith

run_expired_idle : (r : ℕ) (d : Daemon) → d.timers.exp ≡ [] → run_expired r d ≡ d
unfolding run_expired
run_expired_idle zero d e = refl
run_expired_idle (suc r) d e =
    ap (λ x. run_expired r x) (run_first_none d.timers.exp d e) ∙ run_expired_idle r d e

pub no_timer : (xs : List TimerId) → length xs ≤ 0 → xs ≡ []
no_timer [] h = refl
no_timer (x ∷ xs) h = absurd (omega arith)

-- As many rounds as timers have expired work all of them off, and more rounds do nothing.
run_expired_ends :
    (n r : ℕ) (d : Daemon)
    → length d.timers.exp ≤ n
    → n ≤ r
    → ((run_expired n d).timers.exp ≡ []) × (run_expired r d ≡ run_expired n d)
unfolding run_expired
run_expired_ends zero r d h l = let e = no_timer d.timers.exp h in (e, run_expired_idle r d e)
run_expired_ends (suc n) zero d h l = absurd (omega arith)
run_expired_ends (suc n) (suc r) d h l =
    run_expired_ends n r (run_first d.timers.exp d) (run_first-Few n d.timers.exp d refl h)
      (omega arith)

-- timer_timeout works off every timer that has expired, whatever the handlers do, so that expTQ is empty
-- afterwards; more rounds of its loop than timers expired would do nothing.
pub timer_timeout_ends :
    (r : ℕ) (d : Daemon)
    → length (collect d.now d.timers).exp ≤ r
    → ((timer_timeout d).timers.exp ≡ [])
      × (run_expired r (record d { timers = collect d.now d.timers }) ≡ timer_timeout d)
unfolding timer_timeout
timer_timeout_ends r d h =
    let d1 = record d { timers = collect d.now d.timers } in
    run_expired_ends (length d1.timers.exp) r d1 (omega arith) h
