-- ===== src/Event/Alive.antt =====
-- The packet queue's timer keeps the select loop supplied with a timeout.
use embedded_systems_wireles.Base.{
  ℕ, zero, suc, ◌≡◌, ◌≢◌, ◌∙◌, ap, refl, true, false, ◌||◌, List, [], ◌∷◌, ◌++◌, arith, length,
  is_some,
}
use embedded_systems_wireles.Time.{Timeval}
use embedded_systems_wireles.Timer
use embedded_systems_wireles.Timer.{
  TimerId, TimerId_discrete, Handler, Timers, garbage_collect_timer, worb_timer, set_cell, elem,
  detach, attached, timer_init, timer_remove, timer_set_timeout, collect, take_expired,
  drop_expired, pop_expired,
}
use embedded_systems_wireles.Timer.Order.{elem-detach}
use embedded_systems_wireles.Timer.Expiry.{timer_set_timeout_arms, take-append-drop_expired}
use embedded_systems_wireles.Daemon.{Daemon}
use embedded_systems_wireles.PacketQueue.{
  packet_queue_init, packet_queue_timeout, packet_queue_garbage_collect,
}
use embedded_systems_wireles.Event.{
  run_handler, run_first, run_expired, timer_timeout, first_remaining, age, timer_age_queue,
}
use embedded_systems_wireles.Event.Loop.{
  Few, Few-Tame, timeout-Few, no_timer, run_handler-Tame, timer_timeout_ends,
}
use embedded_systems_wireles.Tame.{Tame, On, ordinary, may_install-ordinary}
use embedded_systems_wireles.Tame.Timeouts.{garbage_collect-Tame}

-- The function of the timer is packet_queue_timeout, which sets the timer again.
Installed : Timers → Type 0
Installed ts = (ts.cell garbage_collect_timer).handler ≡ Timer.packet_queue_timeout

-- It is in a list, to run or waiting to.
Armed : Timers → Type 0
Armed ts = (attached garbage_collect_timer ts ≡ true) × Installed ts

ordinary_ne : (t : TimerId) → ordinary t ≡ true → garbage_collect_timer ≢ t
ordinary_ne t o e = ground arith

Installed-Tame : Tame Installed
unfolding Installed timer_init timer_remove set_cell
Installed-Tame = record {
  init = λ t f ts o v. ground (arith, ordinary_ne t (may_install-ordinary t f o));
  timeout = λ t now msec ts o v.
      let arms = timer_set_timeout_arms t garbage_collect_timer now msec ts (ordinary_ne t o) in
      ap (λ c. c.handler) arms.4 ∙ v;
  remove = λ t ts o v. ground (arith, ordinary_ne t o);
  handler = λ t f ts o v. ground (arith, ordinary_ne t (may_install-ordinary t f o));
}

Armed-Tame : Tame Armed
unfolding Armed
Armed-Tame = record {
  init = λ t f ts o v. (unfold timer_init attached in v.0, Installed-Tame.init t f ts o v.1);
  timeout = λ t now msec ts o v.
      let arms = timer_set_timeout_arms t garbage_collect_timer now msec ts (ordinary_ne t o) in
      (arms.5 ∙ v.0, Installed-Tame.timeout t now msec ts o v.1);
  remove = λ t ts o v. (
    unfold attached in
        unfold timer_remove in
        ground (
          arith,
          ordinary_ne t o,
          elem-detach garbage_collect_timer t ts.tq,
          elem-detach garbage_collect_timer t ts.exp,
          v.0,
        ),
    Installed-Tame.remove t ts o v.1,
  );
  handler = λ t f ts o v. (unfold attached in v.0, Installed-Tame.handler t f ts o v.1);
}

rearm-Armed :
    (now : Timeval) (msec : ℕ) (ts : Timers)
    → Installed ts
    → Armed (timer_set_timeout garbage_collect_timer now msec ts)
unfolding Armed Installed attached
rearm-Armed now msec ts v =
    let arms =
      timer_set_timeout_arms garbage_collect_timer worb_timer now msec ts (λ e. ground arith) in
    (ground (arith, arms.0), arms.3 ∙ v)

pop-Installed :
    (t : TimerId) (xs : List TimerId) (ts : Timers) → Installed ts → Installed (pop_expired t xs ts)
unfolding Installed pop_expired set_cell
pop-Installed t xs ts v = ground arith

pop-attached :
    (t : TimerId) (xs : List TimerId) (ts : Timers)
    → ts.exp ≡ t ∷ xs
    → t ≢ garbage_collect_timer
    → attached garbage_collect_timer ts ≡ true
    → attached garbage_collect_timer (pop_expired t xs ts) ≡ true
unfolding pop_expired attached elem
pop-attached t xs ts e ne v = ground arith

-- A round either runs another timer, which leaves this one, or this one, which sets itself again.
run_first-Armed :
    (xs : List TimerId) (d : Daemon) → d.timers.exp ≡ xs → On Armed d → On Armed (run_first xs d)
unfolding On Armed Installed run_first
run_first-Armed [] d e v = v
run_first-Armed (t ∷ xs) d e v =
    let d1 = record d { timers = pop_expired t xs d.timers } in
    let i = pop-Installed t xs d.timers v.1 in
    elim (TimerId_discrete t garbage_collect_timer) [
      | yes q ↦
          let h : (d.timers.cell t).handler ≡ Timer.packet_queue_timeout =
            ap (λ s. (d.timers.cell s).handler) q ∙ v.1 in
          rw h (collect_again t d1 i)
      | no q ↦
          run_handler-Tame Armed Armed-Tame (λ now ts w. rearm-Armed now 1000 ts w.1)
            (d.timers.cell t).handler t d1 (pop-attached t xs d.timers e q v.0, i)
    ]
  where
    collect_again :
        (t : TimerId) (x : Daemon)
        → Installed x.timers
        → On Armed (run_handler Timer.packet_queue_timeout t x)
    collect_again t x w =
        unfold run_handler packet_queue_timeout in
        let y = packet_queue_garbage_collect x in
        rearm-Armed y.now 1000 y.timers (garbage_collect-Tame Installed Installed-Tame x w)

run_expired-Armed : (n : ℕ) (d : Daemon) → On Armed d → On Armed (run_expired n d)
unfolding run_expired
run_expired-Armed zero d v = v
run_expired-Armed (suc n) d v =
    run_expired-Armed n (run_first d.timers.exp d) (run_first-Armed d.timers.exp d refl v)

elem-append : (s : TimerId) (xs ys : List TimerId) → elem s (xs ++ ys) ≡ elem s xs || elem s ys
unfolding elem
elem-append s [] ys = refl
elem-append s (x ∷ xs) ys = ground (arith, elem-append s xs ys)

collect-Armed : (now : Timeval) (ts : Timers) → ts.exp ≡ [] → Armed ts → Armed (collect now ts)
unfolding Armed Installed collect attached elem
collect-Armed now ts e v =
    let parts = take-append-drop_expired ts.cell now ts.tq in
    let whole : elem garbage_collect_timer ts.tq ≡ true = ground (arith, v.0) in
    let split =
      elem-append garbage_collect_timer (take_expired ts.cell now ts.tq)
        (drop_expired ts.cell now ts.tq) in
    (ground (arith, split, ap (λ xs. elem garbage_collect_timer xs) parts, whole), v.1)

-- Between two events: the packet queue's timer is set with its own function, and no timer is left that
-- has expired and is still to run.
pub Waiting : Timers → Type 0
Waiting ts = Armed ts × (ts.exp ≡ [])

none_left : (ts us : Timers) → (Few 0 ts → Few 0 us) → ts.exp ≡ [] → us.exp ≡ []
unfolding Few
none_left ts us step e = no_timer us.exp (step (rw e (omega arith)))

pub Waiting-Tame : Tame Waiting
unfolding Waiting
Waiting-Tame = record {
  init =
      λ t f ts o v. (Armed-Tame.init t f ts o v.0, none_left ts _ ((Few-Tame 0).init t f ts o) v.1);
  timeout = λ t now msec ts o v. (
    Armed-Tame.timeout t now msec ts o v.0,
    none_left ts _ ((Few-Tame 0).timeout t now msec ts o) v.1,
  );
  remove =
      λ t ts o v. (Armed-Tame.remove t ts o v.0, none_left ts _ ((Few-Tame 0).remove t ts o) v.1);
  handler = λ t f ts o v.
      (Armed-Tame.handler t f ts o v.0, none_left ts _ ((Few-Tame 0).handler t f ts o) v.1);
}

-- packet_queue_init sets the timer.
pub packet_queue_init-Waiting :
    (d : Daemon) → d.timers.exp ≡ [] → Waiting (packet_queue_init d).timers
unfolding Waiting packet_queue_init
packet_queue_init-Waiting d e =
    let ts = timer_init garbage_collect_timer Timer.packet_queue_timeout d.timers in
    let i : Installed ts =
      unfold Installed in unfold timer_init in unfold set_cell in ground arith in
    (
      rearm-Armed d.now 1000 ts i,
      none_left ts _ (timeout-Few 0 garbage_collect_timer d.now 1000 ts) (unfold timer_init in e),
    )

timer_timeout-Waiting : (d : Daemon) → Waiting d.timers → Waiting (timer_timeout d).timers
unfolding Waiting
timer_timeout-Waiting d v = (
  unfold On timer_timeout in
      run_expired-Armed (length (collect d.now d.timers).exp)
        (record d { timers = collect d.now d.timers }) (collect-Armed d.now d.timers v.1 v.0),
  (timer_timeout_ends (length (collect d.now d.timers).exp) d (omega arith)).0,
)

is_queued : (ts : Timers) → Waiting ts → elem garbage_collect_timer ts.tq ≡ true
unfolding Waiting Armed attached elem
is_queued ts v =
    let none_left : elem garbage_collect_timer ts.exp ≡ false =
      ap (λ xs. elem garbage_collect_timer xs) v.1 in
    ground (arith, v.0.0, none_left)

some_time :
    (xs : List TimerId) (d : Daemon)
    → elem garbage_collect_timer xs ≡ true
    → is_some (first_remaining xs d) ≡ true
unfolding elem first_remaining
some_time [] d h = ground arith
some_time (x ∷ xs) d h = refl

-- timer_age_queue always gives the select loop a time to wait, never NULL, which the loop would read
-- through: if the packet queue's timer was set, and no expired timer was left over, before. It
-- leaves the timers like that.
pub timer_age_queue-Waiting :
    (d : Daemon)
    → Waiting d.timers
    → Waiting (timer_age_queue d).0.timers × (is_some (timer_age_queue d).1 ≡ true)
unfolding timer_age_queue
timer_age_queue-Waiting d v = aged d.timers.tq (is_queued d.timers v)
  where
    aged :
        (xs : List TimerId)
        → elem garbage_collect_timer xs ≡ true
        → Waiting (age xs d).0.timers × (is_some (age xs d).1 ≡ true)
    aged [] h = unfold elem in ground arith
    aged (x ∷ xs) h =
        let d1 = timer_timeout d in
        let w = timer_timeout-Waiting d v in
        unfold age in (w, some_time d1.timers.tq d1 (is_queued d1.timers w))
