-- ===== src/Examples/Inputs.antt =====
-- Packets and timers for the daemon of the other examples.
use embedded_systems_wireles.Base.{
  some, ℕ, ◌≡◌, refl, arith, true, false, pos, List, [], ◌∷◌, is_some,
}
use embedded_systems_wireles.Time.{Timeval, zero_time, timeval_diff}
use embedded_systems_wireles.Timer
use embedded_systems_wireles.Timer.{rt_timer, hello_timer, seek_timer, collect, take_expired}
use embedded_systems_wireles.Message.{Msg, rrep, aodv_broadcast}
use embedded_systems_wireles.Daemon.{Daemon}
use embedded_systems_wireles.PacketQueue.{packet_queue_init}
use embedded_systems_wireles.Event.{timer_timeout, run_expired, timer_age_queue}
use embedded_systems_wireles.Event.Loop.{timer_timeout_ends}
use embedded_systems_wireles.Event.Sound.{Sound, Fitting, main_loop-Sound}
use embedded_systems_wireles.Event.Rounds.{
  Round, received, handed, reported, at_round, main_loop, main_loop_wakes,
}
use embedded_systems_wireles.PacketInput.{nfqueue_packet_cb}
use embedded_systems_wireles.Llf.{tx_drop, other_event}
use embedded_systems_wireles.Event.Packets.{Healthy, nfqueue_packet_cb-Healthy}
use embedded_systems_wireles.Examples.Daemons.{fresh, noon, near, near-Healthy, fresh-Healthy}

-- From address 1 to address 9, without payload, TCP.
abbrev pub to_9 : List ℕ
to_9 = 69 ∷ 0 ∷ 0 ∷ 20 ∷ 0 ∷ 1 ∷ 0 ∷ 0 ∷ 64 ∷ 6 ∷ 0 ∷ 0 ∷ 1 ∷ 0 ∷ 0 ∷ 0 ∷ 9 ∷ 0 ∷ 0 ∷ 0 ∷ []

nfqueue_packet_cb-Healthy_example : Healthy (7 ∷ []) (nfqueue_packet_cb 5 to_9 3 0 3 near)
nfqueue_packet_cb-Healthy_example =
    nfqueue_packet_cb-Healthy 5 to_9 3 0 3 (7 ∷ []) near near-Healthy

-- Two timers that are due, and one that is not.
abbrev late : Daemon
late = record fresh {
  timers = record {
    cell = λ t. record {
      used = true;
      timeout = elim t as (λ x. Timeval) [
        | seek_timer a ↦ record { sec = 50000; usec = 0 }
        | _ ↦ zero_time
      ];
      handler = Timer.hello_timeout;
    };
    tq = rt_timer 7 ∷ hello_timer 9 ∷ seek_timer 4 ∷ [];
    exp = [];
  };
}

timer_timeout_ends_example :
    ((timer_timeout late).timers.exp ≡ [])
    × (run_expired 3 (record late { timers = collect late.now late.timers }) ≡ timer_timeout late)
unfolding collect take_expired timeval_diff
timer_timeout_ends_example = timer_timeout_ends 3 late (omega arith)

abbrev hello : Msg
hello = rrep (record {
  r = false;
  a = false;
  prefix = 0;
  hcnt = 0;
  dest_addr = 7;
  dest_seqno = 3;
  orig_addr = 7;
  lifetime = 2000;
  exts = [];
})

abbrev quiet : Round
quiet = record { start = noon; jitter = pos 0; calls = [] }

abbrev rounds : List Round
rounds =
    record {
      start = noon;
      jitter = pos 0;
      calls =
          record { clock = noon; jitter = pos 0; ready = received hello 20 7 aodv_broadcast 1 3 }
          ∷ [];
    }
    ∷ record {
      start = record { sec = 50001; usec = 0 };
      jitter = pos 3;
      calls =
          record {
            clock = record { sec = 50001; usec = 900 };
            jitter = pos 5;
            ready = handed 5 to_9 3 0 3;
          }
          ∷ record {
            clock = record { sec = 50001; usec = 950 };
            jitter = pos 5;
            ready = reported (other_event ∷ tx_drop (some 7) ∷ []);
          }
          ∷ [];
    }
    ∷ []

main_loop_wakes_example :
    is_some (timer_age_queue (at_round quiet (main_loop rounds (packet_queue_init fresh)))).1 ≡ true
main_loop_wakes_example = main_loop_wakes rounds quiet fresh refl

fresh-Sound : Sound fresh
fresh-Sound = record { healthy = fresh-Healthy; fitting = unfold Fitting in λ t. refl }

main_loop-Sound_example : Sound (main_loop rounds fresh)
main_loop-Sound_example = main_loop-Sound rounds fresh fresh-Sound
