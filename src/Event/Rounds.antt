-- ===== src/Event/Rounds.antt =====
-- The select loop of main: whatever comes, it has a time to wait for.
use embedded_systems_wireles.Base.{ℕ, ℤ, Option, none, some, ◌≡◌, true, List, [], ◌∷◌, is_some}
use embedded_systems_wireles.Time.{Timeval}
use embedded_systems_wireles.Timer.{Timers}
use embedded_systems_wireles.Message.{Msg, rreq, rrep, rerr, rrep_ack, empty}
use embedded_systems_wireles.Daemon.{Daemon, max_nr_interfaces}
use embedded_systems_wireles.Hello.{neighbor_add}
use embedded_systems_wireles.PacketQueue.{packet_queue_init}
use embedded_systems_wireles.PacketInput.{nfqueue_packet_cb}
use embedded_systems_wireles.Event.{
  as_hello, hello_or, handle, own_address, aodv_socket_process_packet, aodv_socket_read,
  timer_age_queue,
}
use embedded_systems_wireles.Table.{Rt, rt_table_find}
use embedded_systems_wireles.Neighbor.{neighbor_link_break}
use embedded_systems_wireles.Llf.{IwEvent, tx_drop, other_event, llf_print_event, llf_print_events}
use embedded_systems_wireles.Tame.Routes.{link_break-Tame}
use embedded_systems_wireles.Event.Alive.{
  Waiting, Waiting-Tame, timer_age_queue-Waiting, packet_queue_init-Waiting,
}
use embedded_systems_wireles.Tame.{Tame, On}
use embedded_systems_wireles.Tame.Sends.{if-Tame}
use embedded_systems_wireles.Tame.Hellos.{neighbor_add-Tame, hello_process-Tame}
use embedded_systems_wireles.Tame.Requests.{rreq_process-Tame}
use embedded_systems_wireles.Tame.Replies.{rrep_process-Tame, rrep_ack_process-Tame}
use embedded_systems_wireles.Tame.Errors.{rerr_process-Tame}
use embedded_systems_wireles.Tame.Inputs.{nfqueue-Tame}

module _ (P : Timers → Type 0) (K : Tame P) where
  handle-Tame :
      (m : Msg) (len src ttl ifindex : ℕ) (d : Daemon)
      → On P d
      → On P (handle m len src ttl ifindex d)
  unfolding handle
  handle-Tame (rreq m) len src ttl ifindex d v = rreq_process-Tame P K m len src ttl ifindex d v
  handle-Tame (rrep m) len src ttl ifindex d v = rrep_process-Tame P K m len src ttl ifindex d v
  handle-Tame (rerr m) len src ttl ifindex d v = rerr_process-Tame P K m len src d v
  handle-Tame rrep_ack len src ttl ifindex d v = rrep_ack_process-Tame P K src d v
  handle-Tame empty len src ttl ifindex d v = v

  hello_or-Tame :
      (m : Msg) (len ifindex : ℕ) (d : Daemon) → On P d → On P (hello_or m len ifindex d d)
  unfolding hello_or
  hello_or-Tame (rrep m) len ifindex d v = hello_process-Tame P K m len ifindex d v
  hello_or-Tame (rreq m) len ifindex d v = v
  hello_or-Tame (rerr m) len ifindex d v = v
  hello_or-Tame rrep_ack len ifindex d v = v
  hello_or-Tame empty len ifindex d v = v

  pub aodv_socket_read-Tame :
      (m : Msg) (len src dst ttl ifindex : ℕ) (d : Daemon)
      → On P d
      → On P (aodv_socket_read m len src dst ttl ifindex d)
  unfolding aodv_socket_read aodv_socket_process_packet
  aodv_socket_read-Tame m len src dst ttl ifindex d v =
      if-Tame P (own_address max_nr_interfaces 0 src d) _ _ v (
        if-Tame P (as_hello m dst ttl) _ _ (hello_or-Tame m len ifindex d v) (
          handle-Tame m len src ttl ifindex (neighbor_add src ifindex d)
            (neighbor_add-Tame P K src ifindex d v)))

module _ (P : Timers → Type 0) (K : Tame P) where
  print_event-Tame : (e : IwEvent) (d : Daemon) → On P d → On P (llf_print_event e d)
  unfolding llf_print_event
  print_event-Tame (tx_drop none) d v = v
  print_event-Tame (tx_drop (some ip)) d v = broken (rt_table_find ip d.table)
    where
      broken :
          (o : Option Rt) → On P (elim o [ none ↦ d | some r ↦ neighbor_link_break r.dest_addr d ])
      broken none = v
      broken (some r) = link_break-Tame P K r.dest_addr d v
  print_event-Tame other_event d v = v

  pub llf_print_events-Tame :
      (es : List IwEvent) (d : Daemon) → On P d → On P (llf_print_events es d)
  unfolding llf_print_events
  llf_print_events-Tame [] d v = v
  llf_print_events-Tame (e ∷ es) d v =
      llf_print_events-Tame es (llf_print_event e d) (print_event-Tame e d v)

-- What a call-back is called for: a message on a device's socket, a packet of NFQUEUE, or the events of a
-- wireless device.
pub data Ready : Type 0 where
  received : Msg → ℕ → ℕ → ℕ → ℕ → ℕ → Ready
  handed : ℕ → List ℕ → ℕ → ℕ → ℕ → Ready
  reported : List IwEvent → Ready

unfoldable pub call_back : Ready → Daemon → Daemon
unfolding aodv_socket_read nfqueue_packet_cb llf_print_events
call_back (received m len src dst ttl ifindex) d = aodv_socket_read m len src dst ttl ifindex d
call_back (handed packet_id p hook indev outdev) d =
    nfqueue_packet_cb packet_id p hook indev outdev d
call_back (reported es) d = llf_print_events es d

-- The clock and the jitter of an event.
abbrev pub at_clock : Timeval → ℤ → Daemon → Daemon
at_clock t j d = record d { now = t; draw = j }

-- Each call-back reads the clock anew.
pub record Call : Type 0 where
  pub clock : Timeval
  pub jitter : ℤ
  pub ready : Ready

unfoldable pub call_backs : List Call → Daemon → Daemon
unfolding call_back
call_backs [] d = d
call_backs (c ∷ cs) d = call_backs cs (call_back c.ready (at_clock c.clock c.jitter d))

-- A round of the loop: the clock and the jitter when it begins, and what pselect finds ready, which is
-- nothing when it fails.
pub record Round : Type 0 where
  pub start : Timeval
  pub jitter : ℤ
  pub calls : List Call

abbrev pub at_round : Round → Daemon → Daemon
at_round r d = at_clock r.start r.jitter d

-- `while (1)` in main, for the rounds of a list.
unfoldable pub main_loop : List Round → Daemon → Daemon
unfolding call_backs timer_age_queue
main_loop [] d = d
main_loop (r ∷ rs) d = main_loop rs (call_backs r.calls (timer_age_queue (at_round r d)).0)

call_back-Tame : (r : Ready) (d : Daemon) → On Waiting d → On Waiting (call_back r d)
unfolding call_back
call_back-Tame (received m len src dst ttl ifindex) d v =
    aodv_socket_read-Tame Waiting Waiting-Tame m len src dst ttl ifindex d v
call_back-Tame (handed packet_id p hook indev outdev) d v =
    nfqueue-Tame Waiting Waiting-Tame packet_id p hook indev outdev d v
call_back-Tame (reported es) d v = llf_print_events-Tame Waiting Waiting-Tame es d v

call_backs-Tame : (cs : List Call) (d : Daemon) → On Waiting d → On Waiting (call_backs cs d)
unfolding call_backs
call_backs-Tame [] d v = v
call_backs-Tame (c ∷ cs) d v =
    call_backs-Tame cs (call_back c.ready (at_clock c.clock c.jitter d))
      (call_back-Tame c.ready (at_clock c.clock c.jitter d) (unfold On in v))

main_loop-Waiting : (rs : List Round) (d : Daemon) → On Waiting d → On Waiting (main_loop rs d)
unfolding main_loop
main_loop-Waiting [] d v = v
main_loop-Waiting (r ∷ rs) d v =
    let (d1, wait) = timer_age_queue (at_round r d) in
    let w = timer_age_queue-Waiting (at_round r d) (unfold On in v) in
    main_loop-Waiting rs (call_backs r.calls (timer_age_queue (at_round r d)).0)
      (call_backs-Tame r.calls (timer_age_queue (at_round r d)).0 (unfold On in w.0))

-- Once packet_queue_init has set the packet queue's timer, with no expired timer left over: after
-- any rounds of the select loop, whatever messages, packets and events of wireless devices arrive
-- in them and whenever, timer_age_queue gives the next round a time to wait, never NULL, which the
-- loop would read through.
pub main_loop_wakes :
    (rs : List Round) (r : Round) (d : Daemon)
    → d.timers.exp ≡ []
    → is_some (timer_age_queue (at_round r (main_loop rs (packet_queue_init d)))).1 ≡ true
main_loop_wakes rs r d e =
    let w =
      main_loop-Waiting rs (packet_queue_init d) (unfold On in packet_queue_init-Waiting d e) in
    (timer_age_queue-Waiting (at_round r (main_loop rs (packet_queue_init d))) (unfold On in w)).1
