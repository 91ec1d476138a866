-- ===== src/Event.antt =====
-- The events of the daemon: a packet that aodv_socket_process_packet and aodv_socket_read of
-- src/network/aodv_socket.c dispatch, and the timers that timer_timeout and timer_age_queue of
-- src/utils/timer_queue.c run.
pub mod Handlers
pub mod Loop
pub mod Alive
pub mod Rounds
pub mod Sound
pub mod Packets
use embedded_systems_wireles.Base.{
  ℕ, zero, suc, ◌+◌, ◌-◌, Bool, true, false, ◌&&◌, Option, none, some, List, [], ◌∷◌, length, ltb,
  leb, ◌==◌, if◌then◌else◌,
}
use embedded_systems_wireles.Time.{Timeval}
use embedded_systems_wireles.Timer.{
  TimerId, Handler, rt_timer, ack_timer, hello_timer, seek_timer, bl_timer, rec_timer, hello_beacon,
  garbage_collect_timer, worb_timer, collect, pop_expired, owner,
}
use embedded_systems_wireles.Timer
use embedded_systems_wireles.Message.{Msg, rreq, rrep, rerr, rrep_ack, empty, aodv_broadcast}
use embedded_systems_wireles.Daemon.{Daemon, max_nr_interfaces}
use embedded_systems_wireles.PacketQueue.{packet_queue_timeout}
use embedded_systems_wireles.Rerr.{rerr_process}
use embedded_systems_wireles.Timeout.{
  route_discovery_timeout, local_repair_timeout, route_expire_timeout, route_delete_timeout,
  hello_timeout, rrep_ack_timeout, rreq_blacklist_timeout, wait_on_reboot_timeout,
}
use embedded_systems_wireles.Hello.{hello_process, hello_send, neighbor_add}
use embedded_systems_wireles.Rreq.{rreq_process, rreq_record_timeout}
use embedded_systems_wireles.Rrep.{rrep_process, rrep_ack_process}

abbrev pub record_id : TimerId → ℕ
record_id (rec_timer a i) = i
record_id _ = 0

-- t->handler(t->data).
unfoldable pub run_handler : Handler → TimerId → Daemon → Daemon
run_handler Timer.route_expire_timeout t d = route_expire_timeout (owner t) d
run_handler Timer.route_delete_timeout t d = route_delete_timeout (owner t) d
run_handler Timer.local_repair_timeout t d = local_repair_timeout (owner t) d
run_handler Timer.rrep_ack_timeout t d = rrep_ack_timeout (owner t) d
run_handler Timer.hello_timeout t d = hello_timeout (owner t) d
run_handler Timer.route_discovery_timeout t d = route_discovery_timeout (owner t) d
run_handler Timer.rreq_record_timeout t d = rreq_record_timeout (owner t) (record_id t) d
run_handler Timer.rreq_blacklist_timeout t d = rreq_blacklist_timeout (owner t) d
run_handler Timer.hello_send t d = hello_send d
run_handler Timer.packet_queue_timeout t d = packet_queue_timeout d
run_handler Timer.wait_on_reboot_timeout t d = wait_on_reboot_timeout d

-- One round of the loop `while (!list_empty(&expTQ))`: a handler may take others off the list.
unfoldable pub run_first : List TimerId → Daemon → Daemon
unfolding run_handler
run_first [] d = d
run_first (t ∷ rest) d =
    run_handler (d.timers.cell t).handler t (record d { timers = pop_expired t rest d.timers })

-- At most as many rounds as timers expired.
unfoldable pub run_expired : ℕ → Daemon → Daemon
unfolding run_first
run_expired zero d = d
run_expired (suc n) d = run_expired n (run_first d.timers.exp d)

unfoldable pub timer_timeout : Daemon → Daemon
unfolding run_expired
timer_timeout d =
    let d1 = record d { timers = collect d.now d.timers } in run_expired (length d1.timers.exp) d1

-- The time until the first timer of the queue, with the borrow of a second.
abbrev pub remaining : Timeval → Timeval → Timeval
remaining timeout now =
    if ltb timeout.usec now.usec
    then record { sec = timeout.sec - now.sec - 1; usec = timeout.usec + 1000000 - now.usec }
    else record { sec = timeout.sec - now.sec; usec = timeout.usec - now.usec }

unfoldable pub first_remaining : List TimerId → Daemon → Option Timeval
first_remaining [] d = none
first_remaining (t ∷ ts) d = some (remaining (d.timers.cell t).timeout d.now)

unfoldable pub age : List TimerId → Daemon → Daemon × Option Timeval
unfolding first_remaining
age [] d = (d, none)
age (t ∷ ts) d = let d' = timer_timeout d in (d', first_remaining d'.timers.tq d')

unfoldable pub timer_age_queue : Daemon → Daemon × Option Timeval
unfolding age
timer_age_queue d = age d.timers.tq d

-- The messages that are no HELLO: the sender counts as a neighbour first.
unfoldable pub handle : Msg → ℕ → ℕ → ℕ → ℕ → Daemon → Daemon
handle (rreq m) len src ttl ifindex d = rreq_process m len src ttl ifindex d
handle (rrep m) len src ttl ifindex d = rrep_process m len src ttl ifindex d
handle (rerr m) len src ttl ifindex d = rerr_process m len src d
handle rrep_ack len src ttl ifindex d = rrep_ack_process src d
handle empty len src ttl ifindex d = d

abbrev pub as_hello : Msg → ℕ → ℕ → Bool
as_hello (rrep m) dst ttl = (ttl == 1) && (dst == aodv_broadcast)
as_hello _ dst ttl = false

unfoldable pub hello_or : Msg → ℕ → ℕ → Daemon → Daemon → Daemon
hello_or (rrep m) len ifindex d other = hello_process m len ifindex d
hello_or _ len ifindex d other = other

unfoldable pub aodv_socket_process_packet : Msg → ℕ → ℕ → ℕ → ℕ → ℕ → Daemon → Daemon
unfolding handle hello_or
aodv_socket_process_packet msg len src dst ttl ifindex d =
    if as_hello msg dst ttl
    then hello_or msg len ifindex d d
    else handle msg len src ttl ifindex (neighbor_add src ifindex d)

-- Whether an address is that of one of our enabled devices; `n` are left, from `i` on.
unfoldable pub own_address : ℕ → ℕ → ℕ → Daemon → Bool
own_address zero i addr d = false
own_address (suc n) i addr d =
    let rest = own_address n (i + 1) addr d in
    if (d.host.devs i).enabled && (addr == (d.host.devs i).ipaddr) then true else rest

-- A received packet with the TTL and the destination of its control messages, on a device's socket.
unfoldable pub aodv_socket_read : Msg → ℕ → ℕ → ℕ → ℕ → ℕ → Daemon → Daemon
unfolding own_address
aodv_socket_read msg len src dst ttl ifindex d =
    if own_address max_nr_interfaces 0 src d
    then d
    else aodv_socket_process_packet msg len src dst ttl ifindex d
