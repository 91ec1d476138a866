-- ===== src/Socket.antt =====
-- src/network/aodv_socket.c: sending with its rate limits. All messages are built in the one send
-- buffer, and what is sent is what stands there. setsockopt and sendto are taken to succeed.
pub mod RateLimit
pub mod Frame
use embedded_systems_wireles.Base.{
  ℕ, zero, suc, ◌+◌, ◌-◌, Bool, true, false, ◌&&◌, List, [], ◌∷◌, ◌++◌, length, ltb_ℤ, pos, ◌==◌,
  if◌then◌else◌,
}
use embedded_systems_wireles.Time.{Timeval, zero_time, timeval_diff}
use embedded_systems_wireles.Message.{
  Msg, rreq, rrep, rerr, rrep_ack, empty, rate_limit, aodv_broadcast,
}
use embedded_systems_wireles.Daemon.{Daemon, Output, sent, emit, max_nr_interfaces}

abbrev pub is_rrep : Msg → Bool
is_rrep (rrep m) = true
is_rrep _ = false

abbrev pub aodv_socket_new_msg : Msg → Daemon → Daemon
aodv_socket_new_msg m d = record d { send_buf = m }

abbrev pub oldest : List Timeval → Timeval
oldest [] = zero_time
oldest (t ∷ ts) = t

abbrev pub behind : List Timeval → List Timeval
behind [] = []
behind (t ∷ ts) = ts

-- Whether a message may go, by the times of the last ones; the array holds RATELIMIT - 1 of them, and
-- the counter is the length of the list.
unfoldable pub may_send : Timeval → List Timeval → Bool
may_send now ratel =
    if length ratel == rate_limit - 1
    then (if ltb_ℤ (timeval_diff now (oldest ratel)) (pos 1000) then false else true)
    else true

-- The array after a message went.
unfoldable pub note_sent : Timeval → List Timeval → List Timeval
note_sent now ratel = (if length ratel == rate_limit - 1 then behind ratel else ratel) ++ now ∷ []

-- The part of aodv_socket_send behind the rate limits.
unfoldable pub transmit : ℕ → ℕ → ℕ → ℕ → Daemon → Daemon
transmit dst len ttl dev d = emit (sent d.send_buf dst len ttl dev) (
    if dst == aodv_broadcast then record d { host = record (d.host) { bcast_time = d.now } } else d)

unfoldable pub limited : Msg → ℕ → ℕ → ℕ → ℕ → Daemon → Daemon
unfolding transmit may_send note_sent
limited (rreq m) dst len ttl dev d =
    if may_send d.now d.rreq_ratel
    then transmit dst len ttl dev (record d { rreq_ratel = note_sent d.now d.rreq_ratel })
    else d
limited (rerr m) dst len ttl dev d =
    if may_send d.now d.rerr_ratel
    then transmit dst len ttl dev (record d { rerr_ratel = note_sent d.now d.rerr_ratel })
    else d
limited m dst len ttl dev d = transmit dst len ttl dev d

-- `dev` is the position of the device. The message is the one in the send buffer.
unfoldable pub aodv_socket_send : ℕ → ℕ → ℕ → ℕ → Daemon → Daemon
unfolding limited
aodv_socket_send dst len ttl dev d =
    if d.wait_on_reboot && is_rrep d.send_buf
    then d
    else if d.cfg.ratelimit
    then limited d.send_buf dst len ttl dev d
    else transmit dst len ttl dev d

-- The loops `for (i = 0; i < MAX_NR_INTERFACES; i++)` over the enabled devices: `n` are left, from `i`.
unfoldable pub for_devs : ℕ → ℕ → (ℕ → Daemon → Daemon) → Daemon → Daemon
for_devs zero i body d = d
for_devs (suc n) i body d =
    for_devs n (i + 1) body (if (d.host.devs i).enabled then body i d else d)

unfoldable pub for_all_devs : (ℕ → Daemon → Daemon) → Daemon → Daemon
for_all_devs body d = for_devs max_nr_interfaces 0 body d
