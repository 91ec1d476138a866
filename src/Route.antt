-- ===== src/Route.antt =====
-- Routes come and go: rt_table_insert, rt_table_invalidate, rt_table_delete and rt_table_destroy of
-- src/routing/routing_table.c. An entry's timers are those of its destination in the timer store.
pub mod Invalidate
pub mod Lapse
pub mod View
use embedded_systems_wireles.Base.{
  ℕ, ◌+◌, ◌-◌, ◌%◌, ◌^◌, Bool, true, false, not, ◌&&◌, Option, none, some, List, [], ◌∷◌, ◌++◌,
  ◌==◌, if◌then◌else◌,
}
use embedded_systems_wireles.Seqno.{seqno_incr}
use embedded_systems_wireles.Time.{zero_time}
use embedded_systems_wireles.Timer.{
  rt_timer, ack_timer, hello_timer, route_expire_timeout, route_delete_timeout,
  local_repair_timeout, rrep_ack_timeout, hello_timeout,
}
use embedded_systems_wireles.Table
use embedded_systems_wireles.Table.{
  Flags, RtState, invalid, valid, is_valid, Rt, Table, has_dest, hashing, link, unlink, all_dests,
}
use embedded_systems_wireles.Daemon.{
  Daemon, Output, route_added, route_deleted, emit, modify_rt, rt, init_timer, set_timeout,
  remove_timer, set_handler,
}
use embedded_systems_wireles.Seek.{seek_list_remove}
use embedded_systems_wireles.PacketQueue.{PqVerdict, pq_send, pq_enc_send, packet_queue_set_verdict}

-- num_active is an unsigned int.
abbrev pub inc_active : Daemon → Daemon
inc_active d = record d {
  table = record (d.table) { num_active = (d.table.num_active + 1) % 2 ^ 32 };
}

abbrev pub dec_active : Daemon → Daemon
dec_active d = record d {
  table = record (d.table) { num_active = (d.table.num_active + 2 ^ 32 - 1) % 2 ^ 32 };
}

-- The packets that wait for a destination go, if it was sought.
unfoldable pub send_buffered : ℕ → Daemon → Daemon
send_buffered addr d =
    if is_valid (rt addr d).state
    then (let (d', found) = seek_list_remove addr d in
        if found
        then packet_queue_set_verdict addr
            (if (rt addr d').flags.inet_dest then pq_enc_send else pq_send) d'
        else d')
    else d

unfoldable pub new_rt : ℕ → ℕ → ℕ → ℕ → RtState → Flags → ℕ → Rt
new_rt dest_addr next hops seqno state flags ifindex = record {
  dest_addr = dest_addr;
  dest_seqno = seqno;
  ifindex = ifindex;
  next_hop = next;
  hcnt = hops;
  flags = flags;
  state = state;
  last_hello_time = zero_time;
  hello_cnt = 0;
  hash = dest_addr;
  nprec = 0;
  precursors = [];
}

-- The new entry with its timers, first in its bucket.
unfoldable pub link_new : Rt → Daemon → Daemon
link_new r d =
    (let d' = init_timer (hello_timer r.dest_addr) hello_timeout (
        init_timer (ack_timer r.dest_addr) rrep_ack_timeout
          (init_timer (rt_timer r.dest_addr) route_expire_timeout d)) in
      record d' { table = link r d'.table })

-- An entry that starts out invalid is kept for repair or until its deletion; a valid one is counted
-- and handed to the kernel. The second part is the lifetime for the timer.
unfoldable pub start_route : Rt → ℕ → Daemon → Daemon × ℕ
start_route r life d =
    if is_valid r.state
    then (emit (route_added r.dest_addr r.next_hop r.hcnt r.ifindex) (inc_active d), life)
    else if r.flags.repair
    then (set_handler (rt_timer r.dest_addr) local_repair_timeout d, d.cfg.active_route_timeout)
    else (set_handler (rt_timer r.dest_addr) route_delete_timeout d, d.cfg.delete_period)

-- `if (life != 0) timer_set_timeout(&rt->rt_timer, life);`
unfoldable pub start_timer : Rt → Daemon × ℕ → Daemon
start_timer r (d, life) = if life == 0 then d else set_timeout (rt_timer r.dest_addr) life d

unfoldable pub insert_new : Rt → ℕ → Daemon → Daemon
unfolding link_new start_route start_timer send_buffered
insert_new r life d = send_buffered r.dest_addr (start_timer r (start_route r life (link_new r d)))

-- NULL, and no change, for a destination that has an entry.
unfoldable pub rt_table_insert : ℕ → ℕ → ℕ → ℕ → ℕ → RtState → Flags → ℕ → Daemon → Daemon
unfolding insert_new new_rt
rt_table_insert dest_addr next hops seqno life state flags ifindex d =
    if has_dest dest_addr (d.table.tbl (hashing dest_addr))
    then d
    else insert_new (new_rt dest_addr next hops seqno state flags ifindex) life d

unfoldable pub remove_timers : ℕ → Daemon → Daemon
remove_timers addr d =
    remove_timer (ack_timer addr) (remove_timer (hello_timer addr) (remove_timer (rt_timer addr) d))

-- The state and the counters of an entry that goes invalid.
unfoldable pub lapse : Rt → Rt
lapse r = record r {
  state = invalid;
  hello_cnt = 0;
  dest_seqno = seqno_incr r.dest_seqno;
  last_hello_time = zero_time;
}

-- Repair, or deletion, is scheduled.
unfoldable pub schedule_end : ℕ → Daemon → Daemon
schedule_end addr d =
    if (rt addr d).flags.repair
    then set_timeout (rt_timer addr) d.cfg.active_route_timeout
        (set_handler (rt_timer addr) local_repair_timeout d)
    else set_timeout (rt_timer addr) d.cfg.delete_period
        (set_handler (rt_timer addr) route_delete_timeout d)

-- A route that is invalid already is left alone.
unfoldable pub rt_table_invalidate : ℕ → Daemon → Daemon
unfolding remove_timers lapse schedule_end
rt_table_invalidate addr d =
    let r = rt addr d in
    if is_valid r.state
    then schedule_end addr (
        emit (route_deleted r.dest_addr r.next_hop r.hcnt)
          (dec_active (modify_rt addr lapse (remove_timers addr d))))
    else d

unfoldable pub rt_table_delete : ℕ → Daemon → Daemon
unfolding remove_timers
rt_table_delete addr d =
    let r = rt addr d in
    let d' = record d { table = unlink addr d.table } in
    remove_timers addr (
      if is_valid r.state
      then dec_active (emit (route_deleted r.dest_addr r.next_hop r.hcnt) d')
      else d')

unfoldable pub delete_each : List ℕ → Daemon → Daemon
delete_each [] d = d
delete_each (a ∷ as') d = delete_each as' (rt_table_delete a d)

unfoldable pub rt_table_destroy : Daemon → Daemon
unfolding delete_each rt_table_delete
rt_table_destroy d = delete_each (all_dests d.table) d
