-- ===== src/Timeout.antt =====
-- src/protocol/aodv_timeout.c: the functions that run when timers expire, with the originating of route
-- requests that route_discovery_timeout repeats (rreq_create and rreq_send of
-- src/protocol/aodv_rreq.c).
pub mod Search
pub mod Frame
pub mod Discovery
use embedded_systems_wireles.Base.{
  ℕ, ◌+◌, ◌*◌, ◌%◌, ◌^◌, Bool, true, false, not, ◌&&◌, Option, none, some, List, [], ◌∷◌, ltb, leb,
  ltb_ℤ, pos, ◌==◌, if◌then◌else◌,
}
use Prim.Native.Nat.{bit_and, bit_or}
use embedded_systems_wireles.Seqno.{seqno_incr}
use embedded_systems_wireles.Time.{timeval_diff}
use embedded_systems_wireles.Timer.{
  rt_timer, seek_timer, bl_timer, route_delete_timeout as delete_handler,
  rreq_blacklist_timeout as blacklist_handler,
}
use embedded_systems_wireles.Message.{
  Rreq, rreq, rreq_size, rerr_calc_size, aodv_broadcast, rreq_retries, ttl_threshold, ttl_increment,
  net_diameter, ring_traversal_time, net_traversal_time, max_repair_ttl, blacklist_timeout,
}
use embedded_systems_wireles.Table.{Rt, is_valid, rt_table_find, precursor_list_destroy}
use embedded_systems_wireles.Daemon.{
  Daemon, Seek, route_deleted, emit, rt, modify_rt, init_timer, set_timeout, set_handler,
  ifindex2devindex,
}
use embedded_systems_wireles.Socket.{aodv_socket_new_msg, aodv_socket_send, for_all_devs}
use embedded_systems_wireles.Lifetime.{rt_table_update_timeout}
use embedded_systems_wireles.Seek.{seek_list_find, seek_list_remove, modify_seek}
use embedded_systems_wireles.PacketQueue.{packet_queue_set_verdict, pq_drop}
use embedded_systems_wireles.Route.{rt_table_invalidate, rt_table_delete}
use embedded_systems_wireles.Rerr.{rerr_create, count_of, first_prec}
use embedded_systems_wireles.Neighbor.{neighbor_link_break, mark_repair}

-- Bits of the u_int8_t flags of a request.
abbrev pub flag_set : ℕ → ℕ → Bool
flag_set flags bit = not (bit_and flags bit == 0)

-- Each request takes a new id and, the originator's sequence number raised, that number.
unfoldable pub rreq_create : ℕ → ℕ → ℕ → ℕ → Daemon → Daemon
rreq_create flags dest_addr dest_seqno orig_addr d =
    let seqno' = seqno_incr d.host.seqno in
    aodv_socket_new_msg
      (rreq (record {
        j = flag_set flags 1;
        r = flag_set flags 2;
        g = flag_set flags 4;
        d = flag_set flags 8;
        hcnt = 0;
        rreq_id = d.host.rreq_id;
        dest_addr = dest_addr;
        dest_seqno = dest_seqno;
        orig_addr = orig_addr;
        orig_seqno = seqno';
      }))
      (record d {
        host = record (d.host) { rreq_id = (d.host.rreq_id + 1) % 2 ^ 32; seqno = seqno' };
      })

-- RREQ_GRATUITOUS is forced by the option rreq_gratuitous.
unfoldable pub rreq_send : ℕ → ℕ → ℕ → ℕ → Daemon → Daemon
unfolding rreq_create
rreq_send dest_addr dest_seqno ttl flags d =
    let flags' = if d.cfg.rreq_gratuitous then bit_or flags 4 else flags in
    for_all_devs
      (λ i x.
        aodv_socket_send aodv_broadcast rreq_size (ttl % 256) i
          (rreq_create flags' dest_addr dest_seqno (x.host.devs i).ipaddr x))
      d

unfoldable pub rreq_blacklist_find : ℕ → List ℕ → Bool
rreq_blacklist_find addr [] = false
rreq_blacklist_find addr (b ∷ bs) = if b == addr then true else rreq_blacklist_find addr bs

unfoldable pub rreq_blacklist_insert : ℕ → Daemon → Daemon
unfolding rreq_blacklist_find
rreq_blacklist_insert addr d =
    if rreq_blacklist_find addr d.rreq_blacklist
    then d
    else set_timeout (bl_timer addr) (blacklist_timeout d.cfg.ttl_start) (
        init_timer (bl_timer addr) blacklist_handler
          (record d { rreq_blacklist = addr ∷ d.rreq_blacklist }))

unfoldable pub drop_addr : ℕ → List ℕ → List ℕ
drop_addr addr [] = []
drop_addr addr (b ∷ bs) = let rest = drop_addr addr bs in if b == addr then bs else b ∷ rest

unfoldable pub rreq_blacklist_timeout : ℕ → Daemon → Daemon
unfolding drop_addr
rreq_blacklist_timeout addr d = record d { rreq_blacklist = drop_addr addr d.rreq_blacklist }

unfoldable pub rrep_ack_timeout : ℕ → Daemon → Daemon
rrep_ack_timeout addr d = rreq_blacklist_insert (rt addr d).dest_addr d

-- An error to the only precursor on the route's own device, or to all.
unfoldable pub report_failed : Rt → Daemon → Daemon
report_failed r d =
    if r.nprec == 0
    then d
    else (let d' = rerr_create false r.dest_addr r.dest_seqno d in
        if r.nprec == 1
        then aodv_socket_send (first_prec r.precursors) (rerr_calc_size (count_of d'.send_buf)) 1
            (ifindex2devindex r.ifindex d'.host) d'
        else for_all_devs
            (λ i x. aodv_socket_send aodv_broadcast (rerr_calc_size (count_of x.send_buf)) 1 i x)
            d')

unfoldable pub unset_repair : Rt → Rt
unset_repair r = record r { flags = record (r.flags) { repair = false } }

unfoldable pub local_repair_timeout : ℕ → Daemon → Daemon
unfolding report_failed unset_repair
local_repair_timeout addr d =
    let d1 = modify_rt addr unset_repair d in
    let r = rt addr d1 in
    let d2 = report_failed r (emit (route_deleted r.dest_addr r.next_hop r.hcnt) d1) in
    set_timeout (rt_timer addr) d.cfg.delete_period
      (set_handler (rt_timer addr) delete_handler (modify_rt addr precursor_list_destroy d2))

unfoldable pub route_expire_timeout : ℕ → Daemon → Daemon
route_expire_timeout addr d =
    if (rt addr d).hcnt == 1
    then neighbor_link_break addr d
    else modify_rt addr precursor_list_destroy (rt_table_invalidate addr d)

unfoldable pub route_delete_timeout : ℕ → Daemon → Daemon
route_delete_timeout addr d = rt_table_delete addr d

-- A silent neighbour, unless the link to it is known to be one-way.
unfoldable pub hello_timeout : ℕ → Daemon → Daemon
hello_timeout addr d =
    let r = rt addr d in
    if is_valid r.state && not r.flags.unidir
    then neighbor_link_break addr (
        if d.cfg.local_repair && leb r.hcnt max_repair_ttl then modify_rt addr mark_repair d else d)
    else d

-- The next ring of the search: the new TTL and number of full-size requests.
unfoldable pub widen : Seek → Seek
widen s =
    if ltb s.ttl ttl_threshold
    then record s { ttl = s.ttl + ttl_increment }
    else record s { ttl = net_diameter; reqs = s.reqs + 1 }

-- The sought destination's entry and its timer, for another try.
unfoldable pub next_try : Bool → Seek → Seek
unfolding widen
next_try ring s = if ring then widen s else record s { reqs = s.reqs + 1 }

unfoldable pub wait_time : Bool → Seek → ℕ
wait_time ring s = if ring then ring_traversal_time s.ttl else s.reqs * 2 * net_traversal_time

-- An entry that waits for a reply is not expunged for another 2 * NET_TRAVERSAL_TIME.
unfoldable pub keep_waiting : ℕ → Daemon → Daemon
keep_waiting addr d = elim (rt_table_find addr d.table) [
  | none ↦ d
  | some r ↦
      if ltb_ℤ (timeval_diff (d.timers.cell (rt_timer r.dest_addr)).timeout d.now)
        (pos (2 * net_traversal_time))
      then rt_table_update_timeout r.dest_addr (2 * net_traversal_time) d
      else d
]

unfoldable pub retry : Seek → Daemon → Daemon
unfolding next_try wait_time keep_waiting
retry s d =
    let ring = d.cfg.expanding_ring_search in
    let s' = next_try ring s in
    rreq_send s'.dest_addr s'.dest_seqno s'.ttl s'.flags (
      keep_waiting s'.dest_addr (
        set_timeout (seek_timer s'.dest_addr) (wait_time ring s')
          (record d { seeking = modify_seek s.dest_addr (λ x. s') d.seeking })))

unfoldable pub repair_failed : Option Rt → Daemon → Daemon
repair_failed none d = d
repair_failed (some r) d = if r.flags.repair then local_repair_timeout r.dest_addr d else d

-- The search is over: nl_send_no_route_found_msg of src/network/nl.c drops the packets that wait, and a
-- repair has failed.
unfoldable pub give_up : Seek → Daemon → Daemon
unfolding repair_failed
give_up s d =
    let d1 = packet_queue_set_verdict s.dest_addr pq_drop d in
    repair_failed (rt_table_find s.dest_addr d1.table) (seek_list_remove s.dest_addr d1).0

unfoldable pub route_discovery_timeout : ℕ → Daemon → Daemon
unfolding retry give_up
route_discovery_timeout addr d = elim (seek_list_find addr d.seeking) [
  | none ↦ d
  | some s ↦ if ltb s.reqs rreq_retries then retry s d else give_up s d
]

unfoldable pub wait_on_reboot_timeout : Daemon → Daemon
wait_on_reboot_timeout d = record d { wait_on_reboot = false }
