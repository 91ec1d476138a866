-- ===== src/Rreq.antt =====
-- src/protocol/aodv_rreq.c: route requests, in the build without CONFIG_GATEWAY. (rreq_create and
-- rreq_send stand with the timeouts.) The loop over the extensions of a request only writes log
-- lines and is left out.
pub mod Duplicate
use embedded_systems_wireles.Base.{
  ℕ, ◌+◌, ◌-◌, ◌*◌, ◌/◌, ◌%◌, ◌^◌, Bool, true, false, not, ◌&&◌, ◌||◌, Option, none, some, List, [],
  ◌∷◌, ltb, ltb_ℤ, pos, to_u32, ◌==◌, if◌then◌else◌,
}
use embedded_systems_wireles.Seqno.{seqno_incr, seqno_gt, seqno_ge}
use embedded_systems_wireles.Time.{timeval_diff}
use embedded_systems_wireles.Timer.{
  rt_timer, rec_timer, seek_timer, rreq_record_timeout as record_handler,
  route_expire_timeout as expire_handler,
}
use embedded_systems_wireles.Message.{
  Rreq, rreq, rreq_size, rrep_size, aodv_broadcast, path_discovery_time, node_traversal_time,
  net_traversal_time, net_diameter, ttl_increment, local_add_ttl, ring_traversal_time,
}
use embedded_systems_wireles.Table.{no_flags, Rt, RtState, valid, is_valid, rt_table_find}
use embedded_systems_wireles.Daemon.{
  Daemon, rt, init_timer, set_timeout, set_handler, ifindex2devindex, dev_ipaddr,
}
use embedded_systems_wireles.Socket.{aodv_socket_new_msg, aodv_socket_send, for_all_devs}
use embedded_systems_wireles.Seek.{seek_list_find, seek_list_insert}
use embedded_systems_wireles.Route.{rt_table_insert}
use embedded_systems_wireles.Update.{rt_table_update}
use embedded_systems_wireles.Timeout.{rreq_send, rreq_blacklist_find, keep_waiting}
use embedded_systems_wireles.Hello.{rrep_create}
use embedded_systems_wireles.Rrep.{rrep_send}
use embedded_systems_wireles.Base.{is_some}

unfoldable pub rreq_record_find : ℕ → ℕ → List (ℕ × ℕ) → Bool
rreq_record_find orig_addr rreq_id [] = false
rreq_record_find orig_addr rreq_id ((o, i) ∷ rs) =
    if (o == orig_addr) && (i == rreq_id) then true else rreq_record_find orig_addr rreq_id rs

unfoldable pub rreq_record_insert : ℕ → ℕ → Daemon → Daemon
unfolding rreq_record_find
rreq_record_insert orig_addr rreq_id d =
    if rreq_record_find orig_addr rreq_id d.rreq_records
    then d
    else set_timeout (rec_timer orig_addr rreq_id) path_discovery_time (
        init_timer (rec_timer orig_addr rreq_id) record_handler
          (record d { rreq_records = (orig_addr, rreq_id) ∷ d.rreq_records }))

unfoldable pub drop_record : ℕ → ℕ → List (ℕ × ℕ) → List (ℕ × ℕ)
drop_record orig_addr rreq_id [] = []
drop_record orig_addr rreq_id ((o, i) ∷ rs) =
    let rest = drop_record orig_addr rreq_id rs in
    if (o == orig_addr) && (i == rreq_id) then rs else (o, i) ∷ rest

unfoldable pub rreq_record_timeout : ℕ → ℕ → Daemon → Daemon
unfolding drop_record
rreq_record_timeout orig_addr rreq_id d = record d {
  rreq_records = drop_record orig_addr rreq_id d.rreq_records;
}

unfoldable pub rreq_forward : Rreq → ℕ → ℕ → Daemon → Daemon
rreq_forward m size ttl d =
    for_all_devs (λ i x. aodv_socket_send aodv_broadcast size ttl i x)
      (aodv_socket_new_msg (rreq (record m { hcnt = (m.hcnt + 1) % 256 })) d)

-- u_int32_t life = PATH_DISCOVERY_TIME - 2 * rreq_new_hcnt * NODE_TRAVERSAL_TIME, which wraps.
unfoldable pub reverse_life : ℕ → ℕ
reverse_life new_hcnt = (path_discovery_time + 2 ^ 32 - 2 * new_hcnt * node_traversal_time) % 2 ^ 32

-- Whether a request replaces a known route to its originator.
unfoldable pub fresher_rreq : ℕ → ℕ → Rt → Bool
fresher_rreq seqno new_hcnt r =
    (r.dest_seqno == 0)
    || (seqno_gt seqno r.dest_seqno
        || ((seqno == r.dest_seqno) && (not (is_valid r.state) || ltb new_hcnt r.hcnt)))

unfoldable pub reverse_route : Rreq → ℕ → ℕ → Daemon → Daemon
unfolding reverse_life fresher_rreq
reverse_route m ip_src ifindex d =
    let new_hcnt = m.hcnt + 1 in
    elim (rt_table_find m.orig_addr d.table) [
      | none ↦
          rt_table_insert m.orig_addr ip_src (new_hcnt % 256) m.orig_seqno (reverse_life new_hcnt)
            valid no_flags ifindex d
      | some r ↦
          if fresher_rreq m.orig_seqno new_hcnt r
          then rt_table_update m.orig_addr ip_src (new_hcnt % 256) m.orig_seqno
              (reverse_life new_hcnt) valid r.flags d
          else d
    ]

-- The destination's own number after a request that names one.
unfoldable pub own_seqno : ℕ → ℕ → ℕ
own_seqno seqno asked =
    if asked == 0
    then seqno
    else if seqno_gt asked seqno
    then asked
    else if seqno == asked
    then seqno_incr seqno
    else seqno

unfoldable pub reply_self : Rreq → Daemon → Daemon
unfolding own_seqno
reply_self m d =
    let seqno' = own_seqno d.host.seqno m.dest_seqno in
    let d1 = record d { host = record (d.host) { seqno = seqno' } } in
    let rev = rt m.orig_addr d1 in
    rrep_send m.orig_addr none rrep_size (
      rrep_create 0 0 0 (dev_ipaddr rev.ifindex d1) seqno' rev.dest_addr
        (2 * d.cfg.active_route_timeout) [] d1)

unfoldable pub reply_known : Rreq → Rt → Daemon → Daemon
reply_known m fwd d =
    let lifetime = to_u32 (timeval_diff (d.timers.cell (rt_timer fwd.dest_addr)).timeout d.now) in
    let rev = rt m.orig_addr d in
    let d1 =
      rrep_send m.orig_addr (some fwd.dest_addr) rrep_size
        (rrep_create 0 0 fwd.hcnt fwd.dest_addr fwd.dest_seqno rev.dest_addr lifetime [] d) in
    if m.g
    then (let rev' = rt m.orig_addr d1 in
        rrep_send fwd.dest_addr (some m.orig_addr) rrep_size
          (rrep_create 0 0 rev'.hcnt rev'.dest_addr rev'.dest_seqno fwd.dest_addr lifetime [] d1))
    else d1

-- The sequence number that a forwarded request asks for.
unfoldable pub asked_seqno : Rreq → Option Rt → ℕ
asked_seqno m none = m.dest_seqno
asked_seqno m (some fwd) =
    if not fwd.flags.inet_dest && seqno_gt fwd.dest_seqno m.dest_seqno
    then fwd.dest_seqno
    else m.dest_seqno

unfoldable pub pass_on : Rreq → ℕ → ℕ → Option Rt → Daemon → Daemon
unfolding asked_seqno
pass_on m rreqlen ip_ttl fwd d =
    if ltb 1 ip_ttl
    then rreq_forward (record m { dest_seqno = asked_seqno m fwd }) rreqlen (ip_ttl - 1) d
    else d

-- Whether the node may answer for the destination.
unfoldable pub can_answer : Rreq → Rt → Bool
can_answer m fwd =
    is_valid fwd.state
    && (not m.d && (not (fwd.dest_seqno == 0) && seqno_ge fwd.dest_seqno m.dest_seqno))

unfoldable pub intermediate : Rreq → ℕ → ℕ → Daemon → Daemon
unfolding can_answer reply_known pass_on
intermediate m rreqlen ip_ttl d = elim (rt_table_find m.dest_addr d.table) [
  | none ↦ pass_on m rreqlen ip_ttl none d
  | some fwd ↦
      if can_answer m fwd then reply_known m fwd d else pass_on m rreqlen ip_ttl (some fwd) d
]

-- Own requests, short ones, those from a blacklisted neighbour and those seen before are ignored.
unfoldable pub ignored : Rreq → ℕ → ℕ → ℕ → Daemon → Bool
ignored m rreqlen ip_src ifindex d =
    (m.orig_addr == dev_ipaddr ifindex d)
    || (ltb rreqlen rreq_size
        || (rreq_blacklist_find ip_src d.rreq_blacklist
            || rreq_record_find m.orig_addr m.rreq_id d.rreq_records))

unfoldable pub rreq_process : Rreq → ℕ → ℕ → ℕ → ℕ → Daemon → Daemon
unfolding ignored reverse_route reply_self intermediate
rreq_process m rreqlen ip_src ip_ttl ifindex d =
    if ignored m rreqlen ip_src ifindex d
    then d
    else (let d1 = reverse_route m ip_src ifindex (rreq_record_insert m.orig_addr m.rreq_id d) in
        if m.dest_addr == dev_ipaddr ifindex d1
        then reply_self m d1
        else intermediate m rreqlen ip_ttl d1)

-- The number and the TTL that a search starts with.
unfoldable pub start_seqno : Option Rt → ℕ
start_seqno none = 0
start_seqno (some r) = r.dest_seqno

unfoldable pub start_ttl : Option Rt → Daemon → ℕ
start_ttl none d = if d.cfg.expanding_ring_search then d.cfg.ttl_start else net_diameter
start_ttl (some r) d = if d.cfg.expanding_ring_search then r.hcnt + ttl_increment else net_diameter

-- The request is sent, and the destination is remembered as sought.
unfoldable pub seek : ℕ → ℕ → ℕ → ℕ → ℕ → Daemon → Daemon
seek dest_addr dest_seqno ttl flags wait d =
    set_timeout (seek_timer dest_addr) wait
      (seek_list_insert dest_addr dest_seqno ttl flags (rreq_send dest_addr dest_seqno ttl flags d))

unfoldable pub rreq_route_discovery : ℕ → ℕ → Daemon → Daemon
unfolding start_seqno start_ttl seek
rreq_route_discovery dest_addr flags d =
    let found = rt_table_find dest_addr d.table in
    let ttl = start_ttl found d in
    if is_some (seek_list_find dest_addr d.seeking)
    then d
    else seek dest_addr (start_seqno found) ttl flags
        (if d.cfg.expanding_ring_search then ring_traversal_time ttl else net_traversal_time)
        (keep_waiting dest_addr d)

-- (int) (max(rt->hcnt, 0.5 * src_entry->hcnt) + LOCAL_ADD_TTL)
unfoldable pub repair_ttl : Rt → Option Rt → ℕ
repair_ttl r none = r.hcnt + local_add_ttl
repair_ttl r (some src) =
    (if ltb r.hcnt (src.hcnt / 2) then src.hcnt / 2 else r.hcnt) + local_add_ttl

unfoldable pub rreq_local_repair : ℕ → ℕ → Daemon → Daemon
unfolding repair_ttl seek
rreq_local_repair addr src_addr d =
    let r = rt addr d in
    let ttl = repair_ttl r (rt_table_find src_addr d.table) in
    if is_some (seek_list_find r.dest_addr d.seeking) || not r.flags.repair
    then d
    else seek r.dest_addr r.dest_seqno ttl 0
        (if d.cfg.expanding_ring_search then 2 * ttl * node_traversal_time else net_traversal_time)
        (keep_waiting addr (set_handler (rt_timer addr) expire_handler d))
