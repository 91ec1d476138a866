-- ===== src/Rrep.antt =====
-- src/protocol/aodv_rrep.c: route replies, in the build without CONFIG_GATEWAY. The loop over the
-- extensions of a reply only writes log lines and is left out.
use embedded_systems_wireles.Base.{
  ℕ, ◌+◌, ◌%◌, Bool, true, false, not, ◌&&◌, ◌||◌, Option, none, some, ltb, ◌==◌, if◌then◌else◌,
}
use embedded_systems_wireles.Seqno.{seqno_gt}
use embedded_systems_wireles.Timer.{ack_timer, hello_timer}
use embedded_systems_wireles.Message.{
  Rrep, rrep, rrep_ack, rrep_size, rerr_calc_size, aodv_broadcast, next_hop_wait, max_ttl,
}
use embedded_systems_wireles.Table.{no_flags, Rt, valid, is_valid, rt_table_find, precursor_add}
use embedded_systems_wireles.Daemon.{
  Daemon, rt, modify_rt, set_timeout, remove_timer, ifindex2devindex, dev_ipaddr,
}
use embedded_systems_wireles.Socket.{aodv_socket_new_msg, aodv_socket_send}
use embedded_systems_wireles.Lifetime.{rt_table_update_timeout}
use embedded_systems_wireles.Route.{rt_table_insert}
use embedded_systems_wireles.Rerr.{rerr_create, count_of}
use embedded_systems_wireles.Neighbor.{neighbor_link_break}
use embedded_systems_wireles.Update.{rt_table_update}
use embedded_systems_wireles.Hello.{hello_start}

unfoldable pub rrep_ack_create : Daemon → Daemon
rrep_ack_create d = aodv_socket_new_msg rrep_ack d

unfoldable pub rrep_ack_process : ℕ → Daemon → Daemon
rrep_ack_process ip_src d = elim (rt_table_find ip_src d.table) [
  | none ↦ d
  | some r ↦ remove_timer (ack_timer r.dest_addr) d
]

-- `if (!llfeedback && optimized_hellos) hello_start();`
unfoldable pub start_hellos : Daemon → Daemon
start_hellos d = if not d.cfg.llfeedback && d.cfg.optimized_hellos then hello_start d else d

unfoldable pub mark_unidir : Rt → Rt
mark_unidir r = record r { flags = record (r.flags) { unidir = true } }

-- The next hop is taken for the far end of a one-way link: the link is broken off, and an
-- acknowledgement is awaited. (The flag RREP_ACK is computed here and never put into the message.)
unfoldable pub suspect : ℕ → Daemon → Daemon
unfolding mark_unidir
suspect hop d =
    set_timeout (ack_timer hop) next_hop_wait
      (neighbor_link_break hop (remove_timer (hello_timer hop) (modify_rt hop mark_unidir d)))

unfoldable pub suspect_next_hop : Rt → Daemon → Daemon
unfolding suspect
suspect_next_hop r d =
    if (is_valid r.state && r.flags.unidir) || ((r.hcnt == 1) && d.cfg.unidir_hack)
    then (elim (rt_table_find r.next_hop d.table) [
      | none ↦ d
      | some n ↦
          if is_valid n.state && not (d.timers.cell (ack_timer n.dest_addr)).used
          then suspect n.dest_addr d
          else d
    ])
    else d

unfoldable pub add_precursors : ℕ → ℕ → Daemon → Daemon
add_precursors fwd rev d =
    let d' = modify_rt fwd (precursor_add (rt rev d).next_hop) d in
    modify_rt rev (precursor_add (rt fwd d').next_hop) d'

unfoldable pub add_precursors_to : Option ℕ → ℕ → Daemon → Daemon
unfolding add_precursors
add_precursors_to none rev d = d
add_precursors_to (some fwd) rev d = add_precursors fwd rev d

-- The message is the one in the send buffer when it comes to sending.
unfoldable pub rrep_send : ℕ → Option ℕ → ℕ → Daemon → Daemon
unfolding suspect_next_hop add_precursors_to start_hellos
rrep_send rev fwd size d =
    let d1 = suspect_next_hop (rt rev d) d in
    let r = rt rev d1 in
    start_hellos (
      add_precursors_to fwd rev
        (aodv_socket_send r.next_hop size max_ttl (ifindex2devindex r.ifindex d1.host) d1))

-- `ttl` is the u_int8_t that the socket gets.
unfoldable pub rrep_forward : Rrep → ℕ → ℕ → ℕ → ℕ → Daemon → Daemon
unfolding add_precursors
rrep_forward m size rev fwd ttl d =
    let d1 = aodv_socket_new_msg (rrep (record m { hcnt = (rt fwd d).hcnt })) d in
    let r = rt rev d1 in
    rt_table_update_timeout rev d.cfg.active_route_timeout (
      add_precursors fwd rev
        (aodv_socket_send r.next_hop size ttl (ifindex2devindex r.ifindex d1.host) d1))

-- Whether a reply replaces a known route.
unfoldable pub fresher_rrep : ℕ → ℕ → Rt → Bool
fresher_rrep seqno new_hcnt r =
    (r.dest_seqno == 0)
    || (seqno_gt seqno r.dest_seqno
        || ((seqno == r.dest_seqno)
            && (not (is_valid r.state) || (r.flags.unidir || ltb new_hcnt r.hcnt))))

-- An acknowledgement, sent with the length NEXT_HOP_WAIT.
unfoldable pub acknowledge : ℕ → Daemon → Daemon
unfolding rrep_ack_create
acknowledge fwd d =
    let r = rt fwd d in
    aodv_socket_send r.next_hop next_hop_wait max_ttl (ifindex2devindex r.ifindex d.host)
      (rrep_ack_create d)

-- A repaired route that is longer now is reported, with the route kept.
unfoldable pub report_longer : ℕ → Bool → ℕ → Daemon → Daemon
report_longer fwd was_repair was_hcnt d =
    let r = rt fwd d in
    if was_repair && ltb was_hcnt r.hcnt
    then (let d' = rerr_create true r.dest_addr r.dest_seqno d in
        if r.nprec == 0
        then d'
        else aodv_socket_send aodv_broadcast (rerr_calc_size (count_of d'.send_buf)) 1
            (ifindex2devindex r.ifindex d'.host) d')
    else d

unfoldable pub forward_back : Rrep → ℕ → Option ℕ → ℕ → ℕ → Daemon → Daemon
forward_back m size none fwd ttl d = d
forward_back m size (some rev) fwd ttl d =
    if is_valid (rt rev d).state then rrep_forward m size rev fwd ttl d else d

-- What happens once the forward route `fwd` stands; `was` are the flag and the hop count of before.
unfoldable pub answer : Rrep → ℕ → ℕ → ℕ → Option ℕ → Bool → ℕ → Daemon → Daemon
unfolding acknowledge report_longer forward_back start_hellos
answer m rreplen ip_ttl ifindex rev was_repair was_hcnt d =
    let d1 = if m.a then acknowledge m.dest_addr d else d in
    let m' = record m { a = false } in
    start_hellos (
      if m.orig_addr == dev_ipaddr ifindex d1
      then report_longer m.dest_addr was_repair was_hcnt d1
      else forward_back m' rreplen rev m.dest_addr ((ip_ttl + 255) % 256) d1)

abbrev pub dest_of : Option Rt → Option ℕ
dest_of none = none
dest_of (some r) = some r.dest_addr

unfoldable pub accept_rrep : Option Rt → Rrep → ℕ → ℕ → ℕ → ℕ → Option ℕ → Daemon → Daemon
unfolding fresher_rrep answer
accept_rrep none m rreplen ip_src ip_ttl ifindex rev d =
    answer m rreplen ip_ttl ifindex rev false 0 (
      rt_table_insert m.dest_addr ip_src ((m.hcnt + 1) % 256) m.dest_seqno m.lifetime valid no_flags
        ifindex d)
accept_rrep (some r) m rreplen ip_src ip_ttl ifindex rev d =
    if fresher_rrep m.dest_seqno (m.hcnt + 1) r
    then answer m rreplen ip_ttl ifindex rev r.flags.repair r.hcnt (
        rt_table_update m.dest_addr ip_src ((m.hcnt + 1) % 256) m.dest_seqno m.lifetime valid
          r.flags d)
    else d

unfoldable pub rrep_process : Rrep → ℕ → ℕ → ℕ → ℕ → Daemon → Daemon
unfolding accept_rrep
rrep_process m rreplen ip_src ip_ttl ifindex d =
    if ltb rreplen rrep_size || (m.dest_addr == dev_ipaddr ifindex d)
    then d
    else accept_rrep (rt_table_find m.dest_addr d.table) m rreplen ip_src ip_ttl ifindex
        (dest_of (rt_table_find m.orig_addr d.table)) d
