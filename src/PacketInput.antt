-- ===== src/PacketInput.antt =====
-- src/network/packet_input.c: what happens to an IP packet that NFQUEUE hands over, and
-- nfqueue_packet_cb of src/network/nfqueue.c, which calls it. A packet is its bytes; a number of 32
-- bits is read from them as a little-endian machine does, as s_addr holds it.
use embedded_systems_wireles.Base.{
  ℕ, zero, suc, ◌+◌, ◌*◌, ◌%◌, Bool, true, false, not, ◌&&◌, ◌||◌, Option, none, some, List, length,
  ltb, ◌==◌, if◌then◌else◌,
}
use Prim.Native.Nat.{bit_and}
use embedded_systems_wireles.Timer.{worb_timer}
use embedded_systems_wireles.Message.{aodv_broadcast, rerr_calc_size}
use embedded_systems_wireles.Table.{Rt, is_valid, rt_table_find}
use embedded_systems_wireles.Daemon.{
  Daemon, Dev, Host, verdict, emit, set_timeout, ifindex2devindex,
}
use embedded_systems_wireles.Socket.{aodv_socket_send}
use embedded_systems_wireles.Lifetime.{rt_table_update_timeout, rt_table_update_route_timeouts}
use embedded_systems_wireles.Bytes.{byte, word32}
use embedded_systems_wireles.PacketQueue.{packet_queue_add}
use embedded_systems_wireles.Rerr.{rerr_create}
use embedded_systems_wireles.Rreq.{rreq_route_discovery, rreq_local_repair}

-- NF_ACCEPT, NF_DROP and PACKET_INPUT_QUEUED.
pub data Action : Type 0 where
  accept drop queued : Action

-- sizeof(struct iphdr) and sizeof(struct udphdr).
abbrev pub iphdr_size : ℕ
iphdr_size = 20

abbrev pub udphdr_size : ℕ
udphdr_size = 8

abbrev pub ipproto_tcp : ℕ
ipproto_tcp = 6

abbrev pub ipproto_udp : ℕ
ipproto_udp = 17

abbrev pub nf_inet_forward : ℕ
nf_inet_forward = 2

abbrev pub aodv_port : ℕ
aodv_port = 654

-- ntohs of the two bytes.
unfoldable pub port : ℕ → List ℕ → ℕ
unfolding byte
port i p = 256 * byte i p + byte (i + 1) p

-- The fields of the header: iph->ihl * 4, protocol, saddr and daddr.
unfoldable pub header_len : List ℕ → ℕ
unfolding byte
header_len p = byte 0 p % 16 * 4

unfoldable pub protocol : List ℕ → ℕ
unfolding byte
protocol p = byte 9 p

unfoldable pub saddr : List ℕ → ℕ
unfolding word32
saddr p = word32 12 p

unfoldable pub daddr : List ℕ → ℕ
unfolding word32
daddr p = word32 16 p

unfoldable pub packet_is_aodv_control : List ℕ → Bool
unfolding protocol header_len port
packet_is_aodv_control p =
    (protocol p == ipproto_udp)
    && not (ltb (length p) (header_len p + udphdr_size))
    && ((port (header_len p) p == aodv_port) || (port (header_len p + 2) p == aodv_port))

-- DEV_IFINDEX(ifindex).
abbrev pub dev_of : ℕ → Host → Dev
dev_of ifindex h = h.devs (ifindex2devindex ifindex h)

unfoldable pub packet_is_broadcast : ℕ → ℕ → Host → Bool
packet_is_broadcast dest ifindex h =
    (dest == aodv_broadcast)
    || (ltb 0 ifindex && (dev_of ifindex h).enabled && (dest == (dev_of ifindex h).broadcast))

unfoldable pub packet_is_direct_subnet : ℕ → ℕ → Host → Bool
packet_is_direct_subnet dest ifindex h =
    not (ifindex == 0)
    && (dev_of ifindex h).enabled
    && (bit_and dest (dev_of ifindex h).netmask
        == bit_and (dev_of ifindex h).ipaddr (dev_of ifindex h).netmask)

-- The devices from number `i` on, `n` of them.
unfoldable pub local_from : ℕ → ℕ → ℕ → Host → Bool
local_from zero i dest h = false
local_from (suc n) i dest h =
    let rest = local_from n (i + 1) dest h in
    ((h.devs i).enabled && ((h.devs i).ipaddr == dest)) || rest

unfoldable pub packet_is_local_address : ℕ → Host → Bool
unfolding local_from
packet_is_local_address dest h = local_from h.nif 0 dest h

-- Packets that the daemon has nothing to do with.
unfoldable pub let_through : List ℕ → ℕ → ℕ → Host → Bool
unfolding packet_is_aodv_control packet_is_broadcast packet_is_direct_subnet packet_is_local_address
    daddr
let_through p ifindex outdev h =
    packet_is_local_address (daddr p) h
    || packet_is_broadcast (daddr p) ifindex h
    || packet_is_direct_subnet (daddr p) outdev h
    || packet_is_aodv_control p

-- The error for the route, if there is one, and the address that it goes to.
unfoldable pub unknown_rerr : Option Rt → ℕ → Daemon → Daemon
unknown_rerr none dest d = rerr_create false dest 0 d
unknown_rerr (some fwd) dest d =
    rt_table_update_timeout fwd.dest_addr d.cfg.delete_period
      (rerr_create false fwd.dest_addr fwd.dest_seqno d)

unfoldable pub rerr_target : Option Rt → ℕ
rerr_target none = aodv_broadcast
rerr_target (some rev) = if is_valid rev.state then rev.next_hop else aodv_broadcast

unfoldable pub send_rerr_for_unknown_dest : ℕ → Option Rt → Option Rt → ℕ → Daemon → Daemon
unfolding unknown_rerr rerr_target
send_rerr_for_unknown_dest dest fwd rev ifindex d =
    let d1 = unknown_rerr fwd dest d in
    let d2 =
      aodv_socket_send (rerr_target rev) (rerr_calc_size 1) 1 (ifindex2devindex ifindex d1.host)
        d1 in
    if d2.wait_on_reboot then set_timeout worb_timer d2.cfg.delete_period d2 else d2

-- Whether there is no usable route, and whether there is one that is in repair.
abbrev pub no_route : Option Rt → Bool
no_route none = true
no_route (some fwd) = not (is_valid fwd.state) || ((fwd.hcnt == 1) && fwd.flags.unidir)

abbrev pub in_repair : Option Rt → Bool
in_repair none = false
in_repair (some fwd) = fwd.flags.repair

unfoldable pub search_route : Option Rt → ℕ → ℕ → ℕ → Daemon → Daemon
search_route none src dest flags d = rreq_route_discovery dest flags d
search_route (some fwd) src dest flags d =
    if fwd.flags.repair
    then rreq_local_repair fwd.dest_addr src d
    else rreq_route_discovery dest flags d

-- The part of the handler after the tests on the packet alone.
unfoldable pub route_packet : ℕ → List ℕ → ℕ → ℕ → Daemon → Daemon × Action
unfolding protocol saddr daddr send_rerr_for_unknown_dest search_route
route_packet packet_id p hook ifindex d =
    let rev = rt_table_find (saddr p) d.table in
    let fwd = rt_table_find (daddr p) d.table in
    let d1 = rt_table_update_route_timeouts fwd rev d in
    if not (no_route fwd)
    then (d1, accept)
    else if (hook == nf_inet_forward) && not (in_repair fwd)
    then (send_rerr_for_unknown_dest (daddr p) fwd rev ifindex d1, drop)
    else (
      search_route fwd (saddr p) (daddr p) (if protocol p == ipproto_tcp then 4 else 0)
          (packet_queue_add packet_id (daddr p) d1),
      queued,
    )

unfoldable pub packet_input_handle_packet : ℕ → List ℕ → ℕ → ℕ → ℕ → Daemon → Daemon × Action
unfolding let_through header_len route_packet
packet_input_handle_packet packet_id p hook indev outdev d =
    let ifindex = if hook == nf_inet_forward then indev else outdev in
    if ltb (length p) iphdr_size || ltb (length p) (header_len p)
    then (d, accept)
    else if let_through p ifindex outdev d.host
    then (d, accept)
    else route_packet packet_id p hook ifindex d

unfoldable pub give_verdict : ℕ → Daemon × Action → Daemon
give_verdict packet_id (d, accept) = emit (verdict packet_id true) d
give_verdict packet_id (d, drop) = emit (verdict packet_id false) d
give_verdict packet_id (d, queued) = d

unfoldable pub nfqueue_packet_cb : ℕ → List ℕ → ℕ → ℕ → ℕ → Daemon → Daemon
unfolding packet_input_handle_packet give_verdict
nfqueue_packet_cb packet_id p hook indev outdev d =
    give_verdict packet_id (packet_input_handle_packet packet_id p hook indev outdev d)
