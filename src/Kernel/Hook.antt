-- ===== src/Kernel/Hook.antt =====
-- kernel/kaodv-mod.c: the netfilter hook, without CONFIG_QUAL_THRESHOLD, and if_info_from_ifindex of
-- kernel/kaodv-mod.h. A device is its ifindex, 0 for NULL; netfilter gives `indev` before routing and
-- `outdev` at the other two hooks. A packet has an IP header.
use embedded_systems_wireles.Base.{
  ℕ, ◌+◌, ◌/◌, ◌%◌, Bool, true, false, pos_part, neg_part, not, ◌&&◌, ◌||◌, Option, none, some,
  List, [], ◌∷◌, ◌==◌, if◌then◌else◌,
}
use Prim.Native.Nat.{bit_and}
use embedded_systems_wireles.PacketInput.{port, aodv_port, ipproto_udp}
use embedded_systems_wireles.Kernel.{ExplEntry, Skb, IfInfo, Platform, Module}
use embedded_systems_wireles.Kernel.Expl.{kaodv_expl_get, kaodv_expl_update}
use embedded_systems_wireles.Kernel.Ipenc.{ip_pkt_encapsulate, ip_pkt_decapsulate, ipproto_mipe}
use embedded_systems_wireles.Kernel.Queue.{
  kaodv_queue_find, kaodv_queue_enqueue_packet, kaodv_rt_gw_encap,
}
use embedded_systems_wireles.Kernel.Netlink.{
  kaodv_netlink_send_rt_msg, kaodv_netlink_send_rt_update_msg, kaodv_netlink_send_rerr_msg,
  kaodvm_route_req, kaodvm_repair, pkt_inbound, pkt_outbound,
}

-- NF_ACCEPT, NF_DROP and NF_STOLEN.
pub data Fate : Type 0 where
  accept drop stolen : Fate

-- NF_INET_PRE_ROUTING, NF_INET_LOCAL_OUT and NF_INET_POST_ROUTING.
pub data HookNum : Type 0 where
  pre_routing local_out post_routing : HookNum

abbrev pub is_pre : HookNum → Bool
is_pre pre_routing = true
is_pre _ = false

abbrev pub kaodv_rt_repair : ℕ
kaodv_rt_repair = 2

abbrev pub inaddr_broadcast : ℕ
inaddr_broadcast = 0xffffffff

-- IN_MULTICAST(ntohl(a)): the first octet of the address begins with 1110.
abbrev pub in_multicast : ℕ → Bool
in_multicast a = a % 256 / 16 == 14

unfoldable pub if_info_from_ifindex : ℕ → List IfInfo → Option IfInfo
if_info_from_ifindex ifindex [] = none
if_info_from_ifindex ifindex (ifi ∷ is) =
    if ifi.dev_ifindex == ifindex then some ifi else if_info_from_ifindex ifindex is

-- The entry with its own next hop and flags, for another ACTIVE_ROUTE_TIMEOUT over the device.
unfoldable pub renew : Platform → ℕ → ExplEntry → Module → Module
unfolding kaodv_expl_update
renew os dev e k = (kaodv_expl_update os e.daddr e.nhop k.active_route_timeout e.flags dev k).0

unfoldable pub renew_hop : Platform → ℕ → Option ExplEntry → Module → Module
unfolding renew
renew_hop os dev none k = k
renew_hop os dev (some e) k = renew os dev e k

-- A route, if there is one, and then the one to its next hop.
unfoldable pub renew_route : Platform → ℕ → Option ExplEntry → Module → Module
unfolding renew renew_hop kaodv_expl_get
renew_route os dev none k = k
renew_route os dev (some e) k =
    let k1 = renew os dev e k in
    if e.nhop == e.daddr then k1 else renew_hop os dev (kaodv_expl_get e.nhop k1) k1

-- The message about the packet that passes, at the hook, for the daemon.
unfoldable pub report_use : HookNum → ℕ → IfInfo → Skb → Module → Module
unfolding kaodv_netlink_send_rt_update_msg
report_use hook dev ifi s k =
    if is_pre hook
    then kaodv_netlink_send_rt_update_msg pkt_inbound s.iph.saddr s.iph.daddr dev k
    else if not (s.iph.daddr == inaddr_broadcast) && not (s.iph.daddr == ifi.bc_addr)
    then kaodv_netlink_send_rt_update_msg pkt_outbound s.iph.saddr s.iph.daddr dev k
    else k

unfoldable pub update_known : Platform → HookNum → ℕ → Option IfInfo → Skb → Module → Module
unfolding report_use renew_route kaodv_expl_get
update_known os hook dev none s k = k
update_known os hook dev (some ifi) s k =
    let k1 = report_use hook dev ifi s k in
    let k2 = renew_route os dev (kaodv_expl_get s.iph.daddr k1) k1 in
    renew_route os dev (kaodv_expl_get s.iph.saddr k2) k2

unfoldable pub kaodv_update_route_timeouts : Platform → HookNum → ℕ → Skb → Module → Module
unfolding if_info_from_ifindex update_known
kaodv_update_route_timeouts os hook dev s k =
    update_known os hook dev (if_info_from_ifindex dev k.ifi_list) s k

-- The ports stand first in what follows the IP header.
unfoldable pub is_aodv : Skb → Bool
unfolding port
is_aodv s =
    (s.iph.protocol == ipproto_udp)
    && ((port 2 s.payload == aodv_port) || (port 0 s.payload == aodv_port))

-- A packet from elsewhere to elsewhere, with the route for it.
unfoldable pub forward : Skb → ℕ → Option ExplEntry → Module → Module × Skb × Fate
unfolding kaodv_netlink_send_rerr_msg kaodv_netlink_send_rt_msg kaodv_queue_enqueue_packet
forward s indev none k =
    (kaodv_netlink_send_rerr_msg pkt_inbound s.iph.saddr s.iph.daddr indev k, s, drop)
forward s indev (some e) k = if bit_and e.flags kaodv_rt_repair == 0 then (k, s, accept) else (
  (kaodv_queue_enqueue_packet s
      (kaodv_netlink_send_rt_msg kaodvm_repair s.iph.saddr s.iph.daddr k)).0,
  s,
  stolen,
)

-- The case NF_INET_PRE_ROUTING.
unfoldable pub before_routing : Platform → Skb → ℕ → IfInfo → Module → Module × Skb × Fate
unfolding kaodv_update_route_timeouts ip_pkt_decapsulate kaodv_expl_get forward
before_routing os s indev ifi k =
    let k1 = kaodv_update_route_timeouts os pre_routing indev s k in
    if not (pos_part k1.is_gateway + neg_part k1.is_gateway == 0)
      && (s.iph.protocol == ipproto_mipe)
      && (s.iph.daddr == ifi.if_addr)
    then (k1, ip_pkt_decapsulate os s, accept)
    else if (s.iph.saddr == ifi.if_addr) || (s.iph.daddr == ifi.if_addr)
    then (k1, s, accept)
    else forward s indev (kaodv_expl_get s.iph.daddr k1) k1

-- A packet without usable route waits; the daemon is asked for one if no other packet waits for it.
unfoldable pub await_route : Skb → Module → Module × Skb × Fate
unfolding kaodv_queue_find kaodv_netlink_send_rt_msg kaodv_queue_enqueue_packet
await_route s k =
    let k1 =
      if kaodv_queue_find s.iph.daddr k
      then k
      else kaodv_netlink_send_rt_msg kaodvm_route_req 0 s.iph.daddr k in
    ((kaodv_queue_enqueue_packet s k1).0, s, stolen)

-- The case NF_INET_LOCAL_OUT, with the route.
unfoldable pub leave : Platform → Skb → ℕ → Option ExplEntry → Module → Module × Skb × Fate
unfolding await_route kaodv_update_route_timeouts ip_pkt_encapsulate
leave os s outdev none k = await_route s k
leave os s outdev (some e) k =
    if not (bit_and e.flags kaodv_rt_repair == 0)
    then await_route s k
    else if bit_and e.flags kaodv_rt_gw_encap == 0
    then (k, s, accept)
    else (
      kaodv_update_route_timeouts os local_out outdev s k,
      os.route_me_harder (ip_pkt_encapsulate os s e.nhop),
      accept,
    )

-- Broadcast and multicast packets.
abbrev pub to_many : Skb → IfInfo → Bool
to_many s ifi =
    (s.iph.daddr == inaddr_broadcast) || in_multicast s.iph.daddr || (s.iph.daddr == ifi.bc_addr)

-- A packet that is no control message, at a device that is one of the module's or not.
unfoldable pub hook_data :
    Platform → HookNum → Skb → ℕ → ℕ → Option IfInfo → Module → Module × Skb × Fate
unfolding before_routing leave kaodv_expl_get kaodv_update_route_timeouts
hook_data os hook s indev outdev none k = (k, s, accept)
hook_data os hook s indev outdev (some ifi) k =
    if to_many s ifi then (k, s, accept) else elim hook [
      | pre_routing ↦ before_routing os s indev ifi k
      | local_out ↦ leave os s outdev (kaodv_expl_get s.iph.daddr k) k
      | post_routing ↦ (kaodv_update_route_timeouts os post_routing outdev s k, s, accept)
    ]

-- The packet that comes out is the one that the pointer skb has then.
unfoldable pub kaodv_hook : Platform → HookNum → Skb → ℕ → ℕ → Module → Module × Skb × Fate
unfolding is_aodv kaodv_update_route_timeouts hook_data if_info_from_ifindex
kaodv_hook os hook s indev outdev k =
    if is_aodv s
    then (
      if is_pre hook && not (indev == 0) then kaodv_update_route_timeouts os hook indev s k else k,
      s,
      accept,
    )
    else hook_data os hook s indev outdev
        (if_info_from_ifindex (if is_pre hook then indev else outdev) k.ifi_list) k
