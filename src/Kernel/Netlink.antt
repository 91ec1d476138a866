-- ===== src/Kernel/Netlink.antt =====
-- kernel/kaodv-netlink.c: messages to and from the daemon. Their structs have the sizes of a machine of
-- 64 bits; a struct nlmsghdr has 16 bytes.
pub mod Errors
use embedded_systems_wireles.Base.{
  ℕ, ◌+◌, ◌-◌, Bool, not, ◌&&◌, ◌||◌, Option, none, some, ℤ, pos, ltb, ◌==◌, ◌%◌, ◌^◌, is_some,
  if◌then◌else◌, ltb_ℤ, pos_part,
}
use Prim.Native.Nat.{bit_and}
use embedded_systems_wireles.Kernel.{
  RtMsg, ConfMsg, Platform, Module, broadcast, acked, effect, einval, eperm, ebusy, ecomm, err,
}
use embedded_systems_wireles.Kernel.Expl.{
  kaodv_expl_get, kaodv_expl_add, kaodv_expl_update, kaodv_expl_del, kaodv_expl_flush,
}
use embedded_systems_wireles.Kernel.Queue.{
  kaodv_queue_set_verdict, kaodv_queue_flush, kaodv_queue_drop, kaodv_queue_send,
}

abbrev pub kaodvm_addroute : ℕ
kaodvm_addroute = 101

abbrev pub kaodvm_delroute : ℕ
kaodvm_delroute = 102

abbrev pub kaodvm_route_req : ℕ
kaodvm_route_req = 104

abbrev pub kaodvm_repair : ℕ
kaodvm_repair = 105

abbrev pub kaodvm_noroute_found : ℕ
kaodvm_noroute_found = 106

abbrev pub kaodvm_route_update : ℕ
kaodvm_route_update = 107

abbrev pub kaodvm_send_rerr : ℕ
kaodvm_send_rerr = 108

abbrev pub kaodvm_config : ℕ
kaodvm_config = 109

abbrev pub rt_msg_size : ℕ
rt_msg_size = 32

abbrev pub conf_msg_size : ℕ
conf_msg_size = 12

-- PKT_INBOUND and PKT_OUTBOUND.
abbrev pub pkt_inbound : ℕ
pkt_inbound = 1

abbrev pub pkt_outbound : ℕ
pkt_outbound = 2

-- A struct kaodv_rt_msg of which all but four fields are zero.
abbrev pub rt_msg : ℕ → ℕ → ℕ → ℕ → RtMsg
rt_msg kind src dest ifindex = record {
  kind = kind;
  src = src;
  dst = dest;
  nhop = 0;
  flags = 0;
  ifindex = ifindex;
  time = pos 0;
}

unfoldable pub kaodv_netlink_send_rt_msg : ℕ → ℕ → ℕ → Module → Module
kaodv_netlink_send_rt_msg kind src dest k = effect (broadcast kind (rt_msg 0 src dest 0)) k

unfoldable pub kaodv_netlink_send_rt_update_msg : ℕ → ℕ → ℕ → ℕ → Module → Module
kaodv_netlink_send_rt_update_msg kind src dest ifindex k =
    effect (broadcast kaodvm_route_update (rt_msg kind src dest ifindex)) k

unfoldable pub kaodv_netlink_send_rerr_msg : ℕ → ℕ → ℕ → ℕ → Module → Module
kaodv_netlink_send_rerr_msg kind src dest ifindex k =
    effect (broadcast kaodvm_send_rerr (rt_msg kind src dest ifindex)) k

-- What follows the header of a message, read as either struct.
pub record Payload : Type 0 where
  pub rt : RtMsg
  pub conf : ConfMsg

-- The case KAODVM_ADDROUTE; kaodv_expl_get returns 1 or 0, so `ret < 0` never holds.
unfoldable pub add_route : Platform → RtMsg → Module → Module × ℤ
unfolding kaodv_expl_get kaodv_expl_add kaodv_expl_update kaodv_queue_set_verdict
add_route os m k =
    let got = if is_some (kaodv_expl_get m.dst k) then pos 1 else pos 0 in
    let (k1, ret) =
      if ltb_ℤ got (pos 0)
      then kaodv_expl_update os m.dst m.nhop m.time m.flags m.ifindex k
      else kaodv_expl_add os m.dst m.nhop m.time m.flags m.ifindex k in
    ((kaodv_queue_set_verdict os kaodv_queue_send m.dst k1).0, ret)

unfoldable pub kaodv_netlink_receive_peer : Platform → ℕ → Payload → ℕ → Module → Module × ℤ
unfolding add_route kaodv_expl_del kaodv_queue_set_verdict
kaodv_netlink_receive_peer os type msg len k =
    if type == kaodvm_addroute
    then if ltb len rt_msg_size then (k, err einval) else add_route os msg.rt k
    else if type == kaodvm_delroute
    then if ltb len rt_msg_size then (k, err einval) else (
      (kaodv_queue_set_verdict os kaodv_queue_drop msg.rt.dst (kaodv_expl_del msg.rt.dst k).0).0,
      pos 0,
    )
    else if type == kaodvm_noroute_found
    then if ltb len rt_msg_size
      then (k, err einval)
      else ((kaodv_queue_set_verdict os kaodv_queue_drop msg.rt.dst k).0, pos 0)
    else if type == kaodvm_config
    then if ltb len conf_msg_size then (k, err einval) else (
      record k {
        active_route_timeout = msg.conf.active_route_timeout;
        qual_th = msg.conf.qual_th;
        is_gateway = msg.conf.is_gateway;
      },
      pos 0,
    )
    else (k, err einval)

-- The daemon's socket is closed: NETLINK_URELEASE of a process on NETLINK_AODV.
unfoldable pub kaodv_netlink_rcv_nl_event : ℕ → Module → Module
unfolding kaodv_expl_flush kaodv_queue_flush
kaodv_netlink_rcv_nl_event pid k =
    if not (pid == 0) && (pid == k.peer_pid)
    then kaodv_queue_flush (kaodv_expl_flush (record k { peer_pid = 0 }))
    else k

-- struct nlmsghdr.
pub record NlMsg : Type 0 where
  pub nlmsg_len : ℕ
  pub nlmsg_type : ℕ
  pub nlmsg_flags : ℕ
  pub nlmsg_pid : ℤ

abbrev pub nlmsghdr_size : ℕ
nlmsghdr_size = 16

-- NLM_F_REQUEST, NLM_F_MULTI, NLM_F_ACK and MSG_TRUNC.
abbrev pub nlm_f_request : ℕ
nlm_f_request = 1

abbrev pub nlm_f_multi : ℕ
nlm_f_multi = 2

abbrev pub nlm_f_ack : ℕ
nlm_f_ack = 4

abbrev pub msg_trunc : ℕ
msg_trunc = 0x20

-- The status of receive_peer, and the answer.
abbrev pub answer_peer : ℕ → Module × ℤ → Module
answer_peer flags (k, status) =
    if ltb_ℤ status (pos 0)
    then effect (acked status) k
    else if bit_and flags nlm_f_ack == 0
    then k
    else effect (acked (pos 0)) k

-- The tests on the header that come before any use of the message; none is passed.
unfoldable pub refusal : NlMsg → Bool → ℕ → Option ℤ
refusal nlh permitted peer_pid =
    if ltb_ℤ nlh.nlmsg_pid (pos 1)
      || (bit_and nlh.nlmsg_flags nlm_f_request == 0)
      || not (bit_and nlh.nlmsg_flags nlm_f_multi == 0)
    then some (err einval)
    else if not (bit_and nlh.nlmsg_flags msg_trunc == 0)
    then some (err ecomm)
    else if not permitted
    then some (err eperm)
    else if not (peer_pid == 0) && not (peer_pid == pos_part nlh.nlmsg_pid)
    then some (err ebusy)
    else none

-- The rest of the function, with the result of the tests.
unfoldable pub heed : Platform → Option ℤ → NlMsg → Payload → ℕ → Module → Module
unfolding kaodv_netlink_receive_peer
heed os (some status) nlh msg skblen k = effect (acked status) k
heed os none nlh msg skblen k = answer_peer nlh.nlmsg_flags (
    kaodv_netlink_receive_peer os (nlh.nlmsg_type % 256) msg (skblen - nlmsghdr_size)
      (record k { peer_pid = pos_part nlh.nlmsg_pid }))

-- The length of the header is compared as an int, of 2 ^ 31 and more as a negative one.
-- `permitted`: security_netlink_recv lets the sender configure the network.
unfoldable pub kaodv_netlink_rcv_skb : Platform → NlMsg → Payload → Bool → ℕ → Module → Module
unfolding refusal heed
kaodv_netlink_rcv_skb os nlh msg permitted skblen k =
    if ltb skblen nlmsghdr_size
      || ltb nlh.nlmsg_len nlmsghdr_size
      || (ltb nlh.nlmsg_len (2 ^ 31) && ltb skblen nlh.nlmsg_len)
    then k
    else heed os (refusal nlh permitted k.peer_pid) nlh msg skblen k
