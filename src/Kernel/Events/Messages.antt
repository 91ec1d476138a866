-- ===== src/Kernel/Events/Messages.antt =====
-- Messages of the daemon, and its end.
use Prim.Native.Nat.{bit_and}
use embedded_systems_wireles.Base.{
  ℕ, ◌+◌, ◌-◌, ◌%◌, ◌^◌, ◌<◌, Bool, true, false, Option, none, some, arith, ℤ, pos, pos_part, ltb,
  ltb_ℤ, ◌≡◌, ap, not, ◌&&◌, is_some, ◌==◌, if◌then◌else◌,
}
use embedded_systems_wireles.Kernel.{RtMsg, Platform, Module}
use embedded_systems_wireles.Kernel.Expl.{
  expl_max_len, kaodv_expl_get, kaodv_expl_add, kaodv_expl_del, kaodv_expl_flush,
}
use embedded_systems_wireles.Kernel.Expl.Invariant.{
  new_route, kaodv_expl_get-add, kaodv_expl_flush-ExplOk, flush_from_lem,
}
use embedded_systems_wireles.Kernel.Queue.{
  kaodv_queue_set_verdict, kaodv_queue_flush, kaodv_queue_drop,
}
use embedded_systems_wireles.Kernel.Queue.Loops.{others}
use embedded_systems_wireles.Kernel.Queue.Verdict.{QueueOk, set_verdict_send_lem}
use embedded_systems_wireles.Kernel.Netlink.{
  kaodvm_addroute, kaodvm_delroute, kaodvm_noroute_found, kaodvm_config, rt_msg_size, conf_msg_size,
  Payload, NlMsg, add_route, kaodv_netlink_receive_peer, answer_peer, refusal, heed,
  kaodv_netlink_rcv_skb, kaodv_netlink_rcv_nl_event,
}
use embedded_systems_wireles.Kernel.Netlink.Errors.{add_route_lem}
use embedded_systems_wireles.Kernel.Events.Bounds.{
  add-QueueOk, add-queue_list, Kept, if-Kept, drop_verdict-Kept, send_verdict-Kept, add-Kept,
  delete-Kept, flush_queue-Kept,
}

module _ (n : ℕ) (os : Platform) where
  first-Kept :
      (b : Bool) (x y : Module × ℤ)
      → Kept (n + 1) x.0
      → Kept (n + 1) y.0
      → Kept (n + 1) (if b then x else y).0
  first-Kept true x y p q = p
  first-Kept false x y p q = q

  add_route-Kept :
      (m : RtMsg) (k : Module) → Kept n k → n < 2 ^ 32 - 1 → Kept (n + 1) (add_route os m k).0
  add_route-Kept m k v h = rw (add_route_lem os m k) (
      send_verdict-Kept (n + 1) os m.dst
        (kaodv_expl_add os m.dst m.nhop m.time m.flags m.ifindex k).0
        (add-Kept n os m.dst m.nhop m.time m.flags m.ifindex k v h))

  pub grown : (k : Module) → Kept n k → Kept (n + 1) k
  grown k v = (v.0, v.1, omega (arith, v.2))

  receive_peer-Kept :
      (type : ℕ) (msg : Payload) (len : ℕ) (k : Module)
      → Kept n k
      → n < 2 ^ 32 - 1
      → Kept (n + 1) (kaodv_netlink_receive_peer os type msg len k).0
  unfolding kaodv_netlink_receive_peer
  receive_peer-Kept type msg len k v h =
      let add = add_route-Kept msg.rt k v h in
      let del =
        grown
          (kaodv_queue_set_verdict os kaodv_queue_drop msg.rt.dst (kaodv_expl_del msg.rt.dst k).0).0
          (drop_verdict-Kept n os msg.rt.dst (kaodv_expl_del msg.rt.dst k).0
            (delete-Kept n os msg.rt.dst k v)) in
      let noroute =
        grown (kaodv_queue_set_verdict os kaodv_queue_drop msg.rt.dst k).0
          (drop_verdict-Kept n os msg.rt.dst k v) in
      let same = grown k v in
      let short = ltb len rt_msg_size in
      first-Kept (type == kaodvm_addroute) _ _ (first-Kept short _ _ same add) (
        first-Kept (type == kaodvm_delroute) _ _ (first-Kept short _ _ same del) (
          first-Kept (type == kaodvm_noroute_found) _ _ (first-Kept short _ _ same noroute) (
            first-Kept (type == kaodvm_config) _ _
              (first-Kept (ltb len conf_msg_size) _ _ same same) same)))

  heed-Kept :
      (o : Option ℤ) (nlh : NlMsg) (msg : Payload) (skblen : ℕ) (k : Module)
      → Kept n k
      → n < 2 ^ 32 - 1
      → Kept (n + 1) (heed os o nlh msg skblen k)
  unfolding heed
  heed-Kept (some status) nlh msg skblen k v h = grown k v
  heed-Kept none nlh msg skblen k v h =
      answer-Kept nlh.nlmsg_flags
        (kaodv_netlink_receive_peer os (nlh.nlmsg_type % 256) msg (skblen - 16)
          (record k { peer_pid = pos_part nlh.nlmsg_pid }))
        (receive_peer-Kept (nlh.nlmsg_type % 256) msg (skblen - 16)
          (record k { peer_pid = pos_part nlh.nlmsg_pid }) v h)
    where
      answer-Kept :
          (flags : ℕ) (r : Module × ℤ) → Kept (n + 1) r.0 → Kept (n + 1) (answer_peer flags r)
      answer-Kept flags (x, status) w =
          if-Kept (n + 1) (ltb_ℤ status (pos 0)) _ _ w
            (if-Kept (n + 1) (bit_and flags 4 == 0) _ _ w w)

  pub rcv_skb-Kept :
      (nlh : NlMsg) (msg : Payload) (permitted : Bool) (skblen : ℕ) (k : Module)
      → Kept n k
      → n < 2 ^ 32 - 1
      → Kept (n + 1) (kaodv_netlink_rcv_skb os nlh msg permitted skblen k)
  unfolding kaodv_netlink_rcv_skb
  rcv_skb-Kept nlh msg permitted skblen k v h =
      if-Kept (n + 1) _ _ _ (grown k v)
        (heed-Kept (refusal nlh permitted k.peer_pid) nlh msg skblen k v h)

  pub release-Kept : (pid : ℕ) (k : Module) → Kept n k → Kept n (kaodv_netlink_rcv_nl_event pid k)
  unfolding kaodv_netlink_rcv_nl_event kaodv_queue_flush kaodv_expl_flush
  release-Kept pid k v =
      if-Kept n _ _ _
        (flush_queue-Kept n k.queue_list (kaodv_expl_flush (record k { peer_pid = 0 }))
          (kaodv_expl_flush-ExplOk k v.0)
          (omega (arith, v.2, flush_from_lem k.expl_list k.expl_len v.0.counted v.0.ranged))
          v.1.counted v.1.ranged (omega (arith, v.1.bounded, v.1.ranged)))
        v

-- The message that adds a route makes one for a destination that has none, if there is room. It never
-- changes a route that is there, neither that of its own destination nor another; and no packet for its
-- destination is left in the queue, while all others stay, in order.
pub add_route-expl_get :
    (os : Platform) (m : RtMsg) (a : ℕ) (k : Module)
    → QueueOk k
    → (kaodv_expl_get a (add_route os m k).0 ≡ (
        if (m.dst == a) && not (is_some (kaodv_expl_get m.dst k)) && ltb k.expl_len expl_max_len
        then some (new_route os m.dst m.nhop m.time m.flags m.ifindex k)
        else kaodv_expl_get a k))
      × ((add_route os m k).0.queue_list ≡ others m.dst k.queue_list)
unfolding kaodv_expl_get
add_route-expl_get os m a k v =
    let k1 = (kaodv_expl_add os m.dst m.nhop m.time m.flags m.ifindex k).0 in
    let w = add-QueueOk os m.dst m.nhop m.time m.flags m.ifindex k v in
    (
      rw (add_route_lem os m k, set_verdict_send_lem os m.dst k1 w)
          (kaodv_expl_get-add os m.dst m.nhop m.time m.flags m.ifindex k a),
      rw (add_route_lem os m k, set_verdict_send_lem os m.dst k1 w)
          (ap (λ ss. others m.dst ss) (add-queue_list os m.dst m.nhop m.time m.flags m.ifindex k)),
    )
