-- ===== src/Kernel/Events/Hooks.antt =====
-- Packets at the hooks.
use Prim.Native.Nat.{bit_and}
use embedded_systems_wireles.Base.{
  ℕ, ◌+◌, Bool, true, false, pos_part, neg_part, not, ◌&&◌, ◌||◌, Option, none, some, ◌==◌,
  if◌then◌else◌,
}
use embedded_systems_wireles.Kernel.{ExplEntry, IfInfo, Skb, Platform, Module}
use embedded_systems_wireles.Kernel.Expl.{kaodv_expl_get}
use embedded_systems_wireles.Kernel.Ipenc.{ipproto_mipe}
use embedded_systems_wireles.Kernel.Queue.{kaodv_rt_gw_encap}
use embedded_systems_wireles.Kernel.Netlink.{
  kaodv_netlink_send_rt_msg, kaodv_netlink_send_rt_update_msg, kaodv_netlink_send_rerr_msg,
  kaodvm_repair,
}
use embedded_systems_wireles.Kernel.Hook.{
  HookNum, is_pre, if_info_from_ifindex, renew, renew_hop, renew_route, report_use, update_known,
  kaodv_update_route_timeouts, forward, before_routing, await_route, leave, hook_data, kaodv_hook,
  pre_routing, local_out, post_routing, Fate, to_many, kaodv_rt_repair, is_aodv,
}
use embedded_systems_wireles.Kernel.Events.Bounds.{Kept, if-Kept, enqueue-Kept, update-Kept}

module _ (n : ℕ) (os : Platform) where
  renew-Kept : (dev : ℕ) (e : ExplEntry) (k : Module) → Kept n k → Kept n (renew os dev e k)
  unfolding renew
  renew-Kept dev e k v = update-Kept n os e.daddr e.nhop k.active_route_timeout e.flags dev k v

  renew_route-Kept :
      (dev : ℕ) (o : Option ExplEntry) (k : Module) → Kept n k → Kept n (renew_route os dev o k)
  unfolding renew_route
  renew_route-Kept dev none k v = v
  renew_route-Kept dev (some e) k v =
      let k1 = renew os dev e k in
      let w = renew-Kept dev e k v in if-Kept n _ _ _ w (hop-Kept (kaodv_expl_get e.nhop k1) k1 w)
    where
      hop-Kept : (o : Option ExplEntry) (x : Module) → Kept n x → Kept n (renew_hop os dev o x)
      hop-Kept none x w = unfold renew_hop in w
      hop-Kept (some h) x w = unfold renew_hop in renew-Kept dev h x w

  report_use-Kept :
      (hook : HookNum) (dev : ℕ) (ifi : IfInfo) (s : Skb) (k : Module)
      → Kept n k
      → Kept n (report_use hook dev ifi s k)
  unfolding report_use kaodv_netlink_send_rt_update_msg
  report_use-Kept hook dev ifi s k v = if-Kept n (is_pre hook) _ _ v (if-Kept n _ _ _ v v)

  timeouts-Kept :
      (hook : HookNum) (dev : ℕ) (s : Skb) (k : Module)
      → Kept n k
      → Kept n (kaodv_update_route_timeouts os hook dev s k)
  unfolding kaodv_update_route_timeouts
  timeouts-Kept hook dev s k v = known-Kept (if_info_from_ifindex dev k.ifi_list)
    where
      known-Kept : (o : Option IfInfo) → Kept n (update_known os hook dev o s k)
      known-Kept none = unfold update_known in v
      known-Kept (some ifi) =
          unfold update_known in
          let k1 = report_use hook dev ifi s k in
          let k2 = renew_route os dev (kaodv_expl_get s.iph.daddr k1) k1 in
          renew_route-Kept dev (kaodv_expl_get s.iph.saddr k2) k2 (
            renew_route-Kept dev (kaodv_expl_get s.iph.daddr k1) k1
              (report_use-Kept hook dev ifi s k v))

  if-Kept₃ :
      (b : Bool) (x y : Module × Skb × Fate)
      → Kept n x.0
      → Kept n y.0
      → Kept n (if b then x else y).0
  if-Kept₃ true x y p q = p
  if-Kept₃ false x y p q = q

  forward-Kept :
      (s : Skb) (indev : ℕ) (o : Option ExplEntry) (k : Module)
      → Kept n k
      → Kept n (forward s indev o k).0
  unfolding forward kaodv_netlink_send_rerr_msg kaodv_netlink_send_rt_msg
  forward-Kept s indev none k v = v
  forward-Kept s indev (some e) k v =
      if-Kept₃ (bit_and e.flags kaodv_rt_repair == 0) _ _ v
        (enqueue-Kept n s (kaodv_netlink_send_rt_msg kaodvm_repair s.iph.saddr s.iph.daddr k) v)

  before_routing-Kept :
      (s : Skb) (indev : ℕ) (ifi : IfInfo) (k : Module)
      → Kept n k
      → Kept n (before_routing os s indev ifi k).0
  unfolding before_routing
  before_routing-Kept s indev ifi k v =
      let k1 = kaodv_update_route_timeouts os pre_routing indev s k in
      let w = timeouts-Kept pre_routing indev s k v in
      if-Kept₃
        (not (pos_part k1.is_gateway + neg_part k1.is_gateway == 0)
          && (s.iph.protocol == ipproto_mipe)
          && (s.iph.daddr == ifi.if_addr))
        _ _ w
        (if-Kept₃ ((s.iph.saddr == ifi.if_addr) || (s.iph.daddr == ifi.if_addr)) _ _ w
          (forward-Kept s indev (kaodv_expl_get s.iph.daddr k1) k1 w))

  await_route-Kept : (s : Skb) (k : Module) → Kept n k → Kept n (await_route s k).0
  unfolding await_route kaodv_netlink_send_rt_msg
  await_route-Kept s k v = enqueue-Kept n s _ (if-Kept n _ _ _ v v)

  leave-Kept :
      (s : Skb) (outdev : ℕ) (o : Option ExplEntry) (k : Module)
      → Kept n k
      → Kept n (leave os s outdev o k).0
  unfolding leave
  leave-Kept s outdev none k v = await_route-Kept s k v
  leave-Kept s outdev (some e) k v =
      if-Kept₃ (not (bit_and e.flags kaodv_rt_repair == 0)) _ _ (await_route-Kept s k v) (
        if-Kept₃ (bit_and e.flags kaodv_rt_gw_encap == 0) _ _ v
          (timeouts-Kept local_out outdev s k v))

  hook_data-Kept :
      (hook : HookNum) (s : Skb) (indev outdev : ℕ) (o : Option IfInfo) (k : Module)
      → Kept n k
      → Kept n (hook_data os hook s indev outdev o k).0
  unfolding hook_data
  hook_data-Kept hook s indev outdev none k v = v
  hook_data-Kept pre_routing s indev outdev (some ifi) k v =
      if-Kept₃ (to_many s ifi) _ _ v (before_routing-Kept s indev ifi k v)
  hook_data-Kept local_out s indev outdev (some ifi) k v =
      if-Kept₃ (to_many s ifi) _ _ v (leave-Kept s outdev (kaodv_expl_get s.iph.daddr k) k v)
  hook_data-Kept post_routing s indev outdev (some ifi) k v =
      if-Kept₃ (to_many s ifi) _ _ v (timeouts-Kept post_routing outdev s k v)

  pub kaodv_hook-Kept :
      (hook : HookNum) (s : Skb) (indev outdev : ℕ) (k : Module)
      → Kept n k
      → Kept n (kaodv_hook os hook s indev outdev k).0
  unfolding kaodv_hook
  kaodv_hook-Kept hook s indev outdev k v =
      if-Kept₃ (is_aodv s) _ _ (if-Kept n _ _ _ (timeouts-Kept hook indev s k v) v) (
        hook_data-Kept hook s indev outdev
          (if_info_from_ifindex (if is_pre hook then indev else outdev) k.ifi_list) k v)
