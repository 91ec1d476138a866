-- ===== src/Kernel/Events.antt =====
-- The module between two events: a packet at a hook, a message of a process, the end of a process, and
-- the passing of time.
pub mod Bounds
pub mod Messages
pub mod Hooks
pub mod Runs
use embedded_systems_wireles.Base.{ℕ, ◌+◌, ◌%◌, ◌^◌, Bool, List, [], ◌∷◌, pos}
use embedded_systems_wireles.Kernel.{IfInfo, Skb, Platform, Module}
use embedded_systems_wireles.Kernel.Netlink.{
  NlMsg, Payload, kaodv_netlink_rcv_skb, kaodv_netlink_rcv_nl_event,
}
use embedded_systems_wireles.Kernel.Hook.{HookNum, kaodv_hook}

pub data Event : Type 0 where
  packet : HookNum → Skb → ℕ → ℕ → Event
  message : NlMsg → Payload → Bool → ℕ → Event
  release : ℕ → Event
  ticks : ℕ → Event

unfoldable pub step : Platform → Event → Module → Module
unfolding kaodv_hook kaodv_netlink_rcv_skb kaodv_netlink_rcv_nl_event
step os (packet hook s indev outdev) k = (kaodv_hook os hook s indev outdev k).0
step os (message nlh msg permitted skblen) k = kaodv_netlink_rcv_skb os nlh msg permitted skblen k
step os (release pid) k = kaodv_netlink_rcv_nl_event pid k
step os (ticks n) k = record k { jiffies = (k.jiffies + n) % 2 ^ 64 }

unfoldable pub run : Platform → List Event → Module → Module
unfolding step
run os [] k = k
run os (e ∷ es) k = run os es (step os e k)

-- The module after kaodv_expl_init and kaodv_queue_init, with the defaults of kaodv-mod.c.
abbrev pub loaded : ℕ → List IfInfo → Module
loaded now is = record {
  jiffies = now;
  expl_list = [];
  expl_len = 0;
  queue_list = [];
  queue_total = 0;
  queue_maxlen = 1024;
  ifi_list = is;
  peer_pid = 0;
  active_route_timeout = pos 3000;
  qual_th = pos 0;
  is_gateway = pos 1;
  effects = [];
}
