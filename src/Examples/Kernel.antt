-- ===== src/Examples/Kernel.antt =====
-- The kernel module with two routes and two packets, and the theorems about its events.
use embedded_systems_wireles.Base.{
  ℕ, ◌+◌, ◌*◌, ◌%◌, ◌≡◌, ◌⊎◌, refl, true, none, some, [], ◌∷◌, pos, negsuc, arith,
}
use embedded_systems_wireles.Kernel.{Skb, Platform, Module, effect, acked, err, einval}
use embedded_systems_wireles.Kernel.Expl.{
  kaodv_expl_get, kaodv_expl_del, kaodv_expl_update, expiry, find_expl,
}
use embedded_systems_wireles.Kernel.Expl.Routes.{Ascending, Distinct}
use embedded_systems_wireles.Kernel.Expl.Invariant.{
  ExplOk, kaodv_expl_get-update, kaodv_expl_get-del,
}
use embedded_systems_wireles.Kernel.Ipenc.{ip_pkt_encapsulate, ip_pkt_decapsulate}
use embedded_systems_wireles.Kernel.Ipenc.Roundtrip.{ip_pkt_decapsulate-encapsulate}
use embedded_systems_wireles.Kernel.Queue.{
  kaodv_queue_set_verdict, kaodv_queue_drop, kaodv_queue_send,
}
use embedded_systems_wireles.Kernel.Queue.Loops.{after, mine, others, dropped, passages}
use embedded_systems_wireles.Kernel.Queue.Verdict.{
  QueueOk, set_verdict_drop_lem, set_verdict_send_lem,
}
use embedded_systems_wireles.Kernel.Netlink.{
  NlMsg, Payload, kaodv_netlink_rcv_skb, add_route, refusal,
}
use embedded_systems_wireles.Kernel.Netlink.Errors.{rcv_skb_refused, rcv_skb_stranger}
use embedded_systems_wireles.Kernel.Hook.{pre_routing, local_out}
use embedded_systems_wireles.Kernel.Events.{packet, message, release, ticks, loaded, run}
use embedded_systems_wireles.Kernel.Events.Messages.{add_route-expl_get}
use embedded_systems_wireles.Kernel.Events.Runs.{WellFormed, run_lem}

-- A checksum over some fields, and a router that changes no packet.
abbrev cpu : Platform
cpu = record {
  hz = 250;
  header_csum = λ h. (h.tot_len + h.id + 256 * h.protocol + h.saddr + h.daddr + h.check) % 65536;
  select_ident = λ h. 77;
  route_me_harder = λ s. s;
}

abbrev ping : ℕ → Skb
ping dest = record {
  iph = record {
    ihl = 5;
    tos = 0;
    tot_len = 24;
    id = 9;
    frag_off = 0;
    ttl = 64;
    protocol = 1;
    check = (24 + 9 + 256 + 1 + dest) % 65536;
    saddr = 1;
    daddr = dest;
    options = [];
  };
  payload = 8 ∷ 0 ∷ 1 ∷ 2 ∷ [];
}

abbrev routes : Module
routes = record (loaded 5000 []) {
  expl_list =
      record { expires = 5100; flags = 0; daddr = 7; nhop = 7; ifindex = 2 }
      ∷ record { expires = 5200; flags = 1; daddr = 9; nhop = 7; ifindex = 2 }
      ∷ [];
  expl_len = 2;
  queue_list = ping 9 ∷ ping 4 ∷ ping 9 ∷ [];
  queue_total = 3;
  peer_pid = 300;
}

routes-ExplOk : ExplOk routes
unfolding Ascending Distinct find_expl
routes-ExplOk = record {
  ascending = (omega arith, (omega arith, tt));
  distinct = (refl, (refl, tt));
  counted = omega arith;
  bounded = omega arith;
  ranged = omega arith;
}

routes-QueueOk : QueueOk routes
routes-QueueOk = record { counted = refl; bounded = omega arith; ranged = omega arith }

ip_pkt_decapsulate-encapsulate_example :
    ip_pkt_decapsulate cpu (ip_pkt_encapsulate cpu (ping 9) 7) ≡ ping 9
ip_pkt_decapsulate-encapsulate_example =
    ip_pkt_decapsulate-encapsulate cpu (ping 9) 7
      (record { daddr_bound = omega arith; tot_len_bound = omega arith; checked = refl })
      (omega arith)

kaodv_expl_get-update_example :
    kaodv_expl_get 7 (kaodv_expl_update cpu 7 7 (pos 3000) 0 2 routes).0
    ≡ some (record { expires = 5750; flags = 0; daddr = 7; nhop = 7; ifindex = 2 })
unfolding kaodv_expl_get expiry
kaodv_expl_get-update_example = kaodv_expl_get-update cpu 7 7 (pos 3000) 0 2 routes 7 routes-ExplOk

kaodv_expl_get-del_example : kaodv_expl_get 9 (kaodv_expl_del 9 routes).0 ≡ none
kaodv_expl_get-del_example = kaodv_expl_get-del 9 9 routes routes-ExplOk

set_verdict_drop_lem_example :
    kaodv_queue_set_verdict cpu kaodv_queue_drop 9 routes
    ≡ (after routes (ping 4 ∷ []) 1 (dropped 0 (ping 9 ∷ ping 9 ∷ [])), 2)
unfolding mine others
set_verdict_drop_lem_example = set_verdict_drop_lem cpu 9 routes routes-QueueOk

set_verdict_send_lem_example : kaodv_queue_set_verdict cpu kaodv_queue_send 9 routes ≡ (
  after routes (ping 4 ∷ []) 1 (passages cpu (kaodv_expl_get 9 routes) (ping 9 ∷ ping 9 ∷ [])),
  2,
)
unfolding mine others kaodv_expl_get
set_verdict_send_lem_example = set_verdict_send_lem cpu 9 routes routes-QueueOk

abbrev request : ℕ → ℕ → NlMsg
request type pid = record {
  nlmsg_len = 48;
  nlmsg_type = type;
  nlmsg_flags = 1;
  nlmsg_pid = pos pid;
}

abbrev add_9 : Payload
add_9 = record {
  rt = record { kind = 0; src = 1; dst = 9; nhop = 8; flags = 0; ifindex = 2; time = pos 1000 };
  conf = record { active_route_timeout = pos 0; qual_th = pos 0; is_gateway = pos 0 };
}

rcv_skb_refused_example :
    kaodv_netlink_rcv_skb cpu (request 100 300) add_9 true 48 routes
    ≡ effect (acked (err einval)) (record routes { peer_pid = 300 })
unfolding refusal
rcv_skb_refused_example = rcv_skb_refused cpu (request 100 300) add_9 true 48 routes refl refl refl

rcv_skb_stranger_example :
    (kaodv_netlink_rcv_skb cpu (request 101 301) add_9 true 48 routes ≡ routes)
    ⊎ ((e : ℕ) × (kaodv_netlink_rcv_skb cpu (request 101 301) add_9 true 48 routes
          ≡ effect (acked (negsuc e)) routes))
rcv_skb_stranger_example =
    rcv_skb_stranger cpu (request 101 301) add_9 true 48 routes (omega arith) (omega arith)

add_route-expl_get_example :
    (kaodv_expl_get 9 (add_route cpu add_9.rt routes).0
      ≡ some (record { expires = 5200; flags = 1; daddr = 9; nhop = 7; ifindex = 2 }))
    × ((add_route cpu add_9.rt routes).0.queue_list ≡ ping 4 ∷ [])
unfolding kaodv_expl_get others
add_route-expl_get_example = add_route-expl_get cpu add_9.rt 9 routes routes-QueueOk

run_lem_example : WellFormed (
    run cpu
      (packet local_out (ping 9) 0 2
        ∷ message (request 101 300) add_9 true 48
        ∷ ticks 100
        ∷ packet pre_routing (ping 9) 2 0
        ∷ release 300
        ∷ [])
      (loaded 5000 (record { dev_ifindex = 2; if_addr = 1; bc_addr = 255 } ∷ [])))
run_lem_example =
    run_lem cpu
      (packet local_out (ping 9) 0 2
        ∷ message (request 101 300) add_9 true 48
        ∷ ticks 100
        ∷ packet pre_routing (ping 9) 2 0
        ∷ release 300
        ∷ [])
      5000 (record { dev_ifindex = 2; if_addr = 1; bc_addr = 255 } ∷ []) (omega arith)
