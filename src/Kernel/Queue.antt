-- ===== src/Kernel/Queue.antt =====
-- kernel/kaodv-queue.c: packets that wait for a route. The list stands from its tail on, the way
-- list_for_each_prev goes through it, so that list_add puts a packet last. The destination in rt_info is
-- the one of the packet's header, which does not change while it waits.
pub mod Loops
pub mod Verdict
use embedded_systems_wireles.Base.{
  ℕ, zero, suc, ◌+◌, Bool, true, false, ◌||◌, Option, none, some, List, [], ◌∷◌, ◌++◌, ℤ, pos,
  length, is_some, leb, ◌==◌, if◌then◌else◌,
}
use Prim.Native.Nat.{bit_and}
use embedded_systems_wireles.Kernel.{
  ExplEntry, Skb, Platform, Module, freed, injected, unreachable, effect, inc32, dec32, enospc, err,
}
use embedded_systems_wireles.Kernel.Expl.{kaodv_expl_get}
use embedded_systems_wireles.Kernel.Ipenc.{ip_pkt_encapsulate}

abbrev pub kaodv_queue_drop : ℕ
kaodv_queue_drop = 1

abbrev pub kaodv_queue_send : ℕ
kaodv_queue_send = 2

abbrev pub kaodv_rt_gw_encap : ℕ
kaodv_rt_gw_encap = 1

unfoldable pub kaodv_queue_enqueue_packet : Skb → Module → Module × ℤ
kaodv_queue_enqueue_packet skb k = if leb k.queue_maxlen k.queue_total then (k, err enospc) else (
  record k { queue_list = k.queue_list ++ skb ∷ []; queue_total = inc32 k.queue_total },
  pos 0,
)

-- The first packet for the destination, and the list without it.
unfoldable pub take_first : ℕ → List Skb → Option (Skb × List Skb)
take_first daddr [] = none
take_first daddr (s ∷ ss) =
    let rest = take_first daddr ss in
    if s.iph.daddr == daddr
    then some (s, ss)
    else elim rest [ none ↦ none | some (t, ts) ↦ some (t, s ∷ ts) ]

-- kaodv_queue_find_dequeue_entry with dest_cmp.
unfoldable pub find_dequeue : ℕ → Module → Option (Skb × Module)
unfolding take_first
find_dequeue daddr k = elim (take_first daddr k.queue_list) [
  | none ↦ none
  | some (s, ss) ↦ some (s, record k { queue_list = ss; queue_total = dec32 k.queue_total })
]

unfoldable pub waits_for : ℕ → List Skb → Bool
waits_for daddr [] = false
waits_for daddr (s ∷ ss) = (s.iph.daddr == daddr) || waits_for daddr ss

unfoldable pub kaodv_queue_find : ℕ → Module → Bool
unfolding waits_for
kaodv_queue_find daddr k = waits_for daddr k.queue_list

-- What is done with a packet of a destination without route; the first one is reported.
unfoldable pub drop_skb : Skb → ℕ → Module → Module
drop_skb s pkts k = effect (freed s) (if pkts == 0 then effect (unreachable s) k else k)

-- `n` rounds of the loop for KAODV_QUEUE_DROP.
unfoldable pub drop_loop : ℕ → ℕ → ℕ → Module → Module × ℕ
unfolding find_dequeue drop_skb
drop_loop zero daddr pkts k = (k, pkts)
drop_loop (suc n) daddr pkts k = elim (find_dequeue daddr k) [
  | none ↦ (k, pkts)
  | some (s, k1) ↦ drop_loop n daddr (pkts + 1) (drop_skb s pkts k1)
]

-- The packet that goes on over a route.
unfoldable pub routed : Platform → ExplEntry → Skb → Skb
unfolding ip_pkt_encapsulate
routed os e s =
    os.route_me_harder
      (if bit_and e.flags kaodv_rt_gw_encap == 0 then s else ip_pkt_encapsulate os s e.nhop)

unfoldable pub send_skb : Platform → Option ExplEntry → Skb → Module → Module
unfolding routed
send_skb os none s k = effect (freed s) k
send_skb os (some e) s k = effect (injected (routed os e s)) k

-- `n` rounds of the loop for KAODV_QUEUE_SEND.
unfoldable pub send_loop : Platform → ℕ → ℕ → ℕ → Module → Module × ℕ
unfolding find_dequeue send_skb kaodv_expl_get
send_loop os zero daddr pkts k = (k, pkts)
send_loop os (suc n) daddr pkts k = elim (find_dequeue daddr k) [
  | none ↦ (k, pkts)
  | some (s, k1) ↦
      send_loop os n daddr (if is_some (kaodv_expl_get daddr k1) then pkts + 1 else pkts)
        (send_skb os (kaodv_expl_get daddr k1) s k1)
]

-- The loops end when no packet for the destination is left: a round more than the list has packets.
unfoldable pub kaodv_queue_set_verdict : Platform → ℕ → ℕ → Module → Module × ℕ
unfolding drop_loop send_loop
kaodv_queue_set_verdict os verdict daddr k =
    let rounds = suc (length k.queue_list) in
    if verdict == kaodv_queue_drop
    then drop_loop rounds daddr 0 k
    else if verdict == kaodv_queue_send
    then send_loop os rounds daddr 0 k
    else (k, 0)

-- __kaodv_queue_flush takes the packets one by one from the tail.
unfoldable pub flush_queue : List Skb → Module → Module
flush_queue [] k = record k { queue_list = [] }
flush_queue (s ∷ ss) k =
    flush_queue ss (effect (freed s) (record k { queue_total = dec32 k.queue_total }))

unfoldable pub kaodv_queue_flush : Module → Module
unfolding flush_queue
kaodv_queue_flush k = flush_queue k.queue_list k
