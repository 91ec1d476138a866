-- ===== src/PacketQueue.antt =====
-- src/network/packet_queue.c: packets that wait for a route. NF_ACCEPT and NF_DROP are the verdicts true
-- and false.
pub mod Bound
use embedded_systems_wireles.Base.{
  ℕ, ◌+◌, ◌-◌, ◌%◌, ◌^◌, Bool, true, false, not, ◌&&◌, Option, none, some, List, [], ◌∷◌, ◌++◌, leb,
  leb_ℤ, pos, ◌==◌, if◌then◌else◌,
}
use embedded_systems_wireles.Time.{timeval_diff}
use embedded_systems_wireles.Timer.{garbage_collect_timer, packet_queue_timeout as gc_handler}
use embedded_systems_wireles.Table.{Rt, is_valid, rt_table_find}
use embedded_systems_wireles.Daemon.{
  Daemon, Packet, Output, verdict, emit, rt, init_timer, set_timeout,
}
use embedded_systems_wireles.Lifetime.{rt_table_update_timeout, refresh_next_hop}

pub data PqVerdict : Type 0 where
  pq_drop pq_send pq_enc_send : PqVerdict

abbrev pub max_queue_length : ℕ
max_queue_length = 512

abbrev pub max_queue_time : ℕ
max_queue_time = 10000

unfoldable pub packet_queue_init : Daemon → Daemon
packet_queue_init d =
    set_timeout garbage_collect_timer 1000
      (init_timer garbage_collect_timer gc_handler (record d { queue = []; queue_len = 0 }))

-- The loops over the queue that take off the packets of a kind, each with its verdict.
unfoldable pub settle : (Packet → Bool) → Bool → List Packet → Daemon → Daemon
settle hit ok [] d = record d { queue = [] }
settle hit ok (p ∷ ps) d =
    let rest = settle hit ok ps in
    if hit p
    then rest (emit (verdict p.packet_id ok) (record d { queue_len = d.queue_len - 1 }))
    else (let d' = rest d in record d' { queue = p ∷ d'.queue })

unfoldable pub packet_queue_destroy : Daemon → Daemon
unfolding settle
packet_queue_destroy d = let d' = settle (λ p. true) false d.queue d in record d' { queue_len = 0 }

-- The oldest packet is dropped when the queue is full.
unfoldable pub make_room : List Packet → Daemon → Daemon
make_room [] d = d
make_room (p ∷ ps) d =
    if leb max_queue_length d.queue_len
    then emit (verdict p.packet_id false) (record d { queue = ps; queue_len = d.queue_len - 1 })
    else d

unfoldable pub packet_queue_add : ℕ → ℕ → Daemon → Daemon
unfolding make_room
packet_queue_add packet_id dest_addr d =
    let d' = make_room d.queue d in
    record d' {
      queue =
          d'.queue ++ record { packet_id = packet_id; dest_addr = dest_addr; q_time = d'.now } ∷ [];
      queue_len = d'.queue_len + 1;
    }

-- The route that the packets go by.
unfoldable pub verdict_route : ℕ → PqVerdict → Daemon → Option Rt
verdict_route dest_addr pq_enc_send d = elim (rt_table_find dest_addr d.table) [
  | some r ↦ some r
  | none ↦ (elim (rt_table_find dest_addr d.table) [
    | some inet ↦ rt_table_find inet.next_hop d.table
    | none ↦ none
  ])
]
verdict_route dest_addr _ d = rt_table_find dest_addr d.table

unfoldable pub refresh_both : Rt → Daemon → Daemon
refresh_both r d =
    if is_valid r.state
    then refresh_next_hop r true (rt_table_update_timeout r.dest_addr d.cfg.active_route_timeout d)
    else d

unfoldable pub packet_queue_set_verdict : ℕ → PqVerdict → Daemon → Daemon
unfolding settle verdict_route refresh_both
packet_queue_set_verdict dest_addr pq_drop d =
    settle (λ p. p.dest_addr == dest_addr) false d.queue d
packet_queue_set_verdict dest_addr v d = elim (verdict_route dest_addr v d) [
  | none ↦ d
  | some r ↦ refresh_both r (settle (λ p. p.dest_addr == dest_addr) true d.queue d)
]

unfoldable pub packet_queue_garbage_collect : Daemon → Daemon
unfolding settle
packet_queue_garbage_collect d =
    settle (λ p. not (leb_ℤ (timeval_diff d.now p.q_time) (pos max_queue_time))) false d.queue d

unfoldable pub packet_queue_timeout : Daemon → Daemon
packet_queue_timeout d = set_timeout garbage_collect_timer 1000 (packet_queue_garbage_collect d)
