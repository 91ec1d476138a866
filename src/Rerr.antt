-- ===== src/Rerr.antt =====
-- src/protocol/aodv_rerr.c: route errors.
pub mod Frame
pub mod Process
use embedded_systems_wireles.Base.{
  ℕ, zero, suc, ◌+◌, ◌%◌, Bool, true, false, not, ◌&&◌, none, some, List, [], ◌∷◌, ◌==◌, ltb,
  if◌then◌else◌,
}
use embedded_systems_wireles.Message.{Msg, Rerr, rerr, rerr_calc_size, aodv_broadcast}
use embedded_systems_wireles.Table.{Rt, is_valid, rt_table_find, precursor_list_destroy}
use embedded_systems_wireles.Daemon.{Daemon, rt, modify_rt, ifindex2devindex}
use embedded_systems_wireles.Socket.{aodv_socket_new_msg, aodv_socket_send, for_all_devs}
use embedded_systems_wireles.Route.{rt_table_invalidate}

-- The flag is RERR_NODELETE.
unfoldable pub rerr_create : Bool → ℕ → ℕ → Daemon → Daemon
rerr_create nodelete dest_addr dest_seqno d =
    aodv_socket_new_msg
      (rerr (record { n = nodelete; dest_count = 1; udests = (dest_addr, dest_seqno) ∷ [] })) d

-- A write at a position; the one behind the last makes the list longer.
unfoldable pub put_udest : List (ℕ × ℕ) → ℕ → ℕ × ℕ → List (ℕ × ℕ)
put_udest [] i u = u ∷ []
put_udest (x ∷ xs) zero u = u ∷ xs
put_udest (x ∷ xs) (suc i) u = x ∷ put_udest xs i u

-- The destination goes behind the first dest_count ones; the counter has 8 bits.
unfoldable pub add_to : ℕ × ℕ → Msg → Msg
unfolding put_udest
add_to u (rerr m) =
    rerr (record m {
      udests = put_udest m.udests m.dest_count u;
      dest_count = (m.dest_count + 1) % 256;
    })
add_to u m = m

unfoldable pub rerr_add_udest : ℕ → ℕ → Daemon → Daemon
unfolding add_to
rerr_add_udest udest udest_seqno d = record d { send_buf = add_to (udest, udest_seqno) d.send_buf }

abbrev pub count_of : Msg → ℕ
count_of (rerr m) = m.dest_count
count_of _ = 0

-- The error under construction: whether there is one, and the address that it could go to alone, or 0.
pub record Pending : Type 0 where
  pub made : Bool
  pub unicast : ℕ

abbrev pub no_rerr : Pending
no_rerr = record { made = false; unicast = 0 }

abbrev pub first_prec : List ℕ → ℕ
first_prec [] = 0
first_prec (p ∷ ps) = p

-- The address for a first destination: its only precursor, or `old`.
abbrev pub lone_precursor : Rt → ℕ → ℕ
lone_precursor r old = if r.nprec == 1 then first_prec r.precursors else old

-- A further destination with another precursor makes the error one for all.
unfoldable pub narrow : ℕ → List ℕ → ℕ
narrow unicast [] = unicast
narrow unicast (p ∷ ps) = let rest = narrow unicast ps in if p == unicast then rest else 0

-- A destination that cannot be reached goes into the error, which is made for the first one.
unfoldable pub report : Bool → Rt → Pending × Daemon → Pending × Daemon
unfolding rerr_create rerr_add_udest narrow
report nodelete r (e, d) =
    if e.made
    then (
      record e { unicast = if e.unicast == 0 then 0 else narrow e.unicast r.precursors },
      rerr_add_udest r.dest_addr r.dest_seqno d,
    )
    else (
      record { made = true; unicast = lone_precursor r e.unicast },
      rerr_create nodelete r.dest_addr r.dest_seqno d,
    )

unfoldable pub broadcast_rerr : Daemon → Daemon
broadcast_rerr d =
    if count_of d.send_buf == 0
    then d
    else for_all_devs
        (λ i x. aodv_socket_send aodv_broadcast (rerr_calc_size (count_of x.send_buf)) 1 i x) d

-- An error about one destination with one precursor goes to it alone, another to all neighbours.
unfoldable pub send_rerr : Pending × Daemon → Daemon
unfolding broadcast_rerr
send_rerr (e, d) =
    if e.made
    then (elim (rt_table_find e.unicast d.table) [
      | none ↦ broadcast_rerr d
      | some r ↦
          if (count_of d.send_buf == 1) && not (e.unicast == 0)
          then aodv_socket_send e.unicast (rerr_calc_size (count_of d.send_buf)) 1
              (ifindex2devindex r.ifindex d.host) d
          else broadcast_rerr d
    ])
    else d

-- A route over the sender of the error is lost: invalidated unless the error says no delete, with
-- the sequence number of the error, reported to its precursors, which are then forgotten.
unfoldable pub lose_route : Bool → ℕ → ℕ → Pending × Daemon → Pending × Daemon
unfolding report
lose_route nodelete addr seqno (e, d) =
    let d1 =
      modify_rt addr (λ r. record r { dest_seqno = seqno })
        (if nodelete then d else rt_table_invalidate addr d) in
    let r = rt addr d1 in
    let (e', d2) =
      if not (r.nprec == 0) && not r.flags.repair then report nodelete r (e, d1) else (e, d1) in
    (e', if is_valid (rt addr d2).state then d2 else modify_rt addr precursor_list_destroy d2)

unfoldable pub process_udest : Bool → ℕ → ℕ × ℕ → Pending × Daemon → Pending × Daemon
unfolding lose_route
process_udest nodelete ip_src (addr, seqno) (e, d) = elim (rt_table_find addr d.table) [
  | none ↦ (e, d)
  | some r ↦
      if is_valid r.state && (r.next_hop == ip_src)
      then lose_route nodelete addr seqno (e, d)
      else (e, d)
]

unfoldable pub process_udests : Bool → ℕ → List (ℕ × ℕ) → Pending × Daemon → Pending × Daemon
unfolding process_udest
process_udests nodelete ip_src [] p = p
process_udests nodelete ip_src (u ∷ us) p =
    process_udests nodelete ip_src us (process_udest nodelete ip_src u p)

-- The list of the message holds the dest_count destinations of the packet.
unfoldable pub rerr_process : Rerr → ℕ → ℕ → Daemon → Daemon
unfolding process_udests send_rerr
rerr_process m rerrlen ip_src d =
    if ltb rerrlen (rerr_calc_size m.dest_count)
    then d
    else send_rerr (process_udests m.n ip_src m.udests (no_rerr, d))
