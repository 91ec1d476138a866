-- ===== src/Neighbor.antt =====
-- neighbor_link_break of src/protocol/aodv_neighbor.c: the loss of a neighbour and of the routes over
-- it. (neighbor_add stands with the HELLO messages.)
pub mod Break
use embedded_systems_wireles.Base.{
  ℕ, Bool, true, false, not, ◌&&◌, List, [], ◌∷◌, leb, ◌==◌, if◌then◌else◌,
}
use embedded_systems_wireles.Message.{max_repair_ttl}
use embedded_systems_wireles.Table.{Rt, is_valid, precursor_list_destroy, all_dests}
use embedded_systems_wireles.Daemon.{Daemon, rt, modify_rt}
use embedded_systems_wireles.Route.{rt_table_invalidate}
use embedded_systems_wireles.Rerr.{Pending, no_rerr, report, send_rerr}

unfoldable pub mark_repair : Rt → Rt
mark_repair r = record r { flags = record (r.flags) { repair = true } }

-- A route over the lost neighbour `addr`: kept for repair if the neighbour is and the destination is
-- near; otherwise invalidated and reported to its precursors, which are then forgotten.
unfoldable pub break_over : ℕ → ℕ → Pending × Daemon → Pending × Daemon
break_over addr u (e, d) =
    if (rt addr d).flags.repair && leb (rt u d).hcnt max_repair_ttl
    then (e, rt_table_invalidate u (modify_rt u mark_repair d))
    else (let d1 = rt_table_invalidate u d in
        let r = rt u d1 in
        let (e', d2) = if r.nprec == 0 then (e, d1) else report false r (e, d1) in
        (e', modify_rt u precursor_list_destroy d2))

unfoldable pub break_each : ℕ → List ℕ → Pending × Daemon → Pending × Daemon
unfolding break_over
break_each addr [] p = p
break_each addr (u ∷ us) (e, d) = break_each addr us (
    if is_valid (rt u d).state
      && ((rt u d).next_hop == (rt addr d).dest_addr)
      && not ((rt u d).dest_addr == (rt addr d).dest_addr)
    then break_over addr u (e, d)
    else (e, d))

-- The lost neighbour itself, unless it is to be repaired.
unfoldable pub break_link : ℕ → Daemon → Pending × Daemon
break_link addr d =
    let d1 = rt_table_invalidate addr d in
    let r = rt addr d1 in
    let (e, d2) =
      if not (r.nprec == 0) && not r.flags.repair
      then report false r (no_rerr, d1)
      else (no_rerr, d1) in
    (e, if r.flags.repair then d2 else modify_rt addr precursor_list_destroy d2)

unfoldable pub neighbor_link_break : ℕ → Daemon → Daemon
unfolding break_link break_each
neighbor_link_break addr d =
    if (rt addr d).hcnt == 1
    then (let p = break_link addr d in send_rerr (break_each addr (all_dests (p.1).table) p))
    else d
