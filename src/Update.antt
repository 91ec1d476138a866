-- ===== src/Update.antt =====
-- rt_table_update of src/routing/routing_table.c.
pub mod Entry
use embedded_systems_wireles.Base.{ℕ, false, not, ◌&&◌, ltb, ◌==◌, if◌then◌else◌}
use embedded_systems_wireles.Time.{zero_time}
use embedded_systems_wireles.Timer.{rt_timer, hello_timer, route_expire_timeout}
use embedded_systems_wireles.Table.{Flags, RtState, is_valid, Rt}
use embedded_systems_wireles.Daemon.{
  Daemon, route_added, emit, modify_rt, rt, remove_timer, set_handler,
}
use embedded_systems_wireles.Lifetime.{rt_table_update_timeout}
use embedded_systems_wireles.Route.{inc_active, send_buffered}
use embedded_systems_wireles.Neighbor.{neighbor_link_break}

-- `if (rt->flags & RT_REPAIR) flags &= ~RT_REPAIR;` where a route becomes valid again.
unfoldable pub revived_flags : Rt → RtState → Flags → Flags
revived_flags r state flags =
    if not (is_valid r.state) && is_valid state && r.flags.repair
    then record flags { repair = false }
    else flags

-- The kernel hears of a route that becomes valid, and of one that gets another next hop.
unfoldable pub announce : ℕ → ℕ → ℕ → RtState → Daemon → Daemon
announce addr next hops state d =
    let r = rt addr d in
    if not (is_valid r.state) && is_valid state
    then emit (route_added r.dest_addr next hops r.ifindex) (inc_active d)
    else if not (r.next_hop == 0) && not (r.next_hop == next)
    then emit (route_added r.dest_addr next hops r.ifindex) d
    else d

unfoldable pub forget_hellos : Rt → Rt
forget_hellos r = record r { last_hello_time = zero_time; hello_cnt = 0 }

-- A neighbour that moves further away counts as a broken link.
unfoldable pub leave_neighborhood : ℕ → ℕ → Daemon → Daemon
unfolding forget_hellos
leave_neighborhood addr hops d =
    if ltb 1 hops && ((rt addr d).hcnt == 1)
    then neighbor_link_break addr (remove_timer (hello_timer addr) (modify_rt addr forget_hellos d))
    else d

unfoldable pub rewrite : ℕ → ℕ → ℕ → ℕ → Flags → Daemon → Daemon
rewrite addr next hops seqno flags d = set_handler (rt_timer addr) route_expire_timeout (
    modify_rt addr
      (λ r. record r { flags = flags; dest_seqno = seqno; next_hop = next; hcnt = hops }) d)

unfoldable pub relive : ℕ → Flags → ℕ → Daemon → Daemon
relive addr flags lifetime d =
    if flags.inet_dest then d else rt_table_update_timeout addr lifetime d

unfoldable pub rt_table_update : ℕ → ℕ → ℕ → ℕ → ℕ → RtState → Flags → Daemon → Daemon
unfolding announce leave_neighborhood rewrite relive revived_flags
rt_table_update addr next hops seqno lifetime state flags d =
    let flags' = revived_flags (rt addr d) state flags in
    send_buffered addr (
      modify_rt addr (λ r. record r { state = state })
        (relive addr flags' lifetime (
          rewrite addr next hops seqno flags'
            (leave_neighborhood addr hops (announce addr next hops state d)))))
