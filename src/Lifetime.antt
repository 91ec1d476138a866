-- ===== src/Lifetime.antt =====
-- The lifetimes of routes: rt_table_update_timeout and rt_table_update_route_timeouts of
-- src/routing/routing_table.c.
use embedded_systems_wireles.Base.{
  ℕ, Bool, false, not, ◌&&◌, ◌||◌, Option, none, some, ltb_ℤ, pos, ◌==◌, if◌then◌else◌,
}
use embedded_systems_wireles.Time.{timeval_diff, timeval_add_msec}
use embedded_systems_wireles.Timer.{rt_timer, hello_timer}
use embedded_systems_wireles.Table.{Rt, is_valid, rt_table_find}
use embedded_systems_wireles.Daemon.{Daemon, rt, set_timeout}

-- A valid route's lifetime is never shortened.
unfoldable pub rt_table_update_timeout : ℕ → ℕ → Daemon → Daemon
rt_table_update_timeout addr lifetime d =
    if is_valid (rt addr d).state
    then (if ltb_ℤ
          (timeval_diff (d.timers.cell (rt_timer addr)).timeout (timeval_add_msec d.now lifetime))
          (pos 0)
        then set_timeout (rt_timer addr) lifetime d
        else d)
    else set_timeout (rt_timer addr) lifetime d

-- `rt_table_update_timeout` of the next hop of `r`, if it is valid and not `r` itself.
unfoldable pub refresh_next_hop : Rt → Bool → Daemon → Daemon
unfolding rt_table_update_timeout
refresh_next_hop r wanted d = elim (rt_table_find r.next_hop d.table) [
  | none ↦ d
  | some hop ↦
      if is_valid hop.state && not (hop.dest_addr == r.dest_addr) && wanted
      then rt_table_update_timeout hop.dest_addr d.cfg.active_route_timeout d
      else d
]

unfoldable pub hello_used : Rt → Daemon → Bool
hello_used r d = (d.timers.cell (hello_timer r.dest_addr)).used

unfoldable pub refresh : Rt → Bool → Daemon → Daemon
unfolding hello_used rt_table_update_timeout
refresh r inet d =
    if d.cfg.llfeedback || inet || not (r.hcnt == 1) || hello_used r d
    then rt_table_update_timeout r.dest_addr d.cfg.active_route_timeout d
    else d

unfoldable pub refresh_route : Rt → Bool → Daemon → Daemon
unfolding refresh refresh_next_hop hello_used
refresh_route r inet d =
    if is_valid r.state
    then (let d' = refresh r inet d in refresh_next_hop r (d'.cfg.llfeedback || hello_used r d') d')
    else d

unfoldable pub refresh_opt : Option Rt → (Rt → Bool) → Daemon → Daemon
unfolding refresh_route
refresh_opt none inet d = d
refresh_opt (some r) inet d = refresh_route r (inet r) d

-- The forward route counts a destination on the Internet as refreshed in any case, the reverse route
-- does not.
unfoldable pub rt_table_update_route_timeouts : Option Rt → Option Rt → Daemon → Daemon
unfolding refresh_opt
rt_table_update_route_timeouts fwd_rt rev_rt d =
    refresh_opt rev_rt (λ r. false) (refresh_opt fwd_rt (λ r. r.flags.inet_dest) d)
