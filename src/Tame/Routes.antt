-- ===== src/Tame/Routes.antt =====
-- Broken links and updated routes.
use embedded_systems_wireles.Base.{
  ℕ, refl, inl, inr, Bool, true, false, not, ◌&&◌, List, [], ◌∷◌, leb, ltb, ◌==◌, if◌then◌else◌,
  Bool-cases, Option-cases,
}
use embedded_systems_wireles.Timer.{hello_timer}
use embedded_systems_wireles.Message.{max_repair_ttl, rerr_calc_size, aodv_broadcast}
use embedded_systems_wireles.Table.{
  Rt, RtState, Flags, is_valid, rt_table_find, precursor_list_destroy, all_dests,
}
use embedded_systems_wireles.Daemon.{Daemon, modify_rt, rt, remove_timer, ifindex2devindex}
use embedded_systems_wireles.Socket.{aodv_socket_send}
use embedded_systems_wireles.Route.{rt_table_invalidate}
use embedded_systems_wireles.Rerr.{
  Pending, no_rerr, report, broadcast_rerr, send_rerr, count_of, rerr_create,
}
use embedded_systems_wireles.Neighbor.{
  mark_repair, break_over, break_each, break_link, neighbor_link_break,
}
use embedded_systems_wireles.Update.{
  announce, forget_hellos, leave_neighborhood, rewrite, relive, rt_table_update, revived_flags,
}
use embedded_systems_wireles.Timer
use embedded_systems_wireles.Timer.{Timers, rt_timer}
use embedded_systems_wireles.Tame.{Tame, On}
use embedded_systems_wireles.Tame.Sends.{
  remove_timer-Tame, set_handler-Tame, if-Tame, send-Tame, for_all_devs-Tame, modify_rt-Tame,
  update_timeout-Tame,
}
use embedded_systems_wireles.Tame.Packets.{invalidate-Tame, send_buffered-Tame}

module _ (P : Timers → Type 0) (K : Tame P) where
  pub report-Tame : (b : Bool) (r : Rt) (p : Pending × Daemon) → On P p.1 → On P (report b r p).1
  unfolding On report rerr_create
  report-Tame b r p v = elim (Bool-cases p.0.made) [ inl e ↦ rw e v | inr e ↦ rw e v ]

  -- A branch of a loop over a pending error.
  pub if-Tame₁ :
      (b : Bool) (p q : Pending × Daemon) → On P p.1 → On P q.1 → On P (if b then p else q).1
  if-Tame₁ true p q v w = v
  if-Tame₁ false p q v w = w

  broadcast_rerr-Tame : (d : Daemon) → On P d → On P (broadcast_rerr d)
  unfolding On broadcast_rerr
  broadcast_rerr-Tame d v = if-Tame P (count_of d.send_buf == 0) d _ v (
      for_all_devs-Tame P K
        (λ i x. aodv_socket_send aodv_broadcast (rerr_calc_size (count_of x.send_buf)) 1 i x) d
        (λ i x w. send-Tame P K aodv_broadcast (rerr_calc_size (count_of x.send_buf)) 1 i x w) v)

  pub send_rerr-Tame : (p : Pending × Daemon) → On P p.1 → On P (send_rerr p)
  unfolding On send_rerr
  send_rerr-Tame (e, d) v = elim (Bool-cases e.made) [
    | inr h ↦ rw h v
    | inl h ↦ rw h (elim (Option-cases (rt_table_find e.unicast d.table)) [
      | inl n ↦ rw (n, send_rerr) (broadcast_rerr-Tame d v)
      | inr (r, n) ↦
          rw (n, send_rerr)
            (if-Tame P ((count_of d.send_buf == 1) && not (e.unicast == 0)) _ _
              (send-Tame P K e.unicast (rerr_calc_size (count_of d.send_buf)) 1
                (ifindex2devindex r.ifindex d.host) d v)
              (broadcast_rerr-Tame d v))
    ])
  ]

  pub destroy-Tame : (a : ℕ) (d : Daemon) → On P d → On P (modify_rt a precursor_list_destroy d)
  destroy-Tame a d v = modify_rt-Tame P K a precursor_list_destroy d v

  pub break_over-Tame : (a u : ℕ) (p : Pending × Daemon) → On P p.1 → On P (break_over a u p).1
  unfolding On break_over
  break_over-Tame a u (e, d) v =
      let w = invalidate-Tame P K u d v in
      let d1 = rt_table_invalidate u d in
      let p1 = if (rt u d1).nprec == 0 then (e, d1) else report false (rt u d1) (e, d1) in
      if-Tame₁ ((rt a d).flags.repair && leb (rt u d).hcnt max_repair_ttl) _ _
        (invalidate-Tame P K u (modify_rt u mark_repair d) (modify_rt-Tame P K u mark_repair d v))
        (destroy-Tame u p1.1 (
          if-Tame₁ ((rt u d1).nprec == 0) (e, d1) (report false (rt u d1) (e, d1)) w
            (report-Tame false (rt u d1) (e, d1) w)))

  pub break_each-Tame :
      (a : ℕ) (us : List ℕ) (p : Pending × Daemon) → On P p.1 → On P (break_each a us p).1
  unfolding On break_each
  break_each-Tame a [] p v = v
  break_each-Tame a (u ∷ us) (e, d) v =
      let test =
        is_valid (rt u d).state
        && ((rt u d).next_hop == (rt a d).dest_addr)
        && not ((rt u d).dest_addr == (rt a d).dest_addr) in
      break_each-Tame a us (if test then break_over a u (e, d) else (e, d))
        (if-Tame₁ test (break_over a u (e, d)) (e, d) (break_over-Tame a u (e, d) v) v)

  pub break_link-Tame : (a : ℕ) (d : Daemon) → On P d → On P (break_link a d).1
  unfolding On break_link
  break_link-Tame a d v =
      let w = invalidate-Tame P K a d v in
      let d1 = rt_table_invalidate a d in
      let r = rt a d1 in
      let test = not (r.nprec == 0) && not r.flags.repair in
      let p1 = if test then report false r (no_rerr, d1) else (no_rerr, d1) in
      let w1 =
        if-Tame₁ test (report false r (no_rerr, d1)) (no_rerr, d1)
          (report-Tame false r (no_rerr, d1) w) w in
      if-Tame P r.flags.repair p1.1 _ w1 (destroy-Tame a p1.1 w1)

  -- neighbor_link_break keeps the property.
  pub link_break-Tame : (a : ℕ) (d : Daemon) → On P d → On P (neighbor_link_break a d)
  unfolding On neighbor_link_break
  link_break-Tame a d v =
      let p = break_link a d in
      if-Tame P ((rt a d).hcnt == 1) _ _
        (send_rerr-Tame (break_each a (all_dests (p.1).table) p)
          (break_each-Tame a (all_dests (p.1).table) p (break_link-Tame a d v)))
        v

  pub announce-Tame :
      (a next hops : ℕ) (state : RtState) (d : Daemon)
      → On P d
      → On P (announce a next hops state d)
  unfolding On announce
  announce-Tame a next hops state d v =
      if-Tame P (not (is_valid (rt a d).state) && is_valid state) _ _ v
        (if-Tame P (not ((rt a d).next_hop == 0) && not ((rt a d).next_hop == next)) _ _ v v)

  pub leave_neighborhood-Tame :
      (a hops : ℕ) (d : Daemon) → On P d → On P (leave_neighborhood a hops d)
  unfolding On leave_neighborhood
  leave_neighborhood-Tame a hops d v =
      if-Tame P (ltb 1 hops && ((rt a d).hcnt == 1)) _ _
        (link_break-Tame a (remove_timer (hello_timer a) (modify_rt a forget_hellos d))
          (remove_timer-Tame P K (hello_timer a) (modify_rt a forget_hellos d) refl v))
        v

  relive-Tame :
      (a : ℕ) (flags : Flags) (life : ℕ) (d : Daemon) → On P d → On P (relive a flags life d)
  unfolding On relive
  relive-Tame a flags life d v =
      if-Tame P flags.inet_dest _ _ v (update_timeout-Tame P K a life d v)

  -- rt_table_update keeps the property.
  pub update-Tame :
      (a next hops seqno life : ℕ) (state : RtState) (flags : Flags) (d : Daemon)
      → On P d
      → On P (rt_table_update a next hops seqno life state flags d)
  unfolding On rt_table_update rewrite
  update-Tame a next hops seqno life state flags d v =
      let flags' = revived_flags (rt a d) state flags in
      let d1 = leave_neighborhood a hops (announce a next hops state d) in
      let v1 = leave_neighborhood-Tame a hops _ (announce-Tame a next hops state d v) in
      let d2 =
        modify_rt a
          (λ r. record r { flags = flags'; dest_seqno = seqno; next_hop = next; hcnt = hops }) d1 in
      let d3 = rewrite a next hops seqno flags' d1 in
      let v3 = set_handler-Tame P K (rt_timer a) Timer.route_expire_timeout d2 refl v1 in
      send_buffered-Tame P K a
        (modify_rt a (λ r. record r { state = state }) (relive a flags' life d3))
        (relive-Tame a flags' life d3 v3)
