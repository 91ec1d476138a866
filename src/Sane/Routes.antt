-- ===== src/Sane/Routes.antt =====
-- Broken links and updated routes.
use embedded_systems_wireles.Base.{
  ℕ, refl, inl, inr, Bool, true, false, not, ◌&&◌, List, [], ◌∷◌, leb, ltb, ◌==◌, if◌then◌else◌,
  Bool-cases, Option-cases,
}
use embedded_systems_wireles.Timer.{hello_timer}
use embedded_systems_wireles.Message.{max_repair_ttl, rerr_calc_size, aodv_broadcast}
use embedded_systems_wireles.Table.{
  Rt, RtState, Flags, is_valid, rt_table_find, precursor_list_destroy, all_dests,
}
use embedded_systems_wireles.Table.Invariant.{Keeps, Present}
use embedded_systems_wireles.Daemon.{Daemon, modify_rt, rt, remove_timer, ifindex2devindex}
use embedded_systems_wireles.Socket.{aodv_socket_send}
use embedded_systems_wireles.Route.{rt_table_invalidate}
use embedded_systems_wireles.Rerr.{
  Pending, no_rerr, report, broadcast_rerr, send_rerr, count_of, rerr_create,
}
use embedded_systems_wireles.Neighbor.{
  mark_repair, break_over, break_each, break_link, neighbor_link_break,
}
use embedded_systems_wireles.Update.{
  announce, forget_hellos, leave_neighborhood, rewrite, relive, rt_table_update, revived_flags,
}
use embedded_systems_wireles.Sane.{Sane, Track}
use embedded_systems_wireles.Sane.Sends.{
  if-Sane, send-Sane, for_all_devs-Sane, modify_rt-Sane, update_timeout-Sane, remove_timer-Sane,
  follow, follow-Sane, unfollow-Sane,
}
use embedded_systems_wireles.Sane.Queue.{send_buffered-Sane}
use embedded_systems_wireles.Sane.Packets.{
  num_active-TableOk, precursor_list_destroy-Keeps, invalidate-Sane,
}

pub mark_repair-Keeps : Keeps mark_repair
unfolding mark_repair
mark_repair-Keeps r = (refl, refl, λ h. h)

pub forget_hellos-Keeps : Keeps forget_hellos
unfolding forget_hellos
forget_hellos-Keeps r = (refl, refl, λ h. h)

module _ (rs : Track) where
  pub report-Sane :
      (b : Bool) (r : Rt) (p : Pending × Daemon) → Sane rs p.1 → Sane rs (report b r p).1
  unfolding report rerr_create
  report-Sane b r p v = elim (Bool-cases p.0.made) [ inl e ↦ rw e v | inr e ↦ rw e v ]

  -- A branch of a loop over a pending error.
  pub if-Sane₁ :
      (b : Bool) (p q : Pending × Daemon)
      → Sane rs p.1
      → Sane rs q.1
      → Sane rs (if b then p else q).1
  if-Sane₁ true p q v w = v
  if-Sane₁ false p q v w = w

  broadcast_rerr-Sane : (d : Daemon) → Sane rs d → Sane rs (broadcast_rerr d)
  unfolding broadcast_rerr
  broadcast_rerr-Sane d v = if-Sane rs (count_of d.send_buf == 0) d _ v (
      for_all_devs-Sane rs
        (λ i x. aodv_socket_send aodv_broadcast (rerr_calc_size (count_of x.send_buf)) 1 i x) d
        (λ i x w. send-Sane rs aodv_broadcast (rerr_calc_size (count_of x.send_buf)) 1 i x w) v)

  pub send_rerr-Sane : (p : Pending × Daemon) → Sane rs p.1 → Sane rs (send_rerr p)
  unfolding send_rerr
  send_rerr-Sane (e, d) v = elim (Bool-cases e.made) [
    | inr h ↦ rw h v
    | inl h ↦ rw h (elim (Option-cases (rt_table_find e.unicast d.table)) [
      | inl n ↦ rw (n, send_rerr) (broadcast_rerr-Sane d v)
      | inr (r, n) ↦
          rw (n, send_rerr)
            (if-Sane rs ((count_of d.send_buf == 1) && not (e.unicast == 0)) _ _
              (send-Sane rs e.unicast (rerr_calc_size (count_of d.send_buf)) 1
                (ifindex2devindex r.ifindex d.host) d v)
              (broadcast_rerr-Sane d v))
    ])
  ]

  pub destroy-Sane :
      (a : ℕ) (d : Daemon) → Sane rs d → Sane rs (modify_rt a precursor_list_destroy d)
  destroy-Sane a d v = modify_rt-Sane rs a precursor_list_destroy d precursor_list_destroy-Keeps v

  pub break_over-Sane :
      (a u : ℕ) (p : Pending × Daemon) → Sane rs p.1 → Sane rs (break_over a u p).1
  unfolding break_over
  break_over-Sane a u (e, d) v =
      let w = invalidate-Sane rs u d v in
      let d1 = rt_table_invalidate u d in
      let p1 = if (rt u d1).nprec == 0 then (e, d1) else report false (rt u d1) (e, d1) in
      if-Sane₁ ((rt a d).flags.repair && leb (rt u d).hcnt max_repair_ttl) _ _
        (invalidate-Sane rs u (modify_rt u mark_repair d)
          (modify_rt-Sane rs u mark_repair d mark_repair-Keeps v))
        (destroy-Sane u p1.1 (
          if-Sane₁ ((rt u d1).nprec == 0) (e, d1) (report false (rt u d1) (e, d1)) w
            (report-Sane false (rt u d1) (e, d1) w)))

  pub break_each-Sane :
      (a : ℕ) (us : List ℕ) (p : Pending × Daemon) → Sane rs p.1 → Sane rs (break_each a us p).1
  unfolding break_each
  break_each-Sane a [] p v = v
  break_each-Sane a (u ∷ us) (e, d) v =
      let test =
        is_valid (rt u d).state
        && ((rt u d).next_hop == (rt a d).dest_addr)
        && not ((rt u d).dest_addr == (rt a d).dest_addr) in
      break_each-Sane a us (if test then break_over a u (e, d) else (e, d))
        (if-Sane₁ test (break_over a u (e, d)) (e, d) (break_over-Sane a u (e, d) v) v)

  pub break_link-Sane : (a : ℕ) (d : Daemon) → Sane rs d → Sane rs (break_link a d).1
  unfolding break_link
  break_link-Sane a d v =
      let w = invalidate-Sane rs a d v in
      let d1 = rt_table_invalidate a d in
      let r = rt a d1 in
      let test = not (r.nprec == 0) && not r.flags.repair in
      let p1 = if test then report false r (no_rerr, d1) else (no_rerr, d1) in
      let w1 =
        if-Sane₁ test (report false r (no_rerr, d1)) (no_rerr, d1)
          (report-Sane false r (no_rerr, d1) w) w in
      if-Sane rs r.flags.repair p1.1 _ w1 (destroy-Sane a p1.1 w1)

  -- neighbor_link_break keeps the invariant.
  pub link_break-Sane : (a : ℕ) (d : Daemon) → Sane rs d → Sane rs (neighbor_link_break a d)
  unfolding neighbor_link_break
  link_break-Sane a d v =
      let p = break_link a d in
      if-Sane rs ((rt a d).hcnt == 1) _ _
        (send_rerr-Sane (break_each a (all_dests (p.1).table) p)
          (break_each-Sane a (all_dests (p.1).table) p (break_link-Sane a d v)))
        v

  pub announce-Sane :
      (a next hops : ℕ) (state : RtState) (d : Daemon)
      → Sane rs d
      → Sane rs (announce a next hops state d)
  unfolding announce
  announce-Sane a next hops state d v =
      if-Sane rs (not (is_valid (rt a d).state) && is_valid state) _ _
        (num_active-TableOk d.table _ v.0, v.1, v.2, v.3, v.4, v.5, v.6)
        (if-Sane rs (not ((rt a d).next_hop == 0) && not ((rt a d).next_hop == next)) _ _ v v)

  pub leave_neighborhood-Sane :
      (a hops : ℕ) (d : Daemon) → Sane rs d → Sane rs (leave_neighborhood a hops d)
  unfolding leave_neighborhood
  leave_neighborhood-Sane a hops d v =
      if-Sane rs (ltb 1 hops && ((rt a d).hcnt == 1)) _ _
        (link_break-Sane a (remove_timer (hello_timer a) (modify_rt a forget_hellos d)) (
          remove_timer-Sane rs (hello_timer a) (modify_rt a forget_hellos d)
            (modify_rt-Sane rs a forget_hellos d forget_hellos-Keeps v)))
        v

  relive-Sane :
      (a : ℕ) (flags : Flags) (life : ℕ) (d : Daemon)
      → Present d.table a
      → Sane rs d
      → Sane rs (relive a flags life d)
  unfolding relive
  relive-Sane a flags life d p v =
      if-Sane rs flags.inet_dest _ _ v (update_timeout-Sane rs a life d p v)

-- rt_table_update of an entry that is there keeps the invariant.
pub updated-Sane :
    (rs : Track) (a next hops seqno life : ℕ) (state : RtState) (flags : Flags) (d : Daemon)
    → Present d.table a
    → Sane rs d
    → Sane (follow a rs) (rt_table_update a next hops seqno life state flags d)
unfolding rt_table_update rewrite
updated-Sane rs a next hops seqno life state flags d p v0 =
    let rs' = follow a rs in
    let v = follow-Sane a rs d p v0 in
    let flags' = revived_flags (rt a d) state flags in
    let d1 = leave_neighborhood a hops (announce a next hops state d) in
    let v1 = leave_neighborhood-Sane rs' a hops _ (announce-Sane rs' a next hops state d v) in
    let d2 = rewrite a next hops seqno flags' d1 in
    let v2 =
      modify_rt-Sane rs' a
        (λ r. record r { flags = flags'; dest_seqno = seqno; next_hop = next; hcnt = hops }) d1
        (λ r. (refl, refl, λ h. h)) v1 in
    send_buffered-Sane rs' a _ (
      modify_rt-Sane rs' a (λ r. record r { state = state }) (relive a flags' life d2)
        (λ r. (refl, refl, λ h. h)) (relive-Sane rs' a flags' life d2 v2.4.0 v2))

pub update-Sane :
    (rs : Track) (a next hops seqno life : ℕ) (state : RtState) (flags : Flags) (d : Daemon)
    → Present d.table a
    → Sane rs d
    → Sane rs (rt_table_update a next hops seqno life state flags d)
update-Sane rs a next hops seqno life state flags d p v =
    unfollow-Sane a rs (rt_table_update a next hops seqno life state flags d)
      (updated-Sane rs a next hops seqno life state flags d p v)
