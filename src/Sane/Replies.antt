-- ===== src/Sane/Replies.antt =====
-- Route replies.
use embedded_systems_wireles.Base.{
  ℕ, ◌+◌, ◌%◌, ◌≡◌, refl, inl, inr, Bool, false, not, ◌&&◌, ◌||◌, Option, none, some, ltb, ◌==◌,
  if◌then◌else◌, Option-cases,
}
use embedded_systems_wireles.Timer.{hello_timer, ack_timer}
use embedded_systems_wireles.Message.{Rrep, rrep, rrep_size, next_hop_wait, max_ttl}
use embedded_systems_wireles.Table.{Rt, no_flags, valid, is_valid, rt_table_find, precursor_add}
use embedded_systems_wireles.Table.Invariant.{Keeps, Present}
use embedded_systems_wireles.Daemon.{
  Daemon, modify_rt, rt, remove_timer, ifindex2devindex, dev_ipaddr,
}
use embedded_systems_wireles.Socket.{aodv_socket_send, aodv_socket_new_msg}
use embedded_systems_wireles.Route.{rt_table_insert}
use embedded_systems_wireles.Update.{rt_table_update}
use embedded_systems_wireles.Rerr.{rerr_create}
use embedded_systems_wireles.Rrep.{
  rrep_ack_create, rrep_ack_process, start_hellos, mark_unidir, suspect, suspect_next_hop,
  add_precursors, add_precursors_to, rrep_send, rrep_forward, acknowledge, report_longer,
  forward_back, answer, accept_rrep, rrep_process, fresher_rrep, dest_of,
}
use embedded_systems_wireles.Sane.{Sane, Track}
use embedded_systems_wireles.Sane.Sends.{
  if-Sane, cases-Sane, send-Sane, modify_rt-Sane, update_timeout-Sane, set_timeout-Sane,
  remove_timer-Sane, follow, follow-Sane, unfollow-Sane,
}
use embedded_systems_wireles.Sane.Owners.{found-Present, rt_table_find-found}
use embedded_systems_wireles.Table.Entry.{valid_Present}
use embedded_systems_wireles.Neighbor.{neighbor_link_break}
use embedded_systems_wireles.Sane.Packets.{insert-Sane, precursor_add-Keeps}
use embedded_systems_wireles.Sane.Routes.{link_break-Sane, update-Sane}
use embedded_systems_wireles.Sane.Hellos.{hello_start-Sane}

mark_unidir-Keeps : Keeps mark_unidir
unfolding mark_unidir
mark_unidir-Keeps r = (refl, refl, λ h. h)

module _ (rs : Track) where
  start_hellos-Sane : (d : Daemon) → Sane rs d → Sane rs (start_hellos d)
  unfolding start_hellos
  start_hellos-Sane d v =
      if-Sane rs (not d.cfg.llfeedback && d.cfg.optimized_hellos) _ _ (hello_start-Sane rs d v) v

  suspect-Sane : (a : ℕ) (d : Daemon) → Present d.table a → Sane rs d → Sane rs (suspect a d)
  unfolding suspect
  suspect-Sane a d p v =
      let rs' = follow a rs in
      let d1 = modify_rt a mark_unidir d in
      let d2 = neighbor_link_break a (remove_timer (hello_timer a) d1) in
      let w = link_break-Sane rs' a (remove_timer (hello_timer a) d1) (
        remove_timer-Sane rs' (hello_timer a) d1
          (modify_rt-Sane rs' a mark_unidir d mark_unidir-Keeps (follow-Sane a rs d p v))) in
      set_timeout-Sane rs (ack_timer a) next_hop_wait d2 (λ h. w.4.0) (unfollow-Sane a rs d2 w)

  suspect_next_hop-Sane : (r : Rt) (d : Daemon) → Sane rs d → Sane rs (suspect_next_hop r d)
  unfolding suspect_next_hop
  suspect_next_hop-Sane r d v =
      if-Sane rs ((is_valid r.state && r.flags.unidir) || ((r.hcnt == 1) && d.cfg.unidir_hack)) _ _
        (elim (Option-cases (rt_table_find r.next_hop d.table)) [
          | inl e ↦ rw e v
          | inr (n, e) ↦ rw e (
              if-Sane rs (is_valid n.state && not (d.timers.cell (ack_timer n.dest_addr)).used) _ _
                (suspect-Sane n.dest_addr d (found-Present r.next_hop d.table n e) v) v)
        ])
        v

  add_precursors-Sane : (f r : ℕ) (d : Daemon) → Sane rs d → Sane rs (add_precursors f r d)
  unfolding add_precursors
  add_precursors-Sane f r d v =
      let g = precursor_add (rt r d).next_hop in
      modify_rt-Sane rs r _ (modify_rt f g d) (precursor_add-Keeps _)
        (modify_rt-Sane rs f g d (precursor_add-Keeps _) v)

  add_precursors_to-Sane :
      (o : Option ℕ) (r : ℕ) (d : Daemon) → Sane rs d → Sane rs (add_precursors_to o r d)
  unfolding add_precursors_to
  add_precursors_to-Sane none r d v = v
  add_precursors_to-Sane (some f) r d v = add_precursors-Sane f r d v

  -- rrep_send keeps the invariant.
  pub rrep_send-Sane :
      (rev : ℕ) (fwd : Option ℕ) (size : ℕ) (d : Daemon)
      → Sane rs d
      → Sane rs (rrep_send rev fwd size d)
  unfolding rrep_send
  rrep_send-Sane rev fwd size d v =
      let d1 = suspect_next_hop (rt rev d) d in
      let r = rt rev d1 in
      let dev = ifindex2devindex r.ifindex d1.host in
      let d2 = aodv_socket_send r.next_hop size max_ttl dev d1 in
      start_hellos-Sane (add_precursors_to fwd rev d2) (
        add_precursors_to-Sane fwd rev d2
          (send-Sane rs r.next_hop size max_ttl dev d1 (suspect_next_hop-Sane (rt rev d) d v)))

module _ (rs : Track) where
  rrep_forward-Sane :
      (m : Rrep) (size rev fwd ttl : ℕ) (d : Daemon)
      → Present d.table rev
      → Sane rs d
      → Sane rs (rrep_forward m size rev fwd ttl d)
  unfolding rrep_forward
  rrep_forward-Sane m size rev fwd ttl d p v =
      let rs' = follow rev rs in
      let d1 = aodv_socket_new_msg (rrep (record m { hcnt = (rt fwd d).hcnt })) d in
      let r = rt rev d1 in
      let dev = ifindex2devindex r.ifindex d1.host in
      let d2 = aodv_socket_send r.next_hop size ttl dev d1 in
      let d3 = add_precursors fwd rev d2 in
      let w =
        add_precursors-Sane rs' fwd rev d2
          (send-Sane rs' r.next_hop size ttl dev d1 (follow-Sane rev rs d p v)) in
      update_timeout-Sane rs rev d.cfg.active_route_timeout d3 w.4.0 (unfollow-Sane rev rs d3 w)

  report_longer-Sane :
      (fwd : ℕ) (b : Bool) (h : ℕ) (d : Daemon) → Sane rs d → Sane rs (report_longer fwd b h d)
  unfolding report_longer rerr_create
  report_longer-Sane fwd b h d v =
      if-Sane rs (b && ltb h (rt fwd d).hcnt) _ _
        (if-Sane rs ((rt fwd d).nprec == 0) _ _ v (send-Sane rs _ _ 1 _ _ v)) v

  forward_back-Sane :
      (m : Rrep) (size : ℕ) (rev : Option ℕ) (fwd ttl : ℕ) (d : Daemon)
      → Sane rs d
      → Sane rs (forward_back m size rev fwd ttl d)
  unfolding forward_back
  forward_back-Sane m size none fwd ttl d v = v
  forward_back-Sane m size (some rev) fwd ttl d v =
      cases-Sane rs (is_valid (rt rev d).state) (rrep_forward m size rev fwd ttl d) d
        (λ e. rrep_forward-Sane m size rev fwd ttl d (valid_Present rev d.table v.0 e) v) (λ e. v)

  acknowledge-Sane : (a : ℕ) (d : Daemon) → Sane rs d → Sane rs (acknowledge a d)
  unfolding acknowledge rrep_ack_create
  acknowledge-Sane a d v = send-Sane rs _ next_hop_wait max_ttl _ _ v

  answer-Sane :
      (m : Rrep) (len ttl ifindex : ℕ) (rev : Option ℕ) (b : Bool) (h : ℕ) (d : Daemon)
      → Sane rs d
      → Sane rs (answer m len ttl ifindex rev b h d)
  unfolding answer
  answer-Sane m len ttl ifindex rev b h d v =
      let d1 = if m.a then acknowledge m.dest_addr d else d in
      let w = if-Sane rs m.a (acknowledge m.dest_addr d) d (acknowledge-Sane m.dest_addr d v) v in
      let mine = m.orig_addr == dev_ipaddr ifindex d1 in
      let ttl' = (ttl + 255) % 256 in
      let x = report_longer m.dest_addr b h d1 in
      let y = forward_back (record m { a = false }) len rev m.dest_addr ttl' d1 in
      start_hellos-Sane rs (if mine then x else y) (
        if-Sane rs mine x y (report_longer-Sane m.dest_addr b h d1 w)
          (forward_back-Sane (record m { a = false }) len rev m.dest_addr ttl' d1 w))

  accept_rrep-Sane :
      (o : Option Rt) (m : Rrep) (len src ttl ifindex : ℕ) (rev : Option ℕ) (d : Daemon)
      → ((r : Rt) → o ≡ some r → Present d.table m.dest_addr)
      → Sane rs d
      → Sane rs (accept_rrep o m len src ttl ifindex rev d)
  unfolding accept_rrep
  accept_rrep-Sane none m len src ttl ifindex rev d p v =
      answer-Sane m len ttl ifindex rev false 0
        (rt_table_insert m.dest_addr src ((m.hcnt + 1) % 256) m.dest_seqno m.lifetime valid no_flags
          ifindex d)
        (insert-Sane rs m.dest_addr src ((m.hcnt + 1) % 256) m.dest_seqno m.lifetime valid no_flags
          ifindex d v)
  accept_rrep-Sane (some r) m len src ttl ifindex rev d p v =
      if-Sane rs (fresher_rrep m.dest_seqno (m.hcnt + 1) r) _ _
        (answer-Sane m len ttl ifindex rev r.flags.repair r.hcnt
          (rt_table_update m.dest_addr src ((m.hcnt + 1) % 256) m.dest_seqno m.lifetime valid
            r.flags d)
          (update-Sane rs m.dest_addr src ((m.hcnt + 1) % 256) m.dest_seqno m.lifetime valid r.flags
            d (p r refl) v))
        v

  -- rrep_process keeps the invariant.
  pub rrep_process-Sane :
      (m : Rrep) (len src ttl ifindex : ℕ) (d : Daemon)
      → Sane rs d
      → Sane rs (rrep_process m len src ttl ifindex d)
  unfolding rrep_process
  rrep_process-Sane m len src ttl ifindex d v =
      let fwd = rt_table_find m.dest_addr d.table in
      let rev = dest_of (rt_table_find m.orig_addr d.table) in
      if-Sane rs (ltb len rrep_size || (m.dest_addr == dev_ipaddr ifindex d)) d
        (accept_rrep fwd m len src ttl ifindex rev d) v
        (accept_rrep-Sane fwd m len src ttl ifindex rev d
          (λ r e. (rt_table_find-found m.dest_addr d.table r e).1) v)

  pub rrep_ack_process-Sane : (a : ℕ) (d : Daemon) → Sane rs d → Sane rs (rrep_ack_process a d)
  unfolding rrep_ack_process
  rrep_ack_process-Sane a d v = elim (Option-cases (rt_table_find a d.table)) [
    | inl e ↦ rw (e, rrep_ack_process) v
    | inr (r, e) ↦ rw (e, rrep_ack_process) (remove_timer-Sane rs (ack_timer r.dest_addr) d v)
  ]
