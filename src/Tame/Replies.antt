-- ===== src/Tame/Replies.antt =====
-- Route replies.
use embedded_systems_wireles.Base.{
  ℕ, ◌+◌, ◌%◌, refl, inl, inr, Bool, false, not, ◌&&◌, ◌||◌, Option, none, some, ltb, ◌==◌,
  if◌then◌else◌, Option-cases,
}
use embedded_systems_wireles.Timer.{hello_timer, ack_timer}
use embedded_systems_wireles.Message.{Rrep, rrep, rrep_size, next_hop_wait, max_ttl}
use embedded_systems_wireles.Table.{Rt, no_flags, valid, is_valid, rt_table_find}
use embedded_systems_wireles.Daemon.{
  Daemon, modify_rt, rt, remove_timer, ifindex2devindex, dev_ipaddr,
}
use embedded_systems_wireles.Socket.{aodv_socket_send, aodv_socket_new_msg}
use embedded_systems_wireles.Route.{rt_table_insert}
use embedded_systems_wireles.Update.{rt_table_update}
use embedded_systems_wireles.Rerr.{rerr_create}
use embedded_systems_wireles.Neighbor.{neighbor_link_break}
use embedded_systems_wireles.Rrep.{
  rrep_ack_create, rrep_ack_process, start_hellos, mark_unidir, suspect, suspect_next_hop,
  add_precursors, add_precursors_to, rrep_send, rrep_forward, acknowledge, report_longer,
  forward_back, answer, accept_rrep, rrep_process, fresher_rrep, dest_of,
}
use embedded_systems_wireles.Timer.{Timers}
use embedded_systems_wireles.Tame.{Tame, On}
use embedded_systems_wireles.Tame.Sends.{
  set_timeout-Tame, remove_timer-Tame, if-Tame, send-Tame, modify_rt-Tame, update_timeout-Tame,
}
use embedded_systems_wireles.Tame.Packets.{insert-Tame}
use embedded_systems_wireles.Tame.Routes.{link_break-Tame, update-Tame}
use embedded_systems_wireles.Tame.Hellos.{hello_start-Tame}

module _ (P : Timers → Type 0) (K : Tame P) where
  start_hellos-Tame : (d : Daemon) → On P d → On P (start_hellos d)
  unfolding On start_hellos
  start_hellos-Tame d v =
      if-Tame P (not d.cfg.llfeedback && d.cfg.optimized_hellos) _ _ (hello_start-Tame P K d v) v

  suspect-Tame : (a : ℕ) (d : Daemon) → On P d → On P (suspect a d)
  unfolding suspect
  suspect-Tame a d v =
      let d1 = remove_timer (hello_timer a) (modify_rt a mark_unidir d) in
      set_timeout-Tame P K (ack_timer a) next_hop_wait (neighbor_link_break a d1) refl (
        link_break-Tame P K a d1 (
          remove_timer-Tame P K (hello_timer a) (modify_rt a mark_unidir d) refl
            (modify_rt-Tame P K a mark_unidir d v)))

  suspect_next_hop-Tame : (r : Rt) (d : Daemon) → On P d → On P (suspect_next_hop r d)
  unfolding On suspect_next_hop
  suspect_next_hop-Tame r d v =
      if-Tame P ((is_valid r.state && r.flags.unidir) || ((r.hcnt == 1) && d.cfg.unidir_hack)) _ _
        (elim (Option-cases (rt_table_find r.next_hop d.table)) [
          | inl e ↦ rw e v
          | inr (n, e) ↦ rw e (
              if-Tame P (is_valid n.state && not (d.timers.cell (ack_timer n.dest_addr)).used) _ _
                (suspect-Tame n.dest_addr d v) v)
        ])
        v

  add_precursors-Tame : (f r : ℕ) (d : Daemon) → On P d → On P (add_precursors f r d)
  unfolding On add_precursors
  add_precursors-Tame f r d v = v

  add_precursors_to-Tame :
      (o : Option ℕ) (r : ℕ) (d : Daemon) → On P d → On P (add_precursors_to o r d)
  unfolding On add_precursors_to
  add_precursors_to-Tame none r d v = v
  add_precursors_to-Tame (some f) r d v = add_precursors-Tame f r d v

  -- rrep_send keeps the property.
  pub rrep_send-Tame :
      (rev : ℕ) (fwd : Option ℕ) (size : ℕ) (d : Daemon) → On P d → On P (rrep_send rev fwd size d)
  unfolding On rrep_send
  rrep_send-Tame rev fwd size d v =
      let d1 = suspect_next_hop (rt rev d) d in
      let r = rt rev d1 in
      let dev = ifindex2devindex r.ifindex d1.host in
      let d2 = aodv_socket_send r.next_hop size max_ttl dev d1 in
      start_hellos-Tame (add_precursors_to fwd rev d2) (
        add_precursors_to-Tame fwd rev d2
          (send-Tame P K r.next_hop size max_ttl dev d1 (suspect_next_hop-Tame (rt rev d) d v)))

  rrep_forward-Tame :
      (m : Rrep) (size rev fwd ttl : ℕ) (d : Daemon)
      → On P d
      → On P (rrep_forward m size rev fwd ttl d)
  unfolding On rrep_forward
  rrep_forward-Tame m size rev fwd ttl d v =
      let d1 = aodv_socket_new_msg (rrep (record m { hcnt = (rt fwd d).hcnt })) d in
      let r = rt rev d1 in
      let dev = ifindex2devindex r.ifindex d1.host in
      let d2 = aodv_socket_send r.next_hop size ttl dev d1 in
      update_timeout-Tame P K rev d.cfg.active_route_timeout (add_precursors fwd rev d2)
        (add_precursors-Tame fwd rev d2 (send-Tame P K r.next_hop size ttl dev d1 v))

  report_longer-Tame :
      (fwd : ℕ) (b : Bool) (h : ℕ) (d : Daemon) → On P d → On P (report_longer fwd b h d)
  unfolding On report_longer rerr_create
  report_longer-Tame fwd b h d v =
      if-Tame P (b && ltb h (rt fwd d).hcnt) _ _
        (if-Tame P ((rt fwd d).nprec == 0) _ _ v (send-Tame P K _ _ 1 _ _ v)) v

  forward_back-Tame :
      (m : Rrep) (size : ℕ) (rev : Option ℕ) (fwd ttl : ℕ) (d : Daemon)
      → On P d
      → On P (forward_back m size rev fwd ttl d)
  unfolding On forward_back
  forward_back-Tame m size none fwd ttl d v = v
  forward_back-Tame m size (some rev) fwd ttl d v =
      if-Tame P (is_valid (rt rev d).state) _ _ (rrep_forward-Tame m size rev fwd ttl d v) v

  acknowledge-Tame : (a : ℕ) (d : Daemon) → On P d → On P (acknowledge a d)
  unfolding On acknowledge rrep_ack_create
  acknowledge-Tame a d v = send-Tame P K _ next_hop_wait max_ttl _ _ v

  answer-Tame :
      (m : Rrep) (len ttl ifindex : ℕ) (rev : Option ℕ) (b : Bool) (h : ℕ) (d : Daemon)
      → On P d
      → On P (answer m len ttl ifindex rev b h d)
  unfolding On answer
  answer-Tame m len ttl ifindex rev b h d v =
      let d1 = if m.a then acknowledge m.dest_addr d else d in
      let w = if-Tame P m.a (acknowledge m.dest_addr d) d (acknowledge-Tame m.dest_addr d v) v in
      let mine = m.orig_addr == dev_ipaddr ifindex d1 in
      let ttl' = (ttl + 255) % 256 in
      let x = report_longer m.dest_addr b h d1 in
      let y = forward_back (record m { a = false }) len rev m.dest_addr ttl' d1 in
      start_hellos-Tame (if mine then x else y) (
        if-Tame P mine x y (report_longer-Tame m.dest_addr b h d1 w)
          (forward_back-Tame (record m { a = false }) len rev m.dest_addr ttl' d1 w))

  accept_rrep-Tame :
      (o : Option Rt) (m : Rrep) (len src ttl ifindex : ℕ) (rev : Option ℕ) (d : Daemon)
      → On P d
      → On P (accept_rrep o m len src ttl ifindex rev d)
  unfolding On accept_rrep
  accept_rrep-Tame none m len src ttl ifindex rev d v =
      answer-Tame m len ttl ifindex rev false 0
        (rt_table_insert m.dest_addr src ((m.hcnt + 1) % 256) m.dest_seqno m.lifetime valid no_flags
          ifindex d)
        (insert-Tame P K m.dest_addr src ((m.hcnt + 1) % 256) m.dest_seqno m.lifetime valid no_flags
          ifindex d v)
  accept_rrep-Tame (some r) m len src ttl ifindex rev d v =
      if-Tame P (fresher_rrep m.dest_seqno (m.hcnt + 1) r) _ _
        (answer-Tame m len ttl ifindex rev r.flags.repair r.hcnt
          (rt_table_update m.dest_addr src ((m.hcnt + 1) % 256) m.dest_seqno m.lifetime valid
            r.flags d)
          (update-Tame P K m.dest_addr src ((m.hcnt + 1) % 256) m.dest_seqno m.lifetime valid
            r.flags d v))
        v

  -- rrep_process keeps the property.
  pub rrep_process-Tame :
      (m : Rrep) (len src ttl ifindex : ℕ) (d : Daemon)
      → On P d
      → On P (rrep_process m len src ttl ifindex d)
  unfolding On rrep_process
  rrep_process-Tame m len src ttl ifindex d v =
      let fwd = rt_table_find m.dest_addr d.table in
      let rev = dest_of (rt_table_find m.orig_addr d.table) in
      if-Tame P (ltb len rrep_size || (m.dest_addr == dev_ipaddr ifindex d)) d
        (accept_rrep fwd m len src ttl ifindex rev d) v
        (accept_rrep-Tame fwd m len src ttl ifindex rev d v)

  pub rrep_ack_process-Tame : (a : ℕ) (d : Daemon) → On P d → On P (rrep_ack_process a d)
  unfolding rrep_ack_process
  rrep_ack_process-Tame a d v = elim (Option-cases (rt_table_find a d.table)) [
    | inl e ↦ rw (e, rrep_ack_process) v
    | inr (r, e) ↦ rw (e, rrep_ack_process) (remove_timer-Tame P K (ack_timer r.dest_addr) d refl v)
  ]
