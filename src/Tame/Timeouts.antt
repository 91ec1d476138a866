-- ===== src/Tame/Timeouts.antt =====
-- The handlers of timers keep the invariant.
use embedded_systems_wireles.Base.{
  ℕ, ◌%◌, refl, inl, inr, not, ◌&&◌, ◌*◌, Option, none, some, ◌∷◌, leb, ltb, ◌==◌, false,
  if◌then◌else◌, Option-cases,
}
use Prim.Native.Nat.{bit_or}
use embedded_systems_wireles.Timer.{seek_timer}
use embedded_systems_wireles.Message.{
  rreq_size, rerr_calc_size, aodv_broadcast, blacklist_timeout, rreq_retries, net_traversal_time,
  max_repair_ttl,
}
use embedded_systems_wireles.Table.{precursor_list_destroy, unlink, Rt, is_valid, rt_table_find}
use embedded_systems_wireles.Daemon.{
  Daemon, Seek, init_timer, set_handler, route_deleted, emit, rt, modify_rt, set_timeout,
  ifindex2devindex,
}
use embedded_systems_wireles.Socket.{aodv_socket_send}
use embedded_systems_wireles.Seek.{seek_list_find, modify_seek}
use embedded_systems_wireles.PacketQueue.{
  packet_queue_set_verdict, pq_drop, packet_queue_garbage_collect,
}
use embedded_systems_wireles.Route.{rt_table_invalidate, rt_table_delete, dec_active}
use embedded_systems_wireles.Rerr.{rerr_create, count_of, first_prec}
use embedded_systems_wireles.Neighbor.{mark_repair}
use embedded_systems_wireles.Timeout.{
  rreq_create, rreq_send, rreq_blacklist_find, rreq_blacklist_insert, rrep_ack_timeout,
  report_failed, unset_repair, local_repair_timeout, route_expire_timeout, hello_timeout,
  keep_waiting, retry, next_try, wait_time, repair_failed, give_up, route_discovery_timeout,
}
use embedded_systems_wireles.Timer
use embedded_systems_wireles.Timer.{Timers, rt_timer, bl_timer}
use embedded_systems_wireles.Tame.{Tame, On}
use embedded_systems_wireles.Tame.Sends.{
  set_timeout-Tame, init_timer-Tame, set_handler-Tame, if-Tame, send-Tame, for_all_devs-Tame,
  modify_rt-Tame, update_timeout-Tame,
}
use embedded_systems_wireles.Tame.Packets.{
  remove_timers-Tame, invalidate-Tame, seek_list_remove-Tame, settle-Tame, set_verdict-Tame,
}
use embedded_systems_wireles.Tame.Routes.{destroy-Tame, link_break-Tame}

module _ (P : Timers → Type 0) (K : Tame P) where
  pub route_expire-Tame : (a : ℕ) (d : Daemon) → On P d → On P (route_expire_timeout a d)
  unfolding On route_expire_timeout
  route_expire-Tame a d v =
      if-Tame P ((rt a d).hcnt == 1) _ _ (link_break-Tame P K a d v)
        (destroy-Tame P K a (rt_table_invalidate a d) (invalidate-Tame P K a d v))

  pub hello_timeout-Tame : (a : ℕ) (d : Daemon) → On P d → On P (hello_timeout a d)
  unfolding On hello_timeout
  hello_timeout-Tame a d v =
      let test = d.cfg.local_repair && leb (rt a d).hcnt max_repair_ttl in
      if-Tame P (is_valid (rt a d).state && not (rt a d).flags.unidir) _ _
        (link_break-Tame P K a (if test then modify_rt a mark_repair d else d)
          (if-Tame P test (modify_rt a mark_repair d) d (modify_rt-Tame P K a mark_repair d v) v))
        v

  report_failed-Tame : (r : Rt) (d : Daemon) → On P d → On P (report_failed r d)
  unfolding On report_failed rerr_create
  report_failed-Tame r d v =
      let d' = rerr_create false r.dest_addr r.dest_seqno d in
      if-Tame P (r.nprec == 0) _ _ v (
        if-Tame P (r.nprec == 1) _ _
          (send-Tame P K (first_prec r.precursors) (rerr_calc_size (count_of d'.send_buf)) 1
            (ifindex2devindex r.ifindex d'.host) d' v)
          (for_all_devs-Tame P K
            (λ i x. aodv_socket_send aodv_broadcast (rerr_calc_size (count_of x.send_buf)) 1 i x) d'
            (λ i x w. send-Tame P K aodv_broadcast (rerr_calc_size (count_of x.send_buf)) 1 i x w)
            v))

  pub local_repair-Tame : (a : ℕ) (d : Daemon) → On P d → On P (local_repair_timeout a d)
  unfolding On local_repair_timeout
  local_repair-Tame a d v =
      let d1 = modify_rt a unset_repair d in
      let r = rt a d1 in
      let d2 = emit (route_deleted r.dest_addr r.next_hop r.hcnt) d1 in
      let d3 = modify_rt a precursor_list_destroy (report_failed r d2) in
      let t = rt_timer a in
      set_timeout-Tame P K t d.cfg.delete_period (set_handler t Timer.route_delete_timeout d3) refl
        (set_handler-Tame P K t Timer.route_delete_timeout d3 refl (report_failed-Tame r d2 v))

  pub ack_timeout-Tame : (a : ℕ) (d : Daemon) → On P d → On P (rrep_ack_timeout a d)
  unfolding rrep_ack_timeout rreq_blacklist_insert
  ack_timeout-Tame a d v =
      let b = (rt a d).dest_addr in
      let d1 = record d { rreq_blacklist = b ∷ d.rreq_blacklist } in
      if-Tame P (rreq_blacklist_find b d.rreq_blacklist) _ _ v (
        set_timeout-Tame P K (bl_timer b) (blacklist_timeout d.cfg.ttl_start)
          (init_timer (bl_timer b) Timer.rreq_blacklist_timeout d1) refl
          (init_timer-Tame P K (bl_timer b) Timer.rreq_blacklist_timeout d1 refl (unfold On in v)))

  pub garbage_collect-Tame : (d : Daemon) → On P d → On P (packet_queue_garbage_collect d)
  unfolding packet_queue_garbage_collect
  garbage_collect-Tame d v = settle-Tame P K _ false d.queue d v

  pub keep_waiting-Tame : (a : ℕ) (d : Daemon) → On P d → On P (keep_waiting a d)
  unfolding On keep_waiting
  keep_waiting-Tame a d v = elim (Option-cases (rt_table_find a d.table)) [
    | inl e ↦ rw (e, keep_waiting) v
    | inr (r, e) ↦
        rw (e, keep_waiting)
          (if-Tame P _ _ _ (update_timeout-Tame P K r.dest_addr (2 * net_traversal_time) d v) v)
  ]

  pub rreq_send-Tame :
      (a seqno ttl flags : ℕ) (d : Daemon) → On P d → On P (rreq_send a seqno ttl flags d)
  unfolding On rreq_send rreq_create
  rreq_send-Tame a seqno ttl flags d v =
      let flags' = if d.cfg.rreq_gratuitous then bit_or flags 4 else flags in
      for_all_devs-Tame P K
        (λ i x.
          aodv_socket_send aodv_broadcast rreq_size (ttl % 256) i
            (rreq_create flags' a seqno (x.host.devs i).ipaddr x))
        d
        (λ i x w.
          send-Tame P K aodv_broadcast rreq_size (ttl % 256) i
            (rreq_create flags' a seqno (x.host.devs i).ipaddr x) w)
        v

  retry-Tame : (s : Seek) (d : Daemon) → On P d → On P (retry s d)
  unfolding On retry
  retry-Tame s d v =
      let ring = d.cfg.expanding_ring_search in
      let s' = next_try ring s in
      let d0 = record d { seeking = modify_seek s.dest_addr (λ x. s') d.seeking } in
      let d1 = set_timeout (seek_timer s'.dest_addr) (wait_time ring s') d0 in
      rreq_send-Tame s'.dest_addr s'.dest_seqno s'.ttl s'.flags (keep_waiting s'.dest_addr d1) (
        keep_waiting-Tame s'.dest_addr d1
          (set_timeout-Tame P K (seek_timer s'.dest_addr) (wait_time ring s') d0 refl v))

  repair_failed-Tame : (o : Option Rt) (d : Daemon) → On P d → On P (repair_failed o d)
  unfolding On repair_failed
  repair_failed-Tame none d v = v
  repair_failed-Tame (some r) d v =
      if-Tame P r.flags.repair _ _ (local_repair-Tame r.dest_addr d v) v

  give_up-Tame : (s : Seek) (d : Daemon) → On P d → On P (give_up s d)
  unfolding On give_up
  give_up-Tame s d v =
      let d1 = packet_queue_set_verdict s.dest_addr pq_drop d in
      repair_failed-Tame (rt_table_find s.dest_addr d1.table) _
        (seek_list_remove-Tame P K s.dest_addr d1 (set_verdict-Tame P K s.dest_addr pq_drop d v))

  pub route_discovery-Tame : (a : ℕ) (d : Daemon) → On P d → On P (route_discovery_timeout a d)
  unfolding On route_discovery_timeout
  route_discovery-Tame a d v = elim (Option-cases (seek_list_find a d.seeking)) [
    | inl e ↦ rw (e, route_discovery_timeout) v
    | inr (s, e) ↦
        rw (e, route_discovery_timeout)
          (if-Tame P (ltb s.reqs rreq_retries) _ _ (retry-Tame s d v) (give_up-Tame s d v))
  ]

  pub delete-Tame : (a : ℕ) (d : Daemon) → On P d → On P (rt_table_delete a d)
  unfolding rt_table_delete
  delete-Tame a d v =
      let d1 = record d { table = unlink a d.table } in
      remove_timers-Tame P K a _ (
        if-Tame P (is_valid (rt a d).state)
          (dec_active (emit (route_deleted (rt a d).dest_addr (rt a d).next_hop (rt a d).hcnt) d1))
          d1 (unfold On in v) (unfold On in v))
