-- ===== src/Tame/Packets.antt =====
-- The packet queue, the seek list and what a route does when it comes or goes.
use embedded_systems_wireles.Base.{
  ℕ, ◌-◌, refl, inl, inr, Bool, true, false, Option, none, some, List, [], ◌∷◌, ◌==◌, Bool-cases,
  is_some,
}
use embedded_systems_wireles.Table.{Rt, RtState, Flags, is_valid, hashing, has_dest}
use embedded_systems_wireles.Daemon.{
  Daemon, Packet, set_handler, init_timer, remove_timer, rt, emit, verdict,
}
use embedded_systems_wireles.Seek.{seek_list_find, seek_list_remove}
use embedded_systems_wireles.PacketQueue.{
  PqVerdict, pq_drop, pq_send, pq_enc_send, settle, refresh_both, verdict_route,
  packet_queue_set_verdict,
}
use embedded_systems_wireles.Route.{
  send_buffered, link_new, start_route, start_timer, insert_new, new_rt, rt_table_insert,
  remove_timers, schedule_end, rt_table_invalidate,
}
use embedded_systems_wireles.Timer
use embedded_systems_wireles.Timer.{Timers, rt_timer, hello_timer, ack_timer, seek_timer}
use embedded_systems_wireles.Tame.{Tame, On}
use embedded_systems_wireles.Tame.Sends.{
  set_timeout-Tame, init_timer-Tame, remove_timer-Tame, set_handler-Tame, if-Tame,
  update_timeout-Tame, refresh_next_hop-Tame,
}

module _ (P : Timers → Type 0) (K : Tame P) where
  pub settle-Tame :
      (hit : Packet → Bool) (ok : Bool) (ps : List Packet) (d : Daemon)
      → On P d
      → On P (settle hit ok ps d)
  unfolding On settle
  settle-Tame hit ok [] d v = v
  settle-Tame hit ok (p ∷ ps) d v =
      if-Tame P (hit p) _ _
        (settle-Tame hit ok ps
          (emit (verdict p.packet_id ok) (record d { queue_len = d.queue_len - 1 })) v)
        (settle-Tame hit ok ps d v)

  refresh_both-Tame : (r : Rt) (d : Daemon) → On P d → On P (refresh_both r d)
  unfolding On refresh_both
  refresh_both-Tame r d v =
      if-Tame P (is_valid r.state) _ _
        (refresh_next_hop-Tame P K r true _
          (update_timeout-Tame P K r.dest_addr d.cfg.active_route_timeout d v))
        v

  verdict_by_route :
      (a : ℕ) (o : Option Rt) (d : Daemon)
      → On P d
      → On P (elim o [
        | none ↦ d
        | some r ↦ refresh_both r (settle (λ p. p.dest_addr == a) true d.queue d)
      ])
  verdict_by_route a none d v = v
  verdict_by_route a (some r) d v = refresh_both-Tame r _ (settle-Tame _ true d.queue d v)

  pub set_verdict-Tame :
      (a : ℕ) (w : PqVerdict) (d : Daemon) → On P d → On P (packet_queue_set_verdict a w d)
  unfolding On packet_queue_set_verdict
  set_verdict-Tame a pq_drop d v = settle-Tame _ false d.queue d v
  set_verdict-Tame a pq_send d v = verdict_by_route a (verdict_route a pq_send d) d v
  set_verdict-Tame a pq_enc_send d v = verdict_by_route a (verdict_route a pq_enc_send d) d v

  pub seek_list_remove-Tame : (a : ℕ) (d : Daemon) → On P d → On P (seek_list_remove a d).0
  unfolding On seek_list_remove
  seek_list_remove-Tame a d v = elim (Bool-cases (is_some (seek_list_find a d.seeking))) [
    | inl e ↦ rw e (remove_timer-Tame P K (seek_timer a) d refl v)
    | inr e ↦ rw e v
  ]

  pub send_buffered-Tame : (a : ℕ) (d : Daemon) → On P d → On P (send_buffered a d)
  unfolding On send_buffered
  send_buffered-Tame a d v =
      let w = seek_list_remove-Tame a d v in
      if-Tame P (is_valid (rt a d).state) _ _
        (if-Tame P (seek_list_remove a d).1 _ _ (set_verdict-Tame a _ (seek_list_remove a d).0 w) w)
        v

  start_route-Tame : (r : Rt) (life : ℕ) (d : Daemon) → On P d → On P (start_route r life d).0
  unfolding On start_route
  start_route-Tame r life d v = elim (Bool-cases (is_valid r.state)) [
    | inl e ↦ rw e v
    | inr e ↦ rw e (elim (Bool-cases r.flags.repair) [
      | inl f ↦
          rw f (set_handler-Tame P K (rt_timer r.dest_addr) Timer.local_repair_timeout d refl v)
      | inr f ↦
          rw f (set_handler-Tame P K (rt_timer r.dest_addr) Timer.route_delete_timeout d refl v)
    ])
  ]

  start_timer-Tame : (r : Rt) (p : Daemon × ℕ) → On P p.0 → On P (start_timer r p)
  unfolding On start_timer
  start_timer-Tame r p v =
      if-Tame P (p.1 == 0) _ _ v (set_timeout-Tame P K (rt_timer r.dest_addr) p.1 p.0 refl v)

  link_new-Tame : (r : Rt) (d : Daemon) → On P d → On P (link_new r d)
  unfolding On link_new
  link_new-Tame r d v =
      let a = r.dest_addr in
      let d1 = init_timer (rt_timer a) Timer.route_expire_timeout d in
      let d2 = init_timer (ack_timer a) Timer.rrep_ack_timeout d1 in
      init_timer-Tame P K (hello_timer a) Timer.hello_timeout d2 refl (
        init_timer-Tame P K (ack_timer a) Timer.rrep_ack_timeout d1 refl
          (init_timer-Tame P K (rt_timer a) Timer.route_expire_timeout d refl v))

  insert_new-Tame : (r : Rt) (life : ℕ) (d : Daemon) → On P d → On P (insert_new r life d)
  unfolding insert_new
  insert_new-Tame r life d v =
      send_buffered-Tame r.dest_addr (start_timer r (start_route r life (link_new r d))) (
        start_timer-Tame r (start_route r life (link_new r d))
          (start_route-Tame r life (link_new r d) (link_new-Tame r d v)))

  -- rt_table_insert keeps the property.
  pub insert-Tame :
      (dest next hops seqno life : ℕ) (state : RtState) (flags : Flags) (ifindex : ℕ) (d : Daemon)
      → On P d
      → On P (rt_table_insert dest next hops seqno life state flags ifindex d)
  unfolding On rt_table_insert
  insert-Tame dest next hops seqno life state flags ifindex d v =
      let r = new_rt dest next hops seqno state flags ifindex in
      elim (Bool-cases (has_dest dest (d.table.tbl (hashing dest)))) [
        | inl e ↦ rw e v
        | inr e ↦ rw e (insert_new-Tame r life d v)
      ]

  schedule_end-Tame : (a : ℕ) (d : Daemon) → On P d → On P (schedule_end a d)
  unfolding On schedule_end
  schedule_end-Tame a d v =
      let t = rt_timer a in
      if-Tame P (rt a d).flags.repair _ _
        (set_timeout-Tame P K t d.cfg.active_route_timeout
          (set_handler t Timer.local_repair_timeout d) refl
          (set_handler-Tame P K t Timer.local_repair_timeout d refl v))
        (set_timeout-Tame P K t d.cfg.delete_period (set_handler t Timer.route_delete_timeout d)
          refl (set_handler-Tame P K t Timer.route_delete_timeout d refl v))

  pub remove_timers-Tame : (a : ℕ) (d : Daemon) → On P d → On P (remove_timers a d)
  unfolding On remove_timers
  remove_timers-Tame a d v =
      let d1 = remove_timer (rt_timer a) d in
      let d2 = remove_timer (hello_timer a) d1 in
      remove_timer-Tame P K (ack_timer a) d2 refl (
        remove_timer-Tame P K (hello_timer a) d1 refl (remove_timer-Tame P K (rt_timer a) d refl v))

  -- rt_table_invalidate keeps the property.
  pub invalidate-Tame : (a : ℕ) (d : Daemon) → On P d → On P (rt_table_invalidate a d)
  unfolding On rt_table_invalidate
  invalidate-Tame a d v =
      if-Tame P (is_valid (rt a d).state) _ _ (schedule_end-Tame a _ (remove_timers-Tame a d v)) v
