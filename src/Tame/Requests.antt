-- ===== src/Tame/Requests.antt =====
-- Route requests: the only handler of a packet that buffers a request.
use embedded_systems_wireles.Base.{
  ℕ, ◌+◌, ◌-◌, ◌%◌, refl, inl, inr, Option, none, some, ◌∷◌, ltb, ◌==◌, Option-cases,
}
use embedded_systems_wireles.Message.{Rreq, rreq, rrep_size, aodv_broadcast, path_discovery_time}
use embedded_systems_wireles.Table.{Rt, no_flags, valid, rt_table_find}
use embedded_systems_wireles.Daemon.{Daemon, init_timer, dev_ipaddr}
use embedded_systems_wireles.Socket.{aodv_socket_send, aodv_socket_new_msg}
use embedded_systems_wireles.Hello.{rrep_create}
use embedded_systems_wireles.Rreq.{
  rreq_record_find, rreq_record_insert, rreq_forward, reverse_life, fresher_rreq, reverse_route,
  reply_self, reply_known, asked_seqno, pass_on, can_answer, intermediate, ignored, rreq_process,
}
use embedded_systems_wireles.Timer
use embedded_systems_wireles.Timer.{Timers, rec_timer}
use embedded_systems_wireles.Tame.{Tame, On}
use embedded_systems_wireles.Tame.Sends.{
  set_timeout-Tame, init_timer-Tame, if-Tame, send-Tame, for_all_devs-Tame,
}
use embedded_systems_wireles.Tame.Packets.{insert-Tame}
use embedded_systems_wireles.Tame.Routes.{update-Tame}
use embedded_systems_wireles.Tame.Replies.{rrep_send-Tame}

module _ (P : Timers → Type 0) (K : Tame P) where
  forward-Tame : (m : Rreq) (size ttl : ℕ) (d : Daemon) → On P d → On P (rreq_forward m size ttl d)
  unfolding On rreq_forward
  forward-Tame m size ttl d v =
      for_all_devs-Tame P K (λ i x. aodv_socket_send aodv_broadcast size ttl i x)
        (aodv_socket_new_msg (rreq (record m { hcnt = (m.hcnt + 1) % 256 })) d)
        (λ i x w. send-Tame P K aodv_broadcast size ttl i x w) v

  pub reverse_route-Tame :
      (m : Rreq) (src ifindex : ℕ) (d : Daemon) → On P d → On P (reverse_route m src ifindex d)
  unfolding On reverse_route
  reverse_route-Tame m src ifindex d v =
      let h = (m.hcnt + 1) % 256 in
      let life = reverse_life (m.hcnt + 1) in
      elim (Option-cases (rt_table_find m.orig_addr d.table)) [
        | inl e ↦
            rw (e, reverse_route)
              (insert-Tame P K m.orig_addr src h m.orig_seqno life valid no_flags ifindex d v)
        | inr (r, e) ↦
            rw (e, reverse_route)
              (if-Tame P (fresher_rreq m.orig_seqno (m.hcnt + 1) r) _ _
                (update-Tame P K m.orig_addr src h m.orig_seqno life valid r.flags d v) v)
      ]

  reply_self-Tame : (m : Rreq) (d : Daemon) → On P d → On P (reply_self m d)
  unfolding On reply_self rrep_create
  reply_self-Tame m d v = rrep_send-Tame P K m.orig_addr none rrep_size _ v

  reply_known-Tame : (m : Rreq) (f : Rt) (d : Daemon) → On P d → On P (reply_known m f d)
  unfolding On reply_known rrep_create
  reply_known-Tame m f d v =
      let w = rrep_send-Tame P K m.orig_addr (some f.dest_addr) rrep_size _ v in
      if-Tame P m.g _ _ (rrep_send-Tame P K f.dest_addr (some m.orig_addr) rrep_size _ w) w

  pass_on-Tame :
      (m : Rreq) (len ttl : ℕ) (o : Option Rt) (d : Daemon) → On P d → On P (pass_on m len ttl o d)
  unfolding On pass_on
  pass_on-Tame m len ttl o d v =
      if-Tame P (ltb 1 ttl) _ _
        (forward-Tame (record m { dest_seqno = asked_seqno m o }) len (ttl - 1) d v) v

  intermediate-Tame :
      (m : Rreq) (len ttl : ℕ) (d : Daemon) → On P d → On P (intermediate m len ttl d)
  unfolding On intermediate
  intermediate-Tame m len ttl d v = elim (Option-cases (rt_table_find m.dest_addr d.table)) [
    | inl e ↦ rw (e, intermediate) (pass_on-Tame m len ttl none d v)
    | inr (f, e) ↦
        rw (e, intermediate)
          (if-Tame P (can_answer m f) _ _ (reply_known-Tame m f d v)
            (pass_on-Tame m len ttl (some f) d v))
  ]

  record_insert-Tame : (o i : ℕ) (d : Daemon) → On P d → On P (rreq_record_insert o i d)
  unfolding rreq_record_insert
  record_insert-Tame o i d v =
      let d1 = record d { rreq_records = (o, i) ∷ d.rreq_records } in
      if-Tame P (rreq_record_find o i d.rreq_records) _ _ v (
        set_timeout-Tame P K (rec_timer o i) path_discovery_time
          (init_timer (rec_timer o i) Timer.rreq_record_timeout d1) refl
          (init_timer-Tame P K (rec_timer o i) Timer.rreq_record_timeout d1 refl (unfold On in v)))

  -- rreq_process keeps the property.
  pub rreq_process-Tame :
      (m : Rreq) (len src ttl ifindex : ℕ) (d : Daemon)
      → On P d
      → On P (rreq_process m len src ttl ifindex d)
  unfolding rreq_process
  rreq_process-Tame m len src ttl ifindex d v =
      let d1 = reverse_route m src ifindex (rreq_record_insert m.orig_addr m.rreq_id d) in
      let w =
        reverse_route-Tame m src ifindex (rreq_record_insert m.orig_addr m.rreq_id d)
          (record_insert-Tame m.orig_addr m.rreq_id d v) in
      if-Tame P (ignored m len src ifindex d) _ _ v (
        if-Tame P (m.dest_addr == dev_ipaddr ifindex d1) _ _ (reply_self-Tame m d1 w)
          (intermediate-Tame m len ttl d1 w))
