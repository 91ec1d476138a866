-- ===== src/Sane/Requests.antt =====
-- Route requests: the only handler of a packet that buffers a request.
use embedded_systems_wireles.Base.{
  ℕ, ◌+◌, ◌-◌, ◌%◌, refl, inl, inr, Option, none, some, ◌∷◌, ltb, ◌==◌, if◌then◌else◌, Option-cases,
  Bool-cases,
}
use embedded_systems_wireles.Timer.{timer_init, rec_timer, rreq_record_timeout as record_handler}
use embedded_systems_wireles.Message.{Rreq, rreq, rrep_size, path_discovery_time, aodv_broadcast}
use embedded_systems_wireles.Table.{Rt, no_flags, valid, rt_table_find}
use embedded_systems_wireles.Daemon.{Daemon, init_timer, dev_ipaddr}
use embedded_systems_wireles.Socket.{aodv_socket_send, aodv_socket_new_msg}
use embedded_systems_wireles.Hello.{rrep_create}
use embedded_systems_wireles.Rreq.{
  rreq_record_find, rreq_record_insert, rreq_forward, reverse_life, fresher_rreq, reverse_route,
  reply_self, reply_known, asked_seqno, pass_on, can_answer, intermediate, ignored, rreq_process,
}
use embedded_systems_wireles.Sane.{Sane, Track}
use embedded_systems_wireles.Sane.Sends.{if-Sane, set_other-Sane, send-Sane, for_all_devs-Sane}
use embedded_systems_wireles.Sane.Owners.{rt_table_find-found}
use embedded_systems_wireles.Sane.Packets.{insert-Sane}
use embedded_systems_wireles.Sane.Routes.{update-Sane}
use embedded_systems_wireles.Sane.Replies.{rrep_send-Sane}

module _ (rs : Track) where
  forward-Sane :
      (m : Rreq) (size ttl : ℕ) (d : Daemon) → Sane rs d → Sane rs (rreq_forward m size ttl d)
  unfolding rreq_forward
  forward-Sane m size ttl d v =
      for_all_devs-Sane rs (λ i x. aodv_socket_send aodv_broadcast size ttl i x)
        (aodv_socket_new_msg (rreq (record m { hcnt = (m.hcnt + 1) % 256 })) d)
        (λ i x w. send-Sane rs aodv_broadcast size ttl i x w) v

  pub reverse_route-Sane :
      (m : Rreq) (src ifindex : ℕ) (d : Daemon)
      → Sane rs d
      → Sane rs (reverse_route m src ifindex d)
  unfolding reverse_route
  reverse_route-Sane m src ifindex d v =
      let h = (m.hcnt + 1) % 256 in
      let life = reverse_life (m.hcnt + 1) in
      elim (Option-cases (rt_table_find m.orig_addr d.table)) [
        | inl e ↦
            rw (e, reverse_route)
              (insert-Sane rs m.orig_addr src h m.orig_seqno life valid no_flags ifindex d v)
        | inr (r, e) ↦
            rw (e, reverse_route)
              (if-Sane rs (fresher_rreq m.orig_seqno (m.hcnt + 1) r) _ _
                (update-Sane rs m.orig_addr src h m.orig_seqno life valid r.flags d
                  (rt_table_find-found m.orig_addr d.table r e).1 v)
                v)
      ]

  reply_self-Sane : (m : Rreq) (d : Daemon) → Sane rs d → Sane rs (reply_self m d)
  unfolding reply_self rrep_create
  reply_self-Sane m d v = rrep_send-Sane rs m.orig_addr none rrep_size _ v

  reply_known-Sane : (m : Rreq) (f : Rt) (d : Daemon) → Sane rs d → Sane rs (reply_known m f d)
  unfolding reply_known rrep_create
  reply_known-Sane m f d v =
      let w = rrep_send-Sane rs m.orig_addr (some f.dest_addr) rrep_size _ v in
      if-Sane rs m.g _ _ (rrep_send-Sane rs f.dest_addr (some m.orig_addr) rrep_size _ w) w

  pass_on-Sane :
      (m : Rreq) (len ttl : ℕ) (o : Option Rt) (d : Daemon)
      → Sane rs d
      → Sane rs (pass_on m len ttl o d)
  unfolding pass_on
  pass_on-Sane m len ttl o d v =
      if-Sane rs (ltb 1 ttl) _ _
        (forward-Sane (record m { dest_seqno = asked_seqno m o }) len (ttl - 1) d v) v

  intermediate-Sane :
      (m : Rreq) (len ttl : ℕ) (d : Daemon) → Sane rs d → Sane rs (intermediate m len ttl d)
  unfolding intermediate
  intermediate-Sane m len ttl d v = elim (Option-cases (rt_table_find m.dest_addr d.table)) [
    | inl e ↦ rw (e, intermediate) (pass_on-Sane m len ttl none d v)
    | inr (f, e) ↦
        rw (e, intermediate)
          (if-Sane rs (can_answer m f) _ _ (reply_known-Sane m f d v)
            (pass_on-Sane m len ttl (some f) d v))
  ]

-- The records of requests after this one.
abbrev pub recorded : Rreq → Track → Track
recorded m rs = record rs {
  records =
      if rreq_record_find m.orig_addr m.rreq_id rs.records
      then rs.records
      else (m.orig_addr, m.rreq_id) ∷ rs.records;
}

pub record_insert-Sane :
    (rs : Track) (m : Rreq) (d : Daemon)
    → Sane rs d
    → Sane (recorded m rs) (rreq_record_insert m.orig_addr m.rreq_id d)
unfolding rreq_record_insert timer_init
record_insert-Sane rs m d v =
    let found = rreq_record_find m.orig_addr m.rreq_id d.rreq_records in
    rw (← v.1) (elim (Bool-cases found) [
      | inl e ↦ rw e (v.0, refl, v.2, v.3, v.4, v.5, v.6)
      | inr e ↦
          let d1 =
            init_timer (rec_timer m.orig_addr m.rreq_id) record_handler
              (record d { rreq_records = (m.orig_addr, m.rreq_id) ∷ d.rreq_records }) in
          rw e (
            set_other-Sane (record rs { records = (m.orig_addr, m.rreq_id) ∷ d.rreq_records })
              (rec_timer m.orig_addr m.rreq_id) path_discovery_time d1 refl
              (v.0, refl, v.2, v.3, v.4, v.5, v.6))
    ])

-- A request that is not ignored is recorded; otherwise rreq_process keeps the invariant.
pub rreq_process-Sane :
    (rs : Track) (m : Rreq) (len src ttl ifindex : ℕ) (d : Daemon)
    → Sane rs d
    → Sane
        (if ignored m len src ifindex d then rs else recorded m rs)
        (rreq_process m len src ttl ifindex d)
unfolding rreq_process
rreq_process-Sane rs m len src ttl ifindex d v =
    let rs' = recorded m rs in
    let d1 = reverse_route m src ifindex (rreq_record_insert m.orig_addr m.rreq_id d) in
    let w =
      reverse_route-Sane rs' m src ifindex (rreq_record_insert m.orig_addr m.rreq_id d)
        (record_insert-Sane rs m d v) in
    elim (Bool-cases (ignored m len src ifindex d)) [
      | inl e ↦ rw e v
      | inr e ↦ rw e (
          if-Sane rs' (m.dest_addr == dev_ipaddr ifindex d1) _ _ (reply_self-Sane rs' m d1 w)
            (intermediate-Sane rs' m len ttl d1 w))
    ]
