-- ===== src/Sane/Timeouts.antt =====
-- The handlers of timers keep the invariant.
use embedded_systems_wireles.Base.{
  ℕ, ◌%◌, ◌≡◌, ◌≢◌, All, Bool, is_some, refl, ap, true, ◌∷◌, arith, inl, inr, not, ◌&&◌, ◌*◌,
  Option, none, some, List, [], leb, ltb, ◌==◌, false, if◌then◌else◌, Bool-cases, Option-cases,
}
use Prim.Native.Nat.{bit_or}
use embedded_systems_wireles.Timer.{
  TimerId, timer_init, rt_timer, ack_timer, hello_timer, seek_timer, bl_timer,
  garbage_collect_timer, owner, of_route, route_delete_timeout as delete_handler,
  rreq_blacklist_timeout as blacklist_handler,
}
use embedded_systems_wireles.Message.{
  rreq_size, rerr_calc_size, aodv_broadcast, rreq_retries, blacklist_timeout, net_traversal_time,
  max_repair_ttl,
}
use embedded_systems_wireles.Table.{
  Rt, Table, is_valid, rt_table_find, precursor_list_destroy, hashing, has_dest, remove_in, unlink,
}
use embedded_systems_wireles.Table.Invariant.{Keeps, unlink-TableOk, Present}
use embedded_systems_wireles.Daemon.{
  Daemon, Packet, Seek, route_deleted, emit, rt, modify_rt, set_timeout, set_handler, init_timer,
  ifindex2devindex,
}
use embedded_systems_wireles.Socket.{aodv_socket_send}
use embedded_systems_wireles.Seek.{seek_list_remove, seek_list_find, modify_seek}
use embedded_systems_wireles.PacketQueue.{
  settle, packet_queue_set_verdict, packet_queue_garbage_collect, packet_queue_timeout,
}
use embedded_systems_wireles.Route.{rt_table_invalidate, rt_table_delete, remove_timers}
use embedded_systems_wireles.Rerr.{rerr_create, count_of, first_prec}
use embedded_systems_wireles.Neighbor.{mark_repair}
use embedded_systems_wireles.Timeout.{
  rreq_create, rreq_send, rreq_blacklist_find, rreq_blacklist_insert, rrep_ack_timeout,
  report_failed, unset_repair, local_repair_timeout, route_expire_timeout, hello_timeout,
  keep_waiting, retry, next_try, widen, wait_time, repair_failed, give_up, route_discovery_timeout,
}
use embedded_systems_wireles.Sane.{Sane, Track, Owned, Searched}
use embedded_systems_wireles.Sane.Owners.{found-Present, timer_remove_left}
use embedded_systems_wireles.Sane.Sends.{
  if-Sane, set_timeout-Sane, set_other-Sane, follow, follow-Sane, unfollow-Sane, send-Sane,
  for_all_devs-Sane, modify_rt-Sane, update_timeout-Sane,
}
use embedded_systems_wireles.Sane.Queue.{
  seek_list_remove-Sane, seek_list_remove-table, seek_list_remove-queue, settle-none, close-Sane,
  settle-Sane,
}
use embedded_systems_wireles.Sane.Packets.{num_active-TableOk, invalidate-Sane}
use embedded_systems_wireles.Sane.Routes.{mark_repair-Keeps, destroy-Sane, link_break-Sane}

unset_repair-Keeps : Keeps unset_repair
unfolding unset_repair
unset_repair-Keeps r = (refl, refl, λ h. h)

-- A write through a pointer to a sought destination leaves it that.
find-modify_seek :
    (a c : ℕ) (f : Seek → Seek) (ss : List Seek)
    → ((s : Seek) → (f s).dest_addr ≡ a)
    → is_some (seek_list_find c (modify_seek a f ss)) ≡ is_some (seek_list_find c ss)
unfolding seek_list_find modify_seek
find-modify_seek a c f [] k = refl
find-modify_seek a c f (s ∷ ss) k = ground (arith, find-modify_seek a c f ss k, k s)

retried :
    (a : ℕ) (f : Seek → Seek) (ex : List ℕ) (ss : List Seek) (ps : List Packet)
    → ((s : Seek) → (f s).dest_addr ≡ a)
    → All (Searched ex ss) ps
    → All (Searched ex (modify_seek a f ss)) ps
retried a f ex ss [] k w = tt
retried a f ex ss (p ∷ ps) k w =
    (rw (find-modify_seek a p.dest_addr f ss k) w.0, retried a f ex ss ps k w.1)

next_try-dest_addr : (ring : Bool) (s : Seek) → (next_try ring s).dest_addr ≡ s.dest_addr
unfolding next_try widen
next_try-dest_addr ring s = ground arith

module _ (rs : Track) where
  pub route_expire-Sane : (a : ℕ) (d : Daemon) → Sane rs d → Sane rs (route_expire_timeout a d)
  unfolding route_expire_timeout
  route_expire-Sane a d v =
      if-Sane rs ((rt a d).hcnt == 1) _ _ (link_break-Sane rs a d v)
        (destroy-Sane rs a (rt_table_invalidate a d) (invalidate-Sane rs a d v))

  pub hello_timeout-Sane : (a : ℕ) (d : Daemon) → Sane rs d → Sane rs (hello_timeout a d)
  unfolding hello_timeout
  hello_timeout-Sane a d v =
      let test = d.cfg.local_repair && leb (rt a d).hcnt max_repair_ttl in
      if-Sane rs (is_valid (rt a d).state && not (rt a d).flags.unidir) _ _
        (link_break-Sane rs a (if test then modify_rt a mark_repair d else d) (
          if-Sane rs test (modify_rt a mark_repair d) d
            (modify_rt-Sane rs a mark_repair d mark_repair-Keeps v) v))
        v

  report_failed-Sane : (r : Rt) (d : Daemon) → Sane rs d → Sane rs (report_failed r d)
  unfolding report_failed rerr_create
  report_failed-Sane r d v =
      let d' = rerr_create false r.dest_addr r.dest_seqno d in
      if-Sane rs (r.nprec == 0) _ _ v (
        if-Sane rs (r.nprec == 1) _ _
          (send-Sane rs (first_prec r.precursors) (rerr_calc_size (count_of d'.send_buf)) 1
            (ifindex2devindex r.ifindex d'.host) d' v)
          (for_all_devs-Sane rs
            (λ i x. aodv_socket_send aodv_broadcast (rerr_calc_size (count_of x.send_buf)) 1 i x) d'
            (λ i x w. send-Sane rs aodv_broadcast (rerr_calc_size (count_of x.send_buf)) 1 i x w)
            v))

  pub ack_timeout-Sane : (a : ℕ) (d : Daemon) → Sane rs d → Sane rs (rrep_ack_timeout a d)
  unfolding rrep_ack_timeout rreq_blacklist_insert timer_init
  ack_timeout-Sane a d v =
      let b = (rt a d).dest_addr in
      let d1 =
        init_timer (bl_timer b) blacklist_handler
          (record d { rreq_blacklist = b ∷ d.rreq_blacklist }) in
      if-Sane rs (rreq_blacklist_find b d.rreq_blacklist) d _ v
        (set_other-Sane rs (bl_timer b) (blacklist_timeout d.cfg.ttl_start) d1 refl v)

  pub packet_queue_timeout-Sane : (d : Daemon) → Sane rs d → Sane rs (packet_queue_timeout d)
  unfolding packet_queue_timeout packet_queue_garbage_collect
  packet_queue_timeout-Sane d v =
      set_other-Sane rs garbage_collect_timer 1000 (packet_queue_garbage_collect d) refl
        (settle-Sane rs _ false d.queue d v.6 v)

  pub keep_waiting-Sane : (a : ℕ) (d : Daemon) → Sane rs d → Sane rs (keep_waiting a d)
  unfolding keep_waiting
  keep_waiting-Sane a d v = elim (Option-cases (rt_table_find a d.table)) [
    | inl e ↦ rw (e, keep_waiting) v
    | inr (r, e) ↦
        rw (e, keep_waiting)
          (if-Sane rs _ _ _
            (update_timeout-Sane rs r.dest_addr (2 * net_traversal_time) d
              (found-Present a d.table r e) v)
            v)
  ]

  pub rreq_send-Sane :
      (a seqno ttl flags : ℕ) (d : Daemon) → Sane rs d → Sane rs (rreq_send a seqno ttl flags d)
  unfolding rreq_send rreq_create
  rreq_send-Sane a seqno ttl flags d v =
      let flags' = if d.cfg.rreq_gratuitous then bit_or flags 4 else flags in
      for_all_devs-Sane rs
        (λ i x.
          aodv_socket_send aodv_broadcast rreq_size (ttl % 256) i
            (rreq_create flags' a seqno (x.host.devs i).ipaddr x))
        d
        (λ i x w.
          send-Sane rs aodv_broadcast rreq_size (ttl % 256) i
            (rreq_create flags' a seqno (x.host.devs i).ipaddr x) w)
        v

  retry-Sane : (s : Seek) (d : Daemon) → Sane rs d → Sane rs (retry s d)
  unfolding retry
  retry-Sane s d v =
      let ring = d.cfg.expanding_ring_search in
      let s' = next_try ring s in
      let d0 = record d { seeking = modify_seek s.dest_addr (λ x. s') d.seeking } in
      let d1 = set_timeout (seek_timer s'.dest_addr) (wait_time ring s') d0 in
      rreq_send-Sane s'.dest_addr s'.dest_seqno s'.ttl s'.flags (keep_waiting s'.dest_addr d1) (
        keep_waiting-Sane s'.dest_addr d1 (
          set_other-Sane rs (seek_timer s'.dest_addr) (wait_time ring s') d0 refl (
            v.0,
            v.1,
            v.2,
            v.3,
            v.4,
            v.5,
            retried s.dest_addr (λ x. s') rs.exempt d.seeking d.queue
                (λ x. next_try-dest_addr ring s) v.6,
          )))

-- An entry that is there waits for its deletion.
pub local_repair-Sane :
    (rs : Track) (a : ℕ) (d : Daemon)
    → Present d.table a
    → Sane rs d
    → Sane rs (local_repair_timeout a d)
unfolding local_repair_timeout
local_repair-Sane rs a d p v =
    let rs' = follow a rs in
    let d1 = modify_rt a unset_repair d in
    let r = rt a d1 in
    let d2 = emit (route_deleted r.dest_addr r.next_hop r.hcnt) d1 in
    let d3 = modify_rt a precursor_list_destroy (report_failed r d2) in
    let w = destroy-Sane rs' a (report_failed r d2) (
      report_failed-Sane rs' r d2
        (modify_rt-Sane rs' a unset_repair d unset_repair-Keeps (follow-Sane a rs d p v))) in
    set_timeout-Sane rs (rt_timer a) d.cfg.delete_period
      (set_handler (rt_timer a) delete_handler d3) (λ h. w.4.0) (unfollow-Sane a rs d3 w)

module _ (rs : Track) where
  repair_failed-Sane :
      (o : Option Rt) (d : Daemon)
      → ((r : Rt) → o ≡ some r → Present d.table r.dest_addr)
      → Sane rs d
      → Sane rs (repair_failed o d)
  unfolding repair_failed
  repair_failed-Sane none d p v = v
  repair_failed-Sane (some r) d p v =
      if-Sane rs r.flags.repair _ _ (local_repair-Sane rs r.dest_addr d (p r refl) v) v

  -- The packets go before the search for them is given up.
  give_up-Sane : (s : Seek) (d : Daemon) → Sane rs d → Sane rs (give_up s d)
  unfolding give_up packet_queue_set_verdict
  give_up-Sane s d v =
      let a = s.dest_addr in
      let d1 = settle (λ p. p.dest_addr == a) false d.queue d in
      let d2 = (seek_list_remove a d1).0 in
      let gone : All (λ p. (p.dest_addr == a) ≡ false) d2.queue =
        rw (seek_list_remove-queue a d1) (settle-none a false d.queue d) in
      let w = settle-Sane rs (λ p. p.dest_addr == a) false d.queue d v.6 v in
      repair_failed-Sane (rt_table_find a d1.table) d2
        (λ r e. rw (seek_list_remove-table a d1) (found-Present a d1.table r e))
        (close-Sane a rs d2 gone (seek_list_remove-Sane rs a d1 w))

  pub route_discovery-Sane :
      (a : ℕ) (d : Daemon) → Sane rs d → Sane rs (route_discovery_timeout a d)
  unfolding route_discovery_timeout
  route_discovery-Sane a d v = elim (Option-cases (seek_list_find a d.seeking)) [
    | inl e ↦ rw (e, route_discovery_timeout) v
    | inr (s, e) ↦
        rw (e, route_discovery_timeout)
          (if-Sane rs (ltb s.reqs rreq_retries) _ _ (retry-Sane rs s d v) (give_up-Sane s d v))
  ]

has_dest-remove_in-other :
    (a c : ℕ) (b : List Rt) → c ≢ a → has_dest c b ≡ true → has_dest c (remove_in a b) ≡ true
unfolding has_dest remove_in
has_dest-remove_in-other a c [] n h = h
has_dest-remove_in-other a c (r ∷ rs) n h = ground (arith, has_dest-remove_in-other a c rs n)

Present-unlink : (a c : ℕ) (t : Table) → c ≢ a → Present t c → Present (unlink a t) c
unfolding unlink
Present-unlink a c t n h = elim (Bool-cases (hashing c == hashing a)) [
  | inl e ↦
      let q : hashing c ≡ hashing a = ground arith in
      rw e (has_dest-remove_in-other a c (t.tbl (hashing a)) n (rw (← q) h))
  | inr e ↦ rw e h
]

other_owner :
    (a : ℕ) (t : TimerId)
    → of_route t ≡ true
    → t ≢ rt_timer a
    → t ≢ hello_timer a
    → t ≢ ack_timer a
    → owner t ≢ a
other_owner a (rt_timer c) h x y z = λ e. x (ap rt_timer e)
other_owner a (hello_timer c) h x y z = λ e. y (ap hello_timer e)
other_owner a (ack_timer c) h x y z = λ e. z (ap ack_timer e)
other_owner a _ h x y z = absurd (ground (arith, h))

deleted-Owned :
    (a : ℕ) (d : Daemon)
    → Owned d.table d.timers
    → Owned (unlink a d.table) (remove_timers a d).timers
unfolding remove_timers
deleted-Owned a d o t h e =
    let (x, e1) = timer_remove_left t (ack_timer a) _ e in
    let (y, e2) = timer_remove_left t (hello_timer a) _ e1 in
    let (z, e3) = timer_remove_left t (rt_timer a) d.timers e2 in
    Present-unlink a (owner t) d.table (other_owner a t h z y x) (o t h e3)

-- An entry that is there is deleted: no other one is followed.
pub delete-Sane :
    (records : List (ℕ × ℕ)) (a : ℕ) (d : Daemon)
    → Sane (record { records = records; present = []; exempt = [] }) d
    → Present d.table a
    → Sane (record { records = records; present = []; exempt = [] }) (rt_table_delete a d)
unfolding rt_table_delete remove_timers
delete-Sane records a d v h =
    let w = unlink-TableOk a d.table v.0 h in
    let o = deleted-Owned a d v.5 in
    elim (Bool-cases (is_valid (rt a d).state)) [
      | inl e ↦ rw e (num_active-TableOk _ _ w, v.1, v.2, v.3, tt, unfold remove_timers in o, v.6)
      | inr e ↦ rw e (w, v.1, v.2, v.3, tt, unfold remove_timers in o, v.6)
    ]
