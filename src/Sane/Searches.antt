-- ===== src/Sane/Searches.antt =====
-- Packets put into the queue and the searches begun for them keep the invariant.
use embedded_systems_wireles.Base.{
  ℕ, ◌*◌, ◌≡◌, refl, sym, ap, All, All-append, ◌∙◌, not, ◌||◌, Option, none, some, List, [], ◌∷◌,
  true, arith, if◌then◌else◌, is_some, leb,
}
use embedded_systems_wireles.Timer.{
  timer_init, rt_timer, seek_timer, route_expire_timeout as expire_handler,
}
use embedded_systems_wireles.Message.{node_traversal_time, net_traversal_time, ring_traversal_time}
use embedded_systems_wireles.Table.{Rt, rt_table_find}
use embedded_systems_wireles.Daemon.{Daemon, Packet, Seek, rt, set_handler}
use embedded_systems_wireles.Seek.{seek_list_find, seek_list_insert}
use embedded_systems_wireles.PacketQueue.{packet_queue_add, make_room, max_queue_length}
use embedded_systems_wireles.Timeout.{keep_waiting, rreq_send}
use embedded_systems_wireles.Rreq.{
  start_seqno, start_ttl, repair_ttl, seek, rreq_route_discovery, rreq_local_repair,
}
use embedded_systems_wireles.PacketInput.{search_route}
use embedded_systems_wireles.Sane.{Sane, Track, Searched}
use embedded_systems_wireles.Sane.Queue.{opened, exempted, sought-Sane}
use mathlib.Core.Path.{subst}
use embedded_systems_wireles.Sane.Sends.{if-Sane, cases-Sane, set_other-Sane}
use embedded_systems_wireles.Sane.Timeouts.{keep_waiting-Sane, rreq_send-Sane}

found_first : (s : Seek) (ss : List Seek) → is_some (seek_list_find s.dest_addr (s ∷ ss)) ≡ true
unfolding seek_list_find
found_first s ss = ground arith

more_sought :
    (s : Seek) (ex : List ℕ) (ss : List Seek) (ps : List Packet)
    → All (Searched ex ss) ps
    → All (Searched ex (s ∷ ss)) ps
unfolding seek_list_find
more_sought s ex ss [] w = tt
more_sought s ex ss (p ∷ ps) w = (ground (arith, w.0), more_sought s ex ss ps w.1)

pub make_room-table : (ps : List Packet) (d : Daemon) → (make_room ps d).table ≡ d.table
unfolding make_room
make_room-table [] d = refl
make_room-table (p ∷ ps) d = ground arith

module _ (rs : Track) where
  make_room-Sane :
      (ps : List Packet) (d : Daemon)
      → All (Searched rs.exempt d.seeking) ps
      → Sane rs d
      → Sane rs (make_room ps d)
  unfolding make_room
  make_room-Sane [] d w v = v
  make_room-Sane (p ∷ ps) d w v =
      if-Sane rs (leb max_queue_length d.queue_len) _ _ (v.0, v.1, v.2, v.3, v.4, v.5, w.1) v

  -- Its destination is not sought yet.
  pub queue_add-Sane :
      (packet_id dest : ℕ) (d : Daemon)
      → Sane rs d
      → Sane (opened dest rs) (packet_queue_add packet_id dest d)
  unfolding packet_queue_add
  queue_add-Sane packet_id dest d v =
      let d1 = make_room d.queue d in
      let w = make_room-Sane d.queue d v.6 v in
      let p : Packet = record { packet_id = packet_id; dest_addr = dest; q_time = d1.now } in
      (
        w.0,
        w.1,
        w.2,
        w.3,
        w.4,
        w.5,
        All-append (Searched (dest ∷ rs.exempt) d1.seeking) d1.queue (p ∷ [])
            (exempted dest rs.exempt d1.seeking d1.queue w.6) (ground arith, tt),
      )

  seek-Sane :
      (dest seqno ttl flags wait : ℕ) (d : Daemon)
      → Sane (opened dest rs) d
      → Sane rs (seek dest seqno ttl flags wait d)
  unfolding seek seek_list_insert timer_init
  seek-Sane dest seqno ttl flags wait d v =
      let d1 = rreq_send dest seqno ttl flags d in
      let d2 = seek_list_insert dest seqno ttl flags d1 in
      let w = rreq_send-Sane (opened dest rs) dest seqno ttl flags d v in
      let s : Seek = record {
        dest_addr = dest;
        dest_seqno = seqno;
        flags = flags;
        reqs = 0;
        ttl = ttl;
      } in
      let w2 : Sane (opened dest rs) d2 =
        (w.0, w.1, w.2, w.3, w.4, w.5, more_sought s (dest ∷ rs.exempt) d1.seeking d1.queue w.6) in
      set_other-Sane rs (seek_timer dest) wait d2 refl
        (sought-Sane dest rs d2 (found_first s d1.seeking) w2)

  discovery-Sane :
      (dest flags : ℕ) (d : Daemon)
      → Sane (opened dest rs) d
      → Sane rs (rreq_route_discovery dest flags d)
  unfolding rreq_route_discovery
  discovery-Sane dest flags d v =
      let found = rt_table_find dest d.table in
      cases-Sane rs (is_some (seek_list_find dest d.seeking)) d _ (λ e. sought-Sane dest rs d e v)
        (λ e.
          seek-Sane dest (start_seqno found) (start_ttl found d) flags
            (if d.cfg.expanding_ring_search
              then ring_traversal_time (start_ttl found d)
              else net_traversal_time)
            (keep_waiting dest d) (keep_waiting-Sane (opened dest rs) dest d v))

  repair-Sane :
      (a src : ℕ) (d : Daemon)
      → (rt a d).flags.repair ≡ true
      → Sane (opened (rt a d).dest_addr rs) d
      → Sane rs (rreq_local_repair a src d)
  unfolding rreq_local_repair
  repair-Sane a src d h v =
      let b = (rt a d).dest_addr in
      let ttl = repair_ttl (rt a d) (rt_table_find src d.table) in
      let d1 = set_handler (rt_timer a) expire_handler d in
      cases-Sane rs (is_some (seek_list_find b d.seeking) || not (rt a d).flags.repair) d _
        (λ e. sought-Sane b rs d (ground (arith, e, h)) v)
        (λ e.
          seek-Sane b (rt a d).dest_seqno ttl 0
            (if d.cfg.expanding_ring_search
              then 2 * ttl * node_traversal_time
              else net_traversal_time)
            (keep_waiting a d1) (keep_waiting-Sane (opened b rs) a d1 v))

  pub search_route-Sane :
      (o : Option Rt) (src dest flags : ℕ) (d : Daemon)
      → ((f : Rt) → o ≡ some f → (f.dest_addr ≡ dest) × (rt f.dest_addr d ≡ f))
      → Sane (opened dest rs) d
      → Sane rs (search_route o src dest flags d)
  unfolding search_route
  search_route-Sane none src dest flags d p v = discovery-Sane dest flags d v
  search_route-Sane (some f) src dest flags d p v =
      let (e, q) = p f refl in
      cases-Sane rs f.flags.repair _ _
        (λ h.
          repair-Sane f.dest_addr src d (ap (λ r. r.flags.repair) q ∙ h)
            (subst (λ a. Sane (opened a rs) d) (sym (ap (λ r. r.dest_addr) q ∙ e)) v))
        (λ h. discovery-Sane dest flags d v)
