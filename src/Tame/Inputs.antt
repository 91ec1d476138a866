-- ===== src/Tame/Inputs.antt =====
-- Packets of NFQUEUE keep the property.
use embedded_systems_wireles.Base.{
  refl, ℕ, ◌*◌, Bool, not, ◌&&◌, ◌||◌, Option, none, some, length, List, [], ◌∷◌, true, false, ◌==◌,
  if◌then◌else◌, is_some, leb, ltb,
}
use embedded_systems_wireles.Timer.{
  rt_timer, seek_timer, worb_timer, route_expire_timeout as expire_handler,
}
use embedded_systems_wireles.Message.{
  rerr_calc_size, node_traversal_time, net_traversal_time, ring_traversal_time,
}
use embedded_systems_wireles.Table.{Rt, is_valid, rt_table_find}
use embedded_systems_wireles.Daemon.{
  Seek, Daemon, Packet, rt, init_timer, set_handler, ifindex2devindex,
}
use embedded_systems_wireles.Socket.{aodv_socket_send}
use embedded_systems_wireles.Lifetime.{
  refresh, refresh_route, refresh_opt, hello_used, rt_table_update_route_timeouts,
}
use embedded_systems_wireles.Seek.{seek_list_find, seek_list_insert}
use embedded_systems_wireles.PacketQueue.{packet_queue_add, make_room, max_queue_length}
use embedded_systems_wireles.Rerr.{rerr_create}
use embedded_systems_wireles.Timeout.{keep_waiting, rreq_send}
use embedded_systems_wireles.Rreq.{
  start_seqno, start_ttl, repair_ttl, seek, rreq_route_discovery, rreq_local_repair,
}
use embedded_systems_wireles.PacketInput.{
  Action, accept, drop, queued, unknown_rerr, rerr_target, send_rerr_for_unknown_dest, search_route,
  saddr, daddr, no_route, in_repair, route_packet, let_through, header_len,
  packet_input_handle_packet, give_verdict, nfqueue_packet_cb, nf_inet_forward, protocol,
  ipproto_tcp, iphdr_size,
}
use embedded_systems_wireles.Timer
use embedded_systems_wireles.Timer.{Timers}
use embedded_systems_wireles.Tame.{Tame, On}
use embedded_systems_wireles.Tame.Sends.{
  set_timeout-Tame, init_timer-Tame, set_handler-Tame, if-Tame, send-Tame, update_timeout-Tame,
  refresh_next_hop-Tame,
}
use embedded_systems_wireles.Tame.Timeouts.{keep_waiting-Tame, rreq_send-Tame}

module _ (P : Timers → Type 0) (K : Tame P) where
  refresh_route-Tame : (r : Rt) (inet : Bool) (d : Daemon) → On P d → On P (refresh_route r inet d)
  unfolding On refresh_route refresh
  refresh_route-Tame r inet d v =
      let d1 = refresh r inet d in
      if-Tame P (is_valid r.state) _ _
        (refresh_next_hop-Tame P K r (d1.cfg.llfeedback || hello_used r d1) d1
          (if-Tame P _ _ _ (update_timeout-Tame P K r.dest_addr d.cfg.active_route_timeout d v) v))
        v

  refresh_opt-Tame :
      (o : Option Rt) (inet : Rt → Bool) (d : Daemon) → On P d → On P (refresh_opt o inet d)
  unfolding On refresh_opt
  refresh_opt-Tame none inet d v = v
  refresh_opt-Tame (some r) inet d v = refresh_route-Tame r (inet r) d v

  route_timeouts-Tame :
      (fwd rev : Option Rt) (d : Daemon) → On P d → On P (rt_table_update_route_timeouts fwd rev d)
  unfolding On rt_table_update_route_timeouts
  route_timeouts-Tame fwd rev d v =
      refresh_opt-Tame rev _ _ (refresh_opt-Tame fwd (λ r. r.flags.inet_dest) d v)

  unknown_rerr-Tame :
      (o : Option Rt) (dest : ℕ) (d : Daemon) → On P d → On P (unknown_rerr o dest d)
  unfolding On unknown_rerr rerr_create
  unknown_rerr-Tame none dest d v = v
  unknown_rerr-Tame (some f) dest d v = update_timeout-Tame P K f.dest_addr d.cfg.delete_period _ v

  unknown_dest-Tame :
      (dest : ℕ) (fwd rev : Option Rt) (ifindex : ℕ) (d : Daemon)
      → On P d
      → On P (send_rerr_for_unknown_dest dest fwd rev ifindex d)
  unfolding On send_rerr_for_unknown_dest
  unknown_dest-Tame dest fwd rev ifindex d v =
      let d1 = unknown_rerr fwd dest d in
      let w =
        send-Tame P K (rerr_target rev) (rerr_calc_size 1) 1 (ifindex2devindex ifindex d1.host) d1
          (unknown_rerr-Tame fwd dest d v) in
      let d2 =
        aodv_socket_send (rerr_target rev) (rerr_calc_size 1) 1 (ifindex2devindex ifindex d1.host)
          d1 in
      if-Tame P d2.wait_on_reboot _ _
        (set_timeout-Tame P K worb_timer d2.cfg.delete_period d2 refl w) w

  make_room-Tame : (ps : List Packet) (d : Daemon) → On P d → On P (make_room ps d)
  unfolding On make_room
  make_room-Tame [] d v = v
  make_room-Tame (p ∷ ps) d v = if-Tame P (leb max_queue_length d.queue_len) _ _ v v

  queue_add-Tame :
      (packet_id dest : ℕ) (d : Daemon) → On P d → On P (packet_queue_add packet_id dest d)
  unfolding On packet_queue_add
  queue_add-Tame packet_id dest d v = make_room-Tame d.queue d v

  seek-Tame :
      (dest seqno ttl flags wait : ℕ) (d : Daemon)
      → On P d
      → On P (seek dest seqno ttl flags wait d)
  unfolding On seek seek_list_insert
  seek-Tame dest seqno ttl flags wait d v =
      let t = seek_timer dest in
      let d1 = rreq_send dest seqno ttl flags d in
      let s : Seek = record {
        dest_addr = dest;
        dest_seqno = seqno;
        flags = flags;
        reqs = 0;
        ttl = ttl;
      } in
      let d2 = record d1 { seeking = s ∷ d1.seeking } in
      set_timeout-Tame P K t wait (init_timer t Timer.route_discovery_timeout d2) refl (
        init_timer-Tame P K t Timer.route_discovery_timeout d2 refl
          (rreq_send-Tame P K dest seqno ttl flags d v))

  discovery-Tame : (dest flags : ℕ) (d : Daemon) → On P d → On P (rreq_route_discovery dest flags d)
  unfolding On rreq_route_discovery
  discovery-Tame dest flags d v =
      let found = rt_table_find dest d.table in
      if-Tame P (is_some (seek_list_find dest d.seeking)) _ _ v (
        seek-Tame dest (start_seqno found) (start_ttl found d) flags
          (if d.cfg.expanding_ring_search
            then ring_traversal_time (start_ttl found d)
            else net_traversal_time)
          (keep_waiting dest d) (keep_waiting-Tame P K dest d v))

  repair-Tame : (a src : ℕ) (d : Daemon) → On P d → On P (rreq_local_repair a src d)
  unfolding On rreq_local_repair
  repair-Tame a src d v =
      let ttl = repair_ttl (rt a d) (rt_table_find src d.table) in
      if-Tame P _ _ _ v (
        seek-Tame (rt a d).dest_addr (rt a d).dest_seqno ttl 0
          (if d.cfg.expanding_ring_search
            then 2 * ttl * node_traversal_time
            else net_traversal_time)
          (keep_waiting a (set_handler (rt_timer a) expire_handler d))
          (keep_waiting-Tame P K a (set_handler (rt_timer a) expire_handler d)
            (set_handler-Tame P K (rt_timer a) expire_handler d refl v)))

  search_route-Tame :
      (o : Option Rt) (src dest flags : ℕ) (d : Daemon)
      → On P d
      → On P (search_route o src dest flags d)
  unfolding On search_route
  search_route-Tame none src dest flags d v = discovery-Tame dest flags d v
  search_route-Tame (some f) src dest flags d v =
      if-Tame P f.flags.repair _ _ (repair-Tame f.dest_addr src d v) (discovery-Tame dest flags d v)

  if-Tame₂ : (b : Bool) (x y : Daemon × Action) → On P x.0 → On P y.0 → On P (if b then x else y).0
  if-Tame₂ true x y p q = p
  if-Tame₂ false x y p q = q

  route_packet-Tame :
      (packet_id : ℕ) (p : List ℕ) (hook ifindex : ℕ) (d : Daemon)
      → On P d
      → On P (route_packet packet_id p hook ifindex d).0
  unfolding On route_packet
  route_packet-Tame packet_id p hook ifindex d v =
      let rev = rt_table_find (saddr p) d.table in
      let fwd = rt_table_find (daddr p) d.table in
      let d1 = rt_table_update_route_timeouts fwd rev d in
      let w = route_timeouts-Tame fwd rev d v in
      if-Tame₂ (not (no_route fwd)) _ _ w (
        if-Tame₂ ((hook == nf_inet_forward) && not (in_repair fwd)) _ _
          (unknown_dest-Tame (daddr p) fwd rev ifindex d1 w)
          (search_route-Tame fwd (saddr p) (daddr p) (if protocol p == ipproto_tcp then 4 else 0)
            (packet_queue_add packet_id (daddr p) d1) (queue_add-Tame packet_id (daddr p) d1 w)))

  handle_packet-Tame :
      (packet_id : ℕ) (p : List ℕ) (hook indev outdev : ℕ) (d : Daemon)
      → On P d
      → On P (packet_input_handle_packet packet_id p hook indev outdev d).0
  unfolding On packet_input_handle_packet
  handle_packet-Tame packet_id p hook indev outdev d v =
      let ifindex = if hook == nf_inet_forward then indev else outdev in
      if-Tame₂ (ltb (length p) iphdr_size || ltb (length p) (header_len p)) _ _ v (
        if-Tame₂ (let_through p ifindex outdev d.host) _ _ v
          (route_packet-Tame packet_id p hook ifindex d v))

  -- The verdict that follows touches nothing of it.
  give_verdict-Tame :
      (packet_id : ℕ) (r : Daemon × Action) → On P r.0 → On P (give_verdict packet_id r)
  unfolding On give_verdict
  give_verdict-Tame packet_id (d, accept) v = v
  give_verdict-Tame packet_id (d, drop) v = v
  give_verdict-Tame packet_id (d, queued) v = v

  pub nfqueue-Tame :
      (packet_id : ℕ) (p : List ℕ) (hook indev outdev : ℕ) (d : Daemon)
      → On P d
      → On P (nfqueue_packet_cb packet_id p hook indev outdev d)
  unfolding On nfqueue_packet_cb
  nfqueue-Tame packet_id p hook indev outdev d v =
      give_verdict-Tame packet_id (packet_input_handle_packet packet_id p hook indev outdev d)
        (handle_packet-Tame packet_id p hook indev outdev d v)
