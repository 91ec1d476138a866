-- ===== src/Sane/Inputs.antt =====
-- Packets of NFQUEUE keep the invariant.
use embedded_systems_wireles.Base.{
  ℕ, ◌≡◌, refl, ap, ◌∙◌, inl, inr, Option-cases, Bool, not, ◌&&◌, ◌||◌, Option, none, some, length,
  List, true, false, ◌==◌, arith, if◌then◌else◌, ltb,
}
use embedded_systems_wireles.Timer.{worb_timer}
use embedded_systems_wireles.Message.{rerr_calc_size}
use embedded_systems_wireles.Table.{Rt, is_valid, rt_table_find}
use embedded_systems_wireles.Daemon.{Daemon, rt, set_timeout, ifindex2devindex}
use embedded_systems_wireles.Lifetime.{
  rt_table_update_timeout, refresh_next_hop, refresh, refresh_route, refresh_opt, hello_used,
  rt_table_update_route_timeouts,
}
use embedded_systems_wireles.PacketQueue.{packet_queue_add}
use embedded_systems_wireles.Socket.{aodv_socket_send}
use embedded_systems_wireles.Rerr.{rerr_create}
use embedded_systems_wireles.PacketInput.{
  Action, accept, drop, queued, unknown_rerr, rerr_target, send_rerr_for_unknown_dest, saddr, daddr,
  no_route, in_repair, route_packet, let_through, header_len, packet_input_handle_packet,
  give_verdict, nfqueue_packet_cb, nf_inet_forward, protocol, ipproto_tcp, iphdr_size,
}
use embedded_systems_wireles.Sane.{Sane, Track}
use embedded_systems_wireles.Table.{Table, entry}
use embedded_systems_wireles.Sane.Owners.{found-Present, rt_table_find-found}
use embedded_systems_wireles.Table.Invariant.{Present}
use embedded_systems_wireles.Sane.Sends.{
  if-Sane, send-Sane, set_other-Sane, update_timeout-Sane, refresh_next_hop-Sane,
}
use embedded_systems_wireles.Sane.Searches.{make_room-table, queue_add-Sane, search_route-Sane}

update_timeout-table :
    (a life : ℕ) (d : Daemon) → (rt_table_update_timeout a life d).table ≡ d.table
unfolding rt_table_update_timeout
update_timeout-table a life d = ground arith

refresh_next_hop-table : (r : Rt) (b : Bool) (d : Daemon) → (refresh_next_hop r b d).table ≡ d.table
unfolding refresh_next_hop
refresh_next_hop-table r b d = elim (Option-cases (rt_table_find r.next_hop d.table)) [
  | inl e ↦ rw (e, refresh_next_hop) refl
  | inr (hop, e) ↦
      rw (e, refresh_next_hop)
        (ground (arith, update_timeout-table hop.dest_addr d.cfg.active_route_timeout d))
]

refresh_route-table : (r : Rt) (inet : Bool) (d : Daemon) → (refresh_route r inet d).table ≡ d.table
unfolding refresh_route refresh
refresh_route-table r inet d =
    let d1 = refresh r inet d in
    ground (
      arith,
      refresh_next_hop-table r (d1.cfg.llfeedback || hello_used r d1) d1,
      update_timeout-table r.dest_addr d.cfg.active_route_timeout d,
    )

-- Only timers are set.
refresh_opt-table :
    (o : Option Rt) (inet : Rt → Bool) (d : Daemon) → (refresh_opt o inet d).table ≡ d.table
unfolding refresh_opt
refresh_opt-table none inet d = refl
refresh_opt-table (some r) inet d = refresh_route-table r (inet r) d

route_timeouts-table :
    (fwd rev : Option Rt) (d : Daemon) → (rt_table_update_route_timeouts fwd rev d).table ≡ d.table
unfolding rt_table_update_route_timeouts
route_timeouts-table fwd rev d =
    let d1 = refresh_opt fwd (λ r. r.flags.inet_dest) d in
    refresh_opt-table rev (λ r. false) d1 ∙ refresh_opt-table fwd (λ r. r.flags.inet_dest) d

entry-found : (a : ℕ) (t : Table) (r : Rt) → rt_table_find a t ≡ some r → entry a t ≡ r
unfolding rt_table_find entry
entry-found a t r e = ground (arith, e)

module _ (rs : Track) where
  refresh_route-Sane :
      (r : Rt) (inet : Bool) (d : Daemon)
      → Present d.table r.dest_addr
      → Sane rs d
      → Sane rs (refresh_route r inet d)
  unfolding refresh_route refresh
  refresh_route-Sane r inet d p v =
      let d1 = refresh r inet d in
      if-Sane rs (is_valid r.state) _ _
        (refresh_next_hop-Sane rs r (d1.cfg.llfeedback || hello_used r d1) d1 (
          if-Sane rs _ _ _ (update_timeout-Sane rs r.dest_addr d.cfg.active_route_timeout d p v) v))
        v

  refresh_opt-Sane :
      (o : Option Rt) (inet : Rt → Bool) (d : Daemon)
      → ((r : Rt) → o ≡ some r → Present d.table r.dest_addr)
      → Sane rs d
      → Sane rs (refresh_opt o inet d)
  unfolding refresh_opt
  refresh_opt-Sane none inet d p v = v
  refresh_opt-Sane (some r) inet d p v = refresh_route-Sane r (inet r) d (p r refl) v

  unknown_rerr-Sane :
      (o : Option Rt) (dest : ℕ) (d : Daemon)
      → ((r : Rt) → o ≡ some r → Present d.table r.dest_addr)
      → Sane rs d
      → Sane rs (unknown_rerr o dest d)
  unfolding unknown_rerr rerr_create
  unknown_rerr-Sane none dest d p v = v
  unknown_rerr-Sane (some f) dest d p v =
      update_timeout-Sane rs f.dest_addr d.cfg.delete_period _ (p f refl) v

  unknown_dest-Sane :
      (dest : ℕ) (fwd rev : Option Rt) (ifindex : ℕ) (d : Daemon)
      → ((r : Rt) → fwd ≡ some r → Present d.table r.dest_addr)
      → Sane rs d
      → Sane rs (send_rerr_for_unknown_dest dest fwd rev ifindex d)
  unfolding send_rerr_for_unknown_dest
  unknown_dest-Sane dest fwd rev ifindex d p v =
      let d1 = unknown_rerr fwd dest d in
      let w =
        send-Sane rs (rerr_target rev) (rerr_calc_size 1) 1 (ifindex2devindex ifindex d1.host) d1
          (unknown_rerr-Sane fwd dest d p v) in
      let d2 =
        aodv_socket_send (rerr_target rev) (rerr_calc_size 1) 1 (ifindex2devindex ifindex d1.host)
          d1 in
      if-Sane rs d2.wait_on_reboot (set_timeout worb_timer d2.cfg.delete_period d2) d2
        (set_other-Sane rs worb_timer d2.cfg.delete_period d2 refl w) w

  route_timeouts-Sane :
      (fwd rev : Option Rt) (d : Daemon)
      → ((r : Rt) → fwd ≡ some r → Present d.table r.dest_addr)
      → ((r : Rt) → rev ≡ some r → Present d.table r.dest_addr)
      → Sane rs d
      → Sane rs (rt_table_update_route_timeouts fwd rev d)
  unfolding rt_table_update_route_timeouts
  route_timeouts-Sane fwd rev d p q v =
      let d1 = refresh_opt fwd (λ r. r.flags.inet_dest) d in
      refresh_opt-Sane rev (λ r. false) d1
        (λ r e. rw (refresh_opt-table fwd (λ r. r.flags.inet_dest) d) (q r e))
        (refresh_opt-Sane fwd (λ r. r.flags.inet_dest) d p v)

  if-Sane₂ :
      (b : Bool) (x y : Daemon × Action)
      → Sane rs x.0
      → Sane rs y.0
      → Sane rs (if b then x else y).0
  if-Sane₂ true x y p q = p
  if-Sane₂ false x y p q = q

  route_packet-Sane :
      (packet_id : ℕ) (p : List ℕ) (hook ifindex : ℕ) (d : Daemon)
      → Sane rs d
      → Sane rs (route_packet packet_id p hook ifindex d).0
  unfolding route_packet
  route_packet-Sane packet_id p hook ifindex d v =
      let rev = rt_table_find (saddr p) d.table in
      let fwd = rt_table_find (daddr p) d.table in
      let d1 = rt_table_update_route_timeouts fwd rev d in
      let p1 = found-Present (daddr p) d.table in
      let same : (packet_queue_add packet_id (daddr p) d1).table ≡ d.table =
        unfold packet_queue_add in make_room-table d1.queue d1 ∙ route_timeouts-table fwd rev d in
      let searched : (f : Rt)
          → fwd ≡ some f
          → (f.dest_addr ≡ daddr p)
            × (rt f.dest_addr (packet_queue_add packet_id (daddr p) d1) ≡ f) =
        λ f e.
          let q = (rt_table_find-found (daddr p) d.table f e).0 in
          (
            q,
            ap (λ t. entry f.dest_addr t) same
                ∙ ap (λ a. entry a d.table) q
                ∙ entry-found (daddr p) d.table f e,
          ) in
      let w = route_timeouts-Sane fwd rev d p1 (found-Present (saddr p) d.table) v in
      if-Sane₂ (not (no_route fwd)) _ _ w (
        if-Sane₂ ((hook == nf_inet_forward) && not (in_repair fwd)) _ _
          (unknown_dest-Sane (daddr p) fwd rev ifindex d1
            (λ r e. rw (route_timeouts-table fwd rev d) (p1 r e)) w)
          (search_route-Sane rs fwd (saddr p) (daddr p) (if protocol p == ipproto_tcp then 4 else 0)
            (packet_queue_add packet_id (daddr p) d1) searched
            (queue_add-Sane rs packet_id (daddr p) d1 w)))

  handle_packet-Sane :
      (packet_id : ℕ) (p : List ℕ) (hook indev outdev : ℕ) (d : Daemon)
      → Sane rs d
      → Sane rs (packet_input_handle_packet packet_id p hook indev outdev d).0
  unfolding packet_input_handle_packet
  handle_packet-Sane packet_id p hook indev outdev d v =
      let ifindex = if hook == nf_inet_forward then indev else outdev in
      if-Sane₂ (ltb (length p) iphdr_size || ltb (length p) (header_len p)) _ _ v (
        if-Sane₂ (let_through p ifindex outdev d.host) _ _ v
          (route_packet-Sane packet_id p hook ifindex d v))

  -- The verdict that follows touches nothing of it.
  give_verdict-Sane :
      (packet_id : ℕ) (r : Daemon × Action) → Sane rs r.0 → Sane rs (give_verdict packet_id r)
  unfolding give_verdict
  give_verdict-Sane packet_id (d, accept) v = v
  give_verdict-Sane packet_id (d, drop) v = v
  give_verdict-Sane packet_id (d, queued) v = v

  pub nfqueue-Sane :
      (packet_id : ℕ) (p : List ℕ) (hook indev outdev : ℕ) (d : Daemon)
      → Sane rs d
      → Sane rs (nfqueue_packet_cb packet_id p hook indev outdev d)
  unfolding nfqueue_packet_cb
  nfqueue-Sane packet_id p hook indev outdev d v =
      give_verdict-Sane packet_id (packet_input_handle_packet packet_id p hook indev outdev d)
        (handle_packet-Sane packet_id p hook indev outdev d v)
