-- ===== src/Sane/Hellos.antt =====
-- HELLO messages and new neighbours.
use embedded_systems_wireles.Base.{
  ℕ, zero, suc, ◌+◌, ◌*◌, ◌%◌, ◌^◌, refl, inl, inr, not, ◌&&◌, none, List, ltb, ltb_ℤ, leb_ℤ, pos,
  pos_part, ◌+ℤ◌, ◌≡◌, Option, some, ◌==◌, if◌then◌else◌, Option-cases,
}
use embedded_systems_wireles.Time.{timeval_diff}
use embedded_systems_wireles.Timer.{
  timer_init, hello_timer, hello_beacon, hello_send as hello_handler,
}
use embedded_systems_wireles.Message.{Rrep, allowed_hello_loss, hello_interval}
use embedded_systems_wireles.Table.{
  Rt, Flags, no_flags, valid, invalid, is_valid, rt_table_find, all_dests,
}
use embedded_systems_wireles.Daemon.{
  Daemon, init_timer, set_timeout, modify_rt, dev_ipaddr, max_nr_interfaces,
}
use embedded_systems_wireles.Route.{rt_table_insert}
use embedded_systems_wireles.Update.{rt_table_update}
use embedded_systems_wireles.Hello.{
  heard, hello_devs, hello_on, hello_stop, hello_send, hello_start, hello_update_timeout, hello_new,
  count_hello, hello_known, hello_process, touch_hello, neighbor_add, scan_exts, start_flags,
  hello_jitter, next_hello,
}
use embedded_systems_wireles.Sane.{Sane, Track}
use embedded_systems_wireles.Sane.Sends.{
  if-Sane, send-Sane, modify_rt-Sane, set_timeout-Sane, set_other-Sane, remove_timer-Sane, follow,
  unfollow-Sane,
}
use embedded_systems_wireles.Sane.Owners.{found-Present, rt_table_find-found}
use embedded_systems_wireles.Table.Invariant.{Present}
use embedded_systems_wireles.Sane.Packets.{inserted-Sane}
use embedded_systems_wireles.Sane.Routes.{updated-Sane}

module _ (rs : Track) where
  hello_devs-Sane :
      (n i : ℕ) (place : ℕ) (ns : List ℕ) (d : Daemon)
      → Sane rs d
      → Sane rs (hello_devs n i place ns d)
  unfolding hello_devs hello_on
  hello_devs-Sane zero i place ns d v = v
  hello_devs-Sane (suc n) i place ns d v =
      let on = (d.host.devs i).enabled in
      hello_devs-Sane n (i + 1) (if on then place + 1 else place) ns
        (if on then hello_on i place ns d else d)
        (if-Sane rs on (hello_on i place ns d) d (send-Sane rs _ _ _ _ _ v) v)

  pub hello_send-Sane : (d : Daemon) → Sane rs d → Sane rs (hello_send d)
  unfolding hello_send hello_stop
  hello_send-Sane d v =
      let time_diff = timeval_diff d.now d.host.bcast_time in
      let sent = hello_devs max_nr_interfaces 0 0 (heard (all_dests d.table) d) d in
      let long = pos_part (pos hello_interval +ℤ hello_jitter d) in
      let short = next_hello time_diff (hello_jitter d) in
      if-Sane rs
        (d.cfg.optimized_hellos
          && ltb_ℤ (pos d.cfg.active_route_timeout) (timeval_diff d.now d.host.fwd_time))
        (hello_stop d) _ (remove_timer-Sane rs hello_beacon d v)
        (if-Sane rs (leb_ℤ (pos hello_interval) time_diff) (set_timeout hello_beacon long sent)
          (set_timeout hello_beacon short d)
          (set_other-Sane rs hello_beacon long sent refl
            (hello_devs-Sane max_nr_interfaces 0 0 (heard (all_dests d.table) d) d v))
          (set_other-Sane rs hello_beacon short d refl v))

  pub hello_start-Sane : (d : Daemon) → Sane rs d → Sane rs (hello_start d)
  unfolding hello_start timer_init
  hello_start-Sane d v = if-Sane rs (d.timers.cell hello_beacon).used d _ v (
      hello_send-Sane
        (init_timer hello_beacon hello_handler
          (record d { host = record (d.host) { fwd_time = d.now } }))
        v)

  pub hello_update_timeout-Sane :
      (a t : ℕ) (d : Daemon) → Present d.table a → Sane rs d → Sane rs (hello_update_timeout a t d)
  unfolding hello_update_timeout
  hello_update_timeout-Sane a t d p v =
      modify_rt-Sane rs a (λ r. record r { last_hello_time = d.now })
        (set_timeout (hello_timer a) (t + 50) d) (λ r. (refl, refl, λ h. h))
        (set_timeout-Sane rs (hello_timer a) (t + 50) d (λ h. p) v)

  touch_hello-Sane :
      (a : ℕ) (d : Daemon) → Present d.table a → Sane rs d → Sane rs (touch_hello a d)
  unfolding touch_hello
  touch_hello-Sane a d p v =
      if-Sane rs (not d.cfg.llfeedback && (d.timers.cell (hello_timer a)).used) _ _
        (hello_update_timeout-Sane a (allowed_hello_loss * hello_interval) d p v) v

module _ (rs : Track) where
  hello_new-Sane :
      (a seqno interval t : ℕ) (flags : Flags) (ifindex : ℕ) (d : Daemon)
      → Sane rs d
      → Sane rs (hello_new a seqno interval t flags ifindex d)
  unfolding hello_new
  hello_new-Sane a seqno interval t flags ifindex d v =
      let state = if d.cfg.receive_n_hellos == 0 then valid else invalid in
      let d1 = rt_table_insert a a 1 seqno t state flags ifindex d in
      let d2 = modify_rt a (λ r. record r { hello_cnt = 1 }) d1 in
      let loss = (allowed_hello_loss * interval) % 2 ^ 32 in
      let w =
        modify_rt-Sane (follow a rs) a (λ r. record r { hello_cnt = 1 }) d1
          (λ r. (refl, refl, λ h. h)) (inserted-Sane rs a a 1 seqno t state flags ifindex d v) in
      hello_update_timeout-Sane rs a loss d2 w.4.0 (unfollow-Sane a rs d2 w)

  hello_known-Sane :
      (r : Rt) (seqno interval t : ℕ) (flags : Flags) (d : Daemon)
      → Present d.table r.dest_addr
      → Sane rs d
      → Sane rs (hello_known r seqno interval t flags d)
  unfolding hello_known count_hello
  hello_known-Sane r seqno interval t flags d p v =
      let a = r.dest_addr in
      let loss = (allowed_hello_loss * interval) % 2 ^ 32 in
      let d1 = rt_table_update a a 1 seqno t valid flags d in
      let w = updated-Sane rs a a 1 seqno t valid flags d p v in
      if-Sane rs (flags.unidir && is_valid r.state && ltb 1 r.hcnt) _ _
        (hello_update_timeout-Sane rs a loss d p v)
        (if-Sane rs _ _ _ (modify_rt-Sane rs a _ d (λ q. (refl, refl, λ h. h)) v)
          (hello_update_timeout-Sane rs a loss d1 w.4.0 (unfollow-Sane a rs d1 w)))

  known_or_new :
      (o : Option Rt) (a seqno interval t : ℕ) (flags : Flags) (ifindex : ℕ) (d : Daemon)
      → ((r : Rt) → o ≡ some r → Present d.table r.dest_addr)
      → Sane rs d
      → Sane rs (elim o [
        | none ↦ hello_new a seqno interval t flags ifindex d
        | some r ↦ hello_known r seqno interval t flags d
      ])
  known_or_new none a seqno interval t flags ifindex d p v =
      hello_new-Sane a seqno interval t flags ifindex d v
  known_or_new (some r) a seqno interval t flags ifindex d p v =
      hello_known-Sane r seqno interval t flags d (p r refl) v

  -- hello_process keeps the invariant.
  pub hello_process-Sane :
      (m : Rrep) (len ifindex : ℕ) (d : Daemon)
      → Sane rs d
      → Sane rs (hello_process m len ifindex d)
  unfolding hello_process
  hello_process-Sane m len ifindex d v =
      let found = rt_table_find m.dest_addr d.table in
      let s =
        scan_exts (dev_ipaddr ifindex d) len m.exts
          (record { interval = hello_interval; flags = start_flags found d }) in
      known_or_new found m.dest_addr m.dest_seqno s.interval
        ((allowed_hello_loss * s.interval + 100) % 2 ^ 32) s.flags ifindex d
        (found-Present m.dest_addr d.table) v

  -- neighbor_add keeps the invariant.
  pub neighbor_add-Sane :
      (a ifindex : ℕ) (d : Daemon) → Sane rs d → Sane rs (neighbor_add a ifindex d)
  unfolding neighbor_add
  neighbor_add-Sane a ifindex d v = elim (Option-cases (rt_table_find a d.table)) [
    | inl e ↦
        let d1 = rt_table_insert a a 1 0 d.cfg.active_route_timeout valid no_flags ifindex d in
        let w = inserted-Sane rs a a 1 0 d.cfg.active_route_timeout valid no_flags ifindex d v in
        rw (e, neighbor_add) (touch_hello-Sane rs a d1 w.4.0 (unfollow-Sane a rs d1 w))
    | inr (r, e) ↦
        let d1 = rt_table_update a a 1 r.dest_seqno d.cfg.active_route_timeout valid r.flags d in
        let w =
          updated-Sane rs a a 1 r.dest_seqno d.cfg.active_route_timeout valid r.flags d
            (rt_table_find-found a d.table r e).1 v in
        rw (e, neighbor_add)
          (if-Sane rs r.flags.unidir _ _ v
            (touch_hello-Sane rs a d1 w.4.0 (unfollow-Sane a rs d1 w)))
  ]
