-- ===== src/Tame/Hellos.antt =====
-- HELLO messages and new neighbours.
use embedded_systems_wireles.Base.{
  Option, some, ℕ, zero, suc, ◌+◌, ◌*◌, ◌%◌, ◌^◌, refl, inl, inr, not, ◌&&◌, none, List, ltb, ltb_ℤ,
  leb_ℤ, pos, pos_part, ◌+ℤ◌, ◌==◌, if◌then◌else◌, Option-cases,
}
use embedded_systems_wireles.Time.{timeval_diff}
use embedded_systems_wireles.Timer.{hello_timer, hello_beacon}
use embedded_systems_wireles.Message.{Rrep, allowed_hello_loss, hello_interval}
use embedded_systems_wireles.Table.{
  Rt, Flags, no_flags, valid, invalid, is_valid, rt_table_find, all_dests,
}
use embedded_systems_wireles.Daemon.{
  Daemon, modify_rt, init_timer, remove_timer, dev_ipaddr, max_nr_interfaces,
}
use embedded_systems_wireles.Route.{rt_table_insert}
use embedded_systems_wireles.Update.{rt_table_update}
use embedded_systems_wireles.Hello.{
  Scan, hello_jitter, next_hello, heard, hello_devs, hello_on, hello_stop, hello_send, hello_start,
  hello_update_timeout, hello_new, count_hello, hello_known, hello_process, touch_hello,
  neighbor_add, scan_exts, start_flags,
}
use embedded_systems_wireles.Timer
use embedded_systems_wireles.Timer.{Timers}
use embedded_systems_wireles.Tame.{Tame, On}
use embedded_systems_wireles.Tame.Sends.{
  set_timeout-Tame, init_timer-Tame, remove_timer-Tame, if-Tame, send-Tame, modify_rt-Tame,
}
use embedded_systems_wireles.Tame.Packets.{insert-Tame}
use embedded_systems_wireles.Tame.Routes.{update-Tame}

module _ (P : Timers → Type 0) (K : Tame P) where
  hello_devs-Tame :
      (n i : ℕ) (place : ℕ) (ns : List ℕ) (d : Daemon) → On P d → On P (hello_devs n i place ns d)
  unfolding On hello_devs hello_on
  hello_devs-Tame zero i place ns d v = v
  hello_devs-Tame (suc n) i place ns d v =
      let on = (d.host.devs i).enabled in
      hello_devs-Tame n (i + 1) (if on then place + 1 else place) ns
        (if on then hello_on i place ns d else d)
        (if-Tame P on (hello_on i place ns d) d (send-Tame P K _ _ _ _ _ v) v)

  pub hello_send-Tame : (d : Daemon) → On P d → On P (hello_send d)
  unfolding hello_send hello_stop
  hello_send-Tame d v =
      let quiet =
        d.cfg.optimized_hellos
        && ltb_ℤ (pos d.cfg.active_route_timeout) (timeval_diff d.now d.host.fwd_time) in
      let due = leb_ℤ (pos hello_interval) (timeval_diff d.now d.host.bcast_time) in
      let jitter = hello_jitter d in
      if-Tame P quiet (remove_timer hello_beacon d) _ (remove_timer-Tame P K hello_beacon d refl v)
        (if-Tame P due _ _
          (set_timeout-Tame P K hello_beacon (pos_part (pos hello_interval +ℤ jitter))
            (hello_devs max_nr_interfaces 0 0 (heard (all_dests d.table) d) d) refl
            (hello_devs-Tame max_nr_interfaces 0 0 (heard (all_dests d.table) d) d v))
          (set_timeout-Tame P K hello_beacon
            (next_hello (timeval_diff d.now d.host.bcast_time) jitter) d refl v))

  pub hello_start-Tame : (d : Daemon) → On P d → On P (hello_start d)
  unfolding hello_start
  hello_start-Tame d v =
      let d1 = record d { host = record (d.host) { fwd_time = d.now } } in
      if-Tame P (d.timers.cell hello_beacon).used _ _ v (
        hello_send-Tame (init_timer hello_beacon Timer.hello_send d1)
          (init_timer-Tame P K hello_beacon Timer.hello_send d1 refl (unfold On in v)))

  hello_update_timeout-Tame : (a t : ℕ) (d : Daemon) → On P d → On P (hello_update_timeout a t d)
  unfolding On hello_update_timeout
  hello_update_timeout-Tame a t d v = set_timeout-Tame P K (hello_timer a) (t + 50) d refl v

  hello_new-Tame :
      (a seqno interval t : ℕ) (flags : Flags) (ifindex : ℕ) (d : Daemon)
      → On P d
      → On P (hello_new a seqno interval t flags ifindex d)
  unfolding On hello_new
  hello_new-Tame a seqno interval t flags ifindex d v =
      let state = if d.cfg.receive_n_hellos == 0 then valid else invalid in
      let d1 = rt_table_insert a a 1 seqno t state flags ifindex d in
      hello_update_timeout-Tame a ((allowed_hello_loss * interval) % 2 ^ 32)
        (modify_rt a (λ r. record r { hello_cnt = 1 }) d1)
        (modify_rt-Tame P K a (λ r. record r { hello_cnt = 1 }) d1
          (insert-Tame P K a a 1 seqno t state flags ifindex d v))

  hello_known-Tame :
      (r : Rt) (seqno interval t : ℕ) (flags : Flags) (d : Daemon)
      → On P d
      → On P (hello_known r seqno interval t flags d)
  unfolding On hello_known count_hello
  hello_known-Tame r seqno interval t flags d v =
      if-Tame P (flags.unidir && is_valid r.state && ltb 1 r.hcnt) _ _
        (hello_update_timeout-Tame r.dest_addr ((allowed_hello_loss * interval) % 2 ^ 32) d v)
        (if-Tame P _ _ _ v (
          hello_update_timeout-Tame r.dest_addr ((allowed_hello_loss * interval) % 2 ^ 32)
            (rt_table_update r.dest_addr r.dest_addr 1 seqno t valid flags d)
            (update-Tame P K r.dest_addr r.dest_addr 1 seqno t valid flags d v)))

  known_or_new :
      (o : Option Rt) (m : Rrep) (s : Scan) (t ifindex : ℕ) (d : Daemon)
      → On P d
      → On P (elim o [
        | none ↦ hello_new m.dest_addr m.dest_seqno s.interval t s.flags ifindex d
        | some r ↦ hello_known r m.dest_seqno s.interval t s.flags d
      ])
  known_or_new none m s t ifindex d v =
      hello_new-Tame m.dest_addr m.dest_seqno s.interval t s.flags ifindex d v
  known_or_new (some r) m s t ifindex d v = hello_known-Tame r m.dest_seqno s.interval t s.flags d v

  -- hello_process keeps the property.
  pub hello_process-Tame :
      (m : Rrep) (len ifindex : ℕ) (d : Daemon) → On P d → On P (hello_process m len ifindex d)
  unfolding hello_process
  hello_process-Tame m len ifindex d v =
      let found = rt_table_find m.dest_addr d.table in
      let s =
        scan_exts (dev_ipaddr ifindex d) len m.exts
          (record { interval = hello_interval; flags = start_flags found d }) in
      known_or_new found m s ((allowed_hello_loss * s.interval + 100) % 2 ^ 32) ifindex d v

  touch_hello-Tame : (a : ℕ) (d : Daemon) → On P d → On P (touch_hello a d)
  unfolding On touch_hello
  touch_hello-Tame a d v =
      if-Tame P (not d.cfg.llfeedback && (d.timers.cell (hello_timer a)).used) _ _
        (hello_update_timeout-Tame a _ d v) v

  -- neighbor_add keeps the property.
  pub neighbor_add-Tame : (a ifindex : ℕ) (d : Daemon) → On P d → On P (neighbor_add a ifindex d)
  unfolding On neighbor_add
  neighbor_add-Tame a ifindex d v = elim (Option-cases (rt_table_find a d.table)) [
    | inl e ↦
        rw (e, neighbor_add)
          (touch_hello-Tame a
            (rt_table_insert a a 1 0 d.cfg.active_route_timeout valid no_flags ifindex d)
            (insert-Tame P K a a 1 0 d.cfg.active_route_timeout valid no_flags ifindex d v))
    | inr (r, e) ↦
        rw (e, neighbor_add)
          (if-Tame P r.flags.unidir _ _ v (
            touch_hello-Tame a
              (rt_table_update a a 1 r.dest_seqno d.cfg.active_route_timeout valid r.flags d)
              (update-Tame P K a a 1 r.dest_seqno d.cfg.active_route_timeout valid r.flags d v)))
  ]
