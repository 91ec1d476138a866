-- ===== src/Tame/Sends.antt =====
-- Sending, and the writes to single entries.
use embedded_systems_wireles.Base.{
  ℕ, zero, suc, ◌+◌, inl, inr, refl, ◌≡◌, Bool, true, false, ◌&&◌, ltb_ℤ, pos, ◌==◌, if◌then◌else◌,
  Bool-cases, Option-cases,
}
use embedded_systems_wireles.Time.{timeval_diff, timeval_add_msec}
use embedded_systems_wireles.Timer.{TimerId, Handler, rt_timer}
use embedded_systems_wireles.Message.{Msg, rreq, rrep, rerr, rrep_ack, empty}
use embedded_systems_wireles.Table.{Rt, is_valid, rt_table_find}
use embedded_systems_wireles.Daemon.{
  Daemon, modify_rt, rt, set_timeout, init_timer, remove_timer, set_handler,
}
use embedded_systems_wireles.Socket.{
  may_send, note_sent, transmit, limited, is_rrep, aodv_socket_send, for_devs, for_all_devs,
}
use embedded_systems_wireles.Lifetime.{rt_table_update_timeout, refresh_next_hop}
use embedded_systems_wireles.Timer.{Timers}
use embedded_systems_wireles.Tame.{Tame, On, ordinary, may_install}

-- A branch keeps the property if both sides do.
pub if-Tame :
    (P : Timers → Type 0) (b : Bool) (x y : Daemon) → On P x → On P y → On P (if b then x else y)
if-Tame P true x y p q = p
if-Tame P false x y p q = q

module _ (P : Timers → Type 0) (K : Tame P) where
  pub set_timeout-Tame :
      (t : TimerId) (msec : ℕ) (d : Daemon)
      → ordinary t ≡ true
      → On P d
      → On P (set_timeout t msec d)
  unfolding On
  set_timeout-Tame t msec d o v = K.timeout t d.now msec d.timers o v

  pub init_timer-Tame :
      (t : TimerId) (f : Handler) (d : Daemon)
      → may_install t f ≡ true
      → On P d
      → On P (init_timer t f d)
  unfolding On
  init_timer-Tame t f d o v = K.init t f d.timers o v

  pub remove_timer-Tame :
      (t : TimerId) (d : Daemon) → ordinary t ≡ true → On P d → On P (remove_timer t d)
  unfolding On
  remove_timer-Tame t d o v = K.remove t d.timers o v

  pub set_handler-Tame :
      (t : TimerId) (f : Handler) (d : Daemon)
      → may_install t f ≡ true
      → On P d
      → On P (set_handler t f d)
  unfolding On
  set_handler-Tame t f d o v = K.handler t f d.timers o v

  transmit-Tame : (dst len ttl dev : ℕ) (d : Daemon) → On P d → On P (transmit dst len ttl dev d)
  unfolding On transmit
  transmit-Tame dst len ttl dev d v = elim (Bool-cases (dst == 0xffffffff)) [
    | inl e ↦ rw e v
    | inr e ↦ rw e v
  ]

  limited-Tame :
      (m : Msg) (dst len ttl dev : ℕ) (d : Daemon) → On P d → On P (limited m dst len ttl dev d)
  unfolding On limited
  limited-Tame (rreq m) dst len ttl dev d v =
      if-Tame P (may_send d.now d.rreq_ratel) _ _
        (transmit-Tame dst len ttl dev (record d { rreq_ratel = note_sent d.now d.rreq_ratel }) v) v
  limited-Tame (rerr m) dst len ttl dev d v =
      if-Tame P (may_send d.now d.rerr_ratel) _ _
        (transmit-Tame dst len ttl dev (record d { rerr_ratel = note_sent d.now d.rerr_ratel }) v) v
  limited-Tame (rrep m) dst len ttl dev d v = transmit-Tame dst len ttl dev d v
  limited-Tame rrep_ack dst len ttl dev d v = transmit-Tame dst len ttl dev d v
  limited-Tame empty dst len ttl dev d v = transmit-Tame dst len ttl dev d v

  pub send-Tame :
      (dst len ttl dev : ℕ) (d : Daemon) → On P d → On P (aodv_socket_send dst len ttl dev d)
  unfolding On aodv_socket_send
  send-Tame dst len ttl dev d v = if-Tame P (d.wait_on_reboot && is_rrep d.send_buf) _ _ v (
      if-Tame P d.cfg.ratelimit _ _ (limited-Tame d.send_buf dst len ttl dev d v)
        (transmit-Tame dst len ttl dev d v))

  for_devs-Tame :
      (n i : ℕ) (body : ℕ → Daemon → Daemon) (d : Daemon)
      → ((j : ℕ) (x : Daemon) → On P x → On P (body j x))
      → On P d
      → On P (for_devs n i body d)
  unfolding On for_devs
  for_devs-Tame zero i body d h v = v
  for_devs-Tame (suc n) i body d h v =
      for_devs-Tame n (i + 1) body (if (d.host.devs i).enabled then body i d else d) h
        (if-Tame P (d.host.devs i).enabled _ _ (h i d v) v)

  pub for_all_devs-Tame :
      (body : ℕ → Daemon → Daemon) (d : Daemon)
      → ((j : ℕ) (x : Daemon) → On P x → On P (body j x))
      → On P d
      → On P (for_all_devs body d)
  unfolding On for_all_devs
  for_all_devs-Tame body d h v = for_devs-Tame _ 0 body d h v

  pub update_timeout-Tame :
      (a life : ℕ) (d : Daemon) → On P d → On P (rt_table_update_timeout a life d)
  unfolding rt_table_update_timeout
  update_timeout-Tame a life d v = elim (Bool-cases (is_valid (rt a d).state)) [
    | inr e ↦ rw e (set_timeout-Tame (rt_timer a) life d refl v)
    | inl e ↦
        let short =
          ltb_ℤ (timeval_diff (d.timers.cell (rt_timer a)).timeout (timeval_add_msec d.now life))
            (pos 0) in
        rw e (elim (Bool-cases short) [
          | inl f ↦ rw f (set_timeout-Tame (rt_timer a) life d refl v)
          | inr f ↦ rw f v
        ])
  ]

  pub modify_rt-Tame : (a : ℕ) (f : Rt → Rt) (d : Daemon) → On P d → On P (modify_rt a f d)
  unfolding On
  modify_rt-Tame a f d v = v

  pub refresh_next_hop-Tame :
      (r : Rt) (b : Bool) (d : Daemon) → On P d → On P (refresh_next_hop r b d)
  unfolding On refresh_next_hop
  refresh_next_hop-Tame r b d v = elim (Option-cases (rt_table_find r.next_hop d.table)) [
    | inl e ↦ rw (e, refresh_next_hop) v
    | inr (hop, e) ↦
        rw (e, refresh_next_hop)
          (if-Tame P _ _ _ (update_timeout-Tame hop.dest_addr d.cfg.active_route_timeout d v) v)
  ]
