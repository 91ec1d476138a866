-- ===== src/Sane/Sends.antt =====
-- Sending, timers and the writes to single entries.
use embedded_systems_wireles.Base.{
  ℕ, zero, suc, ◌+◌, ◌-◌, ◌≤◌, ◌≡◌, refl, inl, inr, Bool, true, false, ◌&&◌, List, [], ◌∷◌, arith,
  All-map, length, length-append, ltb_ℤ, pos, ◌==◌, if◌then◌else◌, Bool-cases, Option-cases,
}
use embedded_systems_wireles.Time.{Timeval, timeval_diff, timeval_add_msec}
use embedded_systems_wireles.Timer.{TimerId, rt_timer, owner, of_route}
use embedded_systems_wireles.Message.{Msg, rreq, rrep, rerr, rrep_ack, empty, rate_limit}
use embedded_systems_wireles.Table.{Rt, is_valid, rt_table_find, modify}
use embedded_systems_wireles.Table.Invariant.{Keeps, modify-TableOk, Present, Present-modify}
use embedded_systems_wireles.Daemon.{Daemon, modify_rt, rt, set_timeout, remove_timer}
use embedded_systems_wireles.Socket.{
  may_send, note_sent, transmit, limited, is_rrep, aodv_socket_send, for_devs, for_all_devs,
}
use embedded_systems_wireles.Lifetime.{rt_table_update_timeout, refresh_next_hop}
use embedded_systems_wireles.Sane.{Sane, Track}
use embedded_systems_wireles.Sane.Owners.{
  grown-Owned, timer_remove-Owned, timer_set_timeout-Owned, found-Present,
}

-- A branch keeps the invariant if both sides do.
pub if-Sane :
    (rs : Track) (b : Bool) (x y : Daemon) → Sane rs x → Sane rs y → Sane rs (if b then x else y)
if-Sane rs true x y p q = p
if-Sane rs false x y p q = q

-- The same, with what the test says.
pub cases-Sane :
    (rs : Track) (b : Bool) (x y : Daemon)
    → (b ≡ true → Sane rs x)
    → (b ≡ false → Sane rs y)
    → Sane rs (if b then x else y)
cases-Sane rs true x y p q = p refl
cases-Sane rs false x y p q = q refl

pub length-note_sent :
    (now : Timeval) (ts : List Timeval)
    → length ts ≤ rate_limit - 1
    → length (note_sent now ts) ≤ rate_limit - 1
unfolding note_sent
length-note_sent now [] h = omega arith
length-note_sent now (t ∷ ts) h =
    ground (arith, length-append ts (now ∷ []), length-append (t ∷ ts) (now ∷ []))

module _ (rs : Track) where
  transmit-Sane :
      (dst len ttl dev : ℕ) (d : Daemon) → Sane rs d → Sane rs (transmit dst len ttl dev d)
  unfolding transmit
  transmit-Sane dst len ttl dev d v = elim (Bool-cases (dst == 0xffffffff)) [
    | inl e ↦ rw e v
    | inr e ↦ rw e v
  ]

  limited-Sane :
      (m : Msg) (dst len ttl dev : ℕ) (d : Daemon)
      → Sane rs d
      → Sane rs (limited m dst len ttl dev d)
  unfolding limited
  limited-Sane (rreq m) dst len ttl dev d v =
      if-Sane rs (may_send d.now d.rreq_ratel) _ _
        (transmit-Sane dst len ttl dev (record d { rreq_ratel = note_sent d.now d.rreq_ratel })
          (v.0, v.1, length-note_sent d.now d.rreq_ratel v.2, v.3, v.4, v.5, v.6))
        v
  limited-Sane (rerr m) dst len ttl dev d v =
      if-Sane rs (may_send d.now d.rerr_ratel) _ _
        (transmit-Sane dst len ttl dev (record d { rerr_ratel = note_sent d.now d.rerr_ratel })
          (v.0, v.1, v.2, length-note_sent d.now d.rerr_ratel v.3, v.4, v.5, v.6))
        v
  limited-Sane (rrep m) dst len ttl dev d v = transmit-Sane dst len ttl dev d v
  limited-Sane rrep_ack dst len ttl dev d v = transmit-Sane dst len ttl dev d v
  limited-Sane empty dst len ttl dev d v = transmit-Sane dst len ttl dev d v

  pub send-Sane :
      (dst len ttl dev : ℕ) (d : Daemon) → Sane rs d → Sane rs (aodv_socket_send dst len ttl dev d)
  unfolding aodv_socket_send
  send-Sane dst len ttl dev d v = if-Sane rs (d.wait_on_reboot && is_rrep d.send_buf) _ _ v (
      if-Sane rs d.cfg.ratelimit _ _ (limited-Sane d.send_buf dst len ttl dev d v)
        (transmit-Sane dst len ttl dev d v))

  for_devs-Sane :
      (n i : ℕ) (body : ℕ → Daemon → Daemon) (d : Daemon)
      → ((j : ℕ) (x : Daemon) → Sane rs x → Sane rs (body j x))
      → Sane rs d
      → Sane rs (for_devs n i body d)
  unfolding for_devs
  for_devs-Sane zero i body d h v = v
  for_devs-Sane (suc n) i body d h v =
      for_devs-Sane n (i + 1) body (if (d.host.devs i).enabled then body i d else d) h
        (if-Sane rs (d.host.devs i).enabled _ _ (h i d v) v)

  pub for_all_devs-Sane :
      (body : ℕ → Daemon → Daemon) (d : Daemon)
      → ((j : ℕ) (x : Daemon) → Sane rs x → Sane rs (body j x))
      → Sane rs d
      → Sane rs (for_all_devs body d)
  unfolding for_all_devs
  for_all_devs-Sane body d h v = for_devs-Sane _ 0 body d h v

  pub modify_rt-Sane :
      (a : ℕ) (f : Rt → Rt) (d : Daemon) → Keeps f → Sane rs d → Sane rs (modify_rt a f d)
  modify_rt-Sane a f d k v = (
    modify-TableOk a f d.table k v.0,
    v.1,
    v.2,
    v.3,
    All-map (Present d.table) (Present (modify a f d.table))
        (λ c h. Present-modify a c f d.table k h) rs.present v.4,
    grown-Owned d.table (modify a f d.table) d.timers (λ c h. Present-modify a c f d.table k h) v.5,
    v.6,
  )

  pub set_timeout-Sane :
      (t : TimerId) (msec : ℕ) (d : Daemon)
      → (of_route t ≡ true → Present d.table (owner t))
      → Sane rs d
      → Sane rs (set_timeout t msec d)
  set_timeout-Sane t msec d p v =
      (v.0, v.1, v.2, v.3, v.4, timer_set_timeout-Owned d.table t d.now msec d.timers p v.5, v.6)

  -- A timer that is no entry's.
  pub set_other-Sane :
      (t : TimerId) (msec : ℕ) (d : Daemon)
      → of_route t ≡ false
      → Sane rs d
      → Sane rs (set_timeout t msec d)
  set_other-Sane t msec d e v = set_timeout-Sane t msec d (λ h. absurd (ground (arith, e, h))) v

  pub remove_timer-Sane : (t : TimerId) (d : Daemon) → Sane rs d → Sane rs (remove_timer t d)
  remove_timer-Sane t d v =
      (v.0, v.1, v.2, v.3, v.4, timer_remove-Owned d.table t d.timers v.5, v.6)

  pub update_timeout-Sane :
      (a life : ℕ) (d : Daemon)
      → Present d.table a
      → Sane rs d
      → Sane rs (rt_table_update_timeout a life d)
  unfolding rt_table_update_timeout
  update_timeout-Sane a life d p v =
      let w = set_timeout-Sane (rt_timer a) life d (λ h. p) v in
      if-Sane rs (is_valid (rt a d).state) _ _
        (if-Sane rs
          (ltb_ℤ (timeval_diff (d.timers.cell (rt_timer a)).timeout (timeval_add_msec d.now life))
            (pos 0))
          _ _ w v)
        w

  pub refresh_next_hop-Sane :
      (r : Rt) (b : Bool) (d : Daemon) → Sane rs d → Sane rs (refresh_next_hop r b d)
  unfolding refresh_next_hop
  refresh_next_hop-Sane r b d v = elim (Option-cases (rt_table_find r.next_hop d.table)) [
    | inl e ↦ rw (e, refresh_next_hop) v
    | inr (hop, e) ↦
        rw (e, refresh_next_hop)
          (if-Sane rs _ _ _
            (update_timeout-Sane hop.dest_addr d.cfg.active_route_timeout d
              (found-Present r.next_hop d.table hop e) v)
            v)
  ]

-- One more destination that has an entry, to be followed.
abbrev pub follow : ℕ → Track → Track
follow a rs = record rs { present = a ∷ rs.present }

pub follow-Sane :
    (a : ℕ) (rs : Track) (d : Daemon) → Present d.table a → Sane rs d → Sane (follow a rs) d
follow-Sane a rs d p v = (v.0, v.1, v.2, v.3, (p, v.4), v.5, v.6)

pub unfollow-Sane : (a : ℕ) (rs : Track) (d : Daemon) → Sane (follow a rs) d → Sane rs d
unfollow-Sane a rs d v = (v.0, v.1, v.2, v.3, v.4.1, v.5, v.6)
