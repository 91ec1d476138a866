-- ===== src/Sane/Queue.antt =====
-- The packet queue and the seek list: what is sent, given up or sought keeps the invariant.
use mathlib.Core.Path.{subst}
use embedded_systems_wireles.Base.{
  if◌then◌else◌, ℕ, ◌-◌, ◌≡◌, ◌≢◌, ◌∙◌, sym, All, refl, inl, inr, Bool, true, false, Option, none,
  some, List, [], ◌∷◌, arith, ◌==◌, Bool-cases, is_some,
}
use embedded_systems_wireles.Table.{Rt, is_valid, hashing}
use embedded_systems_wireles.Table.Invariant.{TableOk, Present}
use embedded_systems_wireles.Table.Entry.{valid_Present, find_in-some}
use embedded_systems_wireles.Table.Map.{rt_table_find-find_in}
use embedded_systems_wireles.Timer.{seek_timer}
use embedded_systems_wireles.Daemon.{Daemon, Packet, Seek, rt, emit, verdict, remove_timer}
use embedded_systems_wireles.Seek.{seek_list_find, seek_list_remove, without_seek}
use embedded_systems_wireles.PacketQueue.{
  PqVerdict, pq_drop, pq_send, pq_enc_send, settle, refresh_both, verdict_route,
  packet_queue_set_verdict,
}
use embedded_systems_wireles.Route.{send_buffered}
use embedded_systems_wireles.Sane.{Sane, Track, Searched}
use embedded_systems_wireles.Sane.Owners.{found-Present}
use embedded_systems_wireles.Sane.Sends.{
  if-Sane, cases-Sane, update_timeout-Sane, refresh_next_hop-Sane, remove_timer-Sane, follow,
  follow-Sane, unfollow-Sane,
}

settle-seeking :
    (hit : Packet → Bool) (ok : Bool) (ps : List Packet) (d : Daemon)
    → (settle hit ok ps d).seeking ≡ d.seeking
unfolding settle
settle-seeking hit ok [] d = refl
settle-seeking hit ok (p ∷ ps) d = elim (Bool-cases (hit p)) [
  | inl e ↦ rw e (
      settle-seeking hit ok ps
        (emit (verdict p.packet_id ok) (record d { queue_len = d.queue_len - 1 })))
  | inr e ↦ rw e (settle-seeking hit ok ps d)
]

-- A destination of which every packet has been settled.
pub settle-none :
    (a : ℕ) (ok : Bool) (ps : List Packet) (d : Daemon)
    → All (λ p. (p.dest_addr == a) ≡ false) (settle (λ p. p.dest_addr == a) ok ps d).queue
unfolding settle
settle-none a ok [] d = tt
settle-none a ok (p ∷ ps) d = elim (Bool-cases (p.dest_addr == a)) [
  | inl e ↦ rw e (
      settle-none a ok ps
        (emit (verdict p.packet_id ok) (record d { queue_len = d.queue_len - 1 })))
  | inr e ↦ rw e (e, settle-none a ok ps d)
]

-- A destination that is not sought any more: its packets are excepted.
abbrev pub opened : ℕ → Track → Track
opened a rs = record rs { exempt = a ∷ rs.exempt }

pub close-Sane :
    (a : ℕ) (rs : Track) (d : Daemon)
    → All (λ p. (p.dest_addr == a) ≡ false) d.queue
    → Sane (opened a rs) d
    → Sane rs d
close-Sane a rs d n v = (v.0, v.1, v.2, v.3, v.4, v.5, closed d.queue n v.6)
  where
    closed :
        (ps : List Packet)
        → All (λ p. (p.dest_addr == a) ≡ false) ps
        → All (Searched (a ∷ rs.exempt) d.seeking) ps
        → All (Searched rs.exempt d.seeking) ps
    closed [] n w = tt
    closed (p ∷ ps) n w = (ground (arith, n.0, w.0), closed ps n.1 w.1)

-- A destination that is sought need not be excepted.
pub sought-Sane :
    (a : ℕ) (rs : Track) (d : Daemon)
    → is_some (seek_list_find a d.seeking) ≡ true
    → Sane (opened a rs) d
    → Sane rs d
sought-Sane a rs d h v = (v.0, v.1, v.2, v.3, v.4, v.5, covered d.queue v.6)
  where
    covered :
        (ps : List Packet)
        → All (Searched (a ∷ rs.exempt) d.seeking) ps
        → All (Searched rs.exempt d.seeking) ps
    covered [] w = tt
    covered (p ∷ ps) w = elim (Bool-cases (a == p.dest_addr)) [
      | inl e ↦
          let q : a ≡ p.dest_addr = ground arith in (rw (← q) (ground (arith, h)), covered ps w.1)
      | inr e ↦ (ground (arith, e, w.0), covered ps w.1)
    ]

module _ (rs : Track) where
  pub settle-Sane :
      (hit : Packet → Bool) (ok : Bool) (ps : List Packet) (d : Daemon)
      → All (Searched rs.exempt d.seeking) ps
      → Sane rs d
      → Sane rs (settle hit ok ps d)
  unfolding settle
  settle-Sane hit ok [] d w v = (v.0, v.1, v.2, v.3, v.4, v.5, tt)
  settle-Sane hit ok (p ∷ ps) d w v =
      let q = settle-Sane hit ok ps d w.1 v in
      if-Sane rs (hit p) _ _
        (settle-Sane hit ok ps
          (emit (verdict p.packet_id ok) (record d { queue_len = d.queue_len - 1 })) w.1 v)
        (q.0, q.1, q.2, q.3, q.4, q.5, (rw (settle-seeking hit ok ps d) w.0, q.6))

  pub refresh_both-Sane :
      (r : Rt) (d : Daemon) → Present d.table r.dest_addr → Sane rs d → Sane rs (refresh_both r d)
  unfolding refresh_both
  refresh_both-Sane r d p v =
      if-Sane rs (is_valid r.state) _ _
        (refresh_next_hop-Sane rs r true _
          (update_timeout-Sane rs r.dest_addr d.cfg.active_route_timeout d p v))
        v

pub seek_list_remove-table : (a : ℕ) (d : Daemon) → ((seek_list_remove a d).0).table ≡ d.table
unfolding seek_list_remove
seek_list_remove-table a d = ground arith

find_without_seek :
    (a c : ℕ) (ss : List Seek) → c ≢ a → seek_list_find c (without_seek a ss) ≡ seek_list_find c ss
unfolding seek_list_find without_seek
find_without_seek a c [] n = refl
find_without_seek a c (s ∷ ss) n = ground (arith, find_without_seek a c ss n)

-- The packets when a destination is not sought any more, and is exempt.
unsought :
    (a : ℕ) (ex : List ℕ) (ss : List Seek) (ps : List Packet)
    → All (Searched ex ss) ps
    → All (Searched (a ∷ ex) (without_seek a ss)) ps
unsought a ex ss [] w = tt
unsought a ex ss (p ∷ ps) w =
    (ground (arith, w.0, find_without_seek a p.dest_addr ss), unsought a ex ss ps w.1)

pub exempted :
    (a : ℕ) (ex : List ℕ) (ss : List Seek) (ps : List Packet)
    → All (Searched ex ss) ps
    → All (Searched (a ∷ ex) ss) ps
exempted a ex ss [] w = tt
exempted a ex ss (p ∷ ps) w = (ground (arith, w.0), exempted a ex ss ps w.1)

seek_list_remove_none :
    (a : ℕ) (d : Daemon) → (seek_list_remove a d).1 ≡ false → (seek_list_remove a d).0 ≡ d
unfolding seek_list_remove
seek_list_remove_none a d e = ground (arith, e)

pub seek_list_remove-queue : (a : ℕ) (d : Daemon) → ((seek_list_remove a d).0).queue ≡ d.queue
unfolding seek_list_remove
seek_list_remove-queue a d = ground arith

verdict_route-some :
    (a : ℕ) (inet : Bool) (d : Daemon)
    → TableOk d.table
    → Present d.table a
    → (r : Rt) × (verdict_route a (if inet then pq_enc_send else pq_send) d ≡ some r)
unfolding verdict_route
verdict_route-some a true d v h =
    let (r, e, q) = find_in-some a (hashing a) (d.table.tbl (hashing a)) (v.placed (hashing a)) h in
    (r, ground (arith, rt_table_find-find_in a d.table v, e))
verdict_route-some a false d v h =
    let (r, e, q) = find_in-some a (hashing a) (d.table.tbl (hashing a)) (v.placed (hashing a)) h in
    (r, rt_table_find-find_in a d.table v ∙ e)

verdict_route-found :
    (a : ℕ) (w : PqVerdict) (d : Daemon) (r : Rt)
    → verdict_route a w d ≡ some r
    → Present d.table r.dest_addr
unfolding verdict_route
verdict_route-found a pq_drop d r e = found-Present a d.table r e
verdict_route-found a pq_send d r e = found-Present a d.table r e
verdict_route-found a pq_enc_send d r e = ground (arith, found-Present a d.table r)

module _ (rs : Track) where
  -- What the packets go by, if it is there: all of them go.
  verdict_by_route :
      (a : ℕ) (o : Option Rt) (d : Daemon)
      → ((r : Rt) → o ≡ some r → Present d.table r.dest_addr)
      → (q : Rt) × (o ≡ some q)
      → Sane (opened a rs) d
      → Sane rs (elim o [
        | none ↦ d
        | some r ↦ refresh_both r (settle (λ p. p.dest_addr == a) true d.queue d)
      ])
  verdict_by_route a none d p e v = absurd (ground (arith, e.1))
  verdict_by_route a (some r) d p e v =
      let rs' = follow r.dest_addr rs in
      let d1 = settle (λ q. q.dest_addr == a) true d.queue d in
      let w =
        settle-Sane (opened a rs') (λ q. q.dest_addr == a) true d.queue d v.6
          (follow-Sane r.dest_addr (opened a rs) d (p r refl) v) in
      let c = close-Sane a rs' d1 (settle-none a true d.queue d) w in
      refresh_both-Sane rs r d1 c.4.0 (unfollow-Sane r.dest_addr rs d1 c)

  -- The packets for a destination that has an entry, and need not be sought any more.
  send_all-Sane :
      (a : ℕ) (inet : Bool) (d : Daemon)
      → Present d.table a
      → Sane (opened a rs) d
      → Sane rs (packet_queue_set_verdict a (if inet then pq_enc_send else pq_send) d)
  unfolding packet_queue_set_verdict
  send_all-Sane a true d h v =
      verdict_by_route a (verdict_route a pq_enc_send d) d (verdict_route-found a pq_enc_send d)
        (verdict_route-some a true d v.0 h) v
  send_all-Sane a false d h v =
      verdict_by_route a (verdict_route a pq_send d) d (verdict_route-found a pq_send d)
        (verdict_route-some a false d v.0 h) v

  pub seek_list_remove-Sane :
      (a : ℕ) (d : Daemon) → Sane rs d → Sane (opened a rs) (seek_list_remove a d).0
  unfolding seek_list_remove
  seek_list_remove-Sane a d v =
      let d1 = record d { seeking = without_seek a d.seeking } in
      let found : Daemon × Bool = (remove_timer (seek_timer a) d1, true) in
      let missing : Daemon × Bool = (d, false) in
      elim (is_some (seek_list_find a d.seeking))
        as (λ b. Sane (opened a rs) (if b then found else missing).0) [
          | true ↦
              remove_timer-Sane (opened a rs) (seek_timer a) d1
                (v.0, v.1, v.2, v.3, v.4, v.5, unsought a rs.exempt d.seeking d.queue v.6)
          | false ↦ (v.0, v.1, v.2, v.3, v.4, v.5, exempted a rs.exempt d.seeking d.queue v.6)
        ]

module _ (rs : Track) where
  pub send_buffered-Sane : (a : ℕ) (d : Daemon) → Sane rs d → Sane rs (send_buffered a d)
  unfolding send_buffered
  send_buffered-Sane a d v =
      let x = (seek_list_remove a d).0 in
      cases-Sane rs (is_valid (rt a d).state) _ d
        (λ e.
          let w =
            seek_list_remove-Sane (follow a rs) a d
              (follow-Sane a rs d (valid_Present a d.table v.0 e) v) in
          cases-Sane rs (seek_list_remove a d).1 _ x
            (λ f.
              send_all-Sane rs a (rt a x).flags.inet_dest x w.4.0
                (unfollow-Sane a (opened a rs) x w))
            (λ f. subst (λ y. Sane rs y) (sym (seek_list_remove_none a d f)) v))
        (λ e. v)
