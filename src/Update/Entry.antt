-- ===== src/Update/Entry.antt =====
-- The entry that rt_table_update of src/routing/routing_table.c leaves.
use embedded_systems_wireles.Base.{
  ℕ, ◌-◌, ◌≡◌, refl, ap, ◌∙◌, inl, inr, Bool, true, false, Option, none, some, List, [], ◌∷◌, ltb_ℤ,
  pos, ◌==◌, Bool-cases, Option-cases, is_some,
}
use embedded_systems_wireles.Time.{timeval_diff, timeval_add_msec}
use embedded_systems_wireles.Timer.{rt_timer}
use embedded_systems_wireles.Table.{Rt, RtState, Flags, is_valid, modify, entry, rt_table_find}
use embedded_systems_wireles.Table.Entry.{entry-modify_self}
use embedded_systems_wireles.Daemon.{Daemon, Packet, rt, modify_rt, emit, verdict}
use embedded_systems_wireles.Socket.Frame.{if-table}
use embedded_systems_wireles.Lifetime.{rt_table_update_timeout, refresh_next_hop}
use embedded_systems_wireles.Seek.{seek_list_find, seek_list_remove}
use embedded_systems_wireles.PacketQueue.{
  PqVerdict, pq_drop, pq_send, pq_enc_send, settle, refresh_both, verdict_route,
  packet_queue_set_verdict,
}
use embedded_systems_wireles.Route.{send_buffered}
use embedded_systems_wireles.Update.{
  announce, leave_neighborhood, rewrite, relive, revived_flags, rt_table_update,
}
use embedded_systems_wireles.Sane.{Sane, Track}
use embedded_systems_wireles.Sane.Sends.{modify_rt-Sane}
use embedded_systems_wireles.Sane.Routes.{announce-Sane, leave_neighborhood-Sane}

update_timeout-table :
    (a life : ℕ) (d : Daemon) → (rt_table_update_timeout a life d).table ≡ d.table
unfolding rt_table_update_timeout
update_timeout-table a life d =
    if-table (is_valid (rt a d).state) _ _ d
      (if-table
        (ltb_ℤ (timeval_diff (d.timers.cell (rt_timer a)).timeout (timeval_add_msec d.now life))
          (pos 0))
        _ d d refl refl)
      refl

refresh_next_hop-table : (r : Rt) (b : Bool) (d : Daemon) → (refresh_next_hop r b d).table ≡ d.table
unfolding refresh_next_hop
refresh_next_hop-table r b d = elim (Option-cases (rt_table_find r.next_hop d.table)) [
  | inl e ↦ rw (e, refresh_next_hop) refl
  | inr (hop, e) ↦
      rw (e, refresh_next_hop)
        (if-table _ _ d d (update_timeout-table hop.dest_addr d.cfg.active_route_timeout d) refl)
]

settle-table :
    (hit : Packet → Bool) (ok : Bool) (ps : List Packet) (d : Daemon)
    → (settle hit ok ps d).table ≡ d.table
unfolding settle
settle-table hit ok [] d = refl
settle-table hit ok (p ∷ ps) d =
    if-table (hit p) _ _ d
      (settle-table hit ok ps
        (emit (verdict p.packet_id ok) (record d { queue_len = d.queue_len - 1 })))
      (settle-table hit ok ps d)

by_route-table :
    (a : ℕ) (o : Option Rt) (d : Daemon)
    → (elim o as (λ x. Daemon) [
      | none ↦ d
      | some r ↦ refresh_both r (settle (λ p. p.dest_addr == a) true d.queue d)
    ]).table
      ≡ d.table
unfolding refresh_both
by_route-table a none d = refl
by_route-table a (some r) d =
    let d1 = settle (λ p. p.dest_addr == a) true d.queue d in
    if-table (is_valid r.state) _ d1 d
      (refresh_next_hop-table r true _
        ∙ (update_timeout-table r.dest_addr d1.cfg.active_route_timeout d1
            ∙ settle-table (λ p. p.dest_addr == a) true d.queue d))
      (settle-table (λ p. p.dest_addr == a) true d.queue d)

set_verdict-table :
    (a : ℕ) (w : PqVerdict) (d : Daemon) → (packet_queue_set_verdict a w d).table ≡ d.table
unfolding packet_queue_set_verdict
set_verdict-table a pq_drop d = settle-table _ false d.queue d
set_verdict-table a pq_send d = by_route-table a (verdict_route a pq_send d) d
set_verdict-table a pq_enc_send d = by_route-table a (verdict_route a pq_enc_send d) d

seek_list_remove-table : (a : ℕ) (d : Daemon) → (seek_list_remove a d).0.table ≡ d.table
unfolding seek_list_remove
seek_list_remove-table a d = elim (Bool-cases (is_some (seek_list_find a d.seeking))) [
  | inl e ↦ rw e refl
  | inr e ↦ rw e refl
]

-- Sending the packets that wait leaves the table alone.
pub send_buffered-table : (a : ℕ) (d : Daemon) → (send_buffered a d).table ≡ d.table
unfolding send_buffered
send_buffered-table a d =
    let d' = (seek_list_remove a d).0 in
    if-table (is_valid (rt a d).state) _ d d
      (if-table (seek_list_remove a d).1 _ d' d
        (set_verdict-table a _ d' ∙ seek_list_remove-table a d) (seek_list_remove-table a d))
      refl

relive-table :
    (a : ℕ) (flags : Flags) (life : ℕ) (d : Daemon) → (relive a flags life d).table ≡ d.table
unfolding relive
relive-table a flags life d = if-table flags.inet_dest d _ d refl (update_timeout-table a life d)

-- After rt_table_update of an entry that is there, in a daemon that keeps the invariant of the handlers:
-- the entry has the state, next hop, hop count and sequence number that were asked for, and the flags
-- that were, less the one for repair if an invalid entry that had it becomes valid.
pub rt_table_update-rt :
    (records : List (ℕ × ℕ)) (a next hops seqno life : ℕ) (state : RtState) (flags : Flags)
    (d : Daemon)
    → Sane (record { records = records; present = a ∷ []; exempt = [] }) d
    → let r = rt a (rt_table_update a next hops seqno life state flags d) in
      (r.state ≡ state)
      × (r.next_hop ≡ next)
      × (r.hcnt ≡ hops)
      × (r.dest_seqno ≡ seqno)
      × (r.flags ≡ revived_flags (rt a d) state flags)
unfolding rt_table_update rewrite
rt_table_update-rt records a next hops seqno life state flags d v =
    let tr : Track = record { records = records; present = a ∷ []; exempt = [] } in
    let flags' = revived_flags (rt a d) state flags in
    let write : Rt → Rt =
      λ r. record r { flags = flags'; dest_seqno = seqno; next_hop = next; hcnt = hops } in
    let mark : Rt → Rt = λ r. record r { state = state } in
    let d1 = leave_neighborhood a hops (announce a next hops state d) in
    let w =
      leave_neighborhood-Sane tr a hops (announce a next hops state d)
        (announce-Sane tr a next hops state d v) in
    let d2 = rewrite a next hops seqno flags' d1 in
    let w2 = modify_rt-Sane tr a write d1 (λ r. (refl, refl, λ h. h)) w in
    let table1 =
      send_buffered-table a (modify_rt a mark (relive a flags' life d2))
      ∙ ap (modify a mark) (relive-table a flags' life d2) in
    let read : rt a (rt_table_update a next hops seqno life state flags d)
        ≡ mark (write (rt a d1)) =
      ap (entry a) table1
      ∙ (entry-modify_self a mark d2.table w2.0 (λ r. (refl, refl, λ h. h)) w2.4.0
          ∙ ap mark (entry-modify_self a write d1.table w.0 (λ r. (refl, refl, λ h. h)) w.4.0)) in
    (
      ap (λ r. r.state) read,
      ap (λ r. r.next_hop) read,
      ap (λ r. r.hcnt) read,
      ap (λ r. r.dest_seqno) read,
      ap (λ r. r.flags) read,
    )
