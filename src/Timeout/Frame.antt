-- ===== src/Timeout/Frame.antt =====
-- What a timeout of a search does to the destinations that are sought and to the packets that wait, and what
-- it leaves alone.

use embedded_systems_wireles.Base.{
  ℕ, ◌-◌, ◌≡◌, refl, ap, ◌∙◌, inl, inr, Bool, true, false, Option, none, some, List, [], ◌∷◌, arith,
  ◌==◌, is_some, Bool-cases, Option-cases,
}
use embedded_systems_wireles.Timer.{rt_timer}
use embedded_systems_wireles.Table.{Rt, is_valid, rt_table_find}
use embedded_systems_wireles.Daemon.{
  Daemon, Config, Seek, Packet, route_deleted, emit, rt, modify_rt, set_timeout, verdict,
}
use embedded_systems_wireles.Lifetime.{rt_table_update_timeout}
use embedded_systems_wireles.Seek.{seek_list_find, seek_list_remove, without_seek, modify_seek}
use embedded_systems_wireles.PacketQueue.{settle, packet_queue_set_verdict}
use embedded_systems_wireles.PacketQueue.Bound.{misses}
use embedded_systems_wireles.Socket.Frame.{Apart, if-part, send-part, for_all_devs-part}
use embedded_systems_wireles.Rerr.{rerr_create}
use embedded_systems_wireles.Timeout.{
  rreq_create, rreq_send, keep_waiting, report_failed, unset_repair, local_repair_timeout, next_try,
  retry, repair_failed, give_up,
}

-- What a search stands in.
abbrev pub the_search : Daemon → Config × List Seek × List Packet
the_search d = (d.cfg, d.seeking, d.queue)

search-Apart : Apart the_search
search-Apart = record {
  host = λ h d. refl;
  out = λ os d. refl;
  rreq_ratel = λ ts d. refl;
  rerr_ratel = λ ts d. refl;
  send_buf = λ m d. refl;
}

update_timeout-search :
    (a life : ℕ) (d : Daemon) → the_search (rt_table_update_timeout a life d) ≡ the_search d
unfolding rt_table_update_timeout
update_timeout-search a life d = elim (Bool-cases (is_valid (rt a d).state)) [
  | inl e ↦ rw e (if-part the_search _ (set_timeout (rt_timer a) life d) d d refl refl)
  | inr e ↦ rw e refl
]

keep_waiting-search : (a : ℕ) (d : Daemon) → the_search (keep_waiting a d) ≡ the_search d
unfolding keep_waiting
keep_waiting-search a d = elim (Option-cases (rt_table_find a d.table)) [
  | inl e ↦ rw (e, keep_waiting) refl
  | inr (r, e) ↦
      rw (e, keep_waiting) (if-part the_search _ _ d d (update_timeout-search r.dest_addr _ d) refl)
]

rreq_send-search :
    (a seqno ttl flags : ℕ) (d : Daemon) → the_search (rreq_send a seqno ttl flags d) ≡ the_search d
unfolding rreq_send rreq_create
rreq_send-search a seqno ttl flags d =
    for_all_devs-part the_search _ d (λ i x. send-part the_search search-Apart _ _ _ i _)

report_failed-search : (r : Rt) (d : Daemon) → the_search (report_failed r d) ≡ the_search d
unfolding report_failed rerr_create
report_failed-search r d = if-part the_search (r.nprec == 0) d _ d refl (
    if-part the_search (r.nprec == 1) _ _ d (send-part the_search search-Apart _ _ _ _ _)
      (for_all_devs-part the_search _ _ (λ i x. send-part the_search search-Apart _ _ _ i x)))

local_repair-search : (a : ℕ) (d : Daemon) → the_search (local_repair_timeout a d) ≡ the_search d
unfolding local_repair_timeout
local_repair-search a d =
    let d1 = modify_rt a unset_repair d in
    let r = rt a d1 in
    report_failed-search r (emit (route_deleted r.dest_addr r.next_hop r.hcnt) d1)

repair_failed-search : (o : Option Rt) (d : Daemon) → the_search (repair_failed o d) ≡ the_search d
unfolding repair_failed
repair_failed-search none d = refl
repair_failed-search (some r) d =
    if-part the_search r.flags.repair _ d d (local_repair-search r.dest_addr d) refl

-- The entry that a look-up finds is for the destination, and stands for itself after a write to it.
pub find-dest_addr :
    (a : ℕ) (ss : List Seek) (s : Seek) → seek_list_find a ss ≡ some s → s.dest_addr ≡ a
unfolding seek_list_find
find-dest_addr a [] s e = absurd (ground (arith, e))
find-dest_addr a (x ∷ xs) s e = elim (Bool-cases (x.dest_addr == a)) [
  | inl h ↦ ground (arith, h, e)
  | inr h ↦ find-dest_addr a xs s (rw h at e)
]

pub find-modify_seek :
    (a : ℕ) (t : Seek) (ss : List Seek)
    → t.dest_addr ≡ a
    → is_some (seek_list_find a ss) ≡ true
    → seek_list_find a (modify_seek a (λ x. t) ss) ≡ some t
unfolding seek_list_find modify_seek
find-modify_seek a t [] k h = absurd (ground (arith, h))
find-modify_seek a t (x ∷ xs) k h = elim (Bool-cases (x.dest_addr == a)) [
  | inl e ↦ rw e (ground (arith, k))
  | inr e ↦ rw (e, e) (find-modify_seek a t xs k (rw e at h))
]

pub without_seek-modify_seek :
    (a : ℕ) (t : Seek) (ss : List Seek)
    → t.dest_addr ≡ a
    → without_seek a (modify_seek a (λ x. t) ss) ≡ without_seek a ss
unfolding without_seek modify_seek
without_seek-modify_seek a t [] k = refl
without_seek-modify_seek a t (x ∷ xs) k = elim (Bool-cases (x.dest_addr == a)) [
  | inl e ↦ rw e (ground (arith, k))
  | inr e ↦ rw (e, e) (ap (◌∷◌ x) (without_seek-modify_seek a t xs k))
]

settle-search :
    (hit : Packet → Bool) (ok : Bool) (ps : List Packet) (d : Daemon)
    → the_search (settle hit ok ps d) ≡ (d.cfg, d.seeking, misses hit ps)
unfolding settle
settle-search hit ok [] d = refl
settle-search hit ok (p ∷ ps) d = elim (Bool-cases (hit p)) [
  | inl e ↦ rw e (
      settle-search hit ok ps
        (emit (verdict p.packet_id ok) (record d { queue_len = d.queue_len - 1 })))
  | inr e ↦ rw e (
      ap (λ (x : Config × List Seek × List Packet). (x.0, x.1, p ∷ x.2))
        (settle-search hit ok ps d))
]

pub retry-search :
    (s : Seek) (d : Daemon)
    → the_search (retry s d) ≡ (
      d.cfg,
      modify_seek s.dest_addr (λ x. next_try d.cfg.expanding_ring_search s) d.seeking,
      d.queue,
    )
unfolding retry
retry-search s d =
    let s' = next_try d.cfg.expanding_ring_search s in
    rreq_send-search s'.dest_addr s'.dest_seqno s'.ttl s'.flags _
    ∙ keep_waiting-search s'.dest_addr _

pub give_up-search :
    (s : Seek) (d : Daemon)
    → is_some (seek_list_find s.dest_addr d.seeking) ≡ true
    → the_search (give_up s d) ≡ (
      d.cfg,
      without_seek s.dest_addr d.seeking,
      misses (λ p. p.dest_addr == s.dest_addr) d.queue,
    )
unfolding give_up packet_queue_set_verdict
give_up-search s d h =
    let a = s.dest_addr in
    let d1 = settle (λ p. p.dest_addr == a) false d.queue d in
    let e = settle-search (λ p. p.dest_addr == a) false d.queue d in
    let seeking : d1.seeking ≡ d.seeking = ap (λ (x : Config × List Seek × List Packet). x.1) e in
    let found : is_some (seek_list_find a d1.seeking) ≡ true = rw seeking h in
    repair_failed-search (rt_table_find a d1.table) (seek_list_remove a d1).0
    ∙ (unfold seek_list_remove in
        rw found (ap (λ (x : Config × List Seek × List Packet). (x.0, without_seek a x.1, x.2)) e))
