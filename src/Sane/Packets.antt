-- ===== src/Sane/Packets.antt =====
-- What a route does when it comes or goes keeps the invariant.

use embedded_systems_wireles.Base.{
  ℕ, ◌-◌, ◌≡◌, refl, inl, inr, false, List, [], ◌∷◌, arith, All-map, length, ◌==◌, Bool-cases,
}
use embedded_systems_wireles.Table.{
  Rt, RtState, Flags, is_valid, hashing, has_dest, precursor_list_destroy, destroy_nodes,
  precursor_add, Table, link,
}
use embedded_systems_wireles.Table.Invariant.{
  TableOk, Keeps, link-TableOk, Present, Present-link, link-Present,
}
use embedded_systems_wireles.Table.Entry.{valid_Present}
use embedded_systems_wireles.Timer.{
  timer_init, rt_timer, ack_timer, hello_timer, local_repair_timeout, route_delete_timeout,
}
use embedded_systems_wireles.Daemon.{
  Daemon, rt, emit, set_handler, modify_rt, route_deleted, remove_timer,
}
use embedded_systems_wireles.Route.{
  link_new, start_route, start_timer, insert_new, new_rt, rt_table_insert, lapse, remove_timers,
  schedule_end, rt_table_invalidate, dec_active,
}
use embedded_systems_wireles.Sane.{Sane, Track}
use embedded_systems_wireles.Sane.Owners.{grown-Owned}
use embedded_systems_wireles.Sane.Sends.{
  if-Sane, cases-Sane, modify_rt-Sane, set_timeout-Sane, remove_timer-Sane, follow, follow-Sane,
  unfollow-Sane,
}
use embedded_systems_wireles.Sane.Queue.{send_buffered-Sane}

-- The counter of active routes is not part of the invariant.
pub num_active-TableOk : (t : Table) (n : ℕ) → TableOk t → TableOk (record t { num_active = n })
num_active-TableOk t n v = record { placed = v.placed; distinct = v.distinct; counted = v.counted }

pub lapse-Keeps : Keeps lapse
unfolding lapse
lapse-Keeps r = (refl, refl, λ h. h)

destroy_nodes-Keeps :
    (ps : List ℕ) (r : Rt)
    → let q = destroy_nodes ps r in
      (q.dest_addr ≡ r.dest_addr)
      × (q.hash ≡ r.hash)
      × (r.nprec ≡ length ps → r.precursors ≡ ps → (q.nprec ≡ 0) × (q.precursors ≡ []))
unfolding destroy_nodes
destroy_nodes-Keeps [] r = (refl, refl, λ h e. (h, e))
destroy_nodes-Keeps (p ∷ ps) r =
    let (d, h, n) = destroy_nodes-Keeps ps (record r { precursors = ps; nprec = r.nprec - 1 }) in
    (d, h, λ e l. n (omega arith) refl)

-- Destroying the precursor list empties it, and the counter with it.
pub precursor_list_destroy-Keeps : Keeps precursor_list_destroy
unfolding precursor_list_destroy
precursor_list_destroy-Keeps r =
    let (d, h, n) = destroy_nodes-Keeps r.precursors r in (d, h, λ e. ground (arith, n e refl))

pub precursor_add-Keeps : (a : ℕ) → Keeps (precursor_add a)
unfolding precursor_add
precursor_add-Keeps a r = (ground arith, ground arith, λ h. ground arith)

module _ (rs : Track) where
  start_route-Sane : (r : Rt) (life : ℕ) (d : Daemon) → Sane rs d → Sane rs (start_route r life d).0
  unfolding start_route
  start_route-Sane r life d v = elim (Bool-cases (is_valid r.state)) [
    | inl e ↦ rw e (num_active-TableOk d.table _ v.0, v.1, v.2, v.3, v.4, v.5, v.6)
    | inr e ↦ rw e (elim (Bool-cases r.flags.repair) [ inl f ↦ rw f v | inr f ↦ rw f v ])
  ]

  start_timer-Sane :
      (r : Rt) (p : Daemon × ℕ)
      → Present (p.0).table r.dest_addr
      → Sane rs p.0
      → Sane rs (start_timer r p)
  unfolding start_timer
  start_timer-Sane r p h v =
      if-Sane rs (p.1 == 0) _ _ v (set_timeout-Sane rs (rt_timer r.dest_addr) p.1 p.0 (λ e. h) v)

  link_new-Sane :
      (r : Rt) (d : Daemon)
      → Sane rs d
      → has_dest r.dest_addr (d.table.tbl (hashing r.dest_addr)) ≡ false
      → r.hash ≡ r.dest_addr
      → r.nprec ≡ length r.precursors
      → Sane rs (link_new r d)
  unfolding link_new timer_init
  link_new-Sane r d v h e n = (
    link-TableOk r d.table v.0 h e n,
    v.1,
    v.2,
    v.3,
    All-map (Present d.table) (Present (link r d.table)) (λ c p. Present-link r c d.table p)
        rs.present v.4,
    grown-Owned d.table (link r d.table) d.timers (λ c p. Present-link r c d.table p) v.5,
    v.6,
  )

-- A new entry is followed.
insert_new-Sane :
    (rs : Track) (r : Rt) (life : ℕ) (d : Daemon)
    → Sane rs (link_new r d)
    → Sane (follow r.dest_addr rs) (insert_new r life d)
unfolding insert_new link_new
insert_new-Sane rs r life d v =
    let rs' = follow r.dest_addr rs in
    let w =
      start_route-Sane rs' r life (link_new r d)
        (follow-Sane r.dest_addr rs (link_new r d) (link-Present r d.table) v) in
    send_buffered-Sane rs' r.dest_addr (start_timer r (start_route r life (link_new r d)))
      (start_timer-Sane rs' r (start_route r life (link_new r d)) w.4.0 w)

-- rt_table_insert keeps the invariant, and the destination has an entry.
pub inserted-Sane :
    (rs : Track) (dest next hops seqno life : ℕ) (state : RtState) (flags : Flags) (ifindex : ℕ)
    (d : Daemon)
    → Sane rs d
    → Sane (follow dest rs) (rt_table_insert dest next hops seqno life state flags ifindex d)
unfolding rt_table_insert new_rt
inserted-Sane rs dest next hops seqno life state flags ifindex d v =
    let r = new_rt dest next hops seqno state flags ifindex in
    cases-Sane (follow dest rs) (has_dest dest (d.table.tbl (hashing dest))) d (insert_new r life d)
      (λ e. follow-Sane dest rs d e v)
      (λ e. insert_new-Sane rs r life d (link_new-Sane rs r d v e refl refl))

pub insert-Sane :
    (rs : Track) (dest next hops seqno life : ℕ) (state : RtState) (flags : Flags) (ifindex : ℕ)
    (d : Daemon)
    → Sane rs d
    → Sane rs (rt_table_insert dest next hops seqno life state flags ifindex d)
insert-Sane rs dest next hops seqno life state flags ifindex d v =
    unfollow-Sane dest rs (rt_table_insert dest next hops seqno life state flags ifindex d)
      (inserted-Sane rs dest next hops seqno life state flags ifindex d v)

module _ (rs : Track) where
  -- The timer of an entry that is there.
  schedule_end-Sane :
      (a : ℕ) (d : Daemon) → Present d.table a → Sane rs d → Sane rs (schedule_end a d)
  unfolding schedule_end
  schedule_end-Sane a d p v =
      if-Sane rs (rt a d).flags.repair _ _
        (set_timeout-Sane rs (rt_timer a) d.cfg.active_route_timeout
          (set_handler (rt_timer a) local_repair_timeout d) (λ h. p) v)
        (set_timeout-Sane rs (rt_timer a) d.cfg.delete_period
          (set_handler (rt_timer a) route_delete_timeout d) (λ h. p) v)

  pub remove_timers-Sane : (a : ℕ) (d : Daemon) → Sane rs d → Sane rs (remove_timers a d)
  unfolding remove_timers
  remove_timers-Sane a d v =
      let d1 = remove_timer (rt_timer a) d in
      remove_timer-Sane rs (ack_timer a) (remove_timer (hello_timer a) d1)
        (remove_timer-Sane rs (hello_timer a) d1 (remove_timer-Sane rs (rt_timer a) d v))

-- rt_table_invalidate keeps the invariant.
pub invalidate-Sane :
    (rs : Track) (a : ℕ) (d : Daemon) → Sane rs d → Sane rs (rt_table_invalidate a d)
unfolding rt_table_invalidate remove_timers
invalidate-Sane rs a d v =
    let rs' = follow a rs in
    let d1 = modify_rt a lapse (remove_timers a d) in
    let d2 =
      emit (route_deleted (rt a d).dest_addr (rt a d).next_hop (rt a d).hcnt) (dec_active d1) in
    cases-Sane rs (is_valid (rt a d).state) (schedule_end a d2) d
      (λ e.
        let w =
          modify_rt-Sane rs' a lapse (remove_timers a d) lapse-Keeps
            (remove_timers-Sane rs' a d (follow-Sane a rs d (valid_Present a d.table v.0 e) v)) in
        unfollow-Sane a rs (schedule_end a d2) (
          schedule_end-Sane rs' a d2 w.4.0
            (num_active-TableOk _ _ w.0, w.1, w.2, w.3, w.4, w.5, w.6)))
      (λ e. v)
