-- ===== src/Sane/Errors.antt =====
-- Received route errors.
use embedded_systems_wireles.Base.{
  ℕ, refl, inl, inr, Bool, not, ◌&&◌, List, [], ◌∷◌, ltb, ◌==◌, if◌then◌else◌, Option-cases,
}
use embedded_systems_wireles.Message.{Rerr, rerr_calc_size}
use embedded_systems_wireles.Table.{is_valid, rt_table_find, precursor_list_destroy}
use embedded_systems_wireles.Daemon.{Daemon, modify_rt, rt}
use embedded_systems_wireles.Route.{rt_table_invalidate}
use embedded_systems_wireles.Rerr.{
  Pending, no_rerr, report, lose_route, process_udest, process_udests, rerr_process,
}
use embedded_systems_wireles.Sane.{Sane, Track}
use embedded_systems_wireles.Sane.Sends.{if-Sane, modify_rt-Sane}
use embedded_systems_wireles.Sane.Packets.{invalidate-Sane}
use embedded_systems_wireles.Sane.Routes.{report-Sane, if-Sane₁, send_rerr-Sane, destroy-Sane}

module _ (rs : Track) where
  lose_route-Sane :
      (b : Bool) (a seqno : ℕ) (p : Pending × Daemon)
      → Sane rs p.1
      → Sane rs (lose_route b a seqno p).1
  unfolding lose_route
  lose_route-Sane b a seqno (e, d) v =
      let d0 = if b then d else rt_table_invalidate a d in
      let d1 = modify_rt a (λ r. record r { dest_seqno = seqno }) d0 in
      let w =
        modify_rt-Sane rs a (λ r. record r { dest_seqno = seqno }) d0 (λ r. (refl, refl, λ h. h))
          (if-Sane rs b d (rt_table_invalidate a d) v (invalidate-Sane rs a d v)) in
      let r = rt a d1 in
      let test = not (r.nprec == 0) && not r.flags.repair in
      let p1 = if test then report b r (e, d1) else (e, d1) in
      let w1 = if-Sane₁ rs test (report b r (e, d1)) (e, d1) (report-Sane rs b r (e, d1) w) w in
      if-Sane rs (is_valid (rt a p1.1).state) p1.1 (modify_rt a precursor_list_destroy p1.1) w1
        (destroy-Sane rs a p1.1 w1)

  pub process_udest-Sane :
      (b : Bool) (src : ℕ) (u : ℕ × ℕ) (p : Pending × Daemon)
      → Sane rs p.1
      → Sane rs (process_udest b src u p).1
  unfolding process_udest
  process_udest-Sane b src (a, seqno) (e, d) v = elim (Option-cases (rt_table_find a d.table)) [
    | inl n ↦ rw (n, process_udest) v
    | inr (r, n) ↦
        rw (n, process_udest)
          (if-Sane₁ rs (is_valid r.state && (r.next_hop == src)) (lose_route b a seqno (e, d))
            (e, d) (lose_route-Sane b a seqno (e, d) v) v)
  ]

  process_udests-Sane :
      (b : Bool) (src : ℕ) (us : List (ℕ × ℕ)) (p : Pending × Daemon)
      → Sane rs p.1
      → Sane rs (process_udests b src us p).1
  unfolding process_udests
  process_udests-Sane b src [] p v = v
  process_udests-Sane b src (u ∷ us) p v =
      process_udests-Sane b src us (process_udest b src u p) (process_udest-Sane b src u p v)

  -- rerr_process keeps the invariant.
  pub rerr_process-Sane :
      (m : Rerr) (len src : ℕ) (d : Daemon) → Sane rs d → Sane rs (rerr_process m len src d)
  unfolding rerr_process
  rerr_process-Sane m len src d v = if-Sane rs (ltb len (rerr_calc_size m.dest_count)) _ _ v (
      send_rerr-Sane rs (process_udests m.n src m.udests (no_rerr, d))
        (process_udests-Sane m.n src m.udests (no_rerr, d) v))
