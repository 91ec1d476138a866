-- ===== src/Tame/Errors.antt =====
-- Received route errors.
use embedded_systems_wireles.Base.{
  ℕ, inl, inr, Bool, not, ◌&&◌, List, [], ◌∷◌, ltb, ◌==◌, if◌then◌else◌, Option-cases,
}
use embedded_systems_wireles.Message.{Rerr, rerr_calc_size}
use embedded_systems_wireles.Table.{is_valid, rt_table_find, precursor_list_destroy}
use embedded_systems_wireles.Daemon.{Daemon, modify_rt, rt}
use embedded_systems_wireles.Route.{rt_table_invalidate}
use embedded_systems_wireles.Rerr.{
  Pending, no_rerr, report, lose_route, process_udest, process_udests, rerr_process,
}
use embedded_systems_wireles.Timer.{Timers}
use embedded_systems_wireles.Tame.{Tame, On}
use embedded_systems_wireles.Tame.Sends.{if-Tame, modify_rt-Tame}
use embedded_systems_wireles.Tame.Packets.{invalidate-Tame}
use embedded_systems_wireles.Tame.Routes.{report-Tame, if-Tame₁, send_rerr-Tame, destroy-Tame}

module _ (P : Timers → Type 0) (K : Tame P) where
  lose_route-Tame :
      (b : Bool) (a seqno : ℕ) (p : Pending × Daemon) → On P p.1 → On P (lose_route b a seqno p).1
  unfolding On lose_route
  lose_route-Tame b a seqno (e, d) v =
      let d0 = if b then d else rt_table_invalidate a d in
      let d1 = modify_rt a (λ r. record r { dest_seqno = seqno }) d0 in
      let w =
        modify_rt-Tame P K a (λ r. record r { dest_seqno = seqno }) d0
          (if-Tame P b d (rt_table_invalidate a d) v (invalidate-Tame P K a d v)) in
      let r = rt a d1 in
      let test = not (r.nprec == 0) && not r.flags.repair in
      let p1 = if test then report b r (e, d1) else (e, d1) in
      let w1 = if-Tame₁ P K test (report b r (e, d1)) (e, d1) (report-Tame P K b r (e, d1) w) w in
      if-Tame P (is_valid (rt a p1.1).state) p1.1 (modify_rt a precursor_list_destroy p1.1) w1
        (destroy-Tame P K a p1.1 w1)

  pub process_udest-Tame :
      (b : Bool) (src : ℕ) (u : ℕ × ℕ) (p : Pending × Daemon)
      → On P p.1
      → On P (process_udest b src u p).1
  unfolding On process_udest
  process_udest-Tame b src (a, seqno) (e, d) v = elim (Option-cases (rt_table_find a d.table)) [
    | inl n ↦ rw (n, process_udest) v
    | inr (r, n) ↦
        rw (n, process_udest)
          (if-Tame₁ P K (is_valid r.state && (r.next_hop == src)) (lose_route b a seqno (e, d))
            (e, d) (lose_route-Tame b a seqno (e, d) v) v)
  ]

  process_udests-Tame :
      (b : Bool) (src : ℕ) (us : List (ℕ × ℕ)) (p : Pending × Daemon)
      → On P p.1
      → On P (process_udests b src us p).1
  unfolding On process_udests
  process_udests-Tame b src [] p v = v
  process_udests-Tame b src (u ∷ us) p v =
      process_udests-Tame b src us (process_udest b src u p) (process_udest-Tame b src u p v)

  -- rerr_process keeps the property.
  pub rerr_process-Tame :
      (m : Rerr) (len src : ℕ) (d : Daemon) → On P d → On P (rerr_process m len src d)
  unfolding On rerr_process
  rerr_process-Tame m len src d v = if-Tame P (ltb len (rerr_calc_size m.dest_count)) _ _ v (
      send_rerr-Tame P K (process_udests m.n src m.udests (no_rerr, d))
        (process_udests-Tame m.n src m.udests (no_rerr, d) v))
