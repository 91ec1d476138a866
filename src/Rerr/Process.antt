-- ===== src/Rerr/Process.antt =====
-- Which entries a received route error leaves alone.
use embedded_systems_wireles.Base.{
  ℕ, ◌≡◌, ◌≢◌, refl, sym, ap, ◌∙◌, inl, inr, Bool, not, ◌&&◌, List, [], ◌∷◌, arith, ltb, ◌==◌,
  if◌then◌else◌, Bool-cases, Option-cases, some,
}
use embedded_systems_wireles.Message.{Rerr, rerr_calc_size}
use embedded_systems_wireles.Table.{
  Rt, is_valid, entry, or_blank, rt_table_find, precursor_list_destroy,
}
use embedded_systems_wireles.Table.Invariant.{TableOk, Keeps}
use embedded_systems_wireles.Table.Map.{rt_table_find-find_in}
use embedded_systems_wireles.Table.Entry.{entry-modify_ne}
use embedded_systems_wireles.Daemon.{Daemon, rt, modify_rt}
use embedded_systems_wireles.Route.{rt_table_invalidate}
use embedded_systems_wireles.Route.Invalidate.{invalidate-rt_ne}
use embedded_systems_wireles.Rerr.{
  Pending, no_rerr, report, lose_route, process_udest, process_udests, rerr_process,
}
use embedded_systems_wireles.Rerr.Frame.{report-table, send_rerr-table, if-holds, if-keeps}
use embedded_systems_wireles.Sane.{Sane, Track}
use embedded_systems_wireles.Sane.Sends.{if-Sane, modify_rt-Sane}
use embedded_systems_wireles.Sane.Packets.{precursor_list_destroy-Keeps, invalidate-Sane}
use embedded_systems_wireles.Sane.Errors.{process_udest-Sane}

-- The entry that a look-up finds is the one behind the pointer.
found_entry :
    (a : ℕ) (r : Rt) (d : Daemon) → TableOk d.table → rt_table_find a d.table ≡ some r → rt a d ≡ r
unfolding entry
found_entry a r d v e = ap (or_blank a) (sym (rt_table_find-find_in a d.table v) ∙ e)

module _ (rs : Track) where
  lose_route_ne :
      (b : Bool) (a seqno c : ℕ) (e : Pending) (d : Daemon)
      → Sane rs d
      → c ≢ a
      → rt c (lose_route b a seqno (e, d)).1 ≡ rt c d
  unfolding lose_route
  lose_route_ne b a seqno c e d v ne =
      let set : Rt → Rt = λ r. record r { dest_seqno = seqno } in
      let keeps : Keeps set = λ r. (refl, refl, λ h. h) in
      let d0 = if b then d else rt_table_invalidate a d in
      let d1 = modify_rt a set d0 in
      let w0 = if-Sane rs b d (rt_table_invalidate a d) v (invalidate-Sane rs a d v) in
      let w = modify_rt-Sane rs a set d0 keeps w0 in
      let r = rt a d1 in
      let test = not (r.nprec == 0) && not r.flags.repair in
      let p1 = if test then report b r (e, d1) else (e, d1) in
      let same_table : p1.1.table ≡ d1.table =
        if-holds (λ x. x.table ≡ d1.table) test (report b r (e, d1)) (e, d1)
          (report-table b r (e, d1)) refl in
      let same : rt c d1 ≡ rt c d =
        entry-modify_ne a c set d0.table w0.0 keeps ne
        ∙ if-keeps (λ x. rt c x ≡ rt c d) b d (rt_table_invalidate a d) refl
            (invalidate-rt_ne a c d v.0 ne) in
      if-keeps (λ x. rt c x ≡ rt c d) (is_valid (rt a p1.1).state) p1.1
        (modify_rt a precursor_list_destroy p1.1) (ap (entry c) same_table ∙ same)
        (rw same_table (
          entry-modify_ne a c precursor_list_destroy d1.table w.0 precursor_list_destroy-Keeps ne
          ∙ same))

  process_udest_ne :
      (b : Bool) (src c : ℕ) (u : ℕ × ℕ) (e : Pending) (d : Daemon)
      → Sane rs d
      → (rt c d).next_hop ≢ src
      → rt c (process_udest b src u (e, d)).1 ≡ rt c d
  unfolding process_udest
  process_udest_ne b src c (a, seqno) e d v far = elim (Option-cases (rt_table_find a d.table)) [
    | inl n ↦ rw (n, process_udest) refl
    | inr (r, n) ↦
        rw (n, process_udest)
          (elim (Bool-cases (is_valid r.state && (r.next_hop == src))) [
            | inr t ↦ rw t refl
            | inl t ↦ rw t (
                lose_route_ne b a seqno c e d v (λ same.
                  far
                    (ground (arith, ap (λ x. (rt x d).next_hop) same, found_entry a r d v.0 n, t))))
          ])
  ]

  process_udests_ne :
      (b : Bool) (src c : ℕ) (us : List (ℕ × ℕ)) (e : Pending) (d : Daemon)
      → Sane rs d
      → (rt c d).next_hop ≢ src
      → rt c (process_udests b src us (e, d)).1 ≡ rt c d
  unfolding process_udests
  process_udests_ne b src c [] e d v far = refl
  process_udests_ne b src c (u ∷ us) e d v far =
      let p = process_udest b src u (e, d) in
      let same = process_udest_ne b src c u e d v far in
      process_udests_ne b src c us p.0 p.1 (process_udest-Sane rs b src u (e, d) v)
        (λ h. far (sym (ap (λ r. r.next_hop) same) ∙ h))
      ∙ same

-- A received route error, whatever it lists, leaves every entry as it is whose next hop is not the
-- sender, in a daemon that keeps the invariant of the handlers.
pub rerr_process-rt_ne :
    (rs : Track) (m : Rerr) (len src c : ℕ) (d : Daemon)
    → Sane rs d
    → (rt c d).next_hop ≢ src
    → rt c (rerr_process m len src d) ≡ rt c d
unfolding rerr_process
rerr_process-rt_ne rs m len src c d v far =
    if-keeps (λ x. rt c x ≡ rt c d) (ltb len (rerr_calc_size m.dest_count)) _ _ refl
      (ap (entry c) (send_rerr-table (process_udests m.n src m.udests (no_rerr, d)))
        ∙ process_udests_ne rs m.n src c m.udests no_rerr d v far)
