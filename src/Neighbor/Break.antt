-- ===== src/Neighbor/Break.antt =====
-- What is left of the routes over a neighbour after neighbor_link_break of
-- src/protocol/aodv_neighbor.c.
use embedded_systems_wireles.Base.{
  ℕ, ◌-◌, ◌≡◌, ◌≢◌, refl, ap, ◌∙◌, inl, inr, Bool, true, false, not, ◌&&◌, List, [], ◌∷◌, leb,
  arith, ◌==◌, if◌then◌else◌, Bool-cases,
}
use embedded_systems_wireles.Message.{max_repair_ttl}
use embedded_systems_wireles.Table.{
  Rt, Table, is_valid, modify, entry, precursor_list_destroy, destroy_nodes, all_dests,
}
use embedded_systems_wireles.Table.Invariant.{TableOk, Present}
use embedded_systems_wireles.Table.Entry.{
  entry-dest_addr, entry-modify_self, entry-modify_ne, in_list, all_dests_in, valid_Present,
}
use embedded_systems_wireles.Daemon.{Daemon, rt, modify_rt}
use embedded_systems_wireles.Route.{rt_table_invalidate}
use embedded_systems_wireles.Route.Invalidate.{invalidate-rt_ne, invalidate_state}
use embedded_systems_wireles.Rerr.{Pending, no_rerr, report}
use embedded_systems_wireles.Sane.{Sane, Track}
use embedded_systems_wireles.Sane.Sends.{modify_rt-Sane}
use embedded_systems_wireles.Sane.Packets.{precursor_list_destroy-Keeps, invalidate-Sane}
use embedded_systems_wireles.Sane.Routes.{mark_repair-Keeps, break_over-Sane, break_link-Sane}
use embedded_systems_wireles.Rerr.Frame.{report-table, send_rerr-table, if-holds, if-keeps}
use embedded_systems_wireles.Neighbor.{
  mark_repair, break_over, break_each, break_link, neighbor_link_break,
}

-- Whether an entry is valid although its neighbour `a` is lost: the one of the neighbour itself, or one
-- over it.
abbrev pub stale : ℕ → ℕ → Rt → Bool
stale a c r = is_valid r.state && (if c == a then true else r.next_hop == a)

destroy_nodes-state : (ps : List ℕ) (r : Rt) → (destroy_nodes ps r).state ≡ r.state
unfolding destroy_nodes
destroy_nodes-state [] r = refl
destroy_nodes-state (p ∷ ps) r =
    destroy_nodes-state ps (record r { precursors = ps; nprec = r.nprec - 1 })

destroyed_state :
    (u : ℕ) (t : Table)
    → TableOk t
    → Present t u
    → is_valid (entry u t).state ≡ false
    → is_valid (entry u (modify u precursor_list_destroy t)).state ≡ false
destroyed_state u t v h e =
    rw (entry-modify_self u precursor_list_destroy t v precursor_list_destroy-Keeps h) (
      unfold precursor_list_destroy in
      ap is_valid (destroy_nodes-state (entry u t).precursors (entry u t)) ∙ e)

abbrev pub with_entries : List (ℕ × ℕ) → List ℕ → Track
with_entries records us = record { records = records; present = us; exempt = [] }

module _ (records : List (ℕ × ℕ)) (a : ℕ) where
  break_over_self :
      (u : ℕ) (e : Pending) (d : Daemon)
      → Sane (with_entries records (u ∷ a ∷ [])) d
      → is_valid (rt u (break_over a u (e, d)).1).state ≡ false
  unfolding break_over
  break_over_self u e d v =
      let d1 = rt_table_invalidate u d in
      let w = invalidate-Sane (with_entries records (u ∷ a ∷ [])) u d v in
      let p1 = if (rt u d1).nprec == 0 then (e, d1) else report false (rt u d1) (e, d1) in
      let same_table : p1.1.table ≡ d1.table =
        if-holds (λ x. x.table ≡ d1.table) ((rt u d1).nprec == 0) (e, d1)
          (report false (rt u d1) (e, d1)) refl (report-table false (rt u d1) (e, d1)) in
      if-holds (λ x. is_valid (rt u x).state ≡ false)
        ((rt a d).flags.repair && leb (rt u d).hcnt max_repair_ttl) _ _
        (invalidate_state u (modify_rt u mark_repair d)
          (modify_rt-Sane (with_entries records (u ∷ a ∷ [])) u mark_repair d mark_repair-Keeps
            v).0)
        (rw same_table (destroyed_state u d1.table w.0 w.4.0 (invalidate_state u d v.0)))

  break_over_ne :
      (u c : ℕ) (e : Pending) (d : Daemon)
      → Sane (with_entries records (u ∷ a ∷ [])) d
      → c ≢ u
      → rt c (break_over a u (e, d)).1 ≡ rt c d
  unfolding break_over
  break_over_ne u c e d v ne =
      let d1 = rt_table_invalidate u d in
      let w = invalidate-Sane (with_entries records (u ∷ a ∷ [])) u d v in
      let p1 = if (rt u d1).nprec == 0 then (e, d1) else report false (rt u d1) (e, d1) in
      let same_table : p1.1.table ≡ d1.table =
        if-holds (λ x. x.table ≡ d1.table) ((rt u d1).nprec == 0) (e, d1)
          (report false (rt u d1) (e, d1)) refl (report-table false (rt u d1) (e, d1)) in
      if-holds (λ x. rt c x ≡ rt c d) ((rt a d).flags.repair && leb (rt u d).hcnt max_repair_ttl) _
        _
        (invalidate-rt_ne u c (modify_rt u mark_repair d)
            (modify_rt-Sane (with_entries records (u ∷ a ∷ [])) u mark_repair d mark_repair-Keeps
              v).0
            ne
          ∙ entry-modify_ne u c mark_repair d.table v.0 mark_repair-Keeps ne)
        (rw same_table (
          entry-modify_ne u c precursor_list_destroy d1.table w.0 precursor_list_destroy-Keeps ne
          ∙ invalidate-rt_ne u c d v.0 ne))

  -- An entry that the walk passes over is not a stale one.
  skipped :
      (c u : ℕ) (us : List ℕ) (d : Daemon)
      → Sane (with_entries records (a ∷ [])) d
      → (is_valid (rt u d).state
          && ((rt u d).next_hop == (rt a d).dest_addr)
          && not ((rt u d).dest_addr == (rt a d).dest_addr))
        ≡ false
      → ((c ≢ a → in_list c (u ∷ us) ≡ false) → stale a c (rt c d) ≡ false)
      → (c ≢ a → in_list c us ≡ false)
      → stale a c (rt c d) ≡ false
  skipped c u us d v t h out = elim (Bool-cases (u == c)) [
    | inr n ↦ h (λ ne. ground (arith, out ne, n))
    | inl n ↦
        let self : u ≡ c = ground arith in
        let link : (rt a d).dest_addr ≡ a = entry-dest_addr a d.table v.0 v.4.0 in
        elim (Bool-cases (c == a)) [
          | inl l ↦ h (λ ne. absurd (ground arith))
          | inr l ↦ elim (Bool-cases (is_valid (rt c d).state)) [
            | inr i ↦ rw i
            | inl i ↦
                let there : (rt c d).dest_addr ≡ c =
                  entry-dest_addr c d.table v.0 (valid_Present c d.table v.0 i) in
                ground (arith, self, link, there, i, l, t)
          ]
        ]
  ]

  -- The walk over the destinations `us`: no stale entry is left of those that are in the list or are the
  -- neighbour's own or were not stale before.
  break_each_clears :
      (c : ℕ) (us : List ℕ) (e : Pending) (d : Daemon)
      → Sane (with_entries records (a ∷ [])) d
      → ((c ≢ a → in_list c us ≡ false) → stale a c (rt c d) ≡ false)
      → stale a c (rt c (break_each a us (e, d)).1) ≡ false
  unfolding break_each
  break_each_clears c [] e d v h = h (λ n. refl)
  break_each_clears c (u ∷ us) e d v h =
      let test =
        is_valid (rt u d).state
        && ((rt u d).next_hop == (rt a d).dest_addr)
        && not ((rt u d).dest_addr == (rt a d).dest_addr) in
      elim (Bool-cases test) [
        | inr t ↦ rw (t, break_each) (break_each_clears c us e d v (skipped c u us d v t h))
        | inl t ↦
            rw (t, break_each)
              (let valid : is_valid (rt u d).state ≡ true = ground (arith, t) in
                let found = valid_Present u d.table v.0 valid in
                let v' : Sane (with_entries records (u ∷ a ∷ [])) d =
                  (v.0, v.1, v.2, v.3, (found, v.4), v.5, v.6) in
                let p = break_over a u (e, d) in
                let w = break_over-Sane (with_entries records (u ∷ a ∷ [])) a u (e, d) v' in
                break_each_clears c us p.0 p.1 (w.0, w.1, w.2, w.3, w.4.1, w.5, w.6)
                  (λ out. elim (Bool-cases (u == c)) [
                    | inl n ↦
                        let self : c ≡ u = ground arith in
                        ground (arith, self, break_over_self u e d v')
                    | inr n ↦ ground (
                      arith,
                      break_over_ne u c e d v' (ground arith),
                      h (λ ne. ground (arith, out ne, n)),
                    )
                  ]))
      ]

break_link_clears :
    (records : List (ℕ × ℕ)) (a : ℕ) (d : Daemon)
    → Sane (with_entries records (a ∷ [])) d
    → is_valid (rt a (break_link a d).1).state ≡ false
unfolding break_link
break_link_clears records a d v =
    let d1 = rt_table_invalidate a d in
    let r = rt a d1 in
    let test = not (r.nprec == 0) && not r.flags.repair in
    let w = invalidate-Sane (with_entries records (a ∷ [])) a d v in
    let gone = invalidate_state a d v.0 in
    let p1 = if test then report false r (no_rerr, d1) else (no_rerr, d1) in
    let same_table : p1.1.table ≡ d1.table =
      if-holds (λ x. x.table ≡ d1.table) test (report false r (no_rerr, d1)) (no_rerr, d1)
        (report-table false r (no_rerr, d1)) refl in
    if-keeps (λ x. is_valid (rt a x).state ≡ false) r.flags.repair p1.1
      (modify_rt a precursor_list_destroy p1.1) (rw same_table gone)
      (rw same_table (destroyed_state a d1.table w.0 w.4.0 gone))

absent_invalid :
    (c : ℕ) (t : Table)
    → TableOk t
    → in_list c (all_dests t) ≡ false
    → is_valid (entry c t).state ≡ false
absent_invalid c t v h = elim (Bool-cases (is_valid (entry c t).state)) [
  | inr e ↦ e
  | inl e ↦ absurd (ground (arith, all_dests_in c t (valid_Present c t v e), h))
]

-- When the link to a neighbour breaks that has an entry of one hop, in a daemon that keeps the invariant
-- of the handlers: after neighbor_link_break no valid entry, whatever its destination `c`, is the
-- neighbour's own or has it as next hop.
pub neighbor_link_break-clears :
    (records : List (ℕ × ℕ)) (a c : ℕ) (d : Daemon)
    → Sane (with_entries records (a ∷ [])) d
    → (rt a d).hcnt ≡ 1
    → stale a c (rt c (neighbor_link_break a d)) ≡ false
unfolding neighbor_link_break
neighbor_link_break-clears records a c d v one =
    let p = break_link a d in
    let w = break_link-Sane (with_entries records (a ∷ [])) a d v in
    let r = break_each a (all_dests (p.1).table) p in
    let gone = break_each_clears records a c (all_dests (p.1).table) p.0 p.1 w (λ out.
      elim (Bool-cases (c == a)) [
        | inl e ↦
            let self : c ≡ a = ground arith in ground (arith, self, break_link_clears records a d v)
        | inr e ↦ ground (arith, absent_invalid c (p.1).table w.0 (out (ground arith)))
      ]) in
    let one_hop : ((rt a d).hcnt == 1) ≡ true = ground (arith, one) in
    let sent : (neighbor_link_break a d).table ≡ r.1.table =
      rw (one_hop, neighbor_link_break) (send_rerr-table r) in
    ap (λ t. stale a c (entry c t)) sent ∙ gone
