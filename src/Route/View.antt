-- ===== src/Route/View.antt =====
-- rt_table_insert and rt_table_delete against the table as what it answers.
use mathlib.Core.Quot
use mathlib.Core.Quot.{Quot}
use mathlib.Core.Path.{subst}
use embedded_systems_wireles.Base.{
  ℕ, ◌+◌, ◌-◌, ◌%◌, ◌^◌, ◌≡◌, ◌≢◌, refl, sym, ap, ◌∙◌, inl, inr, false, arith, Bool-cases,
}
use embedded_systems_wireles.Table.{
  Rt, RtState, Flags, Table, is_valid, hashing, has_dest, link, unlink, rt_table_find,
}
use embedded_systems_wireles.Table.Invariant.{TableOk, Present, link-Present}
use embedded_systems_wireles.Table.View
use embedded_systems_wireles.Table.View.{
  View, Proper, Whole, SameAnswers, put_in, take_out, put_in-TableOk, take_out-TableOk, put_whole,
  take_whole, insert_comm, delete-insert, missing,
}
use embedded_systems_wireles.Daemon.{Daemon, rt}
use embedded_systems_wireles.Sane.Packets.{num_active-TableOk}
use embedded_systems_wireles.Update.Entry.{send_buffered-table}
use embedded_systems_wireles.Route.{
  link_new, start_route, start_timer, insert_new, new_rt, rt_table_insert, rt_table_delete,
  remove_timers,
}

-- A call of rt_table_insert.
pub record Insertion : Type 0 where
  pub dest : ℕ
  pub next : ℕ
  pub hops : ℕ
  pub seqno : ℕ
  pub life : ℕ
  pub state : RtState
  pub flags : Flags
  pub ifindex : ℕ

abbrev pub inserted : Insertion → Rt
inserted c = new_rt c.dest c.next c.hops c.seqno c.state c.flags c.ifindex

abbrev pub run_insert : Insertion → Daemon → Daemon
run_insert c = rt_table_insert c.dest c.next c.hops c.seqno c.life c.state c.flags c.ifindex

inserted-Proper : (c : Insertion) → Proper (inserted c)
unfolding new_rt
inserted-Proper c = (refl, refl)

-- Tables that differ in the counter of the active routes only.
abbrev Counted : Table → Table → Type 0
Counted t u = (n : ℕ) × (t ≡ record u { num_active = n })

start_timer-table : (r : Rt) (p : Daemon × ℕ) → (start_timer r p).table ≡ p.0.table
unfolding start_timer
start_timer-table r p = ground arith

start_route-table :
    (r : Rt) (life : ℕ) (d : Daemon) → Counted (start_route r life d).0.table d.table
unfolding start_route
start_route-table r life d = elim (Bool-cases (is_valid r.state)) [
  | inl e ↦ rw e ((d.table.num_active + 1) % 2 ^ 32, refl)
  | inr e ↦ rw e (elim (Bool-cases r.flags.repair) [
    | inl f ↦ rw f (d.table.num_active, refl)
    | inr f ↦ rw f (d.table.num_active, refl)
  ])
]

insert_new-table :
    (r : Rt) (life : ℕ) (d : Daemon) → Counted (insert_new r life d).table (link r d.table)
unfolding insert_new link_new
insert_new-table r life d =
    let d1 = start_route r life (link_new r d) in
    let (n, e) = start_route-table r life (link_new r d) in
    (n, send_buffered-table r.dest_addr (start_timer r d1) ∙ start_timer-table r d1 ∙ e)

run_insert-table :
    (c : Insertion) (d : Daemon) → Counted (run_insert c d).table (put_in (inserted c) d.table)
unfolding rt_table_insert put_in new_rt
run_insert-table c d = elim (Bool-cases (has_dest c.dest (d.table.tbl (hashing c.dest)))) [
  | inl e ↦ rw e (d.table.num_active, refl)
  | inr e ↦ rw e (insert_new-table (inserted c) c.life d)
]

pub run_insert-TableOk :
    (c : Insertion) (d : Daemon) → TableOk d.table → TableOk (run_insert c d).table
run_insert-TableOk c d v =
    let (n, e) = run_insert-table c d in
    let u = put_in (inserted c) d.table in
    let w : TableOk u = put_in-TableOk (inserted c) d.table (inserted-Proper c) v in
    subst TableOk (sym e) (num_active-TableOk u n w)

Counted-find : (a : ℕ) (t u : Table) → Counted t u → rt_table_find a t ≡ rt_table_find a u
Counted-find a t u (n, e) = ap (rt_table_find a) e ∙ (unfold rt_table_find in refl)

-- What the table of a daemon answers.
abbrev pub view : (d : Daemon) → TableOk d.table → View
view d v = Quot.mk (d.table, v)

-- rt_table_insert puts in the entry that it makes.
view-run_insert :
    (c : Insertion) (d : Daemon) (v : TableOk d.table)
    → view (run_insert c d) (run_insert-TableOk c d v)
      ≡ View.insert (inserted c) (inserted-Proper c) (view d v)
unfolding View.insert put_whole
view-run_insert c d v = Quot.sound (λ a.
    Counted-find a (run_insert c d).table (put_in (inserted c) d.table) (run_insert-table c d))

-- Two calls of rt_table_insert for two destinations, in a daemon with a well-formed table: the
-- tables that they leave in either order answer every look-up alike, and are one element of the
-- quotient of the well-formed tables by their answers.
pub inserts_commute :
    (c e : Insertion) (d : Daemon) (v : TableOk d.table)
    → c.dest ≢ e.dest
    → view
        (run_insert c (run_insert e d))
        (run_insert-TableOk c (run_insert e d) (run_insert-TableOk e d v))
      ≡ view
          (run_insert e (run_insert c d))
          (run_insert-TableOk e (run_insert c d) (run_insert-TableOk c d v))
inserts_commute c e d v n =
    rw
      (
        view-run_insert c (run_insert e d) (run_insert-TableOk e d v),
        view-run_insert e d v,
        view-run_insert e (run_insert c d) (run_insert-TableOk c d v),
        view-run_insert c d v,
      )
      (insert_comm (inserted c) (inserted e) (inserted-Proper c) (inserted-Proper e) (view d v)
        (unfold new_rt in n))

rt_table_delete-table :
    (a : ℕ) (d : Daemon)
    → Present d.table a
    → Counted (rt_table_delete a d).table (take_out a d.table)
unfolding rt_table_delete remove_timers take_out
rt_table_delete-table a d h = elim (Bool-cases (is_valid (rt a d).state)) [
  | inl e ↦ rw (h, e) ((d.table.num_active + 2 ^ 32 - 1) % 2 ^ 32, unfold unlink in refl)
  | inr e ↦ rw (h, e) (d.table.num_active, unfold unlink in refl)
]

pub delete-TableOk :
    (a : ℕ) (d : Daemon) → Present d.table a → TableOk d.table → TableOk (rt_table_delete a d).table
delete-TableOk a d h v =
    let (n, e) = rt_table_delete-table a d h in
    subst TableOk (sym e) (num_active-TableOk (take_out a d.table) n (take_out-TableOk a d.table v))

-- rt_table_delete takes out the entry that is there.
view-rt_table_delete :
    (a : ℕ) (d : Daemon) (h : Present d.table a) (v : TableOk d.table)
    → view (rt_table_delete a d) (delete-TableOk a d h v) ≡ View.delete a (view d v)
unfolding View.delete take_whole
view-rt_table_delete a d h v = Quot.sound (λ c.
    Counted-find c (rt_table_delete a d).table (take_out a d.table) (rt_table_delete-table a d h))

pub run_insert-Present : (c : Insertion) (d : Daemon) → Present (run_insert c d).table c.dest
run_insert-Present c d =
    let (n, e) = run_insert-table c d in subst (λ t. Present t c.dest) (sym e) here
  where
    here : Present (put_in (inserted c) d.table) c.dest
    here =
        unfold put_in in
        unfold new_rt in
        elim (Bool-cases (has_dest c.dest (d.table.tbl (hashing c.dest)))) [
          | inl e ↦ rw e e
          | inr e ↦ rw e (link-Present (inserted c) d.table)
        ]

-- In a daemon with a well-formed table: after rt_table_delete right after rt_table_insert for a
-- destination that had no entry, the table answers every look-up as before.
pub delete_inserted :
    (c : Insertion) (d : Daemon) (v : TableOk d.table)
    → has_dest c.dest (d.table.tbl (hashing c.dest)) ≡ false
    → view
        (rt_table_delete c.dest (run_insert c d))
        (delete-TableOk c.dest (run_insert c d) (run_insert-Present c d) (run_insert-TableOk c d v))
      ≡ view d v
unfolding View.lookup new_rt
delete_inserted c d v h =
    rw
      (
        view-rt_table_delete c.dest (run_insert c d) (run_insert-Present c d)
            (run_insert-TableOk c d v),
        view-run_insert c d v,
      )
      (delete-insert (inserted c) (inserted-Proper c) (view d v) (missing c.dest d.table v h))
