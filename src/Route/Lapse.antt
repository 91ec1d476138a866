-- ===== src/Route/Lapse.antt =====
-- All that rt_table_invalidate does to a valid route: the entry, its timers, the counter and the kernel's route.
use embedded_systems_wireles.Base.{
  ite, ℕ, ◌+◌, ◌-◌, ◌*◌, ◌%◌, ◌^◌, ◌≡◌, ◌≢◌, refl, ap, sym, ◌∙◌, inl, inr, true, false, [], ◌∷◌,
  ◌++◌, arith, if◌then◌else◌, Bool-cases,
}
use embedded_systems_wireles.Time.{usecs, zero_time}
use embedded_systems_wireles.Seqno.{seqno_incr}
use embedded_systems_wireles.Timer.{
  TimerId, TimerId_discrete, Handler, Timers, rt_timer, ack_timer, hello_timer, elem, attached,
  timer_remove, set_cell, local_repair_timeout, route_delete_timeout,
}
use embedded_systems_wireles.Timer.Order.{due, elem-detach}
use embedded_systems_wireles.Timer.Expiry.{timer_set_timeout_arms}
use embedded_systems_wireles.Table.{Rt, modify, invalid, is_valid, entry}
use embedded_systems_wireles.Table.Invariant.{TableOk}
use embedded_systems_wireles.Table.Entry.{entry-dest_addr, entry-modify_self, valid_Present}
use embedded_systems_wireles.Daemon.{Daemon, rt, route_deleted, emit, modify_rt, set_handler}
use embedded_systems_wireles.Route.{
  rt_table_invalidate, schedule_end, remove_timers, lapse, dec_active,
}
use embedded_systems_wireles.Route.Invalidate.{invalidate-rt_ne, lapse-Keeps}

-- The time until what comes after an entry goes invalid, and the function for it.
abbrev pub end_wait : Rt → Daemon → ℕ
end_wait r d = if r.flags.repair then d.cfg.active_route_timeout else d.cfg.delete_period

abbrev pub end_handler : Rt → Handler
end_handler r = if r.flags.repair then local_repair_timeout else route_delete_timeout

attached-timer_remove :
    (s t : TimerId) (ts : Timers)
    → attached s (timer_remove t ts).0 ≡ ite (TimerId_discrete t s) false (attached s ts)
unfolding attached timer_remove
attached-timer_remove s t ts = ground (arith, elem-detach s t ts.tq, elem-detach s t ts.exp)

attached-remove_timers :
    (a : ℕ) (d : Daemon)
    → let ts = (remove_timers a d).timers in
      (attached (hello_timer a) ts ≡ false) × (attached (ack_timer a) ts ≡ false)
unfolding remove_timers
attached-remove_timers a d =
    let ts1 = (timer_remove (rt_timer a) d.timers).0 in
    let ts2 = (timer_remove (hello_timer a) ts1).0 in
    (
      ground (
        arith,
        attached-timer_remove (hello_timer a) (ack_timer a) ts2,
        attached-timer_remove (hello_timer a) (hello_timer a) ts1,
      ),
      ground (arith, attached-timer_remove (ack_timer a) (ack_timer a) ts2),
    )

-- What schedule_end leaves of the timers: the entry's own is set, another one is as it was.
schedule_end_lem :
    (a : ℕ) (s : TimerId) (d : Daemon)
    → s ≢ rt_timer a
    → let ts = (schedule_end a d).timers in
      let r = rt a d in
      (elem (rt_timer a) ts.tq ≡ true)
      × (due ts.cell (rt_timer a) ≡ usecs d.now + end_wait r d * 1000)
      × ((ts.cell (rt_timer a)).handler ≡ end_handler r)
      × (attached s ts ≡ attached s d.timers)
unfolding schedule_end set_cell attached
schedule_end_lem a s d ne = elim (Bool-cases (rt a d).flags.repair) [
  | inl e ↦
      let (q, u, t, h, c, k) =
        timer_set_timeout_arms (rt_timer a) s d.now d.cfg.active_route_timeout
          (set_handler (rt_timer a) local_repair_timeout d).timers ne in
      rw e (q, t, h ∙ ground arith, k)
  | inr e ↦
      let (q, u, t, h, c, k) =
        timer_set_timeout_arms (rt_timer a) s d.now d.cfg.delete_period
          (set_handler (rt_timer a) route_delete_timeout d).timers ne in
      rw e (q, t, h ∙ ground arith, k)
]

schedule_end-frame :
    (a : ℕ) (d : Daemon) → ((schedule_end a d).out ≡ d.out) × ((schedule_end a d).table ≡ d.table)
unfolding schedule_end
schedule_end-frame a d = (ground arith, ground arith)

-- After rt_table_invalidate of a valid entry in a well-formed table: the entry is invalid, with its
-- sequence number incremented, no HELLOs counted and all else as it was; every other entry is as it
-- was; num_active is one less, modulo 2 ^ 32; the kernel is told to delete the route, and nothing
-- else is sent; the entry's timers for HELLOs and acknowledgements are in no list; and its own
-- timer is in the queue, due after ACTIVE_ROUTE_TIMEOUT with local_repair_timeout if the entry is
-- in repair, else after DELETE_PERIOD with route_delete_timeout.
pub rt_table_invalidate_lem :
    (a c : ℕ) (d : Daemon)
    → TableOk d.table
    → is_valid (rt a d).state ≡ true
    → c ≢ a
    → let r = rt a d in
      let d' = rt_table_invalidate a d in
      let ts = d'.timers in
      (rt a d' ≡ record r {
        state = invalid;
        dest_seqno = seqno_incr r.dest_seqno;
        hello_cnt = 0;
        last_hello_time = zero_time;
      })
      × (rt c d' ≡ rt c d)
      × (d'.table.num_active ≡ (d.table.num_active + 2 ^ 32 - 1) % 2 ^ 32)
      × (d'.out ≡ d.out ++ route_deleted a r.next_hop r.hcnt ∷ [])
      × (attached (hello_timer a) ts ≡ false)
      × (attached (ack_timer a) ts ≡ false)
      × (elem (rt_timer a) ts.tq ≡ true)
      × (due ts.cell (rt_timer a) ≡ usecs d.now + end_wait r d * 1000)
      × ((ts.cell (rt_timer a)).handler ≡ end_handler r)
rt_table_invalidate_lem a c d v h ne =
    let r = rt a d in
    let d1 = dec_active (modify_rt a lapse (remove_timers a d)) in
    let d2 = emit (route_deleted r.dest_addr r.next_hop r.hcnt) d1 in
    let lapsed : rt a d2 ≡ lapse r =
      unfold entry in
      unfold remove_timers in
      entry-modify_self a lapse d.table v lapse-Keeps (valid_Present a d.table v h) in
    let flags : (rt a d2).flags ≡ r.flags = ap (λ x. x.flags) lapsed ∙ (unfold lapse in refl) in
    let key : r.dest_addr ≡ a = entry-dest_addr a d.table v (valid_Present a d.table v h) in
    let (tq, due_at, f, hello) = schedule_end_lem a (hello_timer a) d2 hello_other in
    let ack = (schedule_end_lem a (ack_timer a) d2 ack_other).3 in
    let (gone, gone') = attached-remove_timers a d in
    let (out, table) = schedule_end-frame a d2 in
    let e : rt_table_invalidate a d ≡ schedule_end a d2 = unfold rt_table_invalidate in rw h refl in
    rw e (
      ap (entry a) table ∙ lapsed ∙ (unfold lapse in refl),
      ap (rt c) (sym e) ∙ invalidate-rt_ne a c d v ne,
      ap (λ t. t.num_active) table ∙ (unfold modify in unfold remove_timers in refl),
      out ∙ (unfold remove_timers in rw key refl),
      hello ∙ (unfold attached in gone),
      ack ∙ gone',
      tq,
      due_at
          ∙ (unfold remove_timers in
              ap
                (λ x.
                  usecs d.now
                  + (if x.repair then d.cfg.active_route_timeout else d.cfg.delete_period) * 1000)
                flags),
      f ∙ ap (λ x. if x.repair then local_repair_timeout else route_delete_timeout) flags,
    )
  where
    hello_other : hello_timer a ≢ rt_timer a
    hello_other q = absurd (ground (arith, q))

    ack_other : ack_timer a ≢ rt_timer a
    ack_other q = absurd (ground (arith, q))
