-- ===== src/Route/Invalidate.antt =====
-- What rt_table_invalidate does to the entries.
use embedded_systems_wireles.Base.{
  ℕ, ◌≡◌, ◌≢◌, refl, ◌∙◌, inl, inr, false, arith, if◌then◌else◌, Bool-cases,
}
use embedded_systems_wireles.Table.{is_valid, entry}
use embedded_systems_wireles.Table.Invariant.{TableOk, Keeps}
use embedded_systems_wireles.Table.Entry.{entry-modify_self, entry-modify_ne, valid_Present}
use embedded_systems_wireles.Daemon.{Daemon, rt}
use embedded_systems_wireles.Route.{rt_table_invalidate, schedule_end, remove_timers, lapse}

pub schedule_end-rt : (a c : ℕ) (d : Daemon) → rt c (schedule_end a d) ≡ rt c d
unfolding schedule_end
schedule_end-rt a c d = ground arith

pub lapse-Keeps : Keeps lapse
unfolding lapse
lapse-Keeps r = (refl, refl, λ h. h)

-- The entry after rt_table_invalidate in a well-formed table: lapsed if it was valid, as before if not.
pub invalidate-rt_self :
    (a : ℕ) (d : Daemon)
    → TableOk d.table
    → rt a (rt_table_invalidate a d) ≡ (if is_valid (rt a d).state then lapse (rt a d) else rt a d)
unfolding rt_table_invalidate remove_timers
invalidate-rt_self a d v = elim (Bool-cases (is_valid (rt a d).state)) [
  | inr e ↦ rw e
  | inl e ↦ rw e (
      schedule_end-rt a a _
      ∙ unfold entry in
        entry-modify_self a lapse d.table v lapse-Keeps (valid_Present a d.table v e))
]

pub invalidate-rt_ne :
    (a c : ℕ) (d : Daemon) → TableOk d.table → c ≢ a → rt c (rt_table_invalidate a d) ≡ rt c d
unfolding rt_table_invalidate remove_timers
invalidate-rt_ne a c d v ne = elim (Bool-cases (is_valid (rt a d).state)) [
  | inr e ↦ rw e
  | inl e ↦
      rw e
        (schedule_end-rt a c _ ∙ unfold entry in entry-modify_ne a c lapse d.table v lapse-Keeps ne)
]

pub invalidate_state :
    (a : ℕ) (d : Daemon) → TableOk d.table → is_valid (rt a (rt_table_invalidate a d)).state ≡ false
invalidate_state a d v = unfold lapse in ground (arith, invalidate-rt_self a d v)
