-- ===== src/Tame.antt =====
-- What handlers do to timers: they start, stop and install their own, never the one that collects
-- garbage in the packet queue. A function that takes an entry
-- is installed in an entry's timer only. A property of the timers that such operations keep is kept by
-- every handler, operation by operation.
pub mod Sends
pub mod Packets
pub mod Routes
pub mod Errors
pub mod Hellos
pub mod Replies
pub mod Requests
pub mod Timeouts
pub mod Inputs
use embedded_systems_wireles.Base.{ℕ, ◌≡◌, Bool, true, false, ◌&&◌, arith}
use embedded_systems_wireles.Time.{Timeval}
use embedded_systems_wireles.Daemon.{Daemon}
use embedded_systems_wireles.Timer.{
  TimerId, Handler, Timers, garbage_collect_timer, fits, set_cell, timer_init, timer_remove,
  timer_set_timeout,
}

abbrev pub ordinary : TimerId → Bool
ordinary garbage_collect_timer = false
ordinary _ = true

abbrev pub may_install : TimerId → Handler → Bool
may_install t f = ordinary t && fits t f

pub may_install-ordinary : (t : TimerId) (f : Handler) → may_install t f ≡ true → ordinary t ≡ true
may_install-ordinary t f h = ground arith

-- The property P is kept by what is done to ordinary timers.
pub record Tame (P : Timers → Type 0) : Type 0 where
  pub init :
      (t : TimerId) (f : Handler) (ts : Timers)
      → may_install t f ≡ true
      → P ts
      → P (timer_init t f ts)
  pub timeout :
      (t : TimerId) (now : Timeval) (msec : ℕ) (ts : Timers)
      → ordinary t ≡ true
      → P ts
      → P (timer_set_timeout t now msec ts)
  pub remove : (t : TimerId) (ts : Timers) → ordinary t ≡ true → P ts → P (timer_remove t ts).0
  pub handler :
      (t : TimerId) (f : Handler) (ts : Timers)
      → may_install t f ≡ true
      → P ts
      → P (record ts { cell = set_cell ts.cell t (record (ts.cell t) { handler = f }) })

-- The property of the daemon's timers.
unfoldable pub On : (Timers → Type 0) → Daemon → Type 0
On P d = P d.timers
