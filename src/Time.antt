-- ===== src/Time.antt =====
-- struct timeval and its arithmetic (src/utils/timer_queue.h).
use embedded_systems_wireles.Base.{ℕ, ◌+◌, ◌*◌, ◌/◌, ◌%◌, ◌≡◌, arith, ℤ, sub_ℕ, trunc_div}

pub record Timeval : Type 0 where
  pub sec : ℕ
  pub usec : ℕ

abbrev pub zero_time : Timeval
zero_time = record { sec = 0; usec = 0 }

-- The microseconds that a timeval stands for.
abbrev pub usecs : Timeval → ℕ
usecs t = t.sec * 1000000 + t.usec

-- t1 - t2 in milliseconds, rounded towards zero.
unfoldable pub timeval_diff : Timeval → Timeval → ℤ
timeval_diff t1 t2 = trunc_div (sub_ℕ (usecs t1) (usecs t2)) 1000

unfoldable pub timeval_add_msec : Timeval → ℕ → Timeval
timeval_add_msec t msec = record {
  sec = t.sec + (t.usec + msec * 1000) / 1000000;
  usec = (t.usec + msec * 1000) % 1000000;
}

pub usecs-timeval_add_msec :
    (t : Timeval) (msec : ℕ) → usecs (timeval_add_msec t msec) ≡ usecs t + msec * 1000
unfolding timeval_add_msec
usecs-timeval_add_msec t msec = omega arith
