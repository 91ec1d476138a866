-- ===== src/Timeout/Search.antt =====
-- The bounds of the expanding ring search.
use embedded_systems_wireles.Base.{◌≤◌, Bool, true, arith}
use embedded_systems_wireles.Message.{net_diameter}
use embedded_systems_wireles.Daemon.{Seek}
use embedded_systems_wireles.Timeout.{next_try, wait_time}

-- A TTL within the net's diameter is within it after the next try too, and the wait with the expanding
-- ring is then at most 2960 ms.
pub next_try_bounds :
    (ring : Bool) (s : Seek)
    → s.ttl ≤ net_diameter
    → ((next_try ring s).ttl ≤ net_diameter) × (wait_time true (next_try ring s) ≤ 2960)
unfolding next_try wait_time
next_try_bounds ring s h = (ground arith, ground arith)
