-- ===== src/Timeout/Discovery.antt =====
-- The search for a destination in the daemon: how many timeouts repeat the request, and what the next one
-- does to the packets that wait.
use embedded_systems_wireles.Base.{
  ℕ, ℤ, ◌+◌, ◌-◌, ◌/◌, ◌≡◌, Bool, ◌&&◌, List, [], ◌∷◌, ltb, ◌==◌, if◌then◌else◌, is_some,
}
use embedded_systems_wireles.Time.{Timeval}
use embedded_systems_wireles.Daemon.{Daemon, Seek, Packet}
use embedded_systems_wireles.Seek.{seek_list_find}
use embedded_systems_wireles.PacketQueue.Bound.{misses}
use embedded_systems_wireles.Timeout.{route_discovery_timeout}

-- The timeouts of the search for a destination, each at its time and with its jitter, until it is over.
unfoldable pub timeouts : ℕ → List (Timeval × ℤ) → Daemon → Daemon
timeouts a [] d = d
timeouts a ((t, j) ∷ cs) d =
    timeouts a cs (route_discovery_timeout a (record d { now = t; draw = j }))

-- How many timeouts repeat the request: those that widen the ring, by 2 up to 7, and those that count.
abbrev pub repeats : Bool → Seek → ℕ
repeats ring s =
    if ltb s.reqs 2 then (2 - s.reqs) + (if ring && ltb s.ttl 7 then (8 - s.ttl) / 2 else 0) else 0

-- The destination is sought still, and its packets wait; or it is not, and they are gone. Other packets wait.
abbrev pub Searching : ℕ → Bool → List Packet → Daemon → Type 0
Searching a on ps d =
    (is_some (seek_list_find a d.seeking) ≡ on)
    × (d.queue ≡ (if on then ps else misses (λ p. p.dest_addr == a) ps))
