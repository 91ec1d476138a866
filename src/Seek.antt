-- ===== src/Seek.antt =====
-- src/routing/seek_list.c: the destinations that are sought.
use embedded_systems_wireles.Base.{
  ℕ, Bool, true, false, Option, none, some, List, [], ◌∷◌, ◌==◌, if◌then◌else◌, is_some,
}
use embedded_systems_wireles.Timer.{seek_timer, route_discovery_timeout}
use embedded_systems_wireles.Daemon.{Daemon, Seek, init_timer, remove_timer}

unfoldable pub seek_list_insert : ℕ → ℕ → ℕ → ℕ → Daemon → Daemon
seek_list_insert dest_addr dest_seqno ttl flags d =
    init_timer (seek_timer dest_addr) route_discovery_timeout (record d {
      seeking =
          record {
            dest_addr = dest_addr;
            dest_seqno = dest_seqno;
            flags = flags;
            reqs = 0;
            ttl = ttl;
          }
          ∷ d.seeking;
    })

unfoldable pub seek_list_find : ℕ → List Seek → Option Seek
seek_list_find dest_addr [] = none
seek_list_find dest_addr (s ∷ ss) =
    if s.dest_addr == dest_addr then some s else seek_list_find dest_addr ss

unfoldable pub without_seek : ℕ → List Seek → List Seek
without_seek dest_addr [] = []
without_seek dest_addr (s ∷ ss) =
    let rest = without_seek dest_addr ss in if s.dest_addr == dest_addr then ss else s ∷ rest

-- seek_list_remove of the entry for an address, NULL if there is none; the result is true if there
-- was one.
unfoldable pub seek_list_remove : ℕ → Daemon → Daemon × Bool
unfolding seek_list_find without_seek
seek_list_remove dest_addr d =
    if is_some (seek_list_find dest_addr d.seeking)
    then (
      remove_timer (seek_timer dest_addr) (record d { seeking = without_seek dest_addr d.seeking }),
      true,
    )
    else (d, false)

-- A write through a pointer to an entry.
unfoldable pub modify_seek : ℕ → (Seek → Seek) → List Seek → List Seek
modify_seek dest_addr f [] = []
modify_seek dest_addr f (s ∷ ss) =
    let rest = modify_seek dest_addr f ss in if s.dest_addr == dest_addr then f s ∷ ss else s ∷ rest
