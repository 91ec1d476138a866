-- ===== src/Sane.antt =====
-- What every handler keeps: the invariant of the whole daemon between two events, and its proof for the
-- parts that the handlers are made of.
pub mod Owners
pub mod Sends
pub mod Routes
pub mod Queue
pub mod Packets
pub mod Errors
pub mod Hellos
pub mod Replies
pub mod Requests
pub mod Timeouts
pub mod Searches
pub mod Inputs
use embedded_systems_wireles.Base.{true, ◌||◌, is_some, ℕ, ◌+◌, ◌-◌, ◌≤◌, ◌≡◌, List, All, length}
use embedded_systems_wireles.Message.{rate_limit}
use embedded_systems_wireles.Timer.{TimerId, Timers, elem, owner, of_route}
use embedded_systems_wireles.Table.{Table}
use embedded_systems_wireles.Table.Invariant.{TableOk, Present}
use embedded_systems_wireles.Daemon.{Daemon, Seek, Packet}
use embedded_systems_wireles.Seek.{seek_list_find}
use embedded_systems_wireles.Table.Entry.{in_list}

-- What is followed through a handler: the buffered requests, destinations that have an entry, and
-- destinations with packets that wait while the search for them is not on.
pub record Track : Type 0 where
  pub records : List (ℕ × ℕ)
  pub present : List ℕ
  pub exempt : List ℕ

-- The entry of each timer of a route that is in a list has not been freed.
abbrev pub Owned : Table → Timers → Type 0
Owned table ts =
    (t : TimerId)
    → of_route t ≡ true
    → elem t ts.tq || elem t ts.exp ≡ true
    → Present table (owner t)

-- Each packet that waits is for a destination that is sought, or for one of the list.
abbrev pub Searched : List ℕ → List Seek → Packet → Type 0
Searched exempt seeking p =
    is_some (seek_list_find p.dest_addr seeking) || in_list p.dest_addr exempt ≡ true

abbrev pub Sought : List ℕ → Daemon → Type 0
Sought exempt d = All (Searched exempt d.seeking) d.queue

-- The routing table is well-formed, the buffered requests are those of the list, the arrays of the rate
-- limits are not overrun, the destinations of the list have entries, and so have the timers of entries, and
-- packets wait for destinations only that are sought.
abbrev pub Sane : Track → Daemon → Type 0
Sane tr d =
    TableOk d.table
    × (d.rreq_records ≡ tr.records)
    × (length d.rreq_ratel ≤ rate_limit - 1)
    × (length d.rerr_ratel ≤ rate_limit - 1)
    × All (Present d.table) tr.present
    × Owned d.table d.timers
    × Sought tr.exempt d
