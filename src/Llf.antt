-- ===== src/Llf.antt =====
-- The link-layer feedback of src/network/llf.c: what the daemon does on the events of a wireless device. How
-- the events are taken out of a message (iwlib), and what the ARP cache says, is given.
use embedded_systems_wireles.Base.{ℕ, Option, none, some, List, [], ◌∷◌}
use embedded_systems_wireles.Table.{rt_table_find}
use embedded_systems_wireles.Daemon.{Daemon}
use embedded_systems_wireles.Neighbor.{neighbor_link_break}

-- An event of a wireless device: a packet that could not be sent, with the address that mac_to_ip finds for
-- its receiver; or another one.
pub data IwEvent : Type 0 where
  tx_drop : Option ℕ → IwEvent
  other_event : IwEvent

unfoldable pub llf_print_event : IwEvent → Daemon → Daemon
llf_print_event (tx_drop none) d = d
llf_print_event (tx_drop (some ip)) d = elim (rt_table_find ip d.table) [
  | none ↦ d
  | some r ↦ neighbor_link_break r.dest_addr d
]
llf_print_event other_event d = d

-- The loop over the events of a message.
unfoldable pub llf_print_events : List IwEvent → Daemon → Daemon
unfolding llf_print_event
llf_print_events [] d = d
llf_print_events (e ∷ es) d = llf_print_events es (llf_print_event e d)
