-- ===== src/Event/Packets.antt =====
-- Received packets keep the invariant.
use embedded_systems_wireles.Base.{
  [], ℕ, refl, inl, inr, Bool, true, false, List, if◌then◌else◌, Bool-cases,
}
use embedded_systems_wireles.Message.{Msg, rreq, rrep, rerr, rrep_ack, empty}
use embedded_systems_wireles.Daemon.{Daemon, max_nr_interfaces}
use embedded_systems_wireles.Hello.{neighbor_add}
use embedded_systems_wireles.Rreq.{ignored, rreq_process}
use embedded_systems_wireles.Rrep.{rrep_process, rrep_ack_process}
use embedded_systems_wireles.Rerr.{rerr_process}
use embedded_systems_wireles.Hello.{hello_process}
use embedded_systems_wireles.Event.{
  as_hello, hello_or, handle, own_address, aodv_socket_process_packet, aodv_socket_read,
}
use embedded_systems_wireles.PacketInput.{nfqueue_packet_cb}
use embedded_systems_wireles.Sane.{Sane, Track}
use embedded_systems_wireles.Sane.Inputs.{nfqueue-Sane}
use embedded_systems_wireles.Sane.Errors.{rerr_process-Sane}
use embedded_systems_wireles.Sane.Hellos.{hello_process-Sane, neighbor_add-Sane}
use embedded_systems_wireles.Sane.Replies.{rrep_process-Sane, rrep_ack_process-Sane}
use embedded_systems_wireles.Sane.Requests.{recorded, rreq_process-Sane}

abbrev pub track : List ℕ → Daemon → Track
track ks d = record { records = d.rreq_records; present = ks; exempt = [] }

-- The table is well-formed with entries for the listed destinations, no array is overrun, no timer of an
-- entry outlives it in a list, and packets wait for destinations only that are sought.
abbrev pub Healthy : List ℕ → Daemon → Type 0
Healthy ks d = Sane (track ks d) d

pub weaken : (tr : Track) (d : Daemon) → Sane tr d → Sane (record tr { records = d.rreq_records }) d
weaken tr d v = (v.0, refl, v.2, v.3, v.4, v.5, v.6)

if-Healthy :
    (ks : List ℕ) (b : Bool) (x y : Daemon)
    → Healthy ks x
    → Healthy ks y
    → Healthy ks (if b then x else y)
if-Healthy ks true x y p q = p
if-Healthy ks false x y p q = q

handle-Healthy :
    (m : Msg) (len src ttl ifindex : ℕ) (ks : List ℕ) (d : Daemon)
    → Healthy ks d
    → Healthy ks (handle m len src ttl ifindex d)
unfolding handle
handle-Healthy (rreq m) len src ttl ifindex ks d v =
    let w = rreq_process-Sane (track ks d) m len src ttl ifindex d v in
    elim (Bool-cases (ignored m len src ifindex d)) [
      | inl e ↦ weaken (track ks d) (rreq_process m len src ttl ifindex d) (rw e at w)
      | inr e ↦ weaken (recorded m (track ks d)) (rreq_process m len src ttl ifindex d) (rw e at w)
    ]
handle-Healthy (rrep m) len src ttl ifindex ks d v =
    weaken (track ks d) (rrep_process m len src ttl ifindex d)
      (rrep_process-Sane (track ks d) m len src ttl ifindex d v)
handle-Healthy (rerr m) len src ttl ifindex ks d v =
    weaken (track ks d) (rerr_process m len src d) (rerr_process-Sane (track ks d) m len src d v)
handle-Healthy rrep_ack len src ttl ifindex ks d v =
    weaken (track ks d) (rrep_ack_process src d) (rrep_ack_process-Sane (track ks d) src d v)
handle-Healthy empty len src ttl ifindex ks d v = v

process-Healthy :
    (m : Msg) (len src dst ttl ifindex : ℕ) (ks : List ℕ) (d : Daemon)
    → Healthy ks d
    → Healthy ks (aodv_socket_process_packet m len src dst ttl ifindex d)
unfolding aodv_socket_process_packet hello_or
process-Healthy m len src dst ttl ifindex ks d v =
    if-Healthy ks (as_hello m dst ttl) (hello_or m len ifindex d d)
      (handle m len src ttl ifindex (neighbor_add src ifindex d)) (hello_or-Healthy m)
      (handle-Healthy m len src ttl ifindex ks (neighbor_add src ifindex d) (
        weaken (track ks d) (neighbor_add src ifindex d)
          (neighbor_add-Sane (track ks d) src ifindex d v)))
  where
    hello_or-Healthy : (n : Msg) → Healthy ks (hello_or n len ifindex d d)
    hello_or-Healthy (rrep n) =
        weaken (track ks d) (hello_process n len ifindex d)
          (hello_process-Sane (track ks d) n len ifindex d v)
    hello_or-Healthy (rreq n) = v
    hello_or-Healthy (rerr n) = v
    hello_or-Healthy rrep_ack = v
    hello_or-Healthy empty = v

-- Whatever packet is received, of any kind and length and from anyone: a well-formed routing table
-- stays well-formed, every destination that has an entry keeps one, the arrays of the rate limits
-- are not overrun, each timer of an entry that is in a list has its entry in the table, and packets
-- wait for destinations only that are sought.
pub aodv_socket_read-Healthy :
    (m : Msg) (len src dst ttl ifindex : ℕ) (ks : List ℕ) (d : Daemon)
    → Healthy ks d
    → Healthy ks (aodv_socket_read m len src dst ttl ifindex d)
unfolding aodv_socket_read
aodv_socket_read-Healthy m len src dst ttl ifindex ks d v =
    if-Healthy ks (own_address max_nr_interfaces 0 src d) d
      (aodv_socket_process_packet m len src dst ttl ifindex d) v
      (process-Healthy m len src dst ttl ifindex ks d v)

-- Whatever packet NFQUEUE hands over, of any bytes and at any hook: a well-formed routing table
-- stays well-formed, every destination that has an entry keeps one, the arrays of the rate limits
-- are not overrun, each timer of an entry that is in a list has its entry in the table, and packets
-- wait for destinations only that are sought.
pub nfqueue_packet_cb-Healthy :
    (packet_id : ℕ) (p : List ℕ) (hook indev outdev : ℕ) (ks : List ℕ) (d : Daemon)
    → Healthy ks d
    → Healthy ks (nfqueue_packet_cb packet_id p hook indev outdev d)
nfqueue_packet_cb-Healthy packet_id p hook indev outdev ks d v =
    weaken (track ks d) (nfqueue_packet_cb packet_id p hook indev outdev d)
      (nfqueue-Sane (track ks d) packet_id p hook indev outdev d v)
