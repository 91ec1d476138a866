-- ===== src/Event/Handlers.antt =====
-- Expired timers keep the invariant.
use embedded_systems_wireles.Base.{ℕ, refl, List, []}
use embedded_systems_wireles.Timer.{TimerId, Handler, owner}
use embedded_systems_wireles.Timer
use embedded_systems_wireles.Table.Invariant.{Present}
use embedded_systems_wireles.Daemon.{Daemon}
use embedded_systems_wireles.Rreq.{rreq_record_timeout}
use embedded_systems_wireles.Route.{rt_table_delete}
use embedded_systems_wireles.Hello.{hello_send}
use embedded_systems_wireles.PacketQueue.{packet_queue_timeout}
use embedded_systems_wireles.Timeout.{
  route_expire_timeout, local_repair_timeout, rrep_ack_timeout, hello_timeout,
  route_discovery_timeout, rreq_blacklist_timeout, route_delete_timeout, wait_on_reboot_timeout,
}
use embedded_systems_wireles.Event.{run_handler}
use embedded_systems_wireles.Event.Packets.{Healthy, track}
use embedded_systems_wireles.Sane.Hellos.{hello_send-Sane}
use embedded_systems_wireles.Sane.Timeouts.{
  route_expire-Sane, local_repair-Sane, ack_timeout-Sane, hello_timeout-Sane, route_discovery-Sane,
  packet_queue_timeout-Sane, delete-Sane,
}
use embedded_systems_wireles.Event.Packets.{weaken}

-- The entry that a handler is to free, or to keep for a while, exists.
abbrev pub Live : Handler → ℕ → Daemon → Type 0
Live Timer.route_delete_timeout a d = Present d.table a
Live Timer.local_repair_timeout a d = Present d.table a
Live _ a d = Unit {0}

-- The destinations whose entries are followed through a handler: none through one that frees an entry.
abbrev pub kept_by : Handler → List ℕ → List ℕ
kept_by Timer.route_delete_timeout ks = []
kept_by _ ks = ks

-- Whatever handler a timer runs, for whatever owner: a well-formed routing table stays well-formed,
-- every destination that has an entry keeps one through all handlers but the one that deletes an
-- entry, the arrays of the rate limits are not overrun, each timer of an entry that is in a list
-- has its entry in the table, and packets wait for destinations only that are sought; the entry
-- that is to be deleted, or whose repair has failed, is to exist before.
pub run_handler-Healthy :
    (f : Handler) (t : TimerId) (ks : List ℕ) (d : Daemon)
    → Healthy ks d
    → Live f (owner t) d
    → Healthy (kept_by f ks) (run_handler f t d)
unfolding run_handler
run_handler-Healthy Timer.route_expire_timeout t ks d v h =
    weaken (track ks d) (route_expire_timeout (owner t) d)
      (route_expire-Sane (track ks d) (owner t) d v)
run_handler-Healthy Timer.route_delete_timeout t ks d v h =
    unfold route_delete_timeout in
    weaken (track [] d) (rt_table_delete (owner t) d)
      (delete-Sane d.rreq_records (owner t) d (v.0, v.1, v.2, v.3, tt, v.5, v.6) h)
run_handler-Healthy Timer.local_repair_timeout t ks d v h =
    weaken (track ks d) (local_repair_timeout (owner t) d)
      (local_repair-Sane (track ks d) (owner t) d h v)
run_handler-Healthy Timer.rrep_ack_timeout t ks d v h =
    weaken (track ks d) (rrep_ack_timeout (owner t) d) (ack_timeout-Sane (track ks d) (owner t) d v)
run_handler-Healthy Timer.hello_timeout t ks d v h =
    weaken (track ks d) (hello_timeout (owner t) d) (hello_timeout-Sane (track ks d) (owner t) d v)
run_handler-Healthy Timer.route_discovery_timeout t ks d v h =
    weaken (track ks d) (route_discovery_timeout (owner t) d)
      (route_discovery-Sane (track ks d) (owner t) d v)
run_handler-Healthy Timer.rreq_record_timeout t ks d v h =
    unfold rreq_record_timeout in (v.0, refl, v.2, v.3, v.4, v.5, v.6)
run_handler-Healthy Timer.rreq_blacklist_timeout t ks d v h =
    unfold rreq_blacklist_timeout in (v.0, refl, v.2, v.3, v.4, v.5, v.6)
run_handler-Healthy Timer.hello_send t ks d v h =
    weaken (track ks d) (hello_send d) (hello_send-Sane (track ks d) d v)
run_handler-Healthy Timer.packet_queue_timeout t ks d v h =
    weaken (track ks d) (packet_queue_timeout d) (packet_queue_timeout-Sane (track ks d) d v)
run_handler-Healthy Timer.wait_on_reboot_timeout t ks d v h =
    unfold wait_on_reboot_timeout in (v.0, refl, v.2, v.3, v.4, v.5, v.6)
