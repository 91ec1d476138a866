-- ===== src/Daemon.antt =====
-- The state of the daemon: the globals of src/core/main.c and of the modules. The clock is read once
-- for each event (`now`), and so is the random jitter (`draw`).
use embedded_systems_wireles.Base.{
  ℕ, zero, suc, ◌+◌, Bool, List, [], ◌∷◌, ◌++◌, ℤ, ◌==◌, if◌then◌else◌,
}
use embedded_systems_wireles.Time.{Timeval}
use embedded_systems_wireles.Timer
use embedded_systems_wireles.Timer.{TimerId, Handler, Timers}
use embedded_systems_wireles.Table
use embedded_systems_wireles.Table.{Table, Rt}
use embedded_systems_wireles.Message.{Msg}

-- The options of the command line and the values of params.h that llfeedback chooses.
pub record Config : Type 0 where
  pub active_route_timeout : ℕ
  pub ttl_start : ℕ
  pub delete_period : ℕ
  pub llfeedback : Bool
  pub unidir_hack : Bool
  pub receive_n_hellos : ℕ
  pub optimized_hellos : Bool
  pub hello_jittering : Bool
  pub expanding_ring_search : Bool
  pub local_repair : Bool
  pub rreq_gratuitous : Bool
  pub ratelimit : Bool

-- struct dev_info; the socket is named by the device's position.
pub record Dev : Type 0 where
  pub enabled : Bool
  pub ifindex : ℕ
  pub ipaddr : ℕ
  pub netmask : ℕ
  pub broadcast : ℕ

-- struct host_info, with the array dev_indices.
pub record Host : Type 0 where
  pub seqno : ℕ
  pub bcast_time : Timeval
  pub fwd_time : Timeval
  pub rreq_id : ℕ
  pub nif : ℕ
  pub devs : ℕ → Dev
  pub dev_indices : ℕ → ℕ

-- struct seek_list; its ipd is always NULL here, and its timer stands in the timer store.
pub record Seek : Type 0 where
  pub dest_addr : ℕ
  pub dest_seqno : ℕ
  pub flags : ℕ
  pub reqs : ℕ
  pub ttl : ℕ

-- struct q_pkt.
pub record Packet : Type 0 where
  pub packet_id : ℕ
  pub dest_addr : ℕ
  pub q_time : Timeval

-- What leaves the daemon: a message with its destination, length, TTL and device; a netlink
-- message to the kernel's module about a route; a verdict on a queued packet
-- (accepted or dropped).
pub data Output : Type 0 where
  sent : Msg → ℕ → ℕ → ℕ → ℕ → Output
  route_added : ℕ → ℕ → ℕ → ℕ → Output
  route_deleted : ℕ → ℕ → ℕ → Output
  verdict : ℕ → Bool → Output

pub record Daemon : Type 0 where
  pub cfg : Config
  pub host : Host
  pub wait_on_reboot : Bool
  pub now : Timeval
  pub draw : ℤ
  pub timers : Timers
  pub table : Table
  pub queue : List Packet
  pub queue_len : ℕ
  pub seeking : List Seek
  pub rreq_records : List (ℕ × ℕ)
  pub rreq_blacklist : List ℕ
  pub send_buf : Msg
  pub rreq_ratel : List Timeval
  pub rerr_ratel : List Timeval
  pub out : List Output

abbrev pub max_nr_interfaces : ℕ
max_nr_interfaces = 10

-- `n` entries of dev_indices are left, from `i` on.
unfoldable pub find_index : ℕ → ℕ → ℕ → Host → ℕ
find_index zero i ifindex h = max_nr_interfaces
find_index (suc n) i ifindex h =
    let rest = find_index n (i + 1) ifindex h in if h.dev_indices i == ifindex then i else rest

unfoldable pub ifindex2devindex : ℕ → Host → ℕ
unfolding find_index
ifindex2devindex ifindex h = find_index h.nif 0 ifindex h

-- DEV_IFINDEX(ifindex).ipaddr of this host.
unfoldable pub dev_ipaddr : ℕ → Daemon → ℕ
unfolding ifindex2devindex
dev_ipaddr ifindex d = (d.host.devs (ifindex2devindex ifindex d.host)).ipaddr

abbrev pub emit : Output → Daemon → Daemon
emit o d = record d { out = d.out ++ o ∷ [] }

abbrev pub modify_rt : ℕ → (Rt → Rt) → Daemon → Daemon
modify_rt addr f d = record d { table = Table.modify addr f d.table }

abbrev pub rt : ℕ → Daemon → Rt
rt addr d = Table.entry addr d.table

abbrev pub init_timer : TimerId → Handler → Daemon → Daemon
init_timer t f d = record d { timers = Timer.timer_init t f d.timers }

abbrev pub set_timeout : TimerId → ℕ → Daemon → Daemon
set_timeout t msec d = record d { timers = Timer.timer_set_timeout t d.now msec d.timers }

abbrev pub remove_timer : TimerId → Daemon → Daemon
remove_timer t d = record d { timers = (Timer.timer_remove t d.timers).0 }

-- An assignment to the handler of a timer.
abbrev pub set_handler : TimerId → Handler → Daemon → Daemon
set_handler t f d = record d {
  timers = record (d.timers) {
    cell = Timer.set_cell d.timers.cell t (record (d.timers.cell t) { handler = f });
  };
}
