-- ===== src/Examples/Daemons.antt =====
-- A daemon with one device and two routes, and the theorems about its events.
use embedded_systems_wireles.Base.{
  ◌+◌, ◌-◌, ◌*◌, ◌%◌, ◌^◌, ◌++◌, ◌≢◌, ◌≡◌, refl, true, false, [], ◌∷◌, pos, arith,
}
use embedded_systems_wireles.Time.{Timeval, zero_time, usecs}
use embedded_systems_wireles.Timer
use embedded_systems_wireles.Timer.{rt_timer, hello_timer, ack_timer, elem, attached}
use embedded_systems_wireles.Timer.{Timers}
use embedded_systems_wireles.Message.{Rerr, aodv_broadcast, Rreq, rreq, empty}
use embedded_systems_wireles.Table.{
  modify, invalid, all_dests, precursor_list_destroy, valid, no_flags, rt_table_init, is_valid,
  entry, has_dest, link,
}
use embedded_systems_wireles.Table.Invariant.{Present, rt_table_init-TableOk}
use embedded_systems_wireles.Daemon.{Daemon, route_deleted, dev_ipaddr, Config, Host, Dev, rt}
use embedded_systems_wireles.Seek.{seek_list_remove}
use embedded_systems_wireles.Route.{rt_table_insert, rt_table_invalidate}
use embedded_systems_wireles.Route.Lapse.{end_wait, end_handler, rt_table_invalidate_lem}
use embedded_systems_wireles.Seqno.{seqno_incr}
use embedded_systems_wireles.Timer.Order.{due}
use embedded_systems_wireles.Update.{revived_flags, rt_table_update}
use embedded_systems_wireles.Update.Entry.{rt_table_update-rt}
use embedded_systems_wireles.Lifetime.{rt_table_update_timeout}
use embedded_systems_wireles.Rerr.{rerr_process, send_rerr}
use embedded_systems_wireles.Rerr.Process.{rerr_process-rt_ne}
use embedded_systems_wireles.Neighbor.{neighbor_link_break}
use embedded_systems_wireles.Neighbor.Break.{stale, with_entries, neighbor_link_break-clears}
use embedded_systems_wireles.Timeout.{rreq_blacklist_find}
use embedded_systems_wireles.Rreq.{rreq_record_find, ignored, rreq_process}
use embedded_systems_wireles.Rreq.Duplicate.{rreq_process_once}
use embedded_systems_wireles.Sane.{Sane, Owned}
use embedded_systems_wireles.Sane.Packets.{insert-Sane}
use embedded_systems_wireles.Event.{aodv_socket_read}
use embedded_systems_wireles.Event.{run_handler}
use embedded_systems_wireles.Event.Handlers.{run_handler-Healthy}
use embedded_systems_wireles.Event.Packets.{Healthy, aodv_socket_read-Healthy}

abbrev pub noon : Timeval
noon = record { sec = 43200; usec = 500 }

abbrev config : Config
config = record {
  active_route_timeout = 3000;
  ttl_start = 2;
  delete_period = 15000;
  llfeedback = false;
  unidir_hack = false;
  receive_n_hellos = 0;
  optimized_hellos = false;
  hello_jittering = true;
  expanding_ring_search = true;
  local_repair = false;
  rreq_gratuitous = false;
  ratelimit = true;
}

abbrev wlan : Dev
wlan = record { enabled = true; ifindex = 3; ipaddr = 1; netmask = 255; broadcast = 255 }

abbrev host : Host
host = record {
  seqno = 1;
  bcast_time = zero_time;
  fwd_time = zero_time;
  rreq_id = 0;
  nif = 1;
  devs = λ i. wlan;
  dev_indices = λ i. 3;
}

abbrev pub fresh : Daemon
fresh = record {
  cfg = config;
  host = host;
  wait_on_reboot = false;
  now = noon;
  draw = pos 0;
  timers = record {
    cell =
        λ t. record { used = false; timeout = zero_time; handler = Timer.wait_on_reboot_timeout };
    tq = [];
    exp = [];
  };
  table = rt_table_init;
  queue = [];
  queue_len = 0;
  seeking = [];
  rreq_records = [];
  rreq_blacklist = [];
  send_buf = empty;
  rreq_ratel = [];
  rerr_ratel = [];
  out = [];
}

-- A neighbour 7, and a route to 9 over it.
abbrev pub near : Daemon
near = rt_table_insert 7 7 1 5 3000 valid no_flags 3 fresh

abbrev pub far : Daemon
far = rt_table_insert 9 7 2 4 3000 valid no_flags 3 near

fresh-Owned : Owned fresh.table fresh.timers
unfolding elem
fresh-Owned t h e = absurd (ground arith)

pub fresh-Healthy : Healthy [] fresh
fresh-Healthy = (rt_table_init-TableOk, refl, omega arith, omega arith, tt, fresh-Owned, tt)

pub near-Sane : Sane (with_entries [] []) near
near-Sane = insert-Sane (with_entries [] []) 7 7 1 5 3000 valid no_flags 3 fresh fresh-Healthy

near-Present : Present near.table 7
unfolding has_dest rt_table_insert rt_table_init entry link seek_list_remove
near-Present = refl

pub near-Healthy : Healthy (7 ∷ []) near
unfolding rt_table_insert
near-Healthy =
    (near-Sane.0, refl, near-Sane.2, near-Sane.3, (near-Present, tt), near-Sane.5, near-Sane.6)

far-Sane : Sane (with_entries [] (7 ∷ [])) far
far-Sane = insert-Sane (with_entries [] (7 ∷ [])) 9 7 2 4 3000 valid no_flags 3 near (
  near-Sane.0,
  near-Sane.1,
  near-Sane.2,
  near-Sane.3,
  (near-Present, tt),
  near-Sane.5,
  near-Sane.6,
)

one_hop : (rt 7 far).hcnt ≡ 1
unfolding has_dest rt_table_insert rt_table_init entry link seek_list_remove
one_hop = refl

-- A request of 20 for a route to 30, which comes from 7; and the copy that 9 passes on.
abbrev request : Rreq
request = record {
  j = false;
  r = false;
  g = false;
  d = false;
  hcnt = 1;
  rreq_id = 4;
  dest_addr = 30;
  dest_seqno = 2;
  orig_addr = 20;
  orig_seqno = 6;
}

abbrev copy : Rreq
copy = record request { hcnt = 3 }

request_new : ignored request 24 7 3 near ≡ false
unfolding ignored dev_ipaddr rt_table_insert has_dest rt_table_init entry link seek_list_remove
    rreq_record_find rreq_blacklist_find
request_new = refl

aodv_socket_read-Healthy_example :
    Healthy (7 ∷ []) (aodv_socket_read (rreq request) 24 7 aodv_broadcast 5 3 near)
aodv_socket_read-Healthy_example =
    aodv_socket_read-Healthy (rreq request) 24 7 aodv_broadcast 5 3 (7 ∷ []) near near-Healthy

rreq_process_once_example :
    rreq_process copy 24 9 4 3 (rreq_process request 24 7 5 3 near)
    ≡ rreq_process request 24 7 5 3 near
rreq_process_once_example =
    rreq_process_once (with_entries [] []) request copy 24 24 7 9 5 4 3 3 near near-Sane request_new
      refl refl

neighbor_link_break-clears_example : stale 7 9 (rt 9 (neighbor_link_break 7 far)) ≡ false
neighbor_link_break-clears_example = neighbor_link_break-clears [] 7 9 far far-Sane one_hop

near_valid : is_valid (rt 7 near).state ≡ true
unfolding has_dest rt_table_insert rt_table_init entry link seek_list_remove
near_valid = refl

rt_table_invalidate_lem_example :
    let r = rt 7 near in
    let d' = rt_table_invalidate 7 near in
    let ts = d'.timers in
    (rt 7 d' ≡ record r {
      state = invalid;
      dest_seqno = seqno_incr r.dest_seqno;
      hello_cnt = 0;
      last_hello_time = zero_time;
    })
    × (rt 9 d' ≡ rt 9 near)
    × (d'.table.num_active ≡ (near.table.num_active + 2 ^ 32 - 1) % 2 ^ 32)
    × (d'.out ≡ near.out ++ route_deleted 7 r.next_hop r.hcnt ∷ [])
    × (attached (hello_timer 7) ts ≡ false)
    × (attached (ack_timer 7) ts ≡ false)
    × (elem (rt_timer 7) ts.tq ≡ true)
    × (due ts.cell (rt_timer 7) ≡ usecs near.now + end_wait r near * 1000)
    × ((ts.cell (rt_timer 7)).handler ≡ end_handler r)
rt_table_invalidate_lem_example =
    rt_table_invalidate_lem 7 9 near near-Sane.0 near_valid (λ e. omega (arith, e))

-- The deletion of an entry that is there.
run_handler-Healthy_example : Healthy [] (run_handler Timer.route_delete_timeout (rt_timer 7) near)
run_handler-Healthy_example =
    run_handler-Healthy Timer.route_delete_timeout (rt_timer 7) (7 ∷ []) near near-Healthy
      near-Present

-- The neighbour 7 becomes a node three hops away over 8.
rt_table_update-rt_example :
    let r = rt 7 (rt_table_update 7 8 3 9 3000 valid no_flags near) in
    (r.state ≡ valid)
    × (r.next_hop ≡ 8)
    × (r.hcnt ≡ 3)
    × (r.dest_seqno ≡ 9)
    × (r.flags ≡ revived_flags (rt 7 near) valid no_flags)
rt_table_update-rt_example = rt_table_update-rt [] 7 8 3 9 3000 valid no_flags near (
  near-Sane.0,
  near-Sane.1,
  near-Sane.2,
  near-Sane.3,
  (near-Present, tt),
  near-Sane.5,
  near-Sane.6,
)

-- The node 5 says that it cannot reach 7 any more, to which the route goes directly.
abbrev lost : Rerr
lost = record { n = false; dest_count = 1; udests = (7, 6) ∷ [] }

near_hop : (rt 7 near).next_hop ≡ 7
unfolding has_dest rt_table_insert rt_table_init entry link seek_list_remove
near_hop = refl

near_far : (rt 7 near).next_hop ≢ 5
near_far e = omega (arith, near_hop, e)

rerr_process-rt_ne_example : rt 7 (rerr_process lost 12 5 near) ≡ rt 7 near
rerr_process-rt_ne_example =
    rerr_process-rt_ne (with_entries [] []) lost 12 5 7 near near-Sane near_far

-- The one valid entry was counted; it is valid after the update and no longer counted.
near_count : near.table.num_active ≡ 1
unfolding has_dest rt_table_insert rt_table_init entry link seek_list_remove
near_count = refl

neighbor_moves_away : (rt_table_update 7 8 3 9 3000 valid no_flags near).table.num_active ≡ 0
unfolding rt_table_update has_dest rt_table_insert rt_table_init entry link seek_list_remove modify
    rt_table_update_timeout neighbor_link_break send_rerr all_dests rt_table_invalidate
    precursor_list_destroy
neighbor_moves_away = refl
