-- ===== src/Hello.antt =====
-- src/protocol/aodv_hello.c, with rrep_create of src/protocol/aodv_rrep.c (a HELLO is a RREP) and
-- neighbor_add of src/protocol/aodv_neighbor.c.
use embedded_systems_wireles.Base.{
  ℕ, zero, suc, ◌+◌, ◌-◌, ◌*◌, ◌/◌, ◌%◌, ◌^◌, Bool, true, false, not, ◌&&◌, ◌||◌, Option, none,
  some, List, [], ◌∷◌, ◌++◌, length, ltb, leb_ℤ, ltb_ℤ, ℤ, pos, pos_part, ◌+ℤ◌, ◌-ℤ◌, ◌==◌,
  if◌then◌else◌,
}
use embedded_systems_wireles.Time.{timeval_diff}
use embedded_systems_wireles.Timer.{hello_timer, hello_beacon, hello_send as hello_handler}
use embedded_systems_wireles.Message.{
  Rrep, rrep, Ext, rrep_size, aodv_broadcast, allowed_hello_loss, hello_interval,
}
use embedded_systems_wireles.Table.{
  Flags, no_flags, Rt, is_valid, valid, invalid, rt_table_find, all_dests,
}
use embedded_systems_wireles.Daemon.{
  Daemon, modify_rt, init_timer, set_timeout, remove_timer, dev_ipaddr, max_nr_interfaces,
}
use embedded_systems_wireles.Socket.{aodv_socket_new_msg, aodv_socket_send}
use embedded_systems_wireles.Route.{rt_table_insert}
use embedded_systems_wireles.Update.{rt_table_update}
use embedded_systems_wireles.Timeout.{flag_set}

unfoldable pub rrep_create : ℕ → ℕ → ℕ → ℕ → ℕ → ℕ → ℕ → List Ext → Daemon → Daemon
rrep_create flags prefix hcnt dest_addr dest_seqno orig_addr life exts d =
    aodv_socket_new_msg
      (rrep (record {
        r = flag_set flags 2;
        a = flag_set flags 1;
        prefix = prefix;
        hcnt = hcnt;
        dest_addr = dest_addr;
        dest_seqno = dest_seqno;
        orig_addr = orig_addr;
        lifetime = life;
        exts = exts;
      }))
      d

unfoldable pub hello_jitter : Daemon → ℤ
hello_jitter d = if d.cfg.hello_jittering then d.draw else pos 0

-- The entries with a running hello timer.
unfoldable pub heard : List ℕ → Daemon → List ℕ
heard [] d = []
heard (a ∷ rest) d =
    let more = heard rest d in if (d.timers.cell (hello_timer a)).used then a ∷ more else more

unfoldable pub zeros : ℕ → List ℕ
zeros zero = []
zeros (suc n) = 0 ∷ zeros n

unfoldable pub empty_exts : ℕ → List Ext
empty_exts zero = []
empty_exts (suc n) = record { type = 0; length = 0; words = [] } ∷ empty_exts n

unfoldable pub last_of : ℕ → List ℕ → ℕ
last_of a [] = a
last_of a (b ∷ bs) = last_of b bs

-- The field `length` of the neighbour set, of 8 bits.
unfoldable pub set_length : List ℕ → ℕ
set_length neighbors = (4 * length neighbors) % 256

-- What the source writes behind the fixed part of the message on the device that is enabled after `place`
-- others: every address is copied to the place of the first one, and only the length grows. On each
-- further device AODV_EXT_NEXT moves the pointer by the two bytes of an extension whose length is cleared, so
-- that two zero bytes more come before it. The message is cut off behind hello_size bytes.
unfoldable pub neighbor_set : ℕ → List ℕ → List Ext
unfolding zeros empty_exts last_of set_length
neighbor_set place neighbors =
    let n = set_length neighbors in
    if n == 0
    then []
    else empty_exts place
      ++ (record { type = 3; length = n; words = last_of 0 neighbors ∷ zeros (n / 4 - 1) } ∷ [])

unfoldable pub hello_size : Bool → List ℕ → ℕ
unfolding set_length
hello_size unidir_hack neighbors =
    if unidir_hack
    then (if set_length neighbors == 0 then rrep_size else rrep_size + 2 + set_length neighbors)
    else rrep_size

unfoldable pub hello_on : ℕ → ℕ → List ℕ → Daemon → Daemon
unfolding rrep_create neighbor_set hello_size
hello_on i place neighbors d =
    aodv_socket_send aodv_broadcast (hello_size d.cfg.unidir_hack neighbors) 1 i (
      rrep_create 0 0 0 (d.host.devs i).ipaddr d.host.seqno (d.host.devs i).ipaddr
        (allowed_hello_loss * hello_interval)
        (if d.cfg.unidir_hack then neighbor_set place neighbors else []) d)

-- The devices from `i` on, `n` of them, after `place` enabled ones.
unfoldable pub hello_devs : ℕ → ℕ → ℕ → List ℕ → Daemon → Daemon
unfolding hello_on
hello_devs zero i place neighbors d = d
hello_devs (suc n) i place neighbors d =
    let on = (d.host.devs i).enabled in
    hello_devs n (i + 1) (if on then place + 1 else place) neighbors
      (if on then hello_on i place neighbors d else d)

unfoldable pub hello_stop : Daemon → Daemon
hello_stop d = remove_timer hello_beacon d

-- The wait until the next HELLO, if another broadcast went less than an interval ago. Each of the
-- two sums is non-negative for a jitter within 50 ms.
unfoldable pub next_hello : ℤ → ℤ → ℕ
next_hello time_diff jitter =
    let left = pos hello_interval -ℤ time_diff in
    if ltb_ℤ (left +ℤ jitter) (pos 0) then pos_part (left -ℤ jitter) else pos_part (left +ℤ jitter)

unfoldable pub hello_send : Daemon → Daemon
unfolding heard hello_devs hello_jitter next_hello
hello_send d =
    let time_diff = timeval_diff d.now d.host.bcast_time in
    let jitter = hello_jitter d in
    if d.cfg.optimized_hellos
      && ltb_ℤ (pos d.cfg.active_route_timeout) (timeval_diff d.now d.host.fwd_time)
    then hello_stop d
    else if leb_ℤ (pos hello_interval) time_diff
    then set_timeout hello_beacon (pos_part (pos hello_interval +ℤ jitter))
        (hello_devs max_nr_interfaces 0 0 (heard (all_dests d.table) d) d)
    else set_timeout hello_beacon (next_hello time_diff jitter) d

unfoldable pub hello_start : Daemon → Daemon
hello_start d =
    if (d.timers.cell hello_beacon).used
    then d
    else hello_send (
        init_timer hello_beacon hello_handler
          (record d { host = record (d.host) { fwd_time = d.now } }))

unfoldable pub hello_update_timeout : ℕ → ℕ → Daemon → Daemon
hello_update_timeout addr time d =
    modify_rt addr (λ r. record r { last_hello_time = d.now })
      (set_timeout (hello_timer addr) (time + 50) d)

-- What the loop over the extensions changes.
pub record Scan : Type 0 where
  pub interval : ℕ
  pub flags : Flags

unfoldable pub hears_me : ℕ → List ℕ → Bool
hears_me me [] = false
hears_me me (w ∷ ws) = if w == me then true else hears_me me ws

unfoldable pub first_word : List ℕ → ℕ
first_word [] = 0
first_word (w ∷ ws) = w

unfoldable pub scan_ext : ℕ → Ext → Scan → Scan
unfolding hears_me first_word
scan_ext me x s =
    if x.type == 2
    then (if x.length == 4 then record s { interval = first_word x.words } else s)
    else if hears_me me x.words
    then record s { flags = record (s.flags) { unidir = false } }
    else s

-- An unknown extension ends the loop; so does the end of the message.
unfoldable pub scan_exts : ℕ → ℕ → List Ext → Scan → Scan
unfolding scan_ext
scan_exts me rreplen [] s = s
scan_exts me rreplen (x ∷ xs) s =
    let rest = scan_exts me (rreplen - (2 + x.length)) xs (scan_ext me x s) in
    if ltb rrep_size rreplen && ((x.type == 2) || (x.type == 3)) then rest else s

unfoldable pub start_flags : Option Rt → Daemon → Flags
start_flags none d = if d.cfg.unidir_hack then record no_flags { unidir = true } else no_flags
start_flags (some r) d = if d.cfg.unidir_hack then record (r.flags) { unidir = true } else r.flags

-- A HELLO from a neighbour with no entry.
unfoldable pub hello_new : ℕ → ℕ → ℕ → ℕ → Flags → ℕ → Daemon → Daemon
unfolding hello_update_timeout
hello_new addr seqno interval timeout flags ifindex d =
    hello_update_timeout addr ((allowed_hello_loss * interval) % 2 ^ 32) (
      modify_rt addr (λ r. record r { hello_cnt = 1 })
        (rt_table_insert addr addr 1 seqno timeout
          (if d.cfg.receive_n_hellos == 0 then valid else invalid) flags ifindex d))

-- One of the HELLOs that have to come before the neighbour counts as valid.
unfoldable pub count_hello : ℕ → ℕ → Daemon → Daemon
count_hello addr interval d =
    modify_rt addr
      (λ r. record r {
        hello_cnt =
            if ltb_ℤ (timeval_diff d.now r.last_hello_time)
              (pos ((interval + interval / 2) % 2 ^ 32))
            then (r.hello_cnt + 1) % 256
            else 1;
        last_hello_time = d.now;
      })
      d

unfoldable pub hello_known : Rt → ℕ → ℕ → ℕ → Flags → Daemon → Daemon
unfolding count_hello hello_update_timeout
hello_known r seqno interval timeout flags d =
    let loss = (allowed_hello_loss * interval) % 2 ^ 32 in
    if flags.unidir && is_valid r.state && ltb 1 r.hcnt
    then hello_update_timeout r.dest_addr loss d
    else if not (d.cfg.receive_n_hellos == 0) && ltb r.hello_cnt (d.cfg.receive_n_hellos - 1)
    then count_hello r.dest_addr interval d
    else hello_update_timeout r.dest_addr loss
        (rt_table_update r.dest_addr r.dest_addr 1 seqno timeout valid flags d)

unfoldable pub hello_process : Rrep → ℕ → ℕ → Daemon → Daemon
unfolding scan_exts start_flags hello_new hello_known
hello_process m rreplen ifindex d =
    let found = rt_table_find m.dest_addr d.table in
    let s =
      scan_exts (dev_ipaddr ifindex d) rreplen m.exts
        (record { interval = hello_interval; flags = start_flags found d }) in
    let timeout = (allowed_hello_loss * s.interval + 100) % 2 ^ 32 in
    elim found [
      | none ↦ hello_new m.dest_addr m.dest_seqno s.interval timeout s.flags ifindex d
      | some r ↦ hello_known r m.dest_seqno s.interval timeout s.flags d
    ]

unfoldable pub touch_hello : ℕ → Daemon → Daemon
touch_hello source d =
    if not d.cfg.llfeedback && (d.timers.cell (hello_timer source)).used
    then hello_update_timeout source (allowed_hello_loss * hello_interval) d
    else d

-- Every message but a HELLO shows that its sender is a neighbour.
unfoldable pub neighbor_add : ℕ → ℕ → Daemon → Daemon
unfolding touch_hello
neighbor_add source ifindex d = elim (rt_table_find source d.table) [
  | none ↦
      touch_hello source
        (rt_table_insert source source 1 0 d.cfg.active_route_timeout valid no_flags ifindex d)
  | some r ↦
      if r.flags.unidir
      then d
      else touch_hello source
          (rt_table_update source source 1 r.dest_seqno d.cfg.active_route_timeout valid r.flags d)
]
