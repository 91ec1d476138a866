-- ===== src/Lib.antt =====
-- AODV-UU, the routing daemon aodvd of this repository: Ad hoc On-demand Distance Vector routing
-- (RFC 3561, extra/rfc3561.txt) in C, under src/.
--
-- The program. The daemon runs a select loop: a packet on the AODV port or the first timer of a queue
-- wakes it. A packet goes through aodv_socket_read to the handler of its kind (HELLO, RREQ, RREP, RERR,
-- RREP-ACK); a timer runs the function that was installed in it. Both change the routing table, its
-- timers, the list of destinations that are sought and the queue of packets that wait for a route, and
-- send messages to neighbours and to the kernel.
--
-- The parts and their files.
--   Base (with Base/Tests, Lists and Int): Boolean tests, lists and integers that all files share.
--   Bytes: reading memory byte by byte.
--   Time, Timer: src/utils/timer_queue.{h,c}. A struct timer is embedded in what it serves; here the
--     timers stand in a store under ids (TimerId) that name the owner and the field. Timer/Order has
--     the order of the queue, Timer/Invariant what the operations keep, Timer/Expiry what expires and
--     what a timeout sets.
--   Seqno: the macro seqno_incr of src/routing/routing_table.h and the comparisons of sequence numbers
--     as the handlers write them out; Seqno/Order compares them with the RFC's.
--   Message: src/core/params.h and the message headers of src/protocol/aodv_{rreq,rrep,rerr}.h.
--   Wire: the same messages byte by byte, as the structs of those headers and of src/core/defs.h lie in
--     memory, and the switch of aodv_socket_process_packet; Wire/Roundtrip reads what was written.
--   Table: the hash table and the precursor lists of src/routing/routing_table.{h,c}. Table/Invariant
--     has what is well-formed, Table/Map the table as a finite map, Table/Entry reading and writing
--     through pointers, Table/View the quotient of the tables by what they answer.
--   Daemon: the state, the globals of src/core/main.c and of the modules together.
--   Socket: aodv_socket_send and the loops over devices of src/network/aodv_socket.c; Socket/RateLimit
--     has the rate limit over a history, Socket/Frame what sending leaves alone.
--   Lifetime, Route, Update: the operations of src/routing/routing_table.c that use timers, the kernel
--     and the queue (rt_table_update_timeout and rt_table_update_route_timeouts; rt_table_insert,
--     rt_table_invalidate, rt_table_delete and rt_table_destroy; rt_table_update). Route/Invalidate
--     has the entries after rt_table_invalidate, Route/Lapse all that it does to a valid one,
--     Route/View what rt_table_insert and rt_table_delete do to the table as what it answers,
--     Update/Entry the entry after rt_table_update.
--   Seek: src/routing/seek_list.c. PacketQueue: src/network/packet_queue.c, with PacketQueue/Bound.
--   Rerr: src/protocol/aodv_rerr.c, with Rerr/Frame and Rerr/Process. Neighbor: neighbor_link_break
--     of src/protocol/aodv_neighbor.c, with Neighbor/Break. Timeout: src/protocol/aodv_timeout.c and
--     the functions of src/protocol/aodv_rreq.c that it calls, with Timeout/Search and
--     Timeout/Discovery, which follows a search to its end, with Timeout/Frame. Hello:
--     src/protocol/aodv_hello.c, rrep_create and neighbor_add. Rrep: src/protocol/aodv_rrep.c. Rreq:
--     src/protocol/aodv_rreq.c, with Rreq/Duplicate.
--   Event: aodv_socket_process_packet and aodv_socket_read, timer_timeout and timer_age_queue, which
--     call all of the above; Event/Packets has the invariant over packets, Event/Handlers
--     over expired timers, Event/Loop the loop over them, Event/Alive and Event/Rounds the select loop
--     of main in src/core/main.c, Event/Sound what its rounds keep.
--   PacketInput: src/network/packet_input.c and nfqueue_packet_cb of src/network/nfqueue.c. Llf:
--     llf_print_event of src/network/llf.c. Netlink: the messages about routes of src/network/nl.c,
--     with the kernel's headers as a parameter; Netlink/Attributes reads them, Netlink/Prefix is
--     about the loop of prefix_length.
--   Sane (with Owners, Sends, Queue, Packets, Routes, Errors, Hellos, Replies, Requests, Timeouts,
--     Searches and Inputs): the invariant of the handlers, operation by operation.
--   Tame (with Sends, Packets, Routes, Errors, Hellos, Replies, Requests, Timeouts and Inputs): what
--     the handlers do to timers, for every property that the operations on timers keep.
--   Kernel: the legacy kernel module in kernel/, a program of its own that the daemon can do without.
--     Kernel/Expl is kernel/kaodv-expl.c, Kernel/Queue kernel/kaodv-queue.c, Kernel/Ipenc
--     kernel/kaodv-ipenc.c, Kernel/Netlink kernel/kaodv-netlink.c and Kernel/Hook kernel/kaodv-mod.c.
--     Kernel/Expl/Routes and Invariant have the list as a map and what it keeps, Kernel/Queue/Loops
--     the loops against one pass over the queue, Kernel/Queue/Verdict its bound and the verdicts,
--     Kernel/Ipenc/Roundtrip the encapsulation, Kernel/Netlink/Errors what is refused. Kernel/Events
--     puts packets, messages and ticks together; its children Bounds, Messages, Hooks and Runs have
--     what they all keep.
--   LinkedList: the circular lists of src/utils/list.{h,c} with their pointers. LinkedList/Links has
--     chains of pointers, LinkedList/Rings the operations on a list, LinkedList/Foreach its loop.
--   Examples (with Timers, Daemons, Tables, Inputs, Kernel, Messages and Pointers): the theorems at
--     concrete states.
--
-- How the model stands to the code.
--   A function of the C program that changes globals is a function from Daemon to Daemon of the same
--   name. A pointer to an entry of the table is the destination address of the entry, so that an
--   entry that is freed and made again under the same address is the same; a read through a pointer
--   to no entry gives an entry of zeros. Lists of structs (list.h) are lists,
--   whose pointers LinkedList alone has, where a write through NULL gives none. The clock is read once
--   for an event (`now`), as is the random jitter (`draw`). Fields of messages are in host order.
--   Flags of an entry are a record of Booleans. Sequence numbers, hop counts, TTLs, num_active and the
--   counters of messages wrap where the C types do. What leaves the daemon is a list of outputs.
--   Memory allocation and system calls succeed.
--   A function of the kernel module is a function from Module to Module in the same way, with its
--   return value next to it where it has one. What the module calls of Linux (HZ, the checksum of an IP
--   header, ip_select_ident, ip_route_me_harder) is a parameter, the record Platform. Locks are left
--   out: each event runs to its end. A packet is its header, as a record, and the bytes after it; in
--   PacketInput it is all bytes.
--
-- Bounds. timer_timeout runs as many rounds as timers expired: each takes the first one off the list
-- of expired timers. The loops of kaodv_queue_set_verdict have a round more than the queue has packets,
-- and each takes one out. list_foreach has rounds as given. The loops over devices take
-- MAX_NR_INTERFACES rounds, those over the table RT_TABLESIZE, as in the code. The loop of prefix_length
-- has 32 rounds: each shifts a word by a bit, until it is 0.
--
-- Not modelled: what is compiled for gateways (CONFIG_GATEWAY) or for the ns-2 simulator (NS_PORT),
-- with timers of the kernel's route list (EXPL_TIMER) or a threshold of signal quality
-- (CONFIG_QUAL_THRESHOLD); the loops over the extensions of RREQs and RREPs, which only log; start-up,
-- options and signals in src/core/main.c; the sockets of netlink, NFQUEUE and link-layer feedback
-- (src/network/{nl,nfqueue,llf}.c), whose calls are outputs, what nl.c logs of the messages that it
-- receives, and how llf.c takes events out of messages; src/routing/locality.c, which the handlers here
-- do not use; logging and /proc; sim/, patches/, gui/,
-- docker/ and scripts/.
pub mod Base
pub mod Bytes
pub mod Daemon
pub mod Event
pub mod Examples
pub mod Hello
pub mod Kernel
pub mod Lifetime
pub mod LinkedList
pub mod Llf
pub mod Message
pub mod Neighbor
pub mod Netlink
pub mod PacketInput
pub mod PacketQueue
pub mod Rerr
pub mod Route
pub mod Rrep
pub mod Rreq
pub mod Sane
pub mod Seek
pub mod Seqno
pub mod Socket
pub mod Table
pub mod Tame
pub mod Time
pub mod Timeout
pub mod Timer
pub mod Update
pub mod Wire
