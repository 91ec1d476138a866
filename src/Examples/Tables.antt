-- ===== src/Examples/Tables.antt =====
-- The theorems about the data structures and the arithmetic, at concrete tables, queues and numbers.
use embedded_systems_wireles.Base.{
  ℕ, ℤ, pos, leb, zero, suc, List, ◌-◌, ◌^◌, ◌≤◌, ◌≡◌, refl, true, false, not, ◌||◌, ◌++◌, [], ◌∷◌,
  length, arith, ◌==◌, if◌then◌else◌,
}
use embedded_systems_wireles.Seqno.{seqno_incr, seqno_gt}
use embedded_systems_wireles.Seqno.Order.{
  rfc_newer, straddles, seqno_incr_newer, seqno_gt-rfc_newer,
}
use embedded_systems_wireles.Message.{net_diameter}
use embedded_systems_wireles.Seek.{seek_list_remove}
use embedded_systems_wireles.Table.{
  Table, valid, invalid, no_flags, entry, blank, rt_table_init, has_dest, link, precursor_add,
  has_precursor,
}
use embedded_systems_wireles.Table.Invariant.{TableOk, Present, rt_table_init-TableOk, link-TableOk}
use embedded_systems_wireles.Table.Map.{DistinctPrecs, precursor_add_lem}
use embedded_systems_wireles.Daemon.{Daemon, Seek, Packet, verdict}
use embedded_systems_wireles.PacketQueue.{packet_queue_add, settle}
use embedded_systems_wireles.PacketQueue.Bound.{
  QueueOk, kept, pushed_out, hits, misses, verdicts, packet_queue_add_lem, settle_lem,
}
use embedded_systems_wireles.Timeout.{next_try, wait_time}
use embedded_systems_wireles.Timeout.Search.{next_try_bounds}
use embedded_systems_wireles.Timeout.Discovery.{repeats}
use embedded_systems_wireles.Time.{Timeval}
use embedded_systems_wireles.Route.{rt_table_insert, rt_table_delete}
use embedded_systems_wireles.Route.View.{
  Insertion, view, run_insert, run_insert-TableOk, run_insert-Present, delete-TableOk,
  inserts_commute, delete_inserted,
}
use embedded_systems_wireles.Examples.Daemons.{fresh, noon, near, near-Sane}

-- Destinations 7 and 71 share a bucket.
abbrev one_entry : Table
one_entry = link (blank 7) rt_table_init

init_free : has_dest 7 (rt_table_init.tbl 7) ≡ false
unfolding has_dest rt_table_init
init_free = refl

one_entry-TableOk : TableOk one_entry
one_entry-TableOk = link-TableOk (blank 7) rt_table_init rt_table_init-TableOk init_free refl refl

one_entry_free : has_dest 71 (one_entry.tbl 7) ≡ false
unfolding has_dest rt_table_init link
one_entry_free = refl

one_entry-Present : Present one_entry 7
unfolding has_dest rt_table_init link
one_entry-Present = refl

precursor_add_lem_example :
    let r = precursor_add 4 (blank 7) in
    (has_precursor 4 r.precursors ≡ ((4 == 4) || has_precursor 4 (blank 7).precursors))
    × DistinctPrecs r.precursors
    × (r.nprec ≡ length r.precursors)
precursor_add_lem_example = precursor_add_lem 4 4 (blank 7) tt refl

fresh-QueueOk : QueueOk fresh
fresh-QueueOk = record { counts = refl; bounded = omega arith }

-- A full queue, of one packet 512 times.
abbrev copies : ℕ → List Packet
copies zero = []
copies (suc n) = record { packet_id = n; dest_addr = 30; q_time = noon } ∷ copies n

abbrev full : Daemon
full = record fresh { queue = copies 512; queue_len = 512 }

full-QueueOk : QueueOk full
full-QueueOk = record { counts = refl; bounded = omega arith }

packet_queue_add_lem_example :
    let d' = packet_queue_add 600 31 full in
    QueueOk d'
    × (d'.queue ≡ kept full ++ record { packet_id = 600; dest_addr = 31; q_time = noon } ∷ [])
    × (d'.out ≡ full.out ++ verdicts false (pushed_out full))
packet_queue_add_lem_example = packet_queue_add_lem 600 31 full full-QueueOk

-- The packet that goes.
oldest_goes : verdicts false (pushed_out full) ≡ verdict 511 false ∷ []
oldest_goes = refl

abbrev waiting : Daemon
waiting = packet_queue_add 1 30 fresh

waiting-QueueOk : QueueOk waiting
waiting-QueueOk = (packet_queue_add_lem 1 30 fresh fresh-QueueOk).0

settle_lem_example :
    let d' = settle (λ p. p.dest_addr == 30) true waiting.queue waiting in
    (d'.queue ≡ misses (λ p. p.dest_addr == 30) waiting.queue)
    × (d'.out ≡ waiting.out ++ verdicts true (hits (λ p. p.dest_addr == 30) waiting.queue))
    × QueueOk d'
settle_lem_example = settle_lem (λ p. p.dest_addr == 30) true waiting waiting-QueueOk

abbrev sought : Seek
sought = record { dest_addr = 30; dest_seqno = 0; flags = 0; reqs = 0; ttl = 2 }

-- A search for 30 with its packet, which is the second of the queue; five timeouts repeat the request.
abbrev searching : Daemon
searching = record waiting {
  seeking = sought ∷ [];
  queue = record { packet_id = 2; dest_addr = 31; q_time = noon } ∷ waiting.queue;
}

abbrev clocks : List (Timeval × ℤ)
clocks =
    (noon, pos 0)
    ∷ (noon, pos 1)
    ∷ (noon, pos 2)
    ∷ (noon, pos 3)
    ∷ (noon, pos 4)
    ∷ (noon, pos 5)
    ∷ []

-- The search is over then.
clocks_over : leb (length clocks) (repeats searching.cfg.expanding_ring_search sought) ≡ false
unfolding packet_queue_add
clocks_over = refl

next_try_bounds_example :
    ((next_try true sought).ttl ≤ net_diameter) × (wait_time true (next_try true sought) ≤ 2960)
next_try_bounds_example = next_try_bounds true sought (omega arith)

seqno_incr_newer_example : (seqno_gt (seqno_incr 5) 5 ≡ true) × (rfc_newer (seqno_incr 5) 5 ≡ true)
seqno_incr_newer_example = seqno_incr_newer 5 (omega arith) (omega arith) (omega arith)

-- Across the sign boundary the program says that the next number is not newer.
seqno_gt-rfc_newer_example : seqno_gt (2 ^ 31) (2 ^ 31 - 1) ≡ (
    if straddles (2 ^ 31) (2 ^ 31 - 1)
    then not (rfc_newer (2 ^ 31) (2 ^ 31 - 1))
    else rfc_newer (2 ^ 31) (2 ^ 31 - 1))
seqno_gt-rfc_newer_example = seqno_gt-rfc_newer (2 ^ 31) (2 ^ 31 - 1) (omega arith) (omega arith)

-- Routes to 9 and to 73, which share a bucket, over the neighbour 7.
abbrev to_9 : Insertion
to_9 = record {
  dest = 9;
  next = 7;
  hops = 2;
  seqno = 4;
  life = 3000;
  state = valid;
  flags = no_flags;
  ifindex = 3;
}

abbrev to_73 : Insertion
to_73 = record to_9 { dest = 73; state = invalid }

to_9_free : has_dest to_9.dest (near.table.tbl 9) ≡ false
unfolding has_dest rt_table_insert rt_table_init link seek_list_remove entry
to_9_free = refl

inserts_commute_example :
    view
      (run_insert to_9 (run_insert to_73 near))
      (run_insert-TableOk to_9 (run_insert to_73 near) (run_insert-TableOk to_73 near near-Sane.0))
    ≡ view
        (run_insert to_73 (run_insert to_9 near))
        (run_insert-TableOk to_73 (run_insert to_9 near) (run_insert-TableOk to_9 near near-Sane.0))
inserts_commute_example = inserts_commute to_9 to_73 near near-Sane.0 (λ e. omega (arith, e))

delete_inserted_example :
    view (rt_table_delete 9 (run_insert to_9 near)) (
      delete-TableOk 9
        (run_insert to_9 near)
        (run_insert-Present to_9 near)
        (run_insert-TableOk to_9 near near-Sane.0))
    ≡ view near near-Sane.0
delete_inserted_example = delete_inserted to_9 near near-Sane.0 to_9_free
