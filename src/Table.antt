-- ===== src/Table.antt =====
-- The routing table of src/routing/routing_table.{h,c} as a data structure: 64 buckets of entries, the
-- counters, and the precursor lists. A pointer to an entry is its destination address.
pub mod Invariant
pub mod Map
pub mod Entry
pub mod View
use embedded_systems_wireles.Base.{
  ℕ, zero, suc, ◌+◌, ◌-◌, ◌%◌, Bool, true, false, ◌&&◌, ◌||◌, Option, none, some, List, [], ◌∷◌,
  ◌==◌, if◌then◌else◌, update,
}
use embedded_systems_wireles.Time.{Timeval}

-- The bits RT_UNIDIR, RT_REPAIR, RT_INV_SEQNO, RT_INET_DEST, RT_GATEWAY.
pub record Flags : Type 0 where
  pub unidir : Bool
  pub repair : Bool
  pub inv_seqno : Bool
  pub inet_dest : Bool
  pub gateway : Bool

abbrev pub no_flags : Flags
no_flags = record {
  unidir = false;
  repair = false;
  inv_seqno = false;
  inet_dest = false;
  gateway = false;
}

pub data RtState : Type 0 where
  invalid valid : RtState

abbrev pub is_valid : RtState → Bool
is_valid valid = true
is_valid invalid = false

-- struct rt_table without its timers, which stand in the timer store under the destination.
pub record Rt : Type 0 where
  pub dest_addr : ℕ
  pub dest_seqno : ℕ
  pub ifindex : ℕ
  pub next_hop : ℕ
  pub hcnt : ℕ
  pub flags : Flags
  pub state : RtState
  pub last_hello_time : Timeval
  pub hello_cnt : ℕ
  pub hash : ℕ
  pub nprec : ℕ
  pub precursors : List ℕ

-- struct routing_table.
pub record Table : Type 0 where
  pub num_entries : ℕ
  pub num_active : ℕ
  pub tbl : ℕ → List Rt

abbrev pub rt_tablesize : ℕ
rt_tablesize = 64

-- hash & RT_TABLEMASK; the hash value is the address.
abbrev pub hashing : ℕ → ℕ
hashing addr = addr % 64

unfoldable pub rt_table_init : Table
rt_table_init = record { num_entries = 0; num_active = 0; tbl = λ i. [] }

-- The test of rt_table_insert for an entry that is there.
unfoldable pub has_dest : ℕ → List Rt → Bool
has_dest addr [] = false
has_dest addr (rt ∷ rts) = if rt.dest_addr == addr then true else has_dest addr rts

unfoldable pub find_in : ℕ → List Rt → Option Rt
find_in addr [] = none
find_in addr (rt ∷ rts) =
    if (rt.hash == addr) && (rt.dest_addr == addr) then some rt else find_in addr rts

unfoldable pub rt_table_find : ℕ → Table → Option Rt
unfolding find_in
rt_table_find addr t = if t.num_entries == 0 then none else find_in addr (t.tbl (hashing addr))

-- A write through a pointer to an entry.
unfoldable pub modify_in : ℕ → (Rt → Rt) → List Rt → List Rt
modify_in addr f [] = []
modify_in addr f (rt ∷ rts) =
    let rest = modify_in addr f rts in if rt.dest_addr == addr then f rt ∷ rts else rt ∷ rest

unfoldable pub modify : ℕ → (Rt → Rt) → Table → Table
unfolding modify_in
modify addr f t = record t {
  tbl = update t.tbl (hashing addr) (modify_in addr f (t.tbl (hashing addr)));
}

-- list_add at the head of the bucket, with the counter.
unfoldable pub link : Rt → Table → Table
link rt t = record t {
  num_entries = t.num_entries + 1;
  tbl = update t.tbl (hashing rt.dest_addr) (rt ∷ t.tbl (hashing rt.dest_addr));
}

unfoldable pub remove_in : ℕ → List Rt → List Rt
remove_in addr [] = []
remove_in addr (rt ∷ rts) =
    let rest = remove_in addr rts in if rt.dest_addr == addr then rts else rt ∷ rest

-- list_detach of an entry of the table, with the counter.
unfoldable pub unlink : ℕ → Table → Table
unfolding remove_in
unlink addr t = record t {
  num_entries = t.num_entries - 1;
  tbl = update t.tbl (hashing addr) (remove_in addr (t.tbl (hashing addr)));
}

-- The fields of an entry behind a pointer. A pointer that is not into the table reads as an entry of
-- zeros.
abbrev pub blank : ℕ → Rt
blank addr = record {
  dest_addr = addr;
  dest_seqno = 0;
  ifindex = 0;
  next_hop = 0;
  hcnt = 0;
  flags = no_flags;
  state = invalid;
  last_hello_time = record { sec = 0; usec = 0 };
  hello_cnt = 0;
  hash = addr;
  nprec = 0;
  precursors = [];
}

abbrev pub or_blank : ℕ → Option Rt → Rt
or_blank addr none = blank addr
or_blank addr (some rt) = rt

unfoldable pub entry : ℕ → Table → Rt
unfolding find_in
entry addr t = or_blank addr (find_in addr (t.tbl (hashing addr)))

-- The destinations in the order of the loop over all buckets: `from` the slot, `n` slots to go.
unfoldable pub dests : List Rt → List ℕ → List ℕ
dests [] more = more
dests (rt ∷ rts) more = rt.dest_addr ∷ dests rts more

unfoldable pub dests_from : ℕ → ℕ → Table → List ℕ
unfolding dests
dests_from zero from t = []
dests_from (suc n) from t = dests (t.tbl from) (dests_from n (from + 1) t)

unfoldable pub all_dests : Table → List ℕ
unfolding dests_from
all_dests t = dests_from rt_tablesize 0 t

unfoldable pub has_precursor : ℕ → List ℕ → Bool
has_precursor addr [] = false
has_precursor addr (p ∷ ps) = if p == addr then true else has_precursor addr ps

unfoldable pub precursor_add : ℕ → Rt → Rt
unfolding has_precursor
precursor_add addr rt =
    if has_precursor addr rt.precursors
    then rt
    else record rt { precursors = addr ∷ rt.precursors; nprec = rt.nprec + 1 }

unfoldable pub drop_precursor : ℕ → List ℕ → List ℕ
drop_precursor addr [] = []
drop_precursor addr (p ∷ ps) =
    let rest = drop_precursor addr ps in if p == addr then ps else p ∷ rest

unfoldable pub precursor_remove : ℕ → Rt → Rt
unfolding has_precursor drop_precursor
precursor_remove addr rt =
    if has_precursor addr rt.precursors
    then record rt { precursors = drop_precursor addr rt.precursors; nprec = rt.nprec - 1 }
    else rt

-- The loop takes every node off and counts nprec down.
unfoldable pub destroy_nodes : List ℕ → Rt → Rt
destroy_nodes [] rt = rt
destroy_nodes (p ∷ ps) rt = destroy_nodes ps (record rt { precursors = ps; nprec = rt.nprec - 1 })

unfoldable pub precursor_list_destroy : Rt → Rt
unfolding destroy_nodes
precursor_list_destroy rt = destroy_nodes rt.precursors rt
