-- ===== src/Message.antt =====
-- The control messages of src/protocol/aodv_{rreq,rrep,rerr}.h and the parameters of
-- src/core/params.h. Fields in network byte order hold the value after ntohl; addresses are the
-- 32-bit s_addr as it stands.
use embedded_systems_wireles.Base.{ℕ, ◌+◌, ◌-◌, ◌*◌, ◌/◌, Bool, List}

abbrev pub aodv_broadcast : ℕ
aodv_broadcast = 0xffffffff

abbrev pub allowed_hello_loss : ℕ
allowed_hello_loss = 2

abbrev pub hello_interval : ℕ
hello_interval = 1000

abbrev pub local_add_ttl : ℕ
local_add_ttl = 2

abbrev pub net_diameter : ℕ
net_diameter = 35

abbrev pub max_repair_ttl : ℕ
max_repair_ttl = 3 * net_diameter / 10

abbrev pub node_traversal_time : ℕ
node_traversal_time = 40

abbrev pub net_traversal_time : ℕ
net_traversal_time = 2 * node_traversal_time * net_diameter

abbrev pub next_hop_wait : ℕ
next_hop_wait = node_traversal_time + 10

abbrev pub path_discovery_time : ℕ
path_discovery_time = 2 * net_traversal_time

abbrev pub rreq_retries : ℕ
rreq_retries = 2

-- RREQ_RATELIMIT and RERR_RATELIMIT.
abbrev pub rate_limit : ℕ
rate_limit = 10

abbrev pub ttl_increment : ℕ
ttl_increment = 2

abbrev pub ttl_threshold : ℕ
ttl_threshold = 7

-- TTL_VALUE is the argument.
abbrev pub ring_traversal_time : ℕ → ℕ
ring_traversal_time ttl = 2 * node_traversal_time * (ttl + 2)

-- For a TTL_START of at most TTL_THRESHOLD.
abbrev pub blacklist_timeout : ℕ → ℕ
blacklist_timeout ttl_start =
    rreq_retries * net_traversal_time
    + (ttl_threshold - ttl_start) / ttl_increment
    + 1
    + rreq_retries

-- MAXTTL of the system's headers.
abbrev pub max_ttl : ℕ
max_ttl = 255

abbrev pub rreq_size : ℕ
rreq_size = 24

abbrev pub rrep_size : ℕ
rrep_size = 20

-- RERR_CALC_SIZE: a header of 4 bytes and 8 bytes for each destination.
abbrev pub rerr_calc_size : ℕ → ℕ
rerr_calc_size dest_count = 4 + 8 * dest_count

pub record Rreq : Type 0 where
  pub j : Bool
  pub r : Bool
  pub g : Bool
  pub d : Bool
  pub hcnt : ℕ
  pub rreq_id : ℕ
  pub dest_addr : ℕ
  pub dest_seqno : ℕ
  pub orig_addr : ℕ
  pub orig_seqno : ℕ

-- An extension behind a RREP: its type, its length field and the addresses or the number in it.
pub record Ext : Type 0 where
  pub type : ℕ
  pub length : ℕ
  pub words : List ℕ

pub record Rrep : Type 0 where
  pub r : Bool
  pub a : Bool
  pub prefix : ℕ
  pub hcnt : ℕ
  pub dest_addr : ℕ
  pub dest_seqno : ℕ
  pub orig_addr : ℕ
  pub lifetime : ℕ
  pub exts : List Ext

-- The pairs of address and sequence number from dest_addr on, and the counter of 8 bits.
pub record Rerr : Type 0 where
  pub n : Bool
  pub dest_count : ℕ
  pub udests : List (ℕ × ℕ)

pub data Msg : Type 0 where
  rreq : Rreq → Msg
  rrep : Rrep → Msg
  rerr : Rerr → Msg
  rrep_ack : Msg
  empty : Msg
