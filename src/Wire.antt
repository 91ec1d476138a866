-- ===== src/Wire.antt =====
-- The control messages as they are sent and received: the structs of src/protocol/aodv_{rreq,rrep,rerr}.h
-- and AODV_ext of src/core/defs.h in memory, with __LITTLE_ENDIAN defined, byte by byte. An address is
-- the machine's word; other words are in network byte order.
pub mod Roundtrip
use embedded_systems_wireles.Base.{
  ℕ, zero, suc, ◌+◌, ◌-◌, ◌*◌, ◌/◌, ◌%◌, ◌^◌, Bool, true, false, List, [], ◌∷◌, ◌++◌, length, ◌==◌,
  if◌then◌else◌,
}
use embedded_systems_wireles.Bytes.{byte, word32, ntohl32, skip}
use embedded_systems_wireles.Message.{Msg, Rreq, Rrep, Rerr, Ext, rreq, rrep, rerr, rrep_ack, empty}

abbrev pub address : ℕ → List ℕ
address a = a % 256 ∷ a / 256 % 256 ∷ a / 65536 % 256 ∷ a / 16777216 % 256 ∷ []

-- htonl.
abbrev pub number : ℕ → List ℕ
number n = n / 16777216 % 256 ∷ n / 65536 % 256 ∷ n / 256 % 256 ∷ n % 256 ∷ []

-- A bit field of one bit, and its value in a byte.
abbrev pub bit : ℕ → Bool → ℕ
bit place b = if b then 2 ^ place else 0

abbrev pub has_bit : ℕ → ℕ → Bool
has_bit place b = b / 2 ^ place % 2 == 1

unfoldable pub rreq_bytes : Rreq → List ℕ
rreq_bytes m =
    1
    ∷ (bit 7 m.j + bit 6 m.r + bit 5 m.g + bit 4 m.d)
    ∷ 0
    ∷ m.hcnt
    ∷ (number m.rreq_id
        ++ address m.dest_addr
        ++ number m.dest_seqno
        ++ address m.orig_addr
        ++ number m.orig_seqno)

unfoldable pub read_rreq : List ℕ → Rreq
read_rreq p = record {
  j = has_bit 7 (byte 1 p);
  r = has_bit 6 (byte 1 p);
  g = has_bit 5 (byte 1 p);
  d = has_bit 4 (byte 1 p);
  hcnt = byte 3 p;
  rreq_id = ntohl32 4 p;
  dest_addr = word32 8 p;
  dest_seqno = ntohl32 12 p;
  orig_addr = word32 16 p;
  orig_seqno = ntohl32 20 p;
}

-- The words of an extension: a number in the one for the interval of HELLOs, else addresses.
unfoldable pub words_bytes : ℕ → List ℕ → List ℕ
words_bytes type [] = []
words_bytes type (w ∷ ws) = (if type == 2 then number w else address w) ++ words_bytes type ws

unfoldable pub exts_bytes : List Ext → List ℕ
unfolding words_bytes
exts_bytes [] = []
exts_bytes (x ∷ xs) = x.type ∷ x.length ∷ (words_bytes x.type x.words ++ exts_bytes xs)

unfoldable pub rrep_bytes : Rrep → List ℕ
unfolding exts_bytes
rrep_bytes m =
    2
    ∷ (bit 7 m.r + bit 6 m.a)
    ∷ m.prefix
    ∷ m.hcnt
    ∷ (address m.dest_addr
        ++ number m.dest_seqno
        ++ address m.orig_addr
        ++ number m.lifetime
        ++ exts_bytes m.exts)

unfoldable pub read_words : ℕ → ℕ → List ℕ → List ℕ
read_words type zero p = []
read_words type (suc n) p =
    (if type == 2 then ntohl32 0 p else word32 0 p) ∷ read_words type n (skip 4 p)

-- AODV_EXT_NEXT, until the message is at its end. Each extension takes two bytes at least; a word that its
-- length cuts is read whole, as the loop of hello_process does.
unfoldable pub read_exts : ℕ → List ℕ → List Ext
unfolding read_words skip
read_exts (suc n) (type ∷ len ∷ p) =
    record { type = type; length = len; words = read_words type ((len + 3) / 4) p }
    ∷ read_exts n (skip len p)
read_exts n p = []

unfoldable pub read_rrep : List ℕ → Rrep
unfolding read_exts
read_rrep p = record {
  r = has_bit 7 (byte 1 p);
  a = has_bit 6 (byte 1 p);
  prefix = byte 2 p % 32;
  hcnt = byte 3 p;
  dest_addr = word32 4 p;
  dest_seqno = ntohl32 8 p;
  orig_addr = word32 12 p;
  lifetime = ntohl32 16 p;
  exts = read_exts (length p) (skip 20 p);
}

unfoldable pub udests_bytes : List (ℕ × ℕ) → List ℕ
udests_bytes [] = []
udests_bytes ((addr, seqno) ∷ us) = address addr ++ number seqno ++ udests_bytes us

unfoldable pub rerr_bytes : Rerr → List ℕ
unfolding udests_bytes
rerr_bytes m = 3 ∷ bit 7 m.n ∷ 0 ∷ m.dest_count ∷ udests_bytes m.udests

-- RERR_UDEST_FIRST and RERR_UDEST_NEXT, dest_count times.
unfoldable pub read_udests : ℕ → List ℕ → List (ℕ × ℕ)
unfolding skip
read_udests zero p = []
read_udests (suc n) p = (word32 0 p, ntohl32 4 p) ∷ read_udests n (skip 8 p)

unfoldable pub read_rerr : List ℕ → Rerr
unfolding read_udests
read_rerr p = record {
  n = has_bit 7 (byte 1 p);
  dest_count = byte 3 p;
  udests = read_udests (byte 3 p) (skip 4 p);
}

unfoldable pub msg_bytes : Msg → List ℕ
unfolding rreq_bytes rrep_bytes rerr_bytes
msg_bytes (rreq m) = rreq_bytes m
msg_bytes (rrep m) = rrep_bytes m
msg_bytes (rerr m) = rerr_bytes m
msg_bytes rrep_ack = 4 ∷ 0 ∷ []
msg_bytes empty = []

-- The switch on aodv_msg->type.
unfoldable pub read_msg : List ℕ → Msg
unfolding read_rreq read_rrep read_rerr
read_msg [] = empty
read_msg (type ∷ p) =
    if type == 1
    then rreq (read_rreq (type ∷ p))
    else if type == 2
    then rrep (read_rrep (type ∷ p))
    else if type == 3
    then rerr (read_rerr (type ∷ p))
    else if type == 4
    then rrep_ack
    else empty
