-- ===== src/Kernel.antt =====
-- The legacy kernel module, kernel/: its state, the structs of its headers, and what it gives away.
-- The children have its operations, file by file, and what they keep. A pointer is 64 bits wide, and the
-- machine is little-endian.
pub mod Expl
pub mod Ipenc
pub mod Queue
pub mod Netlink
pub mod Hook
pub mod Events
use embedded_systems_wireles.Base.{ℕ, ◌%◌, ◌-◌, ◌^◌, ◌+◌, Bool, List, [], ◌∷◌, ◌++◌, ℤ, pos, negsuc}

-- struct expl_entry.
pub record ExplEntry : Type 0 where
  pub expires : ℕ
  pub flags : ℕ
  pub daddr : ℕ
  pub nhop : ℕ
  pub ifindex : ℕ

-- struct iphdr; the four bytes of tos and of version and ihl are two fields, and those of the fragment
-- offset one. Addresses are as s_addr holds them, tot_len and id as numbers.
pub record Iph : Type 0 where
  pub ihl : ℕ
  pub tos : ℕ
  pub tot_len : ℕ
  pub id : ℕ
  pub frag_off : ℕ
  pub ttl : ℕ
  pub protocol : ℕ
  pub check : ℕ
  pub saddr : ℕ
  pub daddr : ℕ
  pub options : List ℕ

-- struct sk_buff: the header of iph->ihl * 4 bytes, and the bytes that follow it.
pub record Skb : Type 0 where
  pub iph : Iph
  pub payload : List ℕ

-- struct if_info.
pub record IfInfo : Type 0 where
  pub dev_ifindex : ℕ
  pub if_addr : ℕ
  pub bc_addr : ℕ

-- What the module calls of the Linux kernel: HZ; the checksum that ip_send_check writes and the
-- identification that ip_select_ident does, both from the header; ip_route_me_harder.
pub record Platform : Type 0 where
  pub hz : ℕ
  pub header_csum : Iph → ℕ
  pub select_ident : Iph → ℕ
  pub route_me_harder : Skb → Skb

-- struct kaodv_rt_msg and struct kaodv_conf_msg.
pub record RtMsg : Type 0 where
  pub kind : ℕ
  pub src : ℕ
  pub dst : ℕ
  pub nhop : ℕ
  pub flags : ℕ
  pub ifindex : ℕ
  pub time : ℤ

pub record ConfMsg : Type 0 where
  pub active_route_timeout : ℤ
  pub qual_th : ℤ
  pub is_gateway : ℤ

-- What leaves the module: a packet that is freed, that goes on through its okfn, or that an ICMP error
-- is about; a message that netlink broadcasts to the daemon; the answer to a message of the daemon.
pub data Effect : Type 0 where
  freed : Skb → Effect
  injected : Skb → Effect
  unreachable : Skb → Effect
  broadcast : ℕ → RtMsg → Effect
  acked : ℤ → Effect

-- The static variables of the module's files, and the clock.
pub record Module : Type 0 where
  pub jiffies : ℕ
  pub expl_list : List ExplEntry
  pub expl_len : ℕ
  pub queue_list : List Skb
  pub queue_total : ℕ
  pub queue_maxlen : ℕ
  pub ifi_list : List IfInfo
  pub peer_pid : ℕ
  pub active_route_timeout : ℤ
  pub qual_th : ℤ
  pub is_gateway : ℤ
  pub effects : List Effect

abbrev pub effect : Effect → Module → Module
effect x k = record k { effects = k.effects ++ x ∷ [] }

-- ++ and -- of an unsigned int.
abbrev pub inc32 : ℕ → ℕ
inc32 n = (n + 1) % 2 ^ 32

abbrev pub dec32 : ℕ → ℕ
dec32 n = (n + (2 ^ 32 - 1)) % 2 ^ 32

-- The conversion of a signed number to unsigned long.
abbrev pub to_u64 : ℤ → ℕ
to_u64 (pos n) = n % 2 ^ 64
to_u64 (negsuc n) = 2 ^ 64 - 1 - n % 2 ^ 64

abbrev pub einval : ℕ
einval = 22

abbrev pub enospc : ℕ
enospc = 28

abbrev pub eperm : ℕ
eperm = 1

abbrev pub ebusy : ℕ
ebusy = 16

abbrev pub ecomm : ℕ
ecomm = 70

-- The number -e that a function returns for an error.
abbrev pub err : ℕ → ℤ
err e = negsuc (e - 1)
