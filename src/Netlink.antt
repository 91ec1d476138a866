-- ===== src/Netlink.antt =====
-- The messages about routes that src/network/nl.c sends to the kernel, as they lie in memory on a machine that
-- stores the least significant byte first. The kernel's headers are given.
pub mod Attributes
pub mod Prefix
use embedded_systems_wireles.Base.{
  ℕ, zero, suc, ◌+◌, ◌-◌, ◌*◌, ◌/◌, ◌%◌, ◌^◌, Bool, true, false, Option, none, some, ℤ, pos, negsuc,
  List, [], ◌∷◌, ◌++◌, length, ◌==◌, if◌then◌else◌, ltb_ℤ,
}
use Prim.Native.Nat.{bit_or}
use embedded_systems_wireles.Wire.{address}

-- What is used of linux/netlink.h and linux/rtnetlink.h.
pub record Headers : Type 0 where
  pub af_inet : ℕ
  pub rtm_newroute : ℕ
  pub rtm_delroute : ℕ
  pub nlm_f_request : ℕ
  pub nlm_f_create : ℕ
  pub nlm_f_replace : ℕ
  pub nlm_f_ack : ℕ
  pub rt_table_main : ℕ
  pub rt_scope_link : ℕ
  pub rt_scope_universe : ℕ
  pub rtn_unicast : ℕ
  pub rta_dst : ℕ
  pub rta_gateway : ℕ
  pub rta_oif : ℕ
  pub rta_priority : ℕ
  pub nlmsg_align : ℕ → ℕ
  pub nlmsg_length : ℕ → ℕ
  pub rta_length : ℕ → ℕ

-- struct nlsock without the socket.
pub record Nlsock : Type 0 where
  pub seq : ℕ
  pub nl_pid : ℕ

-- The variable req of nl_kern_route, of a struct nlmsghdr, a struct rtmsg, and the bytes of attrbuf that are
-- not zeros of memset any more. The fields that stay 0 are left out.
pub record Req : Type 0 where
  pub nlmsg_len : ℕ
  pub nlmsg_type : ℕ
  pub nlmsg_flags : ℕ
  pub nlmsg_seq : ℕ
  pub nlmsg_pid : ℕ
  pub rtm_family : ℕ
  pub rtm_dst_len : ℕ
  pub rtm_table : ℕ
  pub rtm_protocol : ℕ
  pub rtm_scope : ℕ
  pub rtm_type : ℕ
  pub attrbuf : List ℕ

abbrev pub half : ℕ → List ℕ
half n = n % 256 ∷ n / 256 % 256 ∷ []

-- An int as a word.
abbrev pub int_word : ℤ → ℕ
int_word (pos n) = n % 2 ^ 32
int_word (negsuc n) = 2 ^ 32 - 1 - n % 2 ^ 32

unfoldable pub zeros : ℕ → List ℕ
zeros zero = []
zeros (suc n) = 0 ∷ zeros n

-- The loop of prefix_length, for `n` rounds at most; 32 are enough for a word.
unfoldable pub shifts : ℕ → ℕ → ℕ
shifts zero tmp = 0
shifts (suc n) tmp = let rest = shifts n (tmp * 2 % 2 ^ 32) in if tmp == 0 then 0 else rest + 1

module _ (linux : Headers) where
  unfoldable pub prefix_length : ℕ → ℕ → ℕ
  unfolding shifts
  prefix_length family nm = if family == linux.af_inet then shifts 32 nm else 0

  -- The bytes between the end of the message and the attribute stay 0.
  unfoldable pub addattr : ℕ → List ℕ → Req → Req
  unfolding zeros
  addattr type payload n =
      let at = linux.nlmsg_align n.nlmsg_len in
      let len = linux.rta_length (length payload) in
      record n {
        nlmsg_len = at + len;
        attrbuf = n.attrbuf ++ (zeros (at - n.nlmsg_len) ++ (half len ++ (half type ++ payload)));
      }

  -- The message as it goes to sendmsg.
  unfoldable pub nl_send : Nlsock → Req → Nlsock × Req
  nl_send nl n =
      let seq = (nl.seq + 1) % 2 ^ 32 in
      (
        record nl { seq = seq },
        record n {
          nlmsg_seq = seq;
          nlmsg_pid = nl.nl_pid;
          nlmsg_flags = bit_or n.nlmsg_flags linux.nlm_f_ack;
        },
      )

  unfoldable pub start_req : ℕ → ℕ → ℕ → Option ℕ → Req
  unfolding prefix_length
  start_req action flags family nm = record {
    nlmsg_len = linux.nlmsg_length 12;
    nlmsg_type = action;
    nlmsg_flags = bit_or linux.nlm_f_request flags;
    nlmsg_seq = 0;
    nlmsg_pid = 0;
    rtm_family = family;
    rtm_dst_len = elim nm [ none ↦ 32 | some mask ↦ prefix_length linux.af_inet mask ];
    rtm_table = linux.rt_table_main;
    rtm_protocol = 100;
    rtm_scope = linux.rt_scope_link;
    rtm_type = linux.rtn_unicast;
    attrbuf = [];
  }

  -- A route that is not direct.
  unfoldable pub add_gateway : ℕ → ℕ → Req → Req
  unfolding addattr
  add_gateway dst gw n =
      if dst == gw
      then n
      else addattr linux.rta_gateway (address gw) (record n { rtm_scope = linux.rt_scope_universe })

  unfoldable pub add_index : ℤ → Req → Req
  unfolding addattr
  add_index index n =
      if ltb_ℤ (pos 0) index then addattr linux.rta_oif (address (int_word index)) n else n

  unfoldable pub nl_kern_route :
      ℕ → ℕ → ℕ → ℤ → Option ℕ → Option ℕ → Option ℕ → ℤ → Nlsock → Option (Nlsock × Req)
  unfolding start_req addattr add_gateway add_index nl_send
  nl_kern_route action flags family index (some dst) (some gw) nm metric nl =
      let n = addattr linux.rta_dst (address dst) (start_req action flags family nm) in
      let n2 = add_index index (add_gateway dst gw n) in
      some (nl_send nl (addattr linux.rta_priority (address (int_word metric)) n2))
  nl_kern_route action flags family index _ _ nm metric nl = none

  unfoldable pub nl_send_add_route_msg : ℕ → ℕ → ℤ → ℤ → Nlsock → Option (Nlsock × Req)
  unfolding nl_kern_route
  nl_send_add_route_msg dest next_hop metric ifindex nl =
      nl_kern_route linux.rtm_newroute (bit_or linux.nlm_f_create linux.nlm_f_replace) linux.af_inet
        ifindex (some dest) (some next_hop) none metric nl

  unfoldable pub nl_send_del_route_msg : ℕ → ℕ → ℤ → Nlsock → Option (Nlsock × Req)
  unfolding nl_kern_route
  nl_send_del_route_msg dest next_hop metric nl =
      nl_kern_route linux.rtm_delroute 0 linux.af_inet (negsuc 0) (some dest) (some next_hop) none
        metric nl
