-- ===== src/Examples/Messages.antt =====
-- The theorems on messages in memory, at a HELLO and at a route for the kernel.
use embedded_systems_wireles.Netlink.{Headers, Nlsock, Req, nl_kern_route}
use embedded_systems_wireles.Netlink.Attributes.{
  Documented, read_attrs, route_attrs, read_attrs-nl_kern_route,
}
use embedded_systems_wireles.Base.{
  ◌+◌, ◌*◌, ◌/◌, ◌%◌, ◌^◌, ◌≤◌, ◌≡◌, refl, some, none, pos, [], ◌∷◌, true, false, length, arith,
}
use embedded_systems_wireles.Message.{Rrep, rrep}
use embedded_systems_wireles.Wire.{msg_bytes, read_msg}
use embedded_systems_wireles.Wire.Roundtrip.{RrepOk, MsgOk, msg_size, read_msg-bytes}

-- A HELLO of 1 with the neighbours 7 and 9.
abbrev hello : Rrep
hello = record {
  r = false;
  a = true;
  prefix = 3;
  hcnt = 0;
  dest_addr = 1;
  dest_seqno = 70000;
  orig_addr = 1;
  lifetime = 2000;
  exts = record { type = 3; length = 8; words = 7 ∷ 9 ∷ [] } ∷ [];
}

hello-RrepOk : RrepOk hello
hello-RrepOk = ground arith

read_msg-bytes_example :
    (read_msg (msg_bytes (rrep hello)) ≡ rrep hello)
    × (length (msg_bytes (rrep hello)) ≡ msg_size (rrep hello))
read_msg-bytes_example = read_msg-bytes (rrep hello) (unfold MsgOk in hello-RrepOk)

-- A machine of 64 bits.
abbrev linux : Headers
linux = record {
  af_inet = 2;
  rtm_newroute = 24;
  rtm_delroute = 25;
  nlm_f_request = 1;
  nlm_f_create = 1024;
  nlm_f_replace = 256;
  nlm_f_ack = 4;
  rt_table_main = 254;
  rt_scope_link = 253;
  rt_scope_universe = 0;
  rtn_unicast = 1;
  rta_dst = 1;
  rta_gateway = 5;
  rta_oif = 4;
  rta_priority = 6;
  nlmsg_align = λ n. (n + 3) / 4 * 4;
  nlmsg_length = λ n. n + 16;
  rta_length = λ n. n + 4;
}

linux-Documented : Documented linux
linux-Documented = record {
  nlmsg_align = λ n. refl;
  nlmsg_length = λ n. refl;
  rta_length = λ n. refl;
  rta_dst = omega arith;
  rta_gateway = omega arith;
  rta_oif = omega arith;
  rta_priority = omega arith;
}

abbrev socket : Nlsock
socket = record { seq = 6; nl_pid = 900 }

-- The route to 9 over 7 on device 3.
read_attrs-nl_kern_route_example :
    (nl' : Nlsock) × (m : Req) × (nl_kern_route linux 24 1280 2
        (pos 3)
        (some 9)
        (some 7)
        none
        (pos 2)
        socket
      ≡ some (nl', m))
    × (read_attrs (length m.attrbuf) m.attrbuf ≡ route_attrs linux 9 7 (pos 3) (pos 2))
    × (m.nlmsg_len ≡ 28 + length m.attrbuf)
    × (length m.attrbuf ≤ 1024)
    × (m.nlmsg_seq ≡ nl'.seq)
    × (nl'.seq ≡ (socket.seq + 1) % 2 ^ 32)
read_attrs-nl_kern_route_example =
    read_attrs-nl_kern_route linux linux-Documented 24 1280 2 (pos 3) 9 7 none (pos 2) socket
      (omega arith) (omega arith)

-- Its attributes as the kernel finds them.
attrs_found : route_attrs linux 9 7 (pos 3) (pos 2) ≡ (1, 9) ∷ (5, 7) ∷ (4, 3) ∷ (6, 2) ∷ []
attrs_found = refl
