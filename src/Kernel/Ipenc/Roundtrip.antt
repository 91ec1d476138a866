-- ===== src/Kernel/Ipenc/Roundtrip.antt =====
-- Encapsulated packets come out as they were, and the header between is valid.
use embedded_systems_wireles.Base.{
  ℕ, ◌+◌, ◌-◌, ◌*◌, ◌/◌, ◌%◌, ◌^◌, ◌<◌, ◌≡◌, ◌≢◌, false, sym, arith, ◌==◌,
}
use embedded_systems_wireles.Bytes.{byte, word32, skip}
use embedded_systems_wireles.Kernel.{Skb, Platform}
use embedded_systems_wireles.Kernel.Ipenc.{
  fold_once, fold_twice, ipenc_bytes, ip_pkt_encapsulate, ip_pkt_decapsulate,
}

-- The fields of a header of a packet on the way, in their bounds, and its checksum right.
pub record Framed (os : Platform) (skb : Skb) : Type 0 where
  pub daddr_bound : skb.iph.daddr < 2 ^ 32
  pub tot_len_bound : skb.iph.tot_len < 65536
  pub checked : skb.iph.check ≡ os.header_csum (record (skb.iph) { check = 0 })

four_bytes :
    (a : ℕ)
    → a < 2 ^ 32
    → a % 256 + 256 * (a / 256 % 256 + 256 * (a / 65536 % 256 + 256 * (a / 16777216 % 256))) ≡ a
four_bytes a h = omega arith

-- Taking a packet out of its encapsulation gives the packet that was put in, byte for byte, whatever
-- gateway it was sent to: if its header was in bounds, with a right checksum and an identification.
pub ip_pkt_decapsulate-encapsulate :
    (os : Platform) (skb : Skb) (dest : ℕ)
    → Framed os skb
    → skb.iph.id ≢ 0
    → ip_pkt_decapsulate os (ip_pkt_encapsulate os skb dest) ≡ skb
unfolding ip_pkt_encapsulate ip_pkt_decapsulate ipenc_bytes skip byte word32
ip_pkt_decapsulate-encapsulate os skb dest v h =
    let e : (skb.iph.id == 0) ≡ false = ground arith in
    let t : ((skb.iph.tot_len + 8) % 65536 + 65536 - 8) % 65536 ≡ skb.iph.tot_len =
      omega (arith, v.tot_len_bound) in
    rw (e, four_bytes skb.iph.daddr v.daddr_bound, t, sym v.checked)

abbrev folded : ℕ → ℕ
folded s = 65535 - fold_twice (fold_once s) % 65536

-- The two shorts of an address.
abbrev address_sum : ℕ → ℕ
address_sum daddr =
    daddr % 256 + 256 * (daddr / 256 % 256) + (daddr / 65536 % 256 + 256 * (daddr / 16777216 % 256))
