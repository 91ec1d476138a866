-- ===== src/Kernel/Ipenc.antt =====
-- kernel/kaodv-ipenc.c: minimal encapsulation of IP packets (RFC 2004). Memory is always granted.
pub mod Roundtrip
use embedded_systems_wireles.Base.{
  ℕ, zero, suc, ◌+◌, ◌-◌, ◌*◌, ◌/◌, ◌%◌, ◌^◌, List, [], ◌∷◌, ◌++◌, ◌==◌, if◌then◌else◌,
}
use embedded_systems_wireles.Bytes.{byte, word32, skip}
use embedded_systems_wireles.Kernel.{Iph, Skb, Platform}

abbrev pub ipproto_mipe : ℕ
ipproto_mipe = 55

-- sizeof(struct min_ipenc_hdr).
abbrev pub ipenc_size : ℕ
ipenc_size = 8

-- The sum of `nshorts` unsigned shorts from byte `i` on, in u_int32_t.
unfoldable pub sum_shorts : ℕ → ℕ → List ℕ → ℕ → ℕ
unfolding byte
sum_shorts zero i buf sum = sum
sum_shorts (suc n) i buf sum =
    sum_shorts n (i + 2) buf ((sum + (byte i buf + 256 * byte (i + 1) buf)) % 2 ^ 32)

abbrev pub fold_once : ℕ → ℕ
fold_once sum = sum / 65536 + sum % 65536

abbrev pub fold_twice : ℕ → ℕ
fold_twice sum = (sum + sum / 65536) % 2 ^ 32

-- The value is returned as a u_int16_t.
unfoldable pub ip_csum : List ℕ → ℕ → ℕ
unfolding sum_shorts
ip_csum buf nshorts = 65535 - fold_twice (fold_once (sum_shorts nshorts 0 buf 0)) % 65536

-- The bytes of struct min_ipenc_hdr.
unfoldable pub ipenc_bytes : ℕ → ℕ → ℕ → List ℕ
ipenc_bytes protocol check daddr =
    protocol
    ∷ 0
    ∷ check % 256
    ∷ check / 256
    ∷ daddr % 256
    ∷ daddr / 256 % 256
    ∷ daddr / 65536 % 256
    ∷ daddr / 16777216 % 256
    ∷ []

-- ip_send_check.
abbrev pub ip_send_check : Platform → Iph → Iph
ip_send_check os h = record h { check = os.header_csum (record h { check = 0 }) }

unfoldable pub ip_pkt_encapsulate : Platform → Skb → ℕ → Skb
unfolding ip_csum ipenc_bytes
ip_pkt_encapsulate os skb dest =
    let h = skb.iph in
    let check = ip_csum (ipenc_bytes h.protocol 0 h.daddr) 4 in
    let sealed = ip_send_check os (record h {
      daddr = dest;
      protocol = ipproto_mipe;
      tot_len = (h.tot_len + ipenc_size) % 65536;
    }) in
    record {
      iph = if sealed.id == 0 then record sealed { id = os.select_ident sealed } else sealed;
      payload = ipenc_bytes h.protocol check h.daddr ++ skb.payload;
    }

unfoldable pub ip_pkt_decapsulate : Platform → Skb → Skb
unfolding byte word32 skip
ip_pkt_decapsulate os skb =
    let h = skb.iph in
    record {
      iph = ip_send_check os (record h {
        protocol = byte 0 skb.payload;
        daddr = word32 4 skb.payload;
        tot_len = (h.tot_len + 65536 - ipenc_size) % 65536;
      });
      payload = skip ipenc_size skb.payload;
    }
