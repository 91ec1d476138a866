-- ===== src/Netlink/Attributes.antt =====
-- What the kernel reads in the messages of src/network/nl.c.
use embedded_systems_wireles.Base.{
  ℕ, zero, suc, ◌+◌, ◌-◌, ◌*◌, ◌/◌, ◌%◌, ◌^◌, ◌<◌, ◌≤◌, ◌≡◌, refl, inl, inr, ap, ◌∙◌, Bool, true,
  false, Option, some, ℤ, pos, negsuc, List, [], ◌∷◌, ◌++◌, All, All-append, length, ◌==◌,
  if◌then◌else◌, ltb_ℤ, arith, Bool-cases,
}
use embedded_systems_wireles.Bytes.{byte, word32, skip}
use embedded_systems_wireles.Wire.{address}
use embedded_systems_wireles.Netlink.{
  Headers, Nlsock, Req, half, int_word, zeros, addattr, nl_send, start_req, add_gateway, add_index,
  nl_kern_route,
}

-- What the headers say of lengths, and that an attribute's type has 16 bits.
pub record Documented (linux : Headers) : Type 0 where
  pub nlmsg_align : (n : ℕ) → linux.nlmsg_align n ≡ (n + 3) / 4 * 4
  pub nlmsg_length : (n : ℕ) → linux.nlmsg_length n ≡ n + 16
  pub rta_length : (n : ℕ) → linux.rta_length n ≡ n + 4
  pub rta_dst : linux.rta_dst < 65536
  pub rta_gateway : linux.rta_gateway < 65536
  pub rta_oif : linux.rta_oif < 65536
  pub rta_priority : linux.rta_priority < 65536

-- The attributes of a message: the type and the first word of each, for `n` attributes at most.
unfoldable pub read_attrs : ℕ → List ℕ → List (ℕ × ℕ)
unfolding byte word32 skip
read_attrs zero p = []
read_attrs (suc n) [] = []
read_attrs (suc n) (b ∷ p) =
    let bs = b ∷ p in
    (byte 2 bs + 256 * byte 3 bs, word32 4 bs)
    ∷ read_attrs n (skip ((byte 0 bs + 256 * byte 1 bs + 3) / 4 * 4) bs)

abbrev pub Attr : ℕ × ℕ → Type 0
Attr a = (a.0 < 65536) × (a.1 < 2 ^ 32)

unfoldable pub attrs_bytes : List (ℕ × ℕ) → List ℕ
attrs_bytes [] = []
attrs_bytes ((t, w) ∷ l) = half 8 ++ (half t ++ (address w ++ attrs_bytes l))

-- As many rounds as there are attributes are enough.
read_attrs-attrs_bytes :
    (l : List (ℕ × ℕ)) (n : ℕ) → length l ≤ n → All Attr l → read_attrs n (attrs_bytes l) ≡ l
unfolding read_attrs attrs_bytes byte word32 skip
read_attrs-attrs_bytes [] zero h v = refl
read_attrs-attrs_bytes [] (suc n) h v = refl
read_attrs-attrs_bytes (x ∷ l) zero h v = absurd (omega (arith, h))
read_attrs-attrs_bytes ((t, w) ∷ l) (suc n) h v =
    let a : t % 256 + 256 * (t / 256 % 256) ≡ t = omega (arith, v.0.0) in
    let b : w % 256 + 256 * (w / 256 % 256 + 256 * (w / 65536 % 256 + 256 * (w / 16777216 % 256)))
        ≡ w =
      omega (arith, v.0.1) in
    rw (a, b, read_attrs-attrs_bytes l n (omega (arith, h)) v.1) refl

length-attrs_bytes : (l : List (ℕ × ℕ)) → length (attrs_bytes l) ≡ 8 * length l
unfolding attrs_bytes
length-attrs_bytes [] = refl
length-attrs_bytes (a ∷ l) = omega (arith, length-attrs_bytes l)

attrs_bytes-append :
    (l : List (ℕ × ℕ)) (t w : ℕ)
    → attrs_bytes l ++ (half 8 ++ (half t ++ address w)) ≡ attrs_bytes (l ++ ((t, w) ∷ []))
unfolding attrs_bytes
attrs_bytes-append [] t w = refl
attrs_bytes-append (a ∷ l) t w = rw (attrs_bytes-append l t w) refl

-- A message with these attributes and nothing else behind its headers.
abbrev pub Carries : List (ℕ × ℕ) → Req → Type 0
Carries l n = (n.attrbuf ≡ attrs_bytes l) × (n.nlmsg_len ≡ 28 + 8 * length l)

length-append : (l : List (ℕ × ℕ)) (a : ℕ × ℕ) → length (l ++ (a ∷ [])) ≡ length l + 1
length-append [] a = refl
length-append (b ∷ l) a = omega (arith, length-append l a)

module _ (linux : Headers) (doc : Documented linux) where
  addattr-Carries :
      (l : List (ℕ × ℕ)) (t w : ℕ) (n : Req)
      → Carries l n
      → Carries (l ++ ((t, w) ∷ [])) (addattr linux t (address w) n)
  unfolding addattr zeros
  addattr-Carries l t w n (e, len) =
      let q : (28 + 8 * length l + 3) / 4 * 4 ≡ 28 + 8 * length l = omega arith in
      let z : 28 + 8 * length l - (28 + 8 * length l) ≡ 0 = omega arith in
      rw (len, doc.nlmsg_align (28 + 8 * length l), q, z, doc.rta_length 4, e)
        (attrs_bytes-append l t w, omega (arith, length-append l (t, w)))

  add_gateway-Carries :
      (l : List (ℕ × ℕ)) (dst gw : ℕ) (n : Req)
      → Carries l n
      → Carries
          (if dst == gw then l else l ++ ((linux.rta_gateway, gw) ∷ []))
          (add_gateway linux dst gw n)
  unfolding add_gateway
  add_gateway-Carries l dst gw n v = elim (Bool-cases (dst == gw)) [
    | inl e ↦ rw e v
    | inr e ↦ rw e (
        addattr-Carries l linux.rta_gateway gw (record n { rtm_scope = linux.rt_scope_universe }) v)
  ]

  add_index-Carries :
      (l : List (ℕ × ℕ)) (index : ℤ) (n : Req)
      → Carries l n
      → Carries
          (if ltb_ℤ (pos 0) index then l ++ ((linux.rta_oif, int_word index) ∷ []) else l)
          (add_index linux index n)
  unfolding add_index
  add_index-Carries l index n v = elim (Bool-cases (ltb_ℤ (pos 0) index)) [
    | inl e ↦ rw e (addattr-Carries l linux.rta_oif (int_word index) n v)
    | inr e ↦ rw e v
  ]

abbrev with_gateway : Headers → ℕ → ℕ → List (ℕ × ℕ) → List (ℕ × ℕ)
with_gateway linux dst gw l = if dst == gw then l else l ++ ((linux.rta_gateway, gw) ∷ [])

abbrev with_index : Headers → ℤ → List (ℕ × ℕ) → List (ℕ × ℕ)
with_index linux index l =
    if ltb_ℤ (pos 0) index then l ++ ((linux.rta_oif, int_word index) ∷ []) else l

-- The attributes of a message about a route.
abbrev pub route_attrs : Headers → ℕ → ℕ → ℤ → ℤ → List (ℕ × ℕ)
route_attrs linux dst gw index metric =
    with_index linux index (with_gateway linux dst gw ((linux.rta_dst, dst) ∷ []))
    ++ ((linux.rta_priority, int_word metric) ∷ [])

int_word-lt : (z : ℤ) → int_word z < 2 ^ 32
int_word-lt (pos n) = omega arith
int_word-lt (negsuc n) = omega arith

abbrev Few : ℕ → List (ℕ × ℕ) → Type 0
Few k l = All Attr l × (length l ≤ k)

append-Few : (k : ℕ) (l : List (ℕ × ℕ)) (a : ℕ × ℕ) → Attr a → Few k l → Few (k + 1) (l ++ (a ∷ []))
append-Few k l a w v =
    (All-append Attr l (a ∷ []) v.0 (w, tt), omega (arith, v.1, length-append l a))

if-Few : (k : ℕ) (b : Bool) (x y : List (ℕ × ℕ)) → Few k x → Few k y → Few k (if b then x else y)
if-Few k true x y v w = v
if-Few k false x y v w = w

module _ (linux : Headers) (doc : Documented linux) where
  route_attrs-Few :
      (dst gw : ℕ) (index metric : ℤ)
      → dst < 2 ^ 32
      → gw < 2 ^ 32
      → Few 4 (route_attrs linux dst gw index metric)
  route_attrs-Few dst gw index metric p q =
      let l1 : List (ℕ × ℕ) = (linux.rta_dst, dst) ∷ [] in
      let l2 = with_gateway linux dst gw l1 in
      let v2 : Few 2 l2 =
        if-Few 2 (dst == gw) l1 _ (((doc.rta_dst, p), tt), omega arith)
          (append-Few 1 l1 (linux.rta_gateway, gw) (doc.rta_gateway, q)
            (((doc.rta_dst, p), tt), omega arith)) in
      let v3 : Few 3 (with_index linux index l2) =
        if-Few 3 (ltb_ℤ (pos 0) index) _ l2
          (append-Few 2 l2 (linux.rta_oif, int_word index) (doc.rta_oif, int_word-lt index) v2)
          (v2.0, omega (arith, v2.1)) in
      append-Few 3 (with_index linux index l2) (linux.rta_priority, int_word metric)
        (doc.rta_priority, int_word-lt metric) v3

  -- The message before it is sent.
  built-Carries :
      (dst gw : ℕ) (index metric : ℤ) (n : Req)
      → Carries [] n
      → Carries (route_attrs linux dst gw index metric) (
          addattr linux linux.rta_priority (address (int_word metric)) (
            add_index linux index
              (add_gateway linux dst gw (addattr linux linux.rta_dst (address dst) n))))
  built-Carries dst gw index metric n v =
      let l1 : List (ℕ × ℕ) = (linux.rta_dst, dst) ∷ [] in
      let l2 = with_gateway linux dst gw l1 in
      addattr-Carries linux doc (with_index linux index l2) linux.rta_priority (int_word metric) _ (
        add_index-Carries linux doc l2 index _ (
          add_gateway-Carries linux doc l1 dst gw _
            (addattr-Carries linux doc [] linux.rta_dst dst n v)))

  -- With the lengths as linux/netlink.h and linux/rtnetlink.h document them, nl_kern_route sends a
  -- message whose attributes, read to its end, are the destination, the gateway if it is not the
  -- destination itself, the device if the index is positive, and the metric, in this order; they
  -- fit into attrbuf, nlmsg_len counts them, and the message has the socket's next sequence number.
  pub read_attrs-nl_kern_route :
      (action flags family : ℕ) (index : ℤ) (dst gw : ℕ) (nm : Option ℕ) (metric : ℤ) (nl : Nlsock)
      → dst < 2 ^ 32
      → gw < 2 ^ 32
      → (nl' : Nlsock) × (m : Req) × (nl_kern_route linux action flags family index
            (some dst)
            (some gw)
            nm
            metric
            nl
          ≡ some (nl', m))
        × (read_attrs (length m.attrbuf) m.attrbuf ≡ route_attrs linux dst gw index metric)
        × (m.nlmsg_len ≡ 28 + length m.attrbuf)
        × (length m.attrbuf ≤ 1024)
        × (m.nlmsg_seq ≡ nl'.seq)
        × (nl'.seq ≡ (nl.seq + 1) % 2 ^ 32)
  unfolding nl_kern_route nl_send
  read_attrs-nl_kern_route action flags family index dst gw nm metric nl p q =
      let n0 = start_req linux action flags family nm in
      let n4 = addattr linux linux.rta_priority (address (int_word metric)) (
        add_index linux index
          (add_gateway linux dst gw (addattr linux linux.rta_dst (address dst) n0))) in
      let l = route_attrs linux dst gw index metric in
      let w0 : Carries [] n0 =
        unfold attrs_bytes in unfold start_req in (refl, doc.nlmsg_length 12) in
      let w = built-Carries dst gw index metric n0 w0 in
      let few = route_attrs-Few dst gw index metric p q in
      let size : length n4.attrbuf ≡ 8 * length l = ap length w.0 ∙ length-attrs_bytes l in
      let read : read_attrs (length n4.attrbuf) n4.attrbuf ≡ l = rw w.0 (
        read_attrs-attrs_bytes l (length (attrs_bytes l)) (omega (arith, length-attrs_bytes l))
          few.0) in
      (
        (nl_send linux nl n4).0,
        (nl_send linux nl n4).1,
        refl,
        read,
        omega (arith, w.1, size),
        omega (arith, size, few.1),
        refl,
        refl,
      )
