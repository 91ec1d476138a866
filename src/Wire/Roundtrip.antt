-- ===== src/Wire/Roundtrip.antt =====
-- What is sent is what is read.
use embedded_systems_wireles.Base.{
  ℕ, zero, suc, ◌+◌, ◌*◌, ◌/◌, ◌^◌, ◌≤◌, ◌<◌, ◌≡◌, refl, ap, List, [], ◌∷◌, ◌++◌, All, length,
  length-append, ◌==◌, arith, Bool-cases, inl, inr,
}
use embedded_systems_wireles.Bytes.{byte, word32, ntohl32, skip}
use embedded_systems_wireles.Message.{
  rreq_size, rrep_size, rerr_calc_size, Msg, Rreq, Rrep, Rerr, Ext, rreq, rrep, rerr, rrep_ack,
  empty,
}
use embedded_systems_wireles.Wire.{
  address, number, rreq_bytes, read_rreq, words_bytes, exts_bytes, rrep_bytes, read_words,
  read_exts, read_rrep, udests_bytes, rerr_bytes, read_udests, read_rerr, msg_bytes, read_msg,
}

abbrev pub Word : ℕ → Type 0
Word n = n < 2 ^ 32

-- The fields of a request are within their sizes.
pub record RreqOk (m : Rreq) : Type 0 where
  pub hcnt : m.hcnt < 256
  pub rreq_id : Word m.rreq_id
  pub dest_addr : Word m.dest_addr
  pub dest_seqno : Word m.dest_seqno
  pub orig_addr : Word m.orig_addr
  pub orig_seqno : Word m.orig_seqno

word32-address : (a : ℕ) (p : List ℕ) → Word a → word32 0 (address a ++ p) ≡ a
unfolding word32 byte
word32-address a p h = omega arith

ntohl32-number : (n : ℕ) (p : List ℕ) → Word n → ntohl32 0 (number n ++ p) ≡ n
unfolding ntohl32 byte
ntohl32-number n p h = omega arith

read_rreq-bytes : (m : Rreq) → RreqOk m → read_rreq (rreq_bytes m) ≡ m
unfolding read_rreq rreq_bytes word32 ntohl32 byte
read_rreq-bytes m v = ground (arith, v.hcnt)

-- A number of words, each within 32 bits, in a length of 8 bits.
pub record ExtOk (x : Ext) : Type 0 where
  pub type : x.type < 256
  pub fits : x.length < 256
  pub whole : x.length ≡ 4 * length x.words
  pub words : All Word x.words

pub record RrepOk (m : Rrep) : Type 0 where
  pub prefix : m.prefix < 32
  pub hcnt : m.hcnt < 256
  pub dest_addr : Word m.dest_addr
  pub dest_seqno : Word m.dest_seqno
  pub orig_addr : Word m.orig_addr
  pub lifetime : Word m.lifetime
  pub exts : All ExtOk m.exts

skip-words_bytes : (type : ℕ) (ws p : List ℕ) → skip (4 * length ws) (words_bytes type ws ++ p) ≡ p
unfolding skip words_bytes
skip-words_bytes type [] p = refl
skip-words_bytes type (w ∷ ws) p =
    let e : 4 * suc (length ws) ≡ suc (suc (suc (suc (4 * length ws)))) = omega arith in
    rw e (elim (Bool-cases (type == 2)) [
      | inl f ↦ rw f (skip-words_bytes type ws p)
      | inr f ↦ rw f (skip-words_bytes type ws p)
    ])

read_words-bytes :
    (type : ℕ) (ws p : List ℕ)
    → All Word ws
    → read_words type (length ws) (words_bytes type ws ++ p) ≡ ws
unfolding read_words words_bytes skip
read_words-bytes type [] p v = refl
read_words-bytes type (w ∷ ws) p v = elim (Bool-cases (type == 2)) [
  | inl f ↦ rw (f, ntohl32-number w _ v.0, read_words-bytes type ws p v.1) refl
  | inr f ↦ rw (f, word32-address w _ v.0, read_words-bytes type ws p v.1) refl
]

length-exts_bytes : (xs : List Ext) → length xs ≤ length (exts_bytes xs)
unfolding exts_bytes
length-exts_bytes [] = omega arith
length-exts_bytes (x ∷ xs) =
    omega (arith, length-exts_bytes xs, length-append (words_bytes x.type x.words) (exts_bytes xs))

read_exts-bytes :
    (n : ℕ) (xs : List Ext) → length xs ≤ n → All ExtOk xs → read_exts n (exts_bytes xs) ≡ xs
unfolding read_exts exts_bytes
read_exts-bytes zero [] h v = refl
read_exts-bytes (suc n) [] h v = refl
read_exts-bytes zero (x ∷ xs) h v = absurd (omega arith)
read_exts-bytes (suc n) (x ∷ xs) h v =
    let e : (x.length + 3) / 4 ≡ length x.words = omega (arith, v.0.whole) in
    let rest : skip x.length (words_bytes x.type x.words ++ exts_bytes xs) ≡ exts_bytes xs =
      rw v.0.whole (skip-words_bytes x.type x.words (exts_bytes xs)) in
    rw
      (
        e,
        rest,
        read_words-bytes x.type x.words (exts_bytes xs) v.0.words,
        read_exts-bytes n xs (omega arith) v.1,
      )
      refl

read_rrep-bytes : (m : Rrep) → RrepOk m → read_rrep (rrep_bytes m) ≡ m
unfolding read_rrep rrep_bytes word32 ntohl32 byte skip
read_rrep-bytes m v =
    let all =
      read_exts-bytes (length (rrep_bytes m)) m.exts (omega (arith, length-exts_bytes m.exts))
        v.exts in
    ground (arith, all, v.prefix)

-- As many destinations as the counter of 8 bits says.
pub record RerrOk (m : Rerr) : Type 0 where
  pub dest_count : m.dest_count < 256
  pub counted : m.dest_count ≡ length m.udests
  pub udests : All (λ u. Word u.0 × Word u.1) m.udests

read_udests-bytes :
    (us : List (ℕ × ℕ))
    → All (λ u. Word u.0 × Word u.1) us
    → read_udests (length us) (udests_bytes us) ≡ us
unfolding read_udests udests_bytes word32 ntohl32 byte skip
read_udests-bytes [] v = refl
read_udests-bytes ((addr, seqno) ∷ us) v = ground (arith, read_udests-bytes us v.1, v.0)

read_rerr-bytes : (m : Rerr) → RerrOk m → read_rerr (rerr_bytes m) ≡ m
unfolding read_rerr rerr_bytes byte skip
read_rerr-bytes m v =
    let all : read_udests m.dest_count (udests_bytes m.udests) ≡ m.udests =
      rw v.counted (read_udests-bytes m.udests v.udests) in
    ground (arith, all)

unfoldable pub MsgOk : Msg → Type 0
MsgOk (rreq m) = RreqOk m
MsgOk (rrep m) = RrepOk m
MsgOk (rerr m) = RerrOk m
MsgOk _ = Unit {0}

-- What the program takes for the length of a message: RREQ_SIZE, RREP_SIZE with the extensions,
-- RERR_CALC_SIZE and RREP_ACK_SIZE.
unfoldable pub exts_size : List Ext → ℕ
exts_size [] = 0
exts_size (x ∷ xs) = 2 + x.length + exts_size xs

unfoldable pub msg_size : Msg → ℕ
unfolding exts_size
msg_size (rreq m) = rreq_size
msg_size (rrep m) = rrep_size + exts_size m.exts
msg_size (rerr m) = rerr_calc_size m.dest_count
msg_size rrep_ack = 2
msg_size empty = 0

length-words_bytes : (type : ℕ) (ws : List ℕ) → length (words_bytes type ws) ≡ 4 * length ws
unfolding words_bytes
length-words_bytes type [] = refl
length-words_bytes type (w ∷ ws) = elim (Bool-cases (type == 2)) [
  | inl f ↦ rw f (omega (arith, length-words_bytes type ws))
  | inr f ↦ rw f (omega (arith, length-words_bytes type ws))
]

length-exts_bytes-size : (xs : List Ext) → All ExtOk xs → length (exts_bytes xs) ≡ exts_size xs
unfolding exts_bytes exts_size
length-exts_bytes-size [] v = refl
length-exts_bytes-size (x ∷ xs) v = omega (
  arith,
  length-append (words_bytes x.type x.words) (exts_bytes xs),
  length-words_bytes x.type x.words,
  length-exts_bytes-size xs v.1,
  v.0.whole,
)

length-udests_bytes : (us : List (ℕ × ℕ)) → length (udests_bytes us) ≡ 8 * length us
unfolding udests_bytes
length-udests_bytes [] = refl
length-udests_bytes ((addr, seqno) ∷ us) = omega (arith, length-udests_bytes us)

length-msg_bytes : (m : Msg) → MsgOk m → length (msg_bytes m) ≡ msg_size m
unfolding MsgOk msg_bytes msg_size rreq_bytes rrep_bytes rerr_bytes
length-msg_bytes (rreq m) v = refl
length-msg_bytes (rrep m) v = omega (arith, length-exts_bytes-size m.exts v.exts)
length-msg_bytes (rerr m) v = omega (arith, length-udests_bytes m.udests, v.counted)
length-msg_bytes rrep_ack v = refl
length-msg_bytes empty v = refl

read_msg_lem : (m : Msg) → MsgOk m → read_msg (msg_bytes m) ≡ m
unfolding MsgOk read_msg msg_bytes rreq_bytes rrep_bytes rerr_bytes
read_msg_lem (rreq m) v = ap rreq (unfold rreq_bytes in read_rreq-bytes m v)
read_msg_lem (rrep m) v = ap rrep (unfold rrep_bytes in read_rrep-bytes m v)
read_msg_lem (rerr m) v = ap rerr (unfold rerr_bytes in read_rerr-bytes m v)
read_msg_lem rrep_ack v = refl
read_msg_lem empty v = refl

-- A message of any kind whose fields are within their sizes is read as it was sent, with its flags,
-- its extensions and its destinations; and it takes the bytes that the program reckons for it: 24
-- for a request, 20 and the extensions for a reply, 4 and 8 for each destination for an error.
pub read_msg-bytes :
    (m : Msg) → MsgOk m → (read_msg (msg_bytes m) ≡ m) × (length (msg_bytes m) ≡ msg_size m)
read_msg-bytes m v = (read_msg_lem m v, length-msg_bytes m v)
