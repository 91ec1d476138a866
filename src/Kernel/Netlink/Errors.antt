-- ===== src/Kernel/Netlink/Errors.antt =====
-- What a message of the daemon does to the routes, and what one that is refused does.
use embedded_systems_wireles.Base.{
  ℕ, ◌-◌, ◌%◌, ◌^◌, ◌≡◌, refl, inl, inr, Bool, true, false, not, ◌&&◌, ◌||◌, Option, none, some,
  arith, ℤ, ltb, ◌==◌, if◌then◌else◌, is_some, pos_part, negsuc, ◌≢◌, ◌⊎◌, Bool-cases,
}
use embedded_systems_wireles.Kernel.{RtMsg, Platform, Module, effect, acked, err, einval, ebusy}
use embedded_systems_wireles.Kernel.Expl.{kaodv_expl_get, kaodv_expl_add}
use embedded_systems_wireles.Kernel.Queue.{kaodv_queue_set_verdict, kaodv_queue_send}
use embedded_systems_wireles.Kernel.Netlink.{
  Payload, NlMsg, add_route, kaodv_netlink_receive_peer, kaodvm_addroute, kaodvm_delroute,
  kaodvm_noroute_found, kaodvm_config, rt_msg_size, conf_msg_size, refusal, heed,
  kaodv_netlink_rcv_skb,
}

-- The branch for an update is never taken.
pub add_route_lem :
    (os : Platform) (m : RtMsg) (k : Module)
    → add_route os m k ≡ (
      (kaodv_queue_set_verdict os kaodv_queue_send m.dst
          (kaodv_expl_add os m.dst m.nhop m.time m.flags m.ifindex k).0).0,
      (kaodv_expl_add os m.dst m.nhop m.time m.flags m.ifindex k).1,
    )
unfolding add_route
add_route_lem os m k = elim (Bool-cases (is_some (kaodv_expl_get m.dst k))) [
  | inl e ↦ rw e refl
  | inr e ↦ rw e refl
]

-- The types that the daemon's messages have.
abbrev pub known_type : ℕ → Bool
known_type type =
    (type == kaodvm_addroute)
    || (type == kaodvm_delroute)
    || (type == kaodvm_noroute_found)
    || (type == kaodvm_config)

-- The length that a message of the type has at least.
abbrev pub needed : ℕ → ℕ
needed type = if type == kaodvm_config then conf_msg_size else rt_msg_size

-- A message of an unknown type, or of a known one that is too short, changes nothing and is
-- answered with -EINVAL.
pub receive_peer_refused :
    (os : Platform) (type : ℕ) (msg : Payload) (len : ℕ) (k : Module)
    → not (known_type type) || ltb len (needed type) ≡ true
    → kaodv_netlink_receive_peer os type msg len k ≡ (k, err einval)
unfolding kaodv_netlink_receive_peer
receive_peer_refused os type msg len k h = ground arith

-- The short message: nothing at all happens. The others that are refused: one answer.
abbrev pub too_short : NlMsg → ℕ → Bool
too_short nlh skblen =
    ltb skblen 16
    || ltb nlh.nlmsg_len 16
    || (ltb nlh.nlmsg_len (2 ^ 31) && ltb skblen nlh.nlmsg_len)

-- A request whose header is in order, but whose type is unknown or which is too short for its type: it
-- is answered with -EINVAL, registers its sender, and changes nothing else.
pub rcv_skb_refused :
    (os : Platform) (nlh : NlMsg) (msg : Payload) (permitted : Bool) (skblen : ℕ) (k : Module)
    → too_short nlh skblen ≡ false
    → refusal nlh permitted k.peer_pid ≡ none
    → not (known_type (nlh.nlmsg_type % 256)) || ltb (skblen - 16) (needed (nlh.nlmsg_type % 256))
      ≡ true
    → kaodv_netlink_rcv_skb os nlh msg permitted skblen k
      ≡ effect (acked (err einval)) (record k { peer_pid = pos_part nlh.nlmsg_pid })
unfolding kaodv_netlink_rcv_skb heed
rcv_skb_refused os nlh msg permitted skblen k s r h =
    let k1 = record k { peer_pid = pos_part nlh.nlmsg_pid } in
    rw (s, r, heed, receive_peer_refused os (nlh.nlmsg_type % 256) msg (skblen - 16) k1 h) refl

-- A result that is an error.
abbrev Refused : Option ℤ → Type 0
Refused o = (e : ℕ) × (o ≡ some (negsuc e))

if-Refused :
    (b : Bool) (e : ℕ) (o : Option ℤ) → Refused o → Refused (if b then some (negsuc e) else o)
if-Refused true e o h = (e, refl)
if-Refused false e o h = h

refusal-Refused :
    (nlh : NlMsg) (permitted : Bool) (peer : ℕ)
    → peer ≢ 0
    → pos_part nlh.nlmsg_pid ≢ peer
    → Refused (refusal nlh permitted peer)
unfolding refusal
refusal-Refused nlh permitted peer p q =
    let other : (not (peer == 0) && not (peer == pos_part nlh.nlmsg_pid)) ≡ true = ground arith in
    rw other (
      if-Refused _ 21 _
        (if-Refused _ 69 _ (if-Refused (not permitted) 0 (some (err ebusy)) (15, refl))))

-- While a process is registered, no message of another one changes the module; at most it is answered,
-- with an error.
pub rcv_skb_stranger :
    (os : Platform) (nlh : NlMsg) (msg : Payload) (permitted : Bool) (skblen : ℕ) (k : Module)
    → k.peer_pid ≢ 0
    → pos_part nlh.nlmsg_pid ≢ k.peer_pid
    → (kaodv_netlink_rcv_skb os nlh msg permitted skblen k ≡ k)
      ⊎ ((e : ℕ) × (kaodv_netlink_rcv_skb os nlh msg permitted skblen k
            ≡ effect (acked (negsuc e)) k))
unfolding kaodv_netlink_rcv_skb heed
rcv_skb_stranger os nlh msg permitted skblen k p q = elim (Bool-cases (too_short nlh skblen)) [
  | inl s ↦ inl (rw s refl)
  | inr s ↦
      let (e, r) = refusal-Refused nlh permitted k.peer_pid p q in inr (e, rw (s, r, heed) refl)
]
