-- ===== src/PacketQueue/Bound.antt =====
-- The packet queue: its bound, its counter and the fate of the packets.
use embedded_systems_wireles.Base.{
  ℕ, suc, ◌+◌, ◌-◌, ◌≤◌, ◌≡◌, refl, sym, ap, ◌∙◌, inl, inr, false, Bool, List, [], ◌∷◌, ◌++◌, arith,
  length, length-append, leb, if◌then◌else◌, Bool-cases,
}
use mathlib.Core.List.{append_assoc, append-nil}
use embedded_systems_wireles.Daemon.{Daemon, Packet, Output, verdict, emit}
use embedded_systems_wireles.PacketQueue.{max_queue_length, settle, make_room, packet_queue_add}

-- The counter counts, and the queue is not longer than its bound.
pub record QueueOk (d : Daemon) : Type 0 where
  pub counts : d.queue_len ≡ length d.queue
  pub bounded : d.queue_len ≤ max_queue_length

-- The packets of a kind, and the others.
abbrev pub hits : (Packet → Bool) → List Packet → List Packet
hits hit [] = []
hits hit (p ∷ ps) = let rest = hits hit ps in if hit p then p ∷ rest else rest

abbrev pub misses : (Packet → Bool) → List Packet → List Packet
misses hit [] = []
misses hit (p ∷ ps) = let rest = misses hit ps in if hit p then rest else p ∷ rest

abbrev pub verdicts : Bool → List Packet → List Output
verdicts ok [] = []
verdicts ok (p ∷ ps) = verdict p.packet_id ok ∷ verdicts ok ps

settle_loop :
    (hit : Packet → Bool) (ok : Bool) (ps : List Packet) (d : Daemon)
    → ((settle hit ok ps d).queue ≡ misses hit ps)
      × ((settle hit ok ps d).out ≡ d.out ++ verdicts ok (hits hit ps))
      × ((settle hit ok ps d).queue_len ≡ d.queue_len - length (hits hit ps))
unfolding settle
settle_loop hit ok [] d = (refl, sym (append-nil d.out), omega arith)
settle_loop hit ok (p ∷ ps) d = elim (Bool-cases (hit p)) [
  | inl e ↦
      let d1 = emit (verdict p.packet_id ok) (record d { queue_len = d.queue_len - 1 }) in
      let (q, o, n) = settle_loop hit ok ps d1 in
      rw e (q, o ∙ append_assoc d.out _ _, omega (arith, n))
  | inr e ↦ let (q, o, n) = settle_loop hit ok ps d in rw e (ap (◌∷◌ p) q, o, n)
]

length-hits :
    (hit : Packet → Bool) (ps : List Packet)
    → length (hits hit ps) + length (misses hit ps) ≡ length ps
length-hits hit [] = refl
length-hits hit (p ∷ ps) = ground (arith, length-hits hit ps)

-- Settling the packets of a kind leaves exactly the others, in order; each packet of the kind gets one
-- verdict, in order; and the counter stays right and within the bound.
pub settle_lem :
    (hit : Packet → Bool) (ok : Bool) (d : Daemon)
    → QueueOk d
    → let d' = settle hit ok d.queue d in
      (d'.queue ≡ misses hit d.queue)
      × (d'.out ≡ d.out ++ verdicts ok (hits hit d.queue))
      × QueueOk d'
settle_lem hit ok d v =
    let (q, o, n) = settle_loop hit ok d.queue d in
    (
      q,
      o,
      record {
        counts = n ∙ (omega (arith, v.counts, length-hits hit d.queue) ∙ ap length (sym q));
        bounded = omega (arith, n, v.bounded);
      },
    )

abbrev rest_of : List Packet → List Packet
rest_of [] = []
rest_of (p ∷ ps) = ps

abbrev first_of : List Packet → List Packet
first_of [] = []
first_of (p ∷ ps) = p ∷ []

-- The packet that a full queue loses.
abbrev pub pushed_out : Daemon → List Packet
pushed_out d = if leb max_queue_length d.queue_len then first_of d.queue else []

-- What packet_queue_add leaves of the queue before it adds the packet.
abbrev pub kept : Daemon → List Packet
kept d = if leb max_queue_length d.queue_len then rest_of d.queue else d.queue

make_room_lem :
    (ps : List Packet) (d : Daemon)
    → d.queue ≡ ps
    → QueueOk d
    → let d' = make_room ps d in
      (d'.queue ≡ (if leb max_queue_length d.queue_len then rest_of ps else ps))
      × (d'.now ≡ d.now)
      × (d'.out
          ≡ d.out ++ verdicts false (if leb max_queue_length d.queue_len then first_of ps else []))
      × (d'.queue_len ≡ length d'.queue)
      × (d'.queue_len + 1 ≤ max_queue_length)
unfolding make_room
make_room_lem [] d e v =
    let none_left : length d.queue ≡ 0 = ap length e in
    (ground arith, refl, ground (arith, append-nil d.out), v.counts, omega (arith, v.counts))
make_room_lem (p ∷ ps) d e v =
    let len : length d.queue ≡ suc (length ps) = ap length e in
    elim (Bool-cases (leb max_queue_length d.queue_len)) [
      | inl full ↦ rw full (refl, refl, refl, omega (arith, v.counts), omega (arith, v.bounded))
      | inr free ↦ rw free (e, refl, sym (append-nil d.out), v.counts, ground (arith, v.bounded))
    ]

-- packet_queue_add keeps the counter right and the queue within its bound of 512; it puts the new
-- packet last, with the time, and takes out the oldest packet of a full queue and no other; that
-- packet gets the verdict NF_DROP, and nothing else is sent.
pub packet_queue_add_lem :
    (id dest : ℕ) (d : Daemon)
    → QueueOk d
    → let d' = packet_queue_add id dest d in
      QueueOk d'
      × (d'.queue ≡ kept d ++ record { packet_id = id; dest_addr = dest; q_time = d.now } ∷ [])
      × (d'.out ≡ d.out ++ verdicts false (pushed_out d))
unfolding packet_queue_add
packet_queue_add_lem id dest d v =
    let (q, t, o, n, b) = make_room_lem d.queue d refl v in
    (
      record {
        counts = omega (arith, n, length-append (make_room d.queue d).queue (_ ∷ []));
        bounded = b;
      },
      rw (q, t),
      o,
    )
