-- ===== src/Kernel/Queue/Loops.antt =====
-- What the loops of kaodv_queue_set_verdict do, against a list that is gone through once.
use mathlib.Core.List.{append_assoc, append-nil}
use embedded_systems_wireles.Base.{
  ℕ, zero, suc, ◌+◌, ◌-◌, ◌^◌, ◌≤◌, ◌<◌, ◌≡◌, ◌⊎◌, refl, ap, inl, inr, Option, none, some, List, [],
  ◌∷◌, ◌++◌, arith, length, ◌==◌, if◌then◌else◌, is_some, Bool-cases,
}
use embedded_systems_wireles.Kernel.{
  ExplEntry, Skb, Platform, Module, Effect, freed, injected, unreachable, effect, dec32,
}
use embedded_systems_wireles.Kernel.Expl.{find_expl, kaodv_expl_get}
use embedded_systems_wireles.Kernel.Queue.{
  take_first, find_dequeue, drop_skb, drop_loop, routed, send_skb, send_loop,
}

-- The packets for a destination, and the others, in order.
unfoldable pub mine : ℕ → List Skb → List Skb
mine daddr [] = []
mine daddr (s ∷ ss) = if s.iph.daddr == daddr then s ∷ mine daddr ss else mine daddr ss

unfoldable pub others : ℕ → List Skb → List Skb
others daddr [] = []
others daddr (s ∷ ss) = if s.iph.daddr == daddr then others daddr ss else s ∷ others daddr ss

-- The effects on a packet that is dropped after `pkts` others, the first of which is reported.
pub fate : ℕ → Skb → List Effect
fate pkts s = if pkts == 0 then unreachable s ∷ freed s ∷ [] else freed s ∷ []

pub dropped : ℕ → List Skb → List Effect
dropped pkts [] = []
dropped pkts (s ∷ ss) = fate pkts s ++ dropped (pkts + 1) ss

-- The effect on a packet that is sent with the route, if there is one, and on all of them.
pub passage : Platform → Option ExplEntry → Skb → Effect
passage os none s = freed s
passage os (some e) s = injected (routed os e s)

pub passages : Platform → Option ExplEntry → List Skb → List Effect
passages os o [] = []
passages os o (s ∷ ss) = passage os o s ∷ passages os o ss

-- What take_first finds, next to the two parts of the list.
take_first-cases :
    (a : ℕ) (ss : List Skb)
    → ((take_first a ss ≡ none) × (mine a ss ≡ []) × (others a ss ≡ ss))
      ⊎ ((s : Skb) × (rest : List Skb) × (take_first a ss ≡ some (s, rest))
          × (mine a ss ≡ s ∷ mine a rest)
          × (others a ss ≡ others a rest)
          × (length ss ≡ suc (length rest)))
unfolding take_first mine others
take_first-cases a [] = inl (refl, refl, refl)
take_first-cases a (x ∷ xs) = elim (Bool-cases (x.iph.daddr == a)) [
  | inl e ↦ rw e (inr (x, xs, refl, refl, refl, refl))
  | inr e ↦ rw e (elim (take_first-cases a xs) [
    | inl (h, m, o) ↦ rw h (inl (refl, m, ap (λ ys. x ∷ ys) o))
    | inr (s, rest, h, m, o, l) ↦
        rw h
          (inr (s, x ∷ rest, refl, rw (e, mine) m, rw (e, others) (ap (λ ys. x ∷ ys) o), ap suc l))
  ])
]

-- The module with another queue and counter, after more effects.
abbrev pub after : Module → List Skb → ℕ → List Effect → Module
after k queue total es = record k {
  queue_list = queue;
  queue_total = total;
  effects = k.effects ++ es;
}

after_eq :
    (k : Module) (q p : List Skb) (m n : ℕ) (es fs : List Effect)
    → q ≡ p
    → m ≡ n
    → es ≡ fs
    → after k q m es ≡ after k p n fs
after_eq k q p m n es fs x y z = rw (x, y, z) refl

drop_skb_lem :
    (s : Skb) (pkts : ℕ) (k : Module)
    → drop_skb s pkts k ≡ record k { effects = k.effects ++ fate pkts s }
unfolding drop_skb fate
drop_skb_lem s pkts k = elim (Bool-cases (pkts == 0)) [
  | inl e ↦ rw e (ap (λ es. record k { effects = es }) (append_assoc k.effects _ _))
  | inr e ↦ rw e refl
]

-- The loop that drops, with rounds enough.
pub drop_loop_lem :
    (n a pkts : ℕ) (k : Module)
    → length k.queue_list < n
    → length k.queue_list ≤ k.queue_total
    → k.queue_total < 2 ^ 32
    → drop_loop n a pkts k ≡ (
      after k
          (others a k.queue_list)
          (k.queue_total - length (mine a k.queue_list))
          (dropped pkts (mine a k.queue_list)),
      pkts + length (mine a k.queue_list),
    )
unfolding drop_loop find_dequeue dropped
drop_loop_lem zero a pkts k h v r = absurd (omega arith)
drop_loop_lem (suc n) a pkts k h v r = elim (take_first-cases a k.queue_list) [
  | inl (f, m, o) ↦
      let t : k.queue_total - 0 ≡ k.queue_total = omega arith in
      let p : pkts + 0 ≡ pkts = omega arith in
      rw (f, drop_loop, m, o, append-nil k.effects, t, p) refl
  | inr (s, rest, f, m, o, l) ↦
      let k1 = record k { queue_list = rest; queue_total = dec32 k.queue_total } in
      let k2 = record k1 { effects = k.effects ++ fate pkts s } in
      let t : dec32 k.queue_total - length (mine a rest)
          ≡ k.queue_total - suc (length (mine a rest)) =
        omega arith in
      let p : pkts + 1 + length (mine a rest) ≡ pkts + suc (length (mine a rest)) = omega arith in
      rw
        (
          f,
          drop_loop,
          m,
          o,
          drop_skb_lem s pkts k1,
          drop_loop_lem n a (pkts + 1) k2 (omega arith) (omega arith) (omega arith),
          t,
          p,
          append_assoc k.effects (fate pkts s) (dropped (pkts + 1) (mine a rest)),
        )
        refl
]

send_skb_lem :
    (os : Platform) (o : Option ExplEntry) (s : Skb) (k : Module)
    → send_skb os o s k ≡ effect (passage os o s) k
unfolding send_skb passage
send_skb_lem os none s k = refl
send_skb_lem os (some e) s k = refl

-- How many packets were sent.
abbrev pub sent_count : Option ExplEntry → ℕ → ℕ
sent_count o n = if is_some o then n else 0

-- The loop that sends, with rounds enough.
pub send_loop_lem :
    (os : Platform) (n a pkts : ℕ) (k : Module)
    → length k.queue_list < n
    → length k.queue_list ≤ k.queue_total
    → k.queue_total < 2 ^ 32
    → send_loop os n a pkts k ≡ (
      after k
          (others a k.queue_list)
          (k.queue_total - length (mine a k.queue_list))
          (passages os (kaodv_expl_get a k) (mine a k.queue_list)),
      pkts + sent_count (kaodv_expl_get a k) (length (mine a k.queue_list)),
    )
unfolding send_loop find_dequeue passages kaodv_expl_get
send_loop_lem os zero a pkts k h v r = absurd (omega arith)
send_loop_lem os (suc n) a pkts k h v r = elim (take_first-cases a k.queue_list) [
  | inl (f, m, o) ↦
      let t : k.queue_total - 0 ≡ k.queue_total = omega arith in
      let p : pkts + sent_count (find_expl a k.expl_list) 0 ≡ pkts = ground arith in
      rw (f, send_loop, m, o, append-nil k.effects, t, p) refl
  | inr (s, rest, f, m, o, l) ↦
      let route = find_expl a k.expl_list in
      let k1 = record k { queue_list = rest; queue_total = dec32 k.queue_total } in
      let k2 = record k1 { effects = k.effects ++ passage os route s ∷ [] } in
      let q = if is_some route then pkts + 1 else pkts in
      let t : dec32 k.queue_total - length (mine a rest)
          ≡ k.queue_total - suc (length (mine a rest)) =
        omega arith in
      let p : q + sent_count route (length (mine a rest))
          ≡ pkts + sent_count route (suc (length (mine a rest))) =
        ground arith in
      rw
        (
          f,
          send_loop,
          m,
          o,
          send_skb_lem os route s k1,
          send_loop_lem os n a q k2 (omega arith) (omega arith) (omega arith),
          t,
          p,
          append_assoc k.effects (passage os route s ∷ []) (passages os route (mine a rest)),
        )
        refl
]

pub length-mine-others :
    (a : ℕ) (ss : List Skb) → length (mine a ss) + length (others a ss) ≡ length ss
unfolding mine others
length-mine-others a [] = refl
length-mine-others a (s ∷ ss) = ground (arith, length-mine-others a ss)
