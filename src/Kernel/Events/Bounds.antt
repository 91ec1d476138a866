-- ===== src/Kernel/Events/Bounds.antt =====
-- What the operations on the routes and on the queue keep together.
use embedded_systems_wireles.Base.{
  ℕ, ◌+◌, ◌-◌, ◌^◌, ◌≤◌, ◌<◌, ◌≡◌, refl, inl, inr, Bool, true, false, List, [], ◌∷◌, arith, ℤ,
  length, length-append, leb, if◌then◌else◌, Bool-cases, Option-cases,
}
use embedded_systems_wireles.Kernel.{Skb, Platform, Module, effect, dec32, freed}
use embedded_systems_wireles.Kernel.Expl.{
  find_expl, kaodv_expl_get, kaodv_expl_add, expl_max_len, link_expl, kaodv_expl_del, unlink_expl,
  kaodv_expl_update, refresh_expl,
}
use embedded_systems_wireles.Kernel.Expl.Routes.{length-drop_expl}
use embedded_systems_wireles.Kernel.Expl.Invariant.{
  ExplOk, kaodv_expl_add-ExplOk, kaodv_expl_update-ExplOk, kaodv_expl_del-ExplOk,
}
use embedded_systems_wireles.Kernel.Queue.{
  kaodv_queue_enqueue_packet, kaodv_queue_set_verdict, flush_queue, kaodv_queue_drop,
  kaodv_queue_send,
}
use embedded_systems_wireles.Kernel.Queue.Loops.{others, length-mine-others}
use embedded_systems_wireles.Kernel.Queue.Verdict.{
  QueueOk, QueueListOk, set_verdict_drop_lem, set_verdict_send_lem,
}

-- The routes and the queue are well-formed, and the counter of the routes has not passed `n`.
abbrev pub Kept : ℕ → Module → Type 0
Kept n k = ExplOk k × QueueOk k × (k.expl_len ≤ n)

pub if-Kept : (n : ℕ) (b : Bool) (x y : Module) → Kept n x → Kept n y → Kept n (if b then x else y)
if-Kept n true x y p q = p
if-Kept n false x y p q = q

pub add-queue_list :
    (os : Platform) (daddr nhop : ℕ) (time : ℤ) (flags ifindex : ℕ) (k : Module)
    → (kaodv_expl_add os daddr nhop time flags ifindex k).0.queue_list ≡ k.queue_list
unfolding kaodv_expl_add link_expl kaodv_expl_get
add-queue_list os daddr nhop time flags ifindex k =
    elim (Option-cases (find_expl daddr k.expl_list)) [
      | inr (r, f) ↦ rw (f, kaodv_expl_add) refl
      | inl f ↦
          rw (f, kaodv_expl_add)
            (elim (Bool-cases (leb expl_max_len k.expl_len)) [
              | inl b ↦ rw (b, link_expl) refl
              | inr b ↦ rw (b, link_expl) refl
            ])
    ]

pub add-QueueOk :
    (os : Platform) (daddr nhop : ℕ) (time : ℤ) (flags ifindex : ℕ) (k : Module)
    → QueueOk k
    → QueueOk (kaodv_expl_add os daddr nhop time flags ifindex k).0
unfolding kaodv_expl_add link_expl kaodv_expl_get
add-QueueOk os daddr nhop time flags ifindex k v =
    elim (Option-cases (find_expl daddr k.expl_list)) [
      | inr (r, f) ↦ rw (f, kaodv_expl_add) v
      | inl f ↦
          rw (f, kaodv_expl_add)
            (elim (Bool-cases (leb expl_max_len k.expl_len)) [
              | inl b ↦ rw (b, link_expl) v
              | inr b ↦ rw (b, link_expl) v
            ])
    ]

pub enqueue-Kept :
    (n : ℕ) (s : Skb) (k : Module) → Kept n k → Kept n (kaodv_queue_enqueue_packet s k).0
unfolding kaodv_queue_enqueue_packet
enqueue-Kept n s k v = elim (Bool-cases (leb k.queue_maxlen k.queue_total)) [
  | inl e ↦ rw e v
  | inr e ↦ rw e (
    v.0,
    record {
      counted =
          ground (arith, v.1.counted, v.1.bounded, v.1.ranged, length-append k.queue_list (s ∷ []));
      bounded = ground (arith, v.1.counted, length-append k.queue_list (s ∷ []));
      ranged = v.1.ranged;
    },
    v.2,
  )
]

others-QueueListOk :
    (a : ℕ) (k : Module)
    → QueueOk k
    → QueueListOk (others a k.queue_list) (length (others a k.queue_list)) k.queue_maxlen
others-QueueListOk a k v = record {
  counted = refl;
  bounded = omega (arith, v.bounded, length-mine-others a k.queue_list);
  ranged = v.ranged;
}

module _ (n : ℕ) (os : Platform) where
  pub drop_verdict-Kept :
      (a : ℕ) (k : Module) → Kept n k → Kept n (kaodv_queue_set_verdict os kaodv_queue_drop a k).0
  drop_verdict-Kept a k v =
      rw (set_verdict_drop_lem os a k v.1) (v.0, others-QueueListOk a k v.1, v.2)

  pub send_verdict-Kept :
      (a : ℕ) (k : Module) → Kept n k → Kept n (kaodv_queue_set_verdict os kaodv_queue_send a k).0
  send_verdict-Kept a k v =
      rw (set_verdict_send_lem os a k v.1) (v.0, others-QueueListOk a k v.1, v.2)

  -- Adding may raise the counter by one.
  pub add-Kept :
      (daddr nhop : ℕ) (time : ℤ) (flags ifindex : ℕ) (k : Module)
      → Kept n k
      → n < 2 ^ 32 - 1
      → Kept (n + 1) (kaodv_expl_add os daddr nhop time flags ifindex k).0
  unfolding kaodv_expl_add kaodv_expl_get
  add-Kept daddr nhop time flags ifindex k v h = (
    kaodv_expl_add-ExplOk os daddr nhop time flags ifindex k v.0 (omega (arith, v.2)),
    add-QueueOk os daddr nhop time flags ifindex k v.1,
    rest,
  )
    where
      rest : (kaodv_expl_add os daddr nhop time flags ifindex k).0.expl_len ≤ n + 1
      rest = elim (Option-cases (find_expl daddr k.expl_list)) [
        | inr (r, f) ↦ rw (f, kaodv_expl_add) (omega (arith, v.2))
        | inl f ↦
            rw (f, kaodv_expl_add)
              (elim (Bool-cases (leb expl_max_len k.expl_len)) [
                | inl b ↦ rw (b, link_expl) (omega (arith, v.2))
                | inr b ↦ rw (b, link_expl) (omega (arith, v.2))
              ])
      ]

  pub update-Kept :
      (daddr nhop : ℕ) (time : ℤ) (flags ifindex : ℕ) (k : Module)
      → Kept n k
      → Kept n (kaodv_expl_update os daddr nhop time flags ifindex k).0
  unfolding kaodv_expl_update kaodv_expl_get
  update-Kept daddr nhop time flags ifindex k v =
      let w = kaodv_expl_update-ExplOk os daddr nhop time flags ifindex k v.0 in
      elim (Option-cases (find_expl daddr k.expl_list)) [
        | inl f ↦ rw (f, kaodv_expl_update) v
        | inr (r, f) ↦ elim (Bool-cases (leb expl_max_len k.expl_len)) [
          | inl b ↦
              (w, rw (f, refresh_expl, b, link_expl) v.1, rw (f, refresh_expl, b, link_expl) v.2)
          | inr b ↦
              (w, rw (f, refresh_expl, b, link_expl) v.1, rw (f, refresh_expl, b, link_expl) v.2)
        ]
      ]

  pub delete-Kept : (daddr : ℕ) (k : Module) → Kept n k → Kept n (kaodv_expl_del daddr k).0
  unfolding kaodv_expl_del
  delete-Kept daddr k v =
      let w = kaodv_expl_del-ExplOk daddr k v.0 in
      elim (Option-cases (find_expl daddr k.expl_list)) [
        | inl f ↦ rw (f, kaodv_expl_del) v
        | inr (r, f) ↦ (
          w,
          rw (f, unlink_expl) v.1,
          rw (f, unlink_expl)
              (omega (arith, v.0.counted, v.0.ranged, v.2, length-drop_expl daddr k.expl_list r f)),
        )
      ]

pub flush_queue-Kept :
    (n : ℕ) (ss : List Skb) (k : Module)
    → ExplOk k
    → k.expl_len ≤ n
    → k.queue_total ≡ length ss
    → k.queue_maxlen < 2 ^ 32
    → length ss < 2 ^ 32
    → Kept n (flush_queue ss k)
unfolding flush_queue
flush_queue-Kept n [] k v l q m b =
    (v, record { counted = q; bounded = omega arith; ranged = m }, l)
flush_queue-Kept n (s ∷ ss) k v l q m b =
    flush_queue-Kept n ss (effect (freed s) (record k { queue_total = dec32 k.queue_total })) v l
      (omega arith) m (omega arith)
