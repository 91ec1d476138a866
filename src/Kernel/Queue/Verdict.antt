-- ===== src/Kernel/Queue/Verdict.antt =====
-- The bound of the queue, and what a verdict does to it.

use embedded_systems_wireles.Base.{ℕ, suc, ◌+◌, ◌-◌, ◌^◌, ◌≤◌, ◌<◌, ◌≡◌, refl, List, arith, length}
use embedded_systems_wireles.Kernel.{Skb, Platform, Module}
use embedded_systems_wireles.Kernel.Expl.{kaodv_expl_get}
use embedded_systems_wireles.Kernel.Queue.{
  kaodv_queue_set_verdict, kaodv_queue_drop, kaodv_queue_send,
}
use embedded_systems_wireles.Kernel.Queue.Loops.{
  mine, others, dropped, passages, after, sent_count, drop_loop_lem, send_loop_lem,
  length-mine-others,
}

-- The counter is the length of the queue, which is within its bound.
pub record QueueListOk (ss : List Skb) (n bound : ℕ) : Type 0 where
  pub counted : n ≡ length ss
  pub bounded : length ss ≤ bound
  pub ranged : bound < 2 ^ 32

abbrev pub QueueOk : Module → Type 0
QueueOk k = QueueListOk k.queue_list k.queue_total k.queue_maxlen

module _ (os : Platform) (a : ℕ) (k : Module) where
  -- The verdict that drops a destination's packets takes exactly those out of the queue, frees each
  -- in order, reports the first one alone, and returns their number; nothing else changes.
  pub set_verdict_drop_lem :
      QueueOk k
      → kaodv_queue_set_verdict os kaodv_queue_drop a k ≡ (
        after k
            (others a k.queue_list)
            (length (others a k.queue_list))
            (dropped 0 (mine a k.queue_list)),
        length (mine a k.queue_list),
      )
  unfolding kaodv_queue_set_verdict
  set_verdict_drop_lem v =
      let ss = k.queue_list in
      let t : k.queue_total - length (mine a ss) ≡ length (others a ss) =
        omega (arith, v.counted, length-mine-others a ss) in
      let p : 0 + length (mine a ss) ≡ length (mine a ss) = omega arith in
      rw
        (
          drop_loop_lem (suc (length ss)) a 0 k (omega arith) (omega (arith, v.counted))
              (omega (arith, v.counted, v.bounded, v.ranged)),
          t,
          p,
        )
        refl

  -- The verdict that sends a destination's packets takes exactly those out of the queue, passes each
  -- on in order over the destination's route, or frees it if there is none; nothing else changes.
  pub set_verdict_send_lem :
      QueueOk k
      → kaodv_queue_set_verdict os kaodv_queue_send a k ≡ (
        after k
            (others a k.queue_list)
            (length (others a k.queue_list))
            (passages os (kaodv_expl_get a k) (mine a k.queue_list)),
        sent_count (kaodv_expl_get a k) (length (mine a k.queue_list)),
      )
  unfolding kaodv_queue_set_verdict
  set_verdict_send_lem v =
      let ss = k.queue_list in
      let t : k.queue_total - length (mine a ss) ≡ length (others a ss) =
        omega (arith, v.counted, length-mine-others a ss) in
      let c = sent_count (kaodv_expl_get a k) (length (mine a ss)) in
      let p : 0 + c ≡ c = omega arith in
      rw
        (
          send_loop_lem os (suc (length ss)) a 0 k (omega arith) (omega (arith, v.counted))
              (omega (arith, v.counted, v.bounded, v.ranged)),
          t,
          p,
        )
        refl
