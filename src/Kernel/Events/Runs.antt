-- ===== src/Kernel/Events/Runs.antt =====
-- The routes and the queue of the module in every run, and a limit that nothing passes.
use embedded_systems_wireles.Base.{
  ℕ, ◌+◌, ◌-◌, ◌^◌, ◌≤◌, ◌<◌, ◌≡◌, refl, List, [], ◌∷◌, arith, length,
}
use embedded_systems_wireles.Kernel.{IfInfo, Platform, Module}
use embedded_systems_wireles.Kernel.Expl.{expl_max_len}
use embedded_systems_wireles.Kernel.Expl.Routes.{Ascending, Distinct}
use embedded_systems_wireles.Kernel.Events.{
  Event, packet, message, release, ticks, step, run, loaded,
}
use embedded_systems_wireles.Kernel.Hook.{kaodv_hook}
use embedded_systems_wireles.Kernel.Netlink.{kaodv_netlink_rcv_nl_event}
use embedded_systems_wireles.Kernel.Events.Bounds.{Kept}
use embedded_systems_wireles.Kernel.Events.Messages.{rcv_skb-Kept, release-Kept, grown}
use embedded_systems_wireles.Kernel.Events.Hooks.{kaodv_hook-Kept}

pub record WellFormed (k : Module) : Type 0 where
  pub ascending : Ascending 0 k.expl_list
  pub distinct : Distinct k.expl_list
  pub few : length k.expl_list ≤ expl_max_len
  pub counted : k.queue_total ≡ length k.queue_list
  pub waiting : length k.queue_list ≤ k.queue_maxlen

module _ (os : Platform) where
  step-Kept :
      (n : ℕ) (e : Event) (k : Module) → Kept n k → n < 2 ^ 32 - 1 → Kept (n + 1) (step os e k)
  unfolding step
  step-Kept n (packet hook s indev outdev) k v h =
      grown n os (kaodv_hook os hook s indev outdev k).0
        (kaodv_hook-Kept n os hook s indev outdev k v)
  step-Kept n (message nlh msg permitted skblen) k v h =
      rcv_skb-Kept n os nlh msg permitted skblen k v h
  step-Kept n (release pid) k v h =
      grown n os (kaodv_netlink_rcv_nl_event pid k) (release-Kept n os pid k v)
  step-Kept n (ticks j) k v h = grown n os k v

  pub run-Kept :
      (n : ℕ) (es : List Event) (k : Module)
      → Kept n k
      → n + length es < 2 ^ 32
      → Kept (n + length es) (run os es k)
  unfolding run
  run-Kept n [] k v h = (v.0, v.1, omega (arith, v.2))
  run-Kept n (e ∷ es) k v h =
      let w = run-Kept (n + 1) es (step os e k) (step-Kept n e k v (omega arith)) (omega arith) in
      (w.0, w.1, omega (arith, w.2))

  -- In a run of fewer than 2 ^ 32 events from the start of the module, packets at the hooks, messages,
  -- ends of processes and ticks in any order: the routes stand in the order in which they expire, one
  -- for each destination, at most 1024 of them; the counter of the queue is its length, which is
  -- within its bound.
  pub run_lem :
      (es : List Event) (now : ℕ) (is : List IfInfo)
      → length es < 2 ^ 32
      → WellFormed (run os es (loaded now is))
  run_lem es now is h =
      let w = run-Kept 0 es (loaded now is) start (omega arith) in
      record {
        ascending = w.0.ascending;
        distinct = w.0.distinct;
        few = w.0.bounded;
        counted = w.1.counted;
        waiting = w.1.bounded;
      }
    where
      start : Kept 0 (loaded now is)
      start = (
        record {
          ascending = unfold Ascending in tt;
          distinct = unfold Distinct in tt;
          counted = omega arith;
          bounded = omega arith;
          ranged = omega arith;
        },
        record { counted = refl; bounded = omega arith; ranged = omega arith },
        omega arith,
      )
