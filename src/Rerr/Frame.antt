-- ===== src/Rerr/Frame.antt =====
-- What the reporting of lost routes leaves alone, and properties of both branches of a test.
use embedded_systems_wireles.Base.{
  ◌≡◌, refl, inl, inr, Bool, true, false, not, ◌&&◌, ◌==◌, if◌then◌else◌, Bool-cases, Option-cases,
}
use embedded_systems_wireles.Message.{rerr_calc_size, aodv_broadcast}
use embedded_systems_wireles.Table.{Rt, rt_table_find}
use embedded_systems_wireles.Daemon.{Daemon, ifindex2devindex}
use embedded_systems_wireles.Socket.{aodv_socket_send}
use embedded_systems_wireles.Socket.Frame.{if-table, send-table, for_all_devs-table}
use embedded_systems_wireles.Rerr.{
  Pending, report, rerr_create, broadcast_rerr, send_rerr, count_of,
}

pub report-table : (b : Bool) (r : Rt) (p : Pending × Daemon) → (report b r p).1.table ≡ p.1.table
unfolding report rerr_create
report-table b r p = elim (Bool-cases p.0.made) [ inl e ↦ rw e refl | inr e ↦ rw e refl ]

broadcast_rerr-table : (d : Daemon) → (broadcast_rerr d).table ≡ d.table
unfolding broadcast_rerr
broadcast_rerr-table d = elim (Bool-cases (count_of d.send_buf == 0)) [
  | inl e ↦ rw e refl
  | inr e ↦ rw e (
      for_all_devs-table
        (λ i x. aodv_socket_send aodv_broadcast (rerr_calc_size (count_of x.send_buf)) 1 i x) d
        (λ i x. send-table aodv_broadcast (rerr_calc_size (count_of x.send_buf)) 1 i x))
]

pub send_rerr-table : (p : Pending × Daemon) → (send_rerr p).table ≡ p.1.table
unfolding send_rerr
send_rerr-table (e, d) = elim (Bool-cases e.made) [
  | inr h ↦ rw h refl
  | inl h ↦ rw h (elim (Option-cases (rt_table_find e.unicast d.table)) [
    | inl n ↦ rw (n, send_rerr) (broadcast_rerr-table d)
    | inr (r, n) ↦
        rw (n, send_rerr)
          (if-table ((count_of d.send_buf == 1) && not (e.unicast == 0)) _ _ d
            (send-table e.unicast (rerr_calc_size (count_of d.send_buf)) 1
              (ifindex2devindex r.ifindex d.host) d)
            (broadcast_rerr-table d))
  ])
]

pub if-holds :
    (P : Daemon → Type 0) (b : Bool) (p q : Pending × Daemon)
    → P p.1
    → P q.1
    → P (if b then p else q).1
if-holds P true p q v w = v
if-holds P false p q v w = w

pub if-keeps : (P : Daemon → Type 0) (b : Bool) (x y : Daemon) → P x → P y → P (if b then x else y)
if-keeps P true x y v w = v
if-keeps P false x y v w = w
