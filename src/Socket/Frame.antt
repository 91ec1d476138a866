-- ===== src/Socket/Frame.antt =====
-- What sending leaves alone: every part of the state but the host's, the outputs and the rate limits.
use embedded_systems_wireles.Base.{
  ℕ, zero, suc, ◌+◌, ◌≡◌, refl, ◌∙◌, Bool, true, false, ◌&&◌, List, ◌==◌, if◌then◌else◌,
}
use embedded_systems_wireles.Time.{Timeval}
use embedded_systems_wireles.Message.{Msg, rreq, rrep, rerr, rrep_ack, empty, aodv_broadcast}
use embedded_systems_wireles.Table.{Table}
use embedded_systems_wireles.Daemon.{Daemon, Host, Output}
use embedded_systems_wireles.Socket.{
  transmit, limited, may_send, is_rrep, aodv_socket_send, for_devs, for_all_devs,
}

-- A part of the state that has nothing of what sending changes.
pub record Apart {A : Type 0} (part : Daemon → A) : Type 0 where
  pub host : (h : Host) (d : Daemon) → part (record d { host = h }) ≡ part d
  pub out : (os : List Output) (d : Daemon) → part (record d { out = os }) ≡ part d
  pub rreq_ratel : (ts : List Timeval) (d : Daemon) → part (record d { rreq_ratel = ts }) ≡ part d
  pub rerr_ratel : (ts : List Timeval) (d : Daemon) → part (record d { rerr_ratel = ts }) ≡ part d
  pub send_buf : (m : Msg) (d : Daemon) → part (record d { send_buf = m }) ≡ part d

module _ {A : Type 0} (part : Daemon → A) where
  pub if-part :
      (b : Bool) (x y d : Daemon)
      → part x ≡ part d
      → part y ≡ part d
      → part (if b then x else y) ≡ part d
  if-part true x y d p q = p
  if-part false x y d p q = q

module _ {A : Type 0} (part : Daemon → A) (K : Apart part) where
  transmit-part : (dst len ttl dev : ℕ) (d : Daemon) → part (transmit dst len ttl dev d) ≡ part d
  unfolding transmit
  transmit-part dst len ttl dev d =
      K.out _ _ ∙ if-part part (dst == aodv_broadcast) _ d d (K.host _ d) refl

  limited-part :
      (m : Msg) (dst len ttl dev : ℕ) (d : Daemon) → part (limited m dst len ttl dev d) ≡ part d
  unfolding limited
  limited-part (rreq m) dst len ttl dev d =
      if-part part (may_send d.now d.rreq_ratel) _ d d
        (transmit-part dst len ttl dev _ ∙ K.rreq_ratel _ d) refl
  limited-part (rerr m) dst len ttl dev d =
      if-part part (may_send d.now d.rerr_ratel) _ d d
        (transmit-part dst len ttl dev _ ∙ K.rerr_ratel _ d) refl
  limited-part (rrep m) dst len ttl dev d = transmit-part dst len ttl dev d
  limited-part rrep_ack dst len ttl dev d = transmit-part dst len ttl dev d
  limited-part empty dst len ttl dev d = transmit-part dst len ttl dev d

  pub send-part :
      (dst len ttl dev : ℕ) (d : Daemon) → part (aodv_socket_send dst len ttl dev d) ≡ part d
  unfolding aodv_socket_send
  send-part dst len ttl dev d = if-part part (d.wait_on_reboot && is_rrep d.send_buf) d _ d refl (
      if-part part d.cfg.ratelimit _ _ d (limited-part d.send_buf dst len ttl dev d)
        (transmit-part dst len ttl dev d))

module _ {A : Type 0} (part : Daemon → A) where
  for_devs-part :
      (n i : ℕ) (body : ℕ → Daemon → Daemon) (d : Daemon)
      → ((j : ℕ) (x : Daemon) → part (body j x) ≡ part x)
      → part (for_devs n i body d) ≡ part d
  unfolding for_devs
  for_devs-part zero i body d h = refl
  for_devs-part (suc n) i body d h =
      for_devs-part n (i + 1) body (if (d.host.devs i).enabled then body i d else d) h
      ∙ if-part part (d.host.devs i).enabled (body i d) d d (h i d) refl

  pub for_all_devs-part :
      (body : ℕ → Daemon → Daemon) (d : Daemon)
      → ((j : ℕ) (x : Daemon) → part (body j x) ≡ part x)
      → part (for_all_devs body d) ≡ part d
  unfolding for_all_devs
  for_all_devs-part body d h = for_devs-part _ 0 body d h

abbrev pub the_table : Daemon → Table
the_table d = d.table

pub table-Apart : Apart the_table
table-Apart = record {
  host = λ h d. refl;
  out = λ os d. refl;
  rreq_ratel = λ ts d. refl;
  rerr_ratel = λ ts d. refl;
  send_buf = λ m d. refl;
}

pub if-table :
    (b : Bool) (x y d : Daemon)
    → x.table ≡ d.table
    → y.table ≡ d.table
    → (if b then x else y).table ≡ d.table
if-table b x y d p q = if-part the_table b x y d p q

pub send-table :
    (dst len ttl dev : ℕ) (d : Daemon) → (aodv_socket_send dst len ttl dev d).table ≡ d.table
send-table dst len ttl dev d = send-part the_table table-Apart dst len ttl dev d

pub for_all_devs-table :
    (body : ℕ → Daemon → Daemon) (d : Daemon)
    → ((j : ℕ) (x : Daemon) → (body j x).table ≡ x.table)
    → (for_all_devs body d).table ≡ d.table
for_all_devs-table body d h = for_all_devs-part the_table body d h
