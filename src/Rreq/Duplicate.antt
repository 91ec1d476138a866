-- ===== src/Rreq/Duplicate.antt =====
-- A request is processed once.
use embedded_systems_wireles.Base.{ℕ, ◌≡◌, inl, inr, true, false, arith, Bool-cases}
use embedded_systems_wireles.Message.{Rreq}
use embedded_systems_wireles.Daemon.{Daemon}
use embedded_systems_wireles.Rreq.{rreq_record_find, ignored, rreq_process}
use embedded_systems_wireles.Sane.{Sane, Track}
use embedded_systems_wireles.Sane.Requests.{rreq_process-Sane, recorded}

recorded_found :
    (m : Rreq) (tr : Track) → rreq_record_find m.orig_addr m.rreq_id (recorded m tr).records ≡ true
unfolding rreq_record_find
recorded_found m tr = elim (Bool-cases (rreq_record_find m.orig_addr m.rreq_id tr.records)) [
  | inl e ↦ rw e e
  | inr e ↦ rw e (ground arith)
]

-- Once a request has been processed, rreq_process does nothing on any other copy of it (same
-- originator and id), whichever neighbour and device it comes over, and with whatever hop count,
-- TTL, length and other fields.
pub rreq_process_once :
    (tr : Track) (m copy : Rreq) (len len' src src' ttl ttl' ifindex ifindex' : ℕ) (d : Daemon)
    → Sane tr d
    → ignored m len src ifindex d ≡ false
    → copy.orig_addr ≡ m.orig_addr
    → copy.rreq_id ≡ m.rreq_id
    → let d' = rreq_process m len src ttl ifindex d in
      rreq_process copy len' src' ttl' ifindex' d' ≡ d'
rreq_process_once tr m copy len len' src src' ttl ttl' ifindex ifindex' d v fresh eo ei =
    let d' = rreq_process m len src ttl ifindex d in
    let w = rreq_process-Sane tr m len src ttl ifindex d v in
    let records = (rw fresh at w).1 in
    let found : rreq_record_find copy.orig_addr copy.rreq_id d'.rreq_records ≡ true =
      rw (records, eo, ei) (recorded_found m tr) in
    unfold rreq_process ignored in ground (arith, found)
