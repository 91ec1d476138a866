-- ===== src/Kernel/Expl.antt =====
-- kernel/kaodv-expl.c without EXPL_TIMER: the list of routes that expire.
pub mod Routes
pub mod Invariant
use embedded_systems_wireles.Base.{
  ℕ, zero, ◌+◌, ◌*◌, ◌/◌, ◌%◌, ◌^◌, Option, none, some, List, [], ◌∷◌, ℤ, pos, negsuc, is_some, ltb,
  leb, ◌==◌, if◌then◌else◌,
}
use embedded_systems_wireles.Kernel.{ExplEntry, Platform, Module, inc32, dec32, to_u64, enospc, err}

abbrev pub expl_max_len : ℕ
expl_max_len = 1024

-- The entry before the first one that expires later.
unfoldable pub place : ExplEntry → List ExplEntry → List ExplEntry
place e [] = e ∷ []
place e (curr ∷ es) = if ltb e.expires curr.expires then e ∷ curr ∷ es else curr ∷ place e es

-- __kaodv_expl_add, which leaves the counter to its callers.
unfoldable pub link_expl : ExplEntry → Module → Module × ℤ
unfolding place
link_expl e k =
    if leb expl_max_len k.expl_len
    then (k, err enospc)
    else (record k { expl_list = place e k.expl_list }, pos 1)

-- __kaodv_expl_find.
unfoldable pub find_expl : ℕ → List ExplEntry → Option ExplEntry
find_expl daddr [] = none
find_expl daddr (e ∷ es) = if e.daddr == daddr then some e else find_expl daddr es

-- list_del of the entry that find_expl finds.
unfoldable pub drop_expl : ℕ → List ExplEntry → List ExplEntry
drop_expl daddr [] = []
drop_expl daddr (e ∷ es) = if e.daddr == daddr then es else e ∷ drop_expl daddr es

unfoldable pub kaodv_expl_get : ℕ → Module → Option ExplEntry
unfolding find_expl
kaodv_expl_get daddr k = find_expl daddr k.expl_list

unfoldable pub unlink_expl : Option ExplEntry → ℕ → Module → Module × ℤ
unfolding drop_expl
unlink_expl none daddr k = (k, pos 0)
unlink_expl (some e) daddr k =
    (record k { expl_list = drop_expl daddr k.expl_list; expl_len = dec32 k.expl_len }, pos 1)

unfoldable pub kaodv_expl_del : ℕ → Module → Module × ℤ
unfolding find_expl unlink_expl
kaodv_expl_del daddr k = unlink_expl (find_expl daddr k.expl_list) daddr k

-- jiffies + (time * HZ) / 1000, in unsigned long.
unfoldable pub expiry : Platform → ℤ → Module → ℕ
expiry os time k = (k.jiffies + to_u64 time * os.hz % 2 ^ 64 / 1000) % 2 ^ 64

-- The counter after a call of link_expl that returned something else than 0.
abbrev pub count_expl : Module × ℤ → Module × ℤ
count_expl (k, pos zero) = (k, pos 0)
count_expl (k, status) = (record k { expl_len = inc32 k.expl_len }, status)

unfoldable pub kaodv_expl_add : Platform → ℕ → ℕ → ℤ → ℕ → ℕ → Module → Module × ℤ
unfolding kaodv_expl_get link_expl expiry
kaodv_expl_add os daddr nhop time flags ifindex k =
    if is_some (kaodv_expl_get daddr k)
    then (k, pos 0)
    else count_expl (
        link_expl
          (record {
            expires = expiry os time k;
            flags = flags;
            daddr = daddr;
            nhop = nhop;
            ifindex = ifindex;
          })
          k)

-- The entry as it is written, and moved to its place.
unfoldable pub refresh_expl : Platform → Option ExplEntry → ℕ → ℤ → ℕ → ℕ → Module → Module × ℤ
unfolding drop_expl link_expl expiry
refresh_expl os none nhop time flags ifindex k = (k, negsuc 0)
refresh_expl os (some e) nhop time flags ifindex k = (
  (link_expl
      (record {
        expires = expiry os time k;
        flags = flags;
        daddr = e.daddr;
        nhop = nhop;
        ifindex = ifindex;
      })
      (record k { expl_list = drop_expl e.daddr k.expl_list })).0,
  pos 0,
)

unfoldable pub kaodv_expl_update : Platform → ℕ → ℕ → ℤ → ℕ → ℕ → Module → Module × ℤ
unfolding find_expl refresh_expl
kaodv_expl_update os daddr nhop time flags ifindex k =
    refresh_expl os (find_expl daddr k.expl_list) nhop time flags ifindex k

-- __kaodv_expl_flush: the entries go one by one, each with a decrement.
unfoldable pub flush_from : List ExplEntry → ℕ → ℕ
flush_from [] n = n
flush_from (e ∷ es) n = flush_from es (dec32 n)

unfoldable pub kaodv_expl_flush : Module → Module
unfolding flush_from
kaodv_expl_flush k = record k { expl_list = []; expl_len = flush_from k.expl_list k.expl_len }
