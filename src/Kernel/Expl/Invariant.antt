-- ===== src/Kernel/Expl/Invariant.antt =====
-- What the operations of the list of routes keep, and what they do to the route of each destination.
use embedded_systems_wireles.Base.{
  ℕ, ◌-◌, ◌^◌, ◌≤◌, ◌<◌, ◌≡◌, inl, inr, not, ◌&&◌, none, some, List, [], ◌∷◌, arith, ℤ, length, ltb,
  leb, ◌==◌, if◌then◌else◌, is_some, Bool-cases, Option-cases,
}
use embedded_systems_wireles.Kernel.{ExplEntry, Platform, Module, dec32}
use embedded_systems_wireles.Kernel.Expl.{
  link_expl, find_expl, drop_expl, expl_max_len, kaodv_expl_get, kaodv_expl_del, unlink_expl,
  expiry, kaodv_expl_add, refresh_expl, kaodv_expl_update, flush_from, kaodv_expl_flush,
}
use embedded_systems_wireles.Kernel.Expl.Routes.{
  Ascending, Distinct, place-Ascending, length-place, find_expl-place, place-Distinct,
  find_expl-drop_expl, drop_expl-Distinct, drop_expl-Ascending, length-drop_expl, find_expl-daddr,
}

-- The routes stand in the order in which they expire, one for each destination; there are at most
-- EXPL_MAX_LEN, and no more than the counter says.
pub record ExplListOk (es : List ExplEntry) (n : ℕ) : Type 0 where
  pub ascending : Ascending 0 es
  pub distinct : Distinct es
  pub counted : length es ≤ n
  pub bounded : length es ≤ expl_max_len
  pub ranged : n < 2 ^ 32

abbrev pub ExplOk : Module → Type 0
ExplOk k = ExplListOk k.expl_list k.expl_len

-- The route that kaodv_expl_add writes.
abbrev pub new_route : Platform → ℕ → ℕ → ℤ → ℕ → ℕ → Module → ExplEntry
new_route os daddr nhop time flags ifindex k = record {
  expires = expiry os time k;
  flags = flags;
  daddr = daddr;
  nhop = nhop;
  ifindex = ifindex;
}

module _ (os : Platform) (daddr nhop : ℕ) (time : ℤ) (flags ifindex : ℕ) (k : Module) where
  -- kaodv_expl_add keeps the routes in order, one for each destination, within the bound and the
  -- counter, as long as the counter does not wrap.
  pub kaodv_expl_add-ExplOk :
      ExplOk k
      → k.expl_len < 2 ^ 32 - 1
      → ExplOk (kaodv_expl_add os daddr nhop time flags ifindex k).0
  unfolding kaodv_expl_add link_expl kaodv_expl_get
  kaodv_expl_add-ExplOk v h =
      let e = new_route os daddr nhop time flags ifindex k in
      elim (Option-cases (find_expl daddr k.expl_list)) [
        | inr (r, f) ↦ rw (f, kaodv_expl_add) v
        | inl f ↦
            rw (f, kaodv_expl_add)
              (elim (Bool-cases (leb expl_max_len k.expl_len)) [
                | inl b ↦
                    rw (b, link_expl)
                      record {
                        ascending = v.ascending;
                        distinct = v.distinct;
                        counted = omega (arith, v.counted);
                        bounded = v.bounded;
                        ranged = omega arith;
                      }
                | inr b ↦
                    rw (b, link_expl)
                      record {
                        ascending = place-Ascending 0 e k.expl_list (omega arith) v.ascending;
                        distinct = place-Distinct e k.expl_list f v.distinct;
                        counted = omega (arith, v.counted, length-place e k.expl_list);
                        bounded = ground (arith, v.counted, length-place e k.expl_list);
                        ranged = omega arith;
                      }
              ])
      ]

  -- kaodv_expl_add gives the destination the new route if it had none and there is room; a route
  -- that is there stays as it is, and so does every other one.
  pub kaodv_expl_get-add :
      (a : ℕ)
      → kaodv_expl_get a (kaodv_expl_add os daddr nhop time flags ifindex k).0 ≡ (
          if (daddr == a) && not (is_some (kaodv_expl_get daddr k)) && ltb k.expl_len expl_max_len
          then some (new_route os daddr nhop time flags ifindex k)
          else kaodv_expl_get a k)
  unfolding kaodv_expl_add link_expl kaodv_expl_get
  kaodv_expl_get-add a =
      let e = new_route os daddr nhop time flags ifindex k in
      elim (Option-cases (find_expl daddr k.expl_list)) [
        | inr (r, f) ↦ rw (f, kaodv_expl_add) (ground arith)
        | inl f ↦
            rw (f, kaodv_expl_add)
              (elim (Bool-cases (leb expl_max_len k.expl_len)) [
                | inl b ↦ rw (b, link_expl) (ground arith)
                | inr b ↦ rw (b, link_expl) (ground (arith, find_expl-place a e k.expl_list f))
              ])
      ]

  -- kaodv_expl_update keeps the same invariant; the entry moves to its place.
  pub kaodv_expl_update-ExplOk :
      ExplOk k → ExplOk (kaodv_expl_update os daddr nhop time flags ifindex k).0
  unfolding kaodv_expl_update refresh_expl link_expl
  kaodv_expl_update-ExplOk v =
      let e = new_route os daddr nhop time flags ifindex k in
      let rest = drop_expl daddr k.expl_list in
      elim (Option-cases (find_expl daddr k.expl_list)) [
        | inl f ↦ rw (f, kaodv_expl_update) v
        | inr (r, f) ↦
            rw (f, kaodv_expl_update, find_expl-daddr daddr k.expl_list r f, refresh_expl)
              (elim (Bool-cases (leb expl_max_len k.expl_len)) [
                | inl b ↦
                    rw (b, link_expl)
                      record {
                        ascending = drop_expl-Ascending 0 daddr k.expl_list v.ascending;
                        distinct = drop_expl-Distinct daddr k.expl_list v.distinct;
                        counted = omega (arith, v.counted, length-drop_expl daddr k.expl_list r f);
                        bounded = omega (arith, v.bounded, length-drop_expl daddr k.expl_list r f);
                        ranged = v.ranged;
                      }
                | inr b ↦
                    rw (b, link_expl)
                      record {
                        ascending =
                            place-Ascending 0 e rest (omega arith)
                              (drop_expl-Ascending 0 daddr k.expl_list v.ascending);
                        distinct =
                            place-Distinct e rest
                              (ground
                                (arith, find_expl-drop_expl daddr daddr k.expl_list v.distinct))
                              (drop_expl-Distinct daddr k.expl_list v.distinct);
                        counted = omega (
                          arith,
                          v.counted,
                          length-place e rest,
                          length-drop_expl daddr k.expl_list r f,
                        );
                        bounded = omega (
                          arith,
                          v.bounded,
                          length-place e rest,
                          length-drop_expl daddr k.expl_list r f,
                        );
                        ranged = v.ranged;
                      }
              ])
      ]

  -- kaodv_expl_update rewrites the destination's route, if it has one and the list is not full; of a
  -- full list the route is lost. Every other route stays.
  pub kaodv_expl_get-update :
      (a : ℕ)
      → ExplOk k
      → kaodv_expl_get a (kaodv_expl_update os daddr nhop time flags ifindex k).0 ≡ (
          if (daddr == a) && is_some (kaodv_expl_get daddr k)
          then if ltb k.expl_len expl_max_len
            then some (new_route os daddr nhop time flags ifindex k)
            else none
          else kaodv_expl_get a k)
  unfolding kaodv_expl_update refresh_expl link_expl kaodv_expl_get
  kaodv_expl_get-update a v =
      let e = new_route os daddr nhop time flags ifindex k in
      let gone = find_expl-drop_expl a daddr k.expl_list v.distinct in
      let self = find_expl-drop_expl daddr daddr k.expl_list v.distinct in
      elim (Option-cases (find_expl daddr k.expl_list)) [
        | inl f ↦ rw (f, kaodv_expl_update) (ground arith)
        | inr (r, f) ↦
            rw (f, kaodv_expl_update, find_expl-daddr daddr k.expl_list r f, refresh_expl)
              (elim (Bool-cases (leb expl_max_len k.expl_len)) [
                | inl b ↦ rw (b, link_expl) (ground arith)
                | inr b ↦
                    rw (b, link_expl)
                      (ground (arith, find_expl-place a e (drop_expl daddr k.expl_list)))
              ])
      ]

-- kaodv_expl_del keeps the invariant, and returns 1 only if it took an entry away.
pub kaodv_expl_del-ExplOk : (daddr : ℕ) (k : Module) → ExplOk k → ExplOk (kaodv_expl_del daddr k).0
unfolding kaodv_expl_del unlink_expl
kaodv_expl_del-ExplOk daddr k v = elim (Option-cases (find_expl daddr k.expl_list)) [
  | inl f ↦ rw (f, kaodv_expl_del) v
  | inr (r, f) ↦
      rw (f, kaodv_expl_del, unlink_expl)
        record {
          ascending = drop_expl-Ascending 0 daddr k.expl_list v.ascending;
          distinct = drop_expl-Distinct daddr k.expl_list v.distinct;
          counted = omega (arith, v.counted, v.ranged, length-drop_expl daddr k.expl_list r f);
          bounded = omega (arith, v.bounded, length-drop_expl daddr k.expl_list r f);
          ranged = omega arith;
        }
]

-- Afterwards the destination has no route, and every other one its own.
pub kaodv_expl_get-del :
    (a daddr : ℕ) (k : Module)
    → ExplOk k
    → kaodv_expl_get a (kaodv_expl_del daddr k).0
      ≡ (if a == daddr then none else kaodv_expl_get a k)
unfolding kaodv_expl_del unlink_expl kaodv_expl_get
kaodv_expl_get-del a daddr k v = elim (Option-cases (find_expl daddr k.expl_list)) [
  | inl f ↦ rw (f, kaodv_expl_del) (ground arith)
  | inr (r, f) ↦
      rw (f, kaodv_expl_del, unlink_expl) (find_expl-drop_expl a daddr k.expl_list v.distinct)
]

pub flush_from_lem :
    (es : List ExplEntry) (n : ℕ) → length es ≤ n → n < 2 ^ 32 → flush_from es n ≡ n - length es
unfolding flush_from
flush_from_lem [] n h r = omega arith
flush_from_lem (e ∷ es) n h r =
    omega (arith, flush_from_lem es (dec32 n) (omega arith) (omega arith))

-- kaodv_expl_flush leaves no route; a counter that was too large stays so.
pub kaodv_expl_flush-ExplOk : (k : Module) → ExplOk k → ExplOk (kaodv_expl_flush k)
unfolding kaodv_expl_flush
kaodv_expl_flush-ExplOk k v = record {
  ascending = unfold Ascending in tt;
  distinct = unfold Distinct in tt;
  counted = omega arith;
  bounded = omega arith;
  ranged = omega (arith, v.ranged, flush_from_lem k.expl_list k.expl_len v.counted v.ranged);
}
