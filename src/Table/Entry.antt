-- ===== src/Table/Entry.antt =====
-- Reading an entry through a pointer, and the walk over all entries.
use embedded_systems_wireles.Base.{
  ℕ, zero, suc, ◌+◌, ◌<◌, ◌≤◌, ◌≡◌, ◌≢◌, inl, inr, Bool, true, false, some, List, [], ◌∷◌, arith,
  All, ◌==◌, if◌then◌else◌, Bool-cases,
}
use embedded_systems_wireles.Table.{
  Rt, Table, hashing, has_dest, find_in, modify, entry, dests, dests_from, all_dests, rt_tablesize,
  is_valid,
}
use embedded_systems_wireles.Table.Invariant.{Placed, TableOk, Keeps, Present, hashing-lt}
use embedded_systems_wireles.Table.Map.{find_in-modify_in, has_dest-find_in}

pub find_in-some :
    (a i : ℕ) (b : List Rt)
    → All (Placed i) b
    → has_dest a b ≡ true
    → (r : Rt) × (find_in a b ≡ some r) × (r.dest_addr ≡ a)
unfolding has_dest find_in
find_in-some a i [] p h = cc
find_in-some a i (rt ∷ rts) p h = elim (Bool-cases (rt.dest_addr == a)) [
  | inl e ↦ (rt, ground arith, ground arith)
  | inr e ↦ let (r, f, d) = find_in-some a i rts p.1 (rw e at h) in (r, ground (arith, f), d)
]

-- The pointer to an entry points to the entry of its destination.
pub entry-dest_addr : (a : ℕ) (t : Table) → TableOk t → Present t a → (entry a t).dest_addr ≡ a
unfolding entry
entry-dest_addr a t v h =
    let (r, f, d) = find_in-some a (hashing a) (t.tbl (hashing a)) (v.placed _) h in rw f d

-- A write through a pointer is read back through it.
pub entry-modify_self :
    (a : ℕ) (f : Rt → Rt) (t : Table)
    → TableOk t
    → Keeps f
    → Present t a
    → entry a (modify a f t) ≡ f (entry a t)
unfolding entry modify
entry-modify_self a f t v k h =
    let (r, e, d) = find_in-some a (hashing a) (t.tbl (hashing a)) (v.placed _) h in
    let self : (hashing a == hashing a) ≡ true = ground arith in
    rw self
      (ground (arith, e, find_in-modify_in a a (hashing a) f (t.tbl (hashing a)) k (v.placed _)))

-- A write through a pointer changes no other entry.
pub entry-modify_ne :
    (a c : ℕ) (f : Rt → Rt) (t : Table)
    → TableOk t
    → Keeps f
    → c ≢ a
    → entry c (modify a f t) ≡ entry c t
unfolding entry modify
entry-modify_ne a c f t v k ne = elim (Bool-cases (hashing c == hashing a)) [
  | inl e ↦ rw e (
      let eq : hashing c ≡ hashing a = ground arith in
      rw eq
        (ground (arith, find_in-modify_in a c (hashing a) f (t.tbl (hashing a)) k (v.placed _))))
  | inr e ↦ rw e
]

abbrev pub in_list : ℕ → List ℕ → Bool
in_list a [] = false
in_list a (x ∷ xs) = if x == a then true else in_list a xs

dests_more :
    (a : ℕ) (b : List Rt) (more : List ℕ) → in_list a more ≡ true → in_list a (dests b more) ≡ true
unfolding dests
dests_more a [] more h = h
dests_more a (rt ∷ rts) more h = ground (arith, dests_more a rts more h)

dests_here :
    (a : ℕ) (b : List Rt) (more : List ℕ) → has_dest a b ≡ true → in_list a (dests b more) ≡ true
unfolding dests has_dest
dests_here a [] more h = cc
dests_here a (rt ∷ rts) more h = ground (arith, dests_here a rts more)

dests_from_in :
    (n from a : ℕ) (t : Table)
    → from ≤ hashing a
    → hashing a < from + n
    → Present t a
    → in_list a (dests_from n from t) ≡ true
unfolding dests_from
dests_from_in zero from a t lo hi h = absurd (omega arith)
dests_from_in (suc n) from a t lo hi h = elim (Bool-cases (from == hashing a)) [
  | inl e ↦ let eq : from ≡ hashing a = ground arith in dests_here a (t.tbl from) _ (rw eq h)
  | inr e ↦
      dests_more a (t.tbl from) _ (dests_from_in n (from + 1) a t (ground arith) (omega arith) h)
]

-- The walk over all buckets comes to every destination.
pub all_dests_in : (a : ℕ) (t : Table) → Present t a → in_list a (all_dests t) ≡ true
unfolding all_dests
all_dests_in a t h = dests_from_in rt_tablesize 0 a t (omega arith) (hashing-lt a) h

-- A valid entry is one of the table.
pub valid_Present :
    (a : ℕ) (t : Table) → TableOk t → is_valid (entry a t).state ≡ true → Present t a
unfolding entry
valid_Present a t v h = elim (Bool-cases (has_dest a (t.tbl (hashing a)))) [
  | inl e ↦ e
  | inr e ↦
      absurd (ground (arith, has_dest-find_in a (hashing a) (t.tbl (hashing a)) (v.placed _) e))
]
