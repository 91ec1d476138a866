-- ===== src/Table/Map.antt =====
-- The table as a finite map from destinations to entries, and the precursor lists.
use mathlib.Core.Option
use embedded_systems_wireles.Base.{
  ℕ, ◌≤◌, ◌≡◌, refl, inl, inr, ◌∙◌, true, false, ◌||◌, none, some, List, [], ◌∷◌, arith, All,
  length, ◌==◌, if◌then◌else◌, update, Bool-cases,
}
use embedded_systems_wireles.Table.{
  Rt, Table, hashing, has_dest, find_in, modify_in, link, unlink, remove_in, rt_table_find,
  has_precursor, precursor_add, rt_tablesize,
}
use embedded_systems_wireles.Table.Invariant.{
  Placed, DistinctDests, TableOk, Keeps, unlink-TableOk, total-ge, hashing-lt,
}

-- The entry of a destination in its bucket; what the empty table's shortcut leaves out is nothing.
pub rt_table_find-find_in :
    (a : ℕ) (t : Table) → TableOk t → rt_table_find a t ≡ find_in a (t.tbl (hashing a))
unfolding rt_table_find
rt_table_find-find_in a t v = elim (Bool-cases (t.num_entries == 0)) [
  | inl e ↦ rw e (
      empty_bucket (t.tbl (hashing a))
        (ground (arith, v.counted, total-ge rt_tablesize (hashing a) t.tbl (hashing-lt a))))
  | inr e ↦ rw e
]
  where
    empty_bucket : (b : List Rt) → length b ≤ 0 → none ≡ find_in a b
    empty_bucket [] h = unfold find_in in refl
    empty_bucket (x ∷ xs) h = absurd (omega arith)

pub has_dest-find_in :
    (a i : ℕ) (b : List Rt) → All (Placed i) b → has_dest a b ≡ false → find_in a b ≡ none
unfolding has_dest find_in
has_dest-find_in a i [] p h = refl
has_dest-find_in a i (rt ∷ rts) p h = ground (arith, has_dest-find_in a i rts p.1)

pub find_in-modify_in :
    (a c i : ℕ) (f : Rt → Rt) (b : List Rt)
    → Keeps f
    → All (Placed i) b
    → find_in c (modify_in a f b) ≡ (if a == c then Option.map f (find_in c b) else find_in c b)
unfolding find_in modify_in
find_in-modify_in a c i f [] k p = ground arith
find_in-modify_in a c i f (rt ∷ rts) k p = ground (arith, k rt, find_in-modify_in a c i f rts k p.1)

find_in-remove_in :
    (a c i : ℕ) (b : List Rt)
    → All (Placed i) b
    → DistinctDests b
    → find_in c (remove_in a b) ≡ (if a == c then none else find_in c b)
unfolding find_in remove_in
find_in-remove_in a c i [] p d = ground arith
find_in-remove_in a c i (rt ∷ rts) p d =
    ground (arith, find_in-remove_in a c i rts p.1 d.1, has_dest-find_in c i rts p.1)

-- After an entry with a new destination is linked into the bucket of a well-formed table, looking its
-- destination up finds it, and every other look-up gives what it gave before.
pub rt_table_find-link :
    (rt : Rt) (c : ℕ) (t : Table)
    → TableOk t
    → has_dest rt.dest_addr (t.tbl (hashing rt.dest_addr)) ≡ false
    → rt.hash ≡ rt.dest_addr
    → rt_table_find c (link rt t) ≡ (if rt.dest_addr == c then some rt else rt_table_find c t)
unfolding link
rt_table_find-link rt c t v h hash =
    ground (arith, rt_table_find-find_in c t v, find_bucket, counted_up)
  where
    counted_up :
        rt_table_find c (link rt t)
        ≡ find_in c
            (update t.tbl (hashing rt.dest_addr) (rt ∷ t.tbl (hashing rt.dest_addr)) (hashing c))
    counted_up = unfold rt_table_find in ground arith

    find_bucket :
        find_in c
          (update t.tbl (hashing rt.dest_addr) (rt ∷ t.tbl (hashing rt.dest_addr)) (hashing c))
        ≡ (if rt.dest_addr == c then some rt else find_in c (t.tbl (hashing c)))
    find_bucket = elim (Bool-cases (hashing c == hashing rt.dest_addr)) [
      | inl e ↦ rw e (
          let eq : hashing c ≡ hashing rt.dest_addr = ground arith in
          rw eq (unfold find_in in ground arith))
      | inr e ↦ rw e (ground arith)
    ]

-- After an entry is taken out of a well-formed table, its destination is not found, and every other
-- look-up gives what it gave before.
pub rt_table_find-unlink :
    (a c : ℕ) (t : Table)
    → TableOk t
    → has_dest a (t.tbl (hashing a)) ≡ true
    → rt_table_find c (unlink a t) ≡ (if a == c then none else rt_table_find c t)
rt_table_find-unlink a c t v h =
    rt_table_find-find_in c (unlink a t) (unlink-TableOk a t v h)
    ∙ ground (arith, rt_table_find-find_in c t v, find_bucket)
  where
    find_bucket :
        find_in c ((unlink a t).tbl (hashing c))
        ≡ (if a == c then none else find_in c (t.tbl (hashing c)))
    find_bucket = elim (Bool-cases (hashing c == hashing a)) [
      | inl e ↦
          unfold unlink in
          rw e (
            let eq : hashing c ≡ hashing a = ground arith in
            rw eq
              (find_in-remove_in a c (hashing a) (t.tbl (hashing a)) (v.placed _) (v.distinct _)))
      | inr e ↦ unfold unlink in rw e (ground arith)
    ]

-- No neighbour twice.
abbrev pub DistinctPrecs : List ℕ → Type 0
DistinctPrecs [] = Unit {0}
DistinctPrecs (p ∷ ps) = (has_precursor p ps ≡ false) × DistinctPrecs ps

-- precursor_add makes the neighbour a precursor, keeps the others, keeps the list free of
-- duplicates, and nprec the list's length.
pub precursor_add_lem :
    (a c : ℕ) (rt : Rt)
    → DistinctPrecs rt.precursors
    → rt.nprec ≡ length rt.precursors
    → let r = precursor_add a rt in
      (has_precursor c r.precursors ≡ ((a == c) || has_precursor c rt.precursors))
      × DistinctPrecs r.precursors
      × (r.nprec ≡ length r.precursors)
unfolding precursor_add has_precursor
precursor_add_lem a c rt d n = elim (Bool-cases (has_precursor a rt.precursors)) [
  | inl e ↦ rw e (ground arith, d, n)
  | inr e ↦ rw e (ground arith, (e, d), omega arith)
]
