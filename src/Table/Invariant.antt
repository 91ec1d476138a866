-- ===== src/Table/Invariant.antt =====
-- The well-formed routing table: every entry in the bucket of its hash, one entry for a destination, and
-- counters that count.
use embedded_systems_wireles.Base.{
  ℕ, zero, suc, ◌+◌, ◌≤◌, ◌<◌, ◌≡◌, refl, ap, inl, inr, true, false, List, [], ◌∷◌, arith, All,
  length, ltb, ◌==◌, if◌then◌else◌, update, Bool-cases,
}
use embedded_systems_wireles.Table.{
  Rt, Table, hashing, has_dest, modify_in, modify, link, unlink, remove_in, rt_table_init,
  rt_tablesize,
}

-- An entry of bucket `i`.
abbrev pub Placed : ℕ → Rt → Type 0
Placed i rt =
    (hashing rt.dest_addr ≡ i) × (rt.hash ≡ rt.dest_addr) × (rt.nprec ≡ length rt.precursors)

abbrev pub DistinctDests : List Rt → Type 0
DistinctDests [] = Unit {0}
DistinctDests (rt ∷ rts) = (has_dest rt.dest_addr rts ≡ false) × DistinctDests rts

-- The entries of the buckets below `n`.
pub total : ℕ → (ℕ → List Rt) → ℕ
total zero f = 0
total (suc n) f = length (f n) + total n f

pub record TableOk (t : Table) : Type 0 where
  pub placed : (i : ℕ) → All (Placed i) (t.tbl i)
  pub distinct : (i : ℕ) → DistinctDests (t.tbl i)
  pub counted : t.num_entries ≡ total rt_tablesize t.tbl

-- What a write to an entry may change.
abbrev pub Keeps : (Rt → Rt) → Type 0
Keeps f =
    (r : Rt)
    → ((f r).dest_addr ≡ r.dest_addr)
      × ((f r).hash ≡ r.hash)
      × (r.nprec ≡ length r.precursors → (f r).nprec ≡ length (f r).precursors)

pub total-update :
    (n k : ℕ) (f : ℕ → List Rt) (b : List Rt)
    → total n (update f k b) + (if ltb k n then length (f k) else 0)
      ≡ total n f + (if ltb k n then length b else 0)
unfolding total
total-update zero k f b = ground arith
total-update (suc n) k f b = ground (arith, total-update n k f b)

pub hashing-lt : (a : ℕ) → hashing a < rt_tablesize
hashing-lt a = omega arith

pub rt_table_init-TableOk : TableOk rt_table_init
unfolding rt_table_init total
rt_table_init-TableOk = record { placed = λ i. tt; distinct = λ i. tt; counted = refl }

-- A bucket's part of the table changes.
set_bucket-TableOk :
    (t : Table) (k n : ℕ) (b : List Rt)
    → TableOk t
    → k < rt_tablesize
    → All (Placed k) b
    → DistinctDests b
    → n + length (t.tbl k) ≡ t.num_entries + length b
    → TableOk (record t { num_entries = n; tbl = update t.tbl k b })
set_bucket-TableOk t k n b v lt p d e = record {
  placed = λ i. elim (Bool-cases (i == k)) [
    | inl same ↦ rw same (let eq : i ≡ k = ground arith in rw eq p)
    | inr other ↦ rw other (v.placed i)
  ];
  distinct = λ i. elim (Bool-cases (i == k)) [
    | inl same ↦ rw same d
    | inr other ↦ rw other (v.distinct i)
  ];
  counted = ground (arith, total-update rt_tablesize k t.tbl b, v.counted);
}

-- A new first entry of its bucket, with a destination that the bucket lacks.
pub link-TableOk :
    (rt : Rt) (t : Table)
    → TableOk t
    → has_dest rt.dest_addr (t.tbl (hashing rt.dest_addr)) ≡ false
    → rt.hash ≡ rt.dest_addr
    → rt.nprec ≡ length rt.precursors
    → TableOk (link rt t)
unfolding link
link-TableOk rt t v h hash prec =
    set_bucket-TableOk t (hashing rt.dest_addr) _ _ v (hashing-lt rt.dest_addr)
      ((refl, hash, prec), v.placed _) (h, v.distinct _) (omega arith)

modify_in-Placed :
    (a i : ℕ) (f : Rt → Rt) (b : List Rt)
    → Keeps f
    → All (Placed i) b
    → All (Placed i) (modify_in a f b)
unfolding modify_in
modify_in-Placed a i f [] k p = tt
modify_in-Placed a i f (rt ∷ rts) k p = ground (arith, k rt, modify_in-Placed a i f rts k p.1)

pub has_dest-modify_in :
    (a c : ℕ) (f : Rt → Rt) (b : List Rt) → Keeps f → has_dest c (modify_in a f b) ≡ has_dest c b
unfolding modify_in has_dest
has_dest-modify_in a c f [] k = refl
has_dest-modify_in a c f (rt ∷ rts) k = ground (arith, k rt, has_dest-modify_in a c f rts k)

modify_in-DistinctDests :
    (a : ℕ) (f : Rt → Rt) (b : List Rt)
    → Keeps f
    → DistinctDests b
    → DistinctDests (modify_in a f b)
unfolding modify_in
modify_in-DistinctDests a f [] k d = tt
modify_in-DistinctDests a f (rt ∷ rts) k d = ground (
  arith,
  k rt,
  has_dest-modify_in a rt.dest_addr f rts k,
  ap (λ c. has_dest c rts) (k rt).0,
  modify_in-DistinctDests a f rts k d.1,
)

length-modify_in : (a : ℕ) (f : Rt → Rt) (b : List Rt) → length (modify_in a f b) ≡ length b
unfolding modify_in
length-modify_in a f [] = refl
length-modify_in a f (rt ∷ rts) = ground (arith, length-modify_in a f rts)

-- A write that keeps the key and the precursor count of an entry keeps the table well-formed.
pub modify-TableOk :
    (a : ℕ) (f : Rt → Rt) (t : Table) → Keeps f → TableOk t → TableOk (modify a f t)
unfolding modify
modify-TableOk a f t k v =
    set_bucket-TableOk t (hashing a) _ _ v (hashing-lt a)
      (modify_in-Placed a _ f (t.tbl (hashing a)) k (v.placed _))
      (modify_in-DistinctDests a f (t.tbl (hashing a)) k (v.distinct _))
      (omega (arith, length-modify_in a f (t.tbl (hashing a))))

has_dest-remove_in :
    (a c : ℕ) (b : List Rt) → has_dest c b ≡ false → has_dest c (remove_in a b) ≡ false
unfolding remove_in has_dest
has_dest-remove_in a c [] h = refl
has_dest-remove_in a c (rt ∷ rts) h = ground (arith, has_dest-remove_in a c rts)

remove_in-Placed : (a i : ℕ) (b : List Rt) → All (Placed i) b → All (Placed i) (remove_in a b)
unfolding remove_in
remove_in-Placed a i [] p = tt
remove_in-Placed a i (rt ∷ rts) p = ground (arith, remove_in-Placed a i rts p.1)

remove_in-DistinctDests : (a : ℕ) (b : List Rt) → DistinctDests b → DistinctDests (remove_in a b)
unfolding remove_in
remove_in-DistinctDests a [] d = tt
remove_in-DistinctDests a (rt ∷ rts) d =
    ground (arith, has_dest-remove_in a rt.dest_addr rts d.0, remove_in-DistinctDests a rts d.1)

length-remove_in :
    (a : ℕ) (b : List Rt) → has_dest a b ≡ true → length (remove_in a b) + 1 ≡ length b
unfolding remove_in has_dest
length-remove_in a [] h = cc
length-remove_in a (rt ∷ rts) h = ground (arith, length-remove_in a rts)

pub total-ge : (n k : ℕ) (f : ℕ → List Rt) → k < n → length (f k) ≤ total n f
unfolding total
total-ge zero k f h = absurd (omega arith)
total-ge (suc n) k f h = elim (Bool-cases (k == n)) [
  | inl same ↦ (let e : k ≡ n = ground arith in rw e (omega arith))
  | inr other ↦ ground (arith, total-ge n k f)
]

-- Taking out an entry that is there keeps the table well-formed: every entry in its bucket and under its
-- hash value, one entry for each destination, nprec the length of the precursor list, and num_entries
-- the number of entries.
pub unlink-TableOk :
    (a : ℕ) (t : Table) → TableOk t → has_dest a (t.tbl (hashing a)) ≡ true → TableOk (unlink a t)
unfolding unlink
unlink-TableOk a t v h =
    set_bucket-TableOk t (hashing a) _ _ v (hashing-lt a)
      (remove_in-Placed a _ (t.tbl (hashing a)) (v.placed _))
      (remove_in-DistinctDests a (t.tbl (hashing a)) (v.distinct _))
      (ground (
        arith,
        length-remove_in a (t.tbl (hashing a)) h,
        total-ge rt_tablesize (hashing a) t.tbl (hashing-lt a),
        v.counted,
      ))

-- There is an entry for the destination.
abbrev pub Present : Table → ℕ → Type 0
Present t a = has_dest a (t.tbl (hashing a)) ≡ true

pub Present-modify :
    (a c : ℕ) (f : Rt → Rt) (t : Table) → Keeps f → Present t c → Present (modify a f t) c
unfolding modify
Present-modify a c f t k h = elim (Bool-cases (hashing c == hashing a)) [
  | inl e ↦ rw e (
      let eq : hashing c ≡ hashing a = ground arith in
      rw (has_dest-modify_in a c f (t.tbl (hashing a)) k, ← eq) h)
  | inr e ↦ rw e h
]

pub Present-link : (rt : Rt) (c : ℕ) (t : Table) → Present t c → Present (link rt t) c
unfolding link
Present-link rt c t h = elim (Bool-cases (hashing c == hashing rt.dest_addr)) [
  | inl e ↦ rw e (
      let eq : hashing c ≡ hashing rt.dest_addr = ground arith in
      unfold has_dest in ground (arith, ap (λ i. has_dest c (t.tbl i)) eq))
  | inr e ↦ rw e h
]

pub link-Present : (rt : Rt) (t : Table) → Present (link rt t) rt.dest_addr
unfolding link has_dest
link-Present rt t = ground arith
