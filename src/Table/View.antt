-- ===== src/Table/View.antt =====
-- The routing table as what it answers: the order of the entries in their buckets, and of the calls that
-- put them there, is forgotten.
use mathlib.Core.Option
use mathlib.Core.Quot
use mathlib.Core.Quot.{Quot, Quot-set}
use mathlib.Core.HLevel.{Π_prop}
use native.Mathlib.Nat.{ℕ_set}
use embedded_systems_wireles.Base.{
  ℕ, ◌≡◌, ◌≢◌, ◌∙◌, inl, inr, true, false, Option, none, some, arith, length, ◌==◌, if◌then◌else◌,
  Bool-cases,
}
use embedded_systems_wireles.Table.{Rt, Table, hashing, has_dest, link, unlink, rt_table_find}
use embedded_systems_wireles.Table.Invariant.{TableOk, link-TableOk, unlink-TableOk}
use embedded_systems_wireles.Table.Map.{
  rt_table_find-find_in, has_dest-find_in, rt_table_find-link, rt_table_find-unlink,
}
use embedded_systems_wireles.Table.Entry.{find_in-some}

-- An entry as rt_table_insert makes it.
abbrev pub Proper : Rt → Type 0
Proper r = (r.hash ≡ r.dest_addr) × (r.nprec ≡ length r.precursors)

abbrev pub Whole : Type 0
Whole = (t : Table) × TableOk t

-- Two tables that answer every look-up alike.
abbrev pub SameAnswers : Whole → Whole → Type 0
SameAnswers t u = (a : ℕ) → rt_table_find a t.0 ≡ rt_table_find a u.0

abbrev pub View : Type 0
View = Quot SameAnswers

-- The part of rt_table_insert that changes the table.
unfoldable pub put_in : Rt → Table → Table
put_in r t = if has_dest r.dest_addr (t.tbl (hashing r.dest_addr)) then t else link r t

-- The part of rt_table_delete that does.
unfoldable pub take_out : ℕ → Table → Table
take_out a t = if has_dest a (t.tbl (hashing a)) then unlink a t else t

abbrev or_else : Option Rt → Option Rt → Option Rt
or_else (some r) o = some r
or_else none o = o

pub put_in-TableOk : (r : Rt) (t : Table) → Proper r → TableOk t → TableOk (put_in r t)
unfolding put_in
put_in-TableOk r t p v = elim (Bool-cases (has_dest r.dest_addr (t.tbl (hashing r.dest_addr)))) [
  | inl e ↦ rw e v
  | inr e ↦ rw e (link-TableOk r t v e p.0 p.1)
]

pub take_out-TableOk : (a : ℕ) (t : Table) → TableOk t → TableOk (take_out a t)
unfolding take_out
take_out-TableOk a t v = elim (Bool-cases (has_dest a (t.tbl (hashing a)))) [
  | inl e ↦ rw e (unlink-TableOk a t v e)
  | inr e ↦ rw e v
]

found :
    (a : ℕ) (t : Table)
    → TableOk t
    → has_dest a (t.tbl (hashing a)) ≡ true
    → (r : Rt) × (rt_table_find a t ≡ some r)
found a t v h =
    let (r, e, d) = find_in-some a (hashing a) (t.tbl (hashing a)) (v.placed _) h in
    (r, rt_table_find-find_in a t v ∙ e)

pub missing :
    (a : ℕ) (t : Table)
    → TableOk t
    → has_dest a (t.tbl (hashing a)) ≡ false
    → rt_table_find a t ≡ none
missing a t v h = rt_table_find-find_in a t v ∙ has_dest-find_in a (hashing a) _ (v.placed _) h

rt_table_find-put_in :
    (r : Rt) (c : ℕ) (t : Table)
    → Proper r
    → TableOk t
    → rt_table_find c (put_in r t)
      ≡ or_else (rt_table_find c t) (if r.dest_addr == c then some r else none)
unfolding put_in
rt_table_find-put_in r c t p v = elim (Bool-cases (r.dest_addr == c)) [
  | inl same ↦
      let q : c ≡ r.dest_addr = ground arith in
      elim (Bool-cases (has_dest r.dest_addr (t.tbl (hashing r.dest_addr)))) [
        | inl e ↦ let (s, f) = found r.dest_addr t v e in rw (e, q) (ground (arith, f))
        | inr e ↦
            rw (e, q)
              (ground
                (arith, rt_table_find-link r r.dest_addr t v e p.0, missing r.dest_addr t v e))
      ]
  | inr other ↦ elim (Bool-cases (has_dest r.dest_addr (t.tbl (hashing r.dest_addr)))) [
    | inl e ↦ rw (e, other) (ground arith)
    | inr e ↦ rw (e, other) (ground (arith, rt_table_find-link r c t v e p.0, other))
  ]
]

rt_table_find-take_out :
    (a c : ℕ) (t : Table)
    → TableOk t
    → rt_table_find c (take_out a t) ≡ (if a == c then none else rt_table_find c t)
unfolding take_out
rt_table_find-take_out a c t v = elim (Bool-cases (has_dest a (t.tbl (hashing a)))) [
  | inl e ↦ rw e (rt_table_find-unlink a c t v e)
  | inr e ↦ rw e (elim (Bool-cases (a == c)) [
    | inl same ↦ let q : c ≡ a = ground arith in rw q (ground (arith, missing a t v e))
    | inr other ↦ ground (arith, other)
  ])
]

pub Rt-set : IsSet Rt
Rt-set = hlevel ℕ_set

unfoldable pub lookup : ℕ → View → Option Rt
lookup a = Quot.lift (Option.is_set Rt-set) (λ t. rt_table_find a t.0) (λ t u h. h a)

unfoldable pub put_whole : (r : Rt) → Proper r → Whole → Whole
put_whole r p t = (put_in r t.0, put_in-TableOk r t.0 p t.1)

unfoldable pub take_whole : ℕ → Whole → Whole
take_whole a t = (take_out a t.0, take_out-TableOk a t.0 t.1)

pub put_whole-SameAnswers :
    (r : Rt) (p : Proper r) (t u : Whole)
    → SameAnswers t u
    → SameAnswers (put_whole r p t) (put_whole r p u)
unfolding put_whole
put_whole-SameAnswers r p t u h =
    λ c. rw (rt_table_find-put_in r c t.0 p t.1, rt_table_find-put_in r c u.0 p u.1, h c)

pub take_whole-SameAnswers :
    (a : ℕ) (t u : Whole) → SameAnswers t u → SameAnswers (take_whole a t) (take_whole a u)
unfolding take_whole
take_whole-SameAnswers a t u h =
    λ c. rw (rt_table_find-take_out a c t.0 t.1, rt_table_find-take_out a c u.0 u.1, h c)

unfoldable pub insert : (r : Rt) → Proper r → View → View
insert r p =
    Quot.lift Quot-set (λ t. Quot.mk (put_whole r p t))
      (λ t u h. Quot.sound (put_whole-SameAnswers r p t u h))

unfoldable pub delete : ℕ → View → View
delete a =
    Quot.lift Quot-set (λ t. Quot.mk (take_whole a t))
      (λ t u h. Quot.sound (take_whole-SameAnswers a t u h))

-- Entries for two destinations can be put in in either order.
pub insert_comm :
    (r s : Rt) (p : Proper r) (q : Proper s) (v : View)
    → r.dest_addr ≢ s.dest_addr
    → insert r p (insert s q v) ≡ insert s q (insert r p v)
unfolding insert put_whole
insert_comm r s p q v n =
    let same : (t : Whole)
        → SameAnswers (put_whole r p (put_whole s q t)) (put_whole s q (put_whole r p t)) =
      λ t c.
        rw
          (
            rt_table_find-put_in r c (put_in s t.0) p (put_in-TableOk s t.0 q t.1),
            rt_table_find-put_in s c t.0 q t.1,
            rt_table_find-put_in s c (put_in r t.0) q (put_in-TableOk r t.0 p t.1),
            rt_table_find-put_in r c t.0 p t.1,
          )
          (ground arith) in
    Quot.ind {r = SameAnswers}
      (λ b. Quot-set (insert r p (insert s q b)) (insert s q (insert r p b)))
      (λ t.
        Quot.sound {a = put_whole r p (put_whole s q t)} {b = put_whole s q (put_whole r p t)}
          (same t))
      v

-- What is put in and taken out again leaves the table as it was, if it was not there.
pub delete-insert :
    (r : Rt) (p : Proper r) (v : View)
    → lookup r.dest_addr v ≡ none
    → delete r.dest_addr (insert r p v) ≡ v
unfolding insert delete put_whole take_whole lookup
delete-insert r p v =
    let same : (t : Whole)
        → rt_table_find r.dest_addr t.0 ≡ none
        → SameAnswers (take_whole r.dest_addr (put_whole r p t)) t =
      λ t e c.
        rw
          (
            rt_table_find-take_out r.dest_addr c (put_in r t.0) (put_in-TableOk r t.0 p t.1),
            rt_table_find-put_in r c t.0 p t.1,
          )
          (ground (arith, e)) in
    Quot.ind {r = SameAnswers}
      (λ b.
        Π_prop {A = lookup r.dest_addr b ≡ none}
          (λ e. Quot-set (delete r.dest_addr (insert r p b)) b))
      (λ t e. Quot.sound {a = take_whole r.dest_addr (put_whole r p t)} {b = t} (same t e)) v
