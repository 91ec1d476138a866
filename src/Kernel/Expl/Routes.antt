-- ===== src/Kernel/Expl/Routes.antt =====
-- The list of routes as a map from destinations, and its order and bounds.
use embedded_systems_wireles.Base.{
  ℕ, suc, ◌≤◌, ◌≡◌, refl, inl, inr, none, some, List, [], ◌∷◌, arith, length, ltb, ◌==◌,
  if◌then◌else◌, Bool-cases,
}
use embedded_systems_wireles.Kernel.{ExplEntry}
use embedded_systems_wireles.Kernel.Expl.{place, find_expl, drop_expl}

-- The entries expire in their order, from `from` on.
unfoldable pub Ascending : ℕ → List ExplEntry → Type 0
Ascending from [] = Unit
Ascending from (e ∷ es) = (from ≤ e.expires) × Ascending e.expires es

-- No two entries for one destination.
unfoldable pub Distinct : List ExplEntry → Type 0
Distinct [] = Unit
Distinct (e ∷ es) = (find_expl e.daddr es ≡ none) × Distinct es

pub place-Ascending :
    (from : ℕ) (e : ExplEntry) (es : List ExplEntry)
    → from ≤ e.expires
    → Ascending from es
    → Ascending from (place e es)
unfolding Ascending place
place-Ascending from e [] h v = ground arith
place-Ascending from e (c ∷ cs) h v = elim (Bool-cases (ltb e.expires c.expires)) [
  | inl l ↦ rw l (ground arith)
  | inr l ↦ rw l (v.0, place-Ascending c.expires e cs (ground arith) v.1)
]

pub length-place : (e : ExplEntry) (es : List ExplEntry) → length (place e es) ≡ suc (length es)
unfolding place
length-place e [] = refl
length-place e (c ∷ cs) = ground (arith, length-place e cs)

pub find_expl-place :
    (a : ℕ) (e : ExplEntry) (es : List ExplEntry)
    → find_expl e.daddr es ≡ none
    → find_expl a (place e es) ≡ (if e.daddr == a then some e else find_expl a es)
unfolding find_expl place
find_expl-place a e [] h = refl
find_expl-place a e (c ∷ cs) h = ground (arith, find_expl-place a e cs)

pub place-Distinct :
    (e : ExplEntry) (es : List ExplEntry)
    → find_expl e.daddr es ≡ none
    → Distinct es
    → Distinct (place e es)
unfolding Distinct place find_expl
place-Distinct e [] h v = (refl, tt)
place-Distinct e (c ∷ cs) h v = ground (arith, place-Distinct e cs, find_expl-place c.daddr e cs)

pub find_expl-drop_expl :
    (a b : ℕ) (es : List ExplEntry)
    → Distinct es
    → find_expl a (drop_expl b es) ≡ (if a == b then none else find_expl a es)
unfolding Distinct drop_expl find_expl
find_expl-drop_expl a b [] v = ground arith
find_expl-drop_expl a b (c ∷ cs) v = ground (arith, find_expl-drop_expl a b cs v.1, v.0)

pub drop_expl-Distinct : (b : ℕ) (es : List ExplEntry) → Distinct es → Distinct (drop_expl b es)
unfolding Distinct drop_expl
drop_expl-Distinct b [] v = tt
drop_expl-Distinct b (c ∷ cs) v =
    ground (arith, drop_expl-Distinct b cs v.1, find_expl-drop_expl c.daddr b cs v.1)

weaken_from : (m n : ℕ) (es : List ExplEntry) → m ≤ n → Ascending n es → Ascending m es
unfolding Ascending
weaken_from m n [] h v = tt
weaken_from m n (c ∷ cs) h v = (omega (arith, v.0), v.1)

pub drop_expl-Ascending :
    (from b : ℕ) (es : List ExplEntry) → Ascending from es → Ascending from (drop_expl b es)
unfolding Ascending drop_expl
drop_expl-Ascending from b [] v = tt
drop_expl-Ascending from b (c ∷ cs) v =
    ground (arith, drop_expl-Ascending c.expires b cs v.1, weaken_from from c.expires cs v.0 v.1)

pub length-drop_expl :
    (b : ℕ) (es : List ExplEntry) (e : ExplEntry)
    → find_expl b es ≡ some e
    → suc (length (drop_expl b es)) ≡ length es
unfolding find_expl drop_expl
length-drop_expl b [] e h = ground arith
length-drop_expl b (c ∷ cs) e h = ground (arith, length-drop_expl b cs e)

pub find_expl-daddr :
    (b : ℕ) (es : List ExplEntry) (e : ExplEntry) → find_expl b es ≡ some e → e.daddr ≡ b
unfolding find_expl
find_expl-daddr b [] e h = ground arith
find_expl-daddr b (c ∷ cs) e h = ground (arith, find_expl-daddr b cs e)
