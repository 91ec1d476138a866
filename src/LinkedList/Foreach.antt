-- ===== src/LinkedList/Foreach.antt =====
-- The loop list_foreach over a circular list, and the test list_empty.
use embedded_systems_wireles.Base.{
  ℕ, ◌≡◌, List, [], ◌∷◌, true, suc, zero, length, ◌≤◌, ◌<◌, ◌↔◌, arith,
}
use embedded_systems_wireles.LinkedList.{Memory, list_foreach, list_empty, list_first}
use embedded_systems_wireles.LinkedList.Links.{Links, Away}
use embedded_systems_wireles.LinkedList.Rings.{Ring}

visits :
    (n : ℕ) (m : Memory) (a : ℕ) (xs : List ℕ) (h : ℕ)
    → Links m a xs h
    → Away h xs
    → length xs ≤ n
    → list_foreach (suc n) (m.next a) h m ≡ xs
unfolding list_foreach
visits n m a [] h l w q = ground (arith, l.0)
visits zero m a (x ∷ xs) h l w q = absurd (omega arith)
visits (suc n) m a (x ∷ xs) h l w q =
    rw l.0 ground (arith, visits n m x xs h l.2 w.1 (omega arith), w.0)

tells_empty :
    (m : Memory) (h : ℕ) (xs : List ℕ)
    → Links m h xs h
    → Away h xs
    → (list_empty h m ≡ true) ↔ (xs ≡ [])
tells_empty m h [] l w = ground (arith, l.0)
tells_empty m h (x ∷ xs) l w = ground (arith, l.0, w.0)

-- list_foreach visits the elements of a list in order, each once, and ends: a round more than the list
-- has elements is enough for it. list_empty tells whether there are any.
pub list_foreach_visits :
    (n h : ℕ) (xs : List ℕ) (m : Memory)
    → Ring m h xs
    → length xs < n
    → (list_foreach n (list_first h m) h m ≡ xs) × ((list_empty h m ≡ true) ↔ (xs ≡ []))
list_foreach_visits zero h xs m r q = absurd (omega arith)
list_foreach_visits (suc n) h xs m r q =
    (visits n m h xs h r.links r.once.0 (omega arith), tells_empty m h xs r.links r.once.0)
