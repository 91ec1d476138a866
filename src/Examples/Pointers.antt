-- ===== src/Examples/Pointers.antt =====
-- The theorems on circular lists, at a memory with two of them.
use embedded_systems_wireles.Base.{ℕ, ◌≡◌, true, List, [], ◌∷◌, some, arith, update, ◌↔◌}
use embedded_systems_wireles.LinkedList.{
  Memory, list_success, list_add, list_add_tail, list_detach, list_unattached, list_foreach,
  list_first, list_empty,
}
use embedded_systems_wireles.LinkedList.Rings.{Ring, list_adds-Ring, list_detach-Ring}
use embedded_systems_wireles.LinkedList.Foreach.{list_foreach_visits}

-- The list 10 with the elements 11, 12 and 13, and the list 20 with the element 21.
abbrev memory : Memory
memory = record {
  next =
      update (update (update (update (update (update (λ a. 0) 10 11) 11 12) 12 13) 13 10) 20 21) 21
        20;
  prev =
      update (update (update (update (update (update (λ a. 0) 10 13) 11 10) 12 11) 13 12) 20 21) 21
        20;
}

three-Ring : Ring memory 10 (11 ∷ 12 ∷ 13 ∷ [])
three-Ring = record { links = ground arith; nonnull = ground arith; once = ground arith }

one-Ring : Ring memory 20 (21 ∷ [])
one-Ring = record { links = ground arith; nonnull = ground arith; once = ground arith }

list_adds-Ring_example :
    ((m1 : Memory) × (list_add 10 14 memory ≡ some (list_success, m1))
      × Ring m1 10 (14 ∷ 11 ∷ 12 ∷ 13 ∷ [])
      × Ring m1 20 (21 ∷ []))
    × ((m1 : Memory) × (list_add_tail 10 14 memory ≡ some (list_success, m1))
        × Ring m1 10 (11 ∷ 12 ∷ 13 ∷ 14 ∷ [])
        × Ring m1 20 (21 ∷ []))
list_adds-Ring_example =
    list_adds-Ring 10 14 20 (11 ∷ 12 ∷ 13 ∷ []) (21 ∷ []) memory three-Ring one-Ring (ground arith)
      (omega arith) (ground arith) (ground arith)

list_detach-Ring_example :
    (m1 : Memory) × (list_detach 12 memory ≡ some (list_success, m1))
    × Ring m1 10 (11 ∷ 13 ∷ [])
    × Ring m1 20 (21 ∷ [])
    × (list_unattached 12 m1 ≡ true)
list_detach-Ring_example =
    list_detach-Ring 10 12 20 (11 ∷ []) (13 ∷ []) (21 ∷ []) memory three-Ring one-Ring
      (ground arith)

list_foreach_visits_example :
    (list_foreach 4 (list_first 10 memory) 10 memory ≡ 11 ∷ 12 ∷ 13 ∷ [])
    × ((list_empty 10 memory ≡ true) ↔ (◌≡◌ {A = List ℕ} (11 ∷ 12 ∷ 13 ∷ []) []))
list_foreach_visits_example =
    list_foreach_visits 4 10 (11 ∷ 12 ∷ 13 ∷ []) memory three-Ring (omega arith)
