-- ===== src/LinkedList.antt =====
-- The circular lists of src/utils/list.{h,c}: pointers in a memory, NULL is 0.
pub mod Links
pub mod Rings
pub mod Foreach
use embedded_systems_wireles.Base.{
  ℕ, ℤ, pos, negsuc, Bool, true, false, ◌||◌, ◌&&◌, ◌==◌, if◌then◌else◌, Option, none, some, List,
  [], ◌∷◌, zero, suc, update, ◌>>=◌,
}

-- The two fields of the list_t at each address.
pub record Memory : Type 0 where
  pub next : ℕ → ℕ
  pub prev : ℕ → ℕ

abbrev pub list_null : ℤ
list_null = negsuc 0

abbrev pub list_success : ℤ
list_success = pos 1

-- A write through NULL faults.
unfoldable pub set_next : ℕ → ℕ → Memory → Option Memory
set_next p q m = if p == 0 then none else some (record m { next = update m.next p q })

unfoldable pub set_prev : ℕ → ℕ → Memory → Option Memory
set_prev p q m = if p == 0 then none else some (record m { prev = update m.prev p q })

unfoldable pub init_list_head : ℕ → Memory → Option Memory
init_list_head h m = do m1 ← set_next h h m; set_prev h h m1

unfoldable pub init_list_elm : ℕ → Memory → Option Memory
init_list_elm le m = do m1 ← set_next le 0 m; set_prev le 0 m1

unfoldable pub listelm_detach : ℕ → ℕ → Memory → Option Memory
listelm_detach before after m = do m1 ← set_prev after before m; set_next before after m1

unfoldable pub listelm_add : ℕ → ℕ → ℕ → Memory → Option Memory
listelm_add le before after m = do
  m1 ← set_next before le m
  m2 ← set_prev le before m1
  m3 ← set_next le after m2
  set_prev after le m3

unfoldable pub list_add : ℕ → ℕ → Memory → Option (ℤ × Memory)
list_add head le m =
    if (head == 0) || (le == 0)
    then some (list_null, m)
    else do m1 ← listelm_add le head (m.next head) m; some (list_success, m1)

unfoldable pub list_add_tail : ℕ → ℕ → Memory → Option (ℤ × Memory)
list_add_tail head le m =
    if (head == 0) || (le == 0)
    then some (list_null, m)
    else do m1 ← listelm_add le (m.prev head) head m; some (list_success, m1)

unfoldable pub list_detach : ℕ → Memory → Option (ℤ × Memory)
list_detach le m = if le == 0 then some (list_null, m) else do
  m1 ← listelm_detach (m.prev le) (m.next le) m
  m2 ← set_prev le 0 m1
  m3 ← set_next le 0 m2
  some (list_success, m3)

abbrev pub list_empty : ℕ → Memory → Bool
list_empty head m = head == m.next head

abbrev pub list_first : ℕ → Memory → ℕ
list_first head m = m.next head

abbrev pub list_unattached : ℕ → Memory → Bool
list_unattached le m = (m.next le == 0) && (m.prev le == 0)

-- The elements that list_foreach visits from curr on, in at most n rounds.
unfoldable pub list_foreach : ℕ → ℕ → ℕ → Memory → List ℕ
list_foreach zero curr head m = []
list_foreach (suc n) curr head m =
    let rest = list_foreach n (m.next curr) head m in if curr == head then [] else curr ∷ rest
