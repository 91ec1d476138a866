-- ===== src/LinkedList/Rings.antt =====
-- The operations on circular lists against the sequences that the lists stand for.
use embedded_systems_wireles.Base.{
  ℕ, ◌≡◌, ◌≢◌, refl, sym, some, List, [], ◌∷◌, ◌++◌, All, All-map, All-append, true, update, arith,
}
use embedded_systems_wireles.LinkedList.{
  Memory, list_success, set_next, set_prev, listelm_add, listelm_detach, list_add, list_add_tail,
  list_detach, list_unattached,
}
use embedded_systems_wireles.LinkedList.Links.{
  Links, Away, Distinct, Distinct-parts, Distinct-join, Links-parts, All-parts, Changed, prev-All,
  next-All, frame, after_first, before_end, taken_out,
}

-- The list with head h and the elements xs, none of them NULL or in it twice.
pub record Ring (m : Memory) (h : ℕ) (xs : List ℕ) : Type 0 where
  pub links : Links m h xs h
  pub nonnull : Away 0 (h ∷ xs)
  pub once : Distinct (h ∷ xs)

abbrev pub Apart : List ℕ → List ℕ → Type 0
Apart xs ys = All (λ x. Away x ys) xs

abbrev added : ℕ → ℕ → ℕ → Memory → Memory
added le p n m = record {
  next = update (update m.next p le) le n;
  prev = update (update m.prev le p) n le;
}

listelm_add_writes :
    (le p n : ℕ) (m : Memory)
    → le ≢ 0
    → p ≢ 0
    → n ≢ 0
    → listelm_add le p n m ≡ some (added le p n m)
unfolding listelm_add set_next set_prev
listelm_add_writes le p n m hl hp hn = ground arith

added-Changed : (le p n : ℕ) (m : Memory) → Changed m (added le p n m) p n le
added-Changed le p n m = record { onward = λ x a b. ground arith; backward = λ x a b. ground arith }

added_between :
    (le p n : ℕ) (m : Memory)
    → le ≢ p
    → le ≢ n
    → ((added le p n m).next p ≡ le)
      × ((added le p n m).prev le ≡ p)
      × ((added le p n m).next le ≡ n)
      × ((added le p n m).prev n ≡ le)
added_between le p n m a b = (ground arith, ground arith, ground arith, ground arith)

-- A list that has none of the changed pointers.
bystander-Ring :
    (m m1 : Memory) (p n le g : ℕ) (zs : List ℕ)
    → Changed m m1 p n le
    → Ring m g zs
    → Away p (g ∷ zs)
    → Away n (g ∷ zs)
    → Away le (g ∷ zs)
    → Ring m1 g zs
bystander-Ring m m1 p n le g zs C r wp wn wl = record {
  links = frame m m1 p n le C g zs g r.links wp wl wn.1 wn.0 wl.0;
  nonnull = r.nonnull;
  once = r.once;
}

Away-sym : (a : ℕ) (xs : List ℕ) → Away a xs → All (λ x. a ≢ x) xs
Away-sym a xs w = All-map (λ x. x ≢ a) (λ x. a ≢ x) (λ x h e. h (sym e)) xs w

sym-Away : (a : ℕ) (xs : List ℕ) → All (λ x. a ≢ x) xs → Away a xs
sym-Away a xs w = All-map (λ x. a ≢ x) (λ x. x ≢ a) (λ x h e. h (sym e)) xs w

list_add-Ring :
    (h le g : ℕ) (xs zs : List ℕ) (m : Memory)
    → Ring m h xs
    → Ring m g zs
    → Apart (h ∷ xs) (g ∷ zs)
    → le ≢ 0
    → Away le (h ∷ xs)
    → Away le (g ∷ zs)
    → (m1 : Memory) × (list_add h le m ≡ some (list_success, m1))
      × Ring m1 h (le ∷ xs)
      × Ring m1 g zs
unfolding list_add
list_add-Ring h le g xs zs m r s w nl wl gl =
    let n = m.next h in
    let n0 = next-All (λ c. c ≢ 0) m h xs h r.links r.nonnull.1 r.nonnull.0 in
    let ng = next-All (λ c. Away c (g ∷ zs)) m h xs h r.links w.1 w.0 in
    let nle = next-All (λ c. c ≢ le) m h xs h r.links wl.1 wl.0 in
    let m1 = added le h n m in
    let C = added-Changed le h n m in
    (
      m1,
      ground (arith, listelm_add_writes le h n m nl r.nonnull.0 n0),
      record {
        links =
            after_first m m1 h n le C xs h r.links refl
              (added_between le h n m (λ e. wl.0 (sym e)) (λ e. nle (sym e))) r.once wl.1 r.once.0
              wl.0;
        nonnull = (r.nonnull.0, (nl, r.nonnull.1));
        once = (((λ e. wl.0 (sym e)), r.once.0), (wl.1, r.once.1));
      },
      bystander-Ring m m1 h n le g zs C s w.0 ng gl,
    )

list_add_tail-Ring :
    (h le g : ℕ) (xs zs : List ℕ) (m : Memory)
    → Ring m h xs
    → Ring m g zs
    → Apart (h ∷ xs) (g ∷ zs)
    → le ≢ 0
    → Away le (h ∷ xs)
    → Away le (g ∷ zs)
    → (m1 : Memory) × (list_add_tail h le m ≡ some (list_success, m1))
      × Ring m1 h (xs ++ le ∷ [])
      × Ring m1 g zs
unfolding list_add_tail
list_add_tail-Ring h le g xs zs m r s w nl wl gl =
    let p = m.prev h in
    let p0 = prev-All (λ c. c ≢ 0) m h xs h r.links r.nonnull in
    let pg = prev-All (λ c. Away c (g ∷ zs)) m h xs h r.links w in
    let ple = prev-All (λ c. c ≢ le) m h xs h r.links wl in
    let m1 = added le p h m in
    let C = added-Changed le p h m in
    let b = added_between le p h m (λ e. ple (sym e)) (λ e. wl.0 (sym e)) in
    (
      m1,
      ground (arith, listelm_add_writes le p h m nl p0 r.nonnull.0),
      record {
        links = before_end m m1 p h le C h xs r.links refl b r.once wl r.once.0;
        nonnull = All-append (λ c. c ≢ 0) (h ∷ xs) (le ∷ []) r.nonnull (nl, tt);
        once =
            Distinct-join (h ∷ xs) (le ∷ []) r.once (tt, tt)
              (All-map (λ x. le ≢ x) (λ x. Away x (le ∷ [])) (λ x e. (e, tt)) (h ∷ xs)
                (Away-sym le (h ∷ xs) wl));
      },
      bystander-Ring m m1 p h le g zs C s pg w.0 gl,
    )

-- An element that is in no list goes to the front of a list with list_add and to its end with
-- list_add_tail. No write faults, and a second list that shares no element stays as it was.
pub list_adds-Ring :
    (h le g : ℕ) (xs zs : List ℕ) (m : Memory)
    → Ring m h xs
    → Ring m g zs
    → Apart (h ∷ xs) (g ∷ zs)
    → le ≢ 0
    → Away le (h ∷ xs)
    → Away le (g ∷ zs)
    → ((m1 : Memory) × (list_add h le m ≡ some (list_success, m1))
        × Ring m1 h (le ∷ xs)
        × Ring m1 g zs)
      × ((m1 : Memory) × (list_add_tail h le m ≡ some (list_success, m1))
          × Ring m1 h (xs ++ le ∷ [])
          × Ring m1 g zs)
list_adds-Ring h le g xs zs m r s w nl wl gl =
    (list_add-Ring h le g xs zs m r s w nl wl gl, list_add_tail-Ring h le g xs zs m r s w nl wl gl)

abbrev removed : ℕ → ℕ → ℕ → Memory → Memory
removed le p n m = record {
  next = update (update m.next p n) le 0;
  prev = update (update m.prev n p) le 0;
}

list_detach_writes :
    (le : ℕ) (m : Memory)
    → le ≢ 0
    → m.prev le ≢ 0
    → m.next le ≢ 0
    → list_detach le m ≡ some (list_success, removed le (m.prev le) (m.next le) m)
unfolding list_detach listelm_detach set_next set_prev
list_detach_writes le m hl hp hn = ground arith

removed-Changed : (le p n : ℕ) (m : Memory) → Changed m (removed le p n m) p n le
removed-Changed le p n m = record {
  onward = λ x a b. ground arith;
  backward = λ x a b. ground arith;
}

-- list_detach takes an element out of a list, wherever in it the element is, and leaves it unattached.
-- No write faults, and a second list that shares no element stays as it was.
pub list_detach-Ring :
    (h le g : ℕ) (xs ys zs : List ℕ) (m : Memory)
    → Ring m h (xs ++ le ∷ ys)
    → Ring m g zs
    → Apart (h ∷ xs ++ le ∷ ys) (g ∷ zs)
    → (m1 : Memory) × (list_detach le m ≡ some (list_success, m1))
      × Ring m1 h (xs ++ ys)
      × Ring m1 g zs
      × (list_unattached le m1 ≡ true)
list_detach-Ring h le g xs ys zs m r s w =
    let p = m.prev le in
    let n = m.next le in
    let m1 = removed le p n m in
    let C = removed-Changed le p n m in
    let (lx, ly) = Links-parts m h xs le ys h r.links in
    let (dx, dy, dw) = Distinct-parts (h ∷ xs) (le ∷ ys) r.once in
    let (n0, (l0, y0)) = All-parts (λ c. c ≢ 0) (h ∷ xs) (le ∷ ys) r.nonnull in
    let (gx, (gl, gy)) = All-parts (λ c. Away c (g ∷ zs)) (h ∷ xs) (le ∷ ys) w in
    let wl =
      sym-Away le (h ∷ xs)
        (All-map (λ x. Away x (le ∷ ys)) (λ x. le ≢ x) (λ x a. a.0) (h ∷ xs) dw) in
    let wy = All-map (λ x. Away x (le ∷ ys)) (λ x. Away x ys) (λ x a. a.1) (h ∷ xs) dw in
    let pl = prev-All (λ c. c ≢ le) m h xs le lx wl in
    let nl = next-All (λ c. c ≢ le) m le ys h ly dy.0 wl.0 in
    (
      m1,
      list_detach_writes le m l0 (prev-All (λ c. c ≢ 0) m h xs le lx n0)
          (next-All (λ c. c ≢ 0) m le ys h ly y0 n0.0),
      record {
        links =
            taken_out m m1 p n le C h xs ys h lx ly (refl, refl, ground arith, ground arith) dx dy.1
              wy wl dy.0 (All-append (λ c. c ≢ h) xs ys dx.0 wy.0) wl.0;
        nonnull = All-append (λ c. c ≢ 0) (h ∷ xs) ys n0 y0;
        once = Distinct-join (h ∷ xs) ys dx dy.1 wy;
      },
      bystander-Ring m m1 p n le g zs C s (prev-All (λ c. Away c (g ∷ zs)) m h xs le lx gx)
          (next-All (λ c. Away c (g ∷ zs)) m le ys h ly gy gx.0) gl,
      ground arith,
    )
