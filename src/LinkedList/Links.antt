-- ===== src/LinkedList/Links.antt =====
-- Chains of pointers in a memory, and what a change of the memory leaves of them.
use embedded_systems_wireles.Base.{
  ℕ, ◌≡◌, ◌≢◌, ◌∙◌, sym, ap, List, [], ◌∷◌, ◌++◌, All, All-map, All-append,
}
use embedded_systems_wireles.LinkedList.{Memory}

-- From a through xs to b, forwards and backwards.
abbrev pub Links : Memory → ℕ → List ℕ → ℕ → Type 0
Links m a [] b = (m.next a ≡ b) × (m.prev b ≡ a)
Links m a (x ∷ xs) b = (m.next a ≡ x) × (m.prev x ≡ a) × Links m x xs b

abbrev pub Away : ℕ → List ℕ → Type 0
Away a xs = All (λ x. x ≢ a) xs

abbrev pub Distinct : List ℕ → Type 0
Distinct [] = Unit
Distinct (x ∷ xs) = Away x xs × Distinct xs

pub Away-along : (a b : ℕ) (xs : List ℕ) → a ≡ b → Away a xs → Away b xs
Away-along a b xs e w = All-map (λ x. x ≢ a) (λ x. x ≢ b) (λ x h g. h (g ∙ sym e)) xs w

pub prev-All :
    (P : ℕ → Type 0) (m : Memory) (a : ℕ) (xs : List ℕ) (b : ℕ)
    → Links m a xs b
    → All P (a ∷ xs)
    → P (m.prev b)
prev-All P m a [] b l w = rw l.1 w.0
prev-All P m a (x ∷ xs) b l w = prev-All P m x xs b l.2 w.1

pub next-All :
    (P : ℕ → Type 0) (m : Memory) (a : ℕ) (xs : List ℕ) (b : ℕ)
    → Links m a xs b
    → All P xs
    → P b
    → P (m.next a)
next-All P m a [] b l w q = rw l.0 q
next-All P m a (x ∷ xs) b l w q = rw l.0 w.0

pub Links-parts :
    (m : Memory) (a : ℕ) (xs : List ℕ) (y : ℕ) (ys : List ℕ) (b : ℕ)
    → Links m a (xs ++ y ∷ ys) b
    → Links m a xs y × Links m y ys b
Links-parts m a [] y ys b l = ((l.0, l.1), l.2)
Links-parts m a (x ∷ xs) y ys b l = let (p, q) = Links-parts m x xs y ys b l.2 in ((l.0, l.1, p), q)

pub All-parts : (P : ℕ → Type 0) (xs ys : List ℕ) → All P (xs ++ ys) → All P xs × All P ys
All-parts P [] ys w = (tt, w)
All-parts P (x ∷ xs) ys w = let (p, q) = All-parts P xs ys w.1 in ((w.0, p), q)

pub Distinct-parts :
    (xs ys : List ℕ) → Distinct (xs ++ ys) → Distinct xs × Distinct ys × All (λ x. Away x ys) xs
Distinct-parts [] ys d = (tt, d, tt)
Distinct-parts (x ∷ xs) ys d =
    let (p, q, w) = Distinct-parts xs ys d.1 in
    let (f, g) = All-parts (λ c. c ≢ x) xs ys d.0 in ((f, p), q, (g, w))

pub Distinct-join :
    (xs ys : List ℕ) → Distinct xs → Distinct ys → All (λ x. Away x ys) xs → Distinct (xs ++ ys)
Distinct-join [] ys d f w = f
Distinct-join (x ∷ xs) ys d f w =
    (All-append (λ c. c ≢ x) xs ys d.0 w.0, Distinct-join xs ys d.1 f w.1)

-- m1 differs from m in the pointers forward of p and le, and in those back of n and le.
pub record Changed (m m1 : Memory) (p n le : ℕ) : Type 0 where
  pub onward : (x : ℕ) → x ≢ p → x ≢ le → m1.next x ≡ m.next x
  pub backward : (x : ℕ) → x ≢ n → x ≢ le → m1.prev x ≡ m.prev x

module _ (m m1 : Memory) (p n le : ℕ) (C : Changed m m1 p n le) where
  pub frame :
      (a : ℕ) (xs : List ℕ) (b : ℕ)
      → Links m a xs b
      → Away p (a ∷ xs)
      → Away le (a ∷ xs)
      → Away n xs
      → b ≢ n
      → b ≢ le
      → Links m1 a xs b
  frame a [] b l wp wl wn bn bl = (C.onward a wp.0 wl.0 ∙ l.0, C.backward b bn bl ∙ l.1)
  frame a (x ∷ xs) b l wp wl wn bn bl = (
    C.onward a wp.0 wl.0 ∙ l.0,
    C.backward x wn.0 wl.1.0 ∙ l.1,
    frame x xs b l.2 wp.1 wl.1 wn.1 bn bl,
  )

  -- le put in after the first.
  pub after_first :
      (xs : List ℕ) (b : ℕ)
      → Links m p xs b
      → m.next p ≡ n
      → (m1.next p ≡ le) × (m1.prev le ≡ p) × (m1.next le ≡ n) × (m1.prev n ≡ le)
      → Distinct (p ∷ xs)
      → Away le xs
      → Away b xs
      → b ≢ le
      → Links m1 p (le ∷ xs) b
  after_first [] b l e f d wl wb bl =
      (f.0, f.1, (f.2 ∙ sym e ∙ l.0, ap m1.prev (sym (sym e ∙ l.0)) ∙ f.3))
  after_first (x ∷ xs) b l e f d wl wb bl =
      let q = sym e ∙ l.0 in
      (
        f.0,
        f.1,
        (
          f.2 ∙ q,
          ap m1.prev (sym q) ∙ f.3,
          frame x xs b l.2 d.0 wl (rw q d.1.0) (λ g. wb.0 (sym (g ∙ q))) bl,
        ),
      )

  -- le put in before the end.
  pub before_end :
      (a : ℕ) (xs : List ℕ)
      → Links m a xs n
      → m.prev n ≡ p
      → (m1.next p ≡ le) × (m1.prev le ≡ p) × (m1.next le ≡ n) × (m1.prev n ≡ le)
      → Distinct (a ∷ xs)
      → Away le (a ∷ xs)
      → Away n xs
      → Links m1 a (xs ++ le ∷ []) n
  before_end a [] l e f d wl wn = (ap m1.next (sym l.1 ∙ e) ∙ f.0, f.1 ∙ sym e ∙ l.1, (f.2, f.3))
  before_end a (x ∷ xs) l e f d wl wn = (
    C.onward a (λ q. prev-All (λ c. c ≢ a) m x xs n l.2 d.0 (e ∙ sym q)) wl.0 ∙ l.0,
    C.backward x wn.0 wl.1.0 ∙ l.1,
    before_end x xs l.2 e f d.1 wl.1 wn.1,
  )

  -- le taken out between the two parts.
  pub taken_out :
      (a : ℕ) (xs ys : List ℕ) (b : ℕ)
      → Links m a xs le
      → Links m le ys b
      → (m.prev le ≡ p) × (m.next le ≡ n) × (m1.next p ≡ n) × (m1.prev n ≡ p)
      → Distinct (a ∷ xs)
      → Distinct ys
      → All (λ x. Away x ys) (a ∷ xs)
      → Away le (a ∷ xs)
      → Away le ys
      → Away b (xs ++ ys)
      → b ≢ le
      → Links m1 a (xs ++ ys) b
  taken_out a [] [] b l k f d dy w wl wy wb bl =
      let q = sym l.1 ∙ f.0 in
      let r = sym f.1 ∙ k.0 in (ap m1.next q ∙ f.2 ∙ r, ap m1.prev (sym r) ∙ f.3 ∙ sym q)
  taken_out a [] (y ∷ ys) b l k f d dy w wl wy wb bl =
      let q = sym l.1 ∙ f.0 in
      let r = sym f.1 ∙ k.0 in
      (
        ap m1.next q ∙ f.2 ∙ r,
        ap m1.prev (sym r) ∙ f.3 ∙ sym q,
        frame y ys b k.2 (Away-along a p (y ∷ ys) q w.0) wy (rw r dy.0) (λ g. wb.0 (sym (g ∙ r)))
            bl,
      )
  taken_out a (x ∷ xs) ys b l k f d dy w wl wy wb bl = (
    C.onward a (λ q. prev-All (λ c. c ≢ a) m x xs le l.2 d.0 (f.0 ∙ sym q)) wl.0 ∙ l.0,
    C.backward x (λ q. next-All (λ c. c ≢ x) m le ys b k w.1.0 (λ g. wb.0 (sym g)) (f.1 ∙ sym q))
          wl.1.0
        ∙ l.1,
    taken_out x xs ys b l.2 k f d.1 dy w.1 wl.1 wy wb.1 bl,
  )
