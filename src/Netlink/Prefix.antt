-- ===== src/Netlink/Prefix.antt =====
-- The loop of prefix_length ends.
use native.Mathlib.Numerals.{unary_clauses}
use embedded_systems_wireles.Base.{
  ℕ, zero, suc, ◌-◌, ◌+◌, ◌*◌, ◌/◌, ◌%◌, ◌^◌, ◌<◌, ◌≤◌, ◌≡◌, refl, ap, arith,
}
use embedded_systems_wireles.Netlink.{shifts}

-- A word whose bits below the `n` highest ones are 0.
abbrev High : ℕ → ℕ → Type 0
High n tmp = (m : ℕ) × (tmp * 2 ^ n ≡ m * 2 ^ 32)

double : (n tmp : ℕ) → tmp * 2 ^ suc n ≡ tmp * 2 * 2 ^ n
double n tmp = simp unary_clauses (grind arith)

High-shift : (n tmp : ℕ) → High (suc n) tmp → High n (tmp * 2 % 2 ^ 32)
High-shift n tmp (m, e) =
    let q = tmp * 2 / 2 ^ 32 in
    let r = tmp * 2 % 2 ^ 32 in
    let split : tmp * 2 ≡ q * 2 ^ 32 + r = omega arith in
    let s : (q * 2 ^ 32 + r) * 2 ^ n ≡ q * 2 ^ n * 2 ^ 32 + r * 2 ^ n = grind arith in
    let w : tmp * 2 * 2 ^ n ≡ (q * 2 ^ 32 + r) * 2 ^ n = ap (λ x. x * 2 ^ n) split in
    (m - q * 2 ^ n, omega (arith, e, double n tmp, s, w))

shifts_zero : (n : ℕ) → shifts n 0 ≡ 0
unfolding shifts
shifts_zero zero = refl
shifts_zero (suc n) = refl

-- The loop ends within n rounds: more rounds count no more shifts.
shifts_enough : (n j tmp : ℕ) → n ≤ j → tmp < 2 ^ 32 → High n tmp → shifts j tmp ≡ shifts n tmp
unfolding shifts
shifts_enough zero j tmp le lt (m, e) =
    let z : tmp ≡ 0 = omega (arith, e, lt) in rw z (shifts_zero j)
shifts_enough (suc n) zero tmp le lt h = absurd (omega (arith, le))
shifts_enough (suc n) (suc j) tmp le lt h =
    rw (shifts_enough n j (tmp * 2 % 2 ^ 32) (omega (arith, le)) (omega arith) (High-shift n tmp h))
      refl

-- For any mask, 32 rounds are enough.
prefix_length_ends : (j nm : ℕ) → nm < 2 ^ 32 → 32 ≤ j → shifts j nm ≡ shifts 32 nm
prefix_length_ends j nm lt le = shifts_enough 32 j nm le lt (nm, refl)
