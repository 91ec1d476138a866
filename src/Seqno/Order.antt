-- ===== src/Seqno/Order.antt =====
-- What the sequence number arithmetic guarantees, and where it leaves RFC 3561, section 6.1
-- (extra/rfc3561.txt), which compares by the sign of the 32-bit difference.
use embedded_systems_wireles.Base.{
  ℕ, ◌+◌, ◌-◌, ◌%◌, ◌^◌, ◌<◌, ◌≡◌, ◌≢◌, Bool, true, false, not, ◌&&◌, ◌||◌, arith, ltb, leb, ◌==◌,
  if◌then◌else◌,
}
use embedded_systems_wireles.Seqno.{seqno_incr, seqno_gt}

-- The comparison that RFC 3561 prescribes: the sign of the wrapped difference.
abbrev pub rfc_newer : ℕ → ℕ → Bool
rfc_newer a b = let d = (a + 2 ^ 32 - b) % 2 ^ 32 in if d == 0 then false else ltb d (2 ^ 31)

-- A known number (not 0) stays in 32 bits and known when it is incremented, and changes.
pub seqno_incr_range :
    (s : ℕ) → s < 2 ^ 32 → s ≢ 0 → (seqno_incr s < 2 ^ 32) × (seqno_incr s ≢ 0) × (seqno_incr s ≢ s)
unfolding seqno_incr
seqno_incr_range s h nz = ground arith

-- A known number (not 0) of 32 bits that is not 2 ^ 31 - 1 is newer after its increment, by the
-- program's comparison as well as by the RFC's.
pub seqno_incr_newer :
    (s : ℕ)
    → s < 2 ^ 32
    → s ≢ 0
    → s ≢ 2 ^ 31 - 1
    → (seqno_gt (seqno_incr s) s ≡ true) × (rfc_newer (seqno_incr s) s ≡ true)
unfolding seqno_incr seqno_gt
seqno_incr_newer s h nz edge = ground arith

-- The values lie on two sides of the sign boundary, nearer across it than the other way round.
abbrev pub straddles : ℕ → ℕ → Bool
straddles a b =
    (ltb a (2 ^ 31) && leb (2 ^ 31) b && leb b (a + 2 ^ 31))
    || (ltb b (2 ^ 31) && leb (2 ^ 31) a && ltb a (b + 2 ^ 31))

-- The program's comparison and the RFC's agree on two 32-bit numbers unless they lie on two sides of
-- the boundary between 2 ^ 31 - 1 and 2 ^ 31, nearer across it than the other way round; there the
-- program answers the opposite.
pub seqno_gt-rfc_newer :
    (a b : ℕ)
    → a < 2 ^ 32
    → b < 2 ^ 32
    → seqno_gt a b ≡ (if straddles a b then not (rfc_newer a b) else rfc_newer a b)
unfolding seqno_gt
seqno_gt-rfc_newer a b ha hb = ground arith
