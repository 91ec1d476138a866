-- ===== src/Seqno.antt =====
-- Sequence numbers (src/routing/routing_table.h) and their comparison in the handlers of
-- src/protocol: u_int32_t values, kept as numbers below 2 ^ 32.
pub mod Order
use embedded_systems_wireles.Base.{
  ℕ, ◌+◌, ◌%◌, ◌^◌, Bool, ltb, ltb_ℤ, leb_ℤ, ◌==◌, signed32, if◌then◌else◌,
}

-- The macro seqno_incr(s): the value that s has afterwards.
unfoldable pub seqno_incr : ℕ → ℕ
seqno_incr s = if s == 0 then 0 else if s == 0xffffffff then 1 else s + 1

-- The test (int32_t) a > (int32_t) b of the handlers.
unfoldable pub seqno_gt : ℕ → ℕ → Bool
seqno_gt a b = ltb_ℤ (signed32 b) (signed32 a)

-- The test (int32_t) a >= (int32_t) b.
unfoldable pub seqno_ge : ℕ → ℕ → Bool
seqno_ge a b = leb_ℤ (signed32 b) (signed32 a)
