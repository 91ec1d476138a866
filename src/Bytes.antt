-- ===== src/Bytes.antt =====
-- Reading memory byte by byte: a byte behind the end counts as 0.
use embedded_systems_wireles.Base.{ℕ, zero, suc, ◌+◌, ◌*◌, List, [], ◌∷◌}

unfoldable pub byte : ℕ → List ℕ → ℕ
byte i [] = 0
byte zero (b ∷ bs) = b
byte (suc i) (b ∷ bs) = byte i bs

-- A word as the machine has it, least significant byte first.
unfoldable pub word32 : ℕ → List ℕ → ℕ
unfolding byte
word32 i p = byte i p + 256 * (byte (i + 1) p + 256 * (byte (i + 2) p + 256 * byte (i + 3) p))

-- ntohl of a word.
unfoldable pub ntohl32 : ℕ → List ℕ → ℕ
unfolding byte
ntohl32 i p = byte (i + 3) p + 256 * (byte (i + 2) p + 256 * (byte (i + 1) p + 256 * byte i p))

-- The bytes without the first `n` of them.
unfoldable pub skip : ℕ → List ℕ → List ℕ
skip zero bs = bs
skip (suc n) [] = []
skip (suc n) (b ∷ bs) = skip n bs
