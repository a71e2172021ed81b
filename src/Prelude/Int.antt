-- ===== src/Prelude/Int.antt =====
-- Signed integers, and their two's complement in `k` bytes.
use matter_cli.Prelude.Tests.{ltb, if◌then◌else◌}
use Prim.Native.Nat.{ℕ, ◌-◌, ◌/◌, ◌%◌}
use mathlib.Core.Bool.{Bool}

-- `negsuc n` is -(n + 1).
pub data ℤ : Type 0 where
  pos : ℕ → ℤ
  negsuc : ℕ → ℤ

-- -half ≤ v < half
abbrev pub within : ℕ → ℤ → Bool
within half (pos n) = ltb n half
within half (negsuc n) = ltb n half

-- The low bits of `v`, for a power of two `range`: Go's conversion to an unsigned type.
abbrev pub to_bits : ℕ → ℤ → ℕ
to_bits range (pos n) = n % range
to_bits range (negsuc n) = range - 1 - n % range

-- Go's conversion of a bit pattern below `range` to the signed type.
abbrev pub of_bits : ℕ → ℕ → ℤ
of_bits range b = if ltb b (range / 2) then pos b else negsuc (range - 1 - b)
