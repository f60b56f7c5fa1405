-- ===== src/Base/Machine.antt =====
-- Go's signed integers. `negsuc n` is -(n + 1). A `uint64` is a number below 2 ^ 64.
use Prim.Native.Nat.{ℕ, zero, suc, ◌-◌, ◌%◌, ◌^◌, ◌<◌}
use mathlib.Core.Bool.{Bool, false}
use clawdwallet.Base.Tests.{ltb, ◌==◌, if◌then◌else◌}

pub data ℤ : Type 0 where
  pos : ℕ → ℤ
  negsuc : ℕ → ℤ

abbrev pub IsU64 : ℕ → Type 0
IsU64 v = v < 2 ^ 64

-- `int64(u)` of a `uint64`
abbrev pub int64 : ℕ → ℤ
int64 u = if ltb u (2 ^ 63) then pos u else negsuc (2 ^ 64 - u - 1)

-- The bit pattern of an `int64`.
abbrev pub bits64 : ℤ → ℕ
bits64 (pos n) = n % 2 ^ 64
bits64 (negsuc n) = (2 ^ 64 - suc n) % 2 ^ 64

-- Unary minus on `int64`, which wraps at the least value.
abbrev pub neg_int64 : ℤ → ℤ
neg_int64 x = int64 ((2 ^ 64 - bits64 x) % 2 ^ 64)

-- `x + 1` of an `int`, short of its greatest value.
abbrev pub plus_one : ℤ → ℤ
plus_one (pos n) = pos (suc n)
plus_one (negsuc zero) = pos 0
plus_one (negsuc (suc n)) = negsuc n

-- `x == n` of an `int` and a constant that is not negative.
abbrev pub is_pos : ℕ → ℤ → Bool
is_pos n (pos m) = m == n
is_pos n (negsuc m) = false
