-- ===== src/Base/Order.antt =====
-- Powers of 256, for the byte encodings.
use Prim.Native.Nat.{ℕ, zero, suc, ◌*◌, ◌^◌, ◌<◌}
use mathlib.Core.Path.{◌≡◌}
use native.Mathlib.Nat.{pow-suc}
use native.Mathlib.Omega.{arith}

pub pow256_suc : (k : ℕ) → 256 ^ suc k ≡ 256 * 256 ^ k
pow256_suc k = omega (arith, pow-suc 256 k)

pub pow256_pos : (k : ℕ) → 0 < 256 ^ k
pow256_pos zero = omega arith
pow256_pos (suc k) = omega (arith, pow256_suc k, pow256_pos k)
