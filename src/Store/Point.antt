-- ===== src/Store/Point.antt =====
-- store/store.go, `EdPointBytes`: an Ed25519 point in 32 bytes.
pub mod Layout
pub mod Canonical
use clawdwallet.Base.{
  ℕ, zero, suc, ◌+◌, ◌-◌, ◌%◌, List, [], ◌∷◌, if◌then◌else◌, leb, ◌==◌, set, replicate, get_elem?,
  Option, some, none,
}
use clawdwallet.Encoding.BigInt
use Prim.Native.Nat.{bit_or}

-- The affine coordinates that tss-lib's `ECPoint` gives.
pub record EcPoint : Type 0 where
  pub x : ℕ
  pub y : ℕ

-- `for i, b := range yb { if i >= 32 { break }; out[31-i] = b }`
unfoldable pub write_reversed : List ℕ → ℕ → List ℕ → List ℕ
write_reversed out i [] = out
write_reversed out i (b ∷ bs) =
    let rest = write_reversed (set out (31 - i) b) (i + 1) bs in if leb 32 i then out else rest

-- `out[31] |= 0x80`
abbrev pub or_top : List ℕ → List ℕ
or_top out = elim (get_elem? out 31) [ none ↦ out | some b ↦ set out 31 (bit_or b 0x80) ]

unfoldable pub ed_point_bytes : EcPoint → List ℕ
unfolding write_reversed
ed_point_bytes p =
    let out = write_reversed (replicate 32 0) 0 (BigInt.bytes p.y) in
    if p.x % 2 == 1 then or_top out else out
