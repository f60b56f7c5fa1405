-- ===== src/Store/Point/Canonical.antt =====
-- When the 32 bytes of `EdPointBytes` are the point's encoding, and when they are not.
use clawdwallet.Base.{
  ℕ, zero, suc, ◌+◌, ◌*◌, ◌%◌, ◌^◌, ◌≤◌, ◌<◌, ◌≡◌, refl, ◌≢◌, some, List, arith, length, get_elem?,
  set, ltb, lt→ltb, if◌then◌else◌, inl, inr, Bool-cases,
}
use Prim.Native.Nat.{bit_or}
use clawdwallet.Base.{◌⊎◌, ◌∙◌, length-set}
use clawdwallet.Base.Order.{pow256_suc, pow256_pos}
use clawdwallet.Encoding.BigInt.{little, length-bytes, length-low_bytes-gt, length-low_bytes-le}
use clawdwallet.Store.Point.{EcPoint, or_top, ed_point_bytes}
use clawdwallet.Store.Point.Layout.{
  unsigned, gap, written, little-unsigned, length-unsigned, unsigned-IsByte, little-set, top-byte,
  set_top_bit,
}

parity : (n : ℕ) → (n % 2 ≡ 0) ⊎ (n % 2 ≡ 1)
parity n = omega arith

-- What setting the top bit adds to a top byte `t`.
sign_value : ℕ → ℕ
sign_value t = if ltb t 128 then 2 ^ 255 else 0

sign_cases : (t : ℕ) → (sign_value t ≡ 0) ⊎ (sign_value t ≡ 2 ^ 255)
unfolding sign_value
sign_cases t = ground arith

module _ (p : EcPoint) (small : p.y < 256 ^ 32) where
  abbrev out : List ℕ
  out = unsigned p.y small

  ed_point_bytes-even : p.x % 2 ≡ 0 → ed_point_bytes p ≡ out
  unfolding ed_point_bytes
  ed_point_bytes-even e = ground (arith, written p.y small)

  ed_point_bytes-odd :
      (t : ℕ)
      → p.x % 2 ≡ 1
      → get_elem? out 31 ≡ some t
      → ed_point_bytes p ≡ set out 31 (bit_or t 0x80)
  unfolding ed_point_bytes
  ed_point_bytes-odd t e at = rw (e, written p.y small) (rw (at, or_top))

  -- The value of the bytes: `y` behind the gap, and the sign bit unless it is already set.
  little-odd :
      (t : ℕ)
      → p.x % 2 ≡ 1
      → get_elem? out 31 ≡ some t
      → t < 256
      → little (ed_point_bytes p) ≡ 256 ^ gap p.y small * p.y + sign_value t
  unfolding sign_value
  little-odd t e at b = rw (ed_point_bytes-odd t e at) (elim (Bool-cases (ltb t 128)) [
    | inl lo ↦ rw lo (
        ground (
          arith,
          little-set out 31 (bit_or t 0x80) t at,
          set_top_bit t b,
          little-unsigned p.y small,
        ))
    | inr hi ↦ rw hi (
        ground (
          arith,
          little-set out 31 (bit_or t 0x80) t at,
          set_top_bit t b,
          little-unsigned p.y small,
        ))
  ])

  little-even : p.x % 2 ≡ 0 → little (ed_point_bytes p) ≡ 256 ^ gap p.y small * p.y
  little-even e = rw (ed_point_bytes-even e) (little-unsigned p.y small)

  length-ed_point_bytes : length (ed_point_bytes p) ≡ 32
  length-ed_point_bytes = elim (parity p.x) [
    | inl e ↦ rw (ed_point_bytes-even e) (length-unsigned p.y small)
    | inr e ↦
        let (t, at, b, lo, hi) =
          top-byte out 31 (unsigned-IsByte p.y small) (length-unsigned p.y small) in
        rw (ed_point_bytes-odd t e at) (length-set out 31 _ ∙ length-unsigned p.y small)
  ]

-- With all 32 bytes in use there is no gap, and the top byte is below 128.
full-gap : (y : ℕ) (small : y < 256 ^ 32) → 2 ^ 248 ≤ y → gap y small ≡ 0
full-gap y small h =
    omega (arith, length-bytes y, length-low_bytes-gt 31 y y (omega arith) (omega arith))

short-gap : (y : ℕ) (small : y < 256 ^ 32) → y < 2 ^ 248 → 0 < gap y small
short-gap y small h = omega (arith, length-bytes y, length-low_bytes-le 31 y y (omega arith))

full-value :
    (p : EcPoint) (small : p.y < 256 ^ 32)
    → 2 ^ 248 ≤ p.y
    → p.y < 2 ^ 255
    → little (ed_point_bytes p) ≡ p.y + p.x % 2 * 2 ^ 255
full-value p small lo hi =
    let value : 256 ^ gap p.y small * p.y ≡ p.y = rw (full-gap p.y small lo) (omega arith) in
    elim (parity p.x) [
      | inl e ↦ rw (little-even p small e, value, e) (omega arith)
      | inr e ↦
          let (t, at, b, lo', hi') =
            top-byte (out p small) 31 (unsigned-IsByte p.y small) (length-unsigned p.y small) in
          let low : t < 128 = omega (arith, little-unsigned p.y small, value) in
          rw (little-odd p small t e at b, value, e)
            (unfold sign_value in rw (lt→ltb t 128 low) (omega arith))
    ]

pow256_mod : (k : ℕ) → (q : ℕ) × (256 ^ k ≡ 255 * q + 1)
pow256_mod zero = (0, omega arith)
pow256_mod (suc k) = let (q, e) = pow256_mod k in (256 * q + 1, omega (arith, pow256_suc k))

pow256_le : (k : ℕ) → 0 < k → 256 ≤ 256 ^ k
pow256_le zero h = absurd (omega arith)
pow256_le (suc k) h = omega (arith, pow256_suc k, pow256_pos k)

-- A shifted number differs from itself, also where the sign bit is added on either side.
shifted_ne :
    (k y s : ℕ)
    → 0 < k
    → 0 < y
    → (s ≡ 0) ⊎ (s ≡ 2 ^ 255)
    → (256 ^ k * y ≢ y) × (256 ^ k * y + s ≢ y + 2 ^ 255)
shifted_ne k y s hk hy hs =
    let (q, e) = pow256_mod k in
    let shifted : 256 ^ k * y ≡ 255 * (q * y) + y = rw e (omega arith) in
    let grows : 0 < q * y = grind (arith, pow256_le k hk) in (λ h. omega arith, λ h. omega arith)

-- A point whose `y` is at least 2^248 and below 2^255 is encoded in 32 bytes as RFC 8032 says:
-- `y` in little-endian order, and the lowest bit of `x` in the top bit.
pub little-ed_point_bytes :
    (p : EcPoint)
    → 2 ^ 248 ≤ p.y
    → p.y < 2 ^ 255
    → (length (ed_point_bytes p) ≡ 32) × (little (ed_point_bytes p) ≡ p.y + p.x % 2 * 2 ^ 255)
little-ed_point_bytes p lo hi =
    (length-ed_point_bytes p (omega arith), full-value p (omega arith) lo hi)

-- A point whose `y` is not zero and below 2^248 is not encoded as RFC 8032 says.
pub ed_point_bytes_short :
    (p : EcPoint) → 0 < p.y → p.y < 2 ^ 248 → little (ed_point_bytes p) ≢ p.y + p.x % 2 * 2 ^ 255
ed_point_bytes_short p lo hi h =
    let small : p.y < 256 ^ 32 = omega arith in
    elim (parity p.x) [
      | inl e ↦
          (shifted_ne (gap p.y small) p.y 0 (short-gap p.y small hi) lo (inl refl)).0
            (omega (arith, h, little-even p small e))
      | inr e ↦
          let (t, at, b, lo', hi') =
            top-byte (out p small) 31 (unsigned-IsByte p.y small) (length-unsigned p.y small) in
          (shifted_ne (gap p.y small) p.y (sign_value t) (short-gap p.y small hi) lo
              (sign_cases t)).1
            (omega (arith, h, little-odd p small t e at b))
    ]
