-- ===== src/Store/Point/Layout.antt =====
-- Which point the 32 bytes of `EdPointBytes` stand for.
use clawdwallet.Base.{
  ℕ, zero, suc, ◌+◌, ◌-◌, ◌*◌, ◌^◌, ◌≤◌, ◌<◌, ◌≡◌, refl, List, [], ◌∷◌, ◌++◌, some, arith, All,
  length, replicate, set, get_elem?, length-append, length-replicate, ltb, leb, ◌==◌, if◌then◌else◌,
  Bool, true, false, ap, ◌∙◌,
}
use Prim.Native.Nat.{bit_or}
use clawdwallet.Base.Order.{pow256_suc}
use clawdwallet.Encoding.Hex.{IsByte}
use clawdwallet.Encoding.BigInt.{
  bytes, low_bytes, little, little-low_bytes, low_bytes-IsByte, length-bytes, length-low_bytes-le,
  All-append,
}
use clawdwallet.Store.Point.{write_reversed}
use mathlib.Core.List.{reverse_aux, reverse-reverse}

set-replicate :
    (k b : ℕ) (acc : List ℕ) → set (replicate (suc k) 0 ++ acc) k b ≡ replicate k 0 ++ (b ∷ acc)
set-replicate zero b acc = refl
set-replicate (suc k) b acc = rw (set-replicate k b acc)

-- `i` bytes are written and `m` places are still zero; `k` will stay so.
write_reversed_lem :
    (bs acc : List ℕ) (i m k : ℕ)
    → i + m ≡ 32
    → m ≡ k + length bs
    → write_reversed (replicate m 0 ++ acc) i bs ≡ replicate k 0 ++ reverse_aux bs acc
unfolding write_reversed
write_reversed_lem [] acc i m k h e = ap (λ n. replicate n 0 ++ acc) (omega arith)
write_reversed_lem (b ∷ bs) acc i zero k h e = absurd (omega arith)
write_reversed_lem (b ∷ bs) acc i (suc m) k h e =
    let at : 31 - i ≡ m = omega arith in
    let room : leb 32 i ≡ false = ground arith in
    rw (room, at, set-replicate m b acc)
      (write_reversed_lem bs (b ∷ acc) (i + 1) m k (omega arith) (omega arith))

little-zeros : (k : ℕ) (bs : List ℕ) → little (replicate k 0 ++ bs) ≡ 256 ^ k * little bs
unfolding little
little-zeros zero bs = omega arith
little-zeros (suc k) bs =
    omega (arith, little-zeros k bs, ap (λ (t : ℕ). t * little bs) (pow256_suc k))

zeros-IsByte : (k : ℕ) → All IsByte (replicate k 0)
zeros-IsByte zero = tt
zeros-IsByte (suc k) = (omega arith, zeros-IsByte k)

-- The bytes before the sign bit: the low bytes of `y`, behind the zeros.
module _ (y : ℕ) (small : y < 256 ^ 32) where
  abbrev pub gap : ℕ
  gap = 32 - length (bytes y)

  pub unsigned : List ℕ
  unsigned = replicate gap 0 ++ low_bytes y y

  length-le : length (bytes y) ≤ 32
  length-le = omega (arith, length-bytes y, length-low_bytes-le 32 y y small)

  pub written : write_reversed (replicate 32 0) 0 (bytes y) ≡ unsigned
  unfolding bytes unsigned
  written =
      write_reversed_lem (bytes y) [] 0 32 gap refl (omega (arith, length-le))
      ∙ ap (λ l. replicate gap 0 ++ l) (reverse-reverse (low_bytes y y))

  pub little-unsigned : little unsigned ≡ 256 ^ gap * y
  unfolding unsigned
  little-unsigned = rw (little-zeros gap (low_bytes y y), little-low_bytes y y (omega arith))

  pub length-unsigned : length unsigned ≡ 32
  unfolding unsigned
  length-unsigned = omega (
    arith,
    length-append (replicate gap 0) (low_bytes y y),
    length-replicate {A = ℕ} gap 0,
    length-bytes y,
    length-le,
  )

  pub unsigned-IsByte : All IsByte unsigned
  unfolding unsigned
  unsigned-IsByte =
      All-append IsByte (replicate gap 0) (low_bytes y y) (zeros-IsByte gap) (low_bytes-IsByte y y)

-- A write at place `i` changes the value by the difference at that place.
pub little-set :
    (xs : List ℕ) (i v t : ℕ)
    → get_elem? xs i ≡ some t
    → little (set xs i v) + t * 256 ^ i ≡ little xs + v * 256 ^ i
unfolding little
little-set [] i v t h = ground arith
little-set (x ∷ xs) zero v t h = ground arith
little-set (x ∷ xs) (suc i) v t h = omega (
  arith,
  little-set xs i v t h,
  ap (λ (p : ℕ). t * p) (pow256_suc i),
  ap (λ (p : ℕ). v * p) (pow256_suc i),
)

-- The last byte is the top one.
pub top-byte :
    (xs : List ℕ) (i : ℕ)
    → All IsByte xs
    → length xs ≡ suc i
    → (t : ℕ) × (get_elem? xs i ≡ some t)
      × (t < 256)
      × (t * 256 ^ i ≤ little xs)
      × (little xs < (t + 1) * 256 ^ i)
unfolding little
top-byte [] i h e = absurd (omega arith)
top-byte (x ∷ []) zero (h, _) e = (x, refl, h, omega arith, omega arith)
top-byte (x ∷ y ∷ r) zero h e = absurd (omega arith)
top-byte (x ∷ xs) (suc i) (h, hs) e =
    let (t, at, b, lo, hi) = top-byte xs i hs (omega arith) in
    (
      t,
      at,
      b,
      omega (arith, ap (λ (p : ℕ). t * p) (pow256_suc i)),
      omega (arith, ap (λ (p : ℕ). (t + 1) * p) (pow256_suc i)),
    )

every_byte : (ℕ → Bool) → ℕ → Bool
every_byte test zero = true
every_byte test (suc top) = let below = every_byte test top in if test top then below else false

every_byte-holds :
    (test : ℕ → Bool) (b top : ℕ) → b < top → every_byte test top ≡ true → test b ≡ true
unfolding every_byte
every_byte-holds test b (suc top) lt all = ground (arith, every_byte-holds test b top)
every_byte-holds test b zero lt all = absurd (omega arith)

top_bit_table : every_byte (λ b. bit_or b 0x80 == (if ltb b 128 then b + 128 else b)) 256 ≡ true
unfolding every_byte
top_bit_table = refl

pub set_top_bit : (b : ℕ) → b < 256 → bit_or b 0x80 ≡ (if ltb b 128 then b + 128 else b)
set_top_bit b h = ground (
  arith,
  every_byte-holds (λ c. bit_or c 0x80 == (if ltb c 128 then c + 128 else c)) b 256 h top_bit_table,
)
