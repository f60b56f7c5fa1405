-- ===== src/Encoding/BigInt.antt =====
-- `big.Int.SetBytes` and `big.Int.Bytes` of Go's math/big, for numbers that are not negative: bytes
-- from the most significant on, with no leading zero in `bytes`.
use clawdwallet.Base.{
  ℕ, zero, suc, ◌+◌, ◌*◌, ◌/◌, ◌%◌, ◌^◌, ◌≤◌, ◌<◌, ◌≡◌, refl, List, [], ◌∷◌, ◌++◌, reverse, arith,
  ◌==◌, if◌then◌else◌, All, length, length-reverse,
}
use clawdwallet.Base.Order.{pow256_suc, pow256_pos}
use clawdwallet.Encoding.Hex.{IsByte}
use mathlib.Core.List.{reverse-cons}

unfoldable pub set_bytes_from : ℕ → List ℕ → ℕ
set_bytes_from acc [] = acc
set_bytes_from acc (b ∷ bs) = set_bytes_from (acc * 256 + b) bs

unfoldable pub set_bytes : List ℕ → ℕ
unfolding set_bytes_from
set_bytes bs = set_bytes_from 0 bs

-- The bytes from the least significant on; `n` rounds are enough for `n`.
unfoldable pub low_bytes : ℕ → ℕ → List ℕ
low_bytes zero n = []
low_bytes (suc f) n = let rest = low_bytes f (n / 256) in if n == 0 then [] else (n % 256) ∷ rest

unfoldable pub bytes : ℕ → List ℕ
unfolding low_bytes
bytes n = reverse (low_bytes n n)

-- The value of bytes from the least significant on.
unfoldable pub little : List ℕ → ℕ
little [] = 0
little (b ∷ bs) = b + 256 * little bs

set_bytes_from-append :
    (acc : ℕ) (xs ys : List ℕ)
    → set_bytes_from acc (xs ++ ys) ≡ set_bytes_from (set_bytes_from acc xs) ys
unfolding set_bytes_from
set_bytes_from-append acc [] ys = refl
set_bytes_from-append acc (x ∷ xs) ys = set_bytes_from-append (acc * 256 + x) xs ys

set_bytes-reverse : (bs : List ℕ) → set_bytes (reverse bs) ≡ little bs
unfolding set_bytes little
set_bytes-reverse [] = refl
set_bytes-reverse (b ∷ bs) =
    rw (reverse-cons b bs, set_bytes_from-append 0 (reverse bs) (b ∷ []))
      (omega (arith, set_bytes-reverse bs))

pub little-low_bytes : (f n : ℕ) → n ≤ f → little (low_bytes f n) ≡ n
unfolding little low_bytes
little-low_bytes zero n h = omega arith
little-low_bytes (suc f) n h = ground (arith, little-low_bytes f (n / 256) (omega arith))

-- `SetBytes` reads back what `Bytes` wrote.
pub set_bytes-bytes : (n : ℕ) → set_bytes (bytes n) ≡ n
unfolding bytes
set_bytes-bytes n = rw (set_bytes-reverse (low_bytes n n), little-low_bytes n n (omega arith))

pub low_bytes-IsByte : (f n : ℕ) → All IsByte (low_bytes f n)
unfolding low_bytes
low_bytes-IsByte zero n = tt
low_bytes-IsByte (suc f) n = ground (arith, low_bytes-IsByte f (n / 256))

pub All-append {ℓ κ} :
    {A : Type ℓ} (Q : A → Type κ) (front back : List A)
    → All Q front
    → All Q back
    → All Q (front ++ back)
All-append Q (a ∷ front) back (first, more) last = (first, All-append Q front back more last)
All-append Q [] back _ last = last

All-reverse {ℓ κ} : {A : Type ℓ} (P : A → Type κ) (xs : List A) → All P xs → All P (reverse xs)
All-reverse P [] h = tt
All-reverse P (x ∷ xs) (h, hs) =
    rw reverse-cons (All-append P (reverse xs) (x ∷ []) (All-reverse P xs hs) (h, tt))

pub bytes-IsByte : (n : ℕ) → All IsByte (bytes n)
unfolding bytes
bytes-IsByte n = All-reverse IsByte (low_bytes n n) (low_bytes-IsByte n n)

-- A number of `k` bytes at most has no more than `k`, and one that needs more has more.
pub length-low_bytes-le : (k f n : ℕ) → n < 256 ^ k → length (low_bytes f n) ≤ k
unfolding low_bytes
length-low_bytes-le k zero n h = omega arith
length-low_bytes-le zero (suc f) n h = ground arith
length-low_bytes-le (suc k) (suc f) n h =
    ground (arith, pow256_suc k, length-low_bytes-le k f (n / 256) (omega (arith, pow256_suc k)))

pub length-low_bytes-gt : (k f n : ℕ) → n ≤ f → 256 ^ k ≤ n → k < length (low_bytes f n)
unfolding low_bytes
length-low_bytes-gt k zero n h p = absurd (omega (arith, pow256_pos k))
length-low_bytes-gt zero (suc f) n h p = ground arith
length-low_bytes-gt (suc k) (suc f) n h p = ground (
  arith,
  pow256_suc k,
  pow256_pos k,
  length-low_bytes-gt k f (n / 256) (omega arith) (omega (arith, pow256_suc k)),
)

pub length-bytes : (n : ℕ) → length (bytes n) ≡ length (low_bytes n n)
unfolding bytes
length-bytes n = length-reverse (low_bytes n n)
