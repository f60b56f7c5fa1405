-- ===== src/Agent/Protocol/Fixed.antt =====
-- `bigIntToFixed`, which lays out R and S of an ECDSA signature.
use clawdwallet.Base.{
  ℕ, zero, suc, ◌-◌, ◌^◌, ◌<◌, ◌≤◌, ◌≡◌, refl, List, ◌++◌, arith, length, replicate, length-append,
  length-replicate,
}
use clawdwallet.Encoding.BigInt.{
  bytes, set_bytes, set_bytes_from, set_bytes-bytes, length-bytes, length-low_bytes-le,
  length-low_bytes-gt,
}
use clawdwallet.Agent.Protocol.{big_int_to_fixed}

set_bytes_zeros :
    (k : ℕ) (bs : List ℕ) → set_bytes_from 0 (replicate k 0 ++ bs) ≡ set_bytes_from 0 bs
unfolding set_bytes_from
set_bytes_zeros zero bs = refl
set_bytes_zeros (suc k) bs = set_bytes_zeros k bs

-- The bytes of fixed size stand for the number that they are made from, whatever the size.
set_bytes-big_int_to_fixed : (n size : ℕ) → set_bytes (big_int_to_fixed n size) ≡ n
unfolding big_int_to_fixed set_bytes
set_bytes-big_int_to_fixed n size =
    ground (arith, set_bytes-bytes n, set_bytes_zeros (size - length (bytes n)) (bytes n))

-- A number below 256^size gives just `size` bytes.
pub length-big_int_to_fixed :
    (n size : ℕ) → n < 256 ^ size → length (big_int_to_fixed n size) ≡ size
unfolding big_int_to_fixed
length-big_int_to_fixed n size h = ground (
  arith,
  length-bytes n,
  length-low_bytes-le size n n h,
  length-append (replicate (size - length (bytes n)) 0) (bytes n),
  length-replicate {A = ℕ} (size - length (bytes n)) 0,
)

-- A number that needs more than `size` bytes is not cut.
big_int_to_fixed_wide : (n size : ℕ) → 256 ^ size ≤ n → size < length (big_int_to_fixed n size)
unfolding big_int_to_fixed
big_int_to_fixed_wide n size h =
    ground (arith, length-bytes n, length-low_bytes-gt size n n (omega arith) h)
