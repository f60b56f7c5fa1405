-- ===== src/Solana/Keys.antt =====
-- `outscript.SolanaKey`, an array of 32 bytes, and solana/address.go.
use clawdwallet.Base.{
  ℕ, ◌≡◌, refl, ◌↔◌, String, Bool, true, false, List, [], ◌∷◌, arith, ◌==◌, ◌&&◌, Result, ok,
  message, fail_if, ◌>>◌, length, not,
}

abbrev pub SolanaKey : Type 0
SolanaKey = List ℕ

-- Go's `==` on arrays of bytes.
abbrev pub bytes_eq : List ℕ → List ℕ → Bool
bytes_eq [] [] = true
bytes_eq (x ∷ xs) (y ∷ ys) = x == y && bytes_eq xs ys
bytes_eq [] (y ∷ ys) = false
bytes_eq (x ∷ xs) [] = false

pub bytes_eq_iff : (xs ys : List ℕ) → (bytes_eq xs ys ≡ true) ↔ (xs ≡ ys)
bytes_eq_iff [] [] = (λ _. refl, λ _. refl)
bytes_eq_iff (x ∷ xs) (y ∷ ys) =
    let (to, from) = bytes_eq_iff xs ys in (λ h. ground (arith, to), λ h. ground (arith, from))
bytes_eq_iff [] (y ∷ ys) = (λ h. cc, λ h. cc)
bytes_eq_iff (x ∷ xs) [] = (λ h. cc, λ h. cc)

-- The base58 text of a key and its parser, of outscript.
pub record KeyText : Type 0 where
  pub key_string : SolanaKey → String
  pub parse_solana_key : String → Result SolanaKey
  pub parse-key_string : (k : SolanaKey) → length k ≡ 32 → parse_solana_key (key_string k) ≡ ok k

-- `copy(k[:], pub)` of 32 bytes is the bytes themselves.
unfoldable pub address_from_pub_key : KeyText → List ℕ → Result String
address_from_pub_key t key = do
  fail_if (not (length key == 32)) (message "solana: pubkey must be 32 bytes")
  ok (t.key_string key)

unfoldable pub key_from_address : KeyText → String → Result SolanaKey
key_from_address t addr = t.parse_solana_key addr

-- A public key of 32 bytes comes back from its address.
key_from_address-address_from_pub_key :
    (t : KeyText) (key : List ℕ) (addr : String)
    → address_from_pub_key t key ≡ ok addr
    → key_from_address t addr ≡ ok key
unfolding address_from_pub_key key_from_address
key_from_address-address_from_pub_key t key addr h = ground (arith, t.parse-key_string key)
