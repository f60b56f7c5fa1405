-- ===== src/Solana/Tx.antt =====
-- solana/tx.go: the bytes to sign, and the place of a signature.
pub mod Attach
use clawdwallet.Base.{
  ℕ, ◌+◌, ◌-◌, Bool, Option, none, some, List, [], ◌∷◌, ◌++◌, map, Result, ok, err, message,
  counted, fail_if, ◌>>=◌, ◌>>◌, not, ◌==◌, ltb, leb, if◌then◌else◌, length, set, replicate,
}
use clawdwallet.Base.Machine.{pos}
use clawdwallet.Solana.Keys.{SolanaKey, bytes_eq}

-- What the code reads of outscript's messages and transactions.
pub record Message : Type 0 where
  pub num_required_signatures : ℕ
  pub account_keys : List SolanaKey
  pub body : List ℕ

pub record SolanaTx : Type 0 where
  pub legacy : Message
  pub v0 : Option Message
  pub signatures : List (List ℕ)

-- `tx.MessageV0` if it is there, else `tx.Message`.
abbrev pub chosen_of : Option Message → Message → Message
chosen_of none m = m
chosen_of (some m) _ = m

abbrev pub chosen : SolanaTx → Message
chosen tx = chosen_of tx.v0 tx.legacy

-- `MarshalBinary` of a message is outscript's.
unfoldable pub message_bytes : (Message → Result (List ℕ)) → Option SolanaTx → Result (List ℕ)
message_bytes marshal none = err (message "solana: nil tx")
message_bytes marshal (some tx) = marshal (chosen tx)

unfoldable pub message_account_keys : Option SolanaTx → List SolanaKey
message_account_keys none = []
message_account_keys (some tx) = (chosen tx).account_keys

unfoldable pub num_required_signatures : Option SolanaTx → ℕ
num_required_signatures none = 0
num_required_signatures (some tx) = (chosen tx).num_required_signatures

-- The loop `for i := 0; i < n && i < len(keys); i++` up to the key that is the signer's.
unfoldable pub signer_slot : SolanaKey → ℕ → ℕ → List SolanaKey → Option ℕ
signer_slot signer n i [] = none
signer_slot signer n i (k ∷ keys) =
    let rest = signer_slot signer n (i + 1) keys in
    if ltb i n then if bytes_eq k signer then some i else rest else none

-- `grown := make([][]byte, n); copy(grown, tx.Signatures)` where there are fewer than `n`
unfoldable pub grown : ℕ → ℕ → List (List ℕ) → List (List ℕ)
grown n i signatures =
    if leb (length signatures) i
    then signatures ++ replicate (n - length signatures) []
    else signatures

abbrev place : SolanaTx → ℕ → ℕ → List ℕ → SolanaTx
place tx n i sig = record tx { signatures = set (grown n i tx.signatures) i sig }

unfoldable pub attach_signature : SolanaTx → SolanaKey → List ℕ → Result SolanaTx
attach_signature tx signer sig = do
  fail_if (not (length sig == 64))
      (counted "solana: signature must be 64 bytes, got %d" (pos (length sig) ∷ []))
  let n = num_required_signatures (some tx)
  elim (signer_slot signer n 0 (message_account_keys (some tx))) [
    | none ↦ err (counted "solana: signer %s is not in the required signer set" (map pos signer))
    | some i ↦ ok (place tx n i sig)
  ]
