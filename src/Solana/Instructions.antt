-- ===== src/Solana/Instructions.antt =====
-- solana/instructions.go: the TransferChecked instruction of the SPL Token program.
pub mod Layout
use clawdwallet.Base.{ℕ, ◌+◌, ◌/◌, ◌%◌, ◌^◌, Bool, true, false, List, [], ◌∷◌, ◌++◌}
use clawdwallet.Solana.Keys.{SolanaKey}

-- What the code fills in of outscript's instruction.
pub record AccountMeta : Type 0 where
  pub pubkey : SolanaKey
  pub is_signer : Bool
  pub is_writable : Bool

pub record SolanaInstruction : Type 0 where
  pub program_id : SolanaKey
  pub accounts : List AccountMeta
  pub body : List ℕ

-- `binary.LittleEndian.PutUint64`
unfoldable pub put_uint64 : ℕ → List ℕ
put_uint64 v =
    v % 256
    ∷ v / 2 ^ 8 % 256
    ∷ v / 2 ^ 16 % 256
    ∷ v / 2 ^ 24 % 256
    ∷ v / 2 ^ 32 % 256
    ∷ v / 2 ^ 40 % 256
    ∷ v / 2 ^ 48 % 256
    ∷ v / 2 ^ 56 % 256
    ∷ []

-- The token program's key is parsed from a constant; `token_program` is that key.
unfoldable pub spl_transfer_checked_instruction :
    SolanaKey → SolanaKey → SolanaKey → SolanaKey → SolanaKey → ℕ → ℕ → SolanaInstruction
spl_transfer_checked_instruction token_program source mint destination owner amount decimals =
    record {
      program_id = token_program;
      accounts =
          record { pubkey = source; is_signer = false; is_writable = true }
          ∷ record { pubkey = mint; is_signer = false; is_writable = false }
          ∷ record { pubkey = destination; is_signer = false; is_writable = true }
          ∷ record { pubkey = owner; is_signer = true; is_writable = false }
          ∷ [];
      body = 12 ∷ (put_uint64 amount ++ (decimals ∷ []));
    }
