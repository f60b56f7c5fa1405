-- ===== src/Solana/Instructions/Layout.antt =====
-- The instruction's data as the token program reads it.
use clawdwallet.Base.{
  ℕ, ◌+◌, ◌*◌, ◌≡◌, Option, none, some, List, [], ◌∷◌, arith, ◌==◌, if◌then◌else◌,
}
use clawdwallet.Base.Machine.{IsU64}
use clawdwallet.Solana.Keys.{SolanaKey}
use clawdwallet.Solana.Instructions.{put_uint64, spl_transfer_checked_instruction}

-- Reads an index, an amount of eight bytes from the lowest on, and the decimals.
unfoldable pub read_transfer_checked : List ℕ → Option (ℕ × ℕ)
read_transfer_checked (t ∷ a ∷ b ∷ c ∷ d ∷ e ∷ f ∷ g ∷ h ∷ decimals ∷ []) =
    if t == 12
    then some (
      a + 256 * (b + 256 * (c + 256 * (d + 256 * (e + 256 * (f + 256 * (g + 256 * h)))))),
      decimals,
    )
    else none
read_transfer_checked _ = none

-- The amount and the decimals come back from the ten bytes of the instruction, for every 64-bit
-- amount.
pub read-spl_transfer_checked :
    (program source mint destination owner : SolanaKey) (amount decimals : ℕ)
    → IsU64 amount
    → read_transfer_checked
        (spl_transfer_checked_instruction program source mint destination owner amount
          decimals).body
      ≡ some (amount, decimals)
unfolding spl_transfer_checked_instruction put_uint64 read_transfer_checked
read-spl_transfer_checked program source mint destination owner amount decimals h = ground arith
