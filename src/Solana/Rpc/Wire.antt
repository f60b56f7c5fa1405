-- ===== src/Solana/Rpc/Wire.antt =====
-- The transaction in a request of the RPC client.
use clawdwallet.Base.{ℕ, ◌≡◌, refl, String, some, List, [], ◌∷◌, All}
use clawdwallet.Encoding.Hex.{IsByte}
use clawdwallet.Encoding.Text.{codes}
use clawdwallet.Encoding.Base64.{decode_std}
use clawdwallet.Encoding.Base64.Padded.{decode_std-encode_padded}
use clawdwallet.Solana.Rpc.{
  Client, RpcRequest, Setting, text_of, plain, options, RpcEnv, call, send_transaction,
  simulate_transaction,
}

-- The request holds the bytes in base64, and says so.
abbrev pub Carries : List ℕ → RpcRequest → Type 0
Carries raw_tx req =
    (encoded : String) × (settings : List (String × Setting)) × (req.params
      ≡ plain encoded ∷ options (("encoding", text_of "base64") ∷ settings) ∷ [])
    × (decode_std (codes encoded) ≡ some raw_tx)

-- The requests that submit and simulate a transaction name the encoding base64 and hold a text
-- from which standard base64 gives the bytes of the transaction.
pub transactions_carried :
    (env : RpcEnv) (c : Client) (raw_tx : List ℕ)
    → All IsByte raw_tx
    → Carries raw_tx (send_transaction env raw_tx c).1
      × Carries raw_tx (simulate_transaction env raw_tx c).1
unfolding send_transaction simulate_transaction call
transactions_carried env c raw_tx h = (
  (_, _, refl, decode_std-encode_padded raw_tx h),
  (_, _, refl, decode_std-encode_padded raw_tx h),
)
