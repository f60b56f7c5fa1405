-- ===== src/Examples/Wires.antt =====
-- The bytes of transactions and points, and the replies of the MCP server.
use clawdwallet.Base.{
  ℕ, ◌+◌, ◌*◌, ◌%◌, ◌^◌, ◌<◌, ◌≡◌, ◌≢◌, refl, String, not, ◌||◌, str_eq, none, some, List, [], ◌∷◌,
  length, replicate, get_elem?, ok, arith,
}
use clawdwallet.Encoding.BigInt.{little}
use clawdwallet.Store.Point.{EcPoint, ed_point_bytes}
use clawdwallet.Store.Point.Canonical.{little-ed_point_bytes, ed_point_bytes_short}
use clawdwallet.Solana.Keys.{SolanaKey}
use clawdwallet.Solana.Tx.{
  SolanaTx, attach_signature, signer_slot, grown, num_required_signatures, message_account_keys,
}
use clawdwallet.Solana.Tx.Attach.{IsSignerSlot, attach_signature_lem}
use clawdwallet.Solana.Instructions.{spl_transfer_checked_instruction}
use clawdwallet.Solana.Instructions.Layout.{read_transfer_checked, read-spl_transfer_checked}
use clawdwallet.Mcp.{Json, ToolSpec, answer}
use clawdwallet.Mcp.Replies.{has_one, has_one-answer}

abbrev tall : EcPoint
tall = record { x = 3; y = 2 ^ 248 + 7 }

little-ed_point_bytes_example :
    (length (ed_point_bytes tall) ≡ 32)
    × (little (ed_point_bytes tall) ≡ tall.y + tall.x % 2 * 2 ^ 255)
little-ed_point_bytes_example = little-ed_point_bytes tall (omega arith) (omega arith)

abbrev short : EcPoint
short = record { x = 2; y = 5 }

ed_point_bytes_short_example : little (ed_point_bytes short) ≢ short.y + short.x % 2 * 2 ^ 255
ed_point_bytes_short_example = ed_point_bytes_short short (omega arith) (omega arith)

read-spl_transfer_checked_example :
    read_transfer_checked (spl_transfer_checked_instruction [] [] [] [] [] 1500000 6).body
    ≡ some (1500000, 6)
read-spl_transfer_checked_example = read-spl_transfer_checked [] [] [] [] [] 1500000 6 (omega arith)

abbrev key : ℕ → SolanaKey
key n = n ∷ []

-- Two signers; the second signs.
abbrev tx : SolanaTx
tx = record {
  legacy = record {
    num_required_signatures = 2;
    account_keys = key 1 ∷ key 2 ∷ key 3 ∷ [];
    body = [];
  };
  v0 = none;
  signatures = [];
}

abbrev sig : List ℕ
sig = replicate 64 9

abbrev signed : SolanaTx
signed = record tx { signatures = [] ∷ sig ∷ [] }

attached : attach_signature tx (key 2) sig ≡ ok signed
unfolding attach_signature signer_slot grown num_required_signatures message_account_keys
attached = refl

attach_signature_lem_example :
    (length sig ≡ 64)
    × ((i : ℕ) × IsSignerSlot tx (key 2) i
        × (get_elem? signed.signatures i ≡ some sig)
        × ((j : ℕ)
            → i ≢ j
            → j < length tx.signatures
            → get_elem? signed.signatures j ≡ get_elem? tx.signatures j))
    × (signed.legacy ≡ tx.legacy)
    × (signed.v0 ≡ tx.v0)
attach_signature_lem_example = attach_signature_lem tx signed (key 2) sig attached

-- JSON kept as its text.
abbrev json : Json
json = record {
  Value = String;
  object = λ _. "{}";
  list = λ _. "[]";
  string = λ s. s;
  boolean = λ _. "true";
  number = λ _. "0";
  error_text = λ _. "error";
  quote = λ v. v;
}

abbrev tools : List (ToolSpec json)
tools =
    record { name = "get_address"; description = "d"; input_schema = "{}"; run = λ _. ok "addr" }
    ∷ []

has_one-answer_example :
    has_one (answer json tools "initialized" none)
    ≡ not (str_eq "initialized" "notifications/initialized" || str_eq "initialized" "initialized")
has_one-answer_example = has_one-answer json tools "initialized" none
