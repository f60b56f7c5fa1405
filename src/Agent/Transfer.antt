-- ===== src/Agent/Transfer.antt =====
-- agent/transfer.go: a payment, from its options to the network.
pub mod Effects
pub mod Signers
use Prim.Native.String
use clawdwallet.Base.{
  ℕ, zero, suc, ◌+◌, String, Bool, true, false, Option, none, some, List, [], ◌∷◌, ◌++◌, map, Error,
  Result, ok, err, message, about, fail_if, context, ◌>>=◌, ◌>>◌, if◌then◌else◌, str_eq, ltb, leb,
  not, length, replicate,
}
use clawdwallet.Base.Machine.{ℤ, pos, negsuc, int64, neg_int64}
use clawdwallet.Encoding.Hex
use clawdwallet.Encoding.Text.{text}
use clawdwallet.Encoding.Base64.{encode_raw, url}
use clawdwallet.Encoding.BigInt
use clawdwallet.Solana.Keys.{SolanaKey, KeyText, address_from_pub_key}
use clawdwallet.Solana.Tx.{Message, SolanaTx, message_bytes, attach_signature}
use clawdwallet.Solana.Instructions.{SolanaInstruction, spl_transfer_checked_instruction}
use clawdwallet.Policy.{
  Intent, ParsedEffects, TokenDelta, X402Context, SignRequest, SignResponse, RawResponse, PeerInit,
  PolicyPayload, submit, session_id,
}
use clawdwallet.Store.Share.{Share, solana_address_bytes}
use clawdwallet.Agent.Party.{PeerSpec}
use clawdwallet.Agent.Session.{Sessions}
use clawdwallet.Agent.Ceremony.{SignEnv, Local, Frame}
use clawdwallet.Agent.Signing.{sign_digest}

pub record TransferOptions : Type 0 where
  pub to : String
  pub mint : String
  pub amount : ℕ
  pub decimals : ℕ
  pub intent : Intent
  pub x402 : Option X402Context

-- outscript, `json.Marshal`, the RPC node and the platform: each the answer to a call.
pub record PayEnv : Type 1 where
  pub key_text : KeyText
  pub associated_token_address : SolanaKey → SolanaKey → Result SolanaKey
  pub system_program : SolanaKey
  pub token_program : SolanaKey
  pub transfer_instruction : SolanaKey → SolanaKey → ℕ → SolanaInstruction
  pub new_solana_tx : SolanaKey → String → SolanaInstruction → Result SolanaTx
  pub marshal_message : Message → Result (List ℕ)
  pub marshal_tx : SolanaTx → Result (List ℕ)
  pub marshal_effects :
      Intent → ParsedEffects → Option X402Context → List TokenDelta → Result (List ℕ)
  pub latest_blockhash : Result String
  pub token_supply_decimals : String → Result ℕ
  pub apply : SignRequest → Result RawResponse
  pub send_transaction : List ℕ → Result String

-- The key that is found with an id, by the position of the id.
key_at : List String → List (Option ℕ) → String → String
key_at [] keys spot_id = ""
key_at (id ∷ ids) [] spot_id = ""
key_at (id ∷ ids) (k ∷ keys) spot_id =
    let rest = key_at ids keys spot_id in
    if str_eq id spot_id
    then elim k [ none ↦ "" | some n ↦ text (encode_raw url (BigInt.bytes n)) ]
    else rest

unfoldable pub share_key_for : Option Share → String → String
unfolding key_at
share_key_for none spot_id = ""
share_key_for (some sh) spot_id = key_at sh.peer_spot_ids sh.peer_keys spot_id

-- The moniker of a peer of the policy's payload.
abbrev pub moniker_of : String → String → PeerInit → String
moniker_of my_spot my_moniker p =
    if str_eq p.moniker ""
    then if str_eq p.spot_id my_spot then my_moniker else "peer"
    else p.moniker

abbrev policy_peers : Option SignResponse → List PeerInit
policy_peers none = []
policy_peers (some r) = elim r.init_payload [ none ↦ [] | some ip ↦ ip.peers ]

-- The loop over the share's peers. `n` is the length of the list so far, `want` is `sh.Threshold+1`.
unfoldable pub add_peers : Share → String → ℕ → ℕ → List String → List PeerSpec
add_peers sh my_spot want n [] = []
add_peers sh my_spot want n (id ∷ ids) =
    let skipped = add_peers sh my_spot want n ids in
    let more = add_peers sh my_spot want (suc n) ids in
    let p : PeerSpec = record {
      spot_id = id;
      moniker = "peer";
      key = share_key_for (some sh) id;
    } in
    if str_eq id my_spot then skipped else if leb want (suc n) then p ∷ [] else p ∷ more

-- `sh.Threshold+1` of an `int`, as the capacity of a slice; `none` where it is negative and `make`
-- panics.
abbrev pub capacity : ℤ → Option ℕ
capacity (pos t) = some (suc t)
capacity (negsuc zero) = some 0
capacity (negsuc (suc m)) = none

-- The signers that the share gives. The panic of `make` is kept as an error: it ends the callers too.
unfoldable pub share_signers : String → String → Share → Result (List PeerSpec)
share_signers my_spot my_moniker sh = do
  fail_if (leb (length sh.peer_spot_ids) 0) (message "no signer peers known")
  want ← elim (capacity sh.threshold) [
    | none ↦ err (message "makeslice: cap out of range")
    | some c ↦ ok c
  ]
  ok (
      record { spot_id = my_spot; moniker = my_moniker; key = share_key_for (some sh) my_spot }
      ∷ add_peers sh my_spot want 1 sh.peer_spot_ids)

unfoldable pub resolve_signers :
    String → String → Option SignResponse → Share → Result (List PeerSpec)
resolve_signers my_spot my_moniker resp sh = elim (policy_peers resp) [
  | [] ↦ share_signers my_spot my_moniker sh
  | p ∷ ps ↦ ok (
      map
        (λ q. record {
          spot_id = q.spot_id;
          moniker = moniker_of my_spot my_moniker q;
          key = q.key;
        })
        (p ∷ ps))
]

-- `-int64(amount)`
abbrev pub delta_of : ℕ → ℤ
delta_of amount = neg_int64 (int64 amount)

abbrev pub no_effects : ParsedEffects
no_effects = record {
  sol_delta = pos 0;
  token_deltas = [];
  programs_invoked = [];
  accounts_created = [];
  programs_deployed = [];
}

abbrev zero_key : SolanaKey
zero_key = replicate 32 0

module _ (env : PayEnv) where
  open env use {
    key_text, associated_token_address, system_program, token_program, transfer_instruction,
    new_solana_tx, marshal_message, marshal_tx, marshal_effects, latest_blockhash, apply,
    send_transaction,
  }
  open key_text use {key_string, parse_solana_key}

  abbrev pub address_bytes : Share → List ℕ
  address_bytes sh = elim (solana_address_bytes sh) [ none ↦ [] | some b ↦ b ]

  -- `myKey, _ := outscript.ParseSolanaKey(addr)`
  abbrev pub key_or_zero : String → SolanaKey
  key_or_zero addr = elim (parse_solana_key addr) [ ok k ↦ k | err _ ↦ zero_key ]

  unfoldable pub sol_transfer :
      SolanaKey → TransferOptions → Result (SolanaInstruction × ParsedEffects)
  sol_transfer my_key opts = do
    to_key ← context "parse dest" (parse_solana_key opts.to)
    ok (
      transfer_instruction my_key to_key opts.amount,
      record no_effects {
        sol_delta = delta_of opts.amount;
        programs_invoked = key_string system_program ∷ [];
      },
    )

  abbrev pub token_effects : String → ℕ → ℕ → ParsedEffects
  token_effects mint amount decimals = record no_effects {
    token_deltas =
        record { mint = mint; symbol = ""; delta = delta_of amount; decimals = decimals } ∷ [];
    programs_invoked = key_string token_program ∷ [];
  }

  unfoldable pub token_transfer :
      SolanaKey → TransferOptions → Result (SolanaInstruction × ParsedEffects)
  token_transfer my_key opts = do
    mint_key ← context "parse mint" (parse_solana_key opts.mint)
    to_key ← context "parse dest" (parse_solana_key opts.to)
    source ← context "derive source ATA" (associated_token_address my_key mint_key)
    destination ← context "derive dest ATA" (associated_token_address to_key mint_key)
    ok (
      spl_transfer_checked_instruction token_program source mint_key destination my_key opts.amount
          opts.decimals,
      token_effects opts.mint opts.amount opts.decimals,
    )

  unfoldable pub instruction_for :
      SolanaKey → TransferOptions → Result (SolanaInstruction × ParsedEffects)
  instruction_for my_key opts =
      if str_eq opts.mint "" then sol_transfer my_key opts else token_transfer my_key opts
