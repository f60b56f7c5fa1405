-- ===== src/Agent/Payment.antt =====
-- `BuildAndPay` of agent/transfer.go and `X402Payer.Pay` of agent/x402.go: a payment is built, approved,
-- signed and, for the first, sent.
pub mod Approval
pub mod Cleared
use clawdwallet.Base.{
  ℕ, String, Bool, true, false, Option, none, some, List, [], ◌∷◌, Error, Result, ok, err, message,
  about, fail_if, context, ◌>>=◌, ◌>>◌, str_eq, not,
}
use clawdwallet.Encoding.Hex
use clawdwallet.Solana.Keys.{SolanaKey, address_from_pub_key}
use clawdwallet.Solana.Tx.{SolanaTx, message_bytes, attach_signature}
use clawdwallet.Solana.Instructions.{SolanaInstruction, spl_transfer_checked_instruction}
use clawdwallet.Policy.{Intent, ParsedEffects, X402Context, SignResponse, submit, session_id}
use clawdwallet.Store.Share.{Share}
use clawdwallet.Agent.Party.{PeerSpec}
use clawdwallet.Agent.Session.{Sessions}
use clawdwallet.Agent.Ceremony.{SignEnv, Local, Frame}
use clawdwallet.Agent.Signing.{sign_digest}
use clawdwallet.Agent.Transfer.{
  PayEnv, TransferOptions, address_bytes, key_or_zero, instruction_for, token_effects,
  resolve_signers,
}

-- What a payment is before it is signed.
pub record Prepared : Type 0 where
  pub my_key : SolanaKey
  pub tx : SolanaTx
  pub msg : List ℕ
  pub sid : String
  pub signers : List PeerSpec

module _ (env : PayEnv) (sign : SignEnv) (me : Local) (locked : Bool) (my_moniker : String) where
  open env use {
    key_text, associated_token_address, token_program, new_solana_tx, marshal_message, marshal_tx,
    marshal_effects, latest_blockhash, token_supply_decimals, apply, send_transaction,
  }
  open key_text use {parse_solana_key}

  -- The share of a wallet that may pay.
  unfoldable pub payable_share : String → String → String → Result Share
  payable_share if_locked if_none if_no_id = do
    fail_if locked (message if_locked)
    sh ← elim me.share [ none ↦ err (message if_none) | some s ↦ ok s ]
    fail_if (str_eq sh.wallet_id "") (message if_no_id)
    ok sh

  -- The session that an approval names.
  unfoldable pub approved_session : SignResponse → Result String
  approved_session resp = do
    fail_if (not resp.approved) (about "policy denied: %s" resp.reason)
    let sid = session_id (some resp)
    fail_if (str_eq sid "")
        (about "policy approval missing session id (remote_key=%q)" resp.remote_key)
    ok sid

  -- From the message to the signers: both payments go through these steps.
  unfoldable pub approve :
      Share → SolanaKey → SolanaTx → Intent → ParsedEffects → Option X402Context → Result Prepared
  approve sh my_key tx intent parsed x402 = do
    msg ← message_bytes marshal_message (some tx)
    parsed_json ←
        context "encode parsed_effects" (marshal_effects intent parsed x402 parsed.token_deltas)
    resp ← context "policy submit" (submit apply sh.wallet_id (Hex.encode msg) parsed_json)
    sid ← approved_session resp
    signers ← resolve_signers me.spot_id my_moniker (some resp) sh
    ok (record { my_key = my_key; tx = tx; msg = msg; sid = sid; signers = signers })

  unfoldable pub prepare_transfer : TransferOptions → Result Prepared
  prepare_transfer opts = do
    sh ←
        payable_share "wallet is locked" "no share on disk; run keygen first"
          "share has no wallet id; cannot call :signRequest"
    addr ← address_from_pub_key key_text (address_bytes env sh)
    let my_key = key_or_zero env addr
    blockhash ← context "getLatestBlockhash" latest_blockhash
    (ix, parsed) ← instruction_for env my_key opts
    tx ← context "build tx" (new_solana_tx my_key blockhash ix)
    approve sh my_key tx opts.intent parsed opts.x402

  unfoldable pub prepare_x402 : String → String → ℕ → Bool → Result Prepared
  prepare_x402 mint recipient amount has_requirement = do
    sh ← payable_share "wallet locked" "no share available" "share has no wallet id"
    addr ← address_from_pub_key key_text (address_bytes env sh)
    let my_key = key_or_zero env addr
    mint_key ← context "parse mint" (parse_solana_key mint)
    to_key ← context "parse recipient" (parse_solana_key recipient)
    source ← associated_token_address my_key mint_key
    destination ← associated_token_address to_key mint_key
    decimals ← context "fetch decimals" (token_supply_decimals mint)
    blockhash ← latest_blockhash
    tx ← new_solana_tx my_key blockhash (
        spl_transfer_checked_instruction token_program source mint_key destination my_key amount
          decimals)
    approve sh my_key tx
        (record {
          description = "x402 payment";
          skill = "x402";
          reason = "required by remote endpoint";
        })
        (token_effects env mint amount decimals)
        (some (record {
          endpoint = elim has_requirement [ true ↦ recipient | false ↦ "" ];
          resource = "";
        }))

  -- The signed transaction, encoded by `marshal`.
  unfoldable pub signed_wire : (SolanaTx → Result (List ℕ)) → Prepared → List ℕ → Result (List ℕ)
  signed_wire marshal p sig = do tx ← attach_signature p.tx p.my_key sig; marshal tx

  abbrev pub marshal_signed : SolanaTx → Result (List ℕ)
  marshal_signed tx = context "marshal signed tx" (marshal_tx tx)

  -- The sessions and the frames are those of `SignDigest`.
  unfoldable pub build_and_pay : TransferOptions → Sessions → Sessions × List Frame × Result String
  build_and_pay opts sessions = elim (prepare_transfer opts) [
    | err e ↦ (sessions, [], err e)
    | ok p ↦
        let (after, frames, r) = sign_digest sign me p.sid p.msg p.signers sessions in
        (after, frames, context "tss sign" r >>= signed_wire marshal_signed p >>= send_transaction)
  ]

  unfoldable pub pay :
      String → String → ℕ → Bool → Sessions → Sessions × List Frame × Result (List ℕ)
  pay mint recipient amount has_requirement sessions =
      elim (prepare_x402 mint recipient amount has_requirement) [
        | err e ↦ (sessions, [], err e)
        | ok p ↦
            let (after, frames, r) = sign_digest sign me p.sid p.msg p.signers sessions in
            (after, frames, r >>= signed_wire marshal_tx p)
      ]
