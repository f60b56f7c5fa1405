-- ===== src/Examples/Payments.antt =====
-- A transfer that is approved, signed and sent, and an x402 request that is paid for.
use clawdwallet.Base.{
  ℕ, ◌≤◌, ◌^◌, ◌≡◌, ◌↔◌, refl, true, false, none, some, List, [], ◌∷◌, replicate, length, ok, err,
  message, arith,
}
use clawdwallet.Base.Machine.{pos}
use clawdwallet.Store.Share.{Share}
use clawdwallet.Solana.Keys.{SolanaKey}
use clawdwallet.Solana.Tx.{SolanaTx, message_bytes, attach_signature}
use clawdwallet.Solana.Instructions.{SolanaInstruction}
use clawdwallet.Policy.{Intent, ParsedEffects}
use clawdwallet.Agent.Party.{PeerSpec}
use clawdwallet.Agent.Ceremony.{Local, Frame}
use clawdwallet.Agent.Signing.{sign_digest}
use clawdwallet.Agent.Transfer.{
  PayEnv, TransferOptions, instruction_for, share_key_for, share_signers,
}
use clawdwallet.Agent.Transfer.Effects.{minus, reported, reported_iff}
use clawdwallet.Agent.Transfer.Signers.{count, share_signers-count}
use clawdwallet.Agent.Payment.{Prepared, prepare_transfer, build_and_pay, pay}
use clawdwallet.Agent.Payment.Cleared.{IsCleared, build_and_pay-IsCleared}
use clawdwallet.Agent.Handlers.Lock.{lock_after, locked-refuses}
use clawdwallet.Examples.KeyTexts.{key_text}
use clawdwallet.Examples.World.{libraries, share, sign_env, five_key}

abbrev payer : Local
payer = record { started = true; spot_id = "a"; share = some (record share { pub_key = five_key }) }

abbrev unsigned : SolanaTx
unsigned = record {
  legacy = record { num_required_signatures = 1; account_keys = five_key ∷ []; body = 171 ∷ [] };
  v0 = none;
  signatures = [];
}

abbrev pay_env : PayEnv
pay_env = record {
  key_text = key_text;
  associated_token_address = λ owner mint. ok owner;
  system_program = replicate 32 0;
  token_program = replicate 32 6;
  transfer_instruction =
      λ from to amount. record { program_id = replicate 32 0; accounts = []; body = amount ∷ [] };
  new_solana_tx = λ k hash ix. ok unsigned;
  marshal_message = λ m. ok m.body;
  marshal_tx = λ tx. ok (1 ∷ []);
  marshal_effects = λ intent parsed x402 deltas. ok (123 ∷ 125 ∷ []);
  latest_blockhash = ok "hash";
  token_supply_decimals = λ mint. ok 6;
  apply = λ req. ok (record {
    session = "s1";
    remote_key = "w:s1";
    wdrone_spot_id = "b";
    init_payload = some (record {
      sid = "s1";
      type_field = "txsign";
      curve = "ed25519";
      threshold = pos 1;
      peers =
          record { spot_id = "a"; moniker = ""; key = "Ag" }
          ∷ record { spot_id = "b"; moniker = ""; key = "AQ" }
          ∷ [];
      digest = "";
      message_field = "";
      wallet_id = "w";
    });
  });
  send_transaction = λ wire. ok "txid";
}

abbrev opts : TransferOptions
opts = record {
  to = "dest";
  mint = "";
  amount = 1000;
  decimals = 9;
  intent = record { description = "d"; skill = ""; reason = "r" };
  x402 = none;
}

abbrev prepared : Prepared
prepared = record {
  my_key = five_key;
  tx = unsigned;
  msg = 171 ∷ [];
  sid = "s1";
  signers =
      record { spot_id = "a"; moniker = "claw"; key = "Ag" }
      ∷ record { spot_id = "b"; moniker = "peer"; key = "AQ" }
      ∷ [];
}

ready : prepare_transfer pay_env sign_env payer false "claw" opts ≡ ok prepared
unfolding prepare_transfer clawdwallet.Agent.Payment.payable_share
    clawdwallet.Solana.Keys.address_from_pub_key clawdwallet.Store.Share.solana_address_bytes
    instruction_for clawdwallet.Agent.Transfer.sol_transfer key_text
    clawdwallet.Agent.Payment.approve clawdwallet.Solana.Tx.message_bytes clawdwallet.Policy.submit
    clawdwallet.Encoding.Hex.encode clawdwallet.Agent.Payment.approved_session
    clawdwallet.Policy.unmarshal_response clawdwallet.Policy.session_id
    clawdwallet.Encoding.Text.cut clawdwallet.Agent.Transfer.resolve_signers
ready = refl

sevens : (sign_digest sign_env payer "s1" (171 ∷ []) prepared.signers []).2 ≡ ok (replicate 64 7)
unfolding sign_digest sign_env clawdwallet.Agent.Signing.sign_guards
    clawdwallet.Agent.Signing.signer_guards clawdwallet.Agent.Ceremony.protocol_for_schema
    clawdwallet.Agent.Signing.send_inits clawdwallet.Agent.Signing.send_init
    clawdwallet.Agent.Ceremony.run_sign_with_session clawdwallet.Agent.Ceremony.run_sign_frost
    clawdwallet.Agent.Ceremony.received clawdwallet.Agent.Signing.leader_init
    clawdwallet.Agent.Party.contains_spot_id clawdwallet.Agent.Party.find_my_party_id
    clawdwallet.Agent.Party.sorted_party_ids clawdwallet.Agent.Party.party_id_from_peer
    clawdwallet.Agent.Party.key_int clawdwallet.Encoding.Base64.decode_raw_url
    clawdwallet.Encoding.Base64.decode_raw clawdwallet.Encoding.Base64.skip_newlines
    clawdwallet.Encoding.Base64.sextet_value libraries clawdwallet.Encoding.BigInt.set_bytes
    clawdwallet.Agent.Protocol.resolve_curve_protocol
sevens = refl

sent : (build_and_pay pay_env sign_env payer false "claw" opts []).2 ≡ ok "txid"
unfolding build_and_pay clawdwallet.Agent.Payment.signed_wire attach_signature
    clawdwallet.Solana.Tx.signer_slot clawdwallet.Solana.Tx.message_account_keys
    clawdwallet.Solana.Tx.num_required_signatures
sent = rw (ready, sevens, build_and_pay)

build_and_pay-IsCleared_example :
    (p : Prepared) × (sig wire : List ℕ) × (tx : SolanaTx) × (IsCleared pay_env sign_env payer false
        "claw" opts p
      × ((sign_digest sign_env payer p.sid p.msg p.signers []).2 ≡ ok sig)
      × (attach_signature p.tx p.my_key sig ≡ ok tx)
      × (message_bytes pay_env.marshal_message (some tx) ≡ ok p.msg)
      × (pay_env.marshal_tx tx ≡ ok wire)
      × (pay_env.send_transaction wire ≡ ok "txid"))
build_and_pay-IsCleared_example =
    build_and_pay-IsCleared pay_env sign_env payer false "claw" opts [] "txid" sent

locked-refuses_example :
    (build_and_pay pay_env sign_env payer
        (lock_after (ok "lock" ∷ ok "ping" ∷ []) false)
        "claw"
        opts
        []
      ≡ ([], [], err (message "wallet is locked")))
    × (pay pay_env sign_env payer
          (lock_after (ok "lock" ∷ ok "ping" ∷ []) false)
          "claw"
          "mint"
          "dest"
          5
          true
          []
        ≡ ([], [], err (message "wallet locked")))
locked-refuses_example =
    locked-refuses (ok "ping" ∷ []) false pay_env sign_env payer "claw" opts "mint" "dest" 5 true []
      ((λ h. cc), tt)

abbrev ix : SolanaInstruction
ix = record { program_id = replicate 32 0; accounts = []; body = 1000 ∷ [] }

abbrev parsed : ParsedEffects
parsed = record {
  sol_delta = minus 1000;
  token_deltas = [];
  programs_invoked = key_text.key_string (replicate 32 0) ∷ [];
  accounts_created = [];
  programs_deployed = [];
}

built : instruction_for pay_env five_key opts ≡ ok (ix, parsed)
unfolding instruction_for clawdwallet.Agent.Transfer.sol_transfer key_text
built = refl

reported_iff_example : (reported parsed ≡ minus 1000) ↔ (1000 ≤ 2 ^ 63)
reported_iff_example = reported_iff pay_env five_key opts ix parsed built (omega arith)

abbrev from_share : List PeerSpec
from_share =
    record { spot_id = "a"; moniker = "claw"; key = share_key_for (some share) "a" }
    ∷ record { spot_id = "b"; moniker = "peer"; key = share_key_for (some share) "b" }
    ∷ []

two_signers : share_signers "a" "claw" share ≡ ok from_share
unfolding share_signers clawdwallet.Agent.Transfer.add_peers
two_signers = refl

share_signers-count_example : (count "a" from_share ≡ 1) × (length from_share ≤ 2)
share_signers-count_example = share_signers-count "a" "claw" share 0 from_share refl two_signers
