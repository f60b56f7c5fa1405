-- ===== src/Agent/Keygen.antt =====
-- agent/keygen.go and `SetShare` of agent/agent.go: an init message, key generation, and what is kept.
pub mod Join
pub mod Saved
use Prim.Native.String
use clawdwallet.Base.{
  ℕ, String, Bool, true, false, Option, none, some, List, [], ◌∷◌, map, Error, Result, ok, err,
  message, about, wrap, context, fail_if, ◌>>=◌, ◌>>◌, if◌then◌else◌, str_eq, length,
}
use clawdwallet.Base.Machine.{ℤ}
use clawdwallet.Store.Point.{ed_point_bytes}
use clawdwallet.Store.Share.{Share, FrostKey, schema_frost, schema_dkls23, solana_address_bytes}
use clawdwallet.Store.Disk.{WriteFault, Bottles, Disk, save}
use clawdwallet.Solana.Keys.{KeyText, address_from_pub_key}
use clawdwallet.Agent.Protocol.{resolve_curve_protocol, protocol_frost, protocol_dkls23}
use clawdwallet.Agent.Party.{
  Libraries, PeerSpec, PartyId, sorted_party_ids, shared_peer_keys, shared_peer_spot_ids,
  find_my_party_id, contains_spot_id,
}
use clawdwallet.Agent.Session.{
  Session, Sessions, InitPayload, session_keygen, session_sign, session_reshare, put, drop,
}
use clawdwallet.Agent.Ceremony.{
  Outcome, done, failed, session_over, ctx_over, SignParams, Frame, walletsign_frame,
}

-- What an accepted init runs in a goroutine: `joinKeygen` or `joinSign` of a session and a payload.
pub data Started : Type 0 where
  keygen sign : String → InitPayload → Started

-- The sender is not read. Each accepted init is answered by `{"accepted":true}`.
unfoldable pub on_init : String → String → InitPayload → Result Started
on_init sid from ip =
    if str_eq ip.kind session_keygen
    then ok (Started.keygen sid ip)
    else if str_eq ip.kind session_sign
    then ok (Started.sign sid ip)
    else if str_eq ip.kind session_reshare
    then err (message "reshare ceremonies are not enabled in Stage 1")
    else err (about "unknown session kind %q" ip.kind)

unfoldable pub wallet_id_or_sid : InitPayload → String → String
wallet_id_or_sid ip sid = if str_eq ip.wallet_id "" then sid else ip.wallet_id

-- tss-lib's key generation.
pub record KeygenEnv : Type 1 where
  pub lib : Libraries
  pub DklsKey : Type 0
  pub save_key : DklsKey → Result (List ℕ)
  pub ecdsa_pub : DklsKey → Option (List ℕ)
  pub frost_keygen : SignParams → Result (Outcome (Option FrostKey))
  pub dkls_keygen : SignParams → Result (Outcome (Option DklsKey))

-- The public key of a FROST share, and of a DKLs23 share; `[]` is nil.
abbrev frost_pub : FrostKey → List ℕ
frost_pub k = elim k.group_public_key [ none ↦ [] | some p ↦ ed_point_bytes p ]

abbrev or_nil : Option (List ℕ) → List ℕ
or_nil none = []
or_nil (some b) = b

-- A runner's `select`; `none` is the nil share of a session that ended without an error.
unfoldable pub kept : {V : Type 0} → (V → Result (Option Share)) → Outcome V → Result (Option Share)
kept f (done v) = f v
kept f (failed e) = err e
kept f (session_over none) = ok none
kept f (session_over (some e)) = err e
kept f (ctx_over e) = err e

module _ (env : KeygenEnv) where
  open env use {lib, DklsKey, save_key, ecdsa_pub, frost_keygen, dkls_keygen}

  -- What both schemas keep of the init.
  abbrev share_of : String → InitPayload → String → Share
  share_of sid ip schema = record {
    wallet_id = wallet_id_or_sid ip sid;
    schema = schema;
    party_key = none;
    peer_keys = map some (shared_peer_keys lib ip.peers);
    peer_spot_ids = shared_peer_spot_ids lib ip.peers;
    threshold = ip.threshold;
    frost_key = none;
    dkls_blob = [];
    pub_key = [];
    secp256k1_pub = [];
  }

  unfoldable pub save_frost_share : String → InitPayload → Option FrostKey → Option Share
  save_frost_share sid ip none = none
  save_frost_share sid ip (some k) =
      some (record (share_of sid ip schema_frost) { frost_key = some k; pub_key = frost_pub k })

  unfoldable pub save_dkls_share : String → InitPayload → Option DklsKey → Result Share
  save_dkls_share sid ip none = err (message "dklstss keygen returned nil key")
  save_dkls_share sid ip (some k) = do
    blob ← context "dklstss.Key.Save" (save_key k)
    ok (record (share_of sid ip schema_dkls23) {
      dkls_blob = blob;
      secp256k1_pub = or_nil (ecdsa_pub k);
    })

  unfoldable pub run_keygen_frost : String → InitPayload → SignParams → Result (Option Share)
  run_keygen_frost sid ip params =
      context "frosttss keygen start" (frost_keygen params)
      >>= kept (λ k. ok (save_frost_share sid ip k))

  unfoldable pub run_keygen_dkls : String → InitPayload → SignParams → Result (Option Share)
  run_keygen_dkls sid ip params =
      context "dklstss keygen start" (dkls_keygen params)
      >>= kept (λ k. save_dkls_share sid ip k >>= λ sh. ok (some sh))

  abbrev pub runner_for : String → String → InitPayload → SignParams → Result (Option Share)
  runner_for protocol sid ip params =
      if str_eq protocol protocol_frost
      then run_keygen_frost sid ip params
      else if str_eq protocol protocol_dkls23
      then run_keygen_dkls sid ip params
      else err (about "keygen: protocol %q is not wired" protocol)

  abbrev keygen_session : String → InitPayload → PartyId → Session
  keygen_session sid ip my_id = record {
    id = sid;
    kind = session_keygen;
    peers = ip.peers;
    self = my_id;
    finished = none;
  }

  unfoldable pub run_keygen :
      String → String → InitPayload → Sessions → Sessions × Result (Option Share)
  run_keygen my_spot sid ip sessions = elim (resolve_curve_protocol ip.curve ip.protocol) [
    | err e ↦ (sessions, err (wrap "keygen" e))
    | ok resolved ↦
        let sorted = sorted_party_ids lib ip.peers in
        elim (find_my_party_id sorted my_spot) [
          | none ↦ (sessions, err (message "keygen: this agent's PartyID could not be located"))
          | some my_id ↦ (
            drop sid (put (keygen_session sid ip my_id) sessions),
            runner_for resolved.protocol sid ip (record {
              group = resolved.group;
              parties = sorted;
              self = my_id;
              count = length sorted;
              threshold = ip.threshold;
            }),
          )
        ]
  ]
