-- ===== src/Agent/Ceremony.antt =====
-- The ceremony of agent/signing.go: what a signer runs, `runSignWithSession` and the runners of the two
-- protocols, with the records that pass between the agent, tss-lib and the network.
use Prim.Native.String
use clawdwallet.Base.{
  ℕ, String, Bool, Option, none, some, List, [], ◌∷◌, ◌++◌, Error, Result, ok, err, message, about,
  counted, context, ◌>>=◌, if◌then◌else◌, str_eq, ◌==◌, length,
}
use clawdwallet.Base.Machine.{ℤ, pos}
use clawdwallet.Store.Share.{Share, FrostKey, schema_frost, schema_dkls23, load_dkls}
use clawdwallet.Agent.Protocol.{
  EllipticCurve, protocol_frost, protocol_dkls23, curve_ed25519, curve_secp256k1,
  resolve_curve_protocol, big_int_to_fixed,
}
use clawdwallet.Agent.Party.{Libraries, PartyId}

-- `wdroneTxsignInit`. The digest is its characters.
pub record TxsignInit : Type 0 where
  pub peers : List PartyId
  pub name : PartyId
  pub threshold : ℤ
  pub curve : String
  pub protocol : String
  pub digest : List ℕ
  pub sid : String
  pub kind : String

-- What tss-lib's parameters are made of.
pub record SignParams : Type 0 where
  pub group : EllipticCurve
  pub parties : List PartyId
  pub self : PartyId
  pub count : ℕ
  pub threshold : ℤ

-- What the `select` of a runner receives first: the library's value of type `V`, its error, the end of
-- the session, or the end of the context.
pub data Outcome (V : Type 0) : Type 0 where
  done : V → Outcome V
  failed : Error → Outcome V
  session_over : Option Error → Outcome V
  ctx_over : Error → Outcome V

pub record DklsSignature : Type 0 where
  pub r : ℕ
  pub s : ℕ
  pub v : ℕ

-- A message handed to the network: its target path, its sender path and its body.
pub record Frame : Type 0 where
  pub target : String
  pub sender : String
  pub body : List ℕ

-- tss-lib's signers, `json.Marshal`, and the network. `send` is the client's answer to a frame.
pub record SignEnv : Type 1 where
  pub lib : Libraries
  pub DklsKey : Type 0
  pub load : List ℕ → Result DklsKey
  pub frost_signing : FrostKey → List ℕ → SignParams → Result (Outcome (List ℕ))
  pub dkls_signing : DklsKey → List ℕ → SignParams → Result (Outcome DklsSignature)
  pub marshal : TxsignInit → Result (List ℕ)
  pub send : Frame → Option Error

-- What `Agent` holds that signing reads.
pub record Local : Type 0 where
  pub started : Bool
  pub spot_id : String
  pub share : Option Share

abbrev pub slash : String → String → String
slash a b = String.◌++◌ a (String.◌++◌ "/" b)

-- The frame that `sendWalletSign` makes of its arguments.
unfoldable pub walletsign_frame : String → String → String → String → String → List ℕ → Frame
walletsign_frame my_spot target sid suffix party_id body = record {
  target =
      let base = slash target (slash "walletsign" sid) in
      if str_eq suffix "" then base else slash base suffix;
  sender =
      if str_eq party_id ""
      then slash my_spot (slash "walletsign" sid)
      else slash my_spot (slash sid party_id);
  body = body;
}

unfoldable pub protocol_for_schema : String → Result (String × String)
protocol_for_schema schema =
    if str_eq schema schema_frost
    then ok (curve_ed25519, protocol_frost)
    else if str_eq schema schema_dkls23
    then ok (curve_secp256k1, protocol_dkls23)
    else err (about "unsupported share schema %q" schema)

-- The value that a runner returns for what it received. A session that is over without an error gives
-- no bytes and no error.
unfoldable pub received : {V : Type 0} → (V → Result (List ℕ)) → Outcome V → Result (List ℕ)
received f (done v) = f v
received f (failed e) = err e
received f (session_over none) = ok []
received f (session_over (some e)) = err e
received f (ctx_over e) = err e

abbrev pub frost_bytes : List ℕ → Result (List ℕ)
frost_bytes sig =
    if length sig == 64
    then ok sig
    else err (counted "sign: unexpected frost signature length %d" (pos (length sig) ∷ []))

abbrev pub dkls_bytes : DklsSignature → Result (List ℕ)
dkls_bytes s = ok (big_int_to_fixed s.r 32 ++ big_int_to_fixed s.s 32 ++ (s.v ∷ []))

module _ (env : SignEnv) (me : Local) where
  open env use {load, frost_signing, dkls_signing}

  unfoldable pub run_sign_frost : SignParams → Share → List ℕ → Result (List ℕ)
  run_sign_frost params sh digest = elim sh.frost_key [
    | none ↦ err (message "sign: share missing frost key data")
    | some k ↦
        context "frosttss signing start" (frost_signing k digest params) >>= received frost_bytes
  ]

  unfoldable pub run_sign_dkls : SignParams → Share → List ℕ → Result (List ℕ)
  run_sign_dkls params sh digest = context "sign" (load_dkls load sh) >>= λ key.
      context "dklstss signing start" (dkls_signing key digest params) >>= received dkls_bytes

  abbrev run_for : String → SignParams → Share → List ℕ → Result (List ℕ)
  run_for protocol params sh digest =
      if str_eq protocol protocol_frost
      then run_sign_frost params sh digest
      else if str_eq protocol protocol_dkls23
      then run_sign_dkls params sh digest
      else err (about "sign: protocol %q is not wired" protocol)

  abbrev pub params_of : EllipticCurve → List PartyId → PartyId → Share → SignParams
  params_of group sorted my_id sh = record {
    group = group;
    parties = sorted;
    self = my_id;
    count = length sorted;
    threshold = sh.threshold;
  }

  -- The registry is the caller's: the session is dropped when this returns.
  unfoldable pub run_sign_with_session : List PartyId → PartyId → Share → List ℕ → Result (List ℕ)
  run_sign_with_session sorted my_id sh digest = do
    (curve, protocol) ← protocol_for_schema sh.schema
    resolved ← context "sign" (resolve_curve_protocol curve protocol)
    run_for protocol (params_of resolved.group sorted my_id sh) sh digest
