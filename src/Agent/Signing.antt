-- ===== src/Agent/Signing.antt =====
-- agent/signing.go and `sendWalletSign` of agent/agent.go: how the agent leads a signing ceremony and
-- how it joins one.
pub mod Lead
pub mod Inits
pub mod Signature
pub mod Asked
pub mod Joins
pub mod Race
use Prim.Native.String
use clawdwallet.Base.{
  ℕ, suc, ◌+◌, String, Bool, true, false, Option, none, some, List, [], ◌∷◌, ◌++◌, Error, Result,
  ok, err, message, about, counted, wrap, fail_if, context, ◌>>=◌, ◌>>◌, if◌then◌else◌, str_eq, ltb,
  ◌==◌, not, length,
}
use clawdwallet.Base.Machine.{ℤ, pos, negsuc, plus_one}
use clawdwallet.Encoding.Hex
use clawdwallet.Encoding.Text.{codes}
use clawdwallet.Store.Share.{Share, FrostKey, schema_frost, schema_dkls23, load_dkls}
use clawdwallet.Agent.Protocol.{
  EllipticCurve, protocol_frost, protocol_dkls23, curve_ed25519, curve_secp256k1,
  resolve_curve_protocol, decode_digest_bytes, big_int_to_fixed,
}
use clawdwallet.Agent.Party.{
  Libraries, PeerSpec, PartyId, sorted_party_ids, find_my_party_id, contains_spot_id,
}
use clawdwallet.Agent.Ceremony.{
  TxsignInit, SignParams, Outcome, DklsSignature, Frame, SignEnv, Local, slash, walletsign_frame,
  protocol_for_schema, received, frost_bytes, dkls_bytes, run_sign_frost, run_sign_dkls, params_of,
  run_sign_with_session, done, failed, session_over, ctx_over,
}
use clawdwallet.Agent.Session.{Session, Sessions, InitPayload, session_sign, put, drop}

-- `n < t + 1` of a length and an `int`
abbrev pub is_short : ℕ → ℤ → Bool
is_short n (pos t) = ltb n (t + 1)
is_short n (negsuc m) = false

unfoldable pub leader_init :
    String → List PartyId → PartyId → ℤ → List ℕ → String → String → TxsignInit
leader_init sid sorted name threshold digest curve protocol = record {
  peers = sorted;
  name = name;
  threshold = threshold;
  curve = curve;
  protocol = protocol;
  digest = Hex.encode digest;
  sid = sid;
  kind = session_sign;
}

module _ (env : SignEnv) (me : Local) where
  open env use {lib, marshal, send}

  -- One turn of the loop over the signers, for a peer.
  unfoldable pub send_init :
      (PartyId → TxsignInit) → List PartyId → String → PeerSpec → Result Frame
  send_init init sorted sid p = do
    pid ← elim (find_my_party_id sorted p.spot_id) [
      | none ↦ err (about "sign: peer %s not present in sorted party list" p.spot_id)
      | some q ↦ ok q
    ]
    body ← context (String.◌++◌ "marshal init for " p.spot_id) (marshal (init pid))
    let frame = walletsign_frame me.spot_id p.spot_id sid "init" "" body
    elim (send frame) [
      | some e ↦ err (wrap (String.◌++◌ "init send to " p.spot_id) e)
      | none ↦ ok frame
    ]

  -- The loop: the frames sent, and the error that stopped it.
  unfoldable pub send_inits :
      (PartyId → TxsignInit) → List PartyId → String → List PeerSpec → List Frame × Option Error
  send_inits init sorted sid [] = ([], none)
  send_inits init sorted sid (p ∷ ps) =
      let rest = send_inits init sorted sid ps in
      if str_eq p.spot_id me.spot_id then rest else elim (send_init init sorted sid p) [
        | err e ↦ ([], some e)
        | ok frame ↦ (frame ∷ rest.0, rest.1)
      ]

  abbrev pub new_session : String → List PeerSpec → PartyId → Session
  new_session sid signers my_id = record {
    id = sid;
    kind = session_sign;
    peers = signers;
    self = my_id;
    finished = none;
  }

  -- The guards of `SignDigest`: what it needs before it registers the session.
  unfoldable pub signer_guards : List PeerSpec → Share → Result (Share × String × String × PartyId)
  signer_guards signers sh = do
    fail_if (not (contains_spot_id signers me.spot_id))
        (message "sign: this agent must be in the signer set")
    fail_if (is_short (length signers) sh.threshold) (
        counted "sign: need at least %d signers, got %d"
          (plus_one sh.threshold ∷ pos (length signers) ∷ []))
    (curve, protocol) ← context "sign" (protocol_for_schema sh.schema)
    my_id ← elim (find_my_party_id (sorted_party_ids lib signers) me.spot_id) [
      | none ↦ err (message "sign: this agent's PartyID could not be located")
      | some p ↦ ok p
    ]
    ok (sh, curve, protocol, my_id)

  unfoldable pub sign_guards :
      String → List ℕ → List PeerSpec → Result (Share × String × String × PartyId)
  sign_guards sid digest signers = do
    fail_if (not me.started) (message "agent not started")
    fail_if (str_eq sid "") (message "sign: empty session id")
    fail_if (length digest == 0) (message "sign: empty digest")
    sh ← elim me.share [
      | none ↦ err (message "sign: no share on disk; run keygen first")
      | some s ↦ ok s
    ]
    signer_guards signers sh

  -- The sessions afterwards, the frames sent, and the signature.
  unfoldable pub sign_digest :
      String → List ℕ → List PeerSpec → Sessions → Sessions × List Frame × Result (List ℕ)
  sign_digest sid digest signers sessions = elim (sign_guards sid digest signers) [
    | err e ↦ (sessions, [], err e)
    | ok (sh, curve, protocol, my_id) ↦
        let sorted = sorted_party_ids lib signers in
        let (frames, stop) =
          send_inits (λ pid. leader_init sid sorted pid sh.threshold digest curve protocol) sorted
            sid signers in
        let dropped = drop sid (put (new_session sid signers my_id) sessions) in
        elim stop [
          | some e ↦ (dropped, frames, err e)
          | none ↦ (dropped, frames, run_sign_with_session env me sorted my_id sh digest)
        ]
  ]

  unfoldable marshal_leader_init_for :
      String → List PeerSpec → PeerSpec → ℤ → List ℕ → String → String → Result (List ℕ)
  marshal_leader_init_for sid signers recipient threshold digest curve protocol =
      let sorted = sorted_party_ids lib signers in
      elim (find_my_party_id sorted recipient.spot_id) [
        | none ↦ err (about "recipient %s not in signer set" recipient.spot_id)
        | some pid ↦ marshal (leader_init sid sorted pid threshold digest curve protocol)
      ]

  unfoldable pub run_sign :
      String → List PeerSpec → Share → List ℕ → Sessions → Sessions × Result (List ℕ)
  run_sign sid signers sh digest sessions =
      let sorted = sorted_party_ids lib signers in
      elim (find_my_party_id sorted me.spot_id) [
        | none ↦ (sessions, err (message "sign: this agent's PartyID could not be located"))
        | some my_id ↦ (
          drop sid (put (new_session sid signers my_id) sessions),
          run_sign_with_session env me sorted my_id sh digest,
        )
      ]

  -- The signature is not kept; a failure is only logged.
  unfoldable pub join_sign : String → InitPayload → Sessions → Sessions × Option (Result (List ℕ))
  join_sign sid ip sessions = elim me.share [
    | none ↦ (sessions, none)
    | some sh ↦ elim (decode_digest_bytes (codes ip.digest)) [
      | err e ↦ (sessions, none)
      | ok digest ↦ let (after, r) = run_sign sid ip.peers sh digest sessions in (after, some r)
    ]
  ]
