-- ===== src/Agent/Signing/Asked.antt =====
-- The payload that the init messages of agent/signing.go are read as by `UnmarshalJSON`.
use clawdwallet.Base.{
  subst, ℕ, ◌≡◌, refl, ap, sym, ◌∙◌, inl, inr, String, Bool-cases, List, [], ◌∷◌, map, ok, arith,
  eq_iff, str_eq, All,
}
use clawdwallet.Base.Machine.{pos}
use clawdwallet.Encoding.Hex.{IsByte, encode, encode-ascii}
use clawdwallet.Encoding.Text.{codes, text, codes-text}
use clawdwallet.Store.Share.{Share, schema_frost, schema_dkls23}
use clawdwallet.Agent.Protocol.{decode_digest_bytes, curve_ed25519, curve_secp256k1}
use clawdwallet.Agent.Protocol.Digest.{decode_digest_bytes-encode}
use clawdwallet.Agent.Party.{PeerSpec, PartyId}
use clawdwallet.Agent.Session.{InitPayload, RawPayload, or_else, unmarshal_payload}
use clawdwallet.Agent.Ceremony.{SignEnv, TxsignInit, protocol_for_schema}
use clawdwallet.Agent.Keygen.{Started, on_init}
use clawdwallet.Agent.Handlers.{WalletSignEnv}
use clawdwallet.Agent.Signing.{leader_init}

-- The members of a leader's init that a payload reads; a party is read as a peer by `peer_of`.
abbrev pub raw_init : (PartyId → PeerSpec) → TxsignInit → RawPayload
raw_init peer_of i = record {
  kind = "";
  type_field = i.kind;
  sid = i.sid;
  curve = i.curve;
  protocol = i.protocol;
  peers = map peer_of i.peers;
  threshold = i.threshold;
  digest = text i.digest;
  message = "";
  wallet_id = "";
  new_peers = [];
  new_threshold = pos 0;
}

-- The receiver's decoder reads the members that the leader's encoder wrote.
abbrev pub ReadsInits : SignEnv → (PartyId → PeerSpec) → WalletSignEnv → Type 0
ReadsInits env peer_of recv =
    (i : TxsignInit) (b : List ℕ)
    → env.marshal i ≡ ok b
    → recv.decode_init b ≡ ok (raw_init peer_of i)

-- A party is read as a peer with its id and its moniker.
abbrev pub ReadsParties : (PartyId → PeerSpec) → Type 0
ReadsParties peer_of =
    (p : PartyId) → ((peer_of p).spot_id ≡ p.id) × ((peer_of p).moniker ≡ p.moniker)

read_names :
    (peer_of : PartyId → PeerSpec) (parties : List PartyId)
    → ReadsParties peer_of
    → (map (λ q. q.spot_id) (map peer_of parties) ≡ map (λ p. p.id) parties)
      × (map (λ q. q.moniker) (map peer_of parties) ≡ map (λ p. p.moniker) parties)
read_names peer_of [] names = (refl, refl)
read_names peer_of (p ∷ parties) names =
    let (ids, monikers) = read_names peer_of parties names in
    (
      ap (λ x. x ∷ map (λ q. q.spot_id) (map peer_of parties)) (names p).0
          ∙ ap (λ xs. p.id ∷ xs) ids,
      ap (λ x. x ∷ map (λ q. q.moniker) (map peer_of parties)) (names p).1
          ∙ ap (λ xs. p.moniker ∷ xs) monikers,
    )

-- The payload asks for a signature of the digest, with the leader's parties and its share's protocol.
pub record Asks (sid : String) (digest : List ℕ) (parties : List PartyId) (sh : Share)
    (ip : InitPayload) : Type 0 where
  pub same_sid : ip.sid ≡ sid
  pub same_ids : map (λ q. q.spot_id) ip.peers ≡ map (λ p. p.id) parties
  pub same_monikers : map (λ q. q.moniker) ip.peers ≡ map (λ p. p.moniker) parties
  pub same_threshold : ip.threshold ≡ sh.threshold
  pub same_digest : decode_digest_bytes (codes ip.digest) ≡ ok digest
  pub same_protocol : protocol_for_schema sh.schema ≡ ok (ip.curve, ip.protocol)

-- The curve of a schema is never replaced.
curve_kept :
    (schema curve protocol : String)
    → protocol_for_schema schema ≡ ok (curve, protocol)
    → or_else curve curve_ed25519 ≡ curve
unfolding protocol_for_schema
curve_kept schema curve protocol h = elim (Bool-cases (str_eq schema schema_frost)) [
  | inl q ↦
      let z = rw (q, protocol_for_schema) at h in
      let c : curve_ed25519 ≡ curve = cc in subst (λ x. or_else x curve_ed25519 ≡ x) c refl
  | inr q ↦ elim (Bool-cases (str_eq schema schema_dkls23)) [
    | inl w ↦
        let z = rw (q, w, protocol_for_schema) at h in
        let c : curve_secp256k1 ≡ curve = cc in subst (λ x. or_else x curve_ed25519 ≡ x) c refl
    | inr w ↦ let z = rw (q, w, protocol_for_schema) at h in cc
  ]
]

or_else-empty : (s : String) → or_else s "" ≡ s
or_else-empty s = ground (arith, eq_iff s "")

-- The payload that the leader's init is read as.
module _ (peer_of : PartyId → PeerSpec) (sid : String) (sorted : List PartyId) (sh : Share) (b : ℕ)
    (bs : List ℕ) (curve protocol : String)
    (known : protocol_for_schema sh.schema ≡ ok (curve, protocol)) (bytes : All IsByte (b ∷ bs))
    (names : ReadsParties peer_of) where
  abbrev pub payload : PartyId → InitPayload
  payload p =
      unmarshal_payload
        (raw_init peer_of (leader_init sid sorted p sh.threshold (b ∷ bs) curve protocol))

  pub payload-Asks : (p : PartyId) → Asks sid (b ∷ bs) sorted sh (payload p)
  unfolding unmarshal_payload leader_init
  payload-Asks p = record {
    same_sid = refl;
    same_ids = (read_names peer_of sorted names).0;
    same_monikers = (read_names peer_of sorted names).1;
    same_threshold = refl;
    same_digest =
        ap (λ x. decode_digest_bytes (codes x)) (or_else-empty (text (encode (b ∷ bs))))
        ∙ ap decode_digest_bytes (codes-text (encode (b ∷ bs)) (encode-ascii (b ∷ bs) bytes))
        ∙ decode_digest_bytes-encode b bs bytes;
    same_protocol =
        known ∙ ap (λ x. ok (x, protocol)) (sym (curve_kept sh.schema curve protocol known));
  }

  pub payload-signs :
      (from : String) (p : PartyId)
      → on_init sid from (payload p) ≡ ok (Started.sign sid (payload p))
  unfolding on_init unmarshal_payload leader_init
  payload-signs from p = refl
