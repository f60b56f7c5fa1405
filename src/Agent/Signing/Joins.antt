-- ===== src/Agent/Signing/Joins.antt =====
-- From `SignDigest` to `joinSign`: what the init messages of agent/signing.go make another agent do, by
-- way of `handleWalletSign` and `onInit`.
use clawdwallet.Base.{
  subst, ℕ, ◌≡◌, ◌≢◌, refl, ap, sym, ◌∙◌, inl, inr, String, some, List, [], ◌∷◌, ok, Result-cases,
  All-map, Option-cases, arith, All, length,
}
use clawdwallet.Encoding.Hex.{IsByte}
use clawdwallet.Store.Share.{Share}
use clawdwallet.Agent.Party.{PeerSpec, PartyId, sorted_party_ids}
use clawdwallet.Agent.Party.Slots.{All-found}
use clawdwallet.Agent.Session.{Sessions, InitPayload}
use clawdwallet.Agent.Ceremony.{SignEnv, Local, Frame, TxsignInit, protocol_for_schema}
use clawdwallet.Agent.Keygen.{Started}
use clawdwallet.Agent.Handlers.{WalletSignEnv, starts, handle_wallet_sign, start_session}
use clawdwallet.Agent.Handlers.Paths.{IsSegment, handle-walletsign_frame}
use clawdwallet.Agent.Signing.{
  leader_init, send_inits, sign_guards, sign_digest, run_sign, join_sign,
}
use clawdwallet.Agent.Signing.Inits.{IsInitFor, send_inits-IsInitFor}
use clawdwallet.Agent.Signing.Asked.{
  ReadsInits, ReadsParties, Asks, payload, payload-Asks, payload-signs,
}
use clawdwallet.Agent.Signing.Lead.{guards-inv}

module _ (env : SignEnv) (me : Local) (peer_of : PartyId → PeerSpec) (recv : WalletSignEnv)
    (joiner : SignEnv) (him : Local) (own : Share) (held : Sessions) where
  -- The frame makes the receiver sign the digest, in the session that its handler takes from it.
  abbrev pub Joined : String → List ℕ → List PartyId → Share → Frame → Type 0
  Joined sid digest parties sh f =
      (joined : String) × (ip : InitPayload) × (handle_wallet_sign recv
          (some (record { recipient = f.target; sender = f.sender; body = f.body }))
        ≡ ok (starts (Started.sign joined ip)))
      × (joined ≡ sid)
      × Asks sid digest parties sh ip
      × (join_sign joiner him joined ip held ≡ (
          let (after, r) = run_sign joiner him joined ip.peers own digest held in (after, some r)))

  joins :
      (sid : String) (digest : List ℕ) (parties : List PartyId) (sh : Share) (ip : InitPayload)
      → him.share ≡ some own
      → Asks sid digest parties sh ip
      → join_sign joiner him sid ip held
        ≡ (let (after, r) = run_sign joiner him sid ip.peers own digest held in (after, some r))
  unfolding join_sign
  joins sid digest parties sh ip q a = simp (join_sign, q, a.same_digest)

  init-Joined :
      (sid : String) (digest : List ℕ) (sorted : List PartyId) (sh : Share)
      (curve protocol : String) (f : Frame) (p : PartyId)
      → ReadsInits env peer_of recv
      → ReadsParties peer_of
      → him.share ≡ some own
      → protocol_for_schema sh.schema ≡ ok (curve, protocol)
      → All IsByte digest
      → length digest ≢ 0
      → IsSegment sid
      → sid ≢ ""
      → IsSegment p.id
      → IsInitFor env me (λ r. leader_init sid sorted r sh.threshold digest curve protocol) sid f p
      → Joined sid digest sorted sh f
  init-Joined sid [] sorted sh curve protocol f p reads names q known bytes z hs n hp sent =
      absurd (z refl)
  init-Joined sid (b ∷ bs) sorted sh curve protocol f p reads names q known bytes z hs n hp
        (_, e, m) =
      let ip = payload peer_of sid sorted sh b bs curve protocol known bytes names p in
      let asks = payload-Asks peer_of sid sorted sh b bs curve protocol known bytes names p in
      let signs =
        payload-signs peer_of sid sorted sh b bs curve protocol known bytes names f.sender p in
      let started : start_session recv sid f.sender f.body ≡ ok (starts (Started.sign sid ip)) =
        rw
          (reads (leader_init sid sorted p sh.threshold (b ∷ bs) curve protocol) f.body m, signs) in
      let handled =
        ap
          (λ x.
            handle_wallet_sign recv
              (some (record { recipient = x.target; sender = x.sender; body = x.body })))
          e
        ∙ handle-walletsign_frame recv me.spot_id p.id sid "init" "" f.body hp hs n (omega arith)
        ∙ ap (λ x. start_session recv sid x.sender f.body) (sym e)
        ∙ started in
      (sid, ip, handled, refl, asks, joins sid (b ∷ bs) sorted sh ip q asks)

  frames_sent :
      (sid : String) (digest : List ℕ) (signers : List PeerSpec) (sessions : Sessions) (sh : Share)
      (curve protocol : String) (my_id : PartyId)
      → sign_guards env me sid digest signers ≡ ok (sh, curve, protocol, my_id)
      → (sign_digest env me sid digest signers sessions).1
        ≡ (send_inits env me
            (λ r.
              leader_init sid
                (sorted_party_ids env.lib signers)
                r
                sh.threshold
                digest
                curve
                protocol)
            (sorted_party_ids env.lib signers)
            sid
            signers).0
  unfolding sign_digest
  frames_sent sid digest signers sessions sh curve protocol my_id e =
      let sorted = sorted_party_ids env.lib signers in
      let init : PartyId → TxsignInit =
        λ r. leader_init sid sorted r sh.threshold digest curve protocol in
      elim (Option-cases (send_inits env me init sorted sid signers).1) [
        | inl w ↦ rw (e, w, sign_digest)
        | inr (x, w) ↦ rw (e, w, sign_digest)
      ]

  -- If the receiver reads the members of an init as they were written, and a party as a peer with
  -- its id and its moniker, neither the session id nor a signer's Spot id has a slash, and the
  -- digest is of bytes, then every frame that `SignDigest` sends makes its receiver sign: the
  -- handler takes it as an init of the leader's session that asks for a signature of the leader's
  -- digest, with peers that have the ids and monikers of the leader's parties, its threshold and
  -- the protocol of its share, and `joinSign` of an agent with a share, on the session id and the
  -- payload that the handler hands on, runs a ceremony for just that digest and these peers.
  pub sign_digest-Joined :
      (sid : String) (digest : List ℕ) (signers : List PeerSpec) (sessions : Sessions)
      → ReadsInits env peer_of recv
      → ReadsParties peer_of
      → him.share ≡ some own
      → All IsByte digest
      → IsSegment sid
      → All (λ p. IsSegment p.spot_id) signers
      → All
          (λ f.
            (sh : Share) × (me.share ≡ some sh)
            × Joined sid digest (sorted_party_ids env.lib signers) sh f)
          (sign_digest env me sid digest signers sessions).1
  unfolding sign_digest
  sign_digest-Joined sid digest signers sessions reads names q bytes hs ht =
      elim (Result-cases (sign_guards env me sid digest signers)) [
        | inr (x, e) ↦ rw (e, sign_digest) tt
        | inl ((sh, curve, protocol, my_id), e) ↦
            let (may, known) = guards-inv env me sid digest signers sh curve protocol my_id e in
            let sorted = sorted_party_ids env.lib signers in
            subst (All _) (sym (frames_sent sid digest signers sessions sh curve protocol my_id e))
              (All-map _
                (λ f (p, found, sent). (
                  sh,
                  may.3,
                  init-Joined sid digest sorted sh curve protocol f p reads names q known bytes
                      may.2 hs may.1 (All-found IsSegment env.lib signers p found ht) sent,
                ))
                (send_inits-IsInitFor env me
                  (λ r. leader_init sid sorted r sh.threshold digest curve protocol) sorted sid
                  signers))
      ]
