-- ===== src/Agent/Signing/Inits.antt =====
-- The init messages of `SignDigest` in agent/signing.go.
use Prim.Native.String
use clawdwallet.Base.{
  subst, context-inv, ℕ, ◌≡◌, ◌≢◌, refl, ap, sym, ◌∙◌, inl, inr, String, Bool-cases, none, some,
  Option-cases, List, [], ◌∷◌, map, Result, ok, Result-cases, arith, eq_iff, str_eq, if◌then◌else◌,
  All,
}
use clawdwallet.Base.Machine.{ℤ}
use clawdwallet.Encoding.Hex.{IsByte}
use clawdwallet.Store.Share.{schema_frost, schema_dkls23}
use clawdwallet.Agent.Protocol.{
  on_edwards, on_s256, curve_ed25519, curve_secp256k1, protocol_frost, protocol_dkls23, Resolved,
  resolve_curve_protocol, decode_digest_bytes,
}
use clawdwallet.Agent.Protocol.Digest.{decode_digest_bytes-encode}
use clawdwallet.Agent.Party.{PeerSpec, PartyId, find_my_party_id}
use clawdwallet.Agent.Ceremony.{
  SignEnv, Local, Frame, TxsignInit, walletsign_frame, protocol_for_schema,
}
use clawdwallet.Agent.Signing.{leader_init, send_init, send_inits}

-- The frame carries to the peer of this party the init that is made for it.
abbrev pub IsInitFor : SignEnv → Local → (PartyId → TxsignInit) → String → Frame → PartyId → Type 0
IsInitFor env me init sid f p =
    (p.id ≢ me.spot_id)
    × (f ≡ walletsign_frame me.spot_id p.id sid "init" "" f.body)
    × (env.marshal (init p) ≡ ok f.body)

found_id :
    (ps : List PartyId) (s : String) (p : PartyId) → find_my_party_id ps s ≡ some p → p.id ≡ s
unfolding find_my_party_id
found_id [] s p h = cc
found_id (q ∷ ps) s p h = elim (Bool-cases (str_eq q.id s)) [
  | inl e ↦ let z : q ≡ p = ground (arith, e, h) in sym (ap (λ x. x.id) z) ∙ (eq_iff q.id s).0 e
  | inr e ↦ found_id ps s p (ground (arith, e, h))
]

module _ (env : SignEnv) (me : Local) (init : PartyId → TxsignInit) (sorted : List PartyId)
    (sid : String) where
  abbrev Sent : Frame → Type 0
  Sent f = (p : PartyId) × (find_my_party_id sorted p.id ≡ some p) × IsInitFor env me init sid f p

  send_init_ok :
      (p : PeerSpec) (f : Frame)
      → p.spot_id ≢ me.spot_id
      → send_init env me init sorted sid p ≡ ok f
      → Sent f × (f.target ≡ (walletsign_frame me.spot_id p.spot_id sid "init" "" []).target)
  unfolding send_init walletsign_frame
  send_init_ok p f ne h = elim (Option-cases (find_my_party_id sorted p.spot_id)) [
    | inl q ↦ let z = rw (q, send_init) at h in cc
    | inr (pid, q) ↦
        let (body, e, r) =
          context-inv (String.◌++◌ "marshal init for " p.spot_id) (env.marshal (init pid)) _ f
            (rw (q, send_init) at h) in
        elim (Option-cases (env.send (walletsign_frame me.spot_id p.spot_id sid "init" "" body))) [
          | inr (x, w) ↦ let z = rw w at r in cc
          | inl w ↦
              let id = found_id sorted p.spot_id pid q in
              let fe : walletsign_frame me.spot_id p.spot_id sid "init" "" body ≡ f =
                (let z = rw w at r in cc) in
              let fb : f.body ≡ body = sym (ap (λ x. x.body) fe) in
              (
                (
                  pid,
                  ap (find_my_party_id sorted) id ∙ q,
                  ((λ x. ne (sym id ∙ x)), cc, e ∙ ap ok (sym fb)),
                ),
                sym (ap (λ x. x.target) fe),
              )
        ]
  ]

  -- Every init that is sent goes to a party of the ceremony other than the agent, and its body is
  -- the init that names that party.
  pub send_inits-IsInitFor :
      (signers : List PeerSpec)
      → All
          (λ f.
            (p : PartyId) × (find_my_party_id sorted p.id ≡ some p) × IsInitFor env me init sid f p)
          (send_inits env me init sorted sid signers).0
  unfolding send_inits
  send_inits-IsInitFor [] = tt
  send_inits-IsInitFor (p ∷ ps) = elim (Bool-cases (str_eq p.spot_id me.spot_id)) [
    | inl q ↦ rw (q, send_inits) (send_inits-IsInitFor ps)
    | inr q ↦ elim (Result-cases (send_init env me init sorted sid p)) [
      | inl (f, e) ↦
          rw (q, e, send_inits)
            (
              (send_init_ok p f (λ x. ground (arith, eq_iff p.spot_id me.spot_id)) e).0,
              send_inits-IsInitFor ps,
            )
      | inr (x, e) ↦ rw (q, e, send_inits) tt
    ]
  ]

  -- The spot ids of the signers other than the agent.
  unfoldable pub others : List PeerSpec → List String
  others [] = []
  others (p ∷ ps) = if str_eq p.spot_id me.spot_id then others ps else p.spot_id ∷ others ps

  -- If the loop over the signers ends without an error, the inits sent are addressed to just the
  -- signers other than the agent, in their order.
  send_inits-others :
      (signers : List PeerSpec)
      → (send_inits env me init sorted sid signers).1 ≡ none
      → map (λ f. f.target) (send_inits env me init sorted sid signers).0
        ≡ map (λ s. (walletsign_frame me.spot_id s sid "init" "" []).target) (others signers)
  unfolding send_inits others
  send_inits-others [] h = refl
  send_inits-others (p ∷ ps) h = elim (Bool-cases (str_eq p.spot_id me.spot_id)) [
    | inl q ↦ rw (q, send_inits, others) (send_inits-others ps (rw (q, send_inits) at h))
    | inr q ↦ elim (Result-cases (send_init env me init sorted sid p)) [
      | inl (f, e) ↦
          let t = send_inits-others ps (rw (q, e, send_inits) at h) in
          let (g, u) = send_init_ok p f (λ x. ground (arith, eq_iff p.spot_id me.spot_id)) e in
          rw (q, e, send_inits, others) cc
      | inr (x, e) ↦ let z = rw (q, e, send_inits) at h in cc
    ]
  ]

abbrev Resolves : String → String → Type 0
Resolves curve protocol =
    (r : Resolved) × (resolve_curve_protocol curve protocol ≡ ok r)
    × (r.curve ≡ curve)
    × (r.protocol ≡ protocol)

Resolves-pair :
    (c d curve protocol : String)
    → ◌≡◌ {A = Result (String × String)} (ok (c, d)) (ok (curve, protocol))
    → Resolves c d
    → Resolves curve protocol
Resolves-pair c d curve protocol h r =
    let p : c ≡ curve = cc in
    let q : d ≡ protocol = cc in subst (λ x. Resolves x protocol) p (subst (λ x. Resolves c x) q r)

schema_resolves :
    (schema curve protocol : String)
    → protocol_for_schema schema ≡ ok (curve, protocol)
    → (r : Resolved) × (resolve_curve_protocol curve protocol ≡ ok r)
      × (r.curve ≡ curve)
      × (r.protocol ≡ protocol)
unfolding protocol_for_schema resolve_curve_protocol
schema_resolves schema curve protocol h = elim (Bool-cases (str_eq schema schema_frost)) [
  | inl q ↦
      let z = rw (q, protocol_for_schema) at h in
      Resolves-pair curve_ed25519 protocol_frost curve protocol z (on_edwards, refl, refl, refl)
  | inr q ↦ elim (Bool-cases (str_eq schema schema_dkls23)) [
    | inl w ↦
        let z = rw (q, w, protocol_for_schema) at h in
        Resolves-pair curve_secp256k1 protocol_dkls23 curve protocol z (on_s256, refl, refl, refl)
    | inr w ↦ let z = rw (q, w, protocol_for_schema) at h in cc
  ]
]

-- For a schema that has a protocol and a digest of at least one byte, the peer that receives the
-- leader's init decodes from it the digest that is signed and resolves it to the leader's curve
-- and protocol.
leader_init-joins :
    (schema curve protocol sid : String) (sorted : List PartyId) (name : PartyId) (threshold : ℤ)
    (b : ℕ) (bs : List ℕ)
    → protocol_for_schema schema ≡ ok (curve, protocol)
    → All IsByte (b ∷ bs)
    → let init = leader_init sid sorted name threshold (b ∷ bs) curve protocol in
      (decode_digest_bytes init.digest ≡ ok (b ∷ bs))
      × (r : Resolved) × (resolve_curve_protocol init.curve init.protocol ≡ ok r)
      × (r.curve ≡ curve)
      × (r.protocol ≡ protocol)
unfolding leader_init protocol_for_schema resolve_curve_protocol
leader_init-joins schema curve protocol sid sorted name threshold b bs h bytes =
    let (r, x, y, z) = schema_resolves schema curve protocol h in
    (decode_digest_bytes-encode b bs bytes, r, x, y, z)
