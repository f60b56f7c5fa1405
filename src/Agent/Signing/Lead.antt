-- ===== src/Agent/Signing/Lead.antt =====
-- What `SignDigest` of agent/signing.go needs, and what it leaves behind.
use clawdwallet.Base.{
  subst, ℕ, ◌≡◌, ◌≢◌, refl, ap, sym, Result, ◌∙◌, ◌⊎◌, inl, inr, String, true, false, Bool-cases,
  none, some, Option-cases, List, [], ◌∷◌, Error, ok, err, Result-cases, arith, eq_iff, str_eq,
  if◌then◌else◌, length, ◌==◌,
}
use clawdwallet.Base.Maps.{lookup-insert, lookup-erase}
use clawdwallet.Store.Share.{Share, schema_frost, schema_dkls23}
use clawdwallet.Agent.Party.{
  PeerSpec, PartyId, sorted_party_ids, find_my_party_id, contains_spot_id,
}
use clawdwallet.Agent.Session.{Session, Sessions, get, put, drop}
use clawdwallet.Agent.Ceremony.{SignEnv, Local, Frame, TxsignInit, protocol_for_schema}
use clawdwallet.Agent.Signing.{
  is_short, leader_init, send_inits, new_session, signer_guards, sign_guards, sign_digest,
}

get-drop-put :
    (s : Session) (sid : String) (r : Sessions) (j : String)
    → s.id ≡ sid
    → get j (drop sid (put s r)) ≡ (if str_eq sid j then none else get j r)
unfolding get drop put
get-drop-put s sid r j h =
    ground (
      arith,
      h,
      lookup-erase sid j (put s r),
      lookup-insert s.id j s r,
      eq_iff sid j,
      eq_iff s.id j,
    )

schema_known :
    (schema c p : String)
    → protocol_for_schema schema ≡ ok (c, p)
    → (schema ≡ schema_frost) ⊎ (schema ≡ schema_dkls23)
unfolding protocol_for_schema
schema_known schema c p h = elim (Bool-cases (str_eq schema schema_frost)) [
  | inl q ↦ inl ((eq_iff schema schema_frost).0 q)
  | inr q ↦ elim (Bool-cases (str_eq schema schema_dkls23)) [
    | inl w ↦ inr ((eq_iff schema schema_dkls23).0 w)
    | inr w ↦ let z = rw (q, w, protocol_for_schema) at h in cc
  ]
]

-- What the guards ask for.
abbrev pub MayLead : SignEnv → Local → String → List ℕ → List PeerSpec → Share → Type 0
MayLead env me sid digest signers sh =
    (me.started ≡ true)
    × (sid ≢ "")
    × (length digest ≢ 0)
    × (me.share ≡ some sh)
    × (contains_spot_id signers me.spot_id ≡ true)
    × (is_short (length signers) sh.threshold ≡ false)
    × ((sh.schema ≡ schema_frost) ⊎ (sh.schema ≡ schema_dkls23))

module _ (env : SignEnv) (me : Local) where
  -- The guards once the share is read.
  set_guards :
      (sid : String) (digest : List ℕ) (signers : List PeerSpec) (sh s : Share)
      (curve protocol : String) (my_id : PartyId)
      → signer_guards env me signers s ≡ ok (sh, curve, protocol, my_id)
      → (s ≡ sh)
        × ((contains_spot_id signers me.spot_id ≡ true)
            × (is_short (length signers) sh.threshold ≡ false)
            × ((sh.schema ≡ schema_frost) ⊎ (sh.schema ≡ schema_dkls23))
            × (protocol_for_schema sh.schema ≡ ok (curve, protocol)))
  unfolding signer_guards
  set_guards sid digest signers sh s curve protocol my_id h =
      elim (Bool-cases (contains_spot_id signers me.spot_id)) [
        | inr q1 ↦ absurd (let z = rw (q1, signer_guards) at h in cc)
        | inl q1 ↦ elim (Bool-cases (is_short (length signers) s.threshold)) [
          | inl q2 ↦ absurd (let z = rw (q1, q2, signer_guards) at h in cc)
          | inr q2 ↦ elim (Result-cases (protocol_for_schema s.schema)) [
            | inr (x, q3) ↦ absurd (let z = rw (q1, q2, q3, signer_guards) at h in cc)
            | inl ((c, p), q3) ↦
                elim (Option-cases
                  (find_my_party_id (sorted_party_ids env.lib signers) me.spot_id)) [
                    | inl q4 ↦ absurd (let z = rw (q1, q2, q3, q4, signer_guards) at h in cc)
                    | inr (id, q4) ↦
                        let z = rw (q1, q2, q3, q4, signer_guards) at h in
                        let e : s ≡ sh = cc in
                        let k : ◌≡◌ {A = Result (String × String)} (ok (c, p))
                            (ok (curve, protocol)) =
                          cc in
                        (
                          e,
                          (
                            q1,
                            subst (λ x. is_short (length signers) x.threshold ≡ false) e q2,
                            subst (λ x. (x.schema ≡ schema_frost) ⊎ (x.schema ≡ schema_dkls23)) e
                                (schema_known s.schema c p q3),
                            ap (λ x. protocol_for_schema x.schema) (sym e) ∙ q3 ∙ k,
                          ),
                        )
                  ]
          ]
        ]
      ]

  pub guards-inv :
      (sid : String) (digest : List ℕ) (signers : List PeerSpec) (sh : Share)
      (curve protocol : String) (my_id : PartyId)
      → sign_guards env me sid digest signers ≡ ok (sh, curve, protocol, my_id)
      → MayLead env me sid digest signers sh
        × (protocol_for_schema sh.schema ≡ ok (curve, protocol))
  unfolding sign_guards signer_guards
  guards-inv sid digest signers sh curve protocol my_id h = elim (Bool-cases me.started) [
    | inr q1 ↦ absurd (let z = rw (q1, sign_guards) at h in cc)
    | inl q1 ↦ elim (Bool-cases (str_eq sid "")) [
      | inl q2 ↦ absurd (let z = rw (q1, q2, sign_guards) at h in cc)
      | inr q2 ↦ elim (Bool-cases (length digest == 0)) [
        | inl q3 ↦ absurd (let z = rw (q1, q2, q3, sign_guards) at h in cc)
        | inr q3 ↦ elim (Option-cases me.share) [
          | inl q4 ↦ absurd (let z = rw (q1, q2, q3, q4, sign_guards) at h in cc)
          | inr (s, q4) ↦
              let k = rw (q1, q2, q3, q4, sign_guards) at h in
              let (e, l) = set_guards sid digest signers sh s curve protocol my_id k in
              (
                (
                  q1,
                  (λ x. ground (arith, q2, eq_iff sid "")),
                  (λ x. ground (arith, q3)),
                  q4 ∙ ap some e,
                  l.0,
                  l.1,
                  l.2,
                ),
                l.3,
              )
        ]
      ]
    ]
  ]

  -- If `SignDigest` sends any frame, the agent is started, the session id and the digest are not
  -- empty, there is a share of a known schema, the agent is one of the signers, and the signers
  -- are at least threshold + 1.
  pub sign_digest-MayLead :
      (sid : String) (digest : List ℕ) (signers : List PeerSpec) (sessions : Sessions) (f : Frame)
      (fs : List Frame)
      → (sign_digest env me sid digest signers sessions).1 ≡ f ∷ fs
      → (sh : Share) × MayLead env me sid digest signers sh
  unfolding sign_digest
  sign_digest-MayLead sid digest signers sessions f fs h =
      elim (Result-cases (sign_guards env me sid digest signers)) [
        | inl ((sh, curve, protocol, my_id), e) ↦
            (sh, (guards-inv sid digest signers sh curve protocol my_id e).0)
        | inr (x, e) ↦ let z = rw (e, sign_digest) at h in cc
      ]

  lead_get :
      (sid : String) (digest : List ℕ) (signers : List PeerSpec) (sessions : Sessions) (j : String)
      (sh : Share) (curve protocol : String) (my_id : PartyId)
      → sign_guards env me sid digest signers ≡ ok (sh, curve, protocol, my_id)
      → get j (sign_digest env me sid digest signers sessions).0
        ≡ (if str_eq sid j then none else get j sessions)
  unfolding sign_digest
  lead_get sid digest signers sessions j sh curve protocol my_id e =
      let sorted = sorted_party_ids env.lib signers in
      let init : PartyId → TxsignInit =
        λ pid. leader_init sid sorted pid sh.threshold digest curve protocol in
      let d = get-drop-put (new_session env me sid signers my_id) sid sessions j refl in
      elim (Option-cases (send_inits env me init sorted sid signers).1) [
        | inl q ↦ rw (e, q, sign_digest) d
        | inr (x, q) ↦ rw (e, q, sign_digest) d
      ]

  -- `SignDigest` either is refused by a guard, sends nothing and leaves the sessions as they
  -- were, or ends with no session under its id and every other session as it was, also where a
  -- send or the ceremony fails.
  pub sign_digest-get :
      (sid : String) (digest : List ℕ) (signers : List PeerSpec) (sessions : Sessions) (j : String)
      → ((x : Error) × (sign_guards env me sid digest signers ≡ err x)
          × (sign_digest env me sid digest signers sessions ≡ (sessions, [], err x)))
        ⊎ (get j (sign_digest env me sid digest signers sessions).0
            ≡ (if str_eq sid j then none else get j sessions))
  unfolding sign_digest
  sign_digest-get sid digest signers sessions j =
      elim (Result-cases (sign_guards env me sid digest signers)) [
        | inr (x, e) ↦ inl (x, e, rw (e, sign_digest))
        | inl ((sh, curve, protocol, my_id), e) ↦
            inr (lead_get sid digest signers sessions j sh curve protocol my_id e)
      ]
