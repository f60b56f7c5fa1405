-- ===== src/Agent/Payment/Approval.antt =====
-- No payment of agent/transfer.go or agent/x402.go is signed without an approval of what is signed.
use clawdwallet.Base.{
  ℕ, ◌≡◌, ◌≢◌, refl, ap, ◌∙◌, inl, inr, String, Bool, true, Bool-cases, Option, some, List, Result,
  ok, Result-cases, arith, eq_iff, str_eq, length, ◌==◌, subst,
}
use clawdwallet.Encoding.Hex
use clawdwallet.Solana.Keys.{SolanaKey}
use clawdwallet.Solana.Tx.{SolanaTx, message_bytes}
use clawdwallet.Policy.{
  Intent, ParsedEffects, X402Context, SignResponse, RawResponse, SignRequest, sign_request,
  unmarshal_response, submit, session_id,
}
use clawdwallet.Store.Share.{Share}
use clawdwallet.Agent.Ceremony.{SignEnv, Local}
use clawdwallet.Agent.Transfer.{PayEnv, resolve_signers}
use clawdwallet.Agent.Payment.{Prepared, approved_session, approve}

submitted :
    (apply : SignRequest → Result RawResponse) (key : String) (hash object : List ℕ)
    (resp : SignResponse)
    → submit apply key hash object ≡ ok resp
    → (raw : RawResponse) × (apply (sign_request key hash object) ≡ ok raw)
      × (unmarshal_response raw ≡ resp)
unfolding submit
submitted apply key hash object resp h = elim (Bool-cases (str_eq key "")) [
  | inl q1 ↦ absurd (let z = rw (q1, submit) at h in cc)
  | inr q1 ↦ elim (Bool-cases (length hash == 0)) [
    | inl q2 ↦ absurd (let z = rw (q1, q2, submit) at h in cc)
    | inr q2 ↦ elim (Bool-cases (length object == 0)) [
      | inl q3 ↦ absurd (let z = rw (q1, q2, q3, submit) at h in cc)
      | inr q3 ↦ elim (Result-cases (apply (sign_request key hash object))) [
        | inr (x, q4) ↦ absurd (let z = rw (q1, q2, q3, q4, submit) at h in cc)
        | inl (raw, q4) ↦ (raw, q4, (let z = rw (q1, q2, q3, q4, submit) at h in cc))
      ]
    ]
  ]
]

has_session : (raw : RawResponse) → (unmarshal_response raw).approved ≡ true → raw.session ≢ ""
unfolding unmarshal_response
has_session raw h x = ground (arith, h, x, eq_iff raw.session "")

module _ (env : PayEnv) (sign : SignEnv) (me : Local) (locked : Bool) (my_moniker : String) where
  session_of :
      (resp : SignResponse) (sid : String)
      → approved_session env sign me locked my_moniker resp ≡ ok sid
      → (resp.approved ≡ true) × (session_id (some resp) ≡ sid) × (sid ≢ "")
  unfolding approved_session session_id
  session_of resp sid h = elim (Bool-cases resp.approved) [
    | inr q1 ↦ absurd (let z = rw (q1, approved_session) at h in cc)
    | inl q1 ↦ elim (Bool-cases (str_eq (session_id (some resp)) "")) [
      | inl q2 ↦ absurd (let z = rw (q1, q2, approved_session) at h in cc)
      | inr q2 ↦
          let e : session_id (some resp) ≡ sid =
            (let z = rw (q1, q2, approved_session) at h in cc) in
          (q1, e, (λ x. ground (arith, q2, eq_iff (session_id (some resp)) "", e ∙ x)))
    ]
  ]

  -- The bytes are those of the transaction's message, and the platform answered a request of this
  -- wallet for them and for these effects with this session.
  abbrev pub IsApproved : Share → Intent → ParsedEffects → Option X402Context → Prepared → Type 0
  IsApproved sh intent parsed x402 p =
      (message_bytes env.marshal_message (some p.tx) ≡ ok p.msg)
      × (object : List ℕ) × (raw : RawResponse) × (env.marshal_effects intent parsed x402
            parsed.token_deltas
          ≡ ok object)
      × (env.apply (sign_request sh.wallet_id (Hex.encode p.msg) object) ≡ ok raw)
      × (raw.session ≢ "")
      × (session_id (some (unmarshal_response raw)) ≡ p.sid)
      × (p.sid ≢ "")

  pub approve-IsApproved :
      (sh : Share) (my_key : SolanaKey) (tx : SolanaTx) (intent : Intent) (parsed : ParsedEffects)
      (x402 : Option X402Context) (p : Prepared)
      → approve env sign me locked my_moniker sh my_key tx intent parsed x402 ≡ ok p
      → (p.my_key ≡ my_key) × (p.tx ≡ tx) × IsApproved sh intent parsed x402 p
  unfolding approve
  approve-IsApproved sh my_key tx intent parsed x402 p h =
      elim (Result-cases (message_bytes env.marshal_message (some tx))) [
        | inr (x, q1) ↦ absurd (let z = rw (q1, approve) at h in cc)
        | inl (msg, q1) ↦
            elim (Result-cases (env.marshal_effects intent parsed x402 parsed.token_deltas)) [
              | inr (x, q2) ↦ absurd (let z = rw (q1, q2, approve) at h in cc)
              | inl (object, q2) ↦
                  elim (Result-cases (submit env.apply sh.wallet_id (Hex.encode msg) object)) [
                    | inr (x, q3) ↦ absurd (let z = rw (q1, q2, q3, approve) at h in cc)
                    | inl (resp, q3) ↦
                        elim (Result-cases (approved_session env sign me locked my_moniker resp)) [
                          | inr (x, q4) ↦ absurd (let z = rw (q1, q2, q3, q4, approve) at h in cc)
                          | inl (sid, q4) ↦
                              elim (Result-cases
                                (resolve_signers me.spot_id my_moniker (some resp) sh)) [
                                  | inr (x, q5) ↦
                                      absurd (let z = rw (q1, q2, q3, q4, q5, approve) at h in cc)
                                  | inl (signers, q5) ↦
                                      let e : record {
                                        my_key = my_key;
                                        tx = tx;
                                        msg = msg;
                                        sid = sid;
                                        signers = signers;
                                      }
                                          ≡ p =
                                        (let z = rw (q1, q2, q3, q4, q5, approve) at h in cc) in
                                      let (raw, a, u) =
                                        submitted env.apply sh.wallet_id (Hex.encode msg) object
                                          resp q3 in
                                      let (ap', s, n) = session_of resp sid q4 in
                                      subst
                                        (λ y.
                                          (y.my_key ≡ my_key)
                                          × (y.tx ≡ tx)
                                          × IsApproved sh intent parsed x402 y)
                                        e
                                        (
                                          refl,
                                          refl,
                                          (
                                            q1,
                                            object,
                                            raw,
                                            q2,
                                            a,
                                            has_session raw (ap (λ r. r.approved) u ∙ ap'),
                                            ap (λ r. session_id (some r)) u ∙ s,
                                            n,
                                          ),
                                        )
                                ]
                        ]
                  ]
            ]
      ]
