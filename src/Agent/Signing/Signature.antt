-- ===== src/Agent/Signing/Signature.antt =====
-- The form of the signature that a runner of agent/signing.go returns.
use clawdwallet.Base.{
  sym, ◌∙◌, ℕ, ◌^◌, ◌<◌, ◌≡◌, refl, ap, ◌⊎◌, inl, inr, Bool-cases, none, some, Option-cases, List,
  [], ◌∷◌, ◌++◌, ok, arith, eq_iff, str_eq, ◌==◌, length, length-append, context, context-inv,
  ◌>>=◌,
}
use clawdwallet.Store.Share.{Share, load_dkls, schema_frost, schema_dkls23}
use clawdwallet.Agent.Protocol.{EllipticCurve, resolve_curve_protocol, big_int_to_fixed}
use clawdwallet.Agent.Protocol.Fixed.{length-big_int_to_fixed}
use clawdwallet.Agent.Party.{PartyId}
use clawdwallet.Agent.Ceremony.{
  SignEnv, SignParams, Local, Outcome, done, failed, session_over, ctx_over, DklsSignature,
  received, frost_bytes, dkls_bytes, protocol_for_schema, run_sign_frost, run_sign_dkls, params_of,
  run_sign_with_session,
}

received-frost :
    (o : Outcome (List ℕ)) (sig : List ℕ)
    → received frost_bytes o ≡ ok sig
    → (sig ≡ []) ⊎ (length sig ≡ 64)
unfolding received
received-frost (done v) sig h = elim (Bool-cases (length v == 64)) [
  | inl q ↦ inr ground (arith, q, h)
  | inr q ↦ absurd (ground (arith, q, h))
]
received-frost (failed e) sig h = cc
received-frost (session_over none) sig h = inl cc
received-frost (session_over (some e)) sig h = cc
received-frost (ctx_over e) sig h = cc

-- What DKLs23 promises of the numbers of a signature.
abbrev pub IsScalarPair : DklsSignature → Type 0
IsScalarPair s = (s.r < 256 ^ 32) × (s.s < 256 ^ 32)

dkls_length :
    (s : DklsSignature)
    → IsScalarPair s
    → length (big_int_to_fixed s.r 32 ++ big_int_to_fixed s.s 32 ++ (s.v ∷ [])) ≡ 65
dkls_length s (p, q) = ground (
  arith,
  length-big_int_to_fixed s.r 32 p,
  length-big_int_to_fixed s.s 32 q,
  length-append (big_int_to_fixed s.r 32) (big_int_to_fixed s.s 32),
  length-append (big_int_to_fixed s.r 32 ++ big_int_to_fixed s.s 32) (s.v ∷ []),
)

received-dkls :
    (o : Outcome DklsSignature) (sig : List ℕ)
    → ((s : DklsSignature) → o ≡ done s → IsScalarPair s)
    → received dkls_bytes o ≡ ok sig
    → (sig ≡ []) ⊎ (length sig ≡ 65)
unfolding received
received-dkls (done v) sig sound h =
    let (p, q) = sound v refl in
    let e : (big_int_to_fixed v.r 32 ++ big_int_to_fixed v.s 32 ++ (v.v ∷ [])) ≡ sig = cc in
    inr (sym (ap length e) ∙ dkls_length v (p, q))
received-dkls (failed e) sig sound h = cc
received-dkls (session_over none) sig sound h = inl cc
received-dkls (session_over (some e)) sig sound h = cc
received-dkls (ctx_over e) sig sound h = cc

-- What the DKLs23 library promises.
abbrev pub HasScalars : SignEnv → Type 0
HasScalars env =
    (k : env.DklsKey) (digest : List ℕ) (params : SignParams) (s : DklsSignature)
    → env.dkls_signing k digest params ≡ ok (done s)
    → IsScalarPair s

module _ (env : SignEnv) (me : Local) where
  frost_length :
      (params : SignParams) (sh : Share) (digest sig : List ℕ)
      → run_sign_frost env me params sh digest ≡ ok sig
      → (sig ≡ []) ⊎ (length sig ≡ 64)
  unfolding run_sign_frost
  frost_length params sh digest sig h = elim (Option-cases sh.frost_key) [
    | inl q ↦ absurd (ground (arith, q, h))
    | inr (k, q) ↦
        let (o, e, r) =
          context-inv "frosttss signing start" (env.frost_signing k digest params)
            (received frost_bytes) sig (rw (q, run_sign_frost) at h) in
        received-frost o sig r
  ]

  dkls_length_of :
      (params : SignParams) (sh : Share) (digest sig : List ℕ)
      → HasScalars env
      → run_sign_dkls env me params sh digest ≡ ok sig
      → (sig ≡ []) ⊎ (length sig ≡ 65)
  unfolding run_sign_dkls
  dkls_length_of params sh digest sig scalars h =
      let (k, e, r) =
        context-inv "sign" (load_dkls env.load sh)
          (λ x.
            context "dklstss signing start" (env.dkls_signing x digest params)
            >>= received dkls_bytes)
          sig h in
      let (o, e2, r2) =
        context-inv "dklstss signing start" (env.dkls_signing k digest params) (received dkls_bytes)
          sig r in
      received-dkls o sig (λ s q. scalars k digest params s (e2 ∙ ap ok q)) r2

  -- If the DKLs23 library gives numbers below 256^32, a signature that is returned without an
  -- error is empty, or has 64 bytes for a FROST share, or has 65 bytes for a DKLs23 share.
  pub run_sign-length :
      (sorted : List PartyId) (my_id : PartyId) (sh : Share) (digest sig : List ℕ)
      → HasScalars env
      → run_sign_with_session env me sorted my_id sh digest ≡ ok sig
      → (sig ≡ [])
        ⊎ ((sh.schema ≡ schema_frost) × (length sig ≡ 64))
        ⊎ ((sh.schema ≡ schema_dkls23) × (length sig ≡ 65))
  unfolding run_sign_with_session protocol_for_schema resolve_curve_protocol
  run_sign-length sorted my_id sh digest sig scalars h =
      elim (Bool-cases (str_eq sh.schema schema_frost)) [
        | inl p ↦
            elim (frost_length (params_of env me EllipticCurve.edwards sorted my_id sh) sh digest
              sig (rw (p, run_sign_with_session, protocol_for_schema) at h)) [
                | inl z ↦ inl z
                | inr l ↦ inr (inl ((eq_iff sh.schema schema_frost).0 p, l))
              ]
        | inr p ↦ elim (Bool-cases (str_eq sh.schema schema_dkls23)) [
          | inl q ↦
              elim (dkls_length_of (params_of env me EllipticCurve.s256 sorted my_id sh) sh digest
                sig scalars (rw (p, q, run_sign_with_session, protocol_for_schema) at h)) [
                  | inl z ↦ inl z
                  | inr l ↦ inr (inr ((eq_iff sh.schema schema_dkls23).0 q, l))
                ]
          | inr q ↦ let z = rw (p, q, run_sign_with_session, protocol_for_schema) at h in cc
        ]
      ]
