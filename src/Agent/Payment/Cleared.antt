-- ===== src/Agent/Payment/Cleared.antt =====
-- A transfer of agent/transfer.go is made only by a wallet that may pay and only of what is approved.
use clawdwallet.Base.{
  ℕ, ◌≡◌, ◌≢◌, sym, ap, ◌∙◌, inl, inr, String, Bool, false, Bool-cases, some, Option-cases, List,
  ok, Result-cases, arith, eq_iff, str_eq, ◌>>=◌, ok-inv, context-ok,
}
use clawdwallet.Policy.{ParsedEffects}
use clawdwallet.Solana.Instructions.{SolanaInstruction}
use clawdwallet.Solana.Keys.{address_from_pub_key}
use clawdwallet.Solana.Tx.{SolanaTx, message_bytes, attach_signature}
use clawdwallet.Solana.Tx.Attach.{attach_signature_lem}
use clawdwallet.Store.Share.{Share}
use clawdwallet.Agent.Session.{Sessions}
use clawdwallet.Agent.Ceremony.{SignEnv, Local}
use clawdwallet.Agent.Signing.{sign_digest}
use clawdwallet.Agent.Transfer.{
  PayEnv, TransferOptions, address_bytes, key_or_zero, instruction_for, sol_transfer,
  token_transfer,
}
use clawdwallet.Agent.Payment.{
  Prepared, marshal_signed, payable_share, approved_session, approve, prepare_transfer, signed_wire,
  build_and_pay,
}
use clawdwallet.Agent.Payment.Approval.{IsApproved, approve-IsApproved}

module _ (env : PayEnv) (sign : SignEnv) (me : Local) (locked : Bool) (my_moniker : String) where
  -- What a wallet needs to pay: it is not locked, and has a share with the id of a wallet.
  abbrev MayPay : Share → Type 0
  MayPay sh = (locked ≡ false) × (me.share ≡ some sh) × (sh.wallet_id ≢ "")

  payable-MayPay :
      (a b c : String) (sh : Share)
      → payable_share env sign me locked my_moniker a b c ≡ ok sh
      → MayPay sh
  unfolding payable_share
  payable-MayPay a b c sh h = elim (Bool-cases locked) [
    | inl q1 ↦ absurd (let z = rw (q1, payable_share) at h in cc)
    | inr q1 ↦ elim (Option-cases me.share) [
      | inl q2 ↦ absurd (let z = rw (q1, q2, payable_share) at h in cc)
      | inr (s, q2) ↦ elim (Bool-cases (str_eq s.wallet_id "")) [
        | inl q3 ↦ absurd (let z = rw (q1, q2, q3, payable_share) at h in cc)
        | inr q3 ↦
            let e : s ≡ sh = (let z = rw (q1, q2, q3, payable_share) at h in cc) in
            (
              q1,
              q2 ∙ ap some e,
              (λ x. ground (arith, q3, eq_iff s.wallet_id "", ap (λ y. y.wallet_id) e ∙ x)),
            )
      ]
    ]
  ]

  -- The transaction is built of the instruction that the options ask for, from the key that signs, by
  -- a wallet that may pay, and it is approved with the effects of that instruction.
  abbrev pub IsCleared : TransferOptions → Prepared → Type 0
  IsCleared opts p =
      (sh : Share) × (hash : String) × (ix : SolanaInstruction) × (parsed : ParsedEffects) × (MayPay
          sh
        × (env.latest_blockhash ≡ ok hash)
        × (instruction_for env p.my_key opts ≡ ok (ix, parsed))
        × (env.new_solana_tx p.my_key hash ix ≡ ok p.tx)
        × IsApproved env sign me locked my_moniker sh opts.intent parsed opts.x402 p)

  transfer-IsCleared :
      (opts : TransferOptions) (p : Prepared)
      → prepare_transfer env sign me locked my_moniker opts ≡ ok p
      → IsCleared opts p
  unfolding prepare_transfer instruction_for sol_transfer token_transfer approve approved_session
  transfer-IsCleared opts p h =
      elim (Result-cases (
        payable_share env sign me locked my_moniker "wallet is locked"
          "no share on disk; run keygen first"
          "share has no wallet id; cannot call :signRequest")) [
            | inr (x, q1) ↦ absurd (let z = rw (q1, prepare_transfer) at h in cc)
            | inl (sh, q1) ↦
                elim (Result-cases (address_from_pub_key env.key_text (address_bytes env sh))) [
                  | inr (x, q2) ↦ absurd (let z = rw (q1, q2, prepare_transfer) at h in cc)
                  | inl (addr, q2) ↦ elim (Result-cases env.latest_blockhash) [
                    | inr (x, q3) ↦ absurd (let z = rw (q1, q2, q3, prepare_transfer) at h in cc)
                    | inl (hash, q3) ↦
                        elim (Result-cases (instruction_for env (key_or_zero env addr) opts)) [
                          | inr (x, q4) ↦
                              absurd (let z = rw (q1, q2, q3, q4, prepare_transfer) at h in cc)
                          | inl ((ix, parsed), q4) ↦
                              elim (Result-cases
                                (env.new_solana_tx (key_or_zero env addr) hash ix)) [
                                  | inr (x, q5) ↦
                                      absurd (
                                        let z = rw (q1, q2, q3, q4, q5, prepare_transfer) at h in
                                        cc)
                                  | inl (tx, q5) ↦
                                      let (own, same, approved) =
                                        approve-IsApproved env sign me locked my_moniker sh
                                          (key_or_zero env addr) tx opts.intent parsed opts.x402 p
                                          (rw (q1, q2, q3, q4, q5, prepare_transfer) at h) in
                                      (
                                        sh,
                                        hash,
                                        ix,
                                        parsed,
                                        (
                                          payable-MayPay _ _ _ sh q1,
                                          q3,
                                          ap (λ k. instruction_for env k opts) own ∙ q4,
                                          ap (λ k. env.new_solana_tx k hash ix) own
                                              ∙ q5
                                              ∙ ap ok (sym same),
                                          approved,
                                        ),
                                      )
                                ]
                        ]
                  ]
                ]
          ]

  attached :
      (p : Prepared) (sig wire : List ℕ)
      → signed_wire env sign me locked my_moniker
          (marshal_signed env sign me locked my_moniker)
          p
          sig
        ≡ ok wire
      → (tx : SolanaTx) × (attach_signature p.tx p.my_key sig ≡ ok tx)
        × (env.marshal_tx tx ≡ ok wire)
  unfolding signed_wire
  attached p sig wire h = elim (Result-cases (attach_signature p.tx p.my_key sig)) [
    | inr (x, q) ↦ absurd (let z = rw (q, signed_wire) at h in cc)
    | inl (tx, q) ↦
        (tx, q, context-ok "marshal signed tx" (env.marshal_tx tx) wire (rw (q, signed_wire) at h))
  ]

  -- The message of the signed transaction has the bytes of the message before it is signed.
  same_message :
      (p : Prepared) (sig : List ℕ) (tx : SolanaTx)
      → attach_signature p.tx p.my_key sig ≡ ok tx
      → message_bytes env.marshal_message (some tx) ≡ message_bytes env.marshal_message (some p.tx)
  unfolding message_bytes
  same_message p sig tx a =
      let (one, slot, legacy, v0) = attach_signature_lem p.tx tx p.my_key sig a in
      rw (legacy, v0, message_bytes)

  -- A transfer that returns an id was made by a wallet that is not locked and has a share with a
  -- wallet id; its transaction is built, with the latest block hash, of the instruction that the
  -- options ask for from the key that signs; the platform answered a request for the very bytes
  -- of its message and the effects of that instruction by a session, whose id is not empty; the
  -- signature comes from a ceremony in that session over those bytes, it is attached to the
  -- transaction, whose message still has those bytes, and what is sent is that transaction.
  pub build_and_pay-IsCleared :
      (opts : TransferOptions) (sessions : Sessions) (id : String)
      → (build_and_pay env sign me locked my_moniker opts sessions).2 ≡ ok id
      → (p : Prepared) × (sig wire : List ℕ) × (tx : SolanaTx) × (IsCleared opts p
          × ((sign_digest sign me p.sid p.msg p.signers sessions).2 ≡ ok sig)
          × (attach_signature p.tx p.my_key sig ≡ ok tx)
          × (message_bytes env.marshal_message (some tx) ≡ ok p.msg)
          × (env.marshal_tx tx ≡ ok wire)
          × (env.send_transaction wire ≡ ok id))
  unfolding build_and_pay
  build_and_pay-IsCleared opts sessions id h =
      elim (Result-cases (prepare_transfer env sign me locked my_moniker opts)) [
        | inr (x, q1) ↦ absurd (let z = rw (q1, build_and_pay) at h in cc)
        | inl (p, q1) ↦ elim (Result-cases (sign_digest sign me p.sid p.msg p.signers sessions).2) [
          | inr (x, q2) ↦ absurd (let z = rw (q1, q2, build_and_pay) at h in cc)
          | inl (sig, q2) ↦
              let k : (signed_wire env sign me locked my_moniker
                      (marshal_signed env sign me locked my_moniker) p sig
                    >>= env.send_transaction)
                  ≡ ok id =
                rw (q1, q2, build_and_pay) at h in
              let (wire, w, t) =
                ok-inv
                  (signed_wire env sign me locked my_moniker
                    (marshal_signed env sign me locked my_moniker) p sig)
                  env.send_transaction id k in
              let (tx, a, m) = attached p sig wire w in
              let cleared = transfer-IsCleared opts p q1 in
              let same = same_message p sig tx a ∙ cleared.4.4.0 in
              (p, sig, wire, tx, (cleared, q2, a, same, m, t))
        ]
      ]
