-- ===== src/Agent/Transfer/Effects.antt =====
-- The change of balance that agent/transfer.go reports for an amount.
use clawdwallet.Base.{
  ℕ, zero, suc, ◌-◌, ◌%◌, ap, sym, ◌∙◌, ◌≢◌, [], ◌∷◌, ◌^◌, ◌≤◌, ◌<◌, ◌≡◌, ◌↔◌, refl, ok,
  Result-cases, arith, ltb, ltb→lt, lt→ltb, ltb-false, le→ltb-false, inl, inr, Bool-cases, str_eq,
}
use clawdwallet.Base.Machine.{ℤ, pos, negsuc, IsU64, bits64, int64}
use clawdwallet.Solana.Keys.{SolanaKey}
use clawdwallet.Solana.Instructions.{SolanaInstruction}
use clawdwallet.Policy.{ParsedEffects}
use clawdwallet.Agent.Transfer.{
  no_effects, token_effects, PayEnv, TransferOptions, delta_of, instruction_for, sol_transfer,
  token_transfer,
}

-- The integer -n.
abbrev pub minus : ℕ → ℤ
minus zero = pos 0
minus (suc n) = negsuc n

abbrev nonneg : ℤ → ℕ
nonneg (pos n) = n
nonneg (negsuc n) = 0

bits64-int64 : (a : ℕ) → IsU64 a → bits64 (int64 a) ≡ a
bits64-int64 a u = elim (Bool-cases (ltb a (2 ^ 63))) [
  | inl h ↦ rw h (omega (arith, ltb→lt a (2 ^ 63) h))
  | inr h ↦ rw h (omega (arith, ltb-false a (2 ^ 63) h))
]

delta_as : (a : ℕ) → IsU64 a → delta_of a ≡ int64 ((2 ^ 64 - a) % 2 ^ 64)
delta_as a u = ap (λ x. int64 ((2 ^ 64 - x) % 2 ^ 64)) (bits64-int64 a u)

-- The change is the negative of the amount up to 2^63.
delta_small : (a : ℕ) → IsU64 a → a ≤ 2 ^ 63 → delta_of a ≡ minus a
delta_small zero u h = refl
delta_small (suc n) u h =
    let e : (2 ^ 64 - suc n) % 2 ^ 64 ≡ 2 ^ 64 - suc n = omega arith in
    let back : 2 ^ 64 - (2 ^ 64 - suc n) - 1 ≡ n = omega arith in
    delta_as (suc n) u
    ∙ ap int64 e
    ∙ rw (le→ltb-false (2 ^ 64 - suc n) (2 ^ 63) (omega arith)) (ap negsuc back)

-- Above it, the change is reported as a gain.
delta_large : (a : ℕ) → IsU64 a → 2 ^ 63 < a → delta_of a ≡ pos (2 ^ 64 - a)
delta_large a u h =
    let e : (2 ^ 64 - a) % 2 ^ 64 ≡ 2 ^ 64 - a = omega arith in
    delta_as a u ∙ ap int64 e ∙ rw (lt→ltb (2 ^ 64 - a) (2 ^ 63) (omega arith))

minus-ne-pos : (a n : ℕ) → 0 < a → minus a ≢ pos n
minus-ne-pos zero n h x = omega arith
minus-ne-pos (suc a) n h x = cc

delta_iff : (a : ℕ) → IsU64 a → (delta_of a ≡ minus a) ↔ (a ≤ 2 ^ 63)
delta_iff a u = elim (Bool-cases (ltb (2 ^ 63) a)) [
  | inr h ↦ let le : a ≤ 2 ^ 63 = ltb-false (2 ^ 63) a h in (λ _. le, λ _. delta_small a u le)
  | inl h ↦
      let lt : 2 ^ 63 < a = ltb→lt (2 ^ 63) a h in
      (
        λ e. absurd (minus-ne-pos a (2 ^ 64 - a) (omega arith) (sym e ∙ delta_large a u lt)),
        λ le. absurd (omega arith),
      )
]

-- The change that the effects report of the asset that is sent.
abbrev pub reported : ParsedEffects → ℤ
reported p = elim p.token_deltas [ [] ↦ p.sol_delta | d ∷ _ ↦ d.delta ]

module _ (env : PayEnv) where
  open env.key_text use {parse_solana_key}

  sol_reported :
      (my_key : SolanaKey) (opts : TransferOptions) (ix : SolanaInstruction)
      (parsed : ParsedEffects)
      → sol_transfer env my_key opts ≡ ok (ix, parsed)
      → reported parsed ≡ delta_of opts.amount
  unfolding sol_transfer
  sol_reported my_key opts ix parsed h = elim (Result-cases (parse_solana_key opts.to)) [
    | inr (x, q) ↦ absurd (let z = rw (q, sol_transfer) at h in cc)
    | inl (k, q) ↦
        let z = rw (q, sol_transfer) at h in
        let e : record no_effects {
          sol_delta = delta_of opts.amount;
          programs_invoked = env.key_text.key_string env.system_program ∷ [];
        }
            ≡ parsed =
          cc in
        sym (ap reported e)
  ]

  token_reported :
      (my_key : SolanaKey) (opts : TransferOptions) (ix : SolanaInstruction)
      (parsed : ParsedEffects)
      → token_transfer env my_key opts ≡ ok (ix, parsed)
      → reported parsed ≡ delta_of opts.amount
  unfolding token_transfer
  token_reported my_key opts ix parsed h = elim (Result-cases (parse_solana_key opts.mint)) [
    | inr (x, q1) ↦ absurd (let z = rw (q1, token_transfer) at h in cc)
    | inl (m, q1) ↦ elim (Result-cases (parse_solana_key opts.to)) [
      | inr (x, q2) ↦ absurd (let z = rw (q1, q2, token_transfer) at h in cc)
      | inl (k, q2) ↦ elim (Result-cases (env.associated_token_address my_key m)) [
        | inr (x, q3) ↦ absurd (let z = rw (q1, q2, q3, token_transfer) at h in cc)
        | inl (s, q3) ↦ elim (Result-cases (env.associated_token_address k m)) [
          | inr (x, q4) ↦ absurd (let z = rw (q1, q2, q3, q4, token_transfer) at h in cc)
          | inl (d, q4) ↦
              let z = rw (q1, q2, q3, q4, token_transfer) at h in
              let e : token_effects env opts.mint opts.amount opts.decimals ≡ parsed = cc in
              sym (ap reported e)
        ]
      ]
    ]
  ]

  reported-delta_of :
      (my_key : SolanaKey) (opts : TransferOptions) (ix : SolanaInstruction)
      (parsed : ParsedEffects)
      → instruction_for env my_key opts ≡ ok (ix, parsed)
      → reported parsed ≡ delta_of opts.amount
  unfolding instruction_for sol_transfer token_transfer
  reported-delta_of my_key opts ix parsed h = elim (Bool-cases (str_eq opts.mint "")) [
    | inl q ↦ sol_reported my_key opts ix parsed (rw (q, instruction_for) at h)
    | inr q ↦ token_reported my_key opts ix parsed (rw (q, instruction_for) at h)
  ]

  -- For a 64-bit amount, of SOL or of a token, the effects that are reported to the policy show
  -- the negative of the amount exactly if the amount is at most 2^63.
  pub reported_iff :
      (my_key : SolanaKey) (opts : TransferOptions) (ix : SolanaInstruction)
      (parsed : ParsedEffects)
      → instruction_for env my_key opts ≡ ok (ix, parsed)
      → IsU64 opts.amount
      → (reported parsed ≡ minus opts.amount) ↔ (opts.amount ≤ 2 ^ 63)
  reported_iff my_key opts ix parsed h u =
      let e = reported-delta_of my_key opts ix parsed h in
      let (to, from) = delta_iff opts.amount u in (λ r. to (sym e ∙ r), λ l. e ∙ from l)
