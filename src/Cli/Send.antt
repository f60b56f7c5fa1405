-- ===== src/Cli/Send.antt =====
-- send.go: a transfer from the command line.
use clawdwallet.Base.{
  [], ℕ, ◌%◌, ◌<◌, ◌≡◌, ◌≢◌, ◌↔◌, ◌⊎◌, inl, inr, String, Bool-cases, not, ◌&&◌, ◌||◌, Option, none,
  List, Error, Result, ok, err, message, fail_if, context, context-ok, ◌>>=◌, ◌>>◌, arith, eq_iff,
  str_eq, ◌==◌, if◌then◌else◌,
}
use clawdwallet.Store.Disk.{Disk}
use clawdwallet.Agent.Ceremony.{SignEnv, Frame}
use clawdwallet.Agent.Transfer.{PayEnv, TransferOptions}
use clawdwallet.Agent.Payment.{build_and_pay}
use clawdwallet.Agent.Runtime.{RuntimeEnv, Agent, local_of}
use clawdwallet.Cli.Started.{with_agent}

-- The values of the flags once `fs.Parse` has read them: `amount` is a `uint64`, `decimals` a `uint`.
pub record SendFlags : Type 0 where
  pub to : String
  pub amount : ℕ
  pub mint : String
  pub decimals : ℕ
  pub reason : String
  pub skill : String
  pub desc : String

-- `uint8(*decimals)`, or what the node says of the mint.
unfoldable pub decimals_for : (String → Result ℕ) → SendFlags → Result ℕ
decimals_for supply_decimals fs =
    let d = fs.decimals % 256 in
    if not (str_eq fs.mint "") && d == 0
    then context "lookup decimals" (supply_decimals fs.mint)
    else ok d

abbrev pub options_of : SendFlags → ℕ → TransferOptions
options_of fs d = record {
  to = fs.to;
  mint = fs.mint;
  amount = fs.amount;
  decimals = d;
  intent = record { description = fs.desc; skill = fs.skill; reason = fs.reason };
  x402 = none;
}

-- The agent, and the transfer that the command asks it for.
unfoldable pub send_options :
    (env : RuntimeEnv)
    → (String → Result ℕ)
    → Option Error
    → Result SendFlags
    → Disk
    → Result (Agent env × TransferOptions)
send_options env supply_decimals read_fault parsed disk = do
  fs ← parsed
  fail_if (str_eq fs.to "" || fs.amount == 0) (message "send: --to and --amount are required")
  (c, a) ← with_agent env read_fault disk
  d ← decimals_for supply_decimals fs
  ok (a, options_of fs d)

-- The frames that are sent, and the id that is printed.
unfoldable pub run_send :
    RuntimeEnv
    → PayEnv
    → SignEnv
    → Option Error
    → Result SendFlags
    → Disk
    → List Frame × Result String
run_send env pay sign read_fault parsed disk =
    elim (send_options env pay.token_supply_decimals read_fault parsed disk) [
      | err e ↦ ([], err e)
      | ok (a, opts) ↦
          let (_, frames, r) =
            build_and_pay pay sign (local_of env a) a.locked a.config.moniker opts a.sessions in
          (frames, r)
    ]

-- The decimals that are meant: those of the flag, or of the mint where the flag is not given.
abbrev pub Means : (String → Result ℕ) → SendFlags → ℕ → Type 0
Means supply_decimals fs d =
    ((fs.mint ≢ "") × (fs.decimals ≡ 0) × (supply_decimals fs.mint ≡ ok d))
    ⊎ (((fs.mint ≡ "") ⊎ (fs.decimals ≢ 0)) × (d ≡ fs.decimals))

module _ (supply_decimals : String → Result ℕ) (fs : SendFlags) (d : ℕ)
    (fits : (mint : String) (v : ℕ) → supply_decimals mint ≡ ok v → v < 256)
    (h : decimals_for supply_decimals fs ≡ ok d) where
  means : fs.decimals < 256 → Means supply_decimals fs d
  unfolding decimals_for
  means k = elim (Bool-cases (not (str_eq fs.mint "") && fs.decimals % 256 == 0)) [
    | inl q ↦ inl (
      (λ x. ground (arith, q, eq_iff fs.mint "", x)),
      ground (arith, q),
      context-ok "lookup decimals" (supply_decimals fs.mint) d (rw (q, decimals_for) at h),
    )
    | inr q ↦
        let e : fs.decimals % 256 ≡ d = (let z = rw (q, decimals_for) at h in cc) in
        inr (elim (Bool-cases (str_eq fs.mint "")) [
          | inl w ↦ (inl ((eq_iff fs.mint "").0 w), omega (arith, e))
          | inr w ↦ (inr (λ x. ground (arith, q, w, x)), omega (arith, e))
        ])
  ]

  Means-lt : Means supply_decimals fs d → fs.decimals < 256
  unfolding decimals_for
  Means-lt (inl (n, z, s)) = omega (arith, z)
  Means-lt (inr (g, e)) = elim (Bool-cases (not (str_eq fs.mint "") && fs.decimals % 256 == 0)) [
    | inl q ↦ omega (
      arith,
      e,
      fits fs.mint d
          (context-ok "lookup decimals" (supply_decimals fs.mint) d (rw (q, decimals_for) at h)),
    )
    | inr q ↦
        let w : fs.decimals % 256 ≡ d = (let z = rw (q, decimals_for) at h in cc) in
        omega (arith, w, e)
  ]

  -- If the node's decimals fit a byte and `send` finds decimals, these are the ones that are
  -- meant, the flag's or, where a mint comes without the flag, the mint's, exactly when the flag
  -- is below 256.
  pub decimals_iff : Means supply_decimals fs d ↔ (fs.decimals < 256)
  decimals_iff = (Means-lt, means)
