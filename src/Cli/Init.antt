-- ===== src/Cli/Init.antt =====
-- init.go: the flags are put into the config, which is saved before the agent is started once.
use clawdwallet.Base.{
  ◌≡◌, ◌≢◌, ◌⊎◌, refl, ap, inl, inr, Bool-cases, eq_iff, String, Option, none, some, Option-cases,
  Error, Result, ok, err, arith, str_eq, if◌then◌else◌, pair_eq,
}
use clawdwallet.Config
use clawdwallet.Config.{Config, ConfigEnv}
use clawdwallet.Config.Laws.{with_defaults, load-save_config}
use clawdwallet.Store.Disk.{Disk, WriteFault}
use clawdwallet.Agent.Runtime.{RuntimeEnv, new, start}

-- The values of the flags once `fs.Parse` has read them; the moniker is "agent" where it is not given.
pub record InitFlags : Type 0 where
  pub moniker : String
  pub policy : String
  pub owner : String
  pub rpc : String

abbrev pub if_given : String → String → String
if_given new old = if str_eq new "" then old else new

unfoldable pub with_flags : InitFlags → Config → Config
with_flags fs c = record c {
  moniker = if_given fs.moniker c.moniker;
  policy_id = if_given fs.policy c.policy_id;
  owner_id = if_given fs.owner c.owner_id;
  solana_rpc = if_given fs.rpc c.solana_rpc;
}

-- `New` and `Start` of an agent, whose `Stop` follows.
abbrev pub started_once : (env : RuntimeEnv) → Config → Disk → Option Error
started_once env c d = elim (new env (some c) d) [
  | err e ↦ some e
  | ok a ↦ let (a', e) = start env a in e
]

-- The disk afterwards, and the error.
unfoldable pub run_init :
    RuntimeEnv
    → Option Error
    → Option WriteFault
    → Option Error
    → Result InitFlags
    → Disk
    → Disk × Option Error
run_init env read_fault write_fault rename_fault (err e) d = (d, some e)
run_init env read_fault write_fault rename_fault (ok fs) d =
    elim (Config.load env.config_env read_fault d) [
      | err e ↦ (d, some e)
      | ok c ↦
          let c' = with_flags fs c in
          let (d', saved) = Config.save env.config_env write_fault rename_fault c' d in
          elim saved [ some e ↦ (d', some e) | none ↦ (d', started_once env c' d') ]
    ]

-- What a text becomes: the given one, or the old one where none is given.
abbrev pub Takes : String → String → String → Type 0
Takes given old new = ((given ≡ "") × (new ≡ old)) ⊎ ((given ≢ "") × (new ≡ given))

if_given-Takes : (given old : String) → Takes given old (if_given given old)
if_given-Takes given old = elim (Bool-cases (str_eq given "")) [
  | inl q ↦ inl ((eq_iff given "").0 q, rw q)
  | inr q ↦ inr ((λ e. ground (arith, q, e, eq_iff given "")), rw q)
]

-- The config with the flags set, field by field, and the node and the mint filled in.
abbrev pub IsInitialised : InitFlags → Config → Config → Type 0
IsInitialised fs c c' =
    Takes fs.moniker c.moniker c'.moniker
    × Takes fs.policy c.policy_id c'.policy_id
    × Takes fs.owner c.owner_id c'.owner_id
    × ((rpc : String) × Takes fs.rpc c.solana_rpc rpc
        × Takes rpc Config.defaults.solana_rpc c'.solana_rpc)
    × Takes c.usdc_mint Config.defaults.usdc_mint c'.usdc_mint
    × (c'.relays ≡ c.relays)
    × (c'.wallet_id ≡ c.wallet_id)
    × (c'.solana_address ≡ c.solana_address)

flags-IsInitialised :
    (fs : InitFlags) (c : Config) → IsInitialised fs c (with_defaults (with_flags fs c))
unfolding with_flags with_defaults
flags-IsInitialised fs c = (
  if_given-Takes fs.moniker c.moniker,
  if_given-Takes fs.policy c.policy_id,
  if_given-Takes fs.owner c.owner_id,
  (
    if_given fs.rpc c.solana_rpc,
    if_given-Takes fs.rpc c.solana_rpc,
    if_given-Takes (if_given fs.rpc c.solana_rpc) Config.defaults.solana_rpc,
  ),
  if_given-Takes c.usdc_mint Config.defaults.usdc_mint,
  refl,
  refl,
  refl,
)

-- If `init` ends without an error, the config that is loaded afterwards has, of the moniker, the
-- policy, the owner and the node, the flag where it is given and the text from before where it is
-- not; a node and a mint that are then empty are the defaults; and the other fields are as
-- before.
pub run_init-load :
    (env : RuntimeEnv) (r : Option Error) (f : Option WriteFault) (g : Option Error)
    (fs : InitFlags) (c : Config) (d d' : Disk)
    → Config.load env.config_env r d ≡ ok c
    → run_init env r f g (ok fs) d ≡ (d', none)
    → (c' : Config) × (Config.load env.config_env none d' ≡ ok c') × IsInitialised fs c c'
unfolding run_init
run_init-load env r f g fs c d d' l h =
    let c' = with_flags fs c in
    elim (Option-cases (Config.save env.config_env f g c' d).1) [
      | inr (e, q) ↦ absurd (let z = rw (l, q, run_init) at h in cc)
      | inl q ↦ (
        with_defaults c',
        load-save_config env.config_env f g c' d d' (
            pair_eq (Config.save env.config_env f g c' d)
              (let z = rw (l, q, run_init) at h in ap (λ x. x.0) z) q),
        flags-IsInitialised fs c,
      )
    ]
