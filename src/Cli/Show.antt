-- ===== src/Cli/Show.antt =====
-- status.go, balance.go and daemon.go: what the commands print. Amounts in SOL, which are printed as
-- floating point numbers, are left out beside the amounts in lamports.
use clawdwallet.Base.{
  ℕ, String, Bool, true, false, Option, none, some, Error, Result, ok, err, message, fail_if, ◌>>=◌,
  ◌>>◌, str_eq, if◌then◌else◌,
}
use clawdwallet.Store.Disk.{Disk}
use clawdwallet.Solana.Rpc.{RpcEnv, get_balance}
use clawdwallet.Agent.Runtime.{RuntimeEnv, Agent, spot_id, address}
use clawdwallet.Cli.Started.{with_agent}

pub record StatusReport : Type 0 where
  pub moniker : String
  pub spot_id : String
  pub policy_id : String
  pub owner_id : String
  pub solana_rpc : String
  pub solana_address : String
  pub has_share : Bool
  pub locked : Bool
  pub wallet_id : String
  pub balance_lamports : Option ℕ

abbrev if_ok : Result ℕ → Option ℕ
if_ok (ok n) = some n
if_ok (err e) = none

module _ (env : RuntimeEnv) (rpc : RpcEnv) (read_fault : Option Error) where
  -- The balance of the agent's address, asked of its client.
  abbrev pub balance_of : Agent env → Result ℕ
  balance_of a = (get_balance rpc (address env a) a.rpc).2

  unfoldable pub run_status : Disk → Result StatusReport
  run_status d = do
    (c, a) ← with_agent env read_fault d
    ok (record {
      moniker = c.moniker;
      spot_id = spot_id env a;
      policy_id = c.policy_id;
      owner_id = c.owner_id;
      solana_rpc = c.solana_rpc;
      solana_address = address env a;
      has_share = elim a.share [ none ↦ false | some _ ↦ true ];
      locked = a.locked;
      wallet_id = c.wallet_id;
      balance_lamports = if str_eq (address env a) "" then none else if_ok (balance_of a);
    })

  -- The flag `mint`, once it is parsed, only adds a note to what is printed.
  unfoldable pub run_balance : Result String → Disk → Result ℕ
  run_balance parsed d = do
    _ ← parsed
    (c, a) ← with_agent env read_fault d
    fail_if (str_eq (address env a) "") (message "no wallet address (run keygen first)")
    balance_of a

  -- The daemon prints its id and its address, and ends without an error at a signal.
  unfoldable pub run_daemon : Disk → Result (String × String)
  run_daemon d = do (c, a) ← with_agent env read_fault d; ok (spot_id env a, address env a)
