-- ===== src/Cli/Pair.antt =====
-- pair.go: a token is issued, and the command waits for a mobile, the end of the token's life, or a
-- signal.
pub mod Arrivals
pub mod First
use clawdwallet.Base.{ℕ, String, Option, none, some, List, Error, Result, ok, message, ◌>>=◌}
use clawdwallet.Store.Disk.{Disk}
use clawdwallet.Agent.Pairing.{issue}
use clawdwallet.Agent.Pairing.Channel.{Consumption}
use clawdwallet.Agent.Pairing.Endpoint.{pairing_url}
use clawdwallet.Agent.Runtime.{RuntimeEnv, Agent, spot_id}
use clawdwallet.Cli.Started.{with_agent}

-- Which channel the `select` receives from.
pub data PairEvent : Type 0 where
  consumed : Consumption → PairEvent
  timer interrupted : PairEvent

-- The mobile that is printed, and the error.
unfoldable pub pair_end : PairEvent → Option Consumption × Option Error
pair_end (consumed c) = (some c, none)
pair_end timer = (none, some (message "pairing token expired; run `clawdwallet pair` again"))
pair_end interrupted = (none, none)

-- The URL, the handle of the channel, and the agent that serves the request; `random` is what
-- `rand.Read` gives, `now` the clock.
unfoldable pub run_pair :
    (env : RuntimeEnv) → Option Error → Result (List ℕ) → ℕ → Disk → Result (String × ℕ × Agent env)
run_pair env read_fault random now d = do
  (c, a) ← with_agent env read_fault d
  (token, handle, registry) ← issue random now a.pairing
  ok (pairing_url (spot_id env a) token, handle, record a { pairing = registry })
