-- ===== src/Cli/Started.antt =====
-- What the commands do first: load the config, and make and start an agent.
use clawdwallet.Base.{Option, none, some, Error, Result, ok, err, ◌>>=◌}
use clawdwallet.Config
use clawdwallet.Config.{Config}
use clawdwallet.Store.Disk.{Disk}
use clawdwallet.Agent.Runtime.{RuntimeEnv, Agent, new, start}

unfoldable pub with_agent : (env : RuntimeEnv) → Option Error → Disk → Result (Config × Agent env)
with_agent env read_fault d = do
  c ← Config.load env.config_env read_fault d
  a ← new env (some c) d
  let (a', e) = start env a
  elim e [ some x ↦ err x | none ↦ ok (c, a') ]
