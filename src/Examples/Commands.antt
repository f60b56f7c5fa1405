-- ===== src/Examples/Commands.antt =====
-- The command line.
use clawdwallet.Base.{
  ℕ, zero, suc, ◌*◌, ◌>>=◌, ◌<◌, ◌≡◌, ◌↔◌, refl, ap, sym, subst, String, true, false, Option, none,
  some, List, [], ◌∷◌, Error, Result, ok, about, arith,
}
use clawdwallet.Base.Maps.{lookup}
use clawdwallet.Config
use clawdwallet.Config.{Config}
use clawdwallet.Store.Disk.{has}
use clawdwallet.Encoding.FilePath.{join}
use clawdwallet.Base.Machine.{pos}
use clawdwallet.Agent.Pairing.{PairingRegistry, mint, issue, new_pairing_registry}
use clawdwallet.Agent.Pairing.Channel.{done, receive}
use clawdwallet.Agent.Pairing.Endpoint.{Identity, PairReply, pairing_url}
use clawdwallet.Cli.Started.{with_agent}
use clawdwallet.Cli.Pair.{run_pair}
use clawdwallet.Cli.Pair.Arrivals.{Arrival, message, tick, serve_pairs, first_claim}
use clawdwallet.Cli.Pair.First.{run_pair-first_claim}
use clawdwallet.Agent.Runtime.{RuntimeEnv, Agent, new, start, fresh, spot_id}
use clawdwallet.Cli.{Bodies, Enabled, commands, dispatch}
use clawdwallet.Cli.Gates.{body_of, dispatch-body_of}
use clawdwallet.Cli.Init.{
  InitFlags, with_flags, IsInitialised, run_init, run_init-load, started_once,
}
use clawdwallet.Cli.Send.{SendFlags, Means, decimals_for, decimals_iff}
use clawdwallet.Cli.Poll.{Watch, Waited, pause, Ends, run_keygen_command, run_keygen_command-Ends}
use clawdwallet.Examples.Configs.{config_env, config_disk, config_saved, path_ok}
use clawdwallet.Examples.World.{bottles, keychain, share}
use clawdwallet.Examples.KeyTexts.{key_text}

abbrev no_run : List String → Option Error
no_run args = none

abbrev bodies : Bodies
bodies = record {
  balance = no_run;
  daemon = no_run;
  init = no_run;
  keygen = no_run;
  mcp = no_run;
  pair = no_run;
  send = no_run;
  status = no_run;
  x402 = no_run;
}

abbrev enabled : Enabled
enabled = record { mcp = "1"; x402 = ""; raw_sign = ""; reshare = "" }

dispatch-body_of_example :
    dispatch (commands bodies enabled) ("x402" ∷ "https://x" ∷ [])
    ≡ elim (body_of bodies enabled "x402") [
      | none ↦ (true, some (about "unknown command %q" "x402"))
      | some run ↦ (false, run ("https://x" ∷ []))
    ]
dispatch-body_of_example = dispatch-body_of bodies enabled "x402" ("https://x" ∷ []) refl

abbrev flags : SendFlags
flags = record {
  to = "dest";
  amount = 3;
  mint = "usdc";
  decimals = 262;
  reason = "";
  skill = "";
  desc = "";
}

abbrev supply : String → Result ℕ
supply mint = ok 6

six : decimals_for supply flags ≡ ok 6
unfolding decimals_for
six = refl

supply_fits : (mint : String) (v : ℕ) → supply mint ≡ ok v → v < 256
supply_fits mint v h = ground (arith, h)

decimals_iff_example : Means supply flags 6 ↔ (262 < 256)
decimals_iff_example = decimals_iff supply flags 6 supply_fits six

abbrev watch : Watch
watch = record { clock = λ i. i * pause; share = λ i. elim i [ zero ↦ none | suc j ↦ some share ] }

run_keygen_command-Ends_example :
    (o : Waited) × (run_keygen_command watch 0 3000000000 ≡ some o) × Ends watch 3000000000 0 o
run_keygen_command-Ends_example =
    run_keygen_command-Ends watch 0 3000000000 (λ i. omega arith) (omega arith)

abbrev init_flags : InitFlags
init_flags = record { moniker = "agent"; policy = "k.p"; owner = ""; rpc = "https://node" }

abbrev flagged : Config
flagged = record Config.defaults {
  moniker = "agent";
  policy_id = "k.p";
  solana_rpc = "https://node";
}

abbrev runtime : RuntimeEnv
runtime = record {
  bottles = bottles;
  config_env = config_env flagged;
  key_text = key_text;
  new_disk_store = λ _. ok keychain;
  connect = λ _. ok "a";
}

loaded : Config.load runtime.config_env none [] ≡ ok Config.defaults
unfolding Config.load lookup
loaded = rw (Config.load, path_ok flagged, ◌>>=◌)

flags_set : with_flags init_flags Config.defaults ≡ flagged
unfolding with_flags Config.defaults
flags_set = refl

abbrev given : Config
given = with_flags init_flags Config.defaults

saved_flags : Config.save runtime.config_env none none given [] ≡ (config_disk, none)
saved_flags =
    subst (λ c. Config.save runtime.config_env none none c [] ≡ (config_disk, none)) (sym flags_set)
      (config_saved flagged)

began : started_once runtime given config_disk ≡ none
unfolding new start Config.dir config_env join has lookup
began = refl

initialised : run_init runtime none none none (ok init_flags) [] ≡ (config_disk, none)
unfolding run_init
initialised = rw (loaded, run_init, saved_flags, ap (λ x. x.0) saved_flags, began)

run_init-load_example :
    (c' : Config) × (Config.load runtime.config_env none config_disk ≡ ok c')
    × IsInitialised init_flags Config.defaults c'
run_init-load_example =
    run_init-load runtime none none none init_flags Config.defaults [] config_disk loaded
      initialised

-- The agent of `pair` on an empty disk, with a token whose bytes are 1, 2 and 3.
abbrev pairing_agent : Agent runtime
pairing_agent = record (fresh runtime Config.defaults "/h" keychain none) {
  client = some "a";
  pairing = mint "AQID" 10 new_pairing_registry;
}

with_default :
    with_agent runtime none []
    ≡ ok (
      Config.defaults,
      record (fresh runtime Config.defaults "/h" keychain none) { client = some "a" },
    )
unfolding with_agent new start Config.dir config_env join has lookup
with_default = rw (with_agent, loaded)

token_out :
    run_pair runtime none (ok (1 ∷ 2 ∷ 3 ∷ [])) 10 []
    ≡ ok (pairing_url "a" "AQID", 0, pairing_agent)
unfolding run_pair issue spot_id new_pairing_registry clawdwallet.Encoding.Base64.encode_raw
    clawdwallet.Encoding.Base64.sextet_char clawdwallet.Encoding.Text.text
token_out = rw (run_pair, with_default) refl

abbrev identity : Identity
identity = record { spot_id = "a"; moniker = "claw"; build_info = none }

-- A malformed message, a tap of the token, a sweep, and another tap of the token.
abbrev taps : List Arrival
taps =
    message (some none) 15 16
    ∷ message (some (some (record { v = pos 1; token = "AQID"; mobile_spot_id = "k.m" }))) 20 21
    ∷ tick 60000000000
    ∷ message (some (some (record { v = pos 1; token = "AQID"; mobile_spot_id = "k.n" })))
        60000000001 60000000002
    ∷ []

run_pair-first_claim_example :
    (token : String) × (pairing_url "a" "AQID" ≡ pairing_url (spot_id runtime pairing_agent) token)
    × (r : PairingRegistry) × (replies : List PairReply) × (serve_pairs identity taps
          pairing_agent.pairing
        ≡ done (r, replies))
    × ((receive 0 r.chans).0 ≡ first_claim token 10 taps)
run_pair-first_claim_example =
    run_pair-first_claim runtime none (ok (1 ∷ 2 ∷ 3 ∷ [])) 10 [] (pairing_url "a" "AQID") 0
      pairing_agent identity taps (tt, (tt, (omega arith, (tt, tt)))) token_out

paired_with : first_claim "AQID" 10 taps ≡ some (record { mobile_spot_id = "k.m"; at = 21 })
unfolding first_claim
paired_with = refl
