-- ===== src/Examples/Pairing.antt =====
-- A token that is given out at time 10 and claimed at time 20.
use clawdwallet.Base.{◌≡◌, ◌⊎◌, ◌↔◌, refl, true, false, none, some, List, [], ◌∷◌, ok, arith}
use clawdwallet.Base.Maps.{lookup, insert}
use clawdwallet.Base.Machine.{pos}
use clawdwallet.Agent.Pairing.{
  PairingRegistry, token_invalid, token_consumed, new_pairing_registry, mint, consume, gc,
}
use clawdwallet.Agent.Pairing.Channel.{done, send, close}
use clawdwallet.Agent.Pairing.Registry.{IsValid, new-IsValid, mint-IsValid}
use clawdwallet.Agent.Pairing.SingleUse.{claiming, collecting, here, next, claimed_once}
use clawdwallet.Agent.Pairing.Ledger.{Call, issues, taps, sweeps, run, ledger_run, ledger_act}
use clawdwallet.Agent.Pairing.Ledger.Refines.{run-ledger_run}
use clawdwallet.Agent.Pairing.Endpoint.{PairRequest, paired, Identity, response, handle_pair}
use clawdwallet.Agent.Pairing.Endpoint.Laws.{handle_pair_iff, IsProper}

abbrev fresh : PairingRegistry
fresh = mint "AQID" 10 new_pairing_registry

fresh-IsValid : IsValid fresh
fresh-IsValid = mint-IsValid "AQID" 10 new_pairing_registry new-IsValid

abbrev spent : PairingRegistry
spent = record {
  entries = ("AQID", record { issued_at = 10; consumed = true; done = 0 }) ∷ [];
  chans = record { buffer = some (record { mobile_spot_id = "k.m"; at = 21 }); closed = true } ∷ [];
  stopped = false;
}

claim_fresh : consume "AQID" "k.m" 20 21 fresh ≡ done (spent, none)
unfolding consume mint new_pairing_registry lookup insert send close
claim_fresh = refl

claimed_once_example :
    (consume "AQID" "k.n" 30 31 (gc 25 spent) ≡ done (gc 25 spent, some token_invalid))
    ⊎ (consume "AQID" "k.n" 30 31 (gc 25 spent) ≡ done (gc 25 spent, some token_consumed))
claimed_once_example =
    claimed_once "AQID" fresh-IsValid (claiming "AQID" "k.m" 20 21 claim_fresh)
      (next (collecting 25) here) ((λ h. cc), tt) "k.n" 30 31

abbrev agent : Identity
agent = record { spot_id = "k.a"; moniker = "claw"; build_info = none }

abbrev request : PairRequest
request = record { v = pos 1; token = "AQID"; mobile_spot_id = "k.m" }

handle_pair_iff_example :
    ((r' : PairingRegistry) × (handle_pair agent (some (some request)) 20 21 fresh
        ≡ done (r', paired (response agent))))
    ↔ ((req : PairRequest) × (some (some request) ≡ some (some req)) × IsProper req 20 fresh)
handle_pair_iff_example = handle_pair_iff agent 20 21 fresh (some (some request)) fresh-IsValid

-- A token whose bytes are 1, 2 and 3 is tapped twice in its time, and once more after a sweep.
abbrev calls : List Call
calls =
    issues (ok (1 ∷ 2 ∷ 3 ∷ [])) 10
    ∷ taps "AQID" "k.m" 20 21
    ∷ taps "AQID" "k.n" 30 31
    ∷ sweeps 9000000000000
    ∷ taps "AQID" "k.o" 9000000000001 9000000000002
    ∷ []

run-ledger_run_example : run calls new_pairing_registry ≡ done (ledger_run calls [])
run-ledger_run_example = run-ledger_run calls (omega arith)

verdicts : ledger_run calls [] ≡ true ∷ false ∷ false ∷ []
unfolding ledger_run ledger_act lookup insert clawdwallet.Encoding.Base64.encode_raw
    clawdwallet.Encoding.Base64.sextet_char clawdwallet.Encoding.Text.text
verdicts = refl
