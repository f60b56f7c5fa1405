-- ===== src/Agent/Pairing/Ledger.antt =====
-- The abstract view of agent/pairing.go: a ledger that never forgets a token, without channels, sweeps
-- or goroutines; and a run of calls, on the registry and on the ledger.
pub mod Refines
use clawdwallet.Base.{
  ℕ, ◌-◌, ◌≤◌, String, Bool, true, false, not, ◌&&◌, Option, none, some, List, [], ◌∷◌, ◌++◌,
  Result, ok, err, if◌then◌else◌, ltb, str_eq,
}
use clawdwallet.Base.Maps.{Map, lookup, insert}
use clawdwallet.Agent.Pairing.Channel.{Outcome, done, panicked, blocked, receive, ◌>>=◌}
use clawdwallet.Agent.Pairing.{
  pairing_token_ttl, PairingRegistry, PairEntry, PairingError, token_of, issue, consume, gc,
  close_registry,
}

-- A call at a time of the registry's clock: `Issue` with the random bytes that it reads, `Consume`, a
-- sweep, a receive on a channel, and `Close`.
pub data Call : Type 0 where
  issues : Result (List ℕ) → ℕ → Call
  taps : String → String → ℕ → ℕ → Call
  sweeps : ℕ → Call
  receives : ℕ → Call
  stops : Call

-- No call is earlier than the one before it.
abbrev pub IsTimed : ℕ → List Call → Type 0
IsTimed last [] = Unit {0}
IsTimed last (issues buf now ∷ ks) = (last ≤ now) × IsTimed now ks
IsTimed last (taps t mobile now at ∷ ks) = (last ≤ now) × IsTimed now ks
IsTimed last (sweeps now ∷ ks) = (last ≤ now) × IsTimed now ks
IsTimed last (receives h ∷ ks) = IsTimed last ks
IsTimed last (stops ∷ ks) = IsTimed last ks

-- Whether a tap is accepted.
abbrev pub verdict : Option PairingError → Bool
verdict none = true
verdict (some e) = false

abbrev issued : PairingRegistry → Result (String × ℕ × PairingRegistry) → PairingRegistry
issued r (err e) = r
issued r (ok (t, ch, r')) = r'

-- The registry after a call, with the verdict of a tap.
unfoldable pub act : Call → PairingRegistry → Outcome (PairingRegistry × List Bool)
act (issues buf now) r = done (issued r (issue buf now r), [])
act (taps t mobile now at) r =
    consume t mobile now at r >>= λ (r', code). done (r', verdict code ∷ [])
act (sweeps now) r = done (gc now r, [])
act (receives h) r = done (record r { chans = (receive h r.chans).1 }, [])
act stops r = done (close_registry r, [])

unfoldable pub run : List Call → PairingRegistry → Outcome (List Bool)
run [] r = done []
run (k ∷ ks) r = act k r >>= λ (r', v). run ks r' >>= λ vs. done (v ++ vs)

pub record Ticket : Type 0 where
  pub issued_at : ℕ
  pub used : Bool

abbrev pub Ledger : Type 0
Ledger = Map Ticket

-- The ticket is not used and at most as old as a token lives.
abbrev pub is_good : ℕ → Option Ticket → Bool
is_good now none = false
is_good now (some k) = not k.used && not (ltb pairing_token_ttl (now - k.issued_at))

abbrev pub mark : String → Option Ticket → Ledger → Ledger
mark t none l = l
mark t (some k) l = insert t (record k { used = true }) l

unfoldable pub ledger_act : Call → Ledger → Ledger × List Bool
ledger_act (issues (err e) now) l = (l, [])
ledger_act (issues (ok buf) now) l =
    (insert (token_of buf) (record { issued_at = now; used = false }) l, [])
ledger_act (taps t mobile now at) l =
    if not (str_eq t "") && is_good now (lookup t l)
    then (mark t (lookup t l) l, true ∷ [])
    else (l, false ∷ [])
ledger_act (sweeps now) l = (l, [])
ledger_act (receives h) l = (l, [])
ledger_act stops l = (l, [])

unfoldable pub ledger_run : List Call → Ledger → List Bool
ledger_run [] l = []
ledger_run (k ∷ ks) l = let (l', v) = ledger_act k l in v ++ ledger_run ks l'
