-- ===== src/Agent/Pairing.antt =====
-- agent/pairing.go: single-use pairing tokens and the `pair` endpoint. Times are nanoseconds since
-- some start; each call of the registry's clock is an argument. Channels live on a heap, since the
-- registry and the caller of `Issue` share one.
pub mod Channel
pub mod Registry
pub mod Consume
pub mod SingleUse
pub mod Window
pub mod Endpoint
pub mod Ledger
use clawdwallet.Base.{
  ℕ, ◌+◌, ◌-◌, ◌*◌, ◌%◌, String, Bool, true, false, not, Option, none, some, List, [], ◌∷◌, ◌++◌,
  Result, ok, err, wrap, if◌then◌else◌, ltb, str_eq, length,
}
use clawdwallet.Base.Maps.{Map, lookup, insert, keep_if}
use clawdwallet.Encoding.Text.{text}
use clawdwallet.Encoding.Base64.{url, encode_raw}
use Channel.{Chan, Chans, Consumption, Outcome, done, panicked, blocked, make, send, close, ◌>>=◌}

-- `time.Minute` in nanoseconds
abbrev minute : ℕ
minute = 60000000000

abbrev pub pairing_token_ttl : ℕ
pairing_token_ttl = 5 * minute

abbrev pub pairing_expired_grace : ℕ
pairing_expired_grace = 30 * minute

-- Success of `Consume`, the empty code, is `none`.
pub data PairingError : Type 0 where
  token_invalid token_expired token_consumed bad_request : PairingError

pub record PairEntry : Type 0 where
  pub issued_at : ℕ
  pub consumed : Bool
  pub done : ℕ

pub record PairingRegistry : Type 0 where
  pub entries : Map PairEntry
  pub chans : Chans
  pub stopped : Bool

unfoldable pub new_pairing_registry : PairingRegistry
new_pairing_registry = record { entries = []; chans = []; stopped = false }

-- `stop` is closed once; the `sync.Once` guards the second call.
unfoldable pub close_registry : PairingRegistry → PairingRegistry
close_registry r = record r { stopped = true }

abbrev pub token_of : List ℕ → String
token_of buf = text (encode_raw url buf)

-- `r.entries[tok] = &pairEntry{…}` with a new channel, which is the last on the heap.
unfoldable pub mint : String → ℕ → PairingRegistry → PairingRegistry
mint token now r =
    let entry : PairEntry = record { issued_at = now; consumed = false; done = length r.chans } in
    record r { entries = insert token entry r.entries; chans = r.chans ++ (make ∷ []) }

-- `rand.Read` fills the buffer or fails.
unfoldable pub issue : Result (List ℕ) → ℕ → PairingRegistry → Result (String × ℕ × PairingRegistry)
issue (err e) now r = err (wrap "pairing token entropy" e)
issue (ok buf) now r = ok (token_of buf, length r.chans, mint (token_of buf) now r)

-- `e.consumed = true; e.done <- …; close(e.done)`, with `at` the clock's second reading.
abbrev claim :
    String
    → PairEntry
    → String
    → ℕ
    → PairingRegistry
    → Outcome (PairingRegistry × Option PairingError)
claim token e mobile at r = do
  sent ← send e.done (record { mobile_spot_id = mobile; at = at }) r.chans
  closed ← close e.done sent
  done (
    record r { entries = insert token (record e { consumed = true }) r.entries; chans = closed },
    none,
  )

-- `now.Sub(issuedAt) > ttl`: a difference below zero is no more than the lifetime either.
unfoldable pub consume :
    String → String → ℕ → ℕ → PairingRegistry → Outcome (PairingRegistry × Option PairingError)
consume token mobile now at r =
    if str_eq token "" then done (r, some token_invalid) else elim (lookup token r.entries) [
      | none ↦ done (r, some token_invalid)
      | some e ↦
          if e.consumed
          then done (r, some token_consumed)
          else if ltb pairing_token_ttl (now - e.issued_at)
          then done (r, some token_expired)
          else claim token e mobile at r
    ]

-- `e.issuedAt.Before(cutoff)`. A cutoff before the start of time is 0 here, and no entry is older
-- than either.
abbrev pub is_stale : ℕ → PairEntry → Bool
is_stale cutoff e = ltb e.issued_at cutoff

unfoldable pub gc : ℕ → PairingRegistry → PairingRegistry
gc now r =
    let cutoff = now - (pairing_token_ttl + pairing_expired_grace) in
    record r { entries = keep_if (λ e. not (is_stale cutoff e)) r.entries }
