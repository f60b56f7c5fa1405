-- ===== src/Agent/Pairing/Channel.antt =====
-- Channels of capacity one, on a heap of channels. A send on a closed channel and a second close
-- panic; a send on a full channel blocks.
use clawdwallet.Base.{ℕ, String, Bool, true, false, Option, none, some, List, get_elem?, set}

pub record Consumption : Type 0 where
  pub mobile_spot_id : String
  pub at : ℕ

pub record Chan : Type 0 where
  pub buffer : Option Consumption
  pub closed : Bool

abbrev pub Chans : Type 0
Chans = List Chan

-- What a statement of Go may do besides going on.
pub data Outcome {ℓ} (A : Type ℓ) : Type ℓ where
  done : A → Outcome A
  panicked : Outcome A
  blocked : Outcome A

infixl 5 ◌>>=◌
abbrev pub ◌>>=◌ {ℓ κ} : {A : Type ℓ} {B : Type κ} → Outcome A → (A → Outcome B) → Outcome B
done a >>= f = f a
panicked >>= f = panicked
blocked >>= f = blocked

abbrev pub make : Chan
make = record { buffer = none; closed = false }

abbrev send_buffer : Option Consumption → Bool → Consumption → Outcome Chan
send_buffer b true c = panicked
send_buffer none false c = done (record { buffer = some c; closed = false })
send_buffer (some _) false c = blocked

abbrev pub send_chan : Chan → Consumption → Outcome Chan
send_chan ch c = send_buffer ch.buffer ch.closed c

abbrev close_flag : Bool → Option Consumption → Outcome Chan
close_flag true b = panicked
close_flag false b = done (record { buffer = b; closed = true })

abbrev pub close_chan : Chan → Outcome Chan
close_chan ch = close_flag ch.closed ch.buffer

-- A handle that is not on the heap is a nil channel: a send blocks for ever, a close panics.
unfoldable pub send : ℕ → Consumption → Chans → Outcome Chans
send h c chans = elim (get_elem? chans h) [
  | none ↦ blocked
  | some ch ↦ send_chan ch c >>= λ ch'. done (set chans h ch')
]

unfoldable pub close : ℕ → Chans → Outcome Chans
close h chans = elim (get_elem? chans h) [
  | none ↦ panicked
  | some ch ↦ close_chan ch >>= λ ch'. done (set chans h ch')
]

-- The receiver takes the buffered value, if there is one.
unfoldable pub receive : ℕ → Chans → Option Consumption × Chans
receive h chans = elim (get_elem? chans h) [
  | none ↦ (none, chans)
  | some ch ↦ (ch.buffer, set chans h (record ch { buffer = none }))
]
