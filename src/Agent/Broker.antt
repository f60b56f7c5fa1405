-- ===== src/Agent/Broker.antt =====
-- The broker of one session, `spotBroker` in agent/session.go. Each function below is what happens
-- under one hold of the mutex; `Broker.Run` interleaves them with the deliveries outside it.
pub mod Run
pub mod Conservation
pub mod Quiet
use clawdwallet.Base.{
  ℕ, String, Bool, true, false, Option, none, some, List, [], ◌∷◌, ◌++◌, Error, Result, ok, err,
  message, wrap, if◌then◌else◌, ◌==◌, ◌&&◌, not,
}
use clawdwallet.Base.Maps.{Map, lookup, insert, erase}

-- What the broker reads of a `tss.JsonMessage`: the parties stand for their key numbers.
pub record JsonMessage : Type 0 where
  pub type_name : String
  pub from : Option ℕ
  pub to : Option ℕ
  pub body : List ℕ

-- A receiver is named by a number. A missing list is the nil slice.
pub record SpotBroker : Type 0 where
  pub self_key : ℕ
  pub handlers : Map ℕ
  pub pending : Map (List JsonMessage)

unfoldable pub new_spot_broker : ℕ → SpotBroker
new_spot_broker self = record { self_key = self; handlers = []; pending = [] }

abbrev pub list_of : Option (List JsonMessage) → List JsonMessage
list_of none = []
list_of (some ms) = ms

-- `Connect` under the mutex: the handler is set and the queue taken. It then delivers the queue.
unfoldable pub connect : String → ℕ → SpotBroker → SpotBroker × List JsonMessage
connect typ dest b = (
  record b { handlers = insert typ dest b.handlers; pending = erase typ b.pending },
  list_of (lookup typ b.pending),
)

-- `dispatch` under the mutex: the message is queued, or the handler is found that then receives it.
unfoldable pub dispatch : JsonMessage → SpotBroker → SpotBroker × Option ℕ
dispatch msg b = elim (lookup msg.type_name b.handlers) [
  | none ↦ (
    record b {
      pending =
          insert msg.type_name (list_of (lookup msg.type_name b.pending) ++ (msg ∷ [])) b.pending;
    },
    none,
  )
  | some h ↦ (b, some h)
]

abbrev is_self : ℕ → Option ℕ → Bool
is_self key none = false
is_self key (some k) = k == key

-- `fromSelf && !toSelf`: the message goes out over Spot.
abbrev pub is_outbound : JsonMessage → SpotBroker → Bool
is_outbound msg b = is_self b.self_key msg.from && not (is_self b.self_key msg.to)

-- `dispatchInbound` of a decoded message; `none` where the JSON does not parse.
unfoldable pub inbound : Option JsonMessage → Result JsonMessage
inbound none = err (wrap "parse JsonMessage" (message "json"))
inbound (some msg) = elim msg.from [
  | none ↦ err (message "incoming JsonMessage has no From")
  | some _ ↦ ok msg
]
