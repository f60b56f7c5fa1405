-- ===== src/Agent/Broker/Run.antt =====
-- The broker under any interleaving: callers of `Receive` and `Connect` take the mutex in turn, and
-- deliver outside it.
use clawdwallet.Base.{ℕ, ◌≡◌, String, Option, none, some, List, [], ◌∷◌, ◌++◌, if◌then◌else◌}
use clawdwallet.Agent.Broker.{JsonMessage, SpotBroker, connect, dispatch, is_outbound}

-- A caller that still has messages to hand to a receiver, in order.
pub record Delivery : Type 0 where
  pub dest : ℕ
  pub queue : List JsonMessage

pub record System : Type 0 where
  pub broker : SpotBroker
  pub running : List Delivery
  -- What was sent out, what was taken for local dispatch, and what a receiver was given, latest first.
  pub sent : List JsonMessage
  pub taken : List JsonMessage
  pub given : List (ℕ × JsonMessage)

abbrev with_handler : Option ℕ → JsonMessage → List Delivery → List Delivery
with_handler none msg ds = ds
with_handler (some h) msg ds = record { dest = h; queue = msg ∷ [] } ∷ ds

unfoldable pub do_dispatch : JsonMessage → System → System
do_dispatch msg s =
    let (b, h) = dispatch msg s.broker in
    record s { broker = b; running = with_handler h msg s.running; taken = msg ∷ s.taken }

unfoldable pub do_receive : JsonMessage → System → System
do_receive msg s =
    if is_outbound msg s.broker then record s { sent = msg ∷ s.sent } else do_dispatch msg s

unfoldable pub do_connect : String → ℕ → System → System
do_connect typ dest s =
    let (b, queued) = connect typ dest s.broker in
    record s { broker = b; running = record { dest = dest; queue = queued } ∷ s.running }

pub data Step (s : System) : System → Type 0 where
  receives : (msg : JsonMessage) → Step s (do_receive msg s)
  connects : (typ : String) (dest : ℕ) → Step s (do_connect typ dest s)
  delivers :
      (before after : List Delivery) (dest : ℕ) (msg : JsonMessage) (queue : List JsonMessage)
      → s.running ≡ before ++ (record { dest = dest; queue = msg ∷ queue } ∷ after)
      → Step s (record s {
        running = before ++ (record { dest = dest; queue = queue } ∷ after);
        given = (dest, msg) ∷ s.given;
      })

pub data Reach (s : System) : System → Type 0 where
  here : Reach s s
  next : {t u : System} → Reach s t → Step t u → Reach s u

unfoldable pub start : SpotBroker → System
start b = record { broker = b; running = []; sent = []; taken = []; given = [] }
