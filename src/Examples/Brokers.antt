-- ===== src/Examples/Brokers.antt =====
-- A broker that gets a message before its handler.
use clawdwallet.Base.{◌≡◌, refl, Bool, true, none, some, [], ◌∷◌, ◌++◌}
use clawdwallet.Base.Maps.{lookup, insert, erase}
use clawdwallet.Agent.Broker.{JsonMessage, new_spot_broker, connect, dispatch}
use clawdwallet.Agent.Broker.Run.{
  System, do_receive, do_dispatch, do_connect, Step, receives, connects, delivers, Reach, here,
  next, start,
}
use clawdwallet.Agent.Broker.Conservation.{IsBalanced, count, count_given, Reach-IsBalanced}
use clawdwallet.Agent.Broker.Quiet.{of_type, Reach-delivered}

abbrev msg : JsonMessage
msg = record { type_name = "round1"; from = some 2; to = none; body = 1 ∷ [] }

abbrev begun : System
begun = start (new_spot_broker 1)

abbrev connected : System
connected = do_connect "round1" 7 (do_receive msg begun)

abbrev quiet : System
quiet = record connected { running = record { dest = 7; queue = [] } ∷ []; given = (7, msg) ∷ [] }

one_running : connected.running ≡ [] ++ (record { dest = 7; queue = msg ∷ [] } ∷ [])
unfolding do_connect do_receive do_dispatch dispatch connect start new_spot_broker lookup insert
    erase
one_running = refl

reached : Reach begun connected
reached = next (next here (receives msg)) (connects "round1" 7)

delivered : Step connected quiet
unfolding do_connect do_receive do_dispatch dispatch connect start new_spot_broker lookup insert
    erase
delivered = delivers [] [] 7 msg [] one_running

abbrev any : JsonMessage → Bool
any m = true

Reach-IsBalanced_example : IsBalanced any quiet
Reach-IsBalanced_example = Reach-IsBalanced any 1 (next reached delivered)

handler_set : lookup "round1" quiet.broker.handlers ≡ some 7
unfolding do_connect do_receive do_dispatch dispatch connect start new_spot_broker lookup insert
    erase
handler_set = refl

Reach-delivered_example :
    count_given (of_type "round1" any) quiet.given ≡ count (of_type "round1" any) quiet.taken
Reach-delivered_example =
    Reach-delivered "round1" any 1 7 (next reached delivered) handler_set (refl, tt)
