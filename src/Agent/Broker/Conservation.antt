-- ===== src/Agent/Broker/Conservation.antt =====
-- No message is lost or doubled.
use clawdwallet.Base.{
  ℕ, ◌+◌, ◌≡◌, refl, ap, String, Bool, List, [], ◌∷◌, ◌++◌, arith, if◌then◌else◌, eq_iff,
}
use clawdwallet.Base.Maps.{
  Map, lookup, insert, erase, NotKey, HasUniqueKeys, HasUniqueKeys-insert, HasUniqueKeys-erase,
}
use clawdwallet.Agent.Broker.{JsonMessage, connect, dispatch, list_of, new_spot_broker}
use clawdwallet.Agent.Broker.Run.{
  Delivery, System, Step, receives, connects, delivers, Reach, here, next, start, do_receive,
  do_dispatch, do_connect,
}

-- How many messages pass a test. Two lists with equal counts for every test hold the same messages.
module _ (p : JsonMessage → Bool) where
  abbrev pub count : List JsonMessage → ℕ
  count [] = 0
  count (m ∷ ms) = (if p m then 1 else 0) + count ms

  abbrev pub count_pending : Map (List JsonMessage) → ℕ
  count_pending [] = 0
  count_pending ((k, ms) ∷ rest) = count ms + count_pending rest

  abbrev pub count_running : List Delivery → ℕ
  count_running [] = 0
  count_running (d ∷ ds) = count d.queue + count_running ds

  abbrev pub count_given : List (ℕ × JsonMessage) → ℕ
  count_given [] = 0
  count_given ((h, m) ∷ rest) = (if p m then 1 else 0) + count_given rest

  count-append : (xs ys : List JsonMessage) → count (xs ++ ys) ≡ count xs + count ys
  count-append [] ys = omega arith
  count-append (x ∷ xs) ys = omega (arith, count-append xs ys)

  count_running-append :
      (xs ys : List Delivery) → count_running (xs ++ ys) ≡ count_running xs + count_running ys
  count_running-append [] ys = omega arith
  count_running-append (x ∷ xs) ys = omega (arith, count_running-append xs ys)

  count_pending-insert :
      (k : String) (ms : List JsonMessage) (m : Map (List JsonMessage))
      → count_pending (insert k ms m) + count (list_of (lookup k m)) ≡ count_pending m + count ms
  unfolding insert lookup
  count_pending-insert k ms [] = omega arith
  count_pending-insert k ms ((j, w) ∷ m) = ground (arith, count_pending-insert k ms m)

  erase-NotKey : (k : String) (m : Map (List JsonMessage)) → NotKey k m → erase k m ≡ m
  unfolding erase
  erase-NotKey k [] h = refl
  erase-NotKey k ((j, w) ∷ m) h = ground (arith, eq_iff j k, erase-NotKey k m h.1)

  count_pending-erase :
      (k : String) (m : Map (List JsonMessage))
      → HasUniqueKeys m
      → count_pending (erase k m) + count (list_of (lookup k m)) ≡ count_pending m
  unfolding erase lookup
  count_pending-erase k [] h = omega arith
  count_pending-erase k ((j, w) ∷ m) h =
      ground (arith, eq_iff j k, erase-NotKey j m h.0, count_pending-erase k m h.1)

  -- Every message that was taken is queued, on its way, or given to a receiver.
  abbrev pub IsBalanced : System → Type 0
  IsBalanced s =
      count s.taken ≡ count_pending s.broker.pending + count_running s.running + count_given s.given

  dispatch-IsBalanced :
      (msg : JsonMessage) (s : System) → IsBalanced s → IsBalanced (do_dispatch msg s)
  unfolding do_dispatch dispatch
  dispatch-IsBalanced msg s h = ground (
    arith,
    count_pending-insert msg.type_name
        (list_of (lookup msg.type_name s.broker.pending) ++ (msg ∷ [])) s.broker.pending,
    count-append (list_of (lookup msg.type_name s.broker.pending)) (msg ∷ []),
  )

  Step-IsBalanced :
      {s t : System} → Step s t → HasUniqueKeys s.broker.pending → IsBalanced s → IsBalanced t
  Step-IsBalanced {s} (receives msg) u h =
      unfold do_receive in ground (arith, dispatch-IsBalanced msg s h)
  Step-IsBalanced {s} (connects typ dest) u h =
      unfold do_connect connect in ground (arith, count_pending-erase typ s.broker.pending u)
  Step-IsBalanced {s} (delivers before after dest msg queue e) u h = omega (
    arith,
    ap count_running e,
    count_running-append before (record { dest = dest; queue = msg ∷ queue } ∷ after),
    count_running-append before (record { dest = dest; queue = queue } ∷ after),
  )

Step-HasUniqueKeys :
    {s t : System} → Step s t → HasUniqueKeys s.broker.pending → HasUniqueKeys t.broker.pending
Step-HasUniqueKeys {s} (receives msg) u =
    unfold do_receive do_dispatch dispatch in
    ground (
      arith,
      HasUniqueKeys-insert msg.type_name
          (list_of (lookup msg.type_name s.broker.pending) ++ (msg ∷ [])) s.broker.pending u,
    )
Step-HasUniqueKeys {s} (connects typ dest) u =
    unfold do_connect connect in HasUniqueKeys-erase typ s.broker.pending u
Step-HasUniqueKeys (delivers _ _ _ _ _ _) u = u

Reach-HasUniqueKeys :
    {s t : System} → Reach s t → HasUniqueKeys s.broker.pending → HasUniqueKeys t.broker.pending
Reach-HasUniqueKeys here u = u
Reach-HasUniqueKeys (next r st) u = Step-HasUniqueKeys st (Reach-HasUniqueKeys r u)

-- In every state that a new broker reaches, and for every test on messages, the messages taken
-- for local dispatch are those queued, on their way, and given to a receiver, each counted as
-- often.
pub Reach-IsBalanced :
    (p : JsonMessage → Bool) (self : ℕ) {t : System}
    → Reach (start (new_spot_broker self)) t
    → IsBalanced p t
Reach-IsBalanced p self here = unfold start new_spot_broker in omega arith
Reach-IsBalanced p self (next r st) =
    Step-IsBalanced p st (Reach-HasUniqueKeys r (unfold start new_spot_broker in tt))
      (Reach-IsBalanced p self r)
