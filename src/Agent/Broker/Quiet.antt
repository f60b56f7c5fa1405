-- ===== src/Agent/Broker/Quiet.antt =====
-- When all deliveries are over, a connected type has nothing queued.
use clawdwallet.Base.{
  ℕ, ◌≡◌, refl, String, Bool, false, none, some, List, [], ◌∷◌, ◌++◌, arith, eq_iff, All, ◌&&◌,
  str_eq, Bool-cases, Option-cases, inl, inr,
}
use clawdwallet.Base.Maps.{Map, lookup, insert, erase, lookup-insert, lookup-erase}
use clawdwallet.Agent.Broker.{
  JsonMessage, SpotBroker, connect, dispatch, is_outbound, list_of, new_spot_broker,
}
use clawdwallet.Agent.Broker.Run.{
  Delivery, System, Step, receives, connects, delivers, Reach, here, next, start, do_receive,
  do_dispatch, do_connect,
}
use clawdwallet.Agent.Broker.Conservation.{
  count, count_pending, count_running, count_given, Reach-IsBalanced,
}

-- Each queue holds messages of its type only.
abbrev pub IsTyped : Map (List JsonMessage) → Type 0
IsTyped [] = Unit {0}
IsTyped ((k, ms) ∷ rest) = All (λ m. m.type_name ≡ k) ms × IsTyped rest

pub record Inv (b : SpotBroker) : Type 0 where
  pub typed : IsTyped b.pending
  -- A type with a handler has no queue.
  pub apart : (k : String) (h : ℕ) → lookup k b.handlers ≡ some h → lookup k b.pending ≡ none

All-last :
    (k : String) (ms : List JsonMessage) (m : JsonMessage)
    → All (λ x. x.type_name ≡ k) ms
    → m.type_name ≡ k
    → All (λ x. x.type_name ≡ k) (ms ++ (m ∷ []))
All-last k [] m h e = (e, tt)
All-last k (x ∷ ms) m (h, hs) e = (h, All-last k ms m hs e)

lookup-IsTyped :
    (k : String) (p : Map (List JsonMessage))
    → IsTyped p
    → All (λ x. x.type_name ≡ k) (list_of (lookup k p))
unfolding lookup
lookup-IsTyped k [] h = tt
lookup-IsTyped k ((j, ms) ∷ p) (h, hs) = elim (Bool-cases (str_eq j k)) [
  | inl same ↦ rw same (rw (← (eq_iff j k).0 same) h)
  | inr other ↦ rw other (lookup-IsTyped k p hs)
]

insert-IsTyped :
    (k : String) (ms : List JsonMessage) (p : Map (List JsonMessage))
    → IsTyped p
    → All (λ x. x.type_name ≡ k) ms
    → IsTyped (insert k ms p)
unfolding insert
insert-IsTyped k ms [] h a = (a, tt)
insert-IsTyped k ms ((j, w) ∷ p) (h, hs) a = elim (Bool-cases (str_eq j k)) [
  | inl same ↦ rw same (a, hs)
  | inr other ↦ rw other (h, insert-IsTyped k ms p hs a)
]

erase-IsTyped : (k : String) (p : Map (List JsonMessage)) → IsTyped p → IsTyped (erase k p)
unfolding erase
erase-IsTyped k [] h = tt
erase-IsTyped k ((j, w) ∷ p) (h, hs) = elim (Bool-cases (str_eq j k)) [
  | inl same ↦ rw same (erase-IsTyped k p hs)
  | inr other ↦ rw other (h, erase-IsTyped k p hs)
]

dispatch-Inv : (msg : JsonMessage) (b : SpotBroker) → Inv b → Inv (dispatch msg b).0
unfolding dispatch
dispatch-Inv msg b v = elim (Option-cases (lookup msg.type_name b.handlers)) [
  | inr (h, known) ↦ rw (known, dispatch) v
  | inl missing ↦
      rw (missing, dispatch)
        (record {
          typed =
              insert-IsTyped msg.type_name _ b.pending v.typed (
                All-last msg.type_name _ msg (lookup-IsTyped msg.type_name b.pending v.typed) refl);
          apart = λ k h known. ground (
            arith,
            lookup-insert msg.type_name k (list_of (lookup msg.type_name b.pending) ++ (msg ∷ []))
                b.pending,
            eq_iff msg.type_name k,
            v.apart k h,
          );
        })
]

connect-Inv : (typ : String) (dest : ℕ) (b : SpotBroker) → Inv b → Inv (connect typ dest b).0
unfolding connect
connect-Inv typ dest b v = record {
  typed = erase-IsTyped typ b.pending v.typed;
  apart = λ k h known.
      ground
        (arith, lookup-erase typ k b.pending, lookup-insert typ k dest b.handlers, v.apart k h);
}

Step-Inv : {s t : System} → Step s t → Inv s.broker → Inv t.broker
Step-Inv {s} (receives msg) v = elim (Bool-cases (is_outbound msg s.broker)) [
  | inl out ↦ unfold do_receive in rw (out, do_receive) v
  | inr local ↦
      unfold do_receive do_dispatch in rw (local, do_receive) (dispatch-Inv msg s.broker v)
]
Step-Inv {s} (connects typ dest) v = unfold do_connect in connect-Inv typ dest s.broker v
Step-Inv (delivers _ _ _ _ _ _) v = v

Reach-Inv : {s t : System} → Reach s t → Inv s.broker → Inv t.broker
Reach-Inv here v = v
Reach-Inv (next r st) v = Step-Inv st (Reach-Inv r v)

new-Inv : (self : ℕ) → Inv (start (new_spot_broker self)).broker
unfolding start new_spot_broker lookup
new-Inv self = record { typed = tt; apart = λ k h known. cc }

-- A test for the messages of one type.
abbrev pub of_type : String → (JsonMessage → Bool) → JsonMessage → Bool
of_type typ p m = str_eq m.type_name typ && p m

module _ (typ : String) (p : JsonMessage → Bool) where
  count-other :
      (k : String) (ms : List JsonMessage)
      → str_eq k typ ≡ false
      → All (λ m. m.type_name ≡ k) ms
      → count (of_type typ p) ms ≡ 0
  count-other k [] other h = refl
  count-other k (m ∷ ms) other (h, hs) =
      let differs : str_eq m.type_name typ ≡ false = rw h other in
      ground (arith, count-other k ms other hs)

  count_pending-none :
      (m : Map (List JsonMessage))
      → IsTyped m
      → lookup typ m ≡ none
      → count_pending (of_type typ p) m ≡ 0
  unfolding lookup
  count_pending-none [] h e = refl
  count_pending-none ((k, ms) ∷ m) (h, hs) e = elim (Bool-cases (str_eq k typ)) [
    | inl same ↦ absurd (ground arith)
    | inr other ↦
        omega (arith, count-other k ms other h, count_pending-none m hs (ground (arith, other, e)))
  ]

  count_running-idle :
      (ds : List Delivery) → All (λ d. d.queue ≡ []) ds → count_running (of_type typ p) ds ≡ 0
  count_running-idle [] h = refl
  count_running-idle (d ∷ ds) (h, hs) = ground (arith, h, count_running-idle ds hs)

-- When no delivery is under way, every message of a connected type that was taken has been given
-- to a receiver, and just once, in whatever order the handler was connected and the messages
-- came.
pub Reach-delivered :
    (typ : String) (p : JsonMessage → Bool) (self h : ℕ) {t : System}
    → Reach (start (new_spot_broker self)) t
    → lookup typ t.broker.handlers ≡ some h
    → All (λ d. d.queue ≡ []) t.running
    → count_given (of_type typ p) t.given ≡ count (of_type typ p) t.taken
Reach-delivered typ p self h {t} r connected idle =
    let v = Reach-Inv r (new-Inv self) in
    omega (
      arith,
      Reach-IsBalanced (of_type typ p) self r,
      count_pending-none typ p t.broker.pending v.typed (v.apart typ h connected),
      count_running-idle typ p t.running idle,
    )
