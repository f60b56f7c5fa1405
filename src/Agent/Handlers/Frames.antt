-- ===== src/Agent/Handlers/Frames.antt =====
-- The frames of `makeWireSend` in agent/keygen.go.
use clawdwallet.Base.{
  ℕ, ◌≡◌, ◌≢◌, refl, inl, inr, String, Bool-cases, Option-cases, List, [], ◌∷◌, Result,
  Result-cases, arith, eq_iff, str_eq, All,
}
use clawdwallet.Agent.Party.{PeerSpec}
use clawdwallet.Agent.Ceremony.{Frame, walletsign_frame}
use clawdwallet.Agent.Handlers.{WireMessage, wire_send, id_or_empty, broadcast}

-- The frame goes to a peer that is not the agent.
abbrev pub IsToOther : String → String → Frame → Type 0
IsToOther my_spot sid f =
    (to suffix party_id : String) × ((to ≢ my_spot)
      × (f ≡ walletsign_frame my_spot to sid suffix party_id f.body))

broadcast-IsToOther :
    (my_spot sid party_id : String) (body : List ℕ) (ps : List PeerSpec)
    → All (IsToOther my_spot sid) (broadcast my_spot sid party_id body ps)
unfolding broadcast walletsign_frame
broadcast-IsToOther my_spot sid party_id body [] = tt
broadcast-IsToOther my_spot sid party_id body (p ∷ ps) =
    elim (Bool-cases (str_eq p.spot_id my_spot)) [
      | inl q ↦ rw (q, broadcast) (broadcast-IsToOther my_spot sid party_id body ps)
      | inr q ↦
          rw (q, broadcast)
            (
              (
                p.spot_id,
                "broadcast",
                party_id,
                ((λ x. ground (arith, q, eq_iff p.spot_id my_spot)), refl),
              ),
              broadcast-IsToOther my_spot sid party_id body ps,
            )
    ]

-- Whatever the message, no frame that a session's broker sends goes back to the agent.
wire_send-IsToOther :
    (my_spot sid : String) (peers : List PeerSpec) (marshal : WireMessage → Result (List ℕ))
    (jm : WireMessage)
    → All (IsToOther my_spot sid) (wire_send my_spot sid peers marshal jm)
unfolding wire_send walletsign_frame
wire_send-IsToOther my_spot sid peers marshal jm = elim (Result-cases (marshal jm)) [
  | inr (x, q) ↦ rw (q, wire_send) tt
  | inl (body, q) ↦ elim (Option-cases jm.to) [
    | inl w ↦
        rw (q, w, wire_send) (broadcast-IsToOther my_spot sid (id_or_empty jm.from) body peers)
    | inr (to, w) ↦ elim (Bool-cases (str_eq to my_spot)) [
      | inl v ↦ rw (q, w, v, wire_send) tt
      | inr v ↦
          rw (q, w, v, wire_send)
            (
              (
                to,
                "single",
                id_or_empty jm.from,
                ((λ x. ground (arith, v, eq_iff to my_spot)), refl),
              ),
              tt,
            )
    ]
  ]
]
