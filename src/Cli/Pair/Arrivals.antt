-- ===== src/Cli/Pair/Arrivals.antt =====
-- pair.go while it waits: the messages that the `pair` handler of agent/pairing.go takes meanwhile, the
-- sweeps of its ticker, and what then lies in the command's channel.
use clawdwallet.Base.{
  ℕ, ◌+◌, ◌≤◌, All, ap, ◌∙◌, arith, ◌-◌, ◌≡◌, refl, sym, inl, inr, String, Bool, Bool-cases,
  Option-cases, true, false, Option, none, some, List, [], ◌∷◌, eq_iff, str_eq, ltb, not, ◌&&◌,
  if◌then◌else◌,
}
use clawdwallet.Base.Machine.{is_pos}
use clawdwallet.Base.Maps.{lookup, insert, keep_if}
use clawdwallet.Agent.Pairing.{
  PairingRegistry, pairing_token_ttl, pairing_expired_grace, consume, gc,
}
use clawdwallet.Agent.Pairing.Channel
use clawdwallet.Agent.Pairing.Channel.{Consumption, Chan, Outcome, done, make, receive, send, close}
use clawdwallet.Agent.Pairing.Endpoint.{
  Identity, PairRequest, PairReply, paired, response, handle_pair, handle_request,
}

-- A message, with the two readings of the registry's clock, or a tick of `gcLoop`.
pub data Arrival : Type 0 where
  message : Option (Option PairRequest) → ℕ → ℕ → Arrival
  tick : ℕ → Arrival

unfoldable pub serve_pairs :
    Identity → List Arrival → PairingRegistry → Outcome (PairingRegistry × List PairReply)
serve_pairs me [] r = done (r, [])
serve_pairs me (message msg now at ∷ xs) r =
    Channel.◌>>=◌ (handle_pair me msg now at r)
      (λ p. Channel.◌>>=◌ (serve_pairs me xs p.0) (λ q. done (q.0, p.1 ∷ q.1)))
serve_pairs me (tick now ∷ xs) r = serve_pairs me xs (gc now r)

-- A tick comes while the token is remembered: at most 35 minutes after the issue.
abbrev pub IsTimely : ℕ → Arrival → Type 0
IsTimely issued (message msg now at) = Unit {0}
IsTimely issued (tick now) = now ≤ issued + (pairing_token_ttl + pairing_expired_grace)

-- A request claims the token that was issued at this time if it has version 1, a mobile's id and the
-- token, and comes within the token's life.
abbrev pub claims : String → ℕ → PairRequest → ℕ → Bool
claims token issued req now =
    is_pos 1 req.v
    && not (str_eq req.token "")
    && not (str_eq req.mobile_spot_id "")
    && str_eq token req.token
    && not (ltb pairing_token_ttl (now - issued))

abbrev pub claim_of : String → ℕ → Option (Option PairRequest) → ℕ → ℕ → Option Consumption
claim_of token issued none now at = none
claim_of token issued (some none) now at = none
claim_of token issued (some (some req)) now at =
    if claims token issued req now
    then some (record { mobile_spot_id = req.mobile_spot_id; at = at })
    else none

-- What the first message that claims the token says.
unfoldable pub first_claim : String → ℕ → List Arrival → Option Consumption
first_claim token issued [] = none
first_claim token issued (message msg now at ∷ xs) =
    let rest = first_claim token issued xs in
    elim (claim_of token issued msg now at) [ none ↦ rest | some c ↦ some c ]
first_claim token issued (tick now ∷ xs) = first_claim token issued xs

-- The registry of the command, with one token, before and after it is claimed.
abbrev pub after : String → ℕ → Option Consumption → PairingRegistry
after token issued none = record {
  entries = (token, record { issued_at = issued; consumed = false; done = 0 }) ∷ [];
  chans = make ∷ [];
  stopped = false;
}
after token issued (some c) = record {
  entries = (token, record { issued_at = issued; consumed = true; done = 0 }) ∷ [];
  chans = record { buffer = some c; closed = true } ∷ [];
  stopped = false;
}

module _ (me : Identity) (token : String) (issued : ℕ) where
  handled_first :
      (msg : Option (Option PairRequest)) (now at : ℕ)
      → (reply : PairReply) × (handle_pair me msg now at (after token issued none)
          ≡ done (after token issued (claim_of token issued msg now at), reply))
  unfolding handle_pair handle_request consume lookup insert send close
  handled_first none now at = (_, refl)
  handled_first (some none) now at = (_, refl)
  handled_first (some (some req)) now at = elim (Bool-cases (is_pos 1 req.v)) [
    | inr q1 ↦ rw (handle_request, q1) (_, refl)
    | inl q1 ↦ elim (Bool-cases (str_eq req.token "")) [
      | inl q2 ↦ rw (handle_request, q1, q2) (_, refl)
      | inr q2 ↦ elim (Bool-cases (str_eq req.mobile_spot_id "")) [
        | inl q3 ↦ rw (handle_request, q1, q2, q3) (_, refl)
        | inr q3 ↦ elim (Bool-cases (str_eq token req.token)) [
          | inr q4 ↦ rw (handle_request, consume, lookup, q1, q2, q3, q4) (_, refl)
          | inl q4 ↦ elim (Bool-cases (ltb pairing_token_ttl (now - issued))) [
            | inl q5 ↦ rw (handle_request, consume, lookup, q1, q2, q3, q4, q5) (_, refl)
            | inr q5 ↦
                let e = (eq_iff token req.token).0 q4 in
                rw (handle_request, consume, lookup, q1, q2, q3, q4, q5)
                  (paired (response me), rw (q4, sym e) refl)
          ]
        ]
      ]
    ]
  ]

  handled_later :
      (c : Consumption) (msg : Option (Option PairRequest)) (now at : ℕ)
      → (reply : PairReply) × (handle_pair me msg now at (after token issued (some c))
          ≡ done (after token issued (some c), reply))
  unfolding handle_pair handle_request consume lookup
  handled_later c none now at = (_, refl)
  handled_later c (some none) now at = (_, refl)
  handled_later c (some (some req)) now at = elim (Bool-cases (is_pos 1 req.v)) [
    | inr q1 ↦ rw (handle_request, q1) (_, refl)
    | inl q1 ↦ elim (Bool-cases (str_eq req.token "")) [
      | inl q2 ↦ rw (handle_request, q1, q2) (_, refl)
      | inr q2 ↦ elim (Bool-cases (str_eq req.mobile_spot_id "")) [
        | inl q3 ↦ rw (handle_request, q1, q2, q3) (_, refl)
        | inr q3 ↦ elim (Bool-cases (str_eq token req.token)) [
          | inr q4 ↦ rw (handle_request, consume, lookup, q1, q2, q3, q4) (_, refl)
          | inl q4 ↦ rw (handle_request, consume, lookup, q1, q2, q3, q4) (_, refl)
        ]
      ]
    ]
  ]

  gc-after :
      (now : ℕ) (c : Option Consumption)
      → now ≤ issued + (pairing_token_ttl + pairing_expired_grace)
      → gc now (after token issued c) ≡ after token issued c
  unfolding gc keep_if
  gc-after now none h = ground arith
  gc-after now (some c) h = ground arith

  served_later :
      (c : Consumption) (xs : List Arrival)
      → All (IsTimely issued) xs
      → (replies : List PairReply) × (serve_pairs me xs (after token issued (some c))
          ≡ done (after token issued (some c), replies))
  unfolding serve_pairs
  served_later c [] hs = (_, refl)
  served_later c (tick now ∷ xs) (h, hs) =
      let (replies, t) = served_later c xs hs in
      (replies, ap (serve_pairs me xs) (gc-after now (some c) h) ∙ t)
  served_later c (message msg now at ∷ xs) (h, hs) =
      let (reply, g) = handled_later c msg now at in
      let (replies, t) = served_later c xs hs in (reply ∷ replies, rw (serve_pairs, g, t))

  pub served :
      (xs : List Arrival)
      → All (IsTimely issued) xs
      → (replies : List PairReply) × (serve_pairs me xs (after token issued none)
          ≡ done (after token issued (first_claim token issued xs), replies))
  unfolding serve_pairs first_claim
  served [] hs = (_, refl)
  served (tick now ∷ xs) (h, hs) =
      let (replies, t) = served xs hs in (replies, ap (serve_pairs me xs) (gc-after now none h) ∙ t)
  served (message msg now at ∷ xs) (h, hs) =
      let (reply, g) = handled_first msg now at in
      elim (Option-cases (claim_of token issued msg now at)) [
        | inl q ↦
            let (replies, t) = served xs hs in
            (reply ∷ replies, rw (serve_pairs, g, q, t, first_claim))
        | inr (c, q) ↦
            let (replies, t) = served_later c xs hs in
            (reply ∷ replies, rw (serve_pairs, g, q, t, first_claim))
      ]

  pub receive-after : (c : Option Consumption) → (receive 0 (after token issued c).chans).0 ≡ c
  unfolding receive
  receive-after none = refl
  receive-after (some c) = refl
