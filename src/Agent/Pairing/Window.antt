-- ===== src/Agent/Pairing/Window.antt =====
-- When a token is accepted, what its issuer then receives, and what a late tap is told.
use clawdwallet.Base.{
  ℕ, ◌+◌, ◌-◌, ◌≤◌, ◌<◌, ◌≡◌, refl, ◌∙◌, set, length, ◌≢◌, ◌↔◌, String, true, false, none, some,
  arith, get_elem?, get_elem?-set_self, get_elem?-set_ne, eq_iff, str_eq, ltb, eq_refl,
}
use clawdwallet.Base.Maps.{lookup, lookup-insert}
use clawdwallet.Agent.Pairing.Channel.{Chan, done, receive}
use clawdwallet.Agent.Pairing.Registry.{IsValid, claimed, claim_done, get_elem?-lt}
use clawdwallet.Agent.Pairing.Consume.{consume-Verdict, refuse, accept, lookup-gc_recent}
use clawdwallet.Agent.Pairing.{
  pairing_token_ttl, pairing_expired_grace, PairingRegistry, PairEntry, token_expired, consume, gc,
}

-- The token is one that `Issue` gave out, not claimed yet, and at most five minutes old.
abbrev pub IsLive : String → ℕ → PairingRegistry → Type 0
IsLive token now r =
    (token ≢ "")
    × ((e : PairEntry) × (lookup token r.entries ≡ some e)
        × (e.consumed ≡ false)
        × (now ≤ e.issued_at + pairing_token_ttl))

claimed-receive :
    (token : String) (e : PairEntry) (mobile : String) (at : ℕ) (r : PairingRegistry)
    → lookup token r.entries ≡ some e
    → e.done < length r.chans
    → let r' = claimed token e mobile at r in
      (f : PairEntry) × (lookup token r.entries ≡ some f)
      × ((receive f.done r'.chans).0 ≡ some (record { mobile_spot_id = mobile; at = at }))
      × ((ch : Chan) × (get_elem? r'.chans f.done ≡ some ch) × (ch.closed ≡ true))
      × ((h : ℕ) → f.done ≢ h → get_elem? r'.chans h ≡ get_elem? r.chans h)
      × (lookup token r'.entries ≡ some (record f { consumed = true }))
unfolding claimed receive
claimed-receive token e mobile at r known room =
    let got : Chan = record {
      buffer = some (record { mobile_spot_id = mobile; at = at });
      closed = true;
    } in
    let placed : get_elem? (set r.chans e.done got) e.done ≡ some got =
      get_elem?-set_self r.chans e.done got room in
    (
      e,
      known,
      rw (placed, receive),
      (got, placed, refl),
      λ h other. get_elem?-set_ne r.chans got other,
      simp (lookup-insert, eq_refl),
    )

module _ (token mobile : String) (now at : ℕ) (r : PairingRegistry) (v : IsValid r) where
  consume-live :
      IsLive token now r
      → (r' : PairingRegistry) × (consume token mobile now at r ≡ done (r', none))
  unfolding consume
  consume-live (named, (e, known, fresh, timely)) =
      let filled : str_eq token "" ≡ false = ground (arith, eq_iff token "") in
      let (ch, here, closed, empty) = v.has_chan token e known in
      let inside : ltb pairing_token_ttl (now - e.issued_at) ≡ false = ground arith in
      (
        claimed token e mobile at r,
        rw (filled, known)
            (unfold claimed in
              rw (fresh, inside)
                (claim_done token (record e { consumed = false }) mobile at r refl
                  (ch, here, closed ∙ fresh, λ _. empty fresh))),
      )

  IsLive-of_consume :
      (r' : PairingRegistry) → consume token mobile now at r ≡ done (r', none) → IsLive token now r
  IsLive-of_consume r' h = elim (consume-Verdict token mobile now at r v) [
    | refuse code e ↦ cc
    | accept e known fresh named timely same ↦ (named, (e, known, fresh, timely))
  ]

  -- On a valid registry a token is accepted exactly when it was given out, is not claimed yet,
  -- and is no older than five minutes.
  pub consume_iff :
      ((r' : PairingRegistry) × (consume token mobile now at r ≡ done (r', none)))
      ↔ IsLive token now r
  consume_iff = (λ h. IsLive-of_consume h.0 h.1, consume-live)

  -- When `Consume` accepts a token on a valid registry, the channel of the token's issuer holds
  -- the mobile's id and is closed, every other channel is as it was, and the token is consumed.
  consume-receive :
      (r' : PairingRegistry)
      → consume token mobile now at r ≡ done (r', none)
      → (e : PairEntry) × (lookup token r.entries ≡ some e)
        × ((receive e.done r'.chans).0 ≡ some (record { mobile_spot_id = mobile; at = at }))
        × ((ch : Chan) × (get_elem? r'.chans e.done ≡ some ch) × (ch.closed ≡ true))
        × ((h : ℕ) → e.done ≢ h → get_elem? r'.chans h ≡ get_elem? r.chans h)
        × (lookup token r'.entries ≡ some (record e { consumed = true }))
  consume-receive r' h = elim (consume-Verdict token mobile now at r v) [
    | refuse code e ↦ cc
    | accept e known fresh named timely same ↦
        let same' : r' ≡ claimed token e mobile at r = cc in
        let (ch, here, closed, empty) = v.has_chan token e known in
        rw same' (claimed-receive token e mobile at r known (get_elem?-lt r.chans e.done here))
  ]

-- A tap within the grace window, but past the lifetime, is told that the token is expired, also
-- when the sweep has run in between.
consume-gc_late :
    (token mobile : String) (sweep now at : ℕ) (r : PairingRegistry) (e : PairEntry)
    → IsValid r
    → token ≢ ""
    → lookup token r.entries ≡ some e
    → e.consumed ≡ false
    → sweep ≤ e.issued_at + (pairing_token_ttl + pairing_expired_grace)
    → e.issued_at + pairing_token_ttl < now
    → consume token mobile now at (gc sweep r) ≡ done (gc sweep r, some token_expired)
unfolding consume
consume-gc_late token mobile sweep now at r e v named known fresh swept late =
    let filled : str_eq token "" ≡ false = ground (arith, eq_iff token "") in
    let past : ltb pairing_token_ttl (now - e.issued_at) ≡ true = ground arith in
    rw (filled, lookup-gc_recent token sweep r e v known swept) (rw (fresh, past))
