-- ===== src/Agent/Pairing/Ledger/Refines.antt =====
-- The registry gives the verdicts of the ledger.
use clawdwallet.Base.{
  ℕ, ◌+◌, ◌≤◌, ◌<◌, ◌≡◌, refl, ap, sym, ◌∙◌, ◌≢◌, ◌⊎◌, inl, inr, String, Bool, true, false, not,
  ◌&&◌, none, some, List, [], ◌∷◌, ◌++◌, ok, err, arith, eq_iff, str_eq, ltb, Bool-cases,
  Option-cases,
}
use clawdwallet.Base.Maps.{lookup, insert, lookup-insert}
use clawdwallet.Agent.Pairing.Channel.{done, receive, ◌>>=◌}
use clawdwallet.Agent.Pairing.{
  pairing_token_ttl, pairing_expired_grace, PairingRegistry, PairEntry, PairingError, token_of,
  mint, issue, consume, gc, close_registry, new_pairing_registry,
}
use clawdwallet.Agent.Pairing.Registry.{
  IsValid, new-IsValid, mint-IsValid, claimed, claimed-IsValid,
}
use clawdwallet.Agent.Pairing.Consume.{
  consume-Verdict, refuse, accept, lookup-gc, lookup-gc_recent, gc-IsValid, receive-IsValid,
}
use clawdwallet.Agent.Pairing.Window.{IsLive, consume_iff}
use clawdwallet.Agent.Pairing.Ledger.{
  Call, issues, taps, sweeps, receives, stops, IsTimed, act, run, Ticket, Ledger, is_good,
  ledger_act, ledger_run,
}

abbrev ticket_of : PairEntry → Ticket
ticket_of e = record { issued_at = e.issued_at; used = e.consumed }

-- The ledger has the tickets of the registry's tokens, and a ticket whose token was swept away is
-- past its time.
record Mirrors (last : ℕ) (r : PairingRegistry) (l : Ledger) : Type 0 where
  valid : IsValid r
  known :
      (t : String) (e : PairEntry) → lookup t r.entries ≡ some e → lookup t l ≡ some (ticket_of e)
  kept :
      (t : String) (k : Ticket)
      → lookup t l ≡ some k
      → ((e : PairEntry) × (lookup t r.entries ≡ some e)) ⊎ (k.issued_at + pairing_token_ttl < last)

later :
    {last now : ℕ} {r : PairingRegistry} {l : Ledger}
    → last ≤ now
    → Mirrors last r l
    → Mirrors now r l
later {now} h m = record {
  valid = m.valid;
  known = m.known;
  kept = λ t k q. elim (m.kept t k q) [ inl e ↦ inl e | inr old ↦ inr (omega arith) ];
}

-- A token that enters both, or changes in both, keeps them alike.
insert-Mirrors :
    (t : String) (e : PairEntry) (now : ℕ) (r r' : PairingRegistry) (l : Ledger)
    → IsValid r'
    → r'.entries ≡ insert t e r.entries
    → Mirrors now r l
    → Mirrors now r' (insert t (ticket_of e) l)
insert-Mirrors t e now r r' l v same m = record {
  valid = v;
  known = λ u f h.
      let g : lookup u (insert t e r.entries) ≡ some f = rw (← same) h in
      ground
        (arith, lookup-insert t u e r.entries, lookup-insert t u (ticket_of e) l, m.known u f, g);
  kept = λ u k h. elim (Bool-cases (str_eq t u)) [
    | inl q ↦ inl (e, ap (lookup u) same ∙ ground (arith, lookup-insert t u e r.entries, q))
    | inr q ↦
        let g : lookup u l ≡ some k = ground (arith, lookup-insert t u (ticket_of e) l, q, h) in
        elim (m.kept u k g) [
          | inl (f, w) ↦
              inl (f, ap (lookup u) same ∙ ground (arith, lookup-insert t u e r.entries, q, w))
          | inr old ↦ inr old
        ]
  ];
}

gc-Mirrors :
    (now : ℕ) (r : PairingRegistry) (l : Ledger) → Mirrors now r l → Mirrors now (gc now r) l
gc-Mirrors now r l m = record {
  valid = gc-IsValid now r m.valid;
  known = λ t e h. m.known t e (lookup-gc t now r e m.valid h);
  kept = λ t k h. elim (m.kept t k h) [
    | inr old ↦ inr old
    | inl (e, w) ↦
        let same : k ≡ ticket_of e = ground (arith, h, m.known t e w) in
        elim (Bool-cases (ltb (e.issued_at + (pairing_token_ttl + pairing_expired_grace)) now)) [
          | inl q ↦ inr (ground (arith, q, ap (λ (x : Ticket). x.issued_at) same))
          | inr q ↦ inl (e, lookup-gc_recent t now r e m.valid w (ground (arith, q)))
        ]
  ];
}

module _ (t mobile : String) (now at : ℕ) (r : PairingRegistry) (l : Ledger)
    (m : Mirrors now r l) where
  -- The ledger accepts only a token that the registry has and accepts.
  good-IsLive : (not (str_eq t "") && is_good now (lookup t l)) ≡ true → IsLive t now r
  good-IsLive h = elim (Option-cases (lookup t l)) [
    | inl q ↦ absurd (let z = rw q at h in ground (arith, z))
    | inr (k, q) ↦ elim (m.kept t k q) [
      | inr old ↦ absurd (let z = rw q at h in ground (arith, z))
      | inl (e, w) ↦
          let same : k ≡ ticket_of e = ground (arith, q, m.known t e w) in
          let z = rw (q, same) at h in
          ((λ x. ground (arith, z, eq_iff t "")), (e, w, ground (arith, z), ground (arith, z)))
    ]
  ]

  -- What a tap gives, on both sides.
  abbrev Agree : Type 0
  Agree =
      (r' : PairingRegistry) × (act (taps t mobile now at) r
        ≡ done (r', (ledger_act (taps t mobile now at) l).1))
      × Mirrors now r' (ledger_act (taps t mobile now at) l).0

  tap_refused : (code : PairingError) → consume t mobile now at r ≡ done (r, some code) → Agree
  unfolding act ledger_act
  tap_refused code h = elim (Bool-cases (not (str_eq t "") && is_good now (lookup t l))) [
    | inl good ↦
        let (r', live) = (consume_iff t mobile now at r m.valid).1 (good-IsLive good) in
        absurd (let z = sym h ∙ live in cc)
    | inr bad ↦ (r, rw (h, bad), rw bad m)
  ]

  tap_accepted :
      (e : PairEntry)
      → lookup t r.entries ≡ some e
      → e.consumed ≡ false
      → t ≢ ""
      → now ≤ e.issued_at + pairing_token_ttl
      → consume t mobile now at r ≡ done (claimed t e mobile at r, none)
      → Agree
  unfolding act ledger_act claimed
  tap_accepted e w fresh named timely h =
      let good : (not (str_eq t "") && is_good now (some (ticket_of e))) ≡ true =
        ground (arith, eq_iff t "") in
      (
        claimed t e mobile at r,
        rw (h, m.known t e w, good),
        rw (m.known t e w, good)
            (insert-Mirrors t (record e { consumed = true }) now r (claimed t e mobile at r) l
              (claimed-IsValid t e mobile at r m.valid w) refl m),
      )

  tap_agrees : Agree
  tap_agrees = elim (consume-Verdict t mobile now at r m.valid) [
    | refuse code h ↦ tap_refused code h
    | accept e w fresh named timely h ↦ tap_accepted e w fresh named timely h
  ]

run_step :
    (k : Call) (ks : List Call) (r r' : PairingRegistry) (v vs : List Bool)
    → act k r ≡ done (r', v)
    → run ks r' ≡ done vs
    → run (k ∷ ks) r ≡ done (v ++ vs)
unfolding run
run_step k ks r r' v vs h rest = rw (h, ◌>>=◌, rest)

run-refines :
    (ks : List Call) (last : ℕ) (r : PairingRegistry) (l : Ledger)
    → Mirrors last r l
    → IsTimed last ks
    → run ks r ≡ done (ledger_run ks l)
unfolding run ledger_run act ledger_act issue
run-refines [] last r l m h = refl
run-refines (issues (err e) now ∷ ks) last r l m (h, hs) =
    rw (run-refines ks now r l (later h m) hs)
run-refines (issues (ok buf) now ∷ ks) last r l m (h, hs) = rw (
    run-refines ks now (mint (token_of buf) now r)
      (insert (token_of buf) (record { issued_at = now; used = false }) l)
      (unfold mint in
        insert-Mirrors (token_of buf) _ now r (mint (token_of buf) now r) l
          (mint-IsValid (token_of buf) now r m.valid) refl (later h m))
      hs)
run-refines (taps t mobile now at ∷ ks) last r l m (h, hs) =
    let (r', e, m') = tap_agrees t mobile now at r l (later h m) in
    run_step (taps t mobile now at) ks r r' _ _ e (run-refines ks now r' _ m' hs)
run-refines (sweeps now ∷ ks) last r l m (h, hs) =
    rw (run-refines ks now (gc now r) l (gc-Mirrors now r l (later h m)) hs)
run-refines (receives i ∷ ks) last r l m hs = rw (
    run-refines ks last (record r { chans = (receive i r.chans).1 }) l
      (record { valid = receive-IsValid i r m.valid; known = m.known; kept = m.kept }) hs)
run-refines (stops ∷ ks) last r l m hs = rw (
    run-refines ks last (close_registry r) l
      (unfold close_registry in
        record {
          valid = record {
            keys = m.valid.keys;
            has_chan = m.valid.has_chan;
            own_chan = m.valid.own_chan;
          };
          known = m.known;
          kept = m.kept;
        })
      hs)

new-Mirrors : Mirrors 0 new_pairing_registry []
unfolding new_pairing_registry lookup
new-Mirrors = record { valid = new-IsValid; known = λ t e h. cc; kept = λ t k h. cc }

-- Over any calls on a new registry whose times do not go back, the registry neither panics nor
-- blocks, and it accepts and refuses just the taps that a ledger does which has neither channels
-- nor sweeps and never forgets a token.
pub run-ledger_run :
    (ks : List Call) → IsTimed 0 ks → run ks new_pairing_registry ≡ done (ledger_run ks [])
run-ledger_run ks h = run-refines ks 0 new_pairing_registry [] new-Mirrors h
