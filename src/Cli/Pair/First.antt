-- ===== src/Cli/Pair/First.antt =====
-- Whom the command of pair.go is paired with: what `<-done` gives.
use clawdwallet.Base.{
  All, ℕ, ◌≡◌, refl, ap, sym, subst, ◌∙◌, inl, inr, String, Option-cases, Option, none, some, List,
  Error, Result, ok, err, ok-inv, context-inv, ◌>>=◌, Result-cases,
}
use clawdwallet.Base.Maps.{insert}
use clawdwallet.Store.Disk.{Disk}
use clawdwallet.Agent.Pairing.{PairingRegistry, mint, issue, token_of, new_pairing_registry}
use clawdwallet.Agent.Pairing.Channel.{done, receive}
use clawdwallet.Agent.Pairing.Endpoint.{Identity, PairReply, pairing_url}
use clawdwallet.Config
use clawdwallet.Config.{Config}
use clawdwallet.Encoding.FilePath.{join}
use clawdwallet.Agent.Runtime.{RuntimeEnv, Agent, spot_id, new, start, fresh, stored}
use clawdwallet.Cli.Started.{with_agent}
use clawdwallet.Cli.Pair.{run_pair}
use clawdwallet.Cli.Pair.Arrivals.{
  Arrival, IsTimely, serve_pairs, first_claim, after, served, receive-after,
}

issue_first :
    (random : Result (List ℕ)) (now handle : ℕ) (token : String) (r : PairingRegistry)
    → issue random now new_pairing_registry ≡ ok (token, handle, r)
    → (handle ≡ 0) × (r ≡ after token now none)
unfolding issue mint insert new_pairing_registry
issue_first (err e) now handle token r h = cc
issue_first (ok buf) now handle token r h =
    let t : token_of buf ≡ token = cc in
    let s : after (token_of buf) now none ≡ r = cc in (cc, sym s ∙ ap (λ x. after x now none) t)

module _ (env : RuntimeEnv) where
  new-pairing :
      (c : Config) (d : Disk) (a : Agent env)
      → new env (some c) d ≡ ok a
      → a.pairing ≡ new_pairing_registry
  unfolding new
  new-pairing c d a h = elim (Result-cases (Config.dir env.config_env)) [
    | inr (x, q) ↦ let z = rw (q, new) at h in cc
    | inl (dir, q) ↦
        let (kc, w, i) =
          context-inv "spot disk store" (env.new_disk_store (join dir "spot")) _ a
            (rw (q, new) at h) in
        let e : fresh env c dir kc (stored env dir kc d) ≡ a = cc in
        ap (λ (x : Agent env). x.pairing) (sym e)
  ]

  start-pairing :
      (a b : Agent env) (e : Option Error) → start env a ≡ (b, e) → b.pairing ≡ a.pairing
  unfolding start
  start-pairing a b e h = elim (Result-cases (env.connect a.keychain)) [
    | inr (x, q) ↦
        let z = rw (q, start) at h in ap (λ (p : Agent env × Option Error). p.0.pairing) (sym z)
    | inl (x, q) ↦
        let z = rw (q, start) at h in ap (λ (p : Agent env × Option Error). p.0.pairing) (sym z)
  ]

  with_agent-pairing :
      (read_fault : Option Error) (d : Disk) (c : Config) (a : Agent env)
      → with_agent env read_fault d ≡ ok (c, a)
      → a.pairing ≡ new_pairing_registry
  unfolding with_agent
  with_agent-pairing read_fault d c a h =
      elim (Result-cases (Config.load env.config_env read_fault d)) [
        | inr (x, q) ↦ let z = rw (q, with_agent) at h in cc
        | inl (c', q) ↦ elim (Result-cases (new env (some c') d)) [
          | inr (x, w) ↦ let z = rw (q, w, with_agent) at h in cc
          | inl (b, w) ↦ elim (Option-cases (start env b).1) [
            | inr (x, y) ↦ let z = rw (q, w, ◌>>=◌, y, with_agent) at h in cc
            | inl y ↦
                let z = rw (q, w, ◌>>=◌, y, with_agent) at h in
                let e : (start env b).0 ≡ a = cc in
                ap (λ (x : Agent env). x.pairing) (sym e)
                ∙ start-pairing b (start env b).0 (start env b).1 refl
                ∙ new-pairing c' d b w
          ]
        ]
      ]

  -- What the command's end depends on: its channel.
  holds :
      (me : Identity) (xs : List Arrival) (now : ℕ) (token url : String) (b a : Agent env)
      (at handle : ℕ) (r : PairingRegistry)
      → All (IsTimely now) xs
      → at ≡ 0
      → r ≡ after token now none
      → ◌≡◌ {A = Result (String × ℕ × Agent env)}
          (ok (pairing_url (spot_id env b) token, at, record b { pairing = r }))
          (ok (url, handle, a))
      → (url ≡ pairing_url (spot_id env a) token)
        × (s : PairingRegistry) × (replies : List PairReply) × (serve_pairs me xs a.pairing
            ≡ done (s, replies))
        × ((receive handle s.chans).0 ≡ first_claim token now xs)
  unfolding spot_id
  holds me xs now token url b a at handle r timely zero first h =
      let agent : record b { pairing = r } ≡ a = cc in
      let link : pairing_url (spot_id env b) token ≡ url = cc in
      let place : handle ≡ 0 = cc in
      let (replies, t) = served me token now xs timely in
      (
        sym link ∙ ap (λ (x : Agent env). pairing_url (spot_id env x) token) agent,
        after token now (first_claim token now xs),
        replies,
        ap (λ (x : Agent env). serve_pairs me xs x.pairing) (sym agent)
            ∙ ap (serve_pairs me xs) first
            ∙ t,
        ap (λ i. (receive i (after token now (first_claim token now xs)).chans).0) place
            ∙ receive-after me token now (first_claim token now xs),
      )

  -- Whatever messages the agent of `pair` takes after the token is issued, with sweeps at most 35
  -- minutes after the issue in between, its handler neither panics nor blocks, and what then lies
  -- in the command's channel is the claim of the first message with version 1, the token of the
  -- printed URL and a mobile's id that came within five minutes of the issue, or nothing where
  -- none did.
  pub run_pair-first_claim :
      (read_fault : Option Error) (random : Result (List ℕ)) (now : ℕ) (d : Disk) (url : String)
      (handle : ℕ) (a : Agent env) (me : Identity) (xs : List Arrival)
      → All (IsTimely now) xs
      → run_pair env read_fault random now d ≡ ok (url, handle, a)
      → (token : String) × (url ≡ pairing_url (spot_id env a) token)
        × (r : PairingRegistry) × (replies : List PairReply) × (serve_pairs me xs a.pairing
            ≡ done (r, replies))
        × ((receive handle r.chans).0 ≡ first_claim token now xs)
  unfolding run_pair
  run_pair-first_claim read_fault random now d url handle a me xs timely h =
      let ((c, b), w, i) = ok-inv (with_agent env read_fault d) _ _ h in
      let ((token, at, r), x, y) = ok-inv (issue random now b.pairing) _ _ i in
      let (zero, first) = issue_first random now at token r (
        subst (λ p. issue random now p ≡ ok (token, at, r)) (with_agent-pairing read_fault d c b w)
          x) in
      let (link, s, replies, served_all, held) =
        holds me xs now token url b a at handle r timely zero first y in
      (token, link, s, replies, served_all, held)
