-- ===== src/Agent/Keygen/Saved.antt =====
-- What key generation of agent/keygen.go leaves in the share, in memory and on disk.
use clawdwallet.Base.{
  subst, ok-inv, ◌<◌, ◌≡◌, refl, ap, sym, ◌∙◌, inl, inr, String, Bool-cases, Option, none, some,
  Option-cases, List, [], ◌∷◌, map, Error, Result, ok, Result-cases, str_eq, context-inv, ◌>>=◌,
}
use clawdwallet.Store.Share.{Share, FrostKey}
use clawdwallet.Store.Disk.{WriteFault, Bottles, Disk, save, load, save}
use clawdwallet.Store.Disk.Laws.{load-save}
use clawdwallet.Solana.Keys.{KeyText}
use clawdwallet.Agent.Protocol.{resolve_curve_protocol, protocol_frost, protocol_dkls23}
use clawdwallet.Agent.Party.{
  PartyId, key_int, sorted_party_ids, shared_peer_keys, shared_peer_spot_ids, find_my_party_id,
  contains_spot_id,
}
use clawdwallet.Agent.Session.{Sessions, InitPayload}
use clawdwallet.Agent.Ceremony.{SignParams, Outcome, done, failed, session_over, ctx_over}
use clawdwallet.Agent.Transfer.{share_key_for}
use clawdwallet.Agent.Transfer.Signers.{IsShareOf, share_key_for-key_int}
use clawdwallet.Agent.Keygen.{
  kept, KeygenEnv, save_frost_share, save_dkls_share, run_keygen_frost, run_keygen_dkls, run_keygen,
  runner_for,
}
use clawdwallet.Agent.Keygen.Join.{Kept, saved, set_share, join_keygen, named_by}
use clawdwallet.Config
use clawdwallet.Config.{ConfigEnv}

map-map : (ps : List PartyId) → map some (map (λ p. p.key_int) ps) ≡ map (λ p. some p.key_int) ps
map-map [] = refl
map-map (p ∷ ps) = ap (λ r. some p.key_int ∷ r) (map-map ps)

some-inj : {A : Type 0} (x y : A) → ◌≡◌ {A = Option A} (some x) (some y) → x ≡ y
some-inj x y h = cc

ok-inj : {A : Type 0} (x y : A) → ◌≡◌ {A = Result A} (ok x) (ok y) → x ≡ y
ok-inj x y h = cc

saved-IsShareOf :
    (ps : List PartyId) (sh sh' : Share) → sh ≡ sh' → IsShareOf ps sh → IsShareOf ps sh'
saved-IsShareOf ps sh sh' e h = subst (IsShareOf ps) e h

module _ (env : KeygenEnv) (sid : String) (ip : InitPayload) where
  abbrev IsSaved : Share → Type 0
  IsSaved sh = IsShareOf (sorted_party_ids env.lib ip.peers) sh

  frost-IsSaved :
      (k : Option FrostKey) (sh : Share) → save_frost_share env sid ip k ≡ some sh → IsSaved sh
  unfolding save_frost_share shared_peer_keys shared_peer_spot_ids
  frost-IsSaved none sh h = cc
  frost-IsSaved (some k) sh h =
      saved-IsShareOf (sorted_party_ids env.lib ip.peers) _ sh (some-inj _ sh h)
        (refl, map-map (sorted_party_ids env.lib ip.peers))

  dkls-IsSaved :
      (k : Option env.DklsKey) (sh : Share) → save_dkls_share env sid ip k ≡ ok sh → IsSaved sh
  unfolding save_dkls_share shared_peer_keys shared_peer_spot_ids
  dkls-IsSaved none sh h = cc
  dkls-IsSaved (some k) sh h = elim (Result-cases (env.save_key k)) [
    | inr (x, q) ↦ absurd (let z = rw (q, save_dkls_share) at h in cc)
    | inl (blob, q) ↦
        let r = rw (q, save_dkls_share) at h in
        saved-IsShareOf (sorted_party_ids env.lib ip.peers) _ sh (ok-inj _ sh r)
          (refl, map-map (sorted_party_ids env.lib ip.peers))
  ]

  -- What the `select` keeps is what its function makes of the library's value.
  received :
      {V : Type 0} (f : V → Result (Option Share)) (o : Outcome V) (sh : Share)
      → kept f o ≡ ok (some sh)
      → (v : V) × (f v ≡ ok (some sh))
  unfolding kept
  received f (done v) sh h = (v, h)
  received f (failed e) sh h = cc
  received f (session_over none) sh h = cc
  received f (session_over (some e)) sh h = cc
  received f (ctx_over e) sh h = cc

  frost_run :
      (params : SignParams) (sh : Share)
      → run_keygen_frost env sid ip params ≡ ok (some sh)
      → IsSaved sh
  unfolding run_keygen_frost
  frost_run params sh h =
      let make : Option FrostKey → Result (Option Share) =
        λ k. ok (save_frost_share env sid ip k) in
      let (o, e, r) =
        context-inv "frosttss keygen start" (env.frost_keygen params) (kept make) (some sh) h in
      let (k, q) = received make o sh r in frost-IsSaved k sh cc

  dkls_run :
      (params : SignParams) (sh : Share)
      → run_keygen_dkls env sid ip params ≡ ok (some sh)
      → IsSaved sh
  unfolding run_keygen_dkls
  dkls_run params sh h =
      let make : Option env.DklsKey → Result (Option Share) =
        λ k. save_dkls_share env sid ip k >>= λ x. ok (some x) in
      let (o, e, r) =
        context-inv "dklstss keygen start" (env.dkls_keygen params) (kept make) (some sh) h in
      let (k, q) = received make o sh r in
      let (x, w, v) = ok-inv (save_dkls_share env sid ip k) (λ y. ok (some y)) (some sh) q in
      dkls-IsSaved k sh (w ∙ ap ok (some-inj x sh (ok-inj (some x) (some sh) v)))

  runner-IsSaved :
      (protocol : String) (params : SignParams) (sh : Share)
      → runner_for env protocol sid ip params ≡ ok (some sh)
      → IsSaved sh
  runner-IsSaved protocol params sh h = elim (Bool-cases (str_eq protocol protocol_frost)) [
    | inl q ↦ frost_run params sh (rw q at h)
    | inr q ↦ elim (Bool-cases (str_eq protocol protocol_dkls23)) [
      | inl w ↦ dkls_run params sh (rw (q, w) at h)
      | inr w ↦ absurd (let z = rw (q, w) at h in cc)
    ]
  ]

  run-IsSaved :
      (my_spot : String) (sessions : Sessions) (sh : Share)
      → (run_keygen env my_spot sid ip sessions).1 ≡ ok (some sh)
      → IsSaved sh
  unfolding run_keygen
  run-IsSaved my_spot sessions sh h =
      elim (Result-cases (resolve_curve_protocol ip.curve ip.protocol)) [
        | inr (x, q) ↦ absurd (let z = rw (q, run_keygen) at h in cc)
        | inl (res, q) ↦
            elim (Option-cases (find_my_party_id (sorted_party_ids env.lib ip.peers) my_spot)) [
              | inl w ↦ absurd (let z = rw (q, w, run_keygen) at h in cc)
              | inr (p, w) ↦ runner-IsSaved res.protocol _ sh (rw (q, w, run_keygen) at h)
            ]
      ]

  -- If key generation gives a share and slots a party under a key that is not zero, a signer that
  -- is later made from that share for the same Spot id is slotted under the same key.
  pub run_keygen-key_int :
      (my_spot s m : String) (sessions : Sessions) (sh : Share) (p : PartyId)
      → (run_keygen env my_spot sid ip sessions).1 ≡ ok (some sh)
      → find_my_party_id (sorted_party_ids env.lib ip.peers) s ≡ some p
      → 0 < p.key_int
      → key_int env.lib (record { spot_id = s; moniker = m; key = share_key_for (some sh) s })
        ≡ p.key_int
  run_keygen-key_int my_spot s m sessions sh p h found positive =
      share_key_for-key_int env.lib (sorted_party_ids env.lib ip.peers) sh s m p
        (run-IsSaved my_spot sessions sh h) found positive

saved_pair :
    (p : Disk × Option Error) (d' : Disk) → p.0 ≡ d' → saved p.1 ≡ saved none → p ≡ (d', none)
saved_pair (d, none) d' a b = cc
saved_pair (d, some e) d' a b = cc

kept_share :
    (bs : Bottles) (kc : bs.Keychain) (path : String) (f : Option WriteFault) (g : Option Error)
    (sh : Share) (st st' : Kept) (d d' : Disk)
    → (set_share bs (some kc) path f g sh st d).0 ≡ st'
    → (set_share bs (some kc) path f g sh st d).1 ≡ d'
    → saved (set_share bs (some kc) path f g sh st d).2 ≡ saved none
    → (st'.share ≡ some sh) × (st'.config ≡ st.config) × (load bs (some kc) path d' ≡ ok sh)
unfolding set_share
kept_share bs kc path f g sh st st' d d' a b c = (
  sym (ap (λ x. x.share) a),
  sym (ap (λ x. x.config) a),
  load-save bs kc path sh f g d d' (saved_pair (save bs (some kc) path sh f g d) d' b c),
)

-- What a key generation that ends with the share saved leaves in memory and on the disk.
pub join_keygen-inv :
    (bs : Bottles) (kc : bs.Keychain) (path : String) (f : Option WriteFault) (g : Option Error)
    (env : KeygenEnv) (t : KeyText) (config_env : ConfigEnv) (cf : Option WriteFault)
    (cg : Option Error) (my_spot sid : String) (ip : InitPayload) (sessions after : Sessions)
    (st st' : Kept) (d d' : Disk)
    → join_keygen bs (some kc) path f g env t config_env cf cg my_spot sid ip sessions st d
      ≡ (after, st', d', saved none)
    → (sh : Share) × (st'.share ≡ some sh)
      × (st'.config ≡ named_by t sh st.config)
      × (d'
          ≡ (save bs
              (some kc)
              path
              sh
              f
              g
              (Config.save config_env cf cg (named_by t sh st.config) d).0).0)
      × (load bs (some kc) path d' ≡ ok sh)
unfolding join_keygen set_share
join_keygen-inv bs kc path f g env t config_env cf cg my_spot sid ip sessions after st st' d d' h =
    elim (Bool-cases (contains_spot_id ip.peers my_spot)) [
      | inr q1 ↦ absurd (let z = rw (q1, join_keygen) at h in cc)
      | inl q1 ↦ elim (Result-cases (run_keygen env my_spot sid ip sessions).1) [
        | inr (x, q2) ↦ absurd (let z = rw (q1, q2, join_keygen) at h in cc)
        | inl (o, q2) ↦ elim (Option-cases o) [
          | inl q3 ↦ absurd (let z = rw (q1, q2, q3, join_keygen) at h in cc)
          | inr (sh, q3) ↦
              let z = rw (q1, q2, q3, join_keygen) at h in
              let c = named_by t sh st.config in
              let (u, v, w) =
                kept_share bs kc path f g sh (record st { config = c }) st'
                  (Config.save config_env cf cg c d).0 d' (ap (λ x. x.1) z) (ap (λ x. x.2) z)
                  (ap (λ x. x.3) z) in
              (sh, u, v, sym (ap (λ x. x.2) z), w)
        ]
      ]
    ]

-- A key generation that ends with the share saved leaves a share in memory that `Load` with the
-- same keychain gives back from the disk, and the config holds its wallet id.
pub join_keygen-load :
    (bs : Bottles) (kc : bs.Keychain) (path : String) (f : Option WriteFault) (g : Option Error)
    (env : KeygenEnv) (t : KeyText) (config_env : ConfigEnv) (cf : Option WriteFault)
    (cg : Option Error) (my_spot sid : String) (ip : InitPayload) (sessions after : Sessions)
    (st st' : Kept) (d d' : Disk)
    → join_keygen bs (some kc) path f g env t config_env cf cg my_spot sid ip sessions st d
      ≡ (after, st', d', saved none)
    → (sh : Share) × (st'.share ≡ some sh)
      × (st'.config ≡ named_by t sh st.config)
      × (load bs (some kc) path d' ≡ ok sh)
join_keygen-load bs kc path f g env t config_env cf cg my_spot sid ip sessions after st st' d d' h =
    let (sh, u, v, _, w) =
      join_keygen-inv bs kc path f g env t config_env cf cg my_spot sid ip sessions after st st' d
        d' h in
    (sh, u, v, w)
