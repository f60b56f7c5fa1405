-- ===== src/Agent/Signing/Race.antt =====
-- `SignDigest` of agent/signing.go in steps, between which other ceremonies register and drop their
-- sessions.
use clawdwallet.Base.{
  ℕ, ◌≡◌, ◌≢◌, refl, sym, ◌∙◌, subst, inl, inr, String, Bool-cases, Option, none, some,
  Option-cases, List, [], ◌∷◌, ◌++◌, Error, ok, err, Result-cases, arith, eq_iff, eq_refl, str_eq,
  All,
}
use mathlib.Core.List.{append-nil, append_assoc}
use clawdwallet.Base.Maps.{lookup-insert, lookup-erase}
use clawdwallet.Store.Share.{Share}
use clawdwallet.Agent.Party.{PeerSpec, PartyId, sorted_party_ids}
use clawdwallet.Agent.Session.{Session, Sessions, get, put, drop}
use clawdwallet.Agent.Ceremony.{SignEnv, Local, Frame, TxsignInit}
use clawdwallet.Agent.Signing.{
  leader_init, send_init, send_inits, new_session, sign_guards, sign_digest,
}

-- Where the call is: before the registration, with peers left to post to, in the ceremony, or returned.
pub data Stage : Type 0 where
  guarded : Stage
  posting : List PeerSpec → Stage
  running returned : Stage

pub record Lead : Type 0 where
  pub sessions : Sessions
  pub sent : List Frame
  pub stage : Stage

abbrev pub start : Sessions → Lead
start r = record { sessions = r; sent = []; stage = guarded }

-- What another ceremony, led or joined, does to the sessions, and under which id.
pub data Foreign : String → Sessions → Sessions → Type 0 where
  registered : (s : Session) (r : Sessions) → Foreign s.id r (put s r)
  dropped : (id : String) (r : Sessions) → Foreign id r (drop id r)

Foreign-get :
    (sid id : String) (r r' : Sessions) → Foreign id r r' → id ≢ sid → get sid r' ≡ get sid r
unfolding get put drop
Foreign-get sid id r r' (registered s _) n =
    ground (arith, n, eq_iff s.id sid, lookup-insert s.id sid s r)
Foreign-get sid id r r' (dropped _ _) n = ground (arith, n, eq_iff id sid, lookup-erase id sid r)

module _ (env : SignEnv) (me : Local) (sid : String) (digest : List ℕ) (signers : List PeerSpec)
    (sh : Share) (curve protocol : String) (my_id : PartyId) where
  abbrev pub sorted : List PartyId
  sorted = sorted_party_ids env.lib signers

  abbrev pub init : PartyId → TxsignInit
  init p = leader_init sid sorted p sh.threshold digest curve protocol

  abbrev pub session : Session
  session = new_session env me sid signers my_id

  pub data Step (s : Lead) : Lead → Type 0 where
    registers :
        s.stage ≡ guarded
        → Step s (record s { sessions = put session s.sessions; stage = posting signers })
    skips :
        (p : PeerSpec) (ps : List PeerSpec)
        → s.stage ≡ posting (p ∷ ps)
        → p.spot_id ≡ me.spot_id
        → Step s (record s { stage = posting ps })
    posts :
        (p : PeerSpec) (ps : List PeerSpec) (f : Frame)
        → s.stage ≡ posting (p ∷ ps)
        → p.spot_id ≢ me.spot_id
        → send_init env me init sorted sid p ≡ ok f
        → Step s (record s { sent = s.sent ++ (f ∷ []); stage = posting ps })
    stops :
        (p : PeerSpec) (ps : List PeerSpec) (e : Error)
        → s.stage ≡ posting (p ∷ ps)
        → p.spot_id ≢ me.spot_id
        → send_init env me init sorted sid p ≡ err e
        → Step s (record s { sessions = drop sid s.sessions; stage = returned })
    runs : s.stage ≡ posting [] → Step s (record s { stage = running })
    ends :
        s.stage ≡ running → Step s (record s { sessions = drop sid s.sessions; stage = returned })

  -- The steps of the call, among those of other ceremonies on the ids of a list, the last one first.
  pub data Reach (s : Lead) : List String → Lead → Type 0 where
    here : Reach s [] s
    next : {ids : List String} {t u : Lead} → Reach s ids t → Step t u → Reach s ids u
    others :
        {ids : List String} {t : Lead} {id : String} {r : Sessions}
        → Reach s ids t
        → Foreign id t.sessions r
        → Reach s (id ∷ ids) (record t { sessions = r })

  -- What holds at a stage.
  abbrev HoldsAt : Stage → Lead → Type 0
  HoldsAt guarded s = s.sent ≡ []
  HoldsAt (posting ps) s = get sid s.sessions ≡ some session
  HoldsAt running s = get sid s.sessions ≡ some session
  HoldsAt returned s = Unit {0}

  get-put : (r : Sessions) → get sid (put session r) ≡ some session
  unfolding get put
  get-put r = rw (lookup-insert sid sid session r) (rw (eq_refl sid))

  others-HoldsAt :
      (stage : Stage) (s : Lead) (r : Sessions)
      → get sid r ≡ get sid s.sessions
      → HoldsAt stage s
      → HoldsAt stage (record s { sessions = r })
  others-HoldsAt guarded s r e h = h
  others-HoldsAt (posting ps) s r e h = e ∙ h
  others-HoldsAt running s r e h = e ∙ h
  others-HoldsAt returned s r e h = tt

  Step-HoldsAt : (s t : Lead) → Step s t → HoldsAt s.stage s → HoldsAt t.stage t
  Step-HoldsAt s t (registers q) h = get-put s.sessions
  Step-HoldsAt s t (skips p ps q e) h = subst (λ x. HoldsAt x s) q h
  Step-HoldsAt s t (posts p ps f q n e) h = subst (λ x. HoldsAt x s) q h
  Step-HoldsAt s t (stops p ps e q n f) h = tt
  Step-HoldsAt s t (runs q) h = subst (λ x. HoldsAt x s) q h
  Step-HoldsAt s t (ends q) h = tt

  Reach-HoldsAt :
      (r : Sessions) (ids : List String) (t : Lead)
      → Reach (start r) ids t
      → All (λ id. id ≢ sid) ids
      → HoldsAt t.stage t
  Reach-HoldsAt r ids t here o = refl
  Reach-HoldsAt r ids t (next w step) o = Step-HoldsAt _ t step (Reach-HoldsAt r ids _ w o)
  Reach-HoldsAt r ids t (others {t = u} {id = id} {r = r'} w f) (n, o) =
      others-HoldsAt u.stage u r' (Foreign-get sid id u.sessions r' f n) (Reach-HoldsAt r _ u w o)

  at_stage :
      (stage : Stage) (t : Lead)
      → HoldsAt stage t
      → t.sent ≢ []
      → stage ≢ returned
      → get sid t.sessions ≡ some session
  at_stage guarded t h n m = absurd (n h)
  at_stage (posting ps) t h n m = h
  at_stage running t h n m = h
  at_stage returned t h n m = absurd (m refl)

  -- Where the loop over the signers leaves the call.
  abbrev after_posts : Option Error → Sessions → List Frame → Lead
  after_posts none r fs = record { sessions = r; sent = fs; stage = posting [] }
  after_posts (some e) r fs = record { sessions = drop sid r; sent = fs; stage = returned }

  posts_run :
      (from : Lead) (r : Sessions) (fs : List Frame) (ps : List PeerSpec)
      → Reach from [] (record { sessions = r; sent = fs; stage = posting ps })
      → Reach from [] (
          after_posts
            (send_inits env me init sorted sid ps).1
            r
            (fs ++ (send_inits env me init sorted sid ps).0))
  unfolding send_inits
  posts_run from r fs [] w =
      subst (λ x. Reach from [] (record { sessions = r; sent = x; stage = posting [] }))
        (sym (append-nil fs)) w
  posts_run from r fs (p ∷ ps) w = elim (Bool-cases (str_eq p.spot_id me.spot_id)) [
    | inl q ↦
        rw (send_inits, q)
          (posts_run from r fs ps (next w (skips p ps refl ((eq_iff p.spot_id me.spot_id).0 q))))
    | inr q ↦
        let apart : p.spot_id ≢ me.spot_id = λ x. ground (arith, q, eq_iff p.spot_id me.spot_id) in
        elim (Result-cases (send_init env me init sorted sid p)) [
          | inr (x, e) ↦
              rw (send_inits, q, e)
                (subst
                  (λ y.
                    Reach from [] (record { sessions = drop sid r; sent = y; stage = returned }))
                  (sym (append-nil fs)) (next w (stops p ps x refl apart e)))
          | inl (f, e) ↦
              rw (send_inits, q, e)
                (subst
                  (λ x. Reach from [] (after_posts (send_inits env me init sorted sid ps).1 r x))
                  (append_assoc fs (f ∷ []) (send_inits env me init sorted sid ps).0)
                  (posts_run from r (fs ++ (f ∷ [])) ps (next w (posts p ps f refl apart e))))
        ]
  ]

  -- A call that passes the guards is a run of the steps, to what it leaves and sends.
  sign_digest-Reach :
      (r : Sessions)
      → sign_guards env me sid digest signers ≡ ok (sh, curve, protocol, my_id)
      → Reach (start r) [] (record {
        sessions = (sign_digest env me sid digest signers r).0;
        sent = (sign_digest env me sid digest signers r).1;
        stage = returned;
      })
  unfolding sign_digest
  sign_digest-Reach r g =
      let posted = posts_run (start r) (put session r) [] signers (next here (registers refl)) in
      elim (Option-cases (send_inits env me init sorted sid signers).1) [
        | inr (x, q) ↦ rw (g, q, sign_digest) (rw q at posted)
        | inl q ↦ rw (g, q, sign_digest) (next (next (rw q at posted) (runs refl)) (ends refl))
      ]

  -- Where the guards of `SignDigest` pass, its steps lead to the sessions that it leaves and the
  -- frames that it sends; and whatever sessions other ceremonies register and drop between these
  -- steps, as long as none of them has its session id, an init was sent and the call has not
  -- returned, the session is registered under its id.
  pub Reach-registered :
      (r : Sessions) (ids : List String) (t : Lead)
      → sign_guards env me sid digest signers ≡ ok (sh, curve, protocol, my_id)
      → Reach (start r) ids t
      → All (λ id. id ≢ sid) ids
      → t.sent ≢ []
      → t.stage ≢ returned
      → (get sid t.sessions ≡ some session)
        × Reach (start r) [] (record {
          sessions = (sign_digest env me sid digest signers r).0;
          sent = (sign_digest env me sid digest signers r).1;
          stage = returned;
        })
  Reach-registered r ids t g w o n m =
      (at_stage t.stage t (Reach-HoldsAt r ids t w o) n m, sign_digest-Reach r g)
