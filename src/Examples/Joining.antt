-- ===== src/Examples/Joining.antt =====
-- An init of a ceremony of two arrives at `b`.
use clawdwallet.Base.{
  ℕ, ◌≡◌, refl, ap, sym, ◌∙◌, some, none, true, List, [], ◌∷◌, Result, ok, err, context, ◌>>=◌,
  message, arith, eq_iff, All,
}
use clawdwallet.Base.Machine.{pos}
use clawdwallet.Encoding.BigInt.{set_bytes}
use clawdwallet.Encoding.Base64.{decode_raw_url, decode_raw, skip_newlines, sextet_value}
use clawdwallet.Agent.Party.{
  PeerSpec, PartyId, sorted_party_ids, contains_spot_id, find_my_party_id, party_id_from_peer,
  key_int,
}
use clawdwallet.Agent.Signing.Race.{
  Lead, posting, returned, start, session, Reach, here, next, registers, skips, posts, others,
  registered, Reach-registered,
}
use clawdwallet.Agent.Session.{Session, get, put, RawPayload}
use clawdwallet.Agent.Ceremony.{
  Frame, walletsign_frame, protocol_for_schema, SignEnv, TxsignInit, Local,
}
use clawdwallet.Agent.Handlers.{WalletSignEnv}
use clawdwallet.Agent.Signing.{
  leader_init, sign_digest, sign_guards, signer_guards, send_inits, send_init,
}
use clawdwallet.Agent.Signing.Asked.{raw_init, ReadsInits}
use clawdwallet.Agent.Signing.Joins.{Joined, sign_digest-Joined}
use clawdwallet.Store.Share.{Share}
use clawdwallet.Examples.World.{libraries, alice, bob, share, sign_env, local, String-discrete}
use native.Mathlib.Decide.{ℕ_discrete}

abbrev signers : List PeerSpec
signers = alice ∷ bob ∷ []

abbrev party_a : PartyId
party_a = record { id = "a"; moniker = "m"; key_int = 2 }

abbrev party_b : PartyId
party_b = record { id = "b"; moniker = "m"; key_int = 1 }

abbrev init_b : TxsignInit
init_b = leader_init "s" (party_b ∷ party_a ∷ []) party_b (pos 1) (171 ∷ []) "ed25519" "frost"

TxsignInit-discrete : Discrete TxsignInit
TxsignInit-discrete = hlevel (ℕ_discrete, String-discrete)

-- The init for `b` is written as one byte, and no other init can be written.
abbrev written : {i : TxsignInit} → Dec (i ≡ init_b) → Result (List ℕ)
written (yes e) = ok (1 ∷ [])
written (no n) = err (message "not the init")

unfoldable env : SignEnv
unfolding sign_env TxsignInit-discrete
env = record sign_env { marshal = λ i. written (TxsignInit-discrete i init_b) }

abbrev peer_of : PartyId → PeerSpec
peer_of p = record { spot_id = p.id; moniker = p.moniker; key = "" }

abbrev receiver : WalletSignEnv
receiver = record {
  decode_init = λ b. ok (raw_init peer_of init_b);
  decode_frame = λ b. none;
  brokers = [];
}

written_back :
    (i : TxsignInit) (b : List ℕ) (d : Dec (i ≡ init_b))
    → written d ≡ ok b
    → ◌≡◌ {A = Result RawPayload} (ok (raw_init peer_of init_b)) (ok (raw_init peer_of i))
written_back i b (yes e) h = ap (λ x. ok (raw_init peer_of x)) (sym e)
written_back i b (no n) h = cc

reads_inits : ReadsInits env peer_of receiver
unfolding env
reads_inits i b h = written_back i b (TxsignInit-discrete i init_b) h

abbrev joining : Local
joining = record { started = true; spot_id = "b"; share = some share }

sign_digest-Joined_example :
    All
      (λ f.
        (sh : Share) × (local.share ≡ some sh)
        × Joined env local peer_of receiver env joining share [] "s"
            (171 ∷ [])
            (sorted_party_ids libraries (alice ∷ bob ∷ []))
            sh
            f)
      (sign_digest env local "s" (171 ∷ []) (alice ∷ bob ∷ []) []).1
unfolding env sign_env
sign_digest-Joined_example =
    sign_digest-Joined env local peer_of receiver env joining share [] "s" (171 ∷ [])
      (alice ∷ bob ∷ []) [] reads_inits (λ p. (refl, refl)) refl (omega arith, tt) (omega arith)
      (omega arith, (omega arith, tt))

written_init : (d : Dec (init_b ≡ init_b)) → written d ≡ ok (1 ∷ [])
written_init (yes e) = refl
written_init (no n) = absurd (n refl)

writes_init : env.marshal init_b ≡ ok (1 ∷ [])
unfolding env
writes_init = written_init (TxsignInit-discrete init_b init_b)

guarded :
    sign_guards env local "s" (171 ∷ []) (alice ∷ bob ∷ [])
    ≡ ok (share, "ed25519", "frost", party_a)
unfolding sign_guards env sign_env signer_guards contains_spot_id protocol_for_schema
    find_my_party_id sorted_party_ids libraries party_id_from_peer key_int decode_raw_url decode_raw
    skip_newlines sextet_value set_bytes
guarded = refl

abbrev init : PartyId → TxsignInit
init p =
    leader_init "s" (sorted_party_ids env.lib (alice ∷ bob ∷ [])) p (pos 1) (171 ∷ []) "ed25519"
      "frost"

init_is : init party_b ≡ init_b
unfolding leader_init env sign_env sorted_party_ids libraries party_id_from_peer key_int
    decode_raw_url decode_raw skip_newlines sextet_value set_bytes
init_is = refl

found_b : find_my_party_id (sorted_party_ids env.lib (alice ∷ bob ∷ [])) "b" ≡ some party_b
unfolding env sign_env find_my_party_id sorted_party_ids libraries party_id_from_peer key_int
    decode_raw_url decode_raw skip_newlines sextet_value set_bytes
found_b = refl

sends : (f : Frame) → env.send f ≡ none
unfolding env sign_env
sends f = refl

sent_b :
    send_init env local init (sorted_party_ids env.lib (alice ∷ bob ∷ [])) "s" bob
    ≡ ok (walletsign_frame "a" "b" "s" "init" "" (1 ∷ []))
unfolding send_init
sent_b = rw (
  send_init,
  found_b,
  ap env.marshal init_is ∙ writes_init,
  ◌>>=◌,
  context,
  sends (walletsign_frame "a" "b" "s" "init" "" (1 ∷ [])),
)

sent :
    send_inits env local init (sorted_party_ids env.lib (alice ∷ bob ∷ [])) "s" (alice ∷ bob ∷ [])
    ≡ (walletsign_frame "a" "b" "s" "init" "" (1 ∷ []) ∷ [], none)
unfolding send_inits
sent = rw (send_inits, sent_b)

-- The run sends one frame.
one_sent :
    (sign_digest env local "s" (171 ∷ []) (alice ∷ bob ∷ []) []).1
    ≡ walletsign_frame "a" "b" "s" "init" "" (1 ∷ []) ∷ []
unfolding sign_digest
one_sent = rw (guarded, sign_digest, sent) (ap (λ x. x.0) sent)

-- The leader once the init is out.
abbrev posted : Lead
posted = record {
  sessions = put (session env local "s" (171 ∷ []) signers share "ed25519" "frost" party_a) [];
  sent = walletsign_frame "a" "b" "s" "init" "" (1 ∷ []) ∷ [];
  stage = posting [];
}

is_posted :
    Reach env local "s" (171 ∷ []) signers share "ed25519" "frost" party_a (start []) [] posted
is_posted = next (next (next here (registers refl)) (skips alice (bob ∷ []) refl refl)) (
    posts bob [] (walletsign_frame "a" "b" "s" "init" "" (1 ∷ [])) refl
      (λ h. ground (arith, h, eq_iff "b" "a")) sent_b)

-- Then a ceremony begins that another agent leads.
abbrev other : Session
other = record (session env local "s" (171 ∷ []) signers share "ed25519" "frost" party_a) {
  id = "t";
}

abbrev busy : Lead
busy = record posted { sessions = put other posted.sessions }

is_busy :
    Reach env local "s"
      (171 ∷ [])
      signers
      share
      "ed25519"
      "frost"
      party_a
      (start [])
      ("t" ∷ [])
      busy
is_busy = others is_posted (registered other posted.sessions)

Reach-registered_example :
    (get "s" busy.sessions
      ≡ some (session env local "s" (171 ∷ []) signers share "ed25519" "frost" party_a))
    × Reach env local "s" (171 ∷ []) signers share "ed25519" "frost" party_a (start []) [] (record {
      sessions = (sign_digest env local "s" (171 ∷ []) signers []).0;
      sent = (sign_digest env local "s" (171 ∷ []) signers []).1;
      stage = returned;
    })
Reach-registered_example =
    Reach-registered env local "s" (171 ∷ []) signers share "ed25519" "frost" party_a [] ("t" ∷ [])
      busy guarded is_busy ((λ h. ground (arith, h, eq_iff "t" "s")), tt) (λ h. cc) (λ h. cc)
