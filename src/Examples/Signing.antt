-- ===== src/Examples/Signing.antt =====
-- A ceremony of two, led by `a`.
use clawdwallet.Base.{
  subst, ℕ, ◌≡◌, ◌⊎◌, refl, none, List, [], ◌∷◌, replicate, Error, ok, err, length, arith,
  if◌then◌else◌, str_eq,
}
use clawdwallet.Base.Machine.{pos}
use clawdwallet.Store.Share.{Share, schema_frost, schema_dkls23}
use clawdwallet.Encoding.Hex.{encode, digit_char}
use clawdwallet.Encoding.BigInt.{set_bytes}
use clawdwallet.Encoding.Base64.{decode_raw_url, decode_raw, skip_newlines, sextet_value}
use clawdwallet.Agent.Protocol.{resolve_curve_protocol}
use clawdwallet.Agent.Party.{
  PeerSpec, PartyId, find_my_party_id, sorted_party_ids, contains_spot_id, key_int,
  party_id_from_peer,
}
use clawdwallet.Agent.Session.{get}
use clawdwallet.Agent.Ceremony.{
  Frame, TxsignInit, protocol_for_schema, walletsign_frame, run_sign_with_session, run_sign_frost,
  received,
}
use clawdwallet.Agent.Signing.{
  leader_init, send_inits, send_init, signer_guards, sign_guards, sign_digest,
}
use clawdwallet.Agent.Signing.Lead.{MayLead, sign_digest-MayLead, sign_digest-get}
use clawdwallet.Agent.Signing.Signature.{HasScalars, IsScalarPair, run_sign-length}
use clawdwallet.Examples.World.{libraries, alice, bob, share, sign_env, local}

abbrev signers : List PeerSpec
signers = alice ∷ bob ∷ []

abbrev party_a : PartyId
party_a = record { id = "a"; moniker = "m"; key_int = 2 }

abbrev party_b : PartyId
party_b = record { id = "b"; moniker = "m"; key_int = 1 }

abbrev sorted : List PartyId
sorted = party_b ∷ party_a ∷ []

abbrev init : PartyId → TxsignInit
init p = leader_init "s" sorted p (pos 1) (171 ∷ []) "ed25519" "frost"

abbrev sevens : List ℕ
sevens = replicate 64 7

abbrev to_bob : Frame
to_bob = walletsign_frame "a" "b" "s" "init" "" (97 ∷ 98 ∷ [])

sent_to_bob : (sign_digest sign_env local "s" (171 ∷ []) signers []).1 ≡ to_bob ∷ []
unfolding sign_digest sign_env sign_guards signer_guards contains_spot_id protocol_for_schema
    find_my_party_id sorted_party_ids libraries party_id_from_peer key_int decode_raw_url decode_raw
    skip_newlines sextet_value set_bytes send_inits send_init leader_init encode digit_char
sent_to_bob = refl

sign_digest-MayLead_example : (sh : Share) × MayLead sign_env local "s" (171 ∷ []) signers sh
sign_digest-MayLead_example =
    sign_digest-MayLead sign_env local "s" (171 ∷ []) signers [] to_bob [] sent_to_bob

sign_digest-get_example :
    ((x : Error) × (sign_guards sign_env local "s" (171 ∷ []) signers ≡ err x)
      × (sign_digest sign_env local "s" (171 ∷ []) signers [] ≡ ([], [], err x)))
    ⊎ (get "s" (sign_digest sign_env local "s" (171 ∷ []) signers []).0
        ≡ (if str_eq "s" "s" then none else get "s" []))
sign_digest-get_example = sign_digest-get sign_env local "s" (171 ∷ []) signers [] "s"

no_dkls : HasScalars sign_env
unfolding sign_env
no_dkls k digest params s h =
    let e : record { r = 1; s = 2; v = 0 } ≡ s = cc in
    subst IsScalarPair e (omega arith, omega arith)

signed : run_sign_with_session sign_env local sorted party_a share (171 ∷ []) ≡ ok sevens
unfolding run_sign_with_session protocol_for_schema resolve_curve_protocol run_sign_frost received
    sign_env
signed = refl

run_sign-length_example :
    (sevens ≡ [])
    ⊎ ((share.schema ≡ schema_frost) × (length sevens ≡ 64))
    ⊎ ((share.schema ≡ schema_dkls23) × (length sevens ≡ 65))
run_sign-length_example =
    run_sign-length sign_env local sorted party_a share (171 ∷ []) sevens no_dkls signed
