-- ===== src/Examples/Parties.antt =====
-- Parties, digests and payloads.
use clawdwallet.Base.{subst, ◌∙◌, ◌≡◌, ◌≢◌, refl, sym, ap, [], ◌∷◌, arith}
use clawdwallet.Encoding.Base64.{decode_raw_url, decode_raw, skip_newlines, sextet_value}
use clawdwallet.Encoding.BigInt.{set_bytes}
use clawdwallet.Agent.Party.{PartyId, sorted_party_ids, key_int, party_id_from_peer}
use clawdwallet.Agent.Party.Order.{HasDistinctKeys, sorted_party_ids-perm}
use clawdwallet.Encoding.Text.{text}
use clawdwallet.Encoding.BigInt.{bytes}
use clawdwallet.Encoding.Base64.{encode_padded, std, sextet_char}
use clawdwallet.Agent.Party.{party_key, key_bytes}
use clawdwallet.Agent.Party.Keys.{key_int-padded}
use clawdwallet.Examples.World.{peer, libraries, alice, bob}
use mathlib.Core.List.{Mem, mem-cons, not-mem-nil}
use mathlib.Core.Logic.Or
use native.Mathlib.Nat.{ℕ_set}
use package.text.Mathlib.TextEquality.{IsScalar-prop}
use mathlib.Core.List.Perm

abbrev party_a : PartyId
party_a = record { id = "a"; moniker = "m"; key_int = 2 }

abbrev party_b : PartyId
party_b = record { id = "b"; moniker = "m"; key_int = 1 }

sorted_two : sorted_party_ids libraries (alice ∷ bob ∷ []) ≡ party_b ∷ party_a ∷ []
unfolding sorted_party_ids libraries party_id_from_peer key_int decode_raw_url decode_raw
    skip_newlines sextet_value set_bytes
sorted_two = refl

in_two :
    {C : Type 0} (p : PartyId)
    → IsProp C
    → Mem p (party_b ∷ party_a ∷ [])
    → (p ≡ party_b → C)
    → (p ≡ party_a → C)
    → C
in_two p c m f g =
    Or.elim c (mem-cons.0 m) f (λ n. Or.elim c (mem-cons.0 n) g (λ z. absurd (not-mem-nil z)))

apart : (p q : PartyId) → p.key_int ≡ q.key_int → p ≡ party_b → q ≢ party_a
apart p q e x y =
    omega (arith, e, ap (λ (r : PartyId). r.key_int) x, ap (λ (r : PartyId). r.key_int) y)

PartyId-set : IsSet PartyId
PartyId-set = hlevel (ℕ_set, IsScalar-prop)

distinct_two : HasDistinctKeys (party_b ∷ party_a ∷ [])
distinct_two p q m n e =
    let same : IsProp (p ≡ q) = PartyId-set p q in
    in_two p same m (λ x. in_two q same n (λ y. x ∙ sym y) (λ y. absurd (apart p q e x y)))
      (λ x. in_two q same n (λ y. absurd (apart q p (sym e) y x)) (λ y. x ∙ sym y))

sorted_party_ids-perm_example :
    sorted_party_ids libraries (alice ∷ bob ∷ []) ≡ sorted_party_ids libraries (bob ∷ alice ∷ [])
sorted_party_ids-perm_example =
    sorted_party_ids-perm libraries (alice ∷ bob ∷ []) (bob ∷ alice ∷ []) (Perm.swap bob alice [])
      distinct
  where
    distinct : HasDistinctKeys (sorted_party_ids libraries (alice ∷ bob ∷ []))
    distinct = subst HasDistinctKeys (sym sorted_two) distinct_two

padded_text : text (encode_padded std (1 ∷ 2 ∷ [])) ≡ "AQI="
unfolding text encode_padded sextet_char
padded_text = refl

key_int-padded_example :
    (key_int libraries (peer "a" "AQI=") ≡ party_key libraries "a")
    × (key_bytes libraries (peer "a" "AQI=") ≡ bytes (party_key libraries "a"))
key_int-padded_example =
    key_int-padded libraries (peer "a" "AQI=") (1 ∷ 2 ∷ []) 0 (omega arith, (omega arith, tt)) refl
      (sym padded_text)
