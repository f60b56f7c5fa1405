-- ===== src/Agent/Party/Slots.antt =====
-- An agent that is in the peer set finds its own party.
use clawdwallet.Base.{
  ◌≡◌, refl, subst, sym, true, inl, inr, Bool-cases, All, ◌∙◌, String, Bool, false, Option, none,
  some, List, [], ◌∷◌, map, arith, eq_iff, str_eq, ◌||◌,
}
use clawdwallet.Agent.Party.{
  PeerSpec, PartyId, Libraries, contains_spot_id, find_my_party_id, sorted_party_ids,
  party_id_from_peer,
}
use mathlib.Core.List.{Perm, Permᴰ}
use mathlib.Core.Logic.{∥∥₁_elim}
use mathlib.Core.Bool.{Bool-set}

-- Whether a party of that id is in the list.
has_id : String → List PartyId → Bool
has_id s [] = false
has_id s (p ∷ ps) = str_eq p.id s || has_id s ps

has_id-permᴰ : (s : String) {ps qs : List PartyId} → Permᴰ ps qs → has_id s ps ≡ has_id s qs
unfolding has_id
has_id-permᴰ s Permᴰ.nil = refl
has_id-permᴰ s (Permᴰ.cons e d) = rw (e, has_id-permᴰ s d)
has_id-permᴰ s (Permᴰ.swap {l = l} e f) = ground (arith, e, f)
has_id-permᴰ s (Permᴰ.trans d f) = has_id-permᴰ s d ∙ has_id-permᴰ s f

has_id-perm : (s : String) {ps qs : List PartyId} → Perm ps qs → has_id s ps ≡ has_id s qs
has_id-perm s h = ∥∥₁_elim h (Bool-set _ _) (has_id-permᴰ s)

-- Whether a search gave a party of that id.
abbrev pub is_own : String → Option PartyId → Bool
is_own s none = false
is_own s (some p) = str_eq p.id s

found : (s : String) (ps : List PartyId) → is_own s (find_my_party_id ps s) ≡ has_id s ps
unfolding find_my_party_id has_id
found s [] = refl
found s (p ∷ ps) = ground (arith, found s ps, eq_iff p.id s)

module _ (lib : Libraries) where
  has_id-map :
      (s : String) (peers : List PeerSpec)
      → has_id s (map (party_id_from_peer lib) peers) ≡ contains_spot_id peers s
  unfolding has_id contains_spot_id party_id_from_peer
  has_id-map s [] = refl
  has_id-map s (p ∷ ps) = ground (arith, has_id-map s ps)

  -- The search in the sorted list gives a party of the id that is asked for exactly when a peer
  -- of the set has that Spot id.
  find-sorted :
      (s : String) (peers : List PeerSpec)
      → is_own s (find_my_party_id (sorted_party_ids lib peers) s) ≡ contains_spot_id peers s
  unfolding sorted_party_ids
  find-sorted s peers =
      found s _
      ∙ has_id-perm s (lib.sort-perm (map (party_id_from_peer lib) peers))
      ∙ has_id-map s peers

-- Of a peer that a search in the sorted list finds, what holds of all the signers holds.
All-contains :
    (P : String → Type 0) (s : String) (ps : List PeerSpec)
    → contains_spot_id ps s ≡ true
    → All (λ p. P p.spot_id) ps
    → P s
unfolding contains_spot_id
All-contains P s [] h a = absurd cc
All-contains P s (p ∷ ps) h (a, r) = elim (Bool-cases (str_eq p.spot_id s)) [
  | inl q ↦ subst P ((eq_iff p.spot_id s).0 q) a
  | inr q ↦ All-contains P s ps (ground (arith, q, h)) r
]

pub All-found :
    (P : String → Type 0) (lib : Libraries) (signers : List PeerSpec) (p : PartyId)
    → find_my_party_id (sorted_party_ids lib signers) p.id ≡ some p
    → All (λ q. P q.spot_id) signers
    → P p.id
All-found P lib signers p h a =
    let e : is_own p.id (find_my_party_id (sorted_party_ids lib signers) p.id) ≡ true =
      rw h ((eq_iff p.id p.id).1 refl) in
    All-contains P p.id signers (sym (find-sorted lib p.id signers) ∙ e) a
