-- ===== src/Examples/Sorting.antt =====
-- An insertion sort, for the sorting of party ids by tss-lib.
use clawdwallet.Base.{ℕ, ◌≤◌, Bool-cases, inl, inr, List, [], ◌∷◌, arith, if◌then◌else◌, leb, All}
use clawdwallet.Agent.Party.{PartyId, IsSorted}
use mathlib.Core.List.{Perm}
use mathlib.Core.List.Perm

unfoldable insert_party : PartyId → List PartyId → List PartyId
insert_party p [] = p ∷ []
insert_party p (q ∷ qs) =
    let rest = insert_party p qs in if leb p.key_int q.key_int then p ∷ q ∷ qs else q ∷ rest

unfoldable pub sort_parties : List PartyId → List PartyId
unfolding insert_party
sort_parties [] = []
sort_parties (p ∷ ps) = insert_party p (sort_parties ps)

insert_party-perm : (p : PartyId) (qs : List PartyId) → Perm (insert_party p qs) (p ∷ qs)
unfolding insert_party
insert_party-perm p [] = Perm.refl (p ∷ [])
insert_party-perm p (q ∷ qs) = elim (Bool-cases (leb p.key_int q.key_int)) [
  | inl h ↦ rw (h, insert_party) (Perm.refl (p ∷ q ∷ qs))
  | inr h ↦
      rw (h, insert_party) (Perm.trans (Perm.cons q (insert_party-perm p qs)) (Perm.swap p q qs))
]

pub sort_parties-perm : (ps : List PartyId) → Perm (sort_parties ps) ps
unfolding sort_parties
sort_parties-perm [] = Perm.nil
sort_parties-perm (p ∷ ps) =
    Perm.trans (insert_party-perm p (sort_parties ps)) (Perm.cons p (sort_parties-perm ps))

All-insert_party :
    (b : ℕ) (p : PartyId) (qs : List PartyId)
    → b ≤ p.key_int
    → All (λ q. b ≤ q.key_int) qs
    → All (λ q. b ≤ q.key_int) (insert_party p qs)
unfolding insert_party
All-insert_party b p [] h hs = (h, tt)
All-insert_party b p (q ∷ qs) h (k, ks) = elim (Bool-cases (leb p.key_int q.key_int)) [
  | inl e ↦ rw (e, insert_party) (h, (k, ks))
  | inr e ↦ rw (e, insert_party) (k, All-insert_party b p qs h ks)
]

All-weaken :
    (b c : ℕ) (qs : List PartyId)
    → b ≤ c
    → All (λ q. c ≤ q.key_int) qs
    → All (λ q. b ≤ q.key_int) qs
All-weaken b c [] l h = tt
All-weaken b c (q ∷ qs) l (h, hs) = (omega arith, All-weaken b c qs l hs)

insert_party-IsSorted :
    (p : PartyId) (qs : List PartyId) → IsSorted qs → IsSorted (insert_party p qs)
unfolding insert_party
insert_party-IsSorted p [] h = (tt, tt)
insert_party-IsSorted p (q ∷ qs) (h, hs) = elim (Bool-cases (leb p.key_int q.key_int)) [
  | inl e ↦
      let le : p.key_int ≤ q.key_int = ground (arith, e) in
      rw (e, insert_party) ((le, All-weaken p.key_int q.key_int qs le h), (h, hs))
  | inr e ↦
      rw (e, insert_party)
        (All-insert_party q.key_int p qs (ground (arith, e)) h, insert_party-IsSorted p qs hs)
]

pub sort_parties-IsSorted : (ps : List PartyId) → IsSorted (sort_parties ps)
unfolding sort_parties
sort_parties-IsSorted [] = tt
sort_parties-IsSorted (p ∷ ps) =
    insert_party-IsSorted p (sort_parties ps) (sort_parties-IsSorted ps)
