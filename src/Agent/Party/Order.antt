-- ===== src/Agent/Party/Order.antt =====
-- Every participant computes the same list of parties, whatever order the peers came in.
use clawdwallet.Base.{◌≤◌, ◌≡◌, refl, sym, subst, List, [], ◌∷◌, map, arith, All}
use clawdwallet.Agent.Party.{
  PeerSpec, PartyId, IsSorted, Libraries, sorted_party_ids, party_id_from_peer,
}
use mathlib.Core.List.{Mem, Perm, mem-cons, mem-cons_self, mem-cons_of_mem, not-mem-nil}
use mathlib.Core.List.Perm
use mathlib.Core.Logic.Or
use native.Mathlib.Bridge.{le_prop}

-- Two parties of the list with one key are one party.
abbrev pub HasDistinctKeys : List PartyId → Type 0
HasDistinctKeys ps = (p q : PartyId) → Mem p ps → Mem q ps → p.key_int ≡ q.key_int → p ≡ q

le_of_mem :
    (p q : PartyId) (ps : List PartyId)
    → All (λ r. p.key_int ≤ r.key_int) ps
    → Mem q ps
    → p.key_int ≤ q.key_int
le_of_mem p q [] h m = absurd (not-mem-nil m)
le_of_mem p q (r ∷ ps) h m = Or.elim le_prop (mem-cons.0 m) (λ e. rw e h.0) (le_of_mem p q ps h.1)

head_le :
    (p q : PartyId) (ps : List PartyId) → IsSorted (p ∷ ps) → Mem q (p ∷ ps) → p.key_int ≤ q.key_int
head_le p q ps s m = Or.elim le_prop (mem-cons.0 m) (λ e. rw e (omega arith)) (le_of_mem p q ps s.0)

IsSorted-unique :
    (ps qs : List PartyId) → IsSorted ps → IsSorted qs → Perm ps qs → HasDistinctKeys ps → ps ≡ qs
IsSorted-unique [] [] s t h d = refl
IsSorted-unique [] (q ∷ qs) s t h d = Perm.nil-eq h
IsSorted-unique (p ∷ ps) [] s t h d = Perm.eq-nil h
IsSorted-unique (p ∷ ps) (q ∷ qs) s t h d =
    let q_in : Mem q (p ∷ ps) = (Perm.mem_iff h).1 mem-cons_self in
    let p_in : Mem p (q ∷ qs) = (Perm.mem_iff h).0 mem-cons_self in
    let same : p ≡ q =
      d p q mem-cons_self q_in (omega (arith, head_le p q ps s q_in, head_le q p qs t p_in)) in
    let rest : Perm ps qs = Perm.cons_inv (subst (λ r. Perm (p ∷ ps) (r ∷ qs)) (sym same) h) in
    rw (
      same,
      IsSorted-unique ps qs s.1 t.1 rest
          (λ a b m n. d a b (mem-cons_of_mem p m) (mem-cons_of_mem p n)),
    )

-- Two peer lists that are rearrangements of one another give the same sorted parties, if no two
-- parties share a key.
pub sorted_party_ids-perm :
    (lib : Libraries) (peers others : List PeerSpec)
    → Perm peers others
    → HasDistinctKeys (sorted_party_ids lib peers)
    → sorted_party_ids lib peers ≡ sorted_party_ids lib others
unfolding sorted_party_ids
sorted_party_ids-perm lib peers others h d =
    let made = party_id_from_peer lib in
    IsSorted-unique _ _ (lib.sort-IsSorted _) (lib.sort-IsSorted _)
      (Perm.trans (lib.sort-perm (map made peers))
        (Perm.trans (Perm.map made h) (Perm.symm (lib.sort-perm (map made others)))))
      d
