-- ===== src/Solana/Tx/Attach.antt =====
-- Where `AttachSignature` puts a signature.
use clawdwallet.Base.{
  ℕ, suc, ◌+◌, ◌-◌, ◌<◌, ◌≡◌, refl, ◌∙◌, ◌≢◌, ◌↔◌, none, some, List, [], ◌∷◌, ◌++◌, ok, arith,
  length, replicate, get_elem?, get_elem?-set_self, get_elem?-set_ne, length-append,
  length-replicate, ap, true, Bool-cases, Option-cases, inl, inr, ltb,
}
use clawdwallet.Solana.Keys.{SolanaKey, bytes_eq, bytes_eq_iff}
use clawdwallet.Solana.Tx.{
  SolanaTx, signer_slot, grown, attach_signature, message_account_keys, num_required_signatures,
  place,
}

-- The slot that the loop stops at, counted from `i`, holds the signer's key and is one of the
-- first `n`.
signer_slot-some :
    (signer : SolanaKey) (n i j : ℕ) (keys : List SolanaKey)
    → signer_slot signer n i keys ≡ some j
    → (k : ℕ) × (j ≡ i + k) × (j < n) × (get_elem? keys k ≡ some signer)
unfolding signer_slot
signer_slot-some signer n i j [] h = cc
signer_slot-some signer n i j (x ∷ keys) h = elim (Bool-cases (ltb i n)) [
  | inr out ↦ absurd (ground (arith, out, h))
  | inl inside ↦ elim (Bool-cases (bytes_eq x signer)) [
    | inl same ↦ (0, ground arith, ground arith, ap some ((bytes_eq_iff x signer).0 same))
    | inr other ↦
        let (k, at, lt, here) = signer_slot-some signer n (i + 1) j keys (ground arith) in
        (suc k, omega arith, lt, here)
  ]
]

-- A signer among the first `n` keys is found.
signer_slot-ne-none :
    (signer : SolanaKey) (n i k : ℕ) (keys : List SolanaKey)
    → i + k < n
    → get_elem? keys k ≡ some signer
    → signer_slot signer n i keys ≢ none
unfolding signer_slot
signer_slot-ne-none signer n i k [] lt h = cc
signer_slot-ne-none signer n i ℕ.zero (x ∷ keys) lt h =
    let same : bytes_eq x signer ≡ true = (bytes_eq_iff x signer).1 (ground arith) in ground arith
signer_slot-ne-none signer n i (suc k) (x ∷ keys) lt h =
    ground (arith, signer_slot-ne-none signer n (i + 1) k keys (omega arith) h)

grown_room : (n i : ℕ) (sigs : List (List ℕ)) → i < n → i < length (grown n i sigs)
unfolding grown
grown_room n i sigs h = ground (
  arith,
  length-append sigs (replicate (n - length sigs) []),
  length-replicate {A = List ℕ} (n - length sigs) [],
)

get_elem?-append {ℓ} :
    {A : Type ℓ} (xs ys : List A) (j : ℕ) → j < length xs → get_elem? (xs ++ ys) j ≡ get_elem? xs j
get_elem?-append [] ys j h = absurd (omega arith)
get_elem?-append (x ∷ xs) ys ℕ.zero h = refl
get_elem?-append (x ∷ xs) ys (suc j) h = get_elem?-append xs ys j (omega arith)

get_elem?-grown :
    (n i j : ℕ) (sigs : List (List ℕ))
    → j < length sigs
    → get_elem? (grown n i sigs) j ≡ get_elem? sigs j
unfolding grown
get_elem?-grown n i j sigs h =
    ground (arith, get_elem?-append sigs (replicate (n - length sigs) []) j h)

abbrev pub IsSignerSlot : SolanaTx → SolanaKey → ℕ → Type 0
IsSignerSlot tx signer i =
    (i < num_required_signatures (some tx))
    × (get_elem? (message_account_keys (some tx)) i ≡ some signer)

attached :
    (tx : SolanaTx) (signer : SolanaKey) (sig : List ℕ) (j : ℕ)
    → length sig ≡ 64
    → signer_slot signer (num_required_signatures (some tx)) 0 (message_account_keys (some tx))
      ≡ some j
    → attach_signature tx signer sig ≡ ok (place tx (num_required_signatures (some tx)) j sig)
unfolding attach_signature
attached tx signer sig j l at = ground arith

-- On success the signature has 64 bytes and stands in the slot of a key that is the signer's, one
-- of those that must sign; every signature that was there in another slot and the message are as
-- they were.
pub attach_signature_lem :
    (tx tx' : SolanaTx) (signer : SolanaKey) (sig : List ℕ)
    → attach_signature tx signer sig ≡ ok tx'
    → (length sig ≡ 64)
      × ((i : ℕ) × IsSignerSlot tx signer i
          × (get_elem? tx'.signatures i ≡ some sig)
          × ((j : ℕ)
              → i ≢ j
              → j < length tx.signatures
              → get_elem? tx'.signatures j ≡ get_elem? tx.signatures j))
      × (tx'.legacy ≡ tx.legacy)
      × (tx'.v0 ≡ tx.v0)
unfolding attach_signature
attach_signature_lem tx tx' signer sig h =
    elim (Option-cases
      (signer_slot signer (num_required_signatures (some tx)) 0 (message_account_keys (some tx)))) [
        | inl missing ↦ absurd (ground (arith, missing, h))
        | inr (i, at) ↦
            let (k, same, lt, here) = signer_slot-some signer _ 0 i _ at in
            let placed : tx' ≡ place tx (num_required_signatures (some tx)) i sig = ground arith in
            let at_k : i ≡ k = omega arith in
            let n = num_required_signatures (some tx) in
            (
              ground arith,
              (
                i,
                (lt, rw at_k here),
                rw placed (
                    get_elem?-set_self (grown n i tx.signatures) i sig
                      (grown_room n i tx.signatures lt)),
                λ j other inside. rw placed (
                    get_elem?-set_ne (grown n i tx.signatures) sig other
                    ∙ get_elem?-grown n i j tx.signatures inside),
              ),
              rw placed,
              rw placed,
            )
      ]

-- A signature of 64 bytes is attached exactly when the signer is one of the keys that must sign.
attach_signature_iff :
    (tx : SolanaTx) (signer : SolanaKey) (sig : List ℕ)
    → length sig ≡ 64
    → ((tx' : SolanaTx) × (attach_signature tx signer sig ≡ ok tx'))
      ↔ ((i : ℕ) × IsSignerSlot tx signer i)
attach_signature_iff tx signer sig l = (
  λ (tx', h). let found = (attach_signature_lem tx tx' signer sig h).1 in (found.0, found.1),
  λ (i, (lt, here)).
      elim (Option-cases (
        signer_slot signer (num_required_signatures (some tx)) 0
          (message_account_keys (some tx)))) [
            | inl missing ↦ absurd (signer_slot-ne-none signer _ 0 i _ (omega arith) here missing)
            | inr (j, at) ↦
                (place tx (num_required_signatures (some tx)) j sig, attached tx signer sig j l at)
          ],
)
