-- ===== src/Agent/Party.antt =====
-- agent/party.go and the party helpers of agent/keygen.go: how a peer is slotted into a ceremony.
pub mod Keys
pub mod Slots
pub mod Order
use clawdwallet.Base.{
  ℕ, ◌≤◌, String, Bool, true, false, Option, none, some, List, [], ◌∷◌, map, if◌then◌else◌, str_eq,
  All,
}
use clawdwallet.Encoding.BigInt
use clawdwallet.Encoding.Base64.{decode_raw_url}
use clawdwallet.Encoding.Text.{codes}
use mathlib.Core.List.{Perm}

pub record PeerSpec : Type 0 where
  pub spot_id : String
  pub moniker : String
  pub key : String

-- What the program reads of `tss.PartyID`.
pub record PartyId : Type 0 where
  pub id : String
  pub moniker : String
  pub key_int : ℕ

-- Ascending keys.
abbrev pub IsSorted : List PartyId → Type 0
IsSorted [] = Unit {0}
IsSorted (p ∷ ps) = All (λ q. p.key_int ≤ q.key_int) ps × IsSorted ps

-- The hash of the standard library, and tss-lib's `SortPartyIDs`, which orders the same parties by
-- their keys.
pub record Libraries : Type 0 where
  pub sha256 : List ℕ → List ℕ
  pub sort_party_ids : List PartyId → List PartyId
  pub sort-perm : (ps : List PartyId) → Perm (sort_party_ids ps) ps
  pub sort-IsSorted : (ps : List PartyId) → IsSorted (sort_party_ids ps)

-- The raw key behind a peer's `Key`, if it decodes to any bytes.
abbrev pub raw_key : PeerSpec → Option (List ℕ)
raw_key p = if str_eq p.key "" then none else elim (decode_raw_url (codes p.key)) [
  | none ↦ none
  | some [] ↦ none
  | some (b ∷ bs) ↦ some (b ∷ bs)
]

-- The library's operations stand in a section of their own.
module _ (lib : Libraries) where
  open lib use {sha256, sort_party_ids}

  unfoldable pub party_key : String → ℕ
  party_key spot_id = BigInt.set_bytes (sha256 (codes spot_id))

  unfoldable pub key_int : PeerSpec → ℕ
  key_int p = elim (raw_key p) [ none ↦ party_key p.spot_id | some b ↦ BigInt.set_bytes b ]

  unfoldable pub key_bytes : PeerSpec → List ℕ
  key_bytes p = elim (raw_key p) [ none ↦ BigInt.bytes (party_key p.spot_id) | some b ↦ b ]

  unfoldable pub party_id_from_peer : PeerSpec → PartyId
  party_id_from_peer p = record { id = p.spot_id; moniker = p.moniker; key_int = key_int p }

  unfoldable pub sorted_party_ids : List PeerSpec → List PartyId
  sorted_party_ids peers = sort_party_ids (map party_id_from_peer peers)

  unfoldable pub shared_peer_keys : List PeerSpec → List ℕ
  shared_peer_keys peers = map (λ p. p.key_int) (sorted_party_ids peers)

  unfoldable pub shared_peer_spot_ids : List PeerSpec → List String
  shared_peer_spot_ids peers = map (λ p. p.id) (sorted_party_ids peers)

unfoldable pub contains_spot_id : List PeerSpec → String → Bool
contains_spot_id [] id = false
contains_spot_id (p ∷ ps) id = if str_eq p.spot_id id then true else contains_spot_id ps id

unfoldable pub find_my_party_id : List PartyId → String → Option PartyId
find_my_party_id [] my_spot = none
find_my_party_id (p ∷ ps) my_spot =
    if str_eq p.id my_spot then some p else find_my_party_id ps my_spot
