-- ===== src/Agent/Transfer/Signers.antt =====
-- The signers that agent/transfer.go takes from a share.
use clawdwallet.Base.{
  subst, ℕ, suc, ◌/◌, ◌%◌, ◌*◌, ◌+◌, ◌≤◌, ◌<◌, ◌≡◌, refl, ap, sym, ◌∙◌, inl, inr, String,
  Bool-cases, some, List, [], ◌∷◌, map, ok, arith, eq_iff, eq_refl, str_eq, if◌then◌else◌, leb,
  length, All,
}
use clawdwallet.Base.Machine.{pos}
use clawdwallet.Encoding.Text.{codes, text, codes-text}
use clawdwallet.Encoding.Base64.{
  encode_raw, url, sextet_char, decode_raw, skip_newlines, decode_raw_url,
}
use clawdwallet.Encoding.Base64.RoundTrip.{decode_raw_url-encode_raw}
use clawdwallet.Encoding.BigInt.{bytes, set_bytes, bytes-IsByte, set_bytes-bytes}
use clawdwallet.Store.Share.{Share}
use clawdwallet.Agent.Party.{Libraries, PeerSpec, PartyId, key_int, find_my_party_id}
use clawdwallet.Agent.Transfer.{key_at, share_key_for, add_peers, share_signers}

sextet_char-lt : (v : ℕ) → sextet_char url v < 128
unfolding sextet_char
sextet_char-lt v = ground arith

encode_raw-ascii : (bs : List ℕ) → All (λ c. c < 128) (encode_raw url bs)
unfolding encode_raw
encode_raw-ascii [] = tt
encode_raw-ascii (x ∷ []) = (sextet_char-lt (x / 4), (sextet_char-lt (x % 4 * 16), tt))
encode_raw-ascii (x ∷ y ∷ []) = (
  sextet_char-lt (x / 4),
  (sextet_char-lt (x % 4 * 16 + y / 16), (sextet_char-lt (y % 16 * 4), tt)),
)
encode_raw-ascii (x ∷ y ∷ z ∷ r) = (
  sextet_char-lt (x / 4),
  (
    sextet_char-lt (x % 4 * 16 + y / 16),
    (sextet_char-lt (y % 16 * 4 + z / 64), (sextet_char-lt (z % 64), encode_raw-ascii r)),
  ),
)

decoded_empty : decode_raw_url (codes "") ≡ some []
unfolding decode_raw_url decode_raw skip_newlines
decoded_empty = refl

-- The key of a peer is the number of the bytes that its text decodes to.
zero_of_empty : set_bytes [] ≡ 0
unfolding set_bytes
zero_of_empty = refl

key_int-decoded :
    (lib : Libraries) (p : PeerSpec) (bs : List ℕ)
    → decode_raw_url (codes p.key) ≡ some bs
    → 0 < set_bytes bs
    → key_int lib p ≡ set_bytes bs
unfolding key_int
key_int-decoded lib p [] h n = omega (arith, zero_of_empty)
key_int-decoded lib p (b ∷ bs) h n = elim (Bool-cases (str_eq p.key "")) [
  | inl q ↦
      let e : decode_raw_url (codes p.key) ≡ some [] =
        ap (λ k. decode_raw_url (codes k)) ((eq_iff p.key "").0 q) ∙ decoded_empty in
      cc
  | inr q ↦ rw (q, h, key_int)
]

-- A peer whose key is the text of a number that is not zero has the number as its key.
key_int_text :
    (lib : Libraries) (s m : String) (n : ℕ)
    → 0 < n
    → key_int lib (record { spot_id = s; moniker = m; key = text (encode_raw url (bytes n)) }) ≡ n
key_int_text lib s m n h =
    let p : PeerSpec = record { spot_id = s; moniker = m; key = text (encode_raw url (bytes n)) } in
    let e : decode_raw_url (codes (text (encode_raw url (bytes n)))) ≡ some (bytes n) =
      ap decode_raw_url (codes-text (encode_raw url (bytes n)) (encode_raw-ascii (bytes n)))
      ∙ decode_raw_url-encode_raw (bytes n) (bytes-IsByte n) in
    key_int-decoded lib p (bytes n) e (omega (arith, set_bytes-bytes n)) ∙ set_bytes-bytes n

-- The ids and keys of a share that keygen saved for these parties.
abbrev pub IsShareOf : List PartyId → Share → Type 0
IsShareOf ps sh =
    (sh.peer_spot_ids ≡ map (λ p. p.id) ps) × (sh.peer_keys ≡ map (λ p. some p.key_int) ps)

key_at-find :
    (ps : List PartyId) (s : String) (p : PartyId)
    → find_my_party_id ps s ≡ some p
    → key_at (map (λ q. q.id) ps) (map (λ q. some q.key_int) ps) s
      ≡ text (encode_raw url (bytes p.key_int))
unfolding key_at find_my_party_id
key_at-find [] s p h = cc
key_at-find (q ∷ ps) s p h = elim (Bool-cases (str_eq q.id s)) [
  | inl e ↦
      let z : q ≡ p = ground (arith, e, h) in
      rw e (ap (λ x. text (encode_raw url (bytes x.key_int))) z)
  | inr e ↦ rw e (key_at-find ps s p (ground (arith, e, h)))
]

-- A signer that is made from the share gets the key that keygen gave its party.
pub share_key_for-key_int :
    (lib : Libraries) (ps : List PartyId) (sh : Share) (s m : String) (p : PartyId)
    → IsShareOf ps sh
    → find_my_party_id ps s ≡ some p
    → 0 < p.key_int
    → key_int lib (record { spot_id = s; moniker = m; key = share_key_for (some sh) s }) ≡ p.key_int
unfolding share_key_for
share_key_for-key_int lib ps sh s m p (ids, keys) h positive =
    rw (ids, keys, key_at-find ps s p h, share_key_for) (key_int_text lib s m p.key_int positive)

unfoldable pub count : String → List PeerSpec → ℕ
count s [] = 0
count s (p ∷ ps) = let rest = count s ps in if str_eq p.spot_id s then suc rest else rest

add_peers-count :
    (sh : Share) (s : String) (want n : ℕ) (ids : List String)
    → count s (add_peers sh s want n ids) ≡ 0
unfolding add_peers count
add_peers-count sh s want n [] = refl
add_peers-count sh s want n (id ∷ ids) =
    ground (arith, add_peers-count sh s want n ids, add_peers-count sh s want (suc n) ids)

add_peers-length :
    (sh : Share) (s : String) (want n : ℕ) (ids : List String)
    → n < want
    → n + length (add_peers sh s want n ids) ≤ want
unfolding add_peers
add_peers-length sh s want n [] h = ground arith
add_peers-length sh s want n (id ∷ ids) h = elim (Bool-cases (leb want (suc n))) [
  | inl q ↦ rw (q, add_peers) ground (arith, add_peers-length sh s want n ids h)
  | inr q ↦
      rw (q, add_peers) ground
        (
          arith,
          add_peers-length sh s want n ids h,
          add_peers-length sh s want (suc n) ids (ground arith),
        )
]

-- Without a payload of the policy and for a threshold of at least one, the signers that the share
-- gives contain the agent once and are at most threshold + 1.
pub share_signers-count :
    (my_spot my_moniker : String) (sh : Share) (t : ℕ) (signers : List PeerSpec)
    → sh.threshold ≡ pos (suc t)
    → share_signers my_spot my_moniker sh ≡ ok signers
    → (count my_spot signers ≡ 1) × (length signers ≤ suc (suc t))
unfolding share_signers count
share_signers-count my_spot my_moniker sh t signers th h =
    elim (Bool-cases (leb (length sh.peer_spot_ids) 0)) [
      | inl q ↦ absurd (let z = rw (q, share_signers) at h in cc)
      | inr q ↦
          let self : PeerSpec = record {
            spot_id = my_spot;
            moniker = my_moniker;
            key = share_key_for (some sh) my_spot;
          } in
          let e : self ∷ add_peers sh my_spot (suc (suc t)) 1 sh.peer_spot_ids ≡ signers =
            (let z = rw (q, th, share_signers) at h in cc) in
          (
            sym (ap (count my_spot) e)
                ∙ ground (
                  arith,
                  eq_refl my_spot,
                  add_peers-count sh my_spot (suc (suc t)) 1 sh.peer_spot_ids,
                ),
            subst (λ l. length l ≤ suc (suc t)) e
                (ground (
                  arith,
                  add_peers-length sh my_spot (suc (suc t)) 1 sh.peer_spot_ids (omega arith),
                )),
          )
    ]
