-- ===== src/Agent/Party/Keys.antt =====
-- The key bytes and the key number of a peer agree.
use clawdwallet.Encoding.BigInt
use clawdwallet.Encoding.Hex.{IsByte}
use clawdwallet.Encoding.Text.{codes, text}
use clawdwallet.Encoding.Base64.{std, encode_padded, decode_raw_url}
use clawdwallet.Encoding.Base64.Padded.{decode_raw_url-encode_padded}
use clawdwallet.Base.{
  ap, ◌∙◌, ℕ, ◌+◌, ◌*◌, none, List, All, length, Bool-cases, str_eq, ◌≡◌, inl, inr, Option-cases,
}
use clawdwallet.Encoding.BigInt.{set_bytes, set_bytes-bytes}
use clawdwallet.Agent.Party.{PeerSpec, Libraries, raw_key, party_key, key_int, key_bytes}

-- The number under which a peer is slotted is the one that its key bytes stand for, also where the
-- key is missing or does not decode.
set_bytes-key_bytes : (lib : Libraries) (p : PeerSpec) → set_bytes (key_bytes lib p) ≡ key_int lib p
unfolding key_bytes key_int
set_bytes-key_bytes lib p = elim (Option-cases (raw_key p)) [
  | inl e ↦ rw (e, key_bytes, key_int) (set_bytes-bytes (party_key lib p.spot_id))
  | inr (b, e) ↦ rw (e, key_bytes, key_int)
]

-- A peer whose key text is the padded standard base64 of bytes that are two more than a multiple
-- of three, such as a key of 32 bytes, is slotted under the hash of its Spot id, and its key
-- bytes are those of the hash.
pub key_int-padded :
    (lib : Libraries) (p : PeerSpec) (bs : List ℕ) (n : ℕ)
    → All IsByte bs
    → length bs ≡ 3 * n + 2
    → p.key ≡ text (encode_padded std bs)
    → (key_int lib p ≡ party_key lib p.spot_id)
      × (key_bytes lib p ≡ BigInt.bytes (party_key lib p.spot_id))
unfolding key_int key_bytes
key_int-padded lib p bs n h l e =
    let none_read : raw_key p ≡ none = elim (Bool-cases (str_eq p.key "")) [
      | inl q ↦ rw q
      | inr q ↦
          let unread : decode_raw_url (codes p.key) ≡ none =
            ap (λ k. decode_raw_url (codes k)) e ∙ decode_raw_url-encode_padded bs n h l in
          rw (q, unread)
    ] in
    (rw (none_read, key_int), rw (none_read, key_bytes))
