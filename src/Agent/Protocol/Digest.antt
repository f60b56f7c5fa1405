-- ===== src/Agent/Protocol/Digest.antt =====
-- Digests that a leader sends are read back by a joiner.
use clawdwallet.Base.{
  ℕ, zero, suc, ◌+◌, ◌*◌, ◌%◌, ◌<◌, ◌≡◌, refl, ◌≢◌, inl, inr, List, [], ◌∷◌, ok, arith, All, length,
  some, none, ◌⊎◌,
}
use clawdwallet.Encoding.Hex.{IsByte, encode, decode, digit_char, decode-encode, decode_odd}
use clawdwallet.Encoding.Base64.{url, encode_raw, decode_raw_url}
use clawdwallet.Encoding.Base64.RoundTrip.{decode_raw_url-encode_raw}
use clawdwallet.Agent.Protocol.{decode_digest_bytes, trim_0x}

digit_char_not_x : (d : ℕ) → d < 16 → digit_char d ≢ b'x'
unfolding digit_char
digit_char_not_x d h = ground arith

trim_0x-encode : (bs : List ℕ) → All IsByte bs → trim_0x (encode bs) ≡ encode bs
unfolding trim_0x encode
trim_0x-encode [] h = refl
trim_0x-encode (b ∷ bs) (hb, _) = ground (arith, digit_char_not_x (b % 16) (omega arith))

pub decode_digest_bytes-encode :
    (b : ℕ) (bs : List ℕ)
    → All IsByte (b ∷ bs)
    → decode_digest_bytes (encode (b ∷ bs)) ≡ ok (b ∷ bs)
unfolding decode_digest_bytes encode
decode_digest_bytes-encode b bs h =
    ground (arith, trim_0x-encode (b ∷ bs) h, decode-encode (b ∷ bs) h)

-- A digest of at least one byte comes back from its hexadecimal text after `0x`.
decode_digest_bytes-0x :
    (b : ℕ) (bs : List ℕ)
    → All IsByte (b ∷ bs)
    → decode_digest_bytes (b'0' ∷ b'x' ∷ encode (b ∷ bs)) ≡ ok (b ∷ bs)
unfolding decode_digest_bytes trim_0x
decode_digest_bytes-0x b bs h = rw (decode-encode (b ∷ bs) h)

length-encode_raw :
    (bs : List ℕ) (n : ℕ) → length bs ≡ 3 * n + 2 → length (encode_raw url bs) ≡ 4 * n + 3
unfolding encode_raw
length-encode_raw [] n h = absurd (omega arith)
length-encode_raw (x ∷ []) n h = absurd (omega arith)
length-encode_raw (x ∷ y ∷ []) n h = omega arith
length-encode_raw (x ∷ y ∷ z ∷ r) zero h = absurd (omega arith)
length-encode_raw (x ∷ y ∷ z ∷ r) (suc n) h = omega (arith, length-encode_raw r n (omega arith))

length-trim_0x :
    (t : List ℕ) → (length (trim_0x t) ≡ length t) ⊎ (length t ≡ length (trim_0x t) + 2)
unfolding trim_0x
length-trim_0x [] = inl refl
length-trim_0x (x ∷ []) = inl refl
length-trim_0x (x ∷ y ∷ r) = ground arith

trim_0x_odd : (t : List ℕ) (n : ℕ) → length t ≡ 2 * n + 3 → decode (trim_0x t) ≡ none
trim_0x_odd t n h = elim (length-trim_0x t) [
  | inl e ↦ decode_odd (trim_0x t) (n + 1) (omega arith)
  | inr e ↦ decode_odd (trim_0x t) n (omega arith)
]

by_raw_url :
    (t : List ℕ) (b : ℕ) (bs : List ℕ) (n : ℕ)
    → length t ≡ 2 * n + 3
    → decode_raw_url t ≡ some (b ∷ bs)
    → decode_digest_bytes t ≡ ok (b ∷ bs)
unfolding decode_digest_bytes
by_raw_url [] b bs n h e = absurd (omega arith)
by_raw_url (c ∷ r) b bs n h e = rw (trim_0x_odd (c ∷ r) n h, e)

-- A digest whose length is two more than a multiple of three, such as 32 bytes, comes back from
-- its base64url text.
decode_digest_bytes-encode_raw :
    (b : ℕ) (bs : List ℕ) (n : ℕ)
    → length (b ∷ bs) ≡ 3 * n + 2
    → All IsByte (b ∷ bs)
    → decode_digest_bytes (encode_raw url (b ∷ bs)) ≡ ok (b ∷ bs)
decode_digest_bytes-encode_raw b bs n l h =
    by_raw_url (encode_raw url (b ∷ bs)) b bs (2 * n)
      (omega (arith, length-encode_raw (b ∷ bs) n l)) (decode_raw_url-encode_raw (b ∷ bs) h)
