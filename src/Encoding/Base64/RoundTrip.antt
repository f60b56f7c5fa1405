-- ===== src/Encoding/Base64/RoundTrip.antt =====
-- Decoding undoes encoding, for both alphabets.
use clawdwallet.Base.{
  ℕ, ◌+◌, ◌*◌, ◌/◌, ◌%◌, ◌<◌, ◌≡◌, refl, ◌≢◌, some, List, [], ◌∷◌, arith, All, ◌⊎◌, inl, inr,
}
use clawdwallet.Encoding.Hex.{IsByte}
use clawdwallet.Encoding.Base64.{
  Alphabet, url, std, pad, sextet_char, sextet_value, skip_newlines, decode_raw, encode_raw,
  decode_raw_url,
}

abbrev pub IsUsed : Alphabet → Type 0
IsUsed a = (a ≡ url) ⊎ (a ≡ std)

pub sextet_value-sextet_char :
    (a : Alphabet) (v : ℕ) → IsUsed a → v < 64 → sextet_value a (sextet_char a v) ≡ some v
unfolding sextet_value sextet_char
sextet_value-sextet_char a v (inl e) h = rw e (ground arith)
sextet_value-sextet_char a v (inr e) h = rw e (ground arith)

-- No character of an alphabet is a newline or the padding.
pub sextet_char_plain :
    (a : Alphabet) (v : ℕ)
    → IsUsed a
    → v < 64
    → (sextet_char a v ≢ 10) × (sextet_char a v ≢ 13) × (sextet_char a v ≢ pad)
unfolding sextet_char
sextet_char_plain a v (inl e) h = rw e (ground arith)
sextet_char_plain a v (inr e) h = rw e (ground arith)

module _ (a : Alphabet) (u : IsUsed a) where
  skip_newlines_char :
      (v : ℕ) (r : List ℕ)
      → v < 64
      → skip_newlines (sextet_char a v ∷ r) ≡ sextet_char a v ∷ skip_newlines r
  unfolding skip_newlines
  skip_newlines_char v r h = ground (arith, sextet_char_plain a v u h)

  skip_newlines-encode_raw :
      (bs : List ℕ) → All IsByte bs → skip_newlines (encode_raw a bs) ≡ encode_raw a bs
  unfolding encode_raw
  skip_newlines-encode_raw [] h = unfold skip_newlines in refl
  skip_newlines-encode_raw (x ∷ []) h =
      rw
        (
          skip_newlines_char (x / 4) _ (omega arith),
          skip_newlines_char (x % 4 * 16) _ (omega arith),
        )
        (unfold skip_newlines in refl)
  skip_newlines-encode_raw (x ∷ y ∷ []) h =
      rw
        (
          skip_newlines_char (x / 4) _ (omega arith),
          skip_newlines_char (x % 4 * 16 + y / 16) _ (omega arith),
          skip_newlines_char (y % 16 * 4) _ (omega arith),
        )
        (unfold skip_newlines in refl)
  skip_newlines-encode_raw (x ∷ y ∷ z ∷ r) (hx, (hy, (hz, hr))) = rw (
    skip_newlines_char (x / 4) _ (omega arith),
    skip_newlines_char (x % 4 * 16 + y / 16) _ (omega arith),
    skip_newlines_char (y % 16 * 4 + z / 64) _ (omega arith),
    skip_newlines_char (z % 64) _ (omega arith),
    skip_newlines-encode_raw r hr,
  )

  decode_raw-encode_raw : (bs : List ℕ) → All IsByte bs → decode_raw a (encode_raw a bs) ≡ some bs
  unfolding encode_raw decode_raw
  decode_raw-encode_raw [] h = refl
  decode_raw-encode_raw (x ∷ []) (hx, _) =
      rw
        (
          sextet_value-sextet_char a (x / 4) u (omega arith),
          sextet_value-sextet_char a (x % 4 * 16) u (omega arith),
        )
        (ground arith)
  decode_raw-encode_raw (x ∷ y ∷ []) (hx, (hy, _)) =
      rw
        (
          sextet_value-sextet_char a (x / 4) u (omega arith),
          sextet_value-sextet_char a (x % 4 * 16 + y / 16) u (omega arith),
          sextet_value-sextet_char a (y % 16 * 4) u (omega arith),
        )
        (ground arith)
  decode_raw-encode_raw (x ∷ y ∷ z ∷ r) (hx, (hy, (hz, hr))) =
      rw
        (
          sextet_value-sextet_char a (x / 4) u (omega arith),
          sextet_value-sextet_char a (x % 4 * 16 + y / 16) u (omega arith),
          sextet_value-sextet_char a (y % 16 * 4 + z / 64) u (omega arith),
          sextet_value-sextet_char a (z % 64) u (omega arith),
          decode_raw-encode_raw r hr,
        )
        (ground arith)

pub decode_raw_url-encode_raw :
    (bs : List ℕ) → All IsByte bs → decode_raw_url (encode_raw url bs) ≡ some bs
unfolding decode_raw_url
decode_raw_url-encode_raw bs h =
    rw (skip_newlines-encode_raw url (inl refl) bs h, decode_raw-encode_raw url (inl refl) bs h)
