-- ===== src/Encoding/Base64/Padded.antt =====
-- Decoding undoes encoding with padding, and the text of an encoder is ASCII.
use clawdwallet.Base.{
  ℕ, ◌+◌, ◌*◌, ◌/◌, ◌%◌, ◌<◌, ◌≡◌, refl, ◌≢◌, inl, inr, zero, suc, length, Option, none, some, List,
  [], ◌∷◌, arith, All, ◌∙◌,
}
use clawdwallet.Encoding.Hex.{IsByte}
use clawdwallet.Encoding.Text.{codes, text, codes-text}
use clawdwallet.Encoding.Base64.RoundTrip.{IsUsed, sextet_value-sextet_char, sextet_char_plain}
use clawdwallet.Encoding.Base64.{
  Alphabet, std, pad, sextet_char, sextet_value, skip_newlines, decode_padded, encode_padded,
  decode_std, bytes4, url, decode_raw, decode_raw_url,
}

sextet_char-lt : (a : Alphabet) (v : ℕ) → IsUsed a → v < 64 → sextet_char a v < 128
unfolding sextet_char
sextet_char-lt a v (inl e) h = rw e (ground arith)
sextet_char-lt a v (inr e) h = rw e (ground arith)

-- Neither a newline nor beyond ASCII.
abbrev IsPlain : ℕ → Type 0
IsPlain c = (c ≢ 10) × (c ≢ 13) × (c < 128)

module _ (a : Alphabet) (u : IsUsed a) where
  decode_group :
      (x y z w : ℕ) (t : List ℕ)
      → w ≢ pad
      → decode_padded a (x ∷ y ∷ z ∷ w ∷ t)
        ≡ bytes4
            (sextet_value a x)
            (sextet_value a y)
            (sextet_value a z)
            (sextet_value a w)
            (decode_padded a t)
  unfolding decode_padded
  decode_group x y z w [] h = ground arith
  decode_group x y z w (v ∷ r) h = refl

  decode_padded-encode_padded :
      (bs : List ℕ) → All IsByte bs → decode_padded a (encode_padded a bs) ≡ some bs
  unfolding encode_padded
  decode_padded-encode_padded [] h = unfold decode_padded in refl
  decode_padded-encode_padded (x ∷ []) (hx, _) =
      unfold decode_padded in
      rw
        (
          sextet_value-sextet_char a (x / 4) u (omega arith),
          sextet_value-sextet_char a (x % 4 * 16) u (omega arith),
        )
        (ground arith)
  decode_padded-encode_padded (x ∷ y ∷ []) (hx, (hy, _)) =
      let p = sextet_char_plain a (y % 16 * 4) u (omega arith) in
      unfold decode_padded in
      rw
        (
          sextet_value-sextet_char a (x / 4) u (omega arith),
          sextet_value-sextet_char a (x % 4 * 16 + y / 16) u (omega arith),
          sextet_value-sextet_char a (y % 16 * 4) u (omega arith),
        )
        (ground arith)
  decode_padded-encode_padded (x ∷ y ∷ z ∷ r) (hx, (hy, (hz, hr))) =
      decode_group _ _ _ _ _ (sextet_char_plain a (z % 64) u (omega arith)).2
      ∙ rw
          (
            sextet_value-sextet_char a (x / 4) u (omega arith),
            sextet_value-sextet_char a (x % 4 * 16 + y / 16) u (omega arith),
            sextet_value-sextet_char a (y % 16 * 4 + z / 64) u (omega arith),
            sextet_value-sextet_char a (z % 64) u (omega arith),
            decode_padded-encode_padded r hr,
          )
          (ground arith)

  sextet_char-IsPlain : (v : ℕ) → v < 64 → IsPlain (sextet_char a v)
  sextet_char-IsPlain v h =
      let (p, q, r) = sextet_char_plain a v u h in (p, q, sextet_char-lt a v u h)

  All-encode_padded : (bs : List ℕ) → All IsByte bs → All IsPlain (encode_padded a bs)
  unfolding encode_padded
  All-encode_padded [] h = tt
  All-encode_padded (x ∷ []) (hx, _) = (
    sextet_char-IsPlain (x / 4) (omega arith),
    (sextet_char-IsPlain (x % 4 * 16) (omega arith), (omega arith, (omega arith, tt))),
  )
  All-encode_padded (x ∷ y ∷ []) (hx, (hy, _)) = (
    sextet_char-IsPlain (x / 4) (omega arith),
    (
      sextet_char-IsPlain (x % 4 * 16 + y / 16) (omega arith),
      (sextet_char-IsPlain (y % 16 * 4) (omega arith), (omega arith, tt)),
    ),
  )
  All-encode_padded (x ∷ y ∷ z ∷ r) (hx, (hy, (hz, hr))) = (
    sextet_char-IsPlain (x / 4) (omega arith),
    (
      sextet_char-IsPlain (x % 4 * 16 + y / 16) (omega arith),
      (
        sextet_char-IsPlain (y % 16 * 4 + z / 64) (omega arith),
        (sextet_char-IsPlain (z % 64) (omega arith), All-encode_padded r hr),
      ),
    ),
  )

skip_plain : (cs : List ℕ) → All IsPlain cs → skip_newlines cs ≡ cs
unfolding skip_newlines
skip_plain [] h = refl
skip_plain (c ∷ cs) (h, hs) = ground (arith, skip_plain cs hs)

All-lt : (cs : List ℕ) → All IsPlain cs → All (λ c. c < 128) cs
All-lt [] h = tt
All-lt (c ∷ cs) (h, hs) = (h.2, All-lt cs hs)

-- Bytes come back from the characters of their text in standard base64.
pub decode_std-encode_padded :
    (bs : List ℕ) → All IsByte bs → decode_std (codes (text (encode_padded std bs))) ≡ some bs
unfolding decode_std
decode_std-encode_padded bs h =
    let p = All-encode_padded std (inr refl) bs h in
    rw (
      codes-text (encode_padded std bs) (All-lt _ p),
      skip_plain (encode_padded std bs) p,
      decode_padded-encode_padded std (inr refl) bs h,
    )

bytes4-no_fourth : (p q r : Option ℕ) (t : Option (List ℕ)) → bytes4 p q r none t ≡ none
bytes4-no_fourth none q r t = refl
bytes4-no_fourth (some p) none r t = refl
bytes4-no_fourth (some p) (some q) none t = refl
bytes4-no_fourth (some p) (some q) (some r) t = refl

bytes4-no_rest : (p q r s : Option ℕ) → bytes4 p q r s none ≡ none
bytes4-no_rest none q r s = refl
bytes4-no_rest (some p) none r s = refl
bytes4-no_rest (some p) (some q) none s = refl
bytes4-no_rest (some p) (some q) (some r) none = refl
bytes4-no_rest (some p) (some q) (some r) (some s) = refl

-- The padding is no character of the raw encoding.
decode_raw-encode_padded :
    (bs : List ℕ) (n : ℕ) → length bs ≡ 3 * n + 2 → decode_raw url (encode_padded std bs) ≡ none
unfolding encode_padded decode_raw sextet_value
decode_raw-encode_padded [] n h = absurd (omega arith)
decode_raw-encode_padded (x ∷ []) n h = absurd (omega arith)
decode_raw-encode_padded (x ∷ y ∷ []) n h = bytes4-no_fourth _ _ _ _
decode_raw-encode_padded (x ∷ y ∷ z ∷ r) zero h = absurd (omega arith)
decode_raw-encode_padded (x ∷ y ∷ z ∷ r) (suc n) h =
    rw (decode_raw-encode_padded r n (omega arith)) (bytes4-no_rest _ _ _ _)

-- A text in standard base64 that ends in one padding character, such as that of 32 bytes, is not read
-- without padding.
pub decode_raw_url-encode_padded :
    (bs : List ℕ) (n : ℕ)
    → All IsByte bs
    → length bs ≡ 3 * n + 2
    → decode_raw_url (codes (text (encode_padded std bs))) ≡ none
unfolding decode_raw_url
decode_raw_url-encode_padded bs n h l =
    let p = All-encode_padded std (inr refl) bs h in
    rw (codes-text (encode_padded std bs) (All-lt _ p), skip_plain (encode_padded std bs) p)
      (decode_raw-encode_padded bs n l)
