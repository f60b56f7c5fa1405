-- ===== src/Encoding/Base64.antt =====
-- `base64.RawURLEncoding` and `base64.StdEncoding` of Go's encoding/base64. Decoding skips `\r` and
-- `\n` and ignores the unused bits of the last character, as Go's decoder does unless it is strict.
pub mod RoundTrip
pub mod Padded
use clawdwallet.Base.{
  ℕ, ◌+◌, ◌-◌, ◌*◌, ◌/◌, ◌%◌, Option, none, some, List, [], ◌∷◌, ltb, leb, ◌==◌, ◌&&◌, ◌||◌,
  if◌then◌else◌,
}

-- The last two characters of an alphabet.
pub record Alphabet : Type 0 where
  pub c62 : ℕ
  pub c63 : ℕ

abbrev pub url : Alphabet
url = record { c62 = 45; c63 = 95 }

abbrev pub std : Alphabet
std = record { c62 = 43; c63 = 47 }

abbrev pub pad : ℕ
pad = 61

unfoldable pub sextet_char : Alphabet → ℕ → ℕ
sextet_char a v =
    if ltb v 26
    then v + 65
    else if ltb v 52
    then v + 71
    else if ltb v 62
    then v - 4
    else if v == 62
    then a.c62
    else a.c63

unfoldable pub sextet_value : Alphabet → ℕ → Option ℕ
sextet_value a c =
    if leb 65 c && leb c 90
    then some (c - 65)
    else if leb 97 c && leb c 122
    then some (c - 71)
    else if leb 48 c && leb c 57
    then some (c + 4)
    else if c == a.c62
    then some 62
    else if c == a.c63
    then some 63
    else none

unfoldable pub skip_newlines : List ℕ → List ℕ
skip_newlines [] = []
skip_newlines (c ∷ r) = let rest = skip_newlines r in if c == 10 || c == 13 then rest else c ∷ rest

-- One, two or three bytes from two, three or four sextets.
abbrev pub bytes2 : Option ℕ → Option ℕ → Option (List ℕ)
bytes2 (some p) (some q) = some ((p * 4 + q / 16) ∷ [])
bytes2 (some p) none = none
bytes2 none _ = none

abbrev pub bytes3 : Option ℕ → Option ℕ → Option ℕ → Option (List ℕ)
bytes3 (some p) (some q) (some r) = some ((p * 4 + q / 16) ∷ (q % 16 * 16 + r / 4) ∷ [])
bytes3 (some p) (some q) none = none
bytes3 (some p) none _ = none
bytes3 none _ _ = none

abbrev pub bytes4 : Option ℕ → Option ℕ → Option ℕ → Option ℕ → Option (List ℕ) → Option (List ℕ)
bytes4 (some p) (some q) (some r) (some s) (some bs) =
    some ((p * 4 + q / 16) ∷ (q % 16 * 16 + r / 4) ∷ (r % 4 * 64 + s) ∷ bs)
bytes4 (some p) (some q) (some r) (some s) none = none
bytes4 (some p) (some q) (some r) none _ = none
bytes4 (some p) (some q) none _ _ = none
bytes4 (some p) none _ _ _ = none
bytes4 none _ _ _ _ = none

-- Without padding, a last group of two or three characters is short.
unfoldable pub decode_raw : Alphabet → List ℕ → Option (List ℕ)
decode_raw a [] = some []
decode_raw a (x ∷ []) = none
decode_raw a (x ∷ y ∷ []) = bytes2 (sextet_value a x) (sextet_value a y)
decode_raw a (x ∷ y ∷ z ∷ []) = bytes3 (sextet_value a x) (sextet_value a y) (sextet_value a z)
decode_raw a (x ∷ y ∷ z ∷ w ∷ r) =
    bytes4 (sextet_value a x) (sextet_value a y) (sextet_value a z) (sextet_value a w)
      (decode_raw a r)

-- With padding, the text is whole groups of four; the last may end in one or two `=`.
unfoldable pub decode_padded : Alphabet → List ℕ → Option (List ℕ)
decode_padded a [] = some []
decode_padded a (x ∷ []) = none
decode_padded a (x ∷ y ∷ []) = none
decode_padded a (x ∷ y ∷ z ∷ []) = none
decode_padded a (x ∷ y ∷ z ∷ w ∷ []) =
    if w == pad
    then if z == pad
      then bytes2 (sextet_value a x) (sextet_value a y)
      else bytes3 (sextet_value a x) (sextet_value a y) (sextet_value a z)
    else bytes4 (sextet_value a x) (sextet_value a y) (sextet_value a z) (sextet_value a w)
        (some [])
decode_padded a (x ∷ y ∷ z ∷ w ∷ v ∷ r) =
    bytes4 (sextet_value a x) (sextet_value a y) (sextet_value a z) (sextet_value a w)
      (decode_padded a (v ∷ r))

unfoldable pub encode_raw : Alphabet → List ℕ → List ℕ
encode_raw a [] = []
encode_raw a (x ∷ []) = sextet_char a (x / 4) ∷ sextet_char a (x % 4 * 16) ∷ []
encode_raw a (x ∷ y ∷ []) =
    sextet_char a (x / 4) ∷ sextet_char a (x % 4 * 16 + y / 16) ∷ sextet_char a (y % 16 * 4) ∷ []
encode_raw a (x ∷ y ∷ z ∷ r) =
    sextet_char a (x / 4)
    ∷ sextet_char a (x % 4 * 16 + y / 16)
    ∷ sextet_char a (y % 16 * 4 + z / 64)
    ∷ sextet_char a (z % 64)
    ∷ encode_raw a r

unfoldable pub encode_padded : Alphabet → List ℕ → List ℕ
encode_padded a [] = []
encode_padded a (x ∷ []) = sextet_char a (x / 4) ∷ sextet_char a (x % 4 * 16) ∷ pad ∷ pad ∷ []
encode_padded a (x ∷ y ∷ []) =
    sextet_char a (x / 4)
    ∷ sextet_char a (x % 4 * 16 + y / 16)
    ∷ sextet_char a (y % 16 * 4)
    ∷ pad
    ∷ []
encode_padded a (x ∷ y ∷ z ∷ r) =
    sextet_char a (x / 4)
    ∷ sextet_char a (x % 4 * 16 + y / 16)
    ∷ sextet_char a (y % 16 * 4 + z / 64)
    ∷ sextet_char a (z % 64)
    ∷ encode_padded a r

-- `RawURLEncoding.DecodeString` and `StdEncoding.DecodeString`.
unfoldable pub decode_raw_url : List ℕ → Option (List ℕ)
decode_raw_url t = decode_raw url (skip_newlines t)

unfoldable pub decode_std : List ℕ → Option (List ℕ)
decode_std t = decode_padded std (skip_newlines t)
