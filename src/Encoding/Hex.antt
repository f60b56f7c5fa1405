-- ===== src/Encoding/Hex.antt =====
-- `hex.EncodeToString` and `hex.DecodeString` of Go's encoding/hex.
use clawdwallet.Base.{
  ℕ, zero, suc, ◌+◌, ◌-◌, ◌*◌, ◌/◌, ◌%◌, ◌<◌, ◌≡◌, refl, Option, none, some, List, [], ◌∷◌, arith,
  ltb, leb, ◌&&◌, if◌then◌else◌, All, length,
}

abbrev pub IsByte : ℕ → Type 0
IsByte b = b < 256

unfoldable pub digit_char : ℕ → ℕ
digit_char d = if ltb d 10 then d + 48 else d + 87

-- Both cases of the letters are read.
unfoldable pub digit_value : ℕ → Option ℕ
digit_value c =
    if leb 48 c && leb c 57
    then some (c - 48)
    else if leb 97 c && leb c 102
    then some (c - 87)
    else if leb 65 c && leb c 70
    then some (c - 55)
    else none

unfoldable pub encode : List ℕ → List ℕ
encode [] = []
encode (b ∷ bs) = digit_char (b / 16) ∷ digit_char (b % 16) ∷ encode bs

abbrev pair : Option ℕ → Option ℕ → Option (List ℕ) → Option (List ℕ)
pair (some hi) (some lo) (some bs) = some ((hi * 16 + lo) ∷ bs)
pair (some hi) (some lo) none = none
pair (some hi) none _ = none
pair none _ _ = none

-- `none` is any of Go's errors: a byte that is no digit, or an odd length.
unfoldable pub decode : List ℕ → Option (List ℕ)
decode [] = some []
decode (x ∷ []) = none
decode (x ∷ y ∷ r) = pair (digit_value x) (digit_value y) (decode r)

digit_value-digit_char : (d : ℕ) → d < 16 → digit_value (digit_char d) ≡ some d
unfolding digit_value digit_char
digit_value-digit_char d h = ground arith

pub decode-encode : (bs : List ℕ) → All IsByte bs → decode (encode bs) ≡ some bs
unfolding decode encode
decode-encode [] h = refl
decode-encode (b ∷ bs) (hb, hs) =
    rw
      (
        digit_value-digit_char (b / 16) (omega arith),
        digit_value-digit_char (b % 16) (omega arith),
        decode-encode bs hs,
      )
      (ground arith)

-- A text of odd length is refused.
pub decode_odd : (r : List ℕ) (n : ℕ) → length r ≡ 2 * n + 1 → decode r ≡ none
unfolding decode
decode_odd [] n h = absurd (omega arith)
decode_odd (x ∷ []) n h = refl
decode_odd (x ∷ y ∷ r) zero h = absurd (omega arith)
decode_odd (x ∷ y ∷ r) (suc n) h = ground (arith, decode_odd r n (omega arith))

digit_char-ascii : (d : ℕ) → d < 16 → digit_char d < 128
unfolding digit_char
digit_char-ascii d h = ground arith

pub encode-ascii : (bs : List ℕ) → All IsByte bs → All (λ c. c < 128) (encode bs)
unfolding encode
encode-ascii [] h = tt
encode-ascii (b ∷ bs) (h, hs) = (
  digit_char-ascii (b / 16) (omega arith),
  (digit_char-ascii (b % 16) (omega arith), encode-ascii bs hs),
)
