-- ===== src/Agent/Protocol.antt =====
-- agent/protocol.go: the curve and protocol of a ceremony, and the decoding of a digest.
pub mod Resolve
pub mod Digest
pub mod Fixed
use clawdwallet.Base.{
  ℕ, suc, ◌-◌, String, Option, none, some, List, [], ◌∷◌, ◌++◌, map, Result, ok, err, message,
  about, counted, if◌then◌else◌, str_eq, ◌==◌, ◌&&◌, leb, length, replicate,
}
use clawdwallet.Encoding.Hex
use clawdwallet.Encoding.Base64.{decode_raw_url, decode_std}
use clawdwallet.Encoding.BigInt
use clawdwallet.Base.Machine.{pos}

abbrev pub protocol_frost : String
protocol_frost = "frost"

abbrev pub protocol_dkls23 : String
protocol_dkls23 = "dkls23"

abbrev pub curve_ed25519 : String
curve_ed25519 = "ed25519"

abbrev pub curve_secp256k1 : String
curve_secp256k1 = "secp256k1"

-- The two values of `elliptic.Curve` that the code takes from tss-lib.
pub data EllipticCurve : Type 0 where
  edwards s256 : EllipticCurve

pub record Resolved : Type 0 where
  pub group : EllipticCurve
  pub curve : String
  pub protocol : String

abbrev pub on_edwards : Resolved
on_edwards = record {
  group = EllipticCurve.edwards;
  curve = curve_ed25519;
  protocol = protocol_frost;
}

abbrev pub on_s256 : Resolved
on_s256 = record { group = EllipticCurve.s256; curve = curve_secp256k1; protocol = protocol_dkls23 }

-- `if curve == "" { curve = d }`
abbrev or_default : String → String → String
or_default s d = if str_eq s "" then d else s

resolve_frost : String → Result Resolved
resolve_frost curve =
    if str_eq (or_default curve curve_ed25519) curve_ed25519
    then ok on_edwards
    else err (about "protocol frost requires curve ed25519, got %q" curve)

resolve_dkls23 : String → Result Resolved
resolve_dkls23 curve =
    if str_eq (or_default curve curve_secp256k1) curve_secp256k1
    then ok on_s256
    else err (about "protocol dkls23 requires curve secp256k1, got %q" curve)

resolve_by_curve : String → Result Resolved
resolve_by_curve curve =
    if str_eq curve ""
    then ok on_edwards
    else if str_eq curve curve_ed25519
    then ok on_edwards
    else if str_eq curve curve_secp256k1
    then ok on_s256
    else err (about "unknown curve %q (no protocol specified)" curve)

unfoldable pub resolve_curve_protocol : String → String → Result Resolved
unfolding resolve_frost resolve_dkls23 resolve_by_curve
resolve_curve_protocol curve protocol =
    if str_eq protocol protocol_frost
    then resolve_frost curve
    else if str_eq protocol protocol_dkls23
    then resolve_dkls23 curve
    else if str_eq protocol ""
    then resolve_by_curve curve
    else err (about "unsupported protocol %q (legacy GG18 paths are not enabled)" protocol)

-- `strings.TrimPrefix(in, "0x")`
unfoldable pub trim_0x : List ℕ → List ℕ
trim_0x [] = []
trim_0x (x ∷ []) = x ∷ []
trim_0x (x ∷ y ∷ r) = if x == b'0' && y == b'x' then r else x ∷ y ∷ r

-- A decoded value is taken if it is there and not empty; else the next decoding is tried.
abbrev pub taken_or : Option (List ℕ) → Result (List ℕ) → Result (List ℕ)
taken_or none next = next
taken_or (some []) next = next
taken_or (some (b ∷ bs)) next = ok (b ∷ bs)

-- The error holds the codes of the input.
abbrev decode_nonempty : List ℕ → Result (List ℕ)
decode_nonempty input = taken_or (Hex.decode (trim_0x input)) (
    taken_or (decode_raw_url input) (
      taken_or (decode_std input)
        (err (counted "digest %q is neither hex nor base64" (map pos input)))))

unfoldable pub decode_digest_bytes : List ℕ → Result (List ℕ)
decode_digest_bytes [] = err (message "empty digest")
decode_digest_bytes (c ∷ r) = decode_nonempty (c ∷ r)

-- `copy(out[size-len(b):], b)` into `size` zeros
unfoldable pub big_int_to_fixed : ℕ → ℕ → List ℕ
big_int_to_fixed n size =
    let b = BigInt.bytes n in if leb size (length b) then b else replicate (size - length b) 0 ++ b
