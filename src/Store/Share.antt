-- ===== src/Store/Share.antt =====
-- `Share` of store/store.go, and what is read from it.
use clawdwallet.Base.{
  ℕ, String, Option, none, some, List, [], ◌∷◌, Result, err, message, about, if◌then◌else◌, str_eq,
  ◌==◌, length,
}
use clawdwallet.Base.Machine.{ℤ}
use clawdwallet.Store.Point.{EcPoint, ed_point_bytes}

abbrev pub schema_frost : String
schema_frost = "frost"

abbrev pub schema_dkls23 : String
schema_dkls23 = "dkls23"

-- What the code reads of `frosttss.Key`.
pub record FrostKey : Type 0 where
  pub group_public_key : Option EcPoint

-- A nil pointer is `none`; a nil or empty slice of bytes is `[]`.
pub record Share : Type 0 where
  pub wallet_id : String
  pub schema : String
  pub party_key : Option ℕ
  pub peer_keys : List (Option ℕ)
  pub peer_spot_ids : List String
  pub threshold : ℤ
  pub frost_key : Option FrostKey
  pub dkls_blob : List ℕ
  pub pub_key : List ℕ
  pub secp256k1_pub : List ℕ

abbrev point_of_key : Option FrostKey → Option EcPoint
point_of_key none = none
point_of_key (some k) = k.group_public_key

abbrev bytes_of_point : Option EcPoint → Option (List ℕ)
bytes_of_point none = none
bytes_of_point (some p) = some (ed_point_bytes p)

unfoldable pub solana_address_bytes : Share → Option (List ℕ)
solana_address_bytes s =
    if str_eq s.schema schema_frost
    then if length s.pub_key == 32
      then some s.pub_key
      else bytes_of_point (point_of_key s.frost_key)
    else none

-- `dklstss.Load` is tss-lib's.
abbrev load_blob {ℓ} : {K : Type ℓ} → (List ℕ → Result K) → List ℕ → Result K
load_blob load [] = err (message "dkls23 share has empty blob")
load_blob load (b ∷ bs) = load (b ∷ bs)

unfoldable pub load_dkls {ℓ} : {K : Type ℓ} → (List ℕ → Result K) → Share → Result K
load_dkls load s =
    if str_eq s.schema schema_dkls23
    then load_blob load s.dkls_blob
    else err (about "share schema is %q, not \"dkls23\"" s.schema)
