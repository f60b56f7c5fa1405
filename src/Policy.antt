-- ===== src/Policy.antt =====
-- policy/policy.go, policy/rest.go and policy/encoding.go: what the agent tells the policy engine of the
-- platform, and what it reads of the answer.
use clawdwallet.Base.{
  ℕ, String, Bool, Option, none, some, List, Result, ok, message, fail_if, context, ◌>>=◌, ◌>>◌,
  not, str_eq, length, ◌==◌,
}
use clawdwallet.Base.Machine.{ℤ}
use clawdwallet.Encoding.Text.{cut, text}
use clawdwallet.Encoding.Base64.{std, encode_padded}

pub record Intent : Type 0 where
  pub description : String
  pub skill : String
  pub reason : String

pub record TokenDelta : Type 0 where
  pub mint : String
  pub symbol : String
  pub delta : ℤ
  pub decimals : ℕ

pub record ParsedEffects : Type 0 where
  pub sol_delta : ℤ
  pub token_deltas : List TokenDelta
  pub programs_invoked : List String
  pub accounts_created : List String
  pub programs_deployed : List String

pub record X402Context : Type 0 where
  pub endpoint : String
  pub resource : String

-- `hash` is its characters, `object` its bytes.
pub record SignRequest : Type 0 where
  pub key : String
  pub hash : List ℕ
  pub object_type : String
  pub object : List ℕ
  pub il : String
  pub curve : String

pub record PeerInit : Type 0 where
  pub spot_id : String
  pub moniker : String
  pub key : String

pub record PolicyPayload : Type 0 where
  pub sid : String
  pub type_field : String
  pub curve : String
  pub threshold : ℤ
  pub peers : List PeerInit
  pub digest : String
  pub message_field : String
  pub wallet_id : String

-- The `raw` of `UnmarshalJSON`, with a missing field empty.
pub record RawResponse : Type 0 where
  pub session : String
  pub remote_key : String
  pub wdrone_spot_id : String
  pub init_payload : Option PolicyPayload

pub record SignResponse : Type 0 where
  pub session : String
  pub remote_key : String
  pub wdrone_spot_id : String
  pub init_payload : Option PolicyPayload
  pub approved : Bool
  pub reason : String

-- The rest of `UnmarshalJSON`, once the JSON is decoded into an empty response.
unfoldable pub unmarshal_response : RawResponse → SignResponse
unmarshal_response x = record {
  session = x.session;
  remote_key = x.remote_key;
  wdrone_spot_id = x.wdrone_spot_id;
  init_payload = x.init_payload;
  approved = not (str_eq x.session "");
  reason = "";
}

-- What follows the first colon of the remote key.
abbrev after_cut : Option (String × String) → String
after_cut none = ""
after_cut (some (before, after)) = after

unfoldable pub session_id : Option SignResponse → String
session_id none = ""
session_id (some r) = after_cut (cut b':' r.remote_key)

unfoldable pub sign_request : String → List ℕ → List ℕ → SignRequest
sign_request remote_key hash_hex parsed = record {
  key = remote_key;
  hash = hash_hex;
  object_type = "solana_tx";
  object = parsed;
  il = "";
  curve = "ed25519";
}

-- `apply` is the platform's answer to the request, decoded.
unfoldable pub submit :
    (SignRequest → Result RawResponse) → String → List ℕ → List ℕ → Result SignResponse
submit apply remote_key hash_hex parsed = do
  fail_if (str_eq remote_key "") (message "policy: empty remoteKey")
  fail_if (length hash_hex == 0) (message "policy: empty hash")
  fail_if (length parsed == 0) (message "policy: empty parsed effects")
  raw ← context "policy submit" (apply (sign_request remote_key hash_hex parsed))
  ok (unmarshal_response raw)

-- The alias of policy/encoding.go for base64 with padding.
unfoldable pub base64_std_enc : List ℕ → String
base64_std_enc b = text (encode_padded std b)
