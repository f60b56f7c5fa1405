-- ===== src/Solana/Rpc.antt =====
-- solana/rpc.go: the JSON-RPC client. `encoding/json` on the wire types, and the node, are parameters;
-- the counter of request ids is the client's state.
pub mod Ids
pub mod Wire
use clawdwallet.Base.{
  ℕ, ◌+◌, ◌%◌, ◌^◌, String, Bool, false, Option, none, some, List, [], ◌∷◌, Error, Result, ok, err,
  context, return_if, ◌>>=◌, ◌>>◌, if◌then◌else◌, str_eq,
}
use clawdwallet.Base.Machine.{ℤ}
use clawdwallet.Encoding.Text.{text}
use clawdwallet.Encoding.Base64.{std, encode_padded}
use clawdwallet.Solana.Keys.{SolanaKey, KeyText}

-- `id` is an `atomic.Uint64`.
pub record Client : Type 0 where
  pub url : String
  pub id : ℕ

unfoldable pub new_client : String → Client
new_client url = record {
  url = if str_eq url "" then "https://api.mainnet-beta.solana.com" else url;
  id = 0;
}

-- The values in `params`: a text, or an object of texts and booleans.
pub data Setting : Type 0 where
  text_of : String → Setting
  flag : Bool → Setting

pub data Param : Type 0 where
  plain : String → Param
  options : List (String × Setting) → Param

pub record RpcRequest : Type 0 where
  pub jsonrpc : String
  pub id : ℕ
  pub method : String
  pub params : List Param

pub record RpcError : Type 0 where
  pub code : ℤ
  pub message : String

-- `rpcResponse`; `result` is the bytes of its JSON, and the version and the id are not read.
pub record RpcResponse : Type 0 where
  pub result : List ℕ
  pub error : Option RpcError

-- `ui_amount`, a `float64`, is kept as its JSON text; nothing reads it.
pub record TokenAmount : Type 0 where
  pub amount : String
  pub decimals : ℕ
  pub ui_amount : String
  pub ui_amount_string : String

-- `json.Marshal`, the URL's parser, the node, `json.Decode` of the answer, and `json.Unmarshal` of a
-- result for each type that a method reads.
pub record RpcEnv : Type 0 where
  pub marshal : RpcRequest → Result (List ℕ)
  pub new_request : String → Option Error
  pub post : String → List ℕ → Result (List ℕ)
  pub decode : List ℕ → Result RpcResponse
  pub rpc_error : RpcError → Error
  pub unmarshal_blockhash : List ℕ → Result String
  pub unmarshal_value : List ℕ → Result ℕ
  pub unmarshal_token_amount : List ℕ → Result TokenAmount
  pub unmarshal_text : List ℕ → Result String
  pub unmarshal_raw : List ℕ → Result (List ℕ)

-- `c.id.Add(1)` wraps.
abbrev pub next_id : Client → ℕ
next_id c = (c.id + 1) % 2 ^ 64

abbrev pub request_of : Client → String → List Param → RpcRequest
request_of c method params = record {
  jsonrpc = "2.0";
  id = next_id c;
  method = method;
  params = params;
}

abbrev confirmed : Param
confirmed = options (("commitment", text_of "confirmed") ∷ [])

module _ (env : RpcEnv) where
  open env use {
    marshal, new_request, post, decode, rpc_error, unmarshal_blockhash, unmarshal_value,
    unmarshal_token_amount, unmarshal_text, unmarshal_raw,
  }

  abbrev answer_of {ℓ} : {V : Type ℓ} → (List ℕ → Result V) → RpcResponse → Result V
  answer_of unmarshal r = elim r.error [ some e ↦ err (rpc_error e) | none ↦ unmarshal r.result ]

  -- What the node makes of a request: `unmarshal` is that of the type of `out`.
  unfoldable pub exchanged {ℓ} : {V : Type ℓ} → String → RpcRequest → (List ℕ → Result V) → Result V
  exchanged url req unmarshal = do
    body ← marshal req
    return_if (new_request url)
    reply ← post url body
    r ← context "decode rpc response" (decode reply)
    answer_of unmarshal r

  -- The client afterwards, the request, and the value.
  unfoldable pub call {ℓ} :
      {V : Type ℓ}
      → Client
      → String
      → List Param
      → (List ℕ → Result V)
      → Client × RpcRequest × Result V
  call c method params unmarshal =
      let req = request_of c method params in
      (record c { id = next_id c }, req, exchanged c.url req unmarshal)

  unfoldable pub get_latest_blockhash : KeyText → Client → Client × RpcRequest × Result SolanaKey
  get_latest_blockhash t c =
      let (c', req, r) = call c "getLatestBlockhash" (confirmed ∷ []) unmarshal_blockhash in
      (c', req, r >>= t.parse_solana_key)

  unfoldable pub get_balance : String → Client → Client × RpcRequest × Result ℕ
  get_balance addr c = call c "getBalance" (plain addr ∷ confirmed ∷ []) unmarshal_value

  unfoldable pub get_token_account_balance :
      String → Client → Client × RpcRequest × Result TokenAmount
  get_token_account_balance ata c =
      call c "getTokenAccountBalance" (plain ata ∷ confirmed ∷ []) unmarshal_token_amount

  unfoldable pub get_token_supply_decimals : String → Client → Client × RpcRequest × Result ℕ
  get_token_supply_decimals mint c =
      let (c', req, r) =
        call c "getTokenSupply" (plain mint ∷ confirmed ∷ []) unmarshal_token_amount in
      (c', req, r >>= λ a. ok a.decimals)

  abbrev pub encoded : List ℕ → String
  encoded raw_tx = text (encode_padded std raw_tx)

  unfoldable pub send_transaction : List ℕ → Client → Client × RpcRequest × Result String
  send_transaction raw_tx c =
      call c "sendTransaction"
        (plain (encoded raw_tx)
          ∷ options (
              ("encoding", text_of "base64")
              ∷ ("skipPreflight", flag false)
              ∷ ("preflightCommitment", text_of "confirmed")
              ∷ [])
          ∷ [])
        unmarshal_text

  unfoldable pub simulate_transaction : List ℕ → Client → Client × RpcRequest × Result (List ℕ)
  simulate_transaction raw_tx c =
      call c "simulateTransaction"
        (plain (encoded raw_tx)
          ∷ options (
              ("encoding", text_of "base64")
              ∷ ("commitment", text_of "confirmed")
              ∷ ("sigVerify", flag false)
              ∷ [])
          ∷ [])
        unmarshal_raw
