-- ===== src/Examples/Lines.antt =====
-- The lines of the MCP server, the requests of the RPC client, and the path of a frame.
use clawdwallet.Base.{
  ℕ, ◌≡◌, refl, String, true, false, Option, none, some, List, [], ◌∷◌, Error, ok, err, message,
  arith, eq_iff, get_elem?, str_eq, if◌then◌else◌,
}
use clawdwallet.Base.Maps.{lookup}
use clawdwallet.Solana.Rpc.{
  RpcRequest, RpcEnv, plain, options, text_of, new_client, call, get_balance, send_transaction,
  simulate_transaction,
}
use clawdwallet.Solana.Rpc.Ids.{balance, send, made, requests, requests_distinct}
use clawdwallet.Solana.Rpc.Wire.{Carries, transactions_carried}
use clawdwallet.Mcp.{Json, tools_call}
use clawdwallet.Mcp.Serve.{serve, Served, serve-Served}
use clawdwallet.Mcp.Tools.{ToolAgent, build_tools, only_transfer_pays}
use clawdwallet.Agent.Ceremony.{walletsign_frame}
use clawdwallet.Agent.Handlers.{WalletSignEnv, handle_wallet_sign, start_session, deliver_to}
use clawdwallet.Agent.Handlers.Paths.{handle-walletsign_frame}
use clawdwallet.Examples.KeyTexts.{key_text}

abbrev rpc_env : RpcEnv
rpc_env = record {
  marshal = λ r. ok [];
  new_request = λ u. none;
  post = λ u b. ok [];
  decode = λ b. ok (record { result = 5 ∷ []; error = none });
  rpc_error = λ e. message e.message;
  unmarshal_blockhash = λ b. ok "hash";
  unmarshal_value = λ b. ok 5;
  unmarshal_token_amount =
      λ b. ok (record { amount = "5"; decimals = 6; ui_amount = "0.1"; ui_amount_string = "0.1" });
  unmarshal_text = λ b. ok "sig";
  unmarshal_raw = λ b. ok b;
}

abbrev first_request : RpcRequest
first_request = record {
  jsonrpc = "2.0";
  id = 1;
  method = "getBalance";
  params = plain "addr" ∷ options (("commitment", text_of "confirmed") ∷ []) ∷ [];
}

asked :
    get_elem? (requests rpc_env key_text (balance "addr" ∷ send (1 ∷ []) ∷ []) (new_client "")) 0
    ≡ some first_request
unfolding requests made call get_balance new_client
asked = refl

requests_distinct_example : ◌≡◌ {A = ℕ} 0 0
requests_distinct_example =
    requests_distinct rpc_env key_text (balance "addr" ∷ send (1 ∷ []) ∷ []) (new_client "") 0 0
      first_request first_request (omega arith) asked asked refl

transactions_carried_example :
    Carries
      (1 ∷ 2 ∷ 255 ∷ 7 ∷ [])
      (send_transaction rpc_env (1 ∷ 2 ∷ 255 ∷ 7 ∷ []) (new_client "")).1
    × Carries
        (1 ∷ 2 ∷ 255 ∷ 7 ∷ [])
        (simulate_transaction rpc_env (1 ∷ 2 ∷ 255 ∷ 7 ∷ []) (new_client "")).1
transactions_carried_example =
    transactions_carried rpc_env (new_client "") (1 ∷ 2 ∷ 255 ∷ 7 ∷ []) (omega arith)

abbrev input : List ℕ
input = 1 ∷ 10 ∷ 2 ∷ 3 ∷ []

serve-Served_example :
    (r : List (List ℕ) × Option Error) × (serve 5 input none ≡ some r) × Served input none r
serve-Served_example = serve-Served 5 input none (omega arith)

abbrev json : Json
json = record {
  Value = String;
  object = λ _. "{}";
  list = λ _. "[]";
  string = λ s. s;
  boolean = λ _. "true";
  number = λ _. "0";
  error_text = λ _. "error";
  quote = λ v. v;
}

abbrev tool_agent : ToolAgent json
tool_agent = record {
  address = "addr";
  spot_id = "a";
  locked = false;
  has_share = true;
  moniker = "m";
  get_balance = λ _. ok 5;
  build_and_pay = λ _. ok "sig";
  mint_of = λ _. "";
  transfer_args = λ _. err (message "no arguments");
  sol = λ _. "0";
}

only_transfer_pays_example :
    tools_call json
      (build_tools json (record tool_agent { build_and_pay = λ _. ok "other" }))
      "get_balance"
      "{}"
    ≡ tools_call json (build_tools json tool_agent) "get_balance" "{}"
only_transfer_pays_example =
    only_transfer_pays json tool_agent (λ _. ok "other") "get_balance" "{}"
      (ground (arith, eq_iff "get_balance" "transfer"))

abbrev wallet_sign_env : WalletSignEnv
wallet_sign_env = record {
  decode_init = λ b. err (message "bad init");
  decode_frame = λ b. none;
  brokers = ("s", none) ∷ [];
}

handle-walletsign_frame_example :
    let f = walletsign_frame "a" "k.b" "s" "broadcast" "p" (1 ∷ []) in
    handle_wallet_sign wallet_sign_env
      (some (record { recipient = f.target; sender = f.sender; body = f.body }))
    ≡ (if str_eq "broadcast" "init"
        then start_session wallet_sign_env "s" f.sender (1 ∷ [])
        else deliver_to wallet_sign_env (lookup "s" wallet_sign_env.brokers) "s" (1 ∷ []))
handle-walletsign_frame_example =
    handle-walletsign_frame wallet_sign_env "a" "k.b" "s" "broadcast" "p" (1 ∷ []) (omega arith)
      (omega arith) (ground (arith, eq_iff "s" "")) (omega arith)
