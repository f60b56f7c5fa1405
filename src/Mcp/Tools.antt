-- ===== src/Mcp/Tools.antt =====
-- `buildTools` of mcp/mcp.go: the five tools of the server.
use clawdwallet.Base.{
  ℕ, ◌≡◌, ◌≢◌, String, Bool, false, List, [], ◌∷◌, Result, ok, err, message, ◌>>=◌, if◌then◌else◌,
  str_eq, arith, eq_iff,
}
use clawdwallet.Base.Machine.{pos}
use clawdwallet.Agent.Transfer.{TransferOptions}
use clawdwallet.Mcp.{Json, ToolSpec, TransferArgs, run_transfer, tools_call}

-- What the tools ask of the agent, and how their arguments are decoded: `mint_of` is "" where the
-- arguments do not decode.
pub record ToolAgent (json : Json) : Type 0 where
  pub address : String
  pub spot_id : String
  pub locked : Bool
  pub has_share : Bool
  pub moniker : String
  pub get_balance : String → Result ℕ
  pub build_and_pay : TransferOptions → Result String
  pub mint_of : json.Value → String
  pub transfer_args : json.Value → Result (TransferArgs json)
  pub sol : ℕ → json.Value

module _ (json : Json) (a : ToolAgent json) where
  open json use {Value, object, list, string, boolean, number}

  abbrev schema : List (String × Value) → List (String × Value) → Value
  schema properties more =
      object (("type", string "object") ∷ ("properties", object properties) ∷ more)

  abbrev field : String → Value
  field t = object (("type", string t) ∷ [])

  abbrev described : String → String → Value
  described t text = object (("type", string t) ∷ ("description", string text) ∷ [])

  unfoldable pub run_get_address : Value → Result Value
  run_get_address args = ok (object (("address", string a.address) ∷ []))

  unfoldable pub run_get_status : Value → Result Value
  run_get_status args = ok (
      object (
        ("spot_id", string a.spot_id)
        ∷ ("solana_address", string a.address)
        ∷ ("locked", boolean a.locked)
        ∷ ("has_share", boolean a.has_share)
        ∷ ("moniker", string a.moniker)
        ∷ []))

  -- `sol` is the number of lamports divided by 1e9, a `float64`.
  unfoldable pub run_get_balance : Value → Result Value
  run_get_balance args =
      if str_eq (a.mint_of args) ""
      then (a.get_balance a.address >>= λ lamports.
          ok (object (("lamports", number (pos lamports)) ∷ ("sol", a.sol lamports) ∷ [])))
      else err (message "SPL balance via mint lookup not yet implemented; query the ATA directly")

  unfoldable pub run_pay_x402 : Value → Result Value
  run_pay_x402 args =
      err (message "pay_x402 not wired into MCP; use the `clawdwallet x402` CLI subcommand")

  unfoldable pub build_tools : List (ToolSpec json)
  build_tools =
      record {
        name = "get_address";
        description = "Return the Solana address controlled by this wallet.";
        input_schema = schema [] [];
        run = run_get_address;
      }
      ∷ record {
        name = "get_status";
        description = "Return the agent's current status: identity, address, lock state, etc.";
        input_schema = schema [] [];
        run = run_get_status;
      }
      ∷ record {
        name = "get_balance";
        description =
            "Return the wallet's SOL balance (in lamports). If 'mint' is given, return that SPL balance instead.";
        input_schema = schema (("mint", field "string") ∷ []) [];
        run = run_get_balance;
      }
      ∷ record {
        name = "transfer";
        description =
            "Transfer SOL or an SPL token. Required: to, amount. For SPL: also mint and decimals.";
        input_schema =
            schema
              (("to", described "string" "destination address (base58)")
                ∷ ("amount", described "integer" "amount in base units")
                ∷ ("mint", described "string" "optional SPL mint")
                ∷ ("decimals", described "integer" "required for SPL")
                ∷ ("description", described "string" "human-readable intent")
                ∷ ("reason", described "string" "why this transfer")
                ∷ ("skill", field "string")
                ∷ [])
              (("required", list (string "to" ∷ string "amount" ∷ [])) ∷ []);
        run = λ args. run_transfer json a.build_and_pay (a.transfer_args args);
      }
      ∷ record {
        name = "pay_x402";
        description =
            "Perform an HTTP request that may return 402 Payment Required. Pays automatically if the endpoint demands USDC.";
        input_schema =
            schema
              (("url", field "string")
                ∷ ("method", object (("type", string "string") ∷ ("default", string "GET") ∷ []))
                ∷ [])
              (("required", list (string "url" ∷ [])) ∷ []);
        run = run_pay_x402;
      }
      ∷ []

-- Whatever paying would do, the call of a tool other than `transfer` has the same answer.
pub only_transfer_pays :
    (json : Json) (a : ToolAgent json) (pay : TransferOptions → Result String) (name : String)
    (args : json.Value)
    → name ≢ "transfer"
    → tools_call json (build_tools json (record a { build_and_pay = pay })) name args
      ≡ tools_call json (build_tools json a) name args
unfolding build_tools tools_call run_get_address run_get_status run_get_balance run_pay_x402
only_transfer_pays json a pay name args h =
    let q : str_eq "transfer" name ≡ false = ground (arith, eq_iff "transfer" name, h) in rw q
