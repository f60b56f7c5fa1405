-- ===== src/Mcp.antt =====
-- mcp/mcp.go: the JSON-RPC requests of the server and its tools.
pub mod Replies
pub mod Serve
pub mod Tools
use clawdwallet.Base.{
  ℕ, suc, String, Bool, true, false, Option, none, some, List, [], ◌∷◌, map, Error, Result, ok, err,
  message, about, if◌then◌else◌, str_eq, ◌||◌, not,
}
use clawdwallet.Base.Machine.{ℤ, pos, negsuc}
use clawdwallet.Policy.{Intent}
use clawdwallet.Agent.Transfer.{TransferOptions}

-- A JSON value that the program makes or takes: the library's, with what it makes of text.
pub record Json : Type 1 where
  pub Value : Type 0
  pub object : List (String × Value) → Value
  pub list : List Value → Value
  pub string : String → Value
  pub boolean : Bool → Value
  pub number : ℤ → Value
  pub error_text : Error → String
  pub quote : Value → String

pub record RpcError : Type 0 where
  pub code : ℤ
  pub message : Error

-- A decoded request: the bytes of its id are kept as a text, `""` where there is none. The parameters
-- of a call are decoded on demand.
pub record RpcRequest (V : Type 0) : Type 0 where
  pub id : String
  pub method : String
  pub params : Option (String × V)

-- `Result` is nil where it is `none`.
pub record RpcResponse (V : Type 0) : Type 0 where
  pub id : String
  pub result : Option V
  pub error : Option RpcError

abbrev parse_error : RpcError
parse_error = record { code = negsuc 32699; message = message "parse error" }

abbrev pub invalid_params : RpcError
invalid_params = record { code = negsuc 32601; message = message "invalid params" }

abbrev pub method_not_found : RpcError
method_not_found = record { code = negsuc 32600; message = message "method not found" }

module _ (json : Json) where
  open json use {Value, object, list, string, boolean, number, error_text, quote}

  -- `Run` is what the tool answers to its arguments.
  pub record ToolSpec : Type 0 where
    pub name : String
    pub description : String
    pub input_schema : Value
    pub run : Value → Result Value

  unfoldable pub initialize : Value
  initialize = object (
      ("protocolVersion", string "2025-06-18")
      ∷ ("serverInfo", object (("name", string "clawdwallet") ∷ ("version", string "0.1.0") ∷ []))
      ∷ ("capabilities", object (("tools", object []) ∷ []))
      ∷ [])

  abbrev tool_json : ToolSpec → Value
  tool_json t = object (
      ("name", string t.name)
      ∷ ("description", string t.description)
      ∷ ("inputSchema", t.input_schema)
      ∷ [])

  unfoldable pub tools_list : List ToolSpec → Value
  tools_list tools = object (("tools", list (map tool_json tools)) ∷ [])

  abbrev text_block : String → Value
  text_block t = list (object (("type", string "text") ∷ ("text", string t) ∷ []) ∷ [])

  -- What the call of a tool becomes: an error of the tool is a result that says so.
  unfoldable pub tool_result : Result Value → Value
  tool_result (ok v) = object (("content", text_block (quote v)) ∷ [])
  tool_result (err e) =
      object (("isError", boolean true) ∷ ("content", text_block (error_text e)) ∷ [])

  unfoldable pub tools_call : List ToolSpec → String → Value → Option Value × Option RpcError
  tools_call [] name args =
      (none, some (record { code = negsuc 32600; message = about "tool %q not found" name }))
  tools_call (t ∷ ts) name args =
      let rest = tools_call ts name args in
      if str_eq t.name name then (some (tool_result (t.run args)), none) else rest

  abbrev pub called : List ToolSpec → Option (String × Value) → Option Value × Option RpcError
  called tools none = (none, some invalid_params)
  called tools (some (name, args)) = tools_call tools name args

  -- The `switch` on the method.
  unfoldable pub answer :
      List ToolSpec → String → Option (String × Value) → Option Value × Option RpcError
  answer tools method params =
      if str_eq method "initialize"
      then (some initialize, none)
      else if str_eq method "notifications/initialized" || str_eq method "initialized"
      then (none, none)
      else if str_eq method "tools/list"
      then (some (tools_list tools), none)
      else if str_eq method "tools/call"
      then called tools params
      else if str_eq method "ping" || str_eq method "shutdown"
      then (some (object []), none)
      else (none, some method_not_found)

  abbrev is_notification : String → Bool
  is_notification id = str_eq id "" || str_eq id "null"

  abbrev pub respond : String → Option Value × Option RpcError → RpcResponse Value
  respond id (result, none) = record { id = id; result = result; error = none }
  respond id (result, some e) = record { id = id; result = none; error = some e }

  -- What is written to a line; `none` where the line does not parse.
  unfoldable pub handle : List ToolSpec → Option (RpcRequest Value) → Option (RpcResponse Value)
  handle tools none = some (record { id = ""; result = none; error = some parse_error })
  handle tools (some req) =
      if is_notification req.id
      then none
      else some (respond req.id (answer tools req.method req.params))

  -- The decoded arguments of `transfer`, and the options that the tool pays with.
  pub record TransferArgs : Type 0 where
    pub to : String
    pub amount : ℕ
    pub mint : String
    pub decimals : ℕ
    pub description : String
    pub reason : String
    pub skill : String

  unfoldable pub transfer_options : TransferArgs → TransferOptions
  transfer_options a = record {
    to = a.to;
    mint = a.mint;
    amount = a.amount;
    decimals = a.decimals;
    intent = record { description = a.description; skill = a.skill; reason = a.reason };
    x402 = none;
  }

  -- The tool `transfer`: `pay` is `BuildAndPay`.
  unfoldable pub run_transfer :
      (TransferOptions → Result String) → Result TransferArgs → Result Value
  run_transfer pay (err e) = err e
  run_transfer pay (ok a) = elim (pay (transfer_options a)) [
    | err e ↦ err e
    | ok sig ↦ ok (object (("signature", string sig) ∷ []))
  ]
