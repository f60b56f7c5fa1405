-- ===== src/Cli.antt =====
-- root.go and main.go: the commands and their dispatch, and which commands there are. The text that
-- goes to the terminal is left out but for whether the usage is printed.
pub mod Gates
pub mod Started
pub mod Init
pub mod Send
pub mod Poll
pub mod Show
pub mod Pair
pub mod Fetch
use Prim.Native.String
use clawdwallet.Base.{
  ℕ, zero, suc, String, Bool, true, false, Option, none, some, List, [], ◌∷◌, Error, message, about,
  if◌then◌else◌, str_eq, not, ◌||◌,
}
use clawdwallet.Base.Maps.{Map, lookup, insert}
use clawdwallet.Encoding.Text.{cut}

-- `run` gives the command's error, `none` where it is nil.
pub record Command : Type 0 where
  pub name : String
  pub short : String
  pub run : List String → Option Error

unfoldable pub register : Command → Map Command → Map Command
register c commands = insert c.name c commands

abbrev pub is_help : String → Bool
is_help a = str_eq a "help" || (str_eq a "-h" || str_eq a "--help")

-- Whether the usage is printed, and the error.
unfoldable pub dispatch : Map Command → List String → Bool × Option Error
dispatch commands [] = (true, some (message "no command given"))
dispatch commands (name ∷ args) =
    if is_help name then (true, none) else elim (lookup name commands) [
      | none ↦ (true, some (about "unknown command %q" name))
      | some c ↦ (false, c.run args)
    ]

-- The exit status of `main`.
unfoldable pub exit_status : Bool × Option Error → ℕ
exit_status (printed, none) = 0
exit_status (printed, some e) = 1

-- The key is not empty where an `=` splits the argument.
abbrev split_found : String → Option (String × String) → String × String × Bool
split_found s none = (s, "", false)
split_found s (some (k, v)) = if str_eq k "" then (s, "", false) else (k, v, true)

unfoldable pub split_arg : String → String × String × Bool
split_arg s = split_found s (cut b'=' s)

-- The environment variables that enable the commands of the second stage; a variable that is not set
-- is empty.
pub record Enabled : Type 0 where
  pub mcp : String
  pub x402 : String
  pub raw_sign : String
  pub reshare : String

-- The bodies of the commands.
pub record Bodies : Type 0 where
  pub balance : List String → Option Error
  pub daemon : List String → Option Error
  pub init : List String → Option Error
  pub keygen : List String → Option Error
  pub mcp : List String → Option Error
  pub pair : List String → Option Error
  pub send : List String → Option Error
  pub status : List String → Option Error
  pub x402 : List String → Option Error

abbrev pub run_sign_dev : List String → Option Error
run_sign_dev args =
    some (message "raw sign is dev-only and currently unwired; use `clawdwallet send`")

abbrev pub run_reshare : List String → Option Error
run_reshare args = some (message "reshare is Stage 2 — not enabled in this build")

abbrev pub command : String → String → (List String → Option Error) → Command
command name short run = record { name = name; short = short; run = run }

-- `init` of a command of the second stage.
abbrev pub register_if : String → Command → Map Command → Map Command
register_if var c commands = if str_eq var "" then commands else register c commands

-- The `init` functions run in the order of their files' names.
unfoldable pub commands : Bodies → Enabled → Map Command
commands b e =
    register_if e.x402
      (command "x402" "(Stage 2) HTTP request that may require x402 payment" b.x402)
      (register
        (command "status" "Show the agent's identity, address, lock state, and balance" b.status)
        (register_if e.raw_sign
          (command "sign"
            "(dev) Run a TSS signing round over an arbitrary digest with an explicit sid"
            run_sign_dev)
          (register
            (command "send" "Build a transfer, request policy approval, sign via TSS, submit"
              b.send)
            (register_if e.reshare
              (command "reshare" "(Stage 2) Run a reshare ceremony to rotate share holders"
                run_reshare)
              (register
                (command "pair"
                  "Print a one-shot tibane:// URL to pair this agent with the mobile app" b.pair)
                (register_if e.mcp
                  (command "mcp" "(Stage 2) Run an MCP server on stdio (JSON-RPC 2.0)" b.mcp)
                  (register
                    (command "keygen"
                      "Wait for a server-issued walletsign keygen init and run the ceremony"
                      b.keygen)
                    (register
                      (command "init" "Initialise the agent identity and write a default config"
                        b.init)
                      (register
                        (command "daemon" "Run the agent in the foreground, accepting Spot messages"
                          b.daemon)
                        (register
                          (command "balance"
                            "Print the SOL balance (and optionally an SPL balance) for the wallet"
                            b.balance)
                          []))))))))))
