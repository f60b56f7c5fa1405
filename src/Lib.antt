-- ===== src/Lib.antt =====
-- clawdwallet: an agent that holds one share of a threshold wallet and pays with it.
--
-- The parts, and how they interact. The agent (agent/) is reached over Spot. A mobile pairs with it by
-- a token (agent/pairing.go). A server starts a key generation (agent/keygen.go) over sessions and
-- brokers (agent/session.go); its share is kept in an encrypted file (store/store.go). To pay
-- (agent/transfer.go, agent/x402.go) the agent builds a Solana transaction (solana/), asks the policy
-- engine of the platform (policy/), leads a signing ceremony (agent/signing.go), attaches the signature
-- and sends the transaction. An MCP server (mcp/mcp.go) and an x402 client (x402/x402.go) call payments.
--
-- Files and sources.
--   Base           what the modules share: tests on numbers, lists, Go's errors, maps, machine integers
--   Encoding       encoding/hex, encoding/base64, math/big and Go's strings, as the program uses them
--   Store.Share    Share, SolanaAddressBytes, LoadDkls of store/store.go
--   Store.Point    EdPointBytes of store/store.go
--   Store.Disk     Save, Load, Has of store/store.go, over a disk that fails or stops
--   Solana         solana/address.go, solana/tx.go, solana/instructions.go
--   Solana.Rpc     solana/rpc.go
--   Config         config/config.go
--   Policy         policy/policy.go, policy/rest.go, policy/encoding.go
--   Agent.Protocol resolveCurveProtocol, decodeDigestBytes, bigIntToFixed of agent/protocol.go
--   Agent.Pairing  PairingRegistry and handlePair of agent/pairing.go
--   Agent.Party    agent/party.go and the party helpers of agent/keygen.go
--   Agent.Session  InitPayload, Session, SessionRegistry of agent/session.go
--   Agent.Broker   spotBroker of agent/session.go
--   Agent.Ceremony runSignWithSession and the runners of agent/signing.go, and sendWalletSign of
--                  agent/agent.go
--   Agent.Signing  SignDigest, joinSign and runSign of agent/signing.go
--   Agent.Keygen   agent/keygen.go; Agent.Keygen.Join has joinKeygen, and SetShare of agent/agent.go
--   Agent.Transfer options, effects and signers of agent/transfer.go
--   Agent.Payment  BuildAndPay of agent/transfer.go and Pay of agent/x402.go
--   Agent.Handlers the Spot handlers of agent/agent.go and makeWireSend of agent/keygen.go
--   Agent.Runtime  New, Start, Stop and the fields of Agent of agent/agent.go
--   Mcp            mcp/mcp.go
--   X402           x402/x402.go
--   Cli            root.go, main.go and the commands beside them
--   Examples       concrete runs
--
-- A struct is a record with the code's fields, a handler or method is the function of the same name
-- in antt's spelling, and state that a call changes is an argument and a result. An error is kept
-- with its format and the texts or numbers put into it, save the error of strconv. Calls of a mutex's holder are one step; the brokers, the pairing registry and the
-- leader of a ceremony are studied over any sequence of such steps. Texts and bytes are lists of
-- numbers where the program walks them.
--
-- Numbers. uint64 is a natural number below 2^64, and int64 wraps as in Go. `int` is an integer
-- without bounds: lengths and thresholds stay far below 2^63. Fuel: for BigInt.low_bytes the number
-- itself, since each byte divides it by 256; for Mcp.Serve.serve more than the bytes of the input,
-- since each line takes one; for Cli.Poll.wait_share two more than the quotient of timeout and pause,
-- since each round adds a pause. Times are nanoseconds as natural numbers.
--
-- Code that is not in the repository is a parameter: tss-lib (sorting, key generation, signing),
-- outscript (keys, transactions), gobottle and CBOR, the JSON codec, the network, the RPC node and
-- the platform. Their laws are fields of the record that holds them (Libraries, KeyText, Bottles,
-- ConfigEnv), or hypotheses of the theorem that needs them (ReadsInits, HasScalars).
--
-- Not modelled: logging, contexts and their deadlines beside what they make a call return, the
-- parsing of flags, what the commands print beside the values named here, amounts that are printed as
-- floating point numbers, and the order in which goroutines of the MCP server answer.
pub mod Base
pub mod Encoding
pub mod Store
pub mod Solana
pub mod Config
pub mod Agent
pub mod Policy
pub mod Mcp
pub mod X402
pub mod Cli
pub mod Examples
