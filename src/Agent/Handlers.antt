-- ===== src/Agent/Handlers.antt =====
-- The Spot handlers of agent/agent.go, and the outgoing frames of `makeWireSend` in agent/keygen.go.
pub mod Lock
pub mod Frames
pub mod Paths
use Prim.Native.String
use clawdwallet.Base.{
  ℕ, String, Bool, true, false, Option, none, some, List, [], ◌∷◌, ◌++◌, Error, Result, ok, err,
  message, about, context, ◌>>=◌, if◌then◌else◌, str_eq,
}
use clawdwallet.Base.Maps.{Map, lookup}
use clawdwallet.Encoding.Text.{split}
use clawdwallet.Store.Share.{Share, solana_address_bytes}
use clawdwallet.Solana.Keys.{KeyText, address_from_pub_key}
use clawdwallet.Agent.Party.{PeerSpec}
use clawdwallet.Agent.Session.{InitPayload, RawPayload, unmarshal_payload}
use clawdwallet.Agent.Broker.{JsonMessage, SpotBroker, inbound}
use clawdwallet.Agent.Ceremony.{Frame, walletsign_frame}
use clawdwallet.Agent.Keygen.{Started, on_init}

-- What a `walletsign` message makes the agent do.
pub data WalletAct : Type 0 where
  ignored : WalletAct
  starts : Started → WalletAct
  delivers : SpotBroker → JsonMessage → WalletAct

-- What the handler reads of a `spotproto.Message`.
pub record SpotMessage : Type 0 where
  pub recipient : String
  pub sender : String
  pub body : List ℕ

-- The two JSON decoders, and the broker of each live session, `none` where it is nil.
pub record WalletSignEnv : Type 0 where
  pub decode_init : List ℕ → Result RawPayload
  pub decode_frame : List ℕ → Option JsonMessage
  pub brokers : Map (Option SpotBroker)

abbrev pub start_session : WalletSignEnv → String → String → List ℕ → Result WalletAct
start_session env sid sender body = do
  raw ← context "decode init payload" (env.decode_init body)
  started ← on_init sid sender (unmarshal_payload raw)
  ok (starts started)

abbrev pub deliver_to :
    WalletSignEnv → Option (Option SpotBroker) → String → List ℕ → Result WalletAct
deliver_to env none sid body = err (about "walletsign: unknown session %s" sid)
deliver_to env (some none) sid body = err (about "walletsign: session %s has no broker" sid)
deliver_to env (some (some b)) sid body = do
  msg ← context (String.◌++◌ "walletsign: dispatch " sid) (inbound (env.decode_frame body))
  ok (delivers b msg)

abbrev pub routed : WalletSignEnv → String → String → List ℕ → List String → Result WalletAct
routed env sid sender body [] = deliver_to env (lookup sid env.brokers) sid body
routed env sid sender body (op ∷ _) =
    if str_eq op "init"
    then start_session env sid sender body
    else deliver_to env (lookup sid env.brokers) sid body

-- The session id and what follows it: `parts[2]` and `parts[3:]`, if there are three parts.
abbrev pub session_part : List String → Option (String × List String)
session_part [] = none
session_part (id ∷ []) = none
session_part (id ∷ name ∷ []) = none
session_part (id ∷ name ∷ sid ∷ rest) = some (sid, rest)

unfoldable pub handle_wallet_sign : WalletSignEnv → Option SpotMessage → Result WalletAct
handle_wallet_sign env none = ok ignored
handle_wallet_sign env (some msg) = elim (session_part (split b'/' msg.recipient)) [
  | none ↦ err (about "walletsign: bad recipient %q" msg.recipient)
  | some (sid, rest) ↦
      if str_eq sid ""
      then err (about "walletsign: empty sid in recipient %q" msg.recipient)
      else routed env sid msg.sender msg.body rest
]

pub record AgentStatus : Type 0 where
  pub spot_id : String
  pub solana_address : String
  pub wallet_id : String
  pub has_share : Bool
  pub locked : Bool
  pub booted_at : String
  pub moniker : String

-- What `Agent` holds that a status shows.
pub record AgentView : Type 0 where
  pub spot_id : String
  pub share : Option Share
  pub locked : Bool
  pub config_address : String
  pub config_moniker : String

unfoldable pub solana_address : KeyText → AgentView → String
solana_address t a = elim a.share [
  | none ↦ a.config_address
  | some sh ↦
      elim (address_from_pub_key t (elim (solana_address_bytes sh) [ none ↦ [] | some b ↦ b ])) [
        | ok addr ↦ addr
        | err _ ↦ a.config_address
      ]
]

abbrev status_of : KeyText → String → AgentView → AgentStatus
status_of t booted_at a = record {
  spot_id = a.spot_id;
  solana_address = solana_address t a;
  wallet_id = elim a.share [ none ↦ "" | some sh ↦ sh.wallet_id ];
  has_share = elim a.share [ none ↦ false | some _ ↦ true ];
  locked = a.locked;
  booted_at = booted_at;
  moniker = a.config_moniker;
}

-- The action of a decoded `AgentEnvelope`; the status is then encoded.
unfoldable pub handle_agent : KeyText → String → AgentView → Result String → Result AgentStatus
handle_agent t booted_at a (err e) = context "decode agent envelope" (err e)
handle_agent t booted_at a (ok action) =
    if str_eq action "status"
    then ok (status_of t booted_at a)
    else if str_eq action "clarify"
    then err (message "clarify is Stage 2 — not enabled")
    else err (about "unknown agent action %q" action)

-- The lock afterwards, and the answer.
unfoldable pub handle_policy : Result String → Bool → Bool × Result String
handle_policy (err e) locked = (locked, context "decode policy envelope" (err e))
handle_policy (ok action) locked =
    if str_eq action "lock"
    then (true, ok "{\"ok\":true}")
    else if str_eq action "unlock"
    then (false, ok "{\"ok\":true}")
    else (locked, err (about "unknown policy action %q" action))

unfoldable pub handle_owner : Option SpotMessage → Result String
handle_owner msg = ok "{\"note\":\"owner messages go to the policy evaluator\"}"

-- What `makeWireSend` reads of a `tss.JsonMessage`: the ids of its parties.
pub record WireMessage : Type 0 where
  pub from : Option String
  pub to : Option String

abbrev pub id_or_empty : Option String → String
id_or_empty none = ""
id_or_empty (some id) = id

unfoldable pub broadcast : String → String → String → List ℕ → List PeerSpec → List Frame
broadcast my_spot sid party_id body [] = []
broadcast my_spot sid party_id body (p ∷ ps) =
    let rest = broadcast my_spot sid party_id body ps in
    if str_eq p.spot_id my_spot
    then rest
    else walletsign_frame my_spot p.spot_id sid "broadcast" party_id body ∷ rest

-- The frames that are handed to the network; a failed send is logged and the loop goes on.
unfoldable pub wire_send :
    String → String → List PeerSpec → (WireMessage → Result (List ℕ)) → WireMessage → List Frame
unfolding broadcast
wire_send my_spot sid peers marshal jm = elim (marshal jm) [
  | err e ↦ []
  | ok body ↦ elim jm.to [
    | none ↦ broadcast my_spot sid (id_or_empty jm.from) body peers
    | some to ↦
        if str_eq to my_spot
        then []
        else walletsign_frame my_spot to sid "single" (id_or_empty jm.from) body ∷ []
  ]
]
