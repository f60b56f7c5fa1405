-- ===== src/Agent/Pairing/Endpoint.antt =====
-- The `pair` Spot endpoint and the deep link of agent/pairing.go. A request is the decoded JSON body,
-- `none` where `json.Unmarshal` fails. Encoding a response cannot fail, since it holds texts, a
-- number and an empty map: the branch for a failure of `json.Marshal` is left out.
pub mod Laws
use Prim.Native.String
use clawdwallet.Base.{
  ℕ, String, Bool, Option, none, some, List, [], ◌∷◌, Error, message, counted, if◌then◌else◌,
  str_eq, ltb, ◌||◌, ◌&&◌, not,
}
use clawdwallet.Base.Machine.{ℤ, pos, is_pos}
use clawdwallet.Agent.Pairing.Channel.{Outcome, done, ◌>>=◌}
use clawdwallet.Agent.Pairing.{PairingRegistry, PairingError, bad_request, consume}

abbrev pub pairing_protocol_version : ℤ
pairing_protocol_version = pos 1

pub record PairRequest : Type 0 where
  pub v : ℤ
  pub token : String
  pub mobile_spot_id : String

pub record PairResponse : Type 0 where
  pub v : ℤ
  pub agent_spot_id : String
  pub suggested_name : String
  pub agent_version : String

-- The text of an error response is kept as an `Error`, with the number that it quotes.
pub data PairReply : Type 0 where
  paired : PairResponse → PairReply
  refused : PairingError → Error → PairReply

-- The build settings that `debug.ReadBuildInfo` gives, if there is build info.
unfoldable pub revision : List (String × String) → String
revision [] = ""
revision ((key, value) ∷ settings) =
    if str_eq key "vcs.revision" && not (str_eq value "")
    then if ltb 7 (String.len value) then String.slice value 0 7 else value
    else revision settings

unfoldable pub agent_version : Option (List (String × String)) → String
agent_version none = ""
agent_version (some settings) = revision settings

-- What the handler reads of the agent.
pub record Identity : Type 0 where
  pub spot_id : String
  pub moniker : String
  pub build_info : Option (List (String × String))

abbrev pub response : Identity → PairResponse
response a = record {
  v = pairing_protocol_version;
  agent_spot_id = a.spot_id;
  suggested_name = a.moniker;
  agent_version = agent_version a.build_info;
}

abbrev reply_to : Identity → PairingRegistry × Option PairingError → PairingRegistry × PairReply
reply_to a (r, none) = (r, paired (response a))
reply_to a (r, some code) = (r, refused code (message ""))

unfoldable pub handle_request :
    Identity → PairRequest → ℕ → ℕ → PairingRegistry → Outcome (PairingRegistry × PairReply)
handle_request a req now at r =
    if not (is_pos 1 req.v)
    then done (r, refused bad_request (counted "unsupported v=%d" (req.v ∷ [])))
    else if str_eq req.token "" || str_eq req.mobile_spot_id ""
    then done (r, refused bad_request (message "missing required field"))
    else consume req.token req.mobile_spot_id now at r >>= λ p. done (reply_to a p)

-- The outer option is the message pointer.
unfoldable pub handle_pair :
    Identity
    → Option (Option PairRequest)
    → ℕ
    → ℕ
    → PairingRegistry
    → Outcome (PairingRegistry × PairReply)
handle_pair a none now at r = done (r, refused bad_request (message "empty message"))
handle_pair a (some none) now at r = done (r, refused bad_request (message "malformed body"))
handle_pair a (some (some req)) now at r = handle_request a req now at r

unfoldable pub pairing_url : String → String → String
pairing_url agent_spot_id token =
    String.◌++◌ "tibane://pair?agent=" (String.◌++◌ agent_spot_id (String.◌++◌ "&token=" token))
