-- ===== src/Agent/Runtime.antt =====
-- The agent process of agent/agent.go: how it is made, started and stopped, and what it shows. The
-- logger and the context's cancellation function are left out but for the fact that it was called.
pub mod Restart
use clawdwallet.Base.{
  ℕ, String, Bool, true, false, Option, none, some, List, [], ◌∷◌, Error, Result, ok, err, message,
  wrap, context, ◌>>=◌, if◌then◌else◌,
}
use clawdwallet.Base.Maps.{Map}
use clawdwallet.Config
use clawdwallet.Config.{Config, ConfigEnv}
use clawdwallet.Encoding.FilePath.{join}
use clawdwallet.Store.Share.{Share}
use clawdwallet.Store.Disk.{Bottles, Disk, has, load}
use clawdwallet.Solana.Keys.{KeyText}
use clawdwallet.Solana.Rpc.{Client, new_client}
use clawdwallet.Agent.Session.{Sessions}
use clawdwallet.Agent.Pairing.{PairingRegistry, new_pairing_registry, close_registry}
use clawdwallet.Agent.Ceremony.{Local}
use clawdwallet.Agent.Handlers.{AgentView, solana_address}

-- What the process takes from its surroundings: gobottle, the environment, outscript, and the two
-- constructors of spotlib. `connect` gives the id under which the client is reached.
pub record RuntimeEnv : Type 1 where
  pub bottles : Bottles
  pub config_env : ConfigEnv
  pub key_text : KeyText
  pub new_disk_store : String → Result bottles.Keychain
  pub connect : bottles.Keychain → Result String

-- The names that the client serves, and their handlers.
pub data Handler : Type 0 where
  wallet_sign agent policy owner pair : Handler

unfoldable pub handlers : Map Handler
handlers =
    ("walletsign", wallet_sign)
    ∷ ("agent", agent)
    ∷ ("policy", policy)
    ∷ ("owner", owner)
    ∷ ("pair", pair)
    ∷ []

-- `store.Path` of a directory.
abbrev pub share_path : String → String
share_path dir = join dir "share.bottle"

module _ (env : RuntimeEnv) where
  open env use {bottles, config_env, key_text, new_disk_store, connect}

  -- `client` is the client's id, and `none` before `Start`.
  pub record Agent : Type 0 where
    pub config : Config
    pub client : Option String
    pub client_closed : Bool
    pub keychain : bottles.Keychain
    pub store_dir : String
    pub rpc : Client
    pub sessions : Sessions
    pub pairing : PairingRegistry
    pub share : Option Share
    pub locked : Bool
    pub cancelled : Bool

  -- A share that cannot be read is only logged.
  abbrev pub stored : String → bottles.Keychain → Disk → Option Share
  stored dir kc d =
      if has (share_path dir) d
      then elim (load bottles (some kc) (share_path dir) d) [ ok sh ↦ some sh | err e ↦ none ]
      else none

  abbrev pub fresh : Config → String → bottles.Keychain → Option Share → Agent
  fresh c dir kc sh = record {
    config = c;
    client = none;
    client_closed = false;
    keychain = kc;
    store_dir = dir;
    rpc = new_client c.solana_rpc;
    sessions = [];
    pairing = new_pairing_registry;
    share = sh;
    locked = false;
    cancelled = false;
  }

  unfoldable pub new : Option Config → Disk → Result Agent
  new none d = err (message "agent: nil config")
  new (some c) d = do
    dir ← Config.dir config_env
    kc ← context "spot disk store" (new_disk_store (join dir "spot"))
    ok (fresh c dir kc (stored dir kc d))

  unfoldable pub start : Agent → Agent × Option Error
  start a = elim (connect a.keychain) [
    | err e ↦ (a, some (wrap "spot connect" e))
    | ok id ↦ (record a { client = some id }, none)
  ]

  abbrev closed_client : Option String → Bool → Bool
  closed_client none closed = closed
  closed_client (some id) closed = true

  unfoldable pub stop : Agent → Agent
  stop a = record a {
    cancelled = true;
    client_closed = closed_client a.client a.client_closed;
    pairing = close_registry a.pairing;
  }

  unfoldable pub spot_id : Agent → String
  spot_id a = elim a.client [ none ↦ "" | some id ↦ id ]

  -- What signing and the status read of the agent.
  unfoldable pub local_of : Agent → Local
  local_of a = record {
    started = elim a.client [ none ↦ false | some _ ↦ true ];
    spot_id = spot_id a;
    share = a.share;
  }

  unfoldable pub view_of : Agent → AgentView
  view_of a = record {
    spot_id = spot_id a;
    share = a.share;
    locked = a.locked;
    config_address = a.config.solana_address;
    config_moniker = a.config.moniker;
  }

  abbrev pub address : Agent → String
  address a = solana_address key_text (view_of a)

  unfoldable pub set_locked : Bool → Agent → Agent
  set_locked v a = record a { locked = v }

-- `Reshare` is not enabled.
unfoldable pub reshare : Option Error
reshare = some (message "reshare is Stage 2 — not enabled in this build")
