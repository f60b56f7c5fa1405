-- ===== src/Agent/Keygen/Join.antt =====
-- `joinKeygen` of agent/keygen.go and `SetShare` of agent/agent.go: what is kept of a key generation.
use clawdwallet.Base.{String, Option, none, some, Error, ok, err, if◌then◌else◌}
use clawdwallet.Store.Share.{Share, solana_address_bytes}
use clawdwallet.Store.Disk.{WriteFault, Bottles, Disk, save}
use clawdwallet.Solana.Keys.{KeyText, address_from_pub_key}
use clawdwallet.Agent.Party.{contains_spot_id}
use clawdwallet.Agent.Session.{Sessions, InitPayload}
use clawdwallet.Config
use clawdwallet.Config.{Config, ConfigEnv}
use clawdwallet.Agent.Keygen.{KeygenEnv, run_keygen}

-- What `Agent` keeps of a key generation: its share and its config.
pub record Kept : Type 0 where
  pub share : Option Share
  pub config : Config

-- `joinKeygen` ends without a share, with one and what saving it gave, or in a nil pointer.
pub data Joined : Type 0 where
  refused : Joined
  failed_with : Error → Joined
  saved : Option Error → Joined
  crashed : Joined

-- `a.cfg.SolanaAddress, _ = ...`, if the share has an address.
abbrev pub address_after : KeyText → Share → String → String
address_after t sh old = elim (solana_address_bytes sh) [
  | none ↦ old
  | some b ↦ elim (address_from_pub_key t b) [ ok a ↦ a | err _ ↦ "" ]
]

-- The config with the two fields that key generation sets.
abbrev pub named_by : KeyText → Share → Config → Config
named_by t sh c = record c {
  wallet_id = sh.wallet_id;
  solana_address = address_after t sh c.solana_address;
}

module _ (bs : Bottles) (kc : Option bs.Keychain) (path : String) (write_fault : Option WriteFault)
    (rename_fault : Option Error) where
  unfoldable pub set_share : Share → Kept → Disk → Kept × Disk × Option Error
  set_share sh st d =
      let (d', e) = save bs kc path sh write_fault rename_fault d in
      (record st { share = some sh }, d', e)

  -- A failure to write the config is only logged.
  unfoldable pub join_keygen :
      KeygenEnv
      → KeyText
      → ConfigEnv
      → Option WriteFault
      → Option Error
      → String
      → String
      → InitPayload
      → Sessions
      → Kept
      → Disk
      → Sessions × Kept × Disk × Joined
  join_keygen env t config_env config_fault config_rename_fault my_spot sid ip sessions st d =
      let (after, made) = run_keygen env my_spot sid ip sessions in
      if contains_spot_id ip.peers my_spot
      then elim made [
        | err e ↦ (after, st, d, failed_with e)
        | ok none ↦ (after, st, d, crashed)
        | ok (some sh) ↦
            let c = named_by t sh st.config in
            let (d', _) = Config.save config_env config_fault config_rename_fault c d in
            let (st', d'', e) = set_share sh (record st { config = c }) d' in
            (after, st', d'', saved e)
      ]
      else (sessions, st, d, refused)
