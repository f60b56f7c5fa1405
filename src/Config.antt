-- ===== src/Config.antt =====
-- config/config.go: the agent's configuration, its directory and its file. The file is written as
-- the share is, by the functions of Store.Disk.
pub mod Laws
use clawdwallet.Base.{
  ℕ, ◌≡◌, String, Option, none, some, List, [], ◌∷◌, Error, Result, ok, err, context, ◌>>=◌,
  if◌then◌else◌, str_eq, not,
}
use clawdwallet.Base.Maps.{lookup}
use clawdwallet.Encoding.FilePath.{join}
use clawdwallet.Store.Disk.{Disk, WriteFault, write_file}

pub record Config : Type 0 where
  pub moniker : String
  pub relays : List String
  pub policy_id : String
  pub owner_id : String
  pub solana_rpc : String
  pub usdc_mint : String
  pub wallet_id : String
  pub solana_address : String

unfoldable pub defaults : Config
defaults = record {
  moniker = "";
  relays = [];
  policy_id = "";
  owner_id = "";
  solana_rpc = "https://api.mainnet-beta.solana.com";
  usdc_mint = "EPjFWdd5AufqSSqeM2qN1xzybapC8G4wEGGkZwyTDt1v";
  wallet_id = "";
  solana_address = "";
}

-- The members of the JSON object that the file holds, `none` where one is missing.
pub record Members : Type 0 where
  pub moniker : Option String
  pub relays : Option (List String)
  pub policy_id : Option String
  pub owner_id : Option String
  pub solana_rpc : Option String
  pub usdc_mint : Option String
  pub wallet_id : Option String
  pub solana_address : Option String

-- The tag `omitempty`.
abbrev pub omit_empty : String → Option String
omit_empty s = if str_eq s "" then none else some s

abbrev pub omit_empty_list : List String → Option (List String)
omit_empty_list [] = none
omit_empty_list (x ∷ xs) = some (x ∷ xs)

unfoldable pub members_of : Config → Members
members_of c = record {
  moniker = some c.moniker;
  relays = omit_empty_list c.relays;
  policy_id = omit_empty c.policy_id;
  owner_id = omit_empty c.owner_id;
  solana_rpc = omit_empty c.solana_rpc;
  usdc_mint = omit_empty c.usdc_mint;
  wallet_id = omit_empty c.wallet_id;
  solana_address = omit_empty c.solana_address;
}

abbrev pub or_old {ℓ} : {A : Type ℓ} → Option A → A → A
or_old none old = old
or_old (some new) old = new

-- `json.Unmarshal` into a config that is there: a missing member leaves its field.
unfoldable pub overlay : Members → Config → Config
overlay m c = record {
  moniker = or_old m.moniker c.moniker;
  relays = or_old m.relays c.relays;
  policy_id = or_old m.policy_id c.policy_id;
  owner_id = or_old m.owner_id c.owner_id;
  solana_rpc = or_old m.solana_rpc c.solana_rpc;
  usdc_mint = or_old m.usdc_mint c.usdc_mint;
  wallet_id = or_old m.wallet_id c.wallet_id;
  solana_address = or_old m.solana_address c.solana_address;
}

-- The environment, the answer of `os.MkdirAll` to a directory, and the text of a JSON object with
-- what reads it back.
pub record ConfigEnv : Type 0 where
  pub clawdwallet_home : String
  pub user_config_dir : Result String
  pub mkdir_all : String → Option Error
  pub marshal_indent : Members → Result (List ℕ)
  pub unmarshal : List ℕ → Result Members
  pub unmarshal-marshal_indent :
      (m : Members) (raw : List ℕ) → marshal_indent m ≡ ok raw → unmarshal raw ≡ ok m

module _ (env : ConfigEnv) where
  open env use {clawdwallet_home, user_config_dir, mkdir_all, marshal_indent, unmarshal}

  abbrev made : String → Option Error → Result String
  made d none = ok d
  made d (some e) = err e

  unfoldable pub dir : Result String
  dir =
      if not (str_eq clawdwallet_home "")
      then made clawdwallet_home (mkdir_all clawdwallet_home)
      else (user_config_dir >>= λ home. let d = join home "clawdwallet" in made d (mkdir_all d))

  unfoldable pub path : Result String
  path = do d ← dir; ok (join d "config.json")

  -- `os.ReadFile` fails with `fs.ErrNotExist` just where the file is not there; `read_fault` is any
  -- other failure.
  unfoldable pub load : Option Error → Disk → Result Config
  load read_fault d = path >>= λ p. elim (lookup p d) [
    | none ↦ ok defaults
    | some raw ↦ elim read_fault [
      | some e ↦ err e
      | none ↦ context "parse config" (unmarshal raw) >>= λ m. ok (overlay m defaults)
    ]
  ]

  -- The path, and the bytes that go under it.
  abbrev pub to_write : String → Config → Result (String × List ℕ)
  to_write p c = do raw ← marshal_indent (members_of c); ok (p, raw)

  unfoldable pub save : Option WriteFault → Option Error → Config → Disk → Disk × Option Error
  save write_fault rename_fault c d = elim (path >>= λ p. to_write p c) [
    | err e ↦ (d, some e)
    | ok (p, raw) ↦ write_file p raw write_fault rename_fault d
  ]
