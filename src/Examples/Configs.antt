-- ===== src/Examples/Configs.antt =====
-- A config in the directory `/h`, and an agent that is started again after its key generation.
use clawdwallet.Base.{
  ◌≡◌, refl, ap, sym, ℕ, String, none, List, [], ◌∷◌, Result, ok, err, message, ◌>>=◌,
}
use clawdwallet.Base.Maps.{lookup, insert, erase}
use clawdwallet.Config
use clawdwallet.Config.{Config, Members, ConfigEnv, members_of}
use clawdwallet.Config.Laws.{with_defaults, load-save_config}
use clawdwallet.Encoding.FilePath.{join}
use clawdwallet.Store.Disk.{Disk, write_file}
use clawdwallet.Examples.World.{String-discrete}

Members-discrete : Discrete Members
Members-discrete = hlevel String-discrete

-- The members are written as one byte, and no others can be written.
abbrev pub members_written : {m t : Members} → Dec (m ≡ t) → Result (List ℕ)
members_written (yes e) = ok (7 ∷ [])
members_written (no n) = err (message "other members")

pub marshal_members : Members → Members → Result (List ℕ)
unfolding Members-discrete
marshal_members t m = members_written (Members-discrete m t)

members_back :
    (t m : Members) (raw : List ℕ) (d : Dec (m ≡ t))
    → members_written d ≡ ok raw
    → ◌≡◌ {A = Result Members} (ok t) (ok m)
members_back t m raw (yes e) h = ap ok (sym e)
members_back t m raw (no n) h = cc

pub unmarshal_members :
    (t m : Members) (raw : List ℕ)
    → marshal_members t m ≡ ok raw
    → ◌≡◌ {A = Result Members} (ok t) (ok m)
unfolding marshal_members
unmarshal_members t m raw h = members_back t m raw (Members-discrete m t) h

members_ok : (t : Members) (d : Dec (t ≡ t)) → members_written d ≡ ok (7 ∷ [])
members_ok t (yes e) = refl
members_ok t (no n) = absurd (n refl)

pub marshal_members_ok : (t : Members) → marshal_members t t ≡ ok (7 ∷ [])
unfolding marshal_members
marshal_members_ok t = members_ok t (Members-discrete t t)

-- The environment in which just the config `t` can be saved.
unfoldable pub config_env : Config → ConfigEnv
config_env t = record {
  clawdwallet_home = "/h";
  user_config_dir = ok "/home/u/.config";
  mkdir_all = λ _. none;
  marshal_indent = marshal_members (members_of t);
  unmarshal = λ _. ok (members_of t);
  unmarshal-marshal_indent = unmarshal_members (members_of t);
}

abbrev pub config_path : String
config_path = "/h/config.json"

pub dir_ok : (t : Config) → Config.dir (config_env t) ≡ ok "/h"
unfolding Config.dir config_env
dir_ok t = refl

pub path_ok : (t : Config) → Config.path (config_env t) ≡ ok config_path
unfolding Config.path Config.dir config_env join
path_ok t = refl

-- The disk after a save on an empty disk.
abbrev pub config_disk : Disk
config_disk = (config_path, 7 ∷ []) ∷ []

pub config_saved : (t : Config) → Config.save (config_env t) none none t [] ≡ (config_disk, none)
unfolding Config.save config_env write_file clawdwallet.Store.Disk.write_ops
    clawdwallet.Store.Disk.run_ops clawdwallet.Store.Disk.run_op lookup insert erase
config_saved t = rw (Config.save, path_ok t, ◌>>=◌, marshal_members_ok (members_of t))

abbrev pub tidy : Config
tidy = record {
  moniker = "agent";
  relays = "relay" ∷ [];
  policy_id = "k.p";
  owner_id = "";
  solana_rpc = "";
  usdc_mint = "mint";
  wallet_id = "";
  solana_address = "";
}

load-save_config_example : Config.load (config_env tidy) none config_disk ≡ ok (with_defaults tidy)
load-save_config_example =
    load-save_config (config_env tidy) none none tidy [] config_disk (config_saved tidy)
