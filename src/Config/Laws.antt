-- ===== src/Config/Laws.antt =====
-- What a saved configuration is when it is loaded again.
use clawdwallet.Base.{
  ℕ, ◌≡◌, refl, ap, sym, String, inl, inr, Option, none, some, List, [], ◌∷◌, Error, ok,
  Result-cases, arith, eq_iff, str_eq, if◌then◌else◌, ◌>>=◌,
}
use clawdwallet.Base.Maps.{lookup}
use clawdwallet.Store.Disk.{Disk, WriteFault, write_file}
use clawdwallet.Store.Disk.Laws.{write_file_done, write_file_failed}
use clawdwallet.Config.{
  Config, ConfigEnv, defaults, members_of, overlay, omit_empty, or_old, omit_empty_list, path, load,
  save,
}

-- An empty field stands for its default.
unfoldable pub with_defaults : Config → Config
with_defaults c = record c {
  solana_rpc = if str_eq c.solana_rpc "" then defaults.solana_rpc else c.solana_rpc;
  usdc_mint = if str_eq c.usdc_mint "" then defaults.usdc_mint else c.usdc_mint;
}

or_old-omit_empty : (s old : String) → or_old (omit_empty s) old ≡ (if str_eq s "" then old else s)
or_old-omit_empty s old = ground arith

or_old-omit_empty_self : (s : String) → or_old (omit_empty s) "" ≡ s
or_old-omit_empty_self s = ground (arith, eq_iff s "")

or_old-omit_empty_list : (l : List String) → or_old (omit_empty_list l) [] ≡ l
or_old-omit_empty_list [] = refl
or_old-omit_empty_list (x ∷ xs) = refl

overlay-members_of : (c : Config) → overlay (members_of c) defaults ≡ with_defaults c
unfolding overlay members_of defaults with_defaults
overlay-members_of c = ground (
  arith,
  or_old-omit_empty_list c.relays,
  or_old-omit_empty_self c.policy_id,
  or_old-omit_empty_self c.owner_id,
  or_old-omit_empty_self c.wallet_id,
  or_old-omit_empty_self c.solana_address,
  or_old-omit_empty c.solana_rpc defaults.solana_rpc,
  or_old-omit_empty c.usdc_mint defaults.usdc_mint,
)

-- A save that gets as far as the disk.
saved_bytes :
    (env : ConfigEnv) (f : Option WriteFault) (g : Option Error) (c : Config) (d d' : Disk)
    → save env f g c d ≡ (d', none)
    → (p : String) × (raw : List ℕ) × (path env ≡ ok p)
      × (env.marshal_indent (members_of c) ≡ ok raw)
      × (write_file p raw f g d ≡ (d', none))
unfolding save
saved_bytes env f g c d d' h = elim (Result-cases (path env)) [
  | inr (e, q) ↦ absurd (let z = rw (q, save, ◌>>=◌) at h in cc)
  | inl (p, q) ↦ elim (Result-cases (env.marshal_indent (members_of c))) [
    | inr (e, w) ↦ absurd (let z = rw (q, w, save, ◌>>=◌) at h in cc)
    | inl (raw, w) ↦ (p, raw, q, w, (rw (q, w, save, ◌>>=◌) at h))
  ]
]

-- If the config is saved without an error, a load that can read the file gives it back, but for
-- an RPC node or a USDC mint that is empty, which is the default.
pub load-save_config :
    (env : ConfigEnv) (f : Option WriteFault) (g : Option Error) (c : Config) (d d' : Disk)
    → save env f g c d ≡ (d', none)
    → load env none d' ≡ ok (with_defaults c)
unfolding load
load-save_config env f g c d d' h =
    let (p, raw, q, m, w) = saved_bytes env f g c d d' h in
    rw
      (
        q,
        ◌>>=◌,
        write_file_done p raw f g d d' w,
        env.unmarshal-marshal_indent (members_of c) raw m,
      )
      (ap ok (overlay-members_of c))

-- A save that ends with an error leaves the config that `load` finds as it was.
load-save_config_failed :
    (env : ConfigEnv) (f : Option WriteFault) (g r : Option Error) (c : Config) (d d' : Disk)
    (x : Error)
    → save env f g c d ≡ (d', some x)
    → load env r d' ≡ load env r d
unfolding save load
load-save_config_failed env f g r c d d' x h = elim (Result-cases (path env)) [
  | inr (e, q) ↦ rw q
  | inl (p, q) ↦ elim (Result-cases (env.marshal_indent (members_of c))) [
    | inr (e, m) ↦ let z = rw (q, m, save, ◌>>=◌) at h in ap (load env r) (ap (λ x. x.0) (sym z))
    | inl (raw, m) ↦ rw (q, ◌>>=◌, write_file_failed p raw f g d d' x (rw (q, m, save, ◌>>=◌) at h))
  ]
]

-- Loading reads only the file under the path.
pub load-lookup :
    (env : ConfigEnv) (r : Option Error) (p : String) (d d' : Disk)
    → path env ≡ ok p
    → lookup p d' ≡ lookup p d
    → load env r d' ≡ load env r d
unfolding load
load-lookup env r p d d' q w = rw (q, ◌>>=◌, w)
