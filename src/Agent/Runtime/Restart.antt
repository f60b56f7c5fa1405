-- ===== src/Agent/Runtime/Restart.antt =====
-- What an agent of agent/agent.go knows after a key generation and a restart of the process.
use clawdwallet.Base.{
  ◌≡◌, refl, ap, sym, ◌∙◌, ◌≢◌, inl, inr, String, true, false, Option, none, some, Option-cases,
  Error, ok, ◌>>=◌,
}
use clawdwallet.Base.Maps.{lookup}
use clawdwallet.Config
use clawdwallet.Config.{Config, ConfigEnv}
use clawdwallet.Config.Laws.{with_defaults, load-lookup, load-save_config}
use clawdwallet.Encoding.FilePath.{join}
use clawdwallet.Store.Share.{Share}
use clawdwallet.Store.Disk.{Disk, WriteFault, Bottles, has, load, tmp_path}
use clawdwallet.Store.Disk.Laws.{save_other}
use clawdwallet.Agent.Session.{Sessions, InitPayload}
use clawdwallet.Agent.Keygen.{KeygenEnv}
use clawdwallet.Agent.Keygen.Join.{Kept, named_by, join_keygen, saved}
use clawdwallet.Agent.Keygen.Saved.{join_keygen-inv}
use clawdwallet.Agent.Runtime.{RuntimeEnv, Agent, new, fresh, share_path}

-- A share that loads is there.
has-load :
    (bs : Bottles) (kc : bs.Keychain) (path : String) (d : Disk) (sh : Share)
    → load bs (some kc) path d ≡ ok sh
    → has path d ≡ true
unfolding load has
has-load bs kc path d sh h = elim (Option-cases (lookup path d)) [
  | inl q ↦ absurd (let z = rw (q, ◌>>=◌) at h in cc)
  | inr (raw, q) ↦ rw (q, has)
]

module _ (env : RuntimeEnv) (c : Config) (dir : String) (kc : env.bottles.Keychain) (d : Disk)
    (sh : Share) where
  new-loaded :
      Config.dir env.config_env ≡ ok dir
      → env.new_disk_store (join dir "spot") ≡ ok kc
      → load env.bottles (some kc) (share_path dir) d ≡ ok sh
      → new env (some c) d ≡ ok (fresh env c dir kc (some sh))
  unfolding new
  new-loaded q w l = rw (q, ◌>>=◌, w, ◌>>=◌, has-load env.bottles kc (share_path dir) d sh l, l)

no_error : (x : Disk × Option Error) → x.1 ≡ none → x ≡ (x.0, none)
no_error (d, o) h = ap (λ (y : Option Error). (d, y)) h

-- If a key generation ends with the share saved and the config was written without an error, and
-- the config is none of the two files that the share is written to, then the config that is
-- loaded later is the one in memory with its defaults filled in, and an agent that is made with
-- it has the share of the key generation, the id of its wallet, and no lock.
pub restarted :
    (env : RuntimeEnv) (dir p : String) (kc : env.bottles.Keychain) (f cf : Option WriteFault)
    (g cg : Option Error) (keygen : KeygenEnv) (my_spot sid : String) (ip : InitPayload)
    (sessions after : Sessions) (st st' : Kept) (d d' : Disk)
    → Config.dir env.config_env ≡ ok dir
    → env.new_disk_store (join dir "spot") ≡ ok kc
    → Config.path env.config_env ≡ ok p
    → share_path dir ≢ p
    → tmp_path (share_path dir) ≢ p
    → join_keygen env.bottles
        (some kc)
        (share_path dir)
        f
        g
        keygen
        env.key_text
        env.config_env
        cf
        cg
        my_spot
        sid
        ip
        sessions
        st
        d
      ≡ (after, st', d', saved none)
    → (Config.save env.config_env cf cg st'.config d).1 ≡ none
    → (sh : Share) × (a : Agent env) × (st'.share ≡ some sh)
      × (Config.load env.config_env none d' ≡ ok (with_defaults st'.config))
      × (new env (some (with_defaults st'.config)) d' ≡ ok a)
      × (a.share ≡ some sh)
      × (a.config.wallet_id ≡ sh.wallet_id)
      × (a.locked ≡ false)
unfolding with_defaults
restarted env dir p kc f cf g cg keygen my_spot sid ip sessions after st st' d d' q w cp n m h s =
    let (sh, u, v, disk, l) =
      join_keygen-inv env.bottles kc (share_path dir) f g keygen env.key_text env.config_env cf cg
        my_spot sid ip sessions after st st' d d' h in
    let c = named_by env.key_text sh st.config in
    let d1 = (Config.save env.config_env cf cg c d).0 in
    let written : Config.save env.config_env cf cg c d ≡ (d1, none) =
      no_error (Config.save env.config_env cf cg c d)
        (ap (λ x. (Config.save env.config_env cf cg x d).1) (sym v) ∙ s) in
    let same : lookup p d' ≡ lookup p d1 =
      ap (lookup p) disk ∙ save_other env.bottles (some kc) p (share_path dir) sh f g d1 n m in
    (
      sh,
      fresh env (with_defaults st'.config) dir kc (some sh),
      u,
      load-lookup env.config_env none p d1 d' cp same
          ∙ load-save_config env.config_env cf cg c d d1 written
          ∙ ap (λ x. ok (with_defaults x)) (sym v),
      new-loaded env (with_defaults st'.config) dir kc d' sh q w l,
      refl,
      ap (λ x. x.wallet_id) v,
      refl,
    )
