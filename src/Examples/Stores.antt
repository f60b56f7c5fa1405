-- ===== src/Examples/Stores.antt =====
-- A share that is sealed by adding a byte, and saved.
use clawdwallet.Base.{
  ◌≡◌, ◌⊎◌, refl, ap, none, some, [], ◌∷◌, Error, ok, message, arith, String, eq_iff, false,
}
use clawdwallet.Base.Maps.{lookup, insert, erase}
use clawdwallet.Store.Share.{Share, solana_address_bytes}
use clawdwallet.Store.Point.{ed_point_bytes}
use clawdwallet.Store.Disk.{
  Disk, save, load, sealed, first_signer, write_file, tmp_path, save_ops, write_ops, run_op, Crash,
  stopped, later,
}
use clawdwallet.Store.Disk.Laws.{load-save, save-failed, Crash-load}
use clawdwallet.Agent.Party.{PartyId, contains_spot_id, find_my_party_id, sorted_party_ids, key_int}
use clawdwallet.Agent.Session.{Sessions, InitPayload}
use clawdwallet.Agent.Transfer.{share_key_for}
use clawdwallet.Agent.Keygen.{KeygenEnv, run_keygen}
use clawdwallet.Agent.Keygen.Join.{Joined, Kept, set_share, join_keygen, saved, named_by}
use clawdwallet.Agent.Runtime.{RuntimeEnv, Agent, new}
use clawdwallet.Agent.Runtime.Restart.{restarted}
use clawdwallet.Config
use clawdwallet.Config.{Config}
use clawdwallet.Config.Laws.{with_defaults}
use clawdwallet.Encoding.FilePath.{join}
use clawdwallet.Examples.Configs.{
  tidy, config_env, config_path, config_disk, config_saved, dir_ok, path_ok,
}
use clawdwallet.Agent.Keygen.Saved.{run_keygen-key_int, join_keygen-load}
use clawdwallet.Examples.KeyTexts.{key_text}
use clawdwallet.Examples.World.{share, bottles, keychain, marshal_ok, libraries, keygen_env, init}

abbrev disk : Disk
disk = ("old", 1 ∷ []) ∷ []

abbrev disk' : Disk
disk' = insert "share" (0 ∷ []) (erase (tmp_path "share") (insert (tmp_path "share") (0 ∷ []) disk))

sealed_ok : sealed bottles (some keychain) share ≡ ok (0 ∷ [])
unfolding sealed first_signer bottles
sealed_ok = rw marshal_ok

saved_ok : save bottles (some keychain) "share" share none none disk ≡ (disk', none)
unfolding save write_file write_ops clawdwallet.Store.Disk.run_ops run_op lookup insert
saved_ok = rw (sealed_ok, save)

load-save_example : load bottles (some keychain) "share" disk' ≡ ok share
load-save_example = load-save bottles keychain "share" share none none disk disk' saved_ok

abbrev fault : Error
fault = message "disk full"

failed :
    save bottles (some keychain) "share" share none (some fault) disk
    ≡ (insert (tmp_path "share") (0 ∷ []) disk, some fault)
unfolding save write_file write_ops clawdwallet.Store.Disk.run_ops run_op
failed = rw (sealed_ok, save)

save-failed_example : lookup "share" (insert (tmp_path "share") (0 ∷ []) disk) ≡ lookup "share" disk
save-failed_example =
    save-failed bottles (some keychain) "share" share none (some fault) disk
      (insert (tmp_path "share") (0 ∷ []) disk) fault failed

-- The process stops between the two calls.
written :
    Crash
      (save_ops bottles (some keychain) "share" share)
      disk
      (insert (tmp_path "share") (0 ∷ []) disk)
unfolding save_ops write_ops run_op
written = rw (sealed_ok, save_ops) (later refl stopped)

Crash-load_example :
    ((lookup "share" (insert (tmp_path "share") (0 ∷ []) disk) ≡ lookup "share" disk)
      ⊎ (load bottles (some keychain) "share" (insert (tmp_path "share") (0 ∷ []) disk) ≡ ok share))
    × Crash
        (save_ops bottles (some keychain) "share" share)
        disk
        (save bottles (some keychain) "share" share none none disk).0
Crash-load_example =
    Crash-load bottles keychain "share" share none none disk
      (insert (tmp_path "share") (0 ∷ []) disk) written

made : run_keygen keygen_env "a" "s" init [] ≡ ([], ok (some share))
unfolding run_keygen keygen_env libraries clawdwallet.Agent.Protocol.resolve_curve_protocol
    find_my_party_id sorted_party_ids clawdwallet.Agent.Party.party_id_from_peer key_int
    clawdwallet.Encoding.Base64.decode_raw_url clawdwallet.Encoding.Base64.decode_raw
    clawdwallet.Encoding.Base64.skip_newlines clawdwallet.Encoding.Base64.sextet_value
    clawdwallet.Encoding.BigInt.set_bytes clawdwallet.Agent.Party.party_key
    clawdwallet.Agent.Session.drop clawdwallet.Agent.Keygen.run_keygen_frost erase
    clawdwallet.Agent.Keygen.kept clawdwallet.Agent.Session.put
    clawdwallet.Agent.Keygen.save_frost_share insert clawdwallet.Agent.Keygen.wallet_id_or_sid
    clawdwallet.Agent.Party.shared_peer_keys clawdwallet.Agent.Party.shared_peer_spot_ids
made = refl

abbrev party_b : PartyId
party_b = record { id = "b"; moniker = "m"; key_int = 1 }

slotted : find_my_party_id (sorted_party_ids libraries init.peers) "b" ≡ some party_b
unfolding find_my_party_id sorted_party_ids libraries clawdwallet.Agent.Party.party_id_from_peer
    key_int clawdwallet.Encoding.Base64.decode_raw_url clawdwallet.Encoding.Base64.decode_raw
    clawdwallet.Encoding.Base64.skip_newlines clawdwallet.Encoding.Base64.sextet_value
    clawdwallet.Encoding.BigInt.set_bytes clawdwallet.Agent.Party.party_key
slotted = refl

run_keygen-key_int_example :
    key_int libraries
      (record { spot_id = "b"; moniker = "peer"; key = share_key_for (some share) "b" })
    ≡ 1
unfolding keygen_env libraries
run_keygen-key_int_example =
    run_keygen-key_int keygen_env "s" init "a" "b" "peer" [] share party_b (ap (λ x. x.1) made)
      slotted (omega arith)

-- The config after the key generation, and the share's file in the directory `/h`.
abbrev pub named : Config
named = record tidy { wallet_id = "crws:w" }

abbrev pub share_file : String
share_file = "/h/share.bottle"

abbrev old : Kept
old = record { share = none; config = tidy }

abbrev now : Kept
now = record { share = some share; config = named }

abbrev pub both : Disk
both = (config_path, 7 ∷ []) ∷ (share_file, 0 ∷ []) ∷ []

saved_beside : save bottles (some keychain) share_file share none none config_disk ≡ (both, none)
unfolding save write_file write_ops clawdwallet.Store.Disk.run_ops run_op lookup insert erase
saved_beside = rw (sealed_ok, save)

with_sessions :
    {r : Sessions}
    → r ≡ []
    → ◌≡◌ {A = Sessions × Kept × Disk × Joined}
        (r, now, both, saved none)
        ([], now, both, saved none)
with_sessions e = rw e

joined :
    join_keygen bottles
      (some keychain)
      share_file
      none
      none
      keygen_env
      key_text
      (config_env named)
      none
      none
      "a"
      "s"
      init
      []
      old
      []
    ≡ ([], now, both, saved none)
unfolding join_keygen set_share contains_spot_id solana_address_bytes ed_point_bytes
joined =
    rw (made, config_saved named, saved_beside, join_keygen, set_share)
      (with_sessions (ap (λ x. x.0) made))

join_keygen-load_example :
    (sh : Share) × (now.share ≡ some sh)
    × (now.config ≡ named_by key_text sh tidy)
    × (load bottles (some keychain) share_file both ≡ ok sh)
join_keygen-load_example =
    join_keygen-load bottles keychain share_file none none keygen_env key_text (config_env named)
      none none "a" "s" init [] [] old now [] both joined

-- The process around it.
abbrev runtime : RuntimeEnv
runtime = record {
  bottles = bottles;
  config_env = config_env named;
  key_text = key_text;
  new_disk_store = λ _. ok keychain;
  connect = λ _. ok "a";
}

restarted_example :
    (sh : Share) × (a : Agent runtime) × (now.share ≡ some sh)
    × (Config.load (config_env named) none both ≡ ok (with_defaults named))
    × (new runtime (some (with_defaults named)) both ≡ ok a)
    × (a.share ≡ some sh)
    × (a.config.wallet_id ≡ sh.wallet_id)
    × (a.locked ≡ false)
unfolding join
restarted_example =
    restarted runtime "/h" config_path keychain none none none none keygen_env "a" "s" init [] []
      old now [] both (dir_ok named) refl (path_ok named)
      (ground (arith, eq_iff share_file config_path))
      (ground (arith, eq_iff (tmp_path share_file) config_path)) joined
      (ap (λ x. x.1) (config_saved named))
