-- ===== src/Store/Disk.antt =====
-- `Store.Save` and `Store.Load` of store/store.go over a disk. A call of the disk may fail, and the
-- process may stop between any two writes.
pub mod Laws
use Prim.Native.String
use clawdwallet.Base.{
  ℕ, String, Bool, true, false, Option, none, some, List, [], ◌∷◌, ◌++◌, Error, Result, ok, err,
  message, context, ◌>>=◌, ◌>>◌, ◌≡◌,
}
use clawdwallet.Base.Maps.{Map, lookup, insert, erase}
use clawdwallet.Store.Share.{Share}

-- What the store uses of gobottle, cbor and the JSON of a share. A bottle that the first signer of a
-- keychain made for itself opens with that keychain to what was put in.
pub record Bottles : Type 1 where
  pub Keychain : Type 0
  pub Signer : Type 0
  pub Bottle : Type 0
  pub Opener : Type 0
  pub signers : Keychain → List Signer
  pub new_bottle : List ℕ → Bottle
  pub encrypt : Signer → Bottle → Result Bottle
  pub bottle_up : Bottle → Result Bottle
  pub sign : Signer → Bottle → Result Bottle
  pub to_cbor : Bottle → Result (List ℕ)
  pub new_opener : Keychain → Result Opener
  pub open_cbor : Opener → List ℕ → Result (List ℕ)
  pub marshal_share : Share → Result (List ℕ)
  pub unmarshal_share : List ℕ → Result Share
  pub opens :
      (kc : Keychain) (s : Signer) (rest : List Signer) (body wire : List ℕ) (a b c : Bottle)
      → signers kc ≡ s ∷ rest
      → encrypt s (new_bottle body) ≡ ok a
      → bottle_up a ≡ ok b
      → sign s b ≡ ok c
      → to_cbor c ≡ ok wire
      → (o : Opener) × (new_opener kc ≡ ok o) × (open_cbor o wire ≡ ok body)
  pub decodes :
      (sh : Share) (body : List ℕ) → marshal_share sh ≡ ok body → unmarshal_share body ≡ ok sh

-- Files by their path.
abbrev pub Disk : Type 0
Disk = Map (List ℕ)

abbrev pub error_not_exist : Error
error_not_exist = message "file does not exist"

abbrev pub read_file : String → Disk → Result (List ℕ)
read_file path d = elim (lookup path d) [ none ↦ err error_not_exist | some raw ↦ ok raw ]

-- `os.Rename` moves a file over another in one step.
abbrev rename_found : String → String → Disk → Option (List ℕ) → Result Disk
rename_found old new d none = err error_not_exist
rename_found old new d (some raw) = ok (insert new raw (erase old d))

abbrev pub rename : String → String → Disk → Result Disk
rename old new d = rename_found old new d (lookup old d)

abbrev pub tmp_path : String → String
tmp_path path = String.◌++◌ path ".tmp"

-- How `os.WriteFile` fails: before the file is opened, or with part of it written.
pub data WriteFault : Type 0 where
  unopened : Error → WriteFault
  partial : Error → List ℕ → WriteFault

-- A call that changes the disk: `os.WriteFile` and `os.Rename`.
pub data DiskOp : Type 0 where
  writes : String → List ℕ → DiskOp
  moves : String → String → DiskOp

-- A call, with the disk's answer to it: `some` fault where the call fails.
unfoldable pub run_op : Option WriteFault → Option Error → DiskOp → Disk → Disk × Option Error
run_op (some (unopened e)) rename_fault (writes path bytes) d = (d, some e)
run_op (some (partial e part)) rename_fault (writes path bytes) d = (insert path part d, some e)
run_op none rename_fault (writes path bytes) d = (insert path bytes d, none)
run_op write_fault (some e) (moves old new) d = (d, some e)
run_op write_fault none (moves old new) d = elim (rename old new d) [
  | err e ↦ (d, some e)
  | ok renamed ↦ (renamed, none)
]

-- The calls in their order, up to the first that fails.
unfoldable pub run_ops : Option WriteFault → Option Error → List DiskOp → Disk → Disk × Option Error
run_ops write_fault rename_fault [] d = (d, none)
run_ops write_fault rename_fault (op ∷ ops) d =
    let (d', failed) = run_op write_fault rename_fault op d in
    elim failed [ some e ↦ (d', some e) | none ↦ run_ops write_fault rename_fault ops d' ]

-- The temporary file is written, and moved over the path.
unfoldable pub write_ops : String → List ℕ → List DiskOp
write_ops path wire = writes (tmp_path path) wire ∷ moves (tmp_path path) path ∷ []

unfoldable pub write_file :
    String → List ℕ → Option WriteFault → Option Error → Disk → Disk × Option Error
write_file path wire write_fault rename_fault d =
    run_ops write_fault rename_fault (write_ops path wire) d

module _ (bs : Bottles) where
  open bs use {
    Keychain, Signer, Bottle, signers, new_bottle, encrypt, bottle_up, sign, to_cbor, new_opener,
    open_cbor, marshal_share, unmarshal_share,
  }

  abbrev pub first_of : List Signer → Result Signer
  first_of [] = err (message "store: keychain has no signers")
  first_of (s ∷ rest) = ok s

  unfoldable pub first_signer : Keychain → Result Signer
  first_signer kc = first_of (signers kc)

  -- The part of `Save` that makes the bytes; the keychain is a pointer.
  unfoldable pub sealed : Option Keychain → Share → Result (List ℕ)
  unfolding first_signer
  sealed none share = err (message "store: nil keychain")
  sealed (some kc) share = do
    body ← context "marshal share" (marshal_share share)
    s ← first_signer kc
    a ← context "encrypt" (encrypt s (new_bottle body))
    b ← context "bottle up" (bottle_up a)
    c ← context "sign" (sign s b)
    context "cbor encode" (to_cbor c)

  unfoldable pub save :
      Option Keychain
      → String
      → Share
      → Option WriteFault
      → Option Error
      → Disk
      → Disk × Option Error
  save kc path share write_fault rename_fault d = elim (sealed kc share) [
    | err e ↦ (d, some e)
    | ok wire ↦ write_file path wire write_fault rename_fault d
  ]

  -- The calls of `Save` that change the disk.
  unfoldable pub save_ops : Option Keychain → String → Share → List DiskOp
  save_ops kc path share = elim (sealed kc share) [ err e ↦ [] | ok wire ↦ write_ops path wire ]

  unfoldable pub load : Option Keychain → String → Disk → Result Share
  load none path d = err (message "store: nil keychain")
  load (some kc) path d = do
    raw ← read_file path d
    o ← context "opener" (new_opener kc)
    body ← context "open bottle" (open_cbor o raw)
    context "decode share" (unmarshal_share body)

-- `os.Stat` finds the file.
unfoldable pub has : String → Disk → Bool
has path d = elim (lookup path d) [ none ↦ false | some _ ↦ true ]

-- The disks that are left when the process stops during some calls: before one of them, amid a write
-- with any bytes in its file, or after the last.
pub data Crash : List DiskOp → Disk → Disk → Type 0 where
  stopped : {ops : List DiskOp} {d : Disk} → Crash ops d d
  amid :
      {path : String} {bytes : List ℕ} {ops : List DiskOp} {d : Disk} (part : List ℕ)
      → Crash (writes path bytes ∷ ops) d (insert path part d)
  later :
      {op : DiskOp} {ops : List DiskOp} {d d' d'' : Disk}
      → run_op none none op d ≡ (d', none)
      → Crash ops d' d''
      → Crash (op ∷ ops) d d''
