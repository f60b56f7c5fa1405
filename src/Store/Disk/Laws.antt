-- ===== src/Store/Disk/Laws.antt =====
-- What was saved is loaded, and a crash never leaves half a share.
use Prim.Native.String
use clawdwallet.Base.{
  subst, sym, ◌∙◌, eq_refl, context-inv, ok-inv, context-ok, ℕ, ◌≡◌, refl, ap, ◌≢◌, ◌⊎◌, inl, inr,
  String, Option, none, some, List, [], ◌∷◌, Error, ok, arith, eq_iff, Result-cases,
}
use clawdwallet.Base.Maps.{lookup, insert, erase, lookup-insert, lookup-erase}
use clawdwallet.Store.Share.{Share}
use clawdwallet.Store.Disk.{
  WriteFault, unopened, partial, write_file, write_ops, run_ops, run_op, moves, Bottles, Disk,
  read_file, rename, tmp_path, first_of, first_signer, sealed, save, load, save_ops, Crash, stopped,
  amid, later,
}
use text.Mathlib.TextLemmas.{length-append}

tmp_path-ne : (path : String) → tmp_path path ≢ path
tmp_path-ne path h = omega (arith, ap String.count h, length-append path ".tmp")

lookup_tmp :
    (path : String) (part : List ℕ) (d : Disk)
    → lookup path (insert (tmp_path path) part d) ≡ lookup path d
lookup_tmp path part d = ground (
  arith,
  lookup-insert (tmp_path path) path part d,
  eq_iff path (tmp_path path),
  eq_iff (tmp_path path) path,
  tmp_path-ne path,
)

abbrev renamed : String → List ℕ → Disk → Disk
renamed path wire d = insert path wire (erase (tmp_path path) (insert (tmp_path path) wire d))

rename_lem :
    (path : String) (wire : List ℕ) (d : Disk)
    → rename (tmp_path path) path (insert (tmp_path path) wire d) ≡ ok (renamed path wire d)
rename_lem path wire d =
    rw (lookup-insert (tmp_path path) (tmp_path path) wire d, eq_refl (tmp_path path))

move_lem :
    (path : String) (wire : List ℕ) (d : Disk)
    → run_op none none (moves (tmp_path path) path) (insert (tmp_path path) wire d)
      ≡ (renamed path wire d, none)
unfolding run_op
move_lem path wire d = rw (rename_lem path wire d, run_op)

write_file_ok :
    (path : String) (wire : List ℕ) (d : Disk)
    → write_file path wire none none d ≡ (renamed path wire d, none)
unfolding write_file write_ops run_ops run_op
write_file_ok path wire d =
    rw (rename_lem path wire d, write_file, write_ops, run_ops, run_op)
      (ap (λ x. (x.0, none)) (move_lem path wire d))

pub write_file_done :
    (path : String) (wire : List ℕ) (f : Option WriteFault) (g : Option Error) (d d' : Disk)
    → write_file path wire f g d ≡ (d', none)
    → lookup path d' ≡ some wire
unfolding write_file write_ops run_ops run_op
write_file_done path wire (some (unopened x)) g d d' h = cc
write_file_done path wire (some (partial x part)) g d d' h = cc
write_file_done path wire none (some x) d d' h = cc
write_file_done path wire none none d d' h =
    let e : renamed path wire d ≡ d' = ap (λ x. x.0) (sym (write_file_ok path wire d) ∙ h) in
    ap (lookup path) (sym e)
    ∙ ground (
      arith,
      lookup-insert path path wire (erase (tmp_path path) (insert (tmp_path path) wire d)),
      eq_refl path,
    )

pub write_file_failed :
    (path : String) (wire : List ℕ) (f : Option WriteFault) (g : Option Error) (d d' : Disk)
    (x : Error)
    → write_file path wire f g d ≡ (d', some x)
    → lookup path d' ≡ lookup path d
unfolding write_file write_ops run_ops run_op
write_file_failed path wire (some (unopened y)) g d d' x h = cc
write_file_failed path wire (some (partial y part)) g d d' x h =
    let e : insert (tmp_path path) part d ≡ d' = cc in
    ap (lookup path) (sym e) ∙ lookup_tmp path part d
write_file_failed path wire none (some y) d d' x h =
    let e : insert (tmp_path path) wire d ≡ d' = cc in
    ap (lookup path) (sym e) ∙ lookup_tmp path wire d
write_file_failed path wire none none d d' x h =
    absurd (let z = sym (write_file_ok path wire d) ∙ h in cc)

-- Any other file stays.
write_file_other :
    (at path : String) (wire : List ℕ) (f : Option WriteFault) (g : Option Error) (d : Disk)
    → path ≢ at
    → tmp_path path ≢ at
    → lookup at (write_file path wire f g d).0 ≡ lookup at d
unfolding write_file write_ops run_ops run_op
write_file_other at path wire (some (unopened x)) g d p t = refl
write_file_other at path wire (some (partial x part)) g d p t =
    ground (arith, lookup-insert (tmp_path path) at part d, eq_iff (tmp_path path) at)
write_file_other at path wire none (some x) d p t =
    ground (arith, lookup-insert (tmp_path path) at wire d, eq_iff (tmp_path path) at)
write_file_other at path wire none none d p t =
    ap (λ x. lookup at x.0) (write_file_ok path wire d)
    ∙ (ground (
      arith,
      lookup-insert path at wire (erase (tmp_path path) (insert (tmp_path path) wire d)),
      lookup-erase (tmp_path path) at (insert (tmp_path path) wire d),
      lookup-insert (tmp_path path) at wire d,
      eq_iff path at,
      eq_iff (tmp_path path) at,
    ))

pub save_other :
    (bs : Bottles) (kc : Option bs.Keychain) (at path : String) (share : Share)
    (f : Option WriteFault) (g : Option Error) (d : Disk)
    → path ≢ at
    → tmp_path path ≢ at
    → lookup at (save bs kc path share f g d).0 ≡ lookup at d
unfolding save
save_other bs kc at path share f g d p t = elim (Result-cases (sealed bs kc share)) [
  | inr (x, e) ↦ rw (e, save)
  | inl (wire, e) ↦ rw (e, save) (write_file_other at path wire f g d p t)
]

saved_file :
    (bs : Bottles) (kc : Option bs.Keychain) (path : String) (share : Share) (f : Option WriteFault)
    (g : Option Error) (d d' : Disk)
    → save bs kc path share f g d ≡ (d', none)
    → (wire : List ℕ) × (sealed bs kc share ≡ ok wire) × (lookup path d' ≡ some wire)
unfolding save
saved_file bs kc path share f g d d' h = elim (Result-cases (sealed bs kc share)) [
  | inl (wire, e) ↦ (wire, e, write_file_done path wire f g d d' (rw (e, save) at h))
  | inr (x, e) ↦ ground (arith, e, h)
]

first_of_ok :
    (bs : Bottles) (l : List bs.Signer) (s : bs.Signer)
    → first_of bs l ≡ ok s
    → (rest : List bs.Signer) × (l ≡ s ∷ rest)
first_of_ok bs [] s h = cc
first_of_ok bs (y ∷ r) s h = (r, cc)

sealed-opens :
    (bs : Bottles) (kc : bs.Keychain) (share : Share) (wire : List ℕ)
    → sealed bs (some kc) share ≡ ok wire
    → (o : bs.Opener) × (body : List ℕ) × (bs.new_opener kc ≡ ok o)
      × (bs.open_cbor o wire ≡ ok body)
      × (bs.unmarshal_share body ≡ ok share)
unfolding sealed first_signer
sealed-opens bs kc share wire h =
    let (body, e1, h1) = context-inv _ _ _ _ h in
    let (s, e2, h2) = ok-inv _ _ _ h1 in
    let (a, e3, h3) = context-inv _ _ _ _ h2 in
    let (b, e4, h4) = context-inv _ _ _ _ h3 in
    let (c, e5, h5) = context-inv _ _ _ _ h4 in
    let (rest, e) = first_of_ok bs (bs.signers kc) s e2 in
    let (o, p, q) = bs.opens kc s rest body wire a b c e e3 e4 e5 (context-ok _ _ _ h5) in
    (o, body, p, q, bs.decodes share body e1)

-- If `Save` reports no error, `Load` with the same keychain gives the share that was saved.
pub load-save :
    (bs : Bottles) (kc : bs.Keychain) (path : String) (share : Share) (f : Option WriteFault)
    (g : Option Error) (d d' : Disk)
    → save bs (some kc) path share f g d ≡ (d', none)
    → load bs (some kc) path d' ≡ ok share
unfolding load
load-save bs kc path share f g d d' h =
    let (wire, e, l) = saved_file bs (some kc) path share f g d d' h in
    let (o, body, p, q, r) = sealed-opens bs kc share wire e in rw (read_file, l, p, q, r)

-- A `Save` that reports an error leaves what was under the path of the share.
pub save-failed :
    (bs : Bottles) (kc : Option bs.Keychain) (path : String) (share : Share) (f : Option WriteFault)
    (g : Option Error) (d d' : Disk) (x : Error)
    → save bs kc path share f g d ≡ (d', some x)
    → lookup path d' ≡ lookup path d
unfolding save
save-failed bs kc path share f g d d' x h = elim (Result-cases (sealed bs kc share)) [
  | inl (wire, e) ↦ write_file_failed path wire f g d d' x (rw (e, save) at h)
  | inr (y, e) ↦ let q = rw (e, save) at h in cc
]

moving_lookup :
    (path : String) (wire : List ℕ) (d d' : Disk)
    → Crash (moves (tmp_path path) path ∷ []) (insert (tmp_path path) wire d) d'
    → (lookup path d' ≡ lookup path d) ⊎ (lookup path d' ≡ some wire)
unfolding run_op
moving_lookup path wire d d' stopped = inl (lookup_tmp path wire d)
moving_lookup path wire d d' (later e stopped) =
    let r : renamed path wire d ≡ d' = ap (λ x. x.0) (sym (move_lem path wire d) ∙ e) in
    inr (
      ap (lookup path) (sym r)
      ∙ ground (
        arith,
        lookup-insert path path wire (erase (tmp_path path) (insert (tmp_path path) wire d)),
        eq_refl path,
      ))

Crash-lookup :
    (path : String) (wire : List ℕ) (d d' : Disk)
    → Crash (write_ops path wire) d d'
    → (lookup path d' ≡ lookup path d) ⊎ (lookup path d' ≡ some wire)
unfolding write_ops run_op
Crash-lookup path wire d d' stopped = inl refl
Crash-lookup path wire d d' (amid part) = inl (lookup_tmp path part d)
Crash-lookup path wire d d' (later {d' = e} h c) =
    let q : insert (tmp_path path) wire d ≡ e = cc in
    moving_lookup path wire d d'
      (subst (λ x. Crash (moves (tmp_path path) path ∷ []) x d') (sym q) c)

no_crash : (d d' : Disk) → Crash [] d d' → d ≡ d'
no_crash d d' stopped = refl

write_file-Crash :
    (path : String) (wire : List ℕ) (f : Option WriteFault) (g : Option Error) (d : Disk)
    → Crash (write_ops path wire) d (write_file path wire f g d).0
unfolding write_file write_ops run_ops run_op
write_file-Crash path wire (some (unopened x)) g d = stopped
write_file-Crash path wire (some (partial x part)) g d = amid part
write_file-Crash path wire none (some x) d = later refl stopped
write_file-Crash path wire none none d =
    subst (Crash (write_ops path wire) d) (ap (λ x. x.0) (sym (write_file_ok path wire d)))
      (later refl (later (move_lem path wire d) stopped))

-- Whatever moment of the calls of `Save` that change the disk the process stops at, the path
-- holds what it held before, or `Load` with the same keychain gives the share that was to be
-- saved; and a `Save` that ends, whichever of the calls fail, leaves one of these disks.
pub Crash-load :
    (bs : Bottles) (kc : bs.Keychain) (path : String) (share : Share) (f : Option WriteFault)
    (g : Option Error) (d d' : Disk)
    → Crash (save_ops bs (some kc) path share) d d'
    → ((lookup path d' ≡ lookup path d) ⊎ (load bs (some kc) path d' ≡ ok share))
      × Crash (save_ops bs (some kc) path share) d (save bs (some kc) path share f g d).0
unfolding save save_ops load
Crash-load bs kc path share f g d d' c = elim (Result-cases (sealed bs (some kc) share)) [
  | inr (x, e) ↦ (
    inl (ap (lookup path) (sym (no_crash d d' (rw (e, save_ops) at c)))),
    rw (e, save, save_ops) stopped,
  )
  | inl (wire, e) ↦ (
    elim (Crash-lookup path wire d d' (rw (e, save_ops) at c)) [
      | inl same ↦ inl same
      | inr l ↦
          let (o, body, p, q, r) = sealed-opens bs kc share wire e in
          inr (rw (read_file, l, p, q, r))
    ],
    rw (e, save, save_ops) (write_file-Crash path wire f g d),
  )
]
