-- ===== src/Base/Maps.antt =====
-- A Go map with text keys, as an association list: `insert` overwrites, `erase` is `delete`.
use clawdwallet.Base.Tests.{if◌then◌else◌}
use Prim.Native.String.{String}
use mathlib.Core.Path.{◌≡◌, refl}
use mathlib.Core.Bool.{Bool}
use mathlib.Core.Logic.{◌≢◌}
use mathlib.Core.List.{List, [], ◌∷◌}
use mathlib.Core.Option.{Option, none, some}
use native.Mathlib.Omega.{arith}
use text.Mathlib.Text.{◌==◌}
use text.Mathlib.TextEquality.{eq_iff}

abbrev pub Map {ℓ} : Type ℓ → Type ℓ
Map V = List (String × V)

module _ {ℓ} {V : Type ℓ} where
  unfoldable pub insert : String → V → Map V → Map V
  insert key new ((at, old) ∷ entries) =
      let rest = insert key new entries in
      if at == key then (key, new) ∷ entries else (at, old) ∷ rest
  insert key new [] = (key, new) ∷ []

  unfoldable pub erase : String → Map V → Map V
  erase key [] = []
  erase key ((at, old) ∷ entries) =
      let rest = erase key entries in if at == key then rest else (at, old) ∷ rest

  unfoldable pub lookup : String → Map V → Option V
  lookup key ((at, old) ∷ entries) =
      let rest = lookup key entries in if at == key then some old else rest
  lookup key [] = none

  pub lookup-insert :
      (put_at key : String) (new : V) (entries : Map V)
      → lookup key (insert put_at new entries)
        ≡ (if put_at == key then some new else lookup key entries)
  unfolding lookup insert
  lookup-insert put_at key new [] = refl
  lookup-insert put_at key new ((at, old) ∷ entries) = ground (
    arith,
    eq_iff put_at key,
    eq_iff at put_at,
    eq_iff at key,
    lookup-insert put_at key new entries,
  )

  pub lookup-erase :
      (put_at key : String) (entries : Map V)
      → lookup key (erase put_at entries) ≡ (if put_at == key then none else lookup key entries)
  unfolding lookup erase
  lookup-erase put_at key [] = ground (arith, eq_iff put_at key)
  lookup-erase put_at key ((at, old) ∷ entries) =
      ground
        (arith, eq_iff put_at key, eq_iff at put_at, eq_iff at key, lookup-erase put_at key entries)

  -- A loop that deletes the entries that fail a test.
  unfoldable pub keep_if : (V → Bool) → Map V → Map V
  keep_if p [] = []
  keep_if p ((j, w) ∷ m) = let rest = keep_if p m in if p w then (j, w) ∷ rest else rest

  abbrev pub NotKey : String → Map V → Type 0
  NotKey k [] = Unit {0}
  NotKey k ((j, w) ∷ m) = (j ≢ k) × NotKey k m

  -- A Go map has a key once.
  abbrev pub HasUniqueKeys : Map V → Type 0
  HasUniqueKeys [] = Unit {0}
  HasUniqueKeys ((j, w) ∷ m) = NotKey j m × HasUniqueKeys m

  NotKey-insert : (i k : String) (v : V) (m : Map V) → k ≢ i → NotKey i m → NotKey i (insert k v m)
  unfolding insert
  NotKey-insert i k v [] ne h = (ne, tt)
  NotKey-insert i k v ((j, w) ∷ m) ne h = ground (arith, eq_iff j k, NotKey-insert i k v m ne h.1)

  pub HasUniqueKeys-insert :
      (k : String) (v : V) (m : Map V) → HasUniqueKeys m → HasUniqueKeys (insert k v m)
  unfolding insert
  HasUniqueKeys-insert k v [] h = (tt, tt)
  HasUniqueKeys-insert k v ((j, w) ∷ m) h =
      ground (arith, eq_iff j k, NotKey-insert j k v m, HasUniqueKeys-insert k v m h.1)

  NotKey-keep_if : (i : String) (p : V → Bool) (m : Map V) → NotKey i m → NotKey i (keep_if p m)
  unfolding keep_if
  NotKey-keep_if i p [] h = tt
  NotKey-keep_if i p ((j, w) ∷ m) h = ground (arith, NotKey-keep_if i p m h.1)

  pub HasUniqueKeys-keep_if :
      (p : V → Bool) (m : Map V) → HasUniqueKeys m → HasUniqueKeys (keep_if p m)
  unfolding keep_if
  HasUniqueKeys-keep_if p [] h = tt
  HasUniqueKeys-keep_if p ((j, w) ∷ m) h =
      ground (arith, NotKey-keep_if j p m h.0, HasUniqueKeys-keep_if p m h.1)

  lookup-NotKey : (k : String) (m : Map V) → NotKey k m → lookup k m ≡ none
  unfolding lookup
  lookup-NotKey k [] h = refl
  lookup-NotKey k ((j, w) ∷ m) h = ground (arith, eq_iff j k, lookup-NotKey k m h.1)

  pub lookup-keep_if :
      (k : String) (p : V → Bool) (m : Map V)
      → HasUniqueKeys m
      → lookup k (keep_if p m)
        ≡ elim (lookup k m) [ none ↦ none | some v ↦ if p v then some v else none ]
  unfolding lookup keep_if
  lookup-keep_if k p [] h = refl
  lookup-keep_if k p ((j, w) ∷ m) h =
      ground (arith, eq_iff j k, lookup-NotKey j m h.0, lookup-keep_if k p m h.1)

  NotKey-erase : (i k : String) (m : Map V) → NotKey i m → NotKey i (erase k m)
  unfolding erase
  NotKey-erase i k [] h = tt
  NotKey-erase i k ((j, w) ∷ m) h = ground (arith, NotKey-erase i k m h.1)

  pub HasUniqueKeys-erase : (k : String) (m : Map V) → HasUniqueKeys m → HasUniqueKeys (erase k m)
  unfolding erase
  HasUniqueKeys-erase k [] h = tt
  HasUniqueKeys-erase k ((j, w) ∷ m) h =
      ground (arith, NotKey-erase j k m h.0, HasUniqueKeys-erase k m h.1)
