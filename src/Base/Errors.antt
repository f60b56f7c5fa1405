-- ===== src/Base/Errors.antt =====
-- Go's `error` values and `(value, error)` results. An error keeps the text that the code gives it:
-- `errors.New(t)` is `message t`, `fmt.Errorf` of a format and one text is `about t x`, of a format and
-- numbers `counted t ns`, and of a format that ends in `%w` it is `wrap t e`.
use clawdwallet.Base.Machine.{ℤ}
use Prim.Native.String.{String}
use mathlib.Core.Path.{◌≡◌, refl}
use mathlib.Core.List.{List}
use mathlib.Core.Option.{Option, none, some}
use mathlib.Core.Bool.{Bool, true, false}
use mathlib.Core.Logic.{◌⊎◌, inl, inr}

pub data Error : Type 0 where
  message : String → Error
  about : String → String → Error
  counted : String → List ℤ → Error
  wrap : String → Error → Error

-- What a call returns: an error, or a value beside a nil error.
pub data Result {ℓ} (V : Type ℓ) : Type ℓ where
  err : Error → Result V
  ok : V → Result V

-- `if cond { return err }`
abbrev pub fail_if : Bool → Error → Result (Unit {0})
fail_if true e = err e
fail_if false e = ok tt

-- `if err != nil { return err }` of an error that comes alone.
abbrev pub return_if : Option Error → Result (Unit {0})
return_if none = ok tt
return_if (some e) = err e

-- The early return of `if err != nil`.
infixl 5 ◌>>=◌
abbrev pub ◌>>=◌ {ℓ κ} : {V : Type ℓ} {W : Type κ} → Result V → (V → Result W) → Result W
err e >>= next = err e
ok v >>= next = next v

infixl 5 ◌>>◌
abbrev pub ◌>>◌ {κ} : {W : Type κ} → Result (Unit {0}) → Result W → Result W
guard >> next = guard >>= λ _. next

-- `fmt.Errorf("t: %w", err)` on the error path
abbrev pub context {ℓ} : {A : Type ℓ} → String → Result A → Result A
context t (ok a) = ok a
context t (err e) = err (wrap t e)

pub Result-cases {ℓ} :
    {A : Type ℓ} (r : Result A) → ((a : A) × (r ≡ ok a)) ⊎ ((e : Error) × (r ≡ err e))
Result-cases (ok a) = inl (a, refl)
Result-cases (err e) = inr (e, refl)

-- A chain that returns a value has the value of its first call.
pub context-inv {ℓ κ} :
    {A : Type ℓ} {B : Type κ} (t : String) (r : Result A) (f : A → Result B) (b : B)
    → (context t r >>= f) ≡ ok b
    → (a : A) × (r ≡ ok a) × (f a ≡ ok b)
context-inv t (ok a) f b h = (a, refl, h)
context-inv t (err e) f b h = cc

pub ok-inv {ℓ κ} :
    {A : Type ℓ} {B : Type κ} (r : Result A) (f : A → Result B) (b : B)
    → (r >>= f) ≡ ok b
    → (a : A) × (r ≡ ok a) × (f a ≡ ok b)
ok-inv (ok a) f b h = (a, refl, h)
ok-inv (err e) f b h = cc

pub context-ok {ℓ} :
    {A : Type ℓ} (t : String) (r : Result A) (a : A) → context t r ≡ ok a → r ≡ ok a
context-ok t (ok x) a h = h
context-ok t (err e) a h = cc

pub fail_if-inv {ℓ} :
    {B : Type ℓ} (b : Bool) (e : Error) (k : Result B) (v : B)
    → (fail_if b e >> k) ≡ ok v
    → (b ≡ false) × (k ≡ ok v)
fail_if-inv true e k v h = cc
fail_if-inv false e k v h = (refl, h)

-- A result and an error, each known.
pub pair_eq {ℓ κ} :
    {A : Type ℓ} {B : Type κ} (p : A × B) {a : A} {b : B} → p.0 ≡ a → p.1 ≡ b → p ≡ (a, b)
pair_eq (x, y) h k = cc
