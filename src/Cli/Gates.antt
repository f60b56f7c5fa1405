-- ===== src/Cli/Gates.antt =====
-- Which commands can be reached.
use clawdwallet.Base.{
  ◌≡◌, inl, inr, String, Bool, true, false, Option, none, some, List, ◌∷◌, Error, about, arith,
  str_eq, if◌then◌else◌, Option-cases, ◌&&◌, not, sym,
}
use clawdwallet.Base.Maps.{Map, lookup, lookup-insert}
use clawdwallet.Cli.{
  Command, Bodies, Enabled, commands, register, register_if, dispatch, is_help, run_sign_dev,
  run_reshare,
}

-- The body that stands behind a name. The four commands of the second stage, `x402`, `sign`,
-- `reshare` and `mcp`, have one only where their variable is set.
abbrev is_set : String → Bool
is_set var = not (str_eq var "")

unfoldable pub body_of : Bodies → Enabled → String → Option (List String → Option Error)
body_of b e name =
    if str_eq "x402" name && is_set e.x402
    then some b.x402
    else if str_eq "status" name
    then some b.status
    else if str_eq "sign" name && is_set e.raw_sign
    then some run_sign_dev
    else if str_eq "send" name
    then some b.send
    else if str_eq "reshare" name && is_set e.reshare
    then some run_reshare
    else if str_eq "pair" name
    then some b.pair
    else if str_eq "mcp" name && is_set e.mcp
    then some b.mcp
    else if str_eq "keygen" name
    then some b.keygen
    else if str_eq "init" name
    then some b.init
    else if str_eq "daemon" name
    then some b.daemon
    else if str_eq "balance" name
    then some b.balance
    else none

-- The body of what a map has under a name.
abbrev found : Option Command → Option (List String → Option Error)
found none = none
found (some c) = some c.run

found-register :
    (c : Command) (name : String) (m : Map Command)
    → found (lookup name (register c m))
      ≡ (if str_eq c.name name then some c.run else found (lookup name m))
unfolding register
found-register c name m = ground (arith, lookup-insert c.name name c m)

found-register_if :
    (var : String) (c : Command) (name : String) (m : Map Command)
    → found (lookup name (register_if var c m))
      ≡ (if str_eq c.name name && is_set var then some c.run else found (lookup name m))
found-register_if var c name m = ground (arith, found-register c name m)

found-commands :
    (b : Bodies) (e : Enabled) (name : String)
    → found (lookup name (commands b e)) ≡ body_of b e name
unfolding commands body_of lookup
found-commands b e name = simp (found-register_if, found-register)

-- A first argument that does not ask for help runs the command of that name with the other
-- arguments, and is an unknown command, with the usage printed, where there is none; the four
-- commands of the second stage are there only where their variable is set.
pub dispatch-body_of :
    (b : Bodies) (e : Enabled) (name : String) (args : List String)
    → is_help name ≡ false
    → dispatch (commands b e) (name ∷ args) ≡ elim (body_of b e name) [
      | none ↦ (true, some (about "unknown command %q" name))
      | some run ↦ (false, run args)
    ]
unfolding dispatch
dispatch-body_of b e name args h = elim (Option-cases (lookup name (commands b e))) [
  | inl q ↦ rw (h, sym (found-commands b e name), q)
  | inr (c, q) ↦ rw (h, sym (found-commands b e name), q)
]
