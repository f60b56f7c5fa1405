-- ===== src/Mcp/Serve.antt =====
-- The loop of `Serve` in mcp/mcp.go that reads lines, and `write`.
use clawdwallet.Base.{
  ℕ, zero, suc, ◌<◌, ◌≡◌, refl, ap, sym, ◌∙◌, ◌≢◌, inl, inr, Bool, true, false, Bool-cases, ◌⊎◌,
  Option, none, some, List, [], ◌∷◌, ◌++◌, Error, Result, ok, err, arith, length, ◌==◌,
  if◌then◌else◌,
}
use mathlib.Core.List.{append-nil}
use clawdwallet.Mcp.{RpcResponse}

abbrev pub newline : ℕ
newline = 10

-- `ReadBytes('\n')`: the bytes up to a newline and with it, what is left, and whether there was one.
unfoldable pub read_bytes : List ℕ → List ℕ × List ℕ × Bool
read_bytes [] = ([], [], false)
read_bytes (c ∷ cs) =
    let (line, rest, found) = read_bytes cs in
    if c == newline then (c ∷ [], cs, true) else (c ∷ line, rest, found)

-- The lines that are handed to `handle`, each in a goroutine of its own, and what `Serve` returns. The
-- input ends with `last`, `none` for `io.EOF`. The outer `none` means that the fuel ran out.
unfoldable pub serve : ℕ → List ℕ → Option Error → Option (List (List ℕ) × Option Error)
serve zero input last = none
serve (suc fuel) input last =
    let (line, rest, found) = read_bytes input in
    let more = serve fuel rest last in
    if found
    then elim more [ none ↦ none | some (lines, e) ↦ some (line ∷ lines, e) ]
    else elim line [ [] ↦ some ([], last) | c ∷ cs ↦ some ((c ∷ cs) ∷ [], last) ]

-- The output after a response: a line, whole, since the mutex is held; nothing where it cannot be
-- encoded.
unfoldable pub write :
    {V : Type 0} → (RpcResponse V → Result (List ℕ)) → RpcResponse V → List ℕ → List ℕ
write marshal resp out = elim (marshal resp) [ err e ↦ out | ok b ↦ out ++ (b ++ (newline ∷ [])) ]

abbrev pub concat : List (List ℕ) → List ℕ
concat [] = []
concat (l ∷ ls) = l ++ concat ls

read_bytes-append : (input : List ℕ) → (read_bytes input).0 ++ (read_bytes input).1 ≡ input
unfolding read_bytes
read_bytes-append [] = refl
read_bytes-append (c ∷ cs) = ground (arith, read_bytes-append cs)

-- A line that was found has a byte, so that less is left; where none was found nothing is left.
read_bytes-found :
    (input : List ℕ)
    → (read_bytes input).2 ≡ true
    → ((read_bytes input).0 ≢ []) × (length (read_bytes input).1 < length input)
unfolding read_bytes
read_bytes-found [] h = cc
read_bytes-found (c ∷ cs) h = ground (arith, read_bytes-found cs)

read_bytes-rest : (input : List ℕ) → (read_bytes input).2 ≡ false → (read_bytes input).1 ≡ []
unfolding read_bytes
read_bytes-rest [] h = refl
read_bytes-rest (c ∷ cs) h = ground (arith, read_bytes-rest cs)

read_bytes-whole : (input : List ℕ) → (read_bytes input).2 ≡ false → (read_bytes input).0 ≡ input
read_bytes-whole input h =
    sym (append-nil (read_bytes input).0)
    ∙ ap (λ x. (read_bytes input).0 ++ x) (sym (read_bytes-rest input h))
    ∙ read_bytes-append input

-- A line is not empty and has no newline before its last byte.
abbrev pub IsLine : List ℕ → Type 0
IsLine [] = ⊥
IsLine (c ∷ []) = Unit {0}
IsLine (c ∷ d ∷ r) = (c ≢ newline) × IsLine (d ∷ r)

abbrev pub IsEnded : List ℕ → Type 0
IsEnded [] = ⊥
IsEnded (c ∷ []) = c ≡ newline
IsEnded (c ∷ d ∷ r) = IsEnded (d ∷ r)

-- Lines of which only the last may lack its newline.
abbrev pub AreLines : List (List ℕ) → Type 0
AreLines [] = Unit {0}
AreLines (l ∷ []) = IsLine l
AreLines (l ∷ m ∷ ls) = IsLine l × IsEnded l × AreLines (m ∷ ls)

IsLine-cons : (c : ℕ) (l : List ℕ) → c ≢ newline → (l ≡ []) ⊎ IsLine l → IsLine (c ∷ l)
IsLine-cons c [] n h = tt
IsLine-cons c (d ∷ r) n (inl e) = cc
IsLine-cons c (d ∷ r) n (inr h) = (n, h)

IsEnded-cons : (c : ℕ) (l : List ℕ) → IsEnded l → IsEnded (c ∷ l)
IsEnded-cons c [] h = elim h [ ]
IsEnded-cons c (d ∷ r) h = h

read_bytes-IsLine : (input : List ℕ) → ((read_bytes input).0 ≡ []) ⊎ IsLine (read_bytes input).0
unfolding read_bytes
read_bytes-IsLine [] = inl refl
read_bytes-IsLine (c ∷ cs) = elim (Bool-cases (c == newline)) [
  | inl q ↦ rw q (inr tt)
  | inr q ↦
      rw q
        (inr (IsLine-cons c (read_bytes cs).0 (λ e. ground (arith, q, e)) (read_bytes-IsLine cs)))
]

read_bytes-IsEnded : (input : List ℕ) → (read_bytes input).2 ≡ true → IsEnded (read_bytes input).0
unfolding read_bytes
read_bytes-IsEnded [] h = cc
read_bytes-IsEnded (c ∷ cs) h = elim (Bool-cases (c == newline)) [
  | inl q ↦ rw q (ground (arith, q))
  | inr q ↦ rw q (IsEnded-cons c (read_bytes cs).0 (read_bytes-IsEnded cs (rw q at h)))
]

AreLines-cons :
    (l : List ℕ) (ls : List (List ℕ)) → IsLine l → IsEnded l → AreLines ls → AreLines (l ∷ ls)
AreLines-cons l [] h e hs = h
AreLines-cons l (m ∷ ls) h e hs = (h, e, hs)

-- What the loop makes of an input: all of it is cut into lines.
abbrev pub Served : List ℕ → Option Error → List (List ℕ) × Option Error → Type 0
Served input last (lines, e) = (concat lines ≡ input) × AreLines lines × (e ≡ last)

last_line :
    (line : List ℕ) (last : Option Error)
    → (line ≡ []) ⊎ IsLine line
    → (r : List (List ℕ) × Option Error) × (◌≡◌ {A = Option (List (List ℕ) × Option Error)}
        (elim line [ [] ↦ some ([], last) | c ∷ cs ↦ some ((c ∷ cs) ∷ [], last) ])
        (some r))
      × Served line last r
last_line [] last h = (([], last), refl, (refl, tt, refl))
last_line (c ∷ cs) last (inl e) = cc
last_line (c ∷ cs) last (inr h) = (((c ∷ cs) ∷ [], last), refl, (append-nil (c ∷ cs), h, refl))

-- With more fuel than bytes the loop ends; it hands on all of the input, in order, in pieces that
-- are not empty, have a newline at their end only, and of which only the last may lack it; and it
-- returns what ended the input.
pub serve-Served :
    (fuel : ℕ) (input : List ℕ) (last : Option Error)
    → length input < fuel
    → (r : List (List ℕ) × Option Error) × (serve fuel input last ≡ some r) × Served input last r
unfolding serve
serve-Served zero input last h = elim h [ ]
serve-Served (suc fuel) input last h = elim (Bool-cases (read_bytes input).2) [
  | inl q ↦
      let (n, less) = read_bytes-found input q in
      let (r, s, (whole, are, same)) = serve-Served fuel (read_bytes input).1 last (omega arith) in
      (
        ((read_bytes input).0 ∷ r.0, r.1),
        rw (q, s),
        (
          ap (λ x. (read_bytes input).0 ++ x) whole ∙ read_bytes-append input,
          AreLines-cons (read_bytes input).0 r.0
              (elim (read_bytes-IsLine input) [ inl e ↦ absurd (n e) | inr l ↦ l ])
              (read_bytes-IsEnded input q) are,
          same,
        ),
      )
  | inr q ↦
      let (r, s, served) = last_line (read_bytes input).0 last (read_bytes-IsLine input) in
      (r, rw q s, (served.0 ∙ read_bytes-whole input q, served.1, served.2))
]
